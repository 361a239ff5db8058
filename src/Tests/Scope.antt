-- ===== src/Tests/Scope.antt =====
-- Request scopes on concrete inputs.
use bbt_framework.Tests.{test_infra}
use bbt_framework.Prelude.{arith, ◌≡◌, ◌≢◌, [], ◌∷◌, some, String}
use bbt_framework.Infra.{ok}
use bbt_framework.Host.Scope.{
  in_coroutine, Scopes, enter, leave, current_request_context, scope_restores,
}

-- Coroutine 4 runs inside the scope of an outer request.
abbrev outer : Scopes String
outer = record {
  co_scopes = (4, record { owner = 1; context = "outer" } ∷ []) ∷ [];
  thread_scopes = [];
}

abbrev inside : Scopes String
inside = enter (in_coroutine 4) 2 (some "inner") outer

abbrev overlapped : Scopes String
overlapped = enter (in_coroutine 4) 3 (some "later") inside

scope_restores_example :
    (current_request_context (in_coroutine 4) inside ≡ ok "inner")
    × (current_request_context (in_coroutine 4) overlapped ≡ ok "later")
    × (in_coroutine 4 ≢ in_coroutine 4
        → (current_request_context (in_coroutine 4) inside
            ≡ current_request_context (in_coroutine 4) outer)
          × (current_request_context (in_coroutine 4) overlapped
              ≡ current_request_context (in_coroutine 4) outer))
    × (current_request_context (in_coroutine 4) (leave (in_coroutine 4) 2 (some "inner") inside)
        ≡ current_request_context (in_coroutine 4) outer)
    × (current_request_context (in_coroutine 4) (leave (in_coroutine 4) 3 (some "later") overlapped)
        ≡ current_request_context (in_coroutine 4) inside)
    × (current_request_context (in_coroutine 4) (leave (in_coroutine 4) 2 (some "inner") overlapped)
        ≡ ok "later")
    × (current_request_context (in_coroutine 4) (
          leave
            (in_coroutine 4)
            3
            (some "later")
            (leave (in_coroutine 4) 2 (some "inner") overlapped))
        ≡ current_request_context (in_coroutine 4) outer)
scope_restores_example =
    scope_restores (in_coroutine 4) (in_coroutine 4) 2 3 "inner" "later" outer (omega arith)
