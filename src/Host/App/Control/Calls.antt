-- ===== src/Host/App/Control/Calls.antt =====
-- The calls of hooks (framework/src/host/App.cc) and the events that they leave.
use bbt_framework.Prelude.{
  ◌≡◌, ◌⊎◌, inl, inr, refl, sym, ap, ◌∙◌, Bool, true, false, List, [], ◌∷◌, ◌++◌, none, some,
  String, arith, Option-cases,
}
use bbt_framework.Infra.{Infra, Result, ok, err, Result-cases}
use bbt_framework.Host.Registry.{first_entry}
use bbt_framework.Host.App.Bind.{on_entry}
use bbt_framework.Host.App.History.{hook_begins}
use bbt_framework.Host.App.Control.{
  Hook, Outside, Event, hooked, succeeded, CoApp, wait_hooks_settled, await_hook, run_hook_co,
  finish_hook_wait, run_hook_caught,
}

abbrev pub is_ok : Result (Unit {0}) → Bool
is_ok (ok _) = true
is_ok (err _) = false

abbrev pub IsGone : String → CoApp → Type 0
IsGone id c = first_entry id c.registry.entries ≡ none

-- What one call of a hook leaves, and whether it succeeded: the object is gone, the call is refused
-- before the hook, or the hook has been called, and then its answer decides.
pub data Trace (hook : Hook) (id : String) (absent rejected : Type 0) (answer : Result (Unit {0}))
    : List Event → Bool → Type 0 where
  gone : absent → Trace hook id absent rejected answer [] true
  refused : rejected → Trace hook id absent rejected answer [] false
  broken : is_ok answer ≡ false → Trace hook id absent rejected answer (hooked hook id ∷ []) false
  full :
      is_ok answer ≡ true
      → Trace hook id absent rejected answer (hooked hook id ∷ succeeded hook id ∷ []) true

pub append_two : (xs : List Event) (a b : Event) → (xs ++ a ∷ []) ++ b ∷ [] ≡ xs ++ a ∷ b ∷ []
append_two [] a b = refl
append_two (x ∷ xs) a b = ground (arith, append_two xs a b)

pub append_nil : (xs : List Event) → xs ≡ xs ++ []
append_nil [] = refl
append_nil (x ∷ xs) = ap (λ ys. x ∷ ys) (append_nil xs)

module _ ⦃infra : Infra⦄ (outside : Outside) (hook : Hook) (id : String) where
  -- Why a hook is not called: an earlier one did not settle, or the scheduler does not take it.
  abbrev pub IsRejected : CoApp → Type 0
  IsRejected c =
      (is_ok (wait_hooks_settled outside id c).1 ≡ false)
      ⊎ ((m : String) × (outside.refuses hook id
              (on_entry id hook_begins (wait_hooks_settled outside id c).0.registry)
            ≡ some m))

  -- What the hook and the wait for it answer.
  abbrev pub co_answer : CoApp → Result (Unit {0})
  co_answer c =
      let (r, status, end) =
        outside.awaited hook id
          (on_entry id hook_begins (wait_hooks_settled outside id c).0.registry) in
      finish_hook_wait status (run_hook_caught end)

  -- A hook in a coroutine of its own, called at `c`.
  abbrev pub CoTrace : CoApp → List Event → Bool → Type 0
  CoTrace c =
      Trace hook id (IsGone id (wait_hooks_settled outside id c).0) (IsRejected c) (co_answer c)

module _ ⦃infra : Infra⦄ (outside : Outside) (hook : Hook) (phase id : String) where
  -- The events of a call, with the state that it leaves.
  pub record Call (c : CoApp) (done : CoApp × Result (Unit {0})) : Type 0 where
    pub events : List Event
    pub noted : done.0.events ≡ c.events ++ events
    pub trace : CoTrace outside hook id c events (is_ok done.1)

  wait-events : (c : CoApp) → (wait_hooks_settled outside id c).0.events ≡ c.events
  unfolding wait_hooks_settled
  wait-events c = elim (Option-cases (first_entry id c.registry.entries)) [
    | inl nothing ↦ ground (arith, nothing)
    | inr (e, found) ↦ ground (arith, found)
  ]

  await_hook-Call :
      (c begun : CoApp)
      → begun.events ≡ c.events ++ hooked hook id ∷ []
      → begun.registry ≡ on_entry id hook_begins (wait_hooks_settled outside id c).0.registry
      → Call c (await_hook outside hook phase id begun)
  unfolding await_hook
  await_hook-Call c begun h at =
      let (r, status, end) = outside.awaited hook id begun.registry in
      let same : finish_hook_wait status (run_hook_caught end) ≡ co_answer outside hook id c =
        ap
          (λ g.
            finish_hook_wait (outside.awaited hook id g).1
              (run_hook_caught (outside.awaited hook id g).2))
          at in
      elim (Result-cases (finish_hook_wait status (run_hook_caught end))) [
        | inl (e, p) ↦
            rw (p, await_hook)
              (record {
                events = hooked hook id ∷ [];
                noted = h;
                trace = broken (ap is_ok (sym same ∙ p));
              })
        | inr (_, p) ↦
            rw (p, await_hook)
              (record {
                events = hooked hook id ∷ succeeded hook id ∷ [];
                noted =
                    ap (λ es. es ++ succeeded hook id ∷ []) h
                    ∙ append_two c.events (hooked hook id) (succeeded hook id);
                trace = full (ap is_ok (sym same ∙ p));
              })
      ]

  pub run_hook_co-Call : (c : CoApp) → Call c (run_hook_co outside hook phase id c)
  unfolding run_hook_co
  run_hook_co-Call c = elim (Result-cases (wait_hooks_settled outside id c).1) [
    | inl (e, p) ↦
        rw (p, run_hook_co)
          (record {
            events = [];
            noted = wait-events c ∙ append_nil c.events;
            trace = refused (inl (ap is_ok p));
          })
    | inr (_, p) ↦
        elim (Option-cases (first_entry id (wait_hooks_settled outside id c).0.registry.entries)) [
          | inl nothing ↦
              rw (p, run_hook_co)
                (rw (nothing, run_hook_co)
                  (record {
                    events = [];
                    noted = wait-events c ∙ append_nil c.events;
                    trace = gone nothing;
                  }))
          | inr (e, found) ↦
              elim (Option-cases (
                outside.refuses hook id
                  (on_entry id hook_begins (wait_hooks_settled outside id c).0.registry))) [
                    | inl takes ↦
                        rw (p, run_hook_co)
                          (rw (found, run_hook_co)
                            (rw (takes, run_hook_co)
                              (await_hook-Call c _
                                (ap (λ es. es ++ hooked hook id ∷ []) (wait-events c)) refl)))
                    | inr (m, no_task) ↦
                        rw (p, run_hook_co)
                          (rw (found, run_hook_co)
                            (rw (no_task, run_hook_co)
                              (record {
                                events = [];
                                noted = wait-events c ∙ append_nil c.events;
                                trace = refused (inr (m, no_task));
                              })))
                  ]
        ]
  ]
