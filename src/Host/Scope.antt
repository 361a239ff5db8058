-- ===== src/Host/Scope.antt =====
-- framework/src/host/RequestScope.cc: the request contexts bound to the running coroutines and
-- threads. A scope binds its context when it is constructed and unbinds it when it is destroyed.
use bbt_framework.Prelude.{
  ℕ, ◌≡◌, ◌≢◌, refl, ap, List, [], ◌∷◌, Option, none, some, ℕ_discrete, Dict, lookup, insert, erase,
  lookup-insert, lookup-erase, ◌==◌, if◌then◌else◌, arith, Option-cases, inl, inr,
}
use bbt_framework.Infra.{Infra, make_error, Result, ok, err, invalid_context}

-- Where code runs: in a coroutine, whose id is not 0, or on a thread outside of all coroutines.
pub data Place : Type 0 where
  in_coroutine : ℕ → Place
  on_thread : ℕ → Place

-- A context with the identity of the scope that bound it. The last one bound stands first.
pub record ScopeEntry (C : Type 0) : Type 0 where
  pub owner : ℕ
  pub context : C

-- `g_co_scopes` and `g_thread_scopes`
pub record Scopes (C : Type 0) : Type 0 where
  pub co_scopes : Dict ℕ (List (ScopeEntry C))
  pub thread_scopes : Dict ℕ (List (ScopeEntry C))

module _ {C : Type 0} where
  abbrev pub stack_of : Option (List (ScopeEntry C)) → List (ScopeEntry C)
  stack_of none = []
  stack_of (some stack) = stack

  unfoldable pub push :
      ℕ → ScopeEntry C → Dict ℕ (List (ScopeEntry C)) → Dict ℕ (List (ScopeEntry C))
  push key e m = insert ℕ_discrete key (e ∷ stack_of (lookup ℕ_discrete key m)) m

  -- The last entry of the owner goes.
  unfoldable pub remove_owner : ℕ → List (ScopeEntry C) → List (ScopeEntry C)
  remove_owner owner [] = []
  remove_owner owner (e ∷ es) =
      let rest = remove_owner owner es in if e.owner == owner then es else e ∷ rest

  -- A stack that has become empty goes too.
  unfoldable pub put_back :
      ℕ → List (ScopeEntry C) → Dict ℕ (List (ScopeEntry C)) → Dict ℕ (List (ScopeEntry C))
  put_back key [] m = erase ℕ_discrete key m
  put_back key (e ∷ es) m = insert ℕ_discrete key (e ∷ es) m

  unfoldable pub erase_scope_entry :
      ℕ → ℕ → Dict ℕ (List (ScopeEntry C)) → Dict ℕ (List (ScopeEntry C))
  unfolding remove_owner put_back
  erase_scope_entry key owner m = elim (lookup ℕ_discrete key m) [
    | none ↦ m
    | some stack ↦ put_back key (remove_owner owner stack) m
  ]

  -- The constructor of `RequestScope`; a scope without a context binds nothing.
  unfoldable pub enter : Place → ℕ → Option C → Scopes C → Scopes C
  unfolding push
  enter place owner none s = s
  enter (in_coroutine key) owner (some context) s =
      let e : ScopeEntry C = record { owner = owner; context = context } in
      record s { co_scopes = push key e s.co_scopes }
  enter (on_thread key) owner (some context) s =
      let e : ScopeEntry C = record { owner = owner; context = context } in
      record s { thread_scopes = push key e s.thread_scopes }

  -- The destructor, at the place that the constructor recorded.
  unfoldable pub leave : Place → ℕ → Option C → Scopes C → Scopes C
  unfolding erase_scope_entry
  leave place owner none s = s
  leave (in_coroutine key) owner (some context) s = record s {
    co_scopes = erase_scope_entry key owner s.co_scopes;
  }
  leave (on_thread key) owner (some context) s = record s {
    thread_scopes = erase_scope_entry key owner s.thread_scopes;
  }

  abbrev top : ⦃infra : Infra⦄ → List (ScopeEntry C) → Result C
  top [] =
      err
        (make_error invalid_context "no managed request context bound to current coroutine/thread")
  top (e ∷ es) = ok e.context

  unfoldable pub current_request_context : ⦃infra : Infra⦄ → Place → Scopes C → Result C
  current_request_context (in_coroutine key) s = top (stack_of (lookup ℕ_discrete key s.co_scopes))
  current_request_context (on_thread key) s = top (stack_of (lookup ℕ_discrete key s.thread_scopes))

  -- What is bound at a place, the innermost first.
  abbrev pub bound_at : Place → Scopes C → List (ScopeEntry C)
  bound_at (in_coroutine key) s = stack_of (lookup ℕ_discrete key s.co_scopes)
  bound_at (on_thread key) s = stack_of (lookup ℕ_discrete key s.thread_scopes)

  stack-push :
      (k j : ℕ) (e : ScopeEntry C) (m : Dict ℕ (List (ScopeEntry C)))
      → stack_of (lookup ℕ_discrete j (push k e m)) ≡ (
          if k == j then e ∷ stack_of (lookup ℕ_discrete k m) else stack_of (lookup ℕ_discrete j m))
  unfolding push
  stack-push k j e m =
      ground (arith, lookup-insert ℕ_discrete k j (e ∷ stack_of (lookup ℕ_discrete k m)) m)

  stack-put_back :
      (k j : ℕ) (es : List (ScopeEntry C)) (m : Dict ℕ (List (ScopeEntry C)))
      → stack_of (lookup ℕ_discrete j (put_back k es m))
        ≡ (if k == j then es else stack_of (lookup ℕ_discrete j m))
  unfolding put_back
  stack-put_back k j [] m = ground (arith, lookup-erase ℕ_discrete k j m)
  stack-put_back k j (e ∷ es) m = ground (arith, lookup-insert ℕ_discrete k j (e ∷ es) m)

  stack-erase :
      (k j owner : ℕ) (m : Dict ℕ (List (ScopeEntry C)))
      → stack_of (lookup ℕ_discrete j (erase_scope_entry k owner m)) ≡ (
          if k == j
          then remove_owner owner (stack_of (lookup ℕ_discrete k m))
          else stack_of (lookup ℕ_discrete j m))
  unfolding erase_scope_entry
  stack-erase k j owner m = elim (Option-cases (lookup ℕ_discrete k m)) [
    | inl q ↦ ground arith
    | inr (stack, q) ↦ ground (arith, stack-put_back k j (remove_owner owner stack) m)
  ]

  -- After a push and the removal of its owner, every stack is what it was.
  stack-restored :
      (k j owner : ℕ) (c : C) (m : Dict ℕ (List (ScopeEntry C)))
      → stack_of (
          lookup ℕ_discrete j
            (erase_scope_entry k owner (push k (record { owner = owner; context = c }) m)))
        ≡ stack_of (lookup ℕ_discrete j m)
  unfolding remove_owner
  stack-restored k j owner c m =
      let e : ScopeEntry C = record { owner = owner; context = c } in
      ground (arith, stack-erase k j owner (push k e m), stack-push k j e m, stack-push k k e m)

  -- A scope that began later in the same place and that outlives the first one.
  stack-overlapped :
      (k j owner later : ℕ) (c d : C) (m : Dict ℕ (List (ScopeEntry C)))
      → later ≢ owner
      → stack_of (
          lookup ℕ_discrete j (
            erase_scope_entry k owner (
              push k
                (record { owner = later; context = d })
                (push k (record { owner = owner; context = c }) m))))
        ≡ stack_of (lookup ℕ_discrete j (push k (record { owner = later; context = d }) m))
  unfolding remove_owner
  stack-overlapped k j owner later c d m ne =
      let e : ScopeEntry C = record { owner = owner; context = c } in
      let f : ScopeEntry C = record { owner = later; context = d } in
      ground (
        arith,
        ne,
        stack-erase k j owner (push k f (push k e m)),
        stack-push k j f (push k e m),
        stack-push k k f (push k e m),
        stack-push k j e m,
        stack-push k k e m,
        stack-push k j f m,
      )

  -- Both go, in the order in which they began.
  stack-outlived :
      (k j owner later : ℕ) (c d : C) (m : Dict ℕ (List (ScopeEntry C)))
      → later ≢ owner
      → stack_of (
          lookup ℕ_discrete j (
            erase_scope_entry k later (
              erase_scope_entry k owner (
                push k
                  (record { owner = later; context = d })
                  (push k (record { owner = owner; context = c }) m)))))
        ≡ stack_of (lookup ℕ_discrete j m)
  unfolding remove_owner
  stack-outlived k j owner later c d m ne =
      let e : ScopeEntry C = record { owner = owner; context = c } in
      let f : ScopeEntry C = record { owner = later; context = d } in
      let left = erase_scope_entry k owner (push k f (push k e m)) in
      ground (
        arith,
        stack-erase k j later left,
        stack-overlapped k j owner later c d m ne,
        stack-overlapped k k owner later c d m ne,
        stack-push k j f m,
        stack-push k k f m,
      )

  -- What a place sees of a scope, and of a second one that begins inside the first and outlives it.
  stack-scopes :
      ⦃infra : Infra⦄ (k j owner later : ℕ) (c d : C) (m : Dict ℕ (List (ScopeEntry C)))
      → later ≢ owner
      → (let see : ℕ → Dict ℕ (List (ScopeEntry C)) → Result C =
            λ j m. top (stack_of (lookup ℕ_discrete j m)) in
          let within = push k (record { owner = owner; context = c }) m in
          let both = push k (record { owner = later; context = d }) within in
          (see k within ≡ ok c)
          × (see k both ≡ ok d)
          × (j ≢ k → (see j within ≡ see j m) × (see j both ≡ see j m))
          × (see j (erase_scope_entry k owner within) ≡ see j m)
          × (see j (erase_scope_entry k later both) ≡ see j within)
          × (see k (erase_scope_entry k owner both) ≡ ok d)
          × (see j (erase_scope_entry k later (erase_scope_entry k owner both)) ≡ see j m))
  stack-scopes k j owner later c d m ne =
      let e : ScopeEntry C = record { owner = owner; context = c } in
      let f : ScopeEntry C = record { owner = later; context = d } in
      let within = push k e m in
      (
        ground (arith, stack-push k k e m),
        ground (arith, stack-push k k f within),
        λ n. (
          ground (arith, n, stack-push k j e m),
          ground (arith, n, stack-push k j f within, stack-push k j e m),
        ),
        ap top (stack-restored k j owner c m),
        ap top (stack-restored k j later d within),
        ground (arith, stack-overlapped k k owner later c d m ne, stack-push k k f m),
        ap top (stack-outlived k j owner later c d m ne),
      )

  -- A scope begins, and a second one in the same place inside it. Each shows its context there once it
  -- has begun, and no other place sees a change. The end of the first one, when it is alone, restores
  -- what every place saw before it, and the end of the second one, when it comes first, what every
  -- place saw inside the first. If the first one ends before the second, the place sees the context of
  -- the second one still; and the end of the second one then restores what every place saw before both.
  pub scope_restores :
      ⦃infra : Infra⦄ (place other : Place) (owner later : ℕ) (c d : C) (s : Scopes C)
      → later ≢ owner
      → (let see = current_request_context in
          let within = enter place owner (some c) s in
          let both = enter place later (some d) within in
          (see place within ≡ ok c)
          × (see place both ≡ ok d)
          × (other ≢ place → (see other within ≡ see other s) × (see other both ≡ see other s))
          × (see other (leave place owner (some c) within) ≡ see other s)
          × (see other (leave place later (some d) both) ≡ see other within)
          × (see place (leave place owner (some c) both) ≡ ok d)
          × (see other (leave place later (some d) (leave place owner (some c) both))
              ≡ see other s))
  unfolding current_request_context enter leave
  scope_restores (in_coroutine k) (in_coroutine j) owner later c d s ne =
      let r = stack-scopes k j owner later c d s.co_scopes ne in
      (r.0, r.1, λ n. r.2 (λ e. n (ap in_coroutine e)), r.3, r.4, r.5, r.6)
  scope_restores (in_coroutine k) (on_thread j) owner later c d s ne =
      let r = stack-scopes k k owner later c d s.co_scopes ne in
      (r.0, r.1, λ n. (refl, refl), refl, refl, r.5, refl)
  scope_restores (on_thread k) (in_coroutine j) owner later c d s ne =
      let r = stack-scopes k k owner later c d s.thread_scopes ne in
      (r.0, r.1, λ n. (refl, refl), refl, refl, r.5, refl)
  scope_restores (on_thread k) (on_thread j) owner later c d s ne =
      let r = stack-scopes k j owner later c d s.thread_scopes ne in
      (r.0, r.1, λ n. r.2 (λ e. n (ap on_thread e)), r.3, r.4, r.5, r.6)
