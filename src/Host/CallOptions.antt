-- ===== src/Host/CallOptions.antt =====
-- framework/src/host/CallOptionsAdapter.cc: the deadline of an outgoing call and the order of its
-- side effects. Deadlines are points of a clock, of which `never` is the largest. The hooks belong
-- to the caller: a hook that is not installed is `none`, and one that is gives its answer.
use bbt_framework.Prelude.{
  ℕ, ◌≤◌, ◌<◌, ◌≡◌, ◌≢◌, Bool, not, List, [], ◌∷◌, Option, none, some, leb, ltb, ◌==◌,
  if◌then◌else◌, arith,
}
use bbt_framework.Infra.{
  Infra, Error, make_error, Result, ok, err, invalid_argument, timed_out, runtime_unavailable,
}

pub data Effect : Type 0 where
  consume_sequence initiate_io : Effect

pub record Hooks : Type 0 where
  pub consumes : Option (Result (Unit {0}))
  pub initiates : Option (Result (Unit {0}))

-- The effects of a call, in order, and its reply: the deadline that infra is given.
abbrev pub Reply : Type 0
Reply = List Effect × Result ℕ

-- What a deadline has to respect.
abbrev pub IsWithin : ℕ → Option ℕ → Type 0
IsWithin d none = Unit {0}
IsWithin d (some limit) = d ≤ limit

module _ ⦃infra : Infra⦄ (never now : ℕ) where
  unfoldable pub effective_deadline : Option ℕ → Option ℕ → Result ℕ
  effective_deadline none none =
      err (make_error invalid_argument "top-level call requires a finite deadline")
  effective_deadline none (some deadline) =
      if deadline == never
      then err (make_error invalid_argument "top-level call requires a finite deadline")
      else ok deadline
  effective_deadline (some budget) none =
      if budget == never
      then err (make_error invalid_argument "no finite call budget inherited from parent request")
      else ok budget
  effective_deadline (some budget) (some deadline) =
      let least = if ltb budget deadline then budget else deadline in
      if least == never
      then err (make_error invalid_argument "no finite call budget inherited from parent request")
      else ok least

  unfoldable pub start_io : List Effect → ℕ → Result (Unit {0}) → Reply
  start_io done effective (ok _) = (done, ok effective)
  start_io done effective (err e) = (done, err e)

  -- The hooks in order: the sequence of an ordered call, then the call itself.
  unfoldable pub call_hooks : Bool → ℕ → Hooks → Reply
  unfolding start_io
  call_hooks ordered effective hooks = elim hooks.initiates [
    | none ↦ ([], err (make_error runtime_unavailable "egress io hook not installed"))
    | some io ↦
        if not ordered then start_io (initiate_io ∷ []) effective io else elim hooks.consumes [
          | none ↦ (
            [],
            err (make_error invalid_argument "ordered call requires a sequence consumer hook"),
          )
          | some (err e) ↦ (consume_sequence ∷ [], err e)
          | some (ok _) ↦ start_io (consume_sequence ∷ initiate_io ∷ []) effective io
        ]
  ]

  -- `AdaptCallOptions`: the deadline of the parent request, if there is one, that of the options,
  -- and whether the call is ordered.
  unfoldable pub adapt_call_options : Option ℕ → Option ℕ → Bool → Hooks → Reply
  unfolding effective_deadline call_hooks
  adapt_call_options parent deadline ordered hooks = elim (effective_deadline parent deadline) [
    | err e ↦ ([], err e)
    | ok effective ↦
        if leb effective now
        then ([], err (make_error timed_out "call budget already expired before egress io"))
        else call_hooks ordered effective hooks
  ]

  -- The deadline of a call that is made is finite and still ahead, and is later neither than that of
  -- the parent request nor than the one that was asked for.
  pub adapt_in_budget :
      (parent deadline : Option ℕ) (ordered : Bool) (hooks : Hooks) (es : List Effect) (d : ℕ)
      → adapt_call_options parent deadline ordered hooks ≡ (es, ok d)
      → (d ≢ never) × (now < d) × IsWithin d parent × IsWithin d deadline
  unfolding adapt_call_options call_hooks effective_deadline start_io
  adapt_in_budget none none ordered hooks es d h = ground arith
  adapt_in_budget none (some x) ordered hooks es d h = ground arith
  adapt_in_budget (some p) none ordered hooks es d h = ground arith
  adapt_in_budget (some p) (some x) ordered hooks es d h = ground arith

  -- The hook is not installed, or it succeeds.
  abbrev pub Succeeds : Option (Result (Unit {0})) → Type 0
  Succeeds none = Unit {0}
  Succeeds (some (ok _)) = Unit {0}
  Succeeds (some (err _)) = ⊥

  -- The only refusals that come after a side effect are those of the hooks: where no installed hook
  -- fails, a call that fails has consumed no sequence and has started no transfer.
  pub adapt_refuses_first :
      (parent deadline : Option ℕ) (ordered : Bool) (hooks : Hooks) (e : Error)
      → Succeeds hooks.consumes
      → Succeeds hooks.initiates
      → (adapt_call_options parent deadline ordered hooks).1 ≡ err e
      → (adapt_call_options parent deadline ordered hooks).0 ≡ []
  unfolding adapt_call_options call_hooks start_io
  adapt_refuses_first parent deadline ordered hooks e x y h = ground arith
