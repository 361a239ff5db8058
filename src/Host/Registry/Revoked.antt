-- ===== src/Host/Registry/Revoked.antt =====
-- framework/src/host/Registry.cc: observers, callbacks, revocations by `RevokeObserver` and the removals
-- of the observers of an object, their critical sections in any order. A revocation waits until no
-- callback of its observer runs; the erasure comes in a critical section of its own, some time after
-- the wait. `RevokeObserversOfLocked` marks several observers, and each pass of
-- `DrainInactiveObservers` erases several records: here these are several steps, one for each record.
use bbt_framework.Prelude.{
  ℕ, suc, ◌+◌, ◌-◌, ◌≡◌, ◌≤◌, ◌<◌, ◌⊎◌, inl, inr, refl, subst, Bool, true, false, not, ◌&&◌, ◌||◌,
  List, [], ◌∷◌, Option, none, some, ℕ_discrete, lookup, lookup-insert, lookup-erase, emplace, ltb,
  leb, ◌==◌, add64, u64_max, length, if◌then◌else◌, arith, Option-cases, Bool-cases, if_both,
}
use bbt_framework.Infra.{Infra, Result}
use bbt_framework.Host.Registry.{Registry}
use bbt_framework.Host.Registry.Observers.{
  ObserverRecord, ObserverTable, Handle, observe, begin_callback, end_callback, mark_revoked,
  is_quiet, observer_active, erase_observer, count_active, is_current,
}

-- The table, the observers whose callbacks run, each once for each callback, and those whose
-- revocation has waited.
pub record Observing : Type 0 where
  pub table : ObserverTable
  pub running : List ℕ
  pub waited : List ℕ

unfoldable pub times : ℕ → List ℕ → ℕ
times tid [] = 0
times tid (x ∷ xs) = (if x == tid then 1 else 0) + times tid xs

unfoldable pub remove_one : ℕ → List ℕ → List ℕ
remove_one tid [] = []
remove_one tid (x ∷ xs) = let rest = remove_one tid xs in if x == tid then xs else x ∷ rest

pub data Event : Type 0 where
  observes : Bool → Handle → Handle → Registry → Event
  begins ends marks waits erases drops clears : ℕ → Event

unfoldable pub no_observers : ℕ → Observing
no_observers max = record {
  table = record { observers = []; next_observer_id = 1; max_observers = max };
  running = [];
  waited = [];
}

module _ ⦃infra : Infra⦄ where
  -- A token was handed out before it is revoked; only a revocation that has waited erases.
  unfoldable pub step : Observing → Event → Observing
  step s (observes has_callback observer target r) = record s {
    table = (observe has_callback observer target r s.table).0;
  }
  step s (begins tid) = elim (begin_callback tid s.table) [
    | none ↦ s
    | some t ↦ record s { table = t; running = tid ∷ s.running }
  ]
  step s (ends tid) =
      if ltb 0 (times tid s.running)
      then record s { table = end_callback tid s.table; running = remove_one tid s.running }
      else s
  step s (marks tid) = record s { table = mark_revoked tid s.table }
  step s (waits tid) =
      if ltb tid s.table.next_observer_id
        && (not (observer_active tid s.table) && is_quiet tid s.table)
      then record s { waited = tid ∷ s.waited }
      else s
  step s (erases tid) =
      if ltb 0 (times tid s.waited) then record s { table = erase_observer tid s.table } else s
  -- `DrainInactiveObservers`: the first pass erases inactive records without a running callback, the
  -- last pass all inactive records.
  step s (drops tid) =
      if not (observer_active tid s.table) && is_quiet tid s.table
      then record s { table = erase_observer tid s.table }
      else s
  step s (clears tid) =
      if not (observer_active tid s.table)
      then record s { table = erase_observer tid s.table }
      else s

  unfoldable pub run : Observing → List Event → Observing
  unfolding step
  run s [] = s
  run s (e ∷ es) = run (step s e) es

  -- The last pass of a removal erases this observer only while none of its callbacks runs.
  abbrev pub IsSpared : ℕ → Observing → Event → Type 0
  IsSpared tid s (clears other) = other ≡ tid → is_quiet tid s.table ≡ true
  IsSpared tid s (observes _ _ _ _) = Unit {0}
  IsSpared tid s (begins _) = Unit {0}
  IsSpared tid s (ends _) = Unit {0}
  IsSpared tid s (marks _) = Unit {0}
  IsSpared tid s (waits _) = Unit {0}
  IsSpared tid s (erases _) = Unit {0}
  IsSpared tid s (drops _) = Unit {0}

  unfoldable pub Spared : ℕ → Observing → List Event → Type 0
  Spared tid s [] = Unit {0}
  Spared tid s (e ∷ es) = IsSpared tid s e × Spared tid (step s e) es

-- What holds of one observer: `n` of its callbacks run and `w` revocations have waited.
abbrev IsSound : Option ObserverRecord → ℕ → ℕ → Type 0
IsSound none n w = n ≡ 0
IsSound (some rec) n w = (rec.in_flight ≡ n) × ((w ≡ 0) ⊎ ((rec.active ≡ false) × (n ≡ 0)))

-- After `k` steps.
abbrev IsGood : ℕ → ℕ → Observing → Type 0
IsGood k tid s =
    IsSound (lookup ℕ_discrete tid s.table.observers) (times tid s.running) (times tid s.waited)
    × ((times tid s.waited ≡ 0) ⊎ (tid < s.table.next_observer_id))
    × (times tid s.running ≤ k)
    × (s.table.next_observer_id ≤ suc k)

times-remove_one :
    (tid other : ℕ) (xs : List ℕ)
    → 0 < times other xs
    → times tid (remove_one other xs) ≡ times tid xs - (if other == tid then 1 else 0)
unfolding times remove_one
times-remove_one tid other [] h = absurd (omega (arith, h))
times-remove_one tid other (x ∷ xs) h = ground (arith, times-remove_one tid other xs)

module _ ⦃infra : Infra⦄ where
  begins-IsGood :
      (k tid other : ℕ) (s : Observing)
      → k < u64_max
      → IsGood k tid s
      → IsGood (suc k) tid (step s (begins other))
  unfolding step begin_callback times
  begins-IsGood k tid other s room g =
      elim (Option-cases (lookup ℕ_discrete other s.table.observers)) [
        | inl e ↦ rw (e, step) (ground (arith, g))
        | inr (rec, e) ↦ elim (Bool-cases rec.active) [
          | inr off ↦ rw (e, off, step) (ground (arith, g))
          | inl on ↦
              rw (e, on, step)
                (ground (
                  arith,
                  g,
                  e,
                  on,
                  lookup-insert ℕ_discrete other tid
                      (record rec { in_flight = add64 rec.in_flight 1 }) s.table.observers,
                ))
        ]
      ]

  ends-IsGood :
      (k tid other : ℕ) (s : Observing) → IsGood k tid s → IsGood (suc k) tid (step s (ends other))
  unfolding step end_callback
  ends-IsGood k tid other s g = elim (Option-cases (lookup ℕ_discrete other s.table.observers)) [
    | inl e ↦ ground (arith, g, e, times-remove_one tid other s.running)
    | inr (rec, e) ↦ ground (
      arith,
      g,
      e,
      times-remove_one tid other s.running,
      lookup-insert ℕ_discrete other tid (record rec { in_flight = rec.in_flight - 1 })
          s.table.observers,
    )
  ]

  marks-IsGood :
      (k tid other : ℕ) (s : Observing) → IsGood k tid s → IsGood (suc k) tid (step s (marks other))
  unfolding step mark_revoked
  marks-IsGood k tid other s g = elim (Option-cases (lookup ℕ_discrete other s.table.observers)) [
    | inl e ↦ rw (e, mark_revoked) (ground (arith, g))
    | inr (rec, e) ↦
        rw (e, mark_revoked)
          (ground (
            arith,
            g,
            e,
            lookup-insert ℕ_discrete other tid (record rec { active = false }) s.table.observers,
          ))
  ]

  waits-IsGood :
      (k tid other : ℕ) (s : Observing) → IsGood k tid s → IsGood (suc k) tid (step s (waits other))
  unfolding step is_quiet observer_active times
  waits-IsGood k tid other s g = ground (arith, g)

  erases-IsGood :
      (k tid other : ℕ) (s : Observing)
      → IsGood k tid s
      → IsGood (suc k) tid (step s (erases other))
  unfolding step erase_observer
  erases-IsGood k tid other s g =
      ground (arith, g, lookup-erase ℕ_discrete other tid s.table.observers)

  drops-IsGood :
      (k tid other : ℕ) (s : Observing) → IsGood k tid s → IsGood (suc k) tid (step s (drops other))
  unfolding step is_quiet observer_active erase_observer
  drops-IsGood k tid other s g =
      ground (arith, g, lookup-erase ℕ_discrete other tid s.table.observers)

  clears-IsGood :
      (k tid other : ℕ) (s : Observing)
      → (other ≡ tid → is_quiet tid s.table ≡ true)
      → IsGood k tid s
      → IsGood (suc k) tid (step s (clears other))
  unfolding step is_quiet observer_active erase_observer
  clears-IsGood k tid other s quiet g = elim (ℕ_discrete other tid) [
    | no ne ↦ ground (arith, g, ne, lookup-erase ℕ_discrete other tid s.table.observers)
    | yes e ↦
        let calm = quiet e in
        ground (arith, g, e, calm, lookup-erase ℕ_discrete other tid s.table.observers)
  ]

  -- An observation is refused, or takes the next id.
  observe_cases {ℓ} :
      (P : ObserverTable → Type ℓ) (has_callback : Bool) (observer target : Handle) (r : Registry)
      (t : ObserverTable)
      → P t
      → ((rec : ObserverRecord)
          → rec.in_flight ≡ 0
          → P (record t {
            next_observer_id = add64 t.next_observer_id 1;
            observers = emplace ℕ_discrete t.next_observer_id rec t.observers;
          }))
      → P (observe has_callback observer target r t).0
  unfolding observe
  observe_cases P has_callback observer target r t refused new =
      if_both {A = ObserverTable × Result ℕ} (λ p. P p.0) (not has_callback) _ _ (λ _. refused)
        (λ _.
          if_both {A = ObserverTable × Result ℕ} (λ p. P p.0)
            (not observer.is_ours || not target.is_ours) _ _ (λ _. refused)
            (λ _.
              if_both {A = ObserverTable × Result ℕ} (λ p. P p.0)
                (leb t.max_observers (count_active t.observers)) _ _ (λ _. refused)
                (λ _.
                  if_both {A = ObserverTable × Result ℕ} (λ p. P p.0) (not (is_current observer r))
                    _ _ (λ _. refused)
                    (λ _.
                      if_both {A = ObserverTable × Result ℕ} (λ p. P p.0)
                        (not (is_current target r)) _ _ (λ _. refused) (λ _. new _ refl)))))

  observes-IsGood :
      (k tid : ℕ) (has_callback : Bool) (observer target : Handle) (r : Registry) (s : Observing)
      → suc k < u64_max
      → IsGood k tid s
      → IsGood (suc k) tid (step s (observes has_callback observer target r))
  unfolding step emplace
  observes-IsGood k tid has_callback observer target r s room g =
      observe_cases (λ t. IsGood (suc k) tid (record s { table = t })) has_callback observer target
        r s.table (ground (arith, g))
        (λ rec fresh.
          elim (Option-cases (lookup ℕ_discrete s.table.next_observer_id s.table.observers)) [
            | inl e ↦
                rw (e, emplace)
                  (ground (
                    arith,
                    g,
                    e,
                    fresh,
                    lookup-insert ℕ_discrete s.table.next_observer_id tid rec s.table.observers,
                  ))
            | inr (old, e) ↦ rw (e, emplace) (ground (arith, g))
          ])

  step-IsGood :
      (k tid : ℕ) (s : Observing) (e : Event)
      → suc k < u64_max
      → IsSpared tid s e
      → IsGood k tid s
      → IsGood (suc k) tid (step s e)
  step-IsGood k tid s (observes has_callback observer target r) room spared g =
      observes-IsGood k tid has_callback observer target r s room g
  step-IsGood k tid s (begins other) room spared g =
      begins-IsGood k tid other s (omega (arith, room)) g
  step-IsGood k tid s (ends other) room spared g = ends-IsGood k tid other s g
  step-IsGood k tid s (marks other) room spared g = marks-IsGood k tid other s g
  step-IsGood k tid s (waits other) room spared g = waits-IsGood k tid other s g
  step-IsGood k tid s (drops other) room spared g = drops-IsGood k tid other s g
  step-IsGood k tid s (clears other) room spared g = clears-IsGood k tid other s spared g
  step-IsGood k tid s (erases other) room spared g = erases-IsGood k tid other s g

  run-IsGood :
      (k tid : ℕ) (s : Observing) (es : List Event)
      → k + length es < u64_max
      → Spared tid s es
      → IsGood k tid s
      → IsGood (k + length es) tid (run s es)
  unfolding run Spared
  run-IsGood k tid s [] room spared g = subst (λ j. IsGood j tid s) (omega arith) g
  run-IsGood k tid s (e ∷ es) room spared g =
      let next : IsGood (suc k + length es) tid (run (step s e) es) =
        run-IsGood (suc k) tid (step s e) es (omega (arith, room)) spared.1
          (step-IsGood k tid s e (omega (arith, room)) spared.0 g) in
      subst (λ j. IsGood j tid (run (step s e) es)) (omega arith) next

  times-step :
      (tid : ℕ) (s : Observing) (e : Event) → times tid s.waited ≤ times tid (step s e).waited
  unfolding step times begin_callback
  times-step tid s (observes _ _ _ _) = omega arith
  times-step tid s (begins other) = ground arith
  times-step tid s (ends other) = ground arith
  times-step tid s (marks other) = omega arith
  times-step tid s (waits other) = ground arith
  times-step tid s (erases other) = ground arith
  times-step tid s (drops other) = ground arith
  times-step tid s (clears other) = ground arith

  times-run :
      (tid : ℕ) (s : Observing) (es : List Event) → times tid s.waited ≤ times tid (run s es).waited
  unfolding run
  times-run tid s [] = omega arith
  times-run tid s (e ∷ es) = omega (arith, times-step tid s e, times-run tid (step s e) es)

  start-IsGood : (max tid : ℕ) → IsGood 0 tid (no_observers max)
  unfolding no_observers times lookup
  start-IsGood max tid = (refl, inl refl, omega arith, omega arith)

  silent : (rec : Option ObserverRecord) (n w : ℕ) → 0 < w → IsSound rec n w → n ≡ 0
  silent none n w h g = g
  silent (some rec) n w h g = ground (arith, h, g)

  -- Observers come, callbacks begin and end, revocations mark, wait and erase, and removals of objects
  -- mark observers and erase records in their two passes, in any order, in a history shorter than the
  -- 64-bit ids and counters reach. Once the revocation of an observer has waited, none of its callbacks
  -- runs, then or at any later point of the history, provided that no last pass of a removal erases
  -- the record of this observer while one of its callbacks runs. Whatever is done to other observers
  -- makes no difference.
  pub revoked_silent :
      (max tid : ℕ) (before after : List Event)
      → length before + length after < u64_max
      → Spared tid (no_observers max) before
      → Spared tid (run (no_observers max) before) after
      → 0 < times tid (run (no_observers max) before).waited
      → times tid (run (run (no_observers max) before) after).running ≡ 0
  revoked_silent max tid before after room spared later waited =
      let s = run (no_observers max) before in
      let good = run-IsGood (0 + length before) tid s after (omega (arith, room)) later (
        run-IsGood 0 tid (no_observers max) before (omega (arith, room)) spared
          (start-IsGood max tid)) in
      silent _ (times tid (run s after).running) (times tid (run s after).waited)
        (omega (arith, waited, times-run tid s after)) good.0
