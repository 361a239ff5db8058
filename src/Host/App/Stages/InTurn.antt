-- ===== src/Host/App/Stages/InTurn.antt =====
-- `CoStart`, `CoPause` and `CoResume` (framework/src/host/App.cc) as wholes.
use bbt_framework.Prelude.{
  ◌≡◌, ◌≢◌, ◌⊎◌, inl, inr, refl, sym, ap, ◌∙◌, subst, Bool, true, false, List, ◌∷◌, ◌++◌, String,
  arith, Bool-cases,
}
use bbt_framework.Infra.{Infra, Error, Result, ok, err, Result-cases}
use bbt_framework.Host.Registry.{ObjectState, running, paused, installed, service}
use bbt_framework.Host.Registry.Views.{ids_in_state}
use bbt_framework.Host.App.StartOrder.{component_start_order}
use bbt_framework.Host.App.Control.{
  Hook, on_start, on_pause, on_resume, Outside, Event, CoApp, in_state, AppState, app_running,
  app_starting, app_paused, app_created, app_stopped, app_stop_incomplete, app_stopping,
}
use bbt_framework.Host.App.Control.Calls.{is_ok}
use bbt_framework.Host.App.Stages.{
  AppOptions, start_each, start_all, start_from, start, pause_from, pause, resume_from, resume,
  validate, only_installed, note_cycle, turn_each, exclusively,
}
use bbt_framework.Host.App.Stages.Started.{
  Turns, all_done, stops, goes_on, Turned, start_each-Run, turn_each-Run, append_assoc, starts_it,
  runs_it, as_it_is, puts_it,
}

-- Whom a start calls: the installed components in the order of their start, then the installed
-- services as they were registered.
abbrev pub to_start : CoApp → List String
to_start c =
    only_installed c.registry.entries (component_start_order c.registry.entries).order
    ++ ids_in_state service installed c.registry.entries

-- The answer of a transition that was refused at its guards.
abbrev pub IsRefused : CoApp → CoApp × Result (Unit {0}) → Type 0
IsRefused c done = (done.0.events ≡ c.events) × (is_ok done.1 ≡ false)

module _ ⦃infra : Infra⦄ (outside : Outside) where
  module _ {hook : Hook} {phase : String} {begins ends : String → CoApp → CoApp} where
    Turns-append :
        {ids js : List String} {c mid last : CoApp} {es fs : List Event} {b d : Bool}
        → Turns outside hook phase begins ends ids c es b mid
        → b ≡ true
        → Turns outside hook phase begins ends js mid fs d last
        → Turns outside hook phase begins ends (ids ++ js) c (es ++ fs) d last
    Turns-append {js = js} {last = last} {fs = fs} {d = d} (all_done e) h rest =
        subst (λ c. Turns outside hook phase begins ends js c fs d last) e rest
    Turns-append (stops t) h rest = absurd (ground (arith, h))
    Turns-append {js = js} {last = last} {fs = fs} {d = d}
          (goes_on {id} {ids} {c} {es = es} {fs = gs} t more) h rest =
        subst (λ l. Turns outside hook phase begins ends (id ∷ (ids ++ js)) c l d last)
          (sym (append_assoc es gs fs)) (goes_on t (Turns-append more h rest))

    Turns-short :
        {ids : List String} {c mid last : CoApp} {es : List Event} {b : Bool} (js : List String)
        → Turns outside hook phase begins ends ids c es b mid
        → b ≡ false
        → Turns outside hook phase begins ends (ids ++ js) c es false last
    Turns-short js (all_done e) h = absurd (ground (arith, h))
    Turns-short js (stops t) h = stops t
    Turns-short js (goes_on t more) h = goes_on t (Turns-short js more h)

  note_cycle-events : (b : Bool) (c : CoApp) → (note_cycle outside b c).events ≡ c.events
  note_cycle-events true c = refl
  note_cycle-events false c = refl

  -- The state in which a start comes to its first object.
  abbrev pub at_start : CoApp → CoApp
  at_start c =
      note_cycle outside (component_start_order c.registry.entries).cycle (in_state app_starting c)

  abbrev pub StartTurned : CoApp → CoApp × Result (Unit {0}) → Type 0
  StartTurned c =
      Turned outside on_start "start" (starts_it outside) (runs_it outside) (to_start c)
        (at_start c) c

  start_all-Turned : (c : CoApp) → StartTurned c (start_all outside c)
  unfolding start_all
  start_all-Turned c =
      let es = c.registry.entries in
      let comps = only_installed es (component_start_order es).order in
      let svcs = ids_in_state service installed es in
      let begun = at_start c in
      let same = note_cycle-events (component_start_order es).cycle (in_state app_starting c) in
      let first = start_each outside comps begun in
      let h = start_each-Run outside comps begun in
      let noted : first.0.events ≡ c.events ++ h.events = h.noted ∙ ap (λ l. l ++ h.events) same in
      elim (Result-cases first.1) [
        | inl (e, p) ↦
            rw (p, start_all)
              (record {
                events = h.events;
                last = first.0;
                noted = noted;
                turned = Turns-short svcs h.turned (ap is_ok p);
              })
        | inr (_, p) ↦
            let second = start_each outside svcs first.0 in
            let k = start_each-Run outside svcs first.0 in
            let all =
              k.noted ∙ ap (λ l. l ++ k.events) noted ∙ append_assoc c.events h.events k.events in
            let turned = Turns-append h.turned (ap is_ok p) k.turned in
            let turned_as = λ (b : Bool).
              Turns outside on_start "start" (starts_it outside) (runs_it outside) (comps ++ svcs)
                begun (h.events ++ k.events) b second.0 in
            elim (Result-cases second.1) [
              | inl (e, q) ↦
                  rw (p, start_all)
                    (rw (q, start_all)
                      (record {
                        events = h.events ++ k.events;
                        last = second.0;
                        noted = all;
                        turned = subst turned_as (ap is_ok q) turned;
                      }))
              | inr (_, q) ↦
                  rw (p, start_all)
                    (rw (q, start_all)
                      (record {
                        events = h.events ++ k.events;
                        last = second.0;
                        noted = all;
                        turned = subst turned_as (ap is_ok q) turned;
                      }))
            ]
      ]

  -- A run of `turn_each`, whose end changes the state of the application at most.
  abbrev pub TurnTurned :
      Hook → String → ObjectState → List String → CoApp → CoApp × Result (Unit {0}) → Type 0
  TurnTurned hook phase s ids c = Turned outside hook phase as_it_is (puts_it outside s) ids c c

  turn_each-Turned :
      (hook : Hook) (phase : String) (s : ObjectState) (ids : List String) (c after : CoApp)
      (r : Result (Unit {0}))
      → after.events ≡ (turn_each outside hook phase s ids c).0.events
      → is_ok (turn_each outside hook phase s ids c).1 ≡ is_ok r
      → TurnTurned hook phase s ids c (after, r)
  turn_each-Turned hook phase s ids c after r same b =
      let h = turn_each-Run outside hook phase s ids c in
      record {
        events = h.events;
        last = (turn_each outside hook phase s ids c).0;
        noted = same ∙ h.noted;
        turned =
            subst
              (λ d.
                Turns outside hook phase as_it_is (puts_it outside s) ids c h.events d
                  (turn_each outside hook phase s ids c).0)
              b h.turned;
      }

  -- A transition is barred, and refused without a call of a hook, or it is allowed, and its hooks take
  -- their turns.
  abbrev pub Outcome : Type 0 → Type 0 → CoApp → CoApp × Result (Unit {0}) → Type 0 → Type 0
  Outcome barred allowed c done turned = (IsRefused c done × barred) ⊎ (allowed × turned)

  -- Whether a start may begin, once it is the only transition.
  abbrev pub StartBarred : AppOptions → AppState → Type 0
  StartBarred options s =
      ((s ≢ app_created) × (s ≢ app_paused)) ⊎ ((e : Error) × (validate options ≡ err e))

  abbrev pub StartAllowed : AppOptions → AppState → Type 0
  StartAllowed options s = ((s ≡ app_created) ⊎ (s ≡ app_paused)) × (validate options ≡ ok tt)

  start_from-Outcome :
      (options : AppOptions) (s : AppState) (c : CoApp)
      → Outcome
          (StartBarred options s)
          (StartAllowed options s)
          c
          (start_from outside options s c)
          (StartTurned c (start_from outside options s c))
  unfolding start_from
  start_from-Outcome options app_created c = elim (Result-cases (validate options)) [
    | inl (e, p) ↦ inl (rw (p, start_from) (refl, refl), inr (e, p))
    | inr (_, p) ↦ inr ((inl refl, p), rw (p, start_from) (start_all-Turned c))
  ]
  start_from-Outcome options app_paused c = elim (Result-cases (validate options)) [
    | inl (e, p) ↦ inl (rw (p, start_from) (refl, refl), inr (e, p))
    | inr (_, p) ↦ inr ((inr refl, p), rw (p, start_from) (start_all-Turned c))
  ]
  start_from-Outcome options app_stopped c = inl ((refl, refl), inl ((cc), (cc)))
  start_from-Outcome options app_stop_incomplete c = inl ((refl, refl), inl ((cc), (cc)))
  start_from-Outcome options app_starting c = inl ((refl, refl), inl ((cc), (cc)))
  start_from-Outcome options app_running c = inl ((refl, refl), inl ((cc), (cc)))
  start_from-Outcome options app_stopping c = inl ((refl, refl), inl ((cc), (cc)))

  pause_from-Outcome :
      (s : AppState) (c : CoApp)
      → Outcome (s ≢ app_running) (s ≡ app_running) c (pause_from outside s c) (
          TurnTurned on_pause "pause" paused
            (ids_in_state service running c.registry.entries)
            c
            (pause_from outside s c))
  unfolding pause_from
  pause_from-Outcome app_running c =
      let svcs = ids_in_state service running c.registry.entries in
      let turn = turn_each-Turned on_pause "pause" paused svcs c in
      elim (Result-cases (turn_each outside on_pause "pause" paused svcs c).1) [
        | inl (e, p) ↦ inr (refl, rw (p, pause_from) (turn _ (err e) refl (ap is_ok p)))
        | inr (_, p) ↦ inr (refl, rw (p, pause_from) (turn _ (ok tt) refl (ap is_ok p)))
      ]
  pause_from-Outcome app_created c = inl ((refl, refl), (cc))
  pause_from-Outcome app_starting c = inl ((refl, refl), (cc))
  pause_from-Outcome app_paused c = inl ((refl, refl), (cc))
  pause_from-Outcome app_stopping c = inl ((refl, refl), (cc))
  pause_from-Outcome app_stop_incomplete c = inl ((refl, refl), (cc))
  pause_from-Outcome app_stopped c = inl ((refl, refl), (cc))

  resume_from-Outcome :
      (s : AppState) (c : CoApp)
      → Outcome (s ≢ app_paused) (s ≡ app_paused) c (resume_from outside s c) (
          TurnTurned on_resume "resume" running
            (ids_in_state service paused c.registry.entries)
            c
            (resume_from outside s c))
  unfolding resume_from
  resume_from-Outcome app_paused c =
      let svcs = ids_in_state service paused c.registry.entries in
      let turn = turn_each-Turned on_resume "resume" running svcs c in
      elim (Result-cases (turn_each outside on_resume "resume" running svcs c).1) [
        | inl (e, p) ↦ inr (refl, rw (p, resume_from) (turn _ (err e) refl (ap is_ok p)))
        | inr (_, p) ↦ inr (refl, rw (p, resume_from) (turn _ (ok tt) refl (ap is_ok p)))
      ]
  resume_from-Outcome app_created c = inl ((refl, refl), (cc))
  resume_from-Outcome app_starting c = inl ((refl, refl), (cc))
  resume_from-Outcome app_running c = inl ((refl, refl), (cc))
  resume_from-Outcome app_stopping c = inl ((refl, refl), (cc))
  resume_from-Outcome app_stop_incomplete c = inl ((refl, refl), (cc))
  resume_from-Outcome app_stopped c = inl ((refl, refl), (cc))

  -- A whole transition, which begins with the flag of the transitions raised.
  abbrev pub entered : CoApp → CoApp
  entered c = record c { lifecycle_active = true }

  abbrev pub Whole :
      Type 0
      → Type 0
      → CoApp
      → CoApp × Result (Unit {0})
      → (CoApp → CoApp × Result (Unit {0}) → Type 0)
      → Type 0
  Whole barred allowed c done turned =
      Outcome ((c.lifecycle_active ≡ true) ⊎ barred) ((c.lifecycle_active ≡ false) × allowed) c done
        (turned (entered c) done)

  module _ {hook : Hook} {phase : String} {begins ends : String → CoApp → CoApp}
      (ids : CoApp → List String) (from : CoApp → CoApp) where
    exclusively-Whole :
        (barred allowed : Type 0) (what : String) (f : CoApp → CoApp × Result (Unit {0}))
        (c : CoApp)
        → Outcome barred allowed (entered c) (f (entered c)) (
            Turned outside hook phase begins ends
              (ids (entered c))
              (from (entered c))
              (entered c)
              (f (entered c)))
        → Whole barred allowed c
            (exclusively what f c)
            (λ d. Turned outside hook phase begins ends (ids d) (from d) d)
    exclusively-Whole barred allowed what f c h = elim (Bool-cases c.lifecycle_active) [
      | inl busy ↦ inl (rw busy (refl, refl), inl busy)
      | inr free ↦ elim h [
        | inl (refused, why) ↦ inl (rw free refused, inr why)
        | inr (may, t) ↦ inr (
          (free, may),
          rw free (record { events = t.events; last = t.last; noted = t.noted; turned = t.turned }),
        )
      ]
    ]

  abbrev pub RunningTurned : CoApp → CoApp × Result (Unit {0}) → Type 0
  RunningTurned c =
      TurnTurned on_pause "pause" paused (ids_in_state service running c.registry.entries) c

  abbrev pub PausedTurned : CoApp → CoApp × Result (Unit {0}) → Type 0
  PausedTurned c =
      TurnTurned on_resume "resume" running (ids_in_state service paused c.registry.entries) c

  -- Whatever the hooks, the waits and the other callers do meanwhile: a start, a pause and a resume
  -- are refused without a call of a hook exactly where another transition is in progress, the
  -- application is in a state that does not allow them, or, for a start, the options are not valid.
  -- Otherwise they call the hooks one after another in the order of their lists. An object is passed
  -- over only where it is gone when its hook is to be called; the hook is left out, and the
  -- transition fails, only where an earlier hook of the object does not settle or the scheduler does
  -- not take it; every other object has its hook called, and the hook counts as succeeded exactly by
  -- its answer. A hook is called only after those before it have succeeded; the first that does not
  -- succeed is the last; and the transition succeeds exactly when the list comes to its end. A
  -- start's list has the installed components in the order of `ComponentStartOrderLocked` and after
  -- them the installed services; a pause's has the running services, and a resume's the paused ones.
  pub hooks-InTurn :
      (options : AppOptions) (c : CoApp)
      → Whole
          (StartBarred options c.state)
          (StartAllowed options c.state)
          c
          (start outside options c)
          StartTurned
        × Whole (c.state ≢ app_running) (c.state ≡ app_running) c (pause outside c) RunningTurned
        × Whole (c.state ≢ app_paused) (c.state ≡ app_paused) c (resume outside c) PausedTurned
  unfolding start pause resume
  hooks-InTurn options c = (
    exclusively-Whole to_start at_start (StartBarred options c.state) (StartAllowed options c.state)
        "Start: lifecycle transition in progress" (λ d. start_from outside options d.state d) c
        (start_from-Outcome options c.state (entered c)),
    exclusively-Whole (λ d. ids_in_state service running d.registry.entries) (λ d. d)
        (c.state ≢ app_running) (c.state ≡ app_running) "Pause: lifecycle transition in progress"
        (λ d. pause_from outside d.state d) c (pause_from-Outcome c.state (entered c)),
    exclusively-Whole (λ d. ids_in_state service paused d.registry.entries) (λ d. d)
        (c.state ≢ app_paused) (c.state ≡ app_paused) "Resume: lifecycle transition in progress"
        (λ d. resume_from outside d.state d) c (resume_from-Outcome c.state (entered c)),
  )
