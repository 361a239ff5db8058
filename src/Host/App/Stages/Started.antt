-- ===== src/Host/App/Stages/Started.antt =====
-- `_StartImpl`, `_PauseImpl` and `_ResumeImpl` (framework/src/host/App.cc): the hooks that they call.
use bbt_framework.Prelude.{
  ◌≡◌, inl, inr, refl, ap, subst, ◌∙◌, Bool, true, false, List, [], ◌∷◌, ◌++◌, Option, none, some,
  String, arith, Option-cases,
}
use bbt_framework.Infra.{Infra, Error, Result, ok, err, Result-cases}
use bbt_framework.Host.Registry.{ObjectState, ObjectError, first_entry, starting, running, failed}
use bbt_framework.Host.App.Control.{
  Hook, on_start, Outside, Event, CoApp, run_hook_co, set_and_dispatch,
}
use bbt_framework.Host.App.Control.Calls.{is_ok, CoTrace, run_hook_co-Call, append_nil}
use bbt_framework.Host.App.Stages.{start_each, error_at, turn_each}

pub append_assoc : (xs ys zs : List Event) → (xs ++ ys) ++ zs ≡ xs ++ (ys ++ zs)
append_assoc [] ys zs = refl
append_assoc (x ∷ xs) ys zs = ap (λ l. x ∷ l) (append_assoc xs ys zs)

-- A pause and a resume do nothing to an object before its hook.
abbrev pub as_it_is : String → CoApp → CoApp
as_it_is _ c = c

module _ ⦃infra : Infra⦄ (outside : Outside) where
  -- The hook of one object after another, from the state `c` on: `begins` and `ends` are what is done
  -- to the object before and after its hook. The first hook that does not succeed ends the run; an
  -- object that is gone where its hook is to be called is passed over.
  pub data Turns (hook : Hook) (phase : String) (begins ends : String → CoApp → CoApp)
      : List String → CoApp → List Event → Bool → CoApp → Type 0 where
    all_done : {c last : CoApp} → last ≡ c → Turns hook phase begins ends [] c [] true last
    stops :
        {id : String} {ids : List String} {c last : CoApp} {es : List Event}
        → CoTrace outside hook id (begins id c) es false
        → Turns hook phase begins ends (id ∷ ids) c es false last
    goes_on :
        {id : String} {ids : List String} {c last : CoApp} {es fs : List Event} {b : Bool}
        → CoTrace outside hook id (begins id c) es true
        → Turns hook phase begins ends ids
            (ends id (run_hook_co outside hook phase id (begins id c)).0)
            fs
            b
            last
        → Turns hook phase begins ends (id ∷ ids) c (es ++ fs) b last

  -- The events of a run of turns from the state `from`, which has those of `c`.
  pub record Turned (hook : Hook) (phase : String) (begins ends : String → CoApp → CoApp)
      (ids : List String) (from c : CoApp) (done : CoApp × Result (Unit {0})) : Type 0 where
    pub events : List Event
    pub last : CoApp
    pub noted : done.0.events ≡ c.events ++ events
    pub turned : Turns hook phase begins ends ids from events (is_ok done.1) last

  pub set_and_dispatch-events :
      (id : String) (s : ObjectState) (error : Option ObjectError) (c : CoApp)
      → (set_and_dispatch outside id s error c).events ≡ c.events
  unfolding set_and_dispatch
  set_and_dispatch-events id s error c = elim (Option-cases (first_entry id c.registry.entries)) [
    | inl nothing ↦ ground (arith, nothing)
    | inr (e, found) ↦ ground (arith, found)
  ]

  -- What a start does to an object round its hook, and what a pause and a resume do.
  abbrev pub starts_it : String → CoApp → CoApp
  starts_it id = set_and_dispatch outside id starting none

  abbrev pub runs_it : String → CoApp → CoApp
  runs_it id = set_and_dispatch outside id running none

  abbrev pub puts_it : ObjectState → String → CoApp → CoApp
  puts_it s id = set_and_dispatch outside id s none

  module _ (hook : Hook) (phase : String) (begins ends : String → CoApp → CoApp) where
    -- A run, with the state that it leaves where it succeeds.
    pub record Run (ids : List String) (c : CoApp) (done : CoApp × Result (Unit {0})) : Type 0 where
      pub events : List Event
      pub noted : done.0.events ≡ c.events ++ events
      pub turned : Turns hook phase begins ends ids c events (is_ok done.1) done.0

    -- The first turn of a run, and what follows it.
    Run-last :
        (id : String) (ids : List String) (c last : CoApp) (e x : Error)
        → (run_hook_co outside hook phase id (begins id c)).1 ≡ err x
        → (begins id c).events ≡ c.events
        → last.events ≡ (run_hook_co outside hook phase id (begins id c)).0.events
        → Run (id ∷ ids) c (last, err e)
    Run-last id ids c last e x p same after =
        let h = run_hook_co-Call outside hook phase id (begins id c) in
        record {
          events = h.events;
          noted = after ∙ h.noted ∙ ap (λ es. es ++ h.events) same;
          turned =
              stops
                (subst (λ r. CoTrace outside hook id (begins id c) h.events (is_ok r)) p h.trace);
        }

    Run-next :
        (id : String) (ids : List String) (c : CoApp) (done : CoApp × Result (Unit {0}))
        → (run_hook_co outside hook phase id (begins id c)).1 ≡ ok tt
        → (begins id c).events ≡ c.events
        → (ends id (run_hook_co outside hook phase id (begins id c)).0).events
          ≡ (run_hook_co outside hook phase id (begins id c)).0.events
        → Run ids (ends id (run_hook_co outside hook phase id (begins id c)).0) done
        → Run (id ∷ ids) c done
    Run-next id ids c done p same after rest =
        let h = run_hook_co-Call outside hook phase id (begins id c) in
        record {
          events = h.events ++ rest.events;
          noted =
              rest.noted
              ∙ ap (λ es. es ++ rest.events) (after ∙ h.noted ∙ ap (λ es. es ++ h.events) same)
              ∙ append_assoc c.events h.events rest.events;
          turned =
              goes_on
                (subst (λ r. CoTrace outside hook id (begins id c) h.events (is_ok r)) p h.trace)
                rest.turned;
        }

  pub start_each-Run :
      (ids : List String) (c : CoApp)
      → Run on_start "start" starts_it runs_it ids c (start_each outside ids c)
  unfolding start_each
  start_each-Run [] c = record { events = []; noted = append_nil c.events; turned = all_done refl }
  start_each-Run (id ∷ ids) c =
      let call = run_hook_co outside on_start "start" id (starts_it id c) in
      let same = set_and_dispatch-events id starting none c in
      elim (Result-cases call.1) [
        | inl (e, p) ↦
            rw (p, start_each)
              (Run-last on_start "start" starts_it runs_it id ids c _ e e p same
                (set_and_dispatch-events id failed (some (error_at "start" e)) call.0))
        | inr (_, p) ↦
            rw (p, start_each)
              (Run-next on_start "start" starts_it runs_it id ids c _ p same
                (set_and_dispatch-events id running none call.0)
                (start_each-Run ids (runs_it id call.0)))
      ]

  pub turn_each-Run :
      (hook : Hook) (phase : String) (s : ObjectState) (ids : List String) (c : CoApp)
      → Run hook phase as_it_is (puts_it s) ids c (turn_each outside hook phase s ids c)
  unfolding turn_each
  turn_each-Run hook phase s [] c = record {
    events = [];
    noted = append_nil c.events;
    turned = all_done refl;
  }
  turn_each-Run hook phase s (id ∷ ids) c =
      let call = run_hook_co outside hook phase id c in
      elim (Result-cases call.1) [
        | inl (e, p) ↦
            rw (p, turn_each)
              (Run-last hook phase as_it_is (puts_it s) id ids c _ e e p refl
                (set_and_dispatch-events id failed (some (error_at phase e)) call.0))
        | inr (_, p) ↦
            rw (p, turn_each)
              (Run-next hook phase as_it_is (puts_it s) id ids c _ p refl
                (set_and_dispatch-events id s none call.0)
                (turn_each-Run hook phase s ids (puts_it s id call.0)))
      ]
