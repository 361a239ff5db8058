-- ===== src/Host/App/Stop/Closing.antt =====
-- How one object goes (framework/src/host/App.cc, `_DestroyService`, `_DestroyActor`,
-- `_DestroyComponent`): the events that are left.
use bbt_framework.Prelude.{
  ℕ, ◌≡◌, inl, inr, refl, ap, subst, ◌∙◌, Bool, true, false, List, [], ◌∷◌, ◌++◌, some, String,
  arith, Bool-cases, Option-cases,
}
use bbt_framework.Infra.{Infra, Error, Result, Result-cases, make_error, timed_out}
use bbt_framework.Host.Registry.{Registry, RegistryEntry, ObjectState, first_entry, record_failure}
use bbt_framework.Host.App.Control.{
  Hook, on_stop, on_uninstall, Outside, Event, hooked, released, CoApp, run_hook_co, run_void_hook,
  in_registry, failure,
}
use bbt_framework.Host.App.Control.Calls.{is_ok, IsGone, CoTrace, run_hook_co-Call, append_nil}
use bbt_framework.Host.App.Stages.Started.{append_assoc}
use bbt_framework.Host.App.Stop.{
  abort_destroy, wait_edges, wait_drained, in_flight, remove, end_phase, stop_and_remove,
  edge_drained,
}

-- The events that a part of the way leaves.
pub record Went (way : List Event → Type 0) (c after : CoApp) : Type 0 where
  pub events : List Event
  pub noted : after.events ≡ c.events ++ events
  pub goes : way events

-- The removal of an entry from the state `c`: it is gone, or its object is released.
pub data Removed (id : String) (c : CoApp) : List Event → Type 0 where
  gone_by_then : IsGone id c → Removed id c []
  removed :
      (e : RegistryEntry)
      → first_entry id c.registry.entries ≡ some e
      → Removed id c (released id ∷ [])

module _ ⦃infra : Infra⦄ (outside : Outside) where
  abbrev pub uninstalled : String → CoApp → CoApp
  uninstalled = run_void_hook outside on_uninstall "uninstall"

  -- `OnUninstall` and the removal, from the state `c` on.
  pub data Uninstalls (id : String) (c : CoApp) : List Event → Type 0 where
    gone_before : IsGone id c → Uninstalls id c []
    uninstalls :
        {es : List Event} (e : RegistryEntry)
        → first_entry id c.registry.entries ≡ some e
        → Removed id (uninstalled id c) es
        → Uninstalls id c (hooked on_uninstall id ∷ es)

  abbrev pub stopped : String → CoApp → CoApp
  stopped id c = (run_hook_co outside on_stop "stop" id c).0

  -- The way of a service or a component from its `OnStop` on, called at `c`, and whether it leaves:
  -- it does where `OnStop` succeeds, or it is gone by then, and no hook of it is in flight.
  pub data Leaving (id : String) (between : Registry → Registry) (c : CoApp)
      : List Event → Bool → Type 0 where
    stop_refuses :
        {es : List Event} → CoTrace outside on_stop id c es false → Leaving id between c es false
    late :
        {es : List Event}
        → CoTrace outside on_stop id c es true
        → in_flight id (stopped id c) ≡ true
        → Leaving id between c es false
    leaves :
        {es fs : List Event}
        → CoTrace outside on_stop id c es true
        → in_flight id (stopped id c) ≡ false
        → Uninstalls id (in_registry between (stopped id c)) fs
        → Leaving id between c (es ++ fs) true

  -- The whole way from the wait for its borrows on, of which `waited` is the end.
  pub data Draining (id : String) (between : Registry → Registry)
      (waited : CoApp × Result (Unit {0})) : List Event → Bool → Type 0 where
    undrained : is_ok waited.1 ≡ false → Draining id between waited [] false
    drained :
        {es : List Event} {b : Bool}
        → is_ok waited.1 ≡ true
        → Leaving id between waited.0 es b
        → Draining id between waited es b

  pub remove-Removed :
      (last : RegistryEntry → RegistryEntry) (id : String) (c : CoApp)
      → Went (Removed id c) c (remove outside last id c)
  unfolding remove
  remove-Removed last id c = elim (Option-cases (first_entry id c.registry.entries)) [
    | inl nothing ↦
        rw (nothing, remove)
          (record { events = []; noted = append_nil c.events; goes = gone_by_then nothing })
    | inr (e, found) ↦
        rw (found, remove)
          (record { events = released id ∷ []; noted = refl; goes = removed e found })
  ]

  run_void_hook-events :
      (hook : Hook) (phase id : String) (c : CoApp) {e : RegistryEntry}
      → first_entry id c.registry.entries ≡ some e
      → (run_void_hook outside hook phase id c).events ≡ c.events ++ hooked hook id ∷ []
  unfolding run_void_hook
  run_void_hook-events hook phase id c found = ground (arith, found)

  Uninstalls-Went :
      (id : String) (c : CoApp)
      → Went (Uninstalls id c) c (remove outside end_phase id (uninstalled id c))
  unfolding remove run_void_hook
  Uninstalls-Went id c = elim (Option-cases (first_entry id c.registry.entries)) [
    | inl nothing ↦
        rw (nothing, run_void_hook)
          (rw (nothing, remove)
            (record { events = []; noted = append_nil c.events; goes = gone_before nothing }))
    | inr (e, found) ↦
        let h = remove-Removed end_phase id (uninstalled id c) in
        record {
          events = hooked on_uninstall id ∷ h.events;
          noted =
              h.noted
              ∙ ap (λ es. es ++ h.events) (run_void_hook-events on_uninstall "uninstall" id c found)
              ∙ append_assoc c.events (hooked on_uninstall id ∷ []) h.events;
          goes = uninstalls e found h.goes;
        }
  ]

  pub abort_destroy-events :
      (id operation phase : String) (e : Error) (s : ObjectState) (c : CoApp)
      → (abort_destroy outside id operation phase e s c).events ≡ c.events
  unfolding abort_destroy
  abort_destroy-events id operation phase e s c =
      let recorded = in_registry (record_failure (failure id operation phase e.code e.message)) c in
      elim (Option-cases (first_entry id recorded.registry.entries)) [
        | inl nothing ↦ rw (nothing, abort_destroy) refl
        | inr (x, found) ↦ rw (found, abort_destroy) refl
      ]

  pub wait_edges-events :
      (subject : String) (edges : List (String × ℕ)) (c : CoApp)
      → (wait_edges outside subject edges c).0.events ≡ c.events
  unfolding wait_edges
  wait_edges-events subject [] c = refl
  wait_edges-events subject ((id, n) ∷ edges) c =
      let waited = wait_drained outside subject (edge_drained id subject n) c in
      elim (Result-cases waited.1) [
        | inl (e, p) ↦ rw (p, wait_edges) refl
        | inr (_, p) ↦ rw (p, wait_edges) (wait_edges-events subject edges waited.0)
      ]

  pub stop_and_remove-Leaving :
      (operation text : String) (s : ObjectState) (between : Registry → Registry) (id : String)
      (c : CoApp)
      → Went
          (λ es.
            Leaving id between c es
              (is_ok (stop_and_remove outside operation text s between id c).1))
          c
          (stop_and_remove outside operation text s between id c).0
  unfolding stop_and_remove
  stop_and_remove-Leaving operation text s between id c =
      let call = run_hook_co outside on_stop "stop" id c in
      let h = run_hook_co-Call outside on_stop "stop" id c in
      elim (Result-cases call.1) [
        | inl (e, p) ↦
            rw (p, stop_and_remove)
              (record {
                events = h.events;
                noted = abort_destroy-events id operation "onstop" e s call.0 ∙ h.noted;
                goes =
                    stop_refuses
                      (subst (λ r. CoTrace outside on_stop id c h.events (is_ok r)) p h.trace);
              })
        | inr (_, p) ↦
            let t = subst (λ r. CoTrace outside on_stop id c h.events (is_ok r)) p h.trace in
            elim (Bool-cases (in_flight id call.0)) [
              | inl late_one ↦
                  rw (p, stop_and_remove)
                    (rw (late_one, stop_and_remove)
                      (record {
                        events = h.events;
                        noted =
                            abort_destroy-events id operation "hook_in_flight"
                              (make_error timed_out text) s call.0
                            ∙ h.noted;
                        goes = late t late_one;
                      }))
              | inr over ↦
                  let left = in_registry between call.0 in
                  let u = Uninstalls-Went id left in
                  rw (p, stop_and_remove)
                    (rw (over, stop_and_remove)
                      (record {
                        events = h.events ++ u.events;
                        noted =
                            u.noted
                            ∙ ap (λ es. es ++ u.events) h.noted
                            ∙ append_assoc c.events h.events u.events;
                        goes = leaves t over u.goes;
                      }))
            ]
      ]
