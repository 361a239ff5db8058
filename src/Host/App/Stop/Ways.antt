-- ===== src/Host/App/Stop/Ways.antt =====
-- framework/src/host/App.cc: the ways in which `CoStop` lets a component, a service and an actor go.
use bbt_framework.Prelude.{
  ◌≡◌, ◌⊎◌, inl, inr, ap, ◌∙◌, Bool, true, false, List, [], ◌∷◌, ◌++◌, none, some, String, ◌==◌,
  arith, Bool-cases, Option-cases,
}
use bbt_framework.Infra.{Infra, Error, Result, ok, err, Result-cases}
use bbt_framework.Host.Registry.{
  Registry, RegistryEntry, first_entry, stop_incomplete, stopping, component,
}
use bbt_framework.Host.Registry.Views.{ids_of_kind}
use bbt_framework.Host.App.Control.{on_destroy, Outside, Event, hooked, CoApp, in_registry}
use bbt_framework.Host.App.Control.Calls.{is_ok, IsGone, append_nil}
use bbt_framework.Host.App.Stages.Started.{append_assoc}
use bbt_framework.Host.App.Stop.{
  wait_edges, wait_drained, begin_stop, destroy_service, seal_edges, retiring_edges, all_drained,
  erase_edges_of, destroy_component, run_actor_destroy, destroy_actor, for_each, abort_destroy,
  stop_and_remove,
}
use bbt_framework.Host.App.Stop.Closing.{
  Went, Removed, Draining, undrained, drained, stop_and_remove-Leaving, remove-Removed,
  abort_destroy-events, wait_edges-events,
}

-- One object after another goes its way from the state that the one before it has left.
pub data Each (way : String → CoApp → List Event → Type 0) (step : String → CoApp → CoApp)
    : List String → CoApp → List Event → Type 0 where
  each_none : {c : CoApp} → Each way step [] c []
  each_one :
      {id : String} {ids : List String} {c : CoApp} {es fs : List Event}
      → way id c es
      → Each way step ids (step id c) fs
      → Each way step (id ∷ ids) c (es ++ fs)

pub for_each-Went :
    (way : String → CoApp → List Event → Type 0) (f : String → CoApp → CoApp)
    → ((id : String) (c : CoApp) → Went (way id c) c (f id c))
    → (ids : List String) (c : CoApp) → Went (Each way f ids c) c (for_each f ids c)
unfolding for_each
for_each-Went way f h [] c = record { events = []; noted = append_nil c.events; goes = each_none }
for_each-Went way f h (id ∷ ids) c =
    let one = h id c in
    let rest = for_each-Went way f h ids (f id c) in
    record {
      events = one.events ++ rest.events;
      noted =
          rest.noted
          ∙ ap (λ es. es ++ rest.events) one.noted
          ∙ append_assoc c.events one.events rest.events;
      goes = each_one one.goes rest.goes;
    }

-- Why a stop passes an object over: it is gone, or an operation on it is in progress.
abbrev pub IsPassed : String → CoApp → Type 0
IsPassed id c =
    IsGone id c
    ⊎ ((e : RegistryEntry) × (first_entry id c.registry.entries ≡ some e)
        × (e.op_in_progress ≡ true))

-- Whether an entry has an object that `OnDestroy` can be called on.
abbrev pub HasNoObject : String → CoApp → Type 0
HasNoObject id c =
    IsGone id c
    ⊎ ((e : RegistryEntry) × (first_entry id c.registry.entries ≡ some e)
        × ((e.object == 0) ≡ true))

-- `OnDestroy` of an actor at the state `c`: the entry of a type has no object.
pub data Destroys (id : String) (c : CoApp) : List Event → Type 0 where
  no_object : HasNoObject id c → Destroys id c []
  destroys :
      (e : RegistryEntry)
      → first_entry id c.registry.entries ≡ some e
      → (e.object == 0) ≡ false
      → Destroys id c (hooked on_destroy id ∷ [])

module _ ⦃infra : Infra⦄ (outside : Outside) where
  -- The way of a service or a component that goes with the application: it is passed over, or its
  -- stop begins, and it is drained from the state that the begin has left.
  pub data Closing (between : Registry → Registry) (drain : CoApp → CoApp × Result (Unit {0}))
      (id : String) (c : CoApp) : List Event → Type 0 where
    passed : IsPassed id c → Closing between drain id c []
    closing :
        {es : List Event} {b : Bool} (begun : CoApp)
        → begin_stop outside id c ≡ some begun
        → Draining outside id between (drain begun) es b
        → Closing between drain id c es

  -- The wait for the borrows of a component, and that for the edges of a service.
  abbrev pub component_drain : String → CoApp → CoApp × Result (Unit {0})
  component_drain id begun =
      wait_drained outside id (all_drained id) (in_registry (outside.observed id stopping) begun)

  abbrev pub service_drain : String → CoApp → CoApp × Result (Unit {0})
  service_drain id begun =
      let comps = ids_of_kind component begun.registry.entries in
      let announced =
        in_registry (λ r. outside.observed id stopping (seal_edges id comps r)) begun in
      wait_edges outside id
        (retiring_edges id (ids_of_kind component announced.registry.entries) announced.registry)
        announced

  abbrev pub erase_all : String → Registry → Registry
  erase_all id r = erase_edges_of id (ids_of_kind component r.entries) r

  abbrev pub ComponentClosing : String → CoApp → List Event → Type 0
  ComponentClosing id = Closing (λ r. r) (component_drain id) id

  abbrev pub ServiceClosing : String → CoApp → List Event → Type 0
  ServiceClosing id = Closing (erase_all id) (service_drain id) id

  -- The way of an actor.
  pub data ActorClosing (id : String) (c : CoApp) : List Event → Type 0 where
    actor_goes :
        {es fs : List Event}
        → Destroys id c es
        → Removed id (run_actor_destroy outside id c) fs
        → ActorClosing id c (es ++ fs)

  begin_stop-events :
      (id : String) (c begun : CoApp)
      → begin_stop outside id c ≡ some begun
      → begun.events ≡ c.events
  begin_stop-events id c begun h = elim (Option-cases (first_entry id c.registry.entries)) [
    | inl nothing ↦ absurd (ground (arith, nothing, h))
    | inr (e, found) ↦ elim (Bool-cases e.op_in_progress) [
      | inl busy ↦ absurd (ground (arith, found, busy, h))
      | inr free ↦ ground (arith, found, free, h)
    ]
  ]

  begin_stop-IsPassed : (id : String) (c : CoApp) → begin_stop outside id c ≡ none → IsPassed id c
  begin_stop-IsPassed id c h = elim (Option-cases (first_entry id c.registry.entries)) [
    | inl nothing ↦ inl nothing
    | inr (e, found) ↦ elim (Bool-cases e.op_in_progress) [
      | inl busy ↦ inr (e, found, busy)
      | inr free ↦ absurd (ground (arith, found, free, h))
    ]
  ]

  module _ (between : Registry → Registry) (drain : CoApp → CoApp × Result (Unit {0}))
      (id : String) where
    given_up :
        (c begun : CoApp) (e : Error)
        → begin_stop outside id c ≡ some begun
        → (drain begun).1 ≡ err e
        → (drain begun).0.events ≡ c.events
        → Went
            (Closing between drain id c)
            c
            (abort_destroy outside id "stop" "borrow_drain" e stop_incomplete (drain begun).0)
    given_up c begun e p q same = record {
      events = [];
      noted =
          abort_destroy-events outside id "stop" "borrow_drain" e stop_incomplete (drain begun).0
          ∙ same
          ∙ append_nil c.events;
      goes = closing {b = false} begun p (undrained (ap is_ok q));
    }

    followed :
        (c begun : CoApp)
        → begin_stop outside id c ≡ some begun
        → (drain begun).1 ≡ ok tt
        → (drain begun).0.events ≡ c.events
        → Went
            (Closing between drain id c)
            c
            (stop_and_remove outside "stop" "stop: prior hook still in flight" stop_incomplete
              between id
              (drain begun).0).0
    followed c begun p q same =
        let h =
          stop_and_remove-Leaving outside "stop" "stop: prior hook still in flight" stop_incomplete
            between id (drain begun).0 in
        record {
          events = h.events;
          noted = h.noted ∙ ap (λ es. es ++ h.events) same;
          goes = closing begun p (drained (ap is_ok q) h.goes);
        }

  pub destroy_component-Went :
      (id : String) (c : CoApp) → Went (ComponentClosing id c) c (destroy_component outside id c)
  unfolding destroy_component
  destroy_component-Went id c = elim (Option-cases (begin_stop outside id c)) [
    | inl nothing ↦
        rw (nothing, destroy_component)
          (record {
            events = [];
            noted = append_nil c.events;
            goes = passed (begin_stop-IsPassed id c nothing);
          })
    | inr (begun, p) ↦
        let drain = component_drain id in
        let same = begin_stop-events id c begun p in
        elim (Result-cases (drain begun).1) [
          | inl (e, q) ↦
              rw (p, destroy_component)
                (rw (q, destroy_component) (given_up (λ r. r) drain id c begun e p q same))
          | inr (_, q) ↦
              rw (p, destroy_component)
                (rw (q, destroy_component) (followed (λ r. r) drain id c begun p q same))
        ]
  ]

  pub destroy_service-Went :
      (id : String) (c : CoApp) → Went (ServiceClosing id c) c (destroy_service outside id c)
  unfolding destroy_service
  destroy_service-Went id c = elim (Option-cases (begin_stop outside id c)) [
    | inl nothing ↦
        rw (nothing, destroy_service)
          (record {
            events = [];
            noted = append_nil c.events;
            goes = passed (begin_stop-IsPassed id c nothing);
          })
    | inr (begun, p) ↦
        let drain = service_drain id in
        let same = wait_edges-events outside id _ _ ∙ begin_stop-events id c begun p in
        elim (Result-cases (drain begun).1) [
          | inl (e, q) ↦
              rw (p, destroy_service)
                (rw (q, destroy_service) (given_up (erase_all id) drain id c begun e p q same))
          | inr (_, q) ↦
              rw (p, destroy_service)
                (rw (q, destroy_service) (followed (erase_all id) drain id c begun p q same))
        ]
  ]

  run_actor_destroy-Destroys :
      (id : String) (c : CoApp) → Went (Destroys id c) c (run_actor_destroy outside id c)
  unfolding run_actor_destroy
  run_actor_destroy-Destroys id c = elim (Option-cases (first_entry id c.registry.entries)) [
    | inl nothing ↦
        rw (nothing, run_actor_destroy)
          (record { events = []; noted = append_nil c.events; goes = no_object (inl nothing) })
    | inr (e, found) ↦ elim (Bool-cases (e.object == 0)) [
      | inl missing ↦
          rw (found, run_actor_destroy)
            (rw (missing, run_actor_destroy)
              (record {
                events = [];
                noted = append_nil c.events;
                goes = no_object (inr (e, found, missing));
              }))
      | inr object ↦ record {
        events = hooked on_destroy id ∷ [];
        noted = ground (arith, found, object);
        goes = destroys e found object;
      }
    ]
  ]

  pub destroy_actor-Went :
      (id : String) (c : CoApp) → Went (ActorClosing id c) c (destroy_actor outside id c)
  unfolding destroy_actor
  destroy_actor-Went id c =
      let d = run_actor_destroy-Destroys id c in
      let h = remove-Removed outside (λ e. e) id (run_actor_destroy outside id c) in
      record {
        events = d.events ++ h.events;
        noted =
            h.noted ∙ ap (λ es. es ++ h.events) d.noted ∙ append_assoc c.events d.events h.events;
        goes = actor_goes d.goes h.goes;
      }
