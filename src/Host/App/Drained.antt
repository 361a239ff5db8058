-- ===== src/Host/App/Drained.antt =====
-- The waits for borrows (framework/src/host/App.cc), and what comes only after them.
use bbt_framework.Prelude.{ℕ, ◌≡◌, ◌⊎◌, Bool, true, false, List, ◌∷◌, none, some, String}
use bbt_framework.Infra.{Infra, Error, Result, ok, err}
use bbt_framework.Host.Registry.{
  Registry, RegistryEntry, find_component, stopping, stop_incomplete, uninstall_incomplete,
  record_failure,
}
use bbt_framework.Host.Registry.Borrow.{erase_binding}
use bbt_framework.Host.App.Bind.{BindRequest, validate_owner, on_entry}
use bbt_framework.Host.App.Control.{Outside, CoApp, in_registry, failure, WaitStatus}
use bbt_framework.Host.App.Control.Calls.{is_ok}
use bbt_framework.Host.App.Stop.{
  Wake, all_drained, edge_drained, stop_and_remove, begin_stop, destroy_component,
}
use bbt_framework.Host.App.Connect.{OnBindingChanged, retire_edge, tell_unbound, unbind_component}

-- The registry in the course of a wait: nobody but the other callers has changed it.
pub data Awaited : List Wake → Registry → Registry → Type 0 where
  at_once : {wakes : List Wake} {r : Registry} → Awaited wakes r r
  woken :
      {wakes : List Wake} {status : WaitStatus} {r s : Registry} (meanwhile : Registry → Registry)
      → Awaited wakes (meanwhile r) s
      → Awaited ((meanwhile, status) ∷ wakes) r s

module _ ⦃infra : Infra⦄ where
  -- What a wait has seen by its answer.
  pub record Watched (ready : Registry → Bool) (wakes : List Wake) (r : Registry)
      (done : Registry × Result (Unit {0})) : Type 0 where
    pub awaited : Awaited wakes r done.0
    pub drained : is_ok done.1 ≡ true → ready done.0 ≡ true

  module _ (outside : Outside) where
    -- A wait that is over: the registry is as the other callers left it, and either the condition
    -- holds and `goes` tells the rest, or the wait failed and `fails` does.
    abbrev pub After :
        String → (Registry → Bool) → (Registry → Type 0) → (Registry → Type 0) → Registry → Type 0
    After id ready goes fails begun =
        (r : Registry) × Awaited (outside.wakes id begun) begun r
        × (((ready r ≡ true) × goes r) ⊎ fails r)

    -- Closing a component from the wait for its borrows on.
    abbrev pub ComponentDrained : String → CoApp → CoApp × Result (Unit {0}) → Type 0
    ComponentDrained id c done =
        After id (all_drained id)
          (λ r.
            done
            ≡ stop_and_remove outside "uninstall" "uninstall: prior hook still in flight"
                uninstall_incomplete (λ reg. reg) id (record c { registry = r }))
          (λ r. (is_ok done.1 ≡ false) × (done.0.events ≡ c.events)) c.registry

    -- The same for a component that goes with the application.
    abbrev pub StopDrained : String → CoApp → Type 0
    StopDrained id c =
        ((begin_stop outside id c ≡ none) × (destroy_component outside id c ≡ c))
        ⊎ ((begun : CoApp) × (begin_stop outside id c ≡ some begun)
            × (let announced = in_registry (outside.observed id stopping) begun in
                After id (all_drained id)
                  (λ r.
                    destroy_component outside id c
                    ≡ (stop_and_remove outside "stop" "stop: prior hook still in flight"
                        stop_incomplete (λ reg. reg) id (record announced { registry = r })).0)
                  (λ _. (destroy_component outside id c).events ≡ begun.events) announced.registry))

    module _ (changed : OnBindingChanged) where
      -- An unbind from the wait for the borrows of the edge on.
      abbrev pub EdgeDrained : BindRequest → String → ℕ → CoApp → CoApp × Result (Unit {0}) → Type 0
      EdgeDrained q comp_id generation c done =
          After comp_id (edge_drained comp_id q.subject.id generation)
            (λ r. done ≡ (
              tell_unbound outside changed q comp_id (record c {
                registry = on_entry comp_id (erase_binding q.subject.id generation) r;
              }),
              ok tt,
            ))
            (λ r.
              (e : Error) × (done ≡ (
                record c {
                  registry =
                      record_failure (failure comp_id "unbind" "borrow_drain" e.code e.message) r;
                },
                err e,
              )))
            c.registry

      abbrev pub UnbindDrained : BindRequest → CoApp → Type 0
      UnbindDrained q c =
          let done = unbind_component outside changed q c in
          ((done.0 ≡ c) × (is_ok done.1 ≡ false))
          ⊎ ((owner_id : String) × (comp : RegistryEntry) × (generation : ℕ) × (validate_owner
                  q.placement c.registry
                ≡ ok owner_id)
              × (find_component q.placement.scope owner_id q.component_type q.name
                    c.registry.entries
                  ≡ some comp)
              × ((retire_edge q.subject.id comp c.registry).1 ≡ ok generation)
              × EdgeDrained q comp.id generation
                  (record c { registry = (retire_edge q.subject.id comp c.registry).0 }) done)
