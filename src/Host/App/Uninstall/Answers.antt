-- ===== src/Host/App/Uninstall/Answers.antt =====
-- What an uninstall has done by its answer (framework/src/host/App.cc).
use bbt_framework.Prelude.{ℕ, ◌≡◌, ◌⊎◌, Bool, true, false, List, ◌++◌, none, some, String}
use bbt_framework.Infra.{Infra, Error, Result, ok, err}
use bbt_framework.Host.Registry.{
  RegistryEntry, find_component, find_by_type_name, service, actor, component, begin_destroy,
}
use bbt_framework.Host.Registry.Views.{ids_of_kind}
use bbt_framework.Host.App.Bind.{Placement, validate_owner}
use bbt_framework.Host.App.Control.{Outside, Event, CoApp, in_registry}
use bbt_framework.Host.App.Control.Calls.{is_ok}
use bbt_framework.Host.App.Stop.{wait_drained, wait_edges, all_drained}
use bbt_framework.Host.App.Stop.Closing.{Removed, Draining}
use bbt_framework.Host.App.Uninstall.{
  has_instance, erase_edges, collect_edges, begin_uninstall, uninstall_component, uninstall_service,
  uninstall_actor_type,
}

-- The events of an uninstall with its answer.
pub record Answered (way : List Event → Bool → Type 0) (c : CoApp)
    (done : CoApp × Result (Unit {0})) : Type 0 where
  pub events : List Event
  pub noted : done.0.events ≡ c.events ++ events
  pub goes : way events (is_ok done.1)

-- The way of an actor's type from the state `c` on: its entry goes, or is gone by then.
pub data TypeLeaving (id : String) (c : CoApp) : List Event → Bool → Type 0 where
  type_leaves : {es : List Event} → Removed id c es → TypeLeaving id c es true

module _ ⦃infra : Infra⦄ (outside : Outside) where
  -- What a service has to be rid of before its `OnStop`: the waits for its edges, of which the
  -- bindings are erased after them.
  abbrev pub edges_of : String → CoApp → List (String × ℕ)
  edges_of id c = (collect_edges id (ids_of_kind component c.registry.entries) c.registry).1

  abbrev pub service_waited : String → CoApp → CoApp × Result (Unit {0})
  service_waited id c =
      let (waited, r) = wait_edges outside id (edges_of id c) (record c {
        registry = (collect_edges id (ids_of_kind component c.registry.entries) c.registry).0;
      }) in
      (in_registry (erase_edges id (edges_of id c)) waited, r)

  -- The ways from the begin of the destruction on, at the state `c`.
  abbrev pub ComponentLeaving : String → CoApp → List Event → Bool → Type 0
  ComponentLeaving id c = Draining outside id (λ r. r) (wait_drained outside id (all_drained id) c)

  abbrev pub ServiceLeaving : String → CoApp → List Event → Bool → Type 0
  ServiceLeaving id c = Draining outside id (λ r. r) (service_waited id c)

  -- An uninstall that fails and changes nothing.
  abbrev pub IsRefused : CoApp → CoApp × Result (Unit {0}) → Type 0
  IsRefused c done = (done.0 ≡ c) × (is_ok done.1 ≡ false)

  -- The uninstall of an entry: the destruction is refused, or it begins and goes its way.
  abbrev pub Begun :
      (String → CoApp → List Event → Bool → Type 0)
      → String
      → RegistryEntry
      → CoApp
      → CoApp × Result (Unit {0})
      → Type 0
  Begun way phase e c done =
      (IsRefused c done × ((x : Error) × ((begin_destroy e).1 ≡ err x)))
      ⊎ (((begin_destroy e).1 ≡ ok tt)
          × Answered (way e.id (begin_uninstall outside phase e c).0) c done)

  abbrev pub ComponentAnswer : ℕ → String → Placement → CoApp → Type 0
  ComponentAnswer type name placement c =
      let done = uninstall_component outside type name placement c in
      (IsRefused c done × ((x : Error) × (validate_owner placement c.registry ≡ err x)))
      ⊎ ((owner_id : String) × (validate_owner placement c.registry ≡ ok owner_id)
          × ((IsRefused c done
                × (find_component placement.scope owner_id type name c.registry.entries ≡ none))
              ⊎ ((e : RegistryEntry) × (find_component placement.scope owner_id type name
                      c.registry.entries
                    ≡ some e)
                  × Begun ComponentLeaving "uninstall" e c done)))

  abbrev pub ServiceAnswer : String → CoApp → Type 0
  ServiceAnswer type_name c =
      let done = uninstall_service outside type_name c in
      (IsRefused c done × (find_by_type_name service type_name c.registry.entries ≡ none))
      ⊎ ((e : RegistryEntry) × (find_by_type_name service type_name c.registry.entries ≡ some e)
          × Begun ServiceLeaving "uninstall" e c done)

  abbrev pub ActorTypeAnswer : String → CoApp → Type 0
  ActorTypeAnswer type c =
      let done = uninstall_actor_type outside type c in
      (IsRefused c done × (find_by_type_name actor type c.registry.entries ≡ none))
      ⊎ ((e : RegistryEntry) × (find_by_type_name actor type c.registry.entries ≡ some e)
          × ((IsRefused c done × (has_instance e.id type c.registry.entries ≡ true))
              ⊎ ((has_instance e.id type c.registry.entries ≡ false)
                  × Begun TypeLeaving e.destroy_phase e c done)))
