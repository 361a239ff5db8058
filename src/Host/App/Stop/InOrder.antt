-- ===== src/Host/App/Stop/InOrder.antt =====
-- `CoStop` (framework/src/host/App.cc): in which order the objects go.
use bbt_framework.Prelude.{◌≡◌, ◌↔◌, ◌⊎◌, Bool, String, true, false, List, [], ◌++◌}
use bbt_framework.Infra.{Infra, Result}
use bbt_framework.Host.Registry.{RegistryEntry, service, actor, pending_cleanup}
use bbt_framework.Host.Registry.Views.{ids_of_kind}
use bbt_framework.Host.App.StartOrder.{component_start_order}
use bbt_framework.Host.App.Control.{
  Outside, Event, CoApp, in_state, app_stopped, app_stopping, app_stop_incomplete,
}
use bbt_framework.Host.App.Control.Calls.{is_ok}
use bbt_framework.Host.App.Stop.{
  destroy_service, destroy_component, destroy_actor, for_each, by_scope, reverse,
}
use bbt_framework.Host.App.Stop.Ways.{Each, ComponentClosing, ServiceClosing, ActorClosing}

module _ ⦃infra : Infra⦄ (outside : Outside) where
  -- The states between the parts of `_StopAll`.
  abbrev pub after_services : List RegistryEntry → CoApp → CoApp
  after_services es c = for_each (destroy_service outside) (ids_of_kind service es) c

  abbrev pub after_actors : List RegistryEntry → CoApp → CoApp
  after_actors es c = for_each (destroy_actor outside) (ids_of_kind actor es) (after_services es c)

  abbrev pub in_scope : Bool → List RegistryEntry → List String
  in_scope of_app es = by_scope of_app es (reverse (component_start_order es).order [])

  abbrev pub after_scoped : List RegistryEntry → CoApp → CoApp
  after_scoped es c = for_each (destroy_component outside) (in_scope false es) (after_actors es c)

  -- What `_StopAll` leaves from the state `c` on: the services, then the actors, the components with
  -- an owner, and those of the application.
  pub record Stopped (c after : CoApp) : Type 0 where
    pub services_go : List Event
    pub actors_go : List Event
    pub scoped_go : List Event
    pub app_go : List Event
    pub noted : after.events ≡ c.events ++ (services_go ++ (actors_go ++ (scoped_go ++ app_go)))
    pub services_way :
        Each
          (ServiceClosing outside)
          (destroy_service outside)
          (ids_of_kind service c.registry.entries)
          c
          services_go
    pub actors_way :
        Each
          (ActorClosing outside)
          (destroy_actor outside)
          (ids_of_kind actor c.registry.entries)
          (after_services c.registry.entries c)
          actors_go
    pub scoped_way :
        Each
          (ComponentClosing outside)
          (destroy_component outside)
          (in_scope false c.registry.entries)
          (after_actors c.registry.entries c)
          scoped_go
    pub app_way :
        Each
          (ComponentClosing outside)
          (destroy_component outside)
          (in_scope true c.registry.entries)
          (after_scoped c.registry.entries c)
          app_go

  -- A stop that does something, from the state `c` on, and the state that it ends in.
  abbrev pub IsDone : CoApp → CoApp × Result (Unit {0}) → Type 0
  IsDone c done =
      Stopped (in_state app_stopping c) done.0
      × (is_ok done.1 ≡ true)
      × ((done.0.state ≡ app_stopped) ⊎ (done.0.state ≡ app_stop_incomplete))
      × ((done.0.state ≡ app_stopped) ↔ (pending_cleanup done.0.registry.entries ≡ []))
