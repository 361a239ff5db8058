-- ===== src/Host/App/Install/Answers.antt =====
-- What an install has done by its answer (framework/src/host/App.cc).
use bbt_framework.Prelude.{ℕ, ◌≡◌, ◌⊎◌, Bool, true, false, List, none, some, String, is_empty}
use bbt_framework.Infra.{Infra, Error, ok, err}
use bbt_framework.Host.Registry.{RegistryEntry, service, actor, find_component, find_by_type_name}
use bbt_framework.Host.App.Bind.{Placement, validate_owner, make_handle}
use bbt_framework.Host.App.Control.{AppState, Outside, CoApp}
use bbt_framework.Host.App.Connect.{ComponentBindingDecl, OnBindingChanged}
use bbt_framework.Host.App.Install.{
  TypeInfo, Make, is_stopped, component_of, service_of, actor_type_of, install_component,
  install_actor_type, install_service,
}
use bbt_framework.Host.App.Install.Hooks.{Hooked, NoHooks, BoundAndHooked}
use bbt_framework.Host.App.Install.Entered.{IsRefused, Entered, Constructed}

abbrev pub built : Make → CoApp → CoApp
built make c = record c { registry = (make c.registry).0 }

module _ ⦃infra : Infra⦄ (outside : Outside) where
  abbrev pub ComponentInstall : TypeInfo → String → Placement → Make → AppState → CoApp → Type 0
  ComponentInstall type name placement make now c =
      let done = install_component outside type name placement make now c in
      (IsRefused c done
        × ((is_stopped c.state ≡ true)
            ⊎ (is_empty name ≡ true)
            ⊎ ((e : Error) × (validate_owner placement c.registry ≡ err e))))
      ⊎ ((owner_id : String) × (is_stopped c.state ≡ false)
          × (is_empty name ≡ false)
          × (validate_owner placement c.registry ≡ ok owner_id)
          × Constructed outside (λ e. Hooked outside now e.id) (make c.registry).1
              (find_component placement.scope owner_id type.index name (make c.registry).0.entries)
              (component_of type name placement owner_id) (built make c) done)

  abbrev pub ActorTypeInstall : TypeInfo → String → CoApp → Type 0
  ActorTypeInstall type name c =
      let done = install_actor_type outside type name c in
      (IsRefused c done
        × ((is_stopped c.state ≡ true)
            ⊎ ((old : RegistryEntry) × (find_by_type_name actor name c.registry.entries
                  ≡ some old))))
      ⊎ ((is_stopped c.state ≡ false)
          × (find_by_type_name actor name c.registry.entries ≡ none)
          × Entered outside (λ _ _. NoHooks) (actor_type_of type name) c done)

  module _ (changed : OnBindingChanged) (allows : ℕ → ℕ → Bool) where
    abbrev pub ServiceInstall :
        TypeInfo → String → Make → List ComponentBindingDecl → AppState → CoApp → Type 0
    ServiceInstall type name make decls now c =
        let done = install_service outside changed allows type name make decls now c in
        (IsRefused c done × (is_stopped c.state ≡ true))
        ⊎ ((is_stopped c.state ≡ false)
            × Constructed outside
                (λ e. BoundAndHooked outside changed allows decls now (make_handle e))
                (make c.registry).1 (find_by_type_name service name (make c.registry).0.entries)
                (service_of type name) (built make c) done)
