-- ===== src/Host/App/Install.antt =====
-- framework/src/host/App.cc: `_InstallComponentImpl`, `_InstallServiceImpl` and
-- `_InstallActorTypeImpl`. The constructor of an object is the caller's, and runs while no lock is
-- held.
pub mod Hooks
pub mod Entered
pub mod Answers
use bbt_framework.Prelude.{
  ℕ, Bool, true, false, List, Option, none, some, String, ◌++ₛ◌, is_empty, if◌then◌else◌,
}
use bbt_framework.Infra.{
  Infra, Error, make_error, Result, ok, err, closed, invalid_argument, internal_error,
}
use bbt_framework.Host.Registry.{
  Registry, RegistryEntry, Creation, service, actor, component, app_scope, installing, installed,
  install_failed, starting, running, failed, create_entry, find_component, find_by_type_name,
  set_state,
}
use bbt_framework.Host.App.Bind.{Placement, validate_owner, on_entry, make_handle}
use bbt_framework.Host.App.Control.{
  AppState, app_running, app_stopped, Outside, CoApp, in_registry, on_install, on_start, run_hook,
  run_hook_co, set_and_dispatch,
}
use bbt_framework.Host.App.Stages.{error_at}
use bbt_framework.Host.App.Connect.{ComponentBindingDecl, OnBindingChanged, apply_service_bindings}

-- A C++ type by its identity and its name.
pub record TypeInfo : Type 0 where
  pub index : ℕ
  pub name : String

-- A constructor makes an object, or throws; an exception may have a text.
pub data Construction : Type 0 where
  made : ℕ → Construction
  ctor_threw : Option String → Construction

abbrev pub Make : Type 0
Make = Registry → Registry × Construction

abbrev pub is_stopped : AppState → Bool
is_stopped app_stopped = true
is_stopped _ = false

-- What `CreateEntryLocked` gets.
abbrev pub component_of : TypeInfo → String → Placement → String → ℕ → Creation
component_of type name placement owner_id object = record {
  kind = component;
  type_name = type.name;
  name = name;
  scope = placement.scope;
  owner_id = owner_id;
  object_type = type.index;
  object = object;
}

abbrev pub service_of : TypeInfo → String → ℕ → Creation
service_of type service_name object = record {
  kind = service;
  type_name = service_name;
  name = service_name;
  scope = app_scope;
  owner_id = "";
  object_type = type.index;
  object = object;
}

-- The type of an actor has no object.
abbrev pub actor_type_of : TypeInfo → String → Creation
actor_type_of type actor_type = record {
  kind = actor;
  type_name = actor_type;
  name = "";
  scope = app_scope;
  owner_id = "";
  object_type = type.index;
  object = 0;
}

module _ ⦃infra : Infra⦄ where
  abbrev pub ctor_error : String → Option String → Error
  ctor_error what (some text) = make_error internal_error (what ++ₛ ": ctor threw: " ++ₛ text)
  ctor_error what none = make_error internal_error (what ++ₛ ": ctor threw (non-std)")

  module _ (outside : Outside) where
    -- The start of an object that is installed while the application runs; `now` is the state of the
    -- application by then.
    unfoldable pub start_installed : AppState → String → CoApp → CoApp × Result (Unit {0})
    start_installed app_running id c =
        let (after, r) =
          run_hook_co outside on_start "start" id (set_and_dispatch outside id starting none c) in
        elim r [
          | err e ↦ (set_and_dispatch outside id failed (some (error_at "start" e)) after, err e)
          | ok _ ↦ (set_and_dispatch outside id running none after, ok tt)
        ]
    start_installed _ id c = (c, ok tt)

    abbrev pub fail_install : String → Error → CoApp → CoApp
    fail_install id e c = set_and_dispatch outside id install_failed (some (error_at "install" e)) c

    -- The hooks of a component or a service that has its entry.
    unfoldable pub install_hooks : AppState → String → CoApp → CoApp × Result (Unit {0})
    install_hooks now id c =
        let (after, r) = run_hook outside on_install "install" id c in
        elim r [
          | err e ↦ (fail_install id e after, err e)
          | ok _ ↦ start_installed now id (set_and_dispatch outside id installed none after)
        ]

    -- The new entry becomes `Installing`, and its observers hear of it.
    abbrev pub announce : String → Registry → CoApp → CoApp
    announce id r c = record c {
      registry = outside.observed id installing (on_entry id (set_state installing none) r);
    }

    unfoldable pub enter_component : AppState → Creation → CoApp → CoApp × Result (Unit {0})
    enter_component now creation c = elim (create_entry creation c.registry).1 [
      | err e ↦ (c, err e)
      | ok e ↦ install_hooks now e.id (announce e.id (create_entry creation c.registry).0 c)
    ]

    -- `m_state` is read at the beginning and, as `now`, when the object is installed.
    unfoldable pub install_component :
        TypeInfo → String → Placement → Make → AppState → CoApp → CoApp × Result (Unit {0})
    install_component type name placement make now c =
        if is_stopped c.state
        then (c, err (make_error closed "InstallComponent: app stopped"))
        else if is_empty name
        then (c, err (make_error invalid_argument "InstallComponent: empty name"))
        else elim (validate_owner placement c.registry) [
          | err e ↦ (c, err e)
          | ok owner_id ↦
              let (r, construction) = make c.registry in
              let built = record c { registry = r } in
              elim construction [
                | ctor_threw text ↦ (built, err (ctor_error "InstallComponent" text))
                | made object ↦
                    elim (find_component placement.scope owner_id type.index name r.entries) [
                      | some _ ↦ (
                        built,
                        err (
                            make_error invalid_argument
                              ("InstallComponent: duplicate component '" ++ₛ name ++ₛ "'")),
                      )
                      | none ↦
                          enter_component now (component_of type name placement owner_id object)
                            built
                    ]
              ]
        ]

    unfoldable pub enter_actor_type : Creation → CoApp → CoApp × Result (Unit {0})
    enter_actor_type creation c = elim (create_entry creation c.registry).1 [
      | err e ↦ (c, err e)
      | ok e ↦ (
        record c {
          registry =
              outside.observed e.id installed
                (on_entry e.id (set_state installed none) (create_entry creation c.registry).0);
        },
        ok tt,
      )
    ]

    unfoldable pub install_actor_type : TypeInfo → String → CoApp → CoApp × Result (Unit {0})
    install_actor_type type actor_type c =
        if is_stopped c.state
        then (c, err (make_error closed "InstallActor: app stopped"))
        else elim (find_by_type_name actor actor_type c.registry.entries) [
          | some _ ↦ (
            c,
            err (
                make_error invalid_argument
                  ("InstallActor: duplicate actor type '" ++ₛ actor_type ++ₛ "'")),
          )
          | none ↦ enter_actor_type (actor_type_of type actor_type) c
        ]

    module _ (changed : OnBindingChanged) (allows : ℕ → ℕ → Bool) where
      -- A service binds its declared components before its hooks.
      unfoldable pub enter_service :
          List ComponentBindingDecl → AppState → Creation → CoApp → CoApp × Result (Unit {0})
      enter_service decls now creation c = elim (create_entry creation c.registry).1 [
        | err e ↦ (c, err e)
        | ok e ↦
            let (after, r) =
              apply_service_bindings outside changed allows (make_handle e) decls
                (announce e.id (create_entry creation c.registry).0 c) in
            elim r [
              | err error ↦ (fail_install e.id error after, err error)
              | ok _ ↦ install_hooks now e.id after
            ]
      ]

      unfoldable pub install_service :
          TypeInfo
          → String
          → Make
          → List ComponentBindingDecl
          → AppState
          → CoApp
          → CoApp × Result (Unit {0})
      install_service type service_name make decls now c =
          if is_stopped c.state
          then (c, err (make_error closed "InstallService: app stopped"))
          else let (r, construction) = make c.registry in
            let built = record c { registry = r } in
            elim construction [
              | ctor_threw text ↦ (built, err (ctor_error "InstallService" text))
              | made object ↦ elim (find_by_type_name service service_name r.entries) [
                | some _ ↦ (
                  built,
                  err (
                      make_error invalid_argument
                        ("InstallService: duplicate service '" ++ₛ service_name ++ₛ "'")),
                )
                | none ↦ enter_service decls now (service_of type service_name object) built
              ]
            ]
