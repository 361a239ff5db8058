-- ===== src/Host/App/Stages.antt =====
-- framework/src/host/App.cc: `CoStart`, `CoPause` and `CoResume`.
pub mod Started
pub mod InTurn
use bbt_framework.Prelude.{
  ℕ, Bool, true, false, not, ◌&&◌, ◌||◌, List, [], ◌∷◌, ◌++◌, Option, none, some, String, ◌==◌, leb,
  if◌then◌else◌,
}
use bbt_framework.Infra.{
  Infra, Error, ErrorCode, make_error, Result, ok, err, closed, overloaded, invalid_argument,
  invalid_context, internal_error,
}
use bbt_framework.Host.Registry.{
  Registry, RegistryEntry, ObjectState, ObjectError, installed, starting, running, paused, failed,
  service, same_state, first_entry, record_failure,
}
use bbt_framework.Host.Registry.Views.{ids_in_state}
use bbt_framework.Host.App.StartOrder.{component_start_order}
use bbt_framework.Host.App.Control.{
  AppState, app_created, app_starting, app_running, app_paused, app_stopping, app_stop_incomplete,
  app_stopped, Hook, on_start, on_pause, on_resume, Outside, CoApp, in_state, in_registry, failure,
  set_and_dispatch, run_hook_co,
}

-- What the options have to say about limits and budgets.
pub record AppOptions : Type 0 where
  pub max_objects : ℕ
  pub max_bindings : ℕ
  pub max_observers : ℕ
  pub observer_queue_capacity : ℕ
  pub shutdown_budget : ℕ
  pub lifecycle_budget : ℕ

abbrev pub error_at : String → Error → ObjectError
error_at phase e = record { code = e.code; phase = phase; message = e.message }

-- Those of the ids whose object is installed.
unfoldable pub only_installed : List RegistryEntry → List String → List String
only_installed es [] = []
only_installed es (id ∷ ids) =
    let rest = only_installed es ids in
    elim (first_entry id es) [
      | none ↦ rest
      | some e ↦ if same_state e.state installed then id ∷ rest else rest
    ]

module _ ⦃infra : Infra⦄ where
  -- `_CheckCoContext`: the coroutine of the caller, 0 for none, and the one that runs a hook.
  unfoldable pub check_co_context : ℕ → ℕ → Result (Unit {0})
  check_co_context co hook_co =
      if co == 0
      then err (
          make_error invalid_context
            "lifecycle: Co* entry points require a managed coroutine context")
      else if hook_co == co
      then err (
          make_error invalid_context
            "lifecycle: a lifecycle entry point called by its own hook would wait on itself")
      else ok tt

  -- `AppOptions::Validate`
  unfoldable pub validate : AppOptions → Result (Unit {0})
  validate o =
      if o.max_objects == 0
        || (o.max_bindings == 0 || (o.max_observers == 0 || o.observer_queue_capacity == 0))
      then err (
          make_error invalid_argument
            "AppOptions: SetLimits requires all four limits to be positive")
      else if leb o.shutdown_budget 0
      then err (
          make_error invalid_argument
            "AppOptions: SetShutdownBudget must be a finite positive value")
      else if leb o.lifecycle_budget 0
      then err (
          make_error invalid_argument
            "AppOptions: SetLifecycleBudget must be a finite positive value")
      else ok tt

  -- `m_lifecycle_active` lets one transition in and is given back at the end.
  abbrev pub exclusively :
      String → (CoApp → CoApp × Result (Unit {0})) → CoApp → CoApp × Result (Unit {0})
  exclusively what f c =
      if c.lifecycle_active
      then (c, err (make_error overloaded what))
      else let (after, r) = f (record c { lifecycle_active = true }) in
        (record after { lifecycle_active = false }, r)

  module _ (outside : Outside) where
    -- One loop of `_StartImpl`, over components or over services.
    unfoldable pub start_each : List String → CoApp → CoApp × Result (Unit {0})
    start_each [] c = (c, ok tt)
    start_each (id ∷ ids) c =
        let (after, r) =
          run_hook_co outside on_start "start" id (set_and_dispatch outside id starting none c) in
        elim r [
          | err e ↦ (
            in_state app_running
                (set_and_dispatch outside id failed (some (error_at "start" e)) after),
            err e,
          )
          | ok _ ↦ start_each ids (set_and_dispatch outside id running none after)
        ]

    abbrev pub note_cycle : Bool → CoApp → CoApp
    note_cycle false c = c
    note_cycle true c =
        in_registry
          (record_failure
            (failure "" "start" "topo" internal_error "component dependency cycle residual"))
          c

    -- `_StartImpl` behind its guards.
    unfoldable pub start_all : CoApp → CoApp × Result (Unit {0})
    start_all c =
        let es = c.registry.entries in
        let found = component_start_order es in
        let comps = only_installed es found.order in
        let svcs = ids_in_state service installed es in
        let (with_comps, r) = start_each comps (note_cycle found.cycle (in_state app_starting c)) in
        elim r [
          | err e ↦ (with_comps, err e)
          | ok _ ↦
              let (with_svcs, s) = start_each svcs with_comps in
              elim s [ err e ↦ (with_svcs, err e) | ok _ ↦ (in_state app_running with_svcs, ok tt) ]
        ]

    unfoldable pub start_from : AppOptions → AppState → CoApp → CoApp × Result (Unit {0})
    start_from options app_stopped c = (c, err (make_error closed "Start: app already stopped"))
    start_from options app_stop_incomplete c =
        (c, err (make_error closed "Start: app already stopped"))
    start_from options app_created c = elim (validate options) [
      | err e ↦ (c, err e)
      | ok _ ↦ start_all c
    ]
    start_from options app_paused c = elim (validate options) [
      | err e ↦ (c, err e)
      | ok _ ↦ start_all c
    ]
    start_from options _ c =
        (c, err (make_error overloaded "Start: app not in Created/Paused state"))

    unfoldable pub start : AppOptions → CoApp → CoApp × Result (Unit {0})
    start options =
        exclusively "Start: lifecycle transition in progress" λ c. start_from options c.state c

    -- The loop of `_PauseImpl` and of `_ResumeImpl`.
    unfoldable pub turn_each :
        Hook → String → ObjectState → List String → CoApp → CoApp × Result (Unit {0})
    turn_each hook phase s [] c = (c, ok tt)
    turn_each hook phase s (id ∷ ids) c =
        let (after, r) = run_hook_co outside hook phase id c in
        elim r [
          | err e ↦ (set_and_dispatch outside id failed (some (error_at phase e)) after, err e)
          | ok _ ↦ turn_each hook phase s ids (set_and_dispatch outside id s none after)
        ]

    unfoldable pub pause_from : AppState → CoApp → CoApp × Result (Unit {0})
    pause_from app_running c =
        let svcs = ids_in_state service running c.registry.entries in
        let (after, r) = turn_each on_pause "pause" paused svcs c in
        elim r [ err e ↦ (after, err e) | ok _ ↦ (in_state app_paused after, ok tt) ]
    pause_from _ c = (c, err (make_error invalid_argument "Pause: app not Running"))

    unfoldable pub pause : CoApp → CoApp × Result (Unit {0})
    pause = exclusively "Pause: lifecycle transition in progress" λ c. pause_from c.state c

    unfoldable pub resume_from : AppState → CoApp → CoApp × Result (Unit {0})
    resume_from app_paused c =
        let svcs = ids_in_state service paused c.registry.entries in
        let (after, r) = turn_each on_resume "resume" running svcs c in
        elim r [ err e ↦ (after, err e) | ok _ ↦ (in_state app_running after, ok tt) ]
    resume_from _ c = (c, err (make_error invalid_argument "Resume: app not Paused"))

    unfoldable pub resume : CoApp → CoApp × Result (Unit {0})
    resume = exclusively "Resume: lifecycle transition in progress" λ c. resume_from c.state c
