-- ===== src/Tests/Control.antt =====
-- The transitions of an application on concrete inputs.
use bbt_framework.Tests.{test_infra}
use bbt_framework.Prelude.{
  ◌≡◌, ◌≢◌, true, false, none, refl, List, [], ◌∷◌, String_discrete, lookup, to_string, emplace,
  insert,
}
use bbt_framework.Infra.{ok}
use bbt_framework.Host.Registry.{
  RegistryEntry, Creation, component, service, app_scope, service_scope, installed, new_entry,
  first_entry, set_state, ObjectKind_discrete, ObjectState_discrete, ComponentScope_discrete,
  finish_destroy, erase_entry, find_component, begin_destroy, build_index, pending_cleanup,
  is_pending, find_by_type_name, create_entry, count_bindings, record_failure,
}
use bbt_framework.Host.Registry.Views.{ids_in_state, ids_of_kind}
use bbt_framework.Host.Registry.Borrow.{
  borrows_drained, has_active, erase_subject_bindings, bind, begin_unbind, binding_drained,
  erase_binding, erase_edge, find_edge, find_retiring, retire,
}
use bbt_framework.Host.App.Cycle.{member, graph_of, deps_in, bound_by, unwalked}
use bbt_framework.Host.App.StartOrder.{walk, dfs, walk_all, component_start_order}
use bbt_framework.Host.App.Bind.{
  on_first, Placement, BindRequest, validate_owner, bind_edge, bind_found,
}
use bbt_framework.Host.App.Control.{
  Outside, CoApp, wait_completed, returned, app_created, app_running, app_paused, app_stopped,
  attached, detached, on_install, run_hook, hooked, succeeded, released, on_start, on_stop,
  on_uninstall, run_hook_co, await_hook, wait_hooks_settled, set_and_dispatch, run_void_hook,
}
use bbt_framework.Host.App.Stages.{
  AppOptions, start, pause, resume, start_from, start_all, validate, start_each, only_installed,
}
use bbt_framework.Host.App.Stages.InTurn.{
  Whole, StartBarred, StartAllowed, StartTurned, RunningTurned, PausedTurned, hooks-InTurn,
}
use bbt_framework.Host.App.Stop.{
  stop, stop_from, stop_all, for_each, by_scope, reverse, destroy_service, destroy_component,
  destroy_actor, stop_and_remove, remove, wait_borrows, wait_edges, all_drained, retiring_edges,
  seal_edges, erase_edges_of, retiring_of, edge_drained,
}
use bbt_framework.Host.App.Uninstall.{uninstall_component, begin_uninstall, close_component}
use bbt_framework.Host.App.Connect.{
  ComponentBindingDecl, OnBindingChanged, apply_service_bindings, apply_each, bind_component,
  unbind_component, finish_unbind, retire_edge, undo, tell, tell_unbound,
}
use bbt_framework.Host.App.Install.{
  TypeInfo, Make, made, install_service, enter_service, install_hooks, start_installed,
}

-- Every hook succeeds, and nobody else does anything.
abbrev calm : Outside
calm = record {
  observed = λ _ _ r. r;
  settling = λ _ r. (r, wait_completed);
  refuses = λ _ _ _. none;
  awaited = λ _ _ r. (r, wait_completed, returned (ok tt));
  called = λ _ _ r. (r, returned (ok tt));
  wakes = λ _ _. [];
}

abbrev store : Creation
store = record {
  kind = component;
  type_name = "Store";
  name = "store";
  scope = app_scope;
  owner_id = "";
  object_type = 1;
  object = 10;
}

-- A component of the application, one of a service, and the service, all installed.
abbrev objects : List RegistryEntry
objects =
    record (new_entry store "component:0" 1) { state = installed }
    ∷ record (new_entry (record store { scope = service_scope; owner_id = "service:2" })
        "component:1" 2) { state = installed }
    ∷ record (new_entry (record store { kind = service }) "service:2" 3) { state = installed }
    ∷ []

abbrev app_of : List RegistryEntry → CoApp
app_of es = record {
  registry = record {
    limits = record { max_objects = 4; max_bindings = 4; max_observers = 4 };
    entries = es;
    index = [];
    next_generation = 4;
    next_id_seq = 3;
    failures = [];
    failures_dropped = 0;
  };
  state = app_created;
  lifecycle_active = false;
  events = [];
}

abbrev options : AppOptions
options = record {
  max_objects = 4;
  max_bindings = 4;
  max_observers = 4;
  observer_queue_capacity = 4;
  shutdown_budget = 10;
  lifecycle_budget = 10;
}

starts :
    (start calm options (app_of objects)).0.events
    ≡ hooked on_start "component:0"
      ∷ succeeded on_start "component:0"
      ∷ hooked on_start "component:1"
      ∷ succeeded on_start "component:1"
      ∷ hooked on_start "service:2"
      ∷ succeeded on_start "service:2"
      ∷ []
unfolding start start_from start_all validate start_each only_installed run_hook_co await_hook
    wait_hooks_settled set_and_dispatch component_start_order walk_all dfs walk member graph_of
    deps_in bound_by unwalked ids_of_kind ids_in_state first_entry on_first set_state
    ObjectKind_discrete ObjectState_discrete String_discrete lookup
starts = refl

stops :
    ((stop calm (app_of objects)).0.events
      ≡ hooked on_stop "service:2"
        ∷ succeeded on_stop "service:2"
        ∷ hooked on_uninstall "service:2"
        ∷ released "service:2"
        ∷ hooked on_stop "component:1"
        ∷ succeeded on_stop "component:1"
        ∷ hooked on_uninstall "component:1"
        ∷ released "component:1"
        ∷ hooked on_stop "component:0"
        ∷ succeeded on_stop "component:0"
        ∷ hooked on_uninstall "component:0"
        ∷ released "component:0"
        ∷ [])
    × ((stop calm (app_of objects)).0.state ≡ app_stopped)
unfolding stop stop_from stop_all for_each by_scope reverse destroy_service destroy_component
    destroy_actor stop_and_remove remove wait_borrows wait_edges all_drained borrows_drained
    retiring_edges seal_edges erase_edges_of run_void_hook finish_destroy erase_entry build_index
    pending_cleanup is_pending run_hook_co await_hook wait_hooks_settled component_start_order
    walk_all dfs walk member graph_of deps_in bound_by unwalked ids_of_kind first_entry on_first
    set_state ObjectKind_discrete ObjectState_discrete ComponentScope_discrete String_discrete
    lookup has_active retiring_of erase_subject_bindings
stops = (refl, refl)

hooks-InTurn_example :
    Whole calm
      (StartBarred calm options app_created)
      (StartAllowed calm options app_created)
      (app_of objects)
      (start calm options (app_of objects))
      (StartTurned calm)
    × Whole calm
        (app_created ≢ app_running)
        (app_created ≡ app_running)
        (app_of objects)
        (pause calm (app_of objects))
        (RunningTurned calm)
    × Whole calm
        (app_created ≢ app_paused)
        (app_created ≡ app_paused)
        (app_of objects)
        (resume calm (app_of objects))
        (PausedTurned calm)
hooks-InTurn_example = hooks-InTurn calm options (app_of objects)

abbrev placed : Placement
placed = record { scope = app_scope; owner = none }

uninstalls :
    (uninstall_component calm 1 "store" placed (app_of objects)).0.events
    ≡ hooked on_stop "component:0"
      ∷ succeeded on_stop "component:0"
      ∷ hooked on_uninstall "component:0"
      ∷ released "component:0"
      ∷ []
unfolding uninstall_component validate_owner find_component begin_uninstall close_component
    begin_destroy stop_and_remove remove wait_borrows all_drained borrows_drained run_void_hook
    finish_destroy erase_entry build_index run_hook_co await_hook wait_hooks_settled first_entry
    on_first set_state ObjectKind_discrete ComponentScope_discrete String_discrete lookup
uninstalls = refl

abbrev makes : Make
makes r = (r, made 20)

abbrev shop : TypeInfo
shop = record { index = 2; name = "Shop" }

-- The store is there, and the archive is not.
abbrev stored : ComponentBindingDecl
stored = record { component_type = 1; name = "store" }

abbrev archived : ComponentBindingDecl
archived = record { component_type = 1; name = "archive" }

abbrev quiet : OnBindingChanged
quiet _ r = (r, false)

installs :
    ((install_service calm quiet
        (λ _ _. true)
        shop
        "shop"
        makes
        (stored ∷ [])
        app_running
        (app_of objects)).0.events
      ≡ attached 1 "store"
        ∷ hooked on_install "service:3"
        ∷ succeeded on_install "service:3"
        ∷ hooked on_start "service:3"
        ∷ succeeded on_start "service:3"
        ∷ [])
    × ((install_service calm quiet
          (λ _ _. true)
          shop
          "shop"
          makes
          (stored ∷ archived ∷ [])
          app_running
          (app_of objects)).0.events
        ≡ attached 1 "store" ∷ detached 1 "store" ∷ [])
unfolding install_service find_by_type_name ObjectKind_discrete String_discrete enter_service
    create_entry apply_service_bindings first_entry on_first to_string set_state apply_each
    bind_component validate_owner bind_edge find_component ComponentScope_discrete bind bind_found
    finish_unbind retire_edge tell tell_unbound unbind_component undo await_hook run_hook
    run_hook_co set_and_dispatch wait_hooks_settled install_hooks start_installed edge_drained
    wait_borrows begin_unbind binding_drained erase_binding erase_edge find_edge find_retiring
    has_active retire ObjectState_discrete count_bindings record_failure emplace insert lookup
installs = (refl, refl)

-- The service unbinds the store, which it has not bound, and the store goes.
abbrev unbinding : BindRequest
unbinding = record {
  component_type = 1;
  subject = record { id = "service:2"; generation = 3; is_ours = true };
  name = "store";
  placement = placed;
}
