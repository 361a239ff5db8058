-- ===== src/Host/App/Stop.antt =====
-- framework/src/host/App.cc: `CoStop`, with the ways in which services, actors and components go.
-- The observers of an object that goes are in Host.Registry.Observers; the table of the components
-- that an object has bound is left out.
pub mod Closing
pub mod Ways
pub mod InOrder
use bbt_framework.Prelude.{
  ℕ, Bool, true, false, not, ◌&&◌, List, [], ◌∷◌, ◌++◌, Option, none, some, String, ◌==◌, ltb,
  if◌then◌else◌,
}
use bbt_framework.Infra.{
  Infra, Error, ErrorCode, make_error, Result, ok, err, timed_out, cancelled, runtime_unavailable,
  internal_error,
}
use bbt_framework.Ordered.Types.{◌==ₛ◌}
use bbt_framework.Host.Registry.{
  Registry, RegistryEntry, Binding, ObjectState, ObjectKind, stopping, stop_incomplete, destroyed,
  service, actor, component, app_scope, same_scope, first_entry, finish_destroy, record_failure,
  set_state, pending_cleanup, CleanupInfo,
}
use bbt_framework.Host.Registry.Borrow.{
  has_active, begin_unbind, borrows_drained, binding_drained, erase_subject_bindings,
}
use bbt_framework.Host.Registry.Views.{ids_of_kind}
use bbt_framework.Host.App.StartOrder.{component_start_order}
use bbt_framework.Host.App.Bind.{on_entry}
use bbt_framework.Host.App.History.{begin_op, end_op, set_phase}
use bbt_framework.Host.App.Control.{
  AppState, app_stopping, app_stop_incomplete, app_stopped, WaitStatus, wait_completed,
  wait_timed_out, wait_cancelled, Hook, on_stop, on_uninstall, on_destroy, HookEnd, returned, threw,
  Outside, Event, hooked, succeeded, released, CoApp, in_registry, note, in_state, failure,
  run_hook_co, run_void_hook,
}
use bbt_framework.Host.App.Stages.{exclusively}

abbrev pub Wake : Type 0
Wake = (Registry → Registry) × WaitStatus

-- The conditions of `WaitBorrowsDrained` and `WaitBindingDrained`; an entry that is gone is drained.
unfoldable pub all_drained : String → Registry → Bool
all_drained id r = elim (first_entry id r.entries) [ none ↦ true | some e ↦ borrows_drained e ]

unfoldable pub edge_drained : String → String → ℕ → Registry → Bool
edge_drained id subject generation r = elim (first_entry id r.entries) [
  | none ↦ true
  | some e ↦ binding_drained subject generation e
]

-- The edges of a subject that are retiring, over all components.
unfoldable pub retiring_of : String → String → List Binding → List (String × ℕ)
retiring_of subject id [] = []
retiring_of subject id (b ∷ bs) =
    let rest = retiring_of subject id bs in
    if b.subject_id ==ₛ subject && b.retiring then (id, b.generation) ∷ rest else rest

unfoldable pub retiring_edges : String → List String → Registry → List (String × ℕ)
retiring_edges subject [] r = []
retiring_edges subject (id ∷ ids) r =
    let rest = retiring_edges subject ids r in
    elim (first_entry id r.entries) [
      | none ↦ rest
      | some e ↦ retiring_of subject id e.bindings ++ rest
    ]

unfoldable pub erase_edges_of : String → List String → Registry → Registry
erase_edges_of subject [] r = r
erase_edges_of subject (id ∷ ids) r =
    erase_edges_of subject ids (on_entry id (erase_subject_bindings subject) r)

-- The reversed order of start, the scoped components and those of the application.
unfoldable pub by_scope : Bool → List RegistryEntry → List String → List String
by_scope of_app es [] = []
by_scope of_app es (id ∷ ids) =
    let rest = by_scope of_app es ids in
    elim (first_entry id es) [
      | none ↦ rest
      | some e ↦ elim (same_scope e.scope app_scope) [
        | true ↦ if of_app then id ∷ rest else rest
        | false ↦ if of_app then rest else id ∷ rest
      ]
    ]

unfoldable pub reverse : List String → List String → List String
reverse [] done = done
reverse (x ∷ xs) done = reverse xs (x ∷ done)

abbrev pub in_flight : String → CoApp → Bool
in_flight id c = elim (first_entry id c.registry.entries) [
  | none ↦ false
  | some e ↦ ltb 0 e.hooks_in_flight
]

abbrev pub end_phase : RegistryEntry → RegistryEntry
end_phase e = end_op (set_phase "" e)

unfoldable pub for_each : (String → CoApp → CoApp) → List String → CoApp → CoApp
for_each f [] c = c
for_each f (id ∷ ids) c = for_each f ids (f id c)

-- Whether a stop left something to clean up.
abbrev pub end_state : List CleanupInfo → AppState
end_state [] = app_stopped
end_state (_ ∷ _) = app_stop_incomplete

module _ ⦃infra : Infra⦄ where
  unfoldable pub seal_edges : String → List String → Registry → Registry
  seal_edges subject [] r = r
  seal_edges subject (id ∷ ids) r = elim (first_entry id r.entries) [
    | none ↦ seal_edges subject ids r
    | some e ↦
        if has_active subject e.bindings
        then seal_edges subject ids (on_entry id (λ x. (begin_unbind subject x).0) r)
        else seal_edges subject ids r
  ]

  -- The code for a wait that did not complete.
  abbrev pub wait_code : WaitStatus → ErrorCode
  wait_code wait_timed_out = timed_out
  wait_code wait_cancelled = cancelled
  wait_code _ = runtime_unavailable

  -- `_WaitBorrows`, wake-up by wake-up.
  unfoldable pub wait_borrows :
      (Registry → Bool) → List Wake → Registry → Registry × Result (Unit {0})
  wait_borrows ready [] r =
      if ready r then (r, ok tt) else (r, err (make_error timed_out "borrow wait did not complete"))
  wait_borrows ready ((meanwhile, status) ∷ wakes) r = elim (ready r) [
    | true ↦ (r, ok tt)
    | false ↦ elim status [
      | wait_completed ↦ wait_borrows ready wakes (meanwhile r)
      | other ↦ (meanwhile r, err (make_error (wait_code other) "borrow wait did not complete"))
    ]
  ]

  module _ (outside : Outside) where
    -- `_AbortDestroy`
    unfoldable pub abort_destroy : String → String → String → Error → ObjectState → CoApp → CoApp
    abort_destroy id operation phase e incomplete c =
        let recorded =
          in_registry (record_failure (failure id operation phase e.code e.message)) c in
        elim (first_entry id recorded.registry.entries) [
          | none ↦ recorded
          | some _ ↦
              in_registry
                (λ r.
                  outside.observed id incomplete
                    (on_entry id (λ x. set_state incomplete none (end_op (set_phase phase x))) r))
                recorded
        ]

    abbrev pub wait_drained : String → (Registry → Bool) → CoApp → CoApp × Result (Unit {0})
    wait_drained id ready c =
        let (r, result) = wait_borrows ready (outside.wakes id c.registry) c.registry in
        (record c { registry = r }, result)

    -- The waits for the retiring edges of a subject, one after another.
    unfoldable pub wait_edges : String → List (String × ℕ) → CoApp → CoApp × Result (Unit {0})
    wait_edges subject [] c = (c, ok tt)
    wait_edges subject ((id, generation) ∷ edges) c =
        let (after, r) = wait_drained subject (edge_drained id subject generation) c in
        elim r [ err e ↦ (after, err e) | ok _ ↦ wait_edges subject edges after ]

    -- The end of every way out: the entry goes, and its object after it.
    unfoldable pub remove : (RegistryEntry → RegistryEntry) → String → CoApp → CoApp
    remove last id c = elim (first_entry id c.registry.entries) [
      | none ↦ c
      | some _ ↦ note (released id) (
          in_registry (λ r. outside.observed id destroyed (finish_destroy id (on_entry id last r)))
            c)
    ]

    -- What services and components have in common: the `OnStop` hook, the test for a hook in
    -- flight, `between`, the `OnUninstall` hook and the removal.
    unfoldable pub stop_and_remove :
        String
        → String
        → ObjectState
        → (Registry → Registry)
        → String
        → CoApp
        → CoApp × Result (Unit {0})
    stop_and_remove operation late incomplete between id c =
        let (stopped, r) = run_hook_co outside on_stop "stop" id c in
        elim r [
          | err e ↦ (abort_destroy id operation "onstop" e incomplete stopped, err e)
          | ok _ ↦ elim (in_flight id stopped) [
            | true ↦
                let e = make_error timed_out late in
                (abort_destroy id operation "hook_in_flight" e incomplete stopped, err e)
            | false ↦ (
              remove end_phase id
                  (run_void_hook outside on_uninstall "uninstall" id (in_registry between stopped)),
              ok tt,
            )
          ]
        ]

    -- `BeginOpLocked` and the state, where the entry is there and no operation is in progress.
    abbrev pub begin_stop : String → CoApp → Option CoApp
    begin_stop id c = elim (first_entry id c.registry.entries) [
      | none ↦ none
      | some e ↦
          if e.op_in_progress
          then none
          else some (
              in_registry
                (on_entry id (λ x. set_state stopping none (set_phase "stop" (begin_op x)))) c)
    ]

    unfoldable pub destroy_service : String → CoApp → CoApp
    destroy_service id c = elim (begin_stop id c) [
      | none ↦ c
      | some begun ↦
          let comps = ids_of_kind component begun.registry.entries in
          let announced =
            in_registry (λ r. outside.observed id stopping (seal_edges id comps r)) begun in
          let edges =
            retiring_edges id (ids_of_kind component announced.registry.entries)
              announced.registry in
          let (drained, r) = wait_edges id edges announced in
          elim r [
            | err e ↦ abort_destroy id "stop" "borrow_drain" e stop_incomplete drained
            | ok _ ↦
                (stop_and_remove "stop" "stop: prior hook still in flight" stop_incomplete
                  (λ reg. erase_edges_of id (ids_of_kind component reg.entries) reg) id drained).0
          ]
    ]

    unfoldable pub destroy_component : String → CoApp → CoApp
    destroy_component id c = elim (begin_stop id c) [
      | none ↦ c
      | some begun ↦
          let announced = in_registry (outside.observed id stopping) begun in
          let (drained, r) = wait_drained id (all_drained id) announced in
          elim r [
            | err e ↦ abort_destroy id "stop" "borrow_drain" e stop_incomplete drained
            | ok _ ↦
                (stop_and_remove "stop" "stop: prior hook still in flight" stop_incomplete
                  (λ reg. reg) id drained).0
          ]
    ]

    -- `_RunActorDestroy`: an entry of an actor's type has no object, 0 here.
    unfoldable pub run_actor_destroy : String → CoApp → CoApp
    run_actor_destroy id c = elim (first_entry id c.registry.entries) [
      | none ↦ c
      | some e ↦ elim (e.object == 0) [
        | true ↦ c
        | false ↦
            let (r, end) = outside.called on_destroy id c.registry in
            let after = record (note (hooked on_destroy id) c) { registry = r } in
            elim end [
              | returned _ ↦ after
              | threw _ ↦
                  in_registry
                    (record_failure
                      (failure id "destroy" "destroy" internal_error "OnDestroy threw"))
                    after
            ]
      ]
    ]

    unfoldable pub destroy_actor : String → CoApp → CoApp
    destroy_actor id c = remove (λ e. e) id (run_actor_destroy id c)

    -- `_StopAll`
    unfoldable pub stop_all : CoApp → CoApp
    stop_all c =
        let es = c.registry.entries in
        let order = reverse (component_start_order es).order [] in
        for_each (destroy_component) (by_scope true es order) (
          for_each (destroy_component) (by_scope false es order) (
            for_each (destroy_actor) (ids_of_kind actor es)
              (for_each (destroy_service) (ids_of_kind service es) c)))

    -- `_StopImpl`
    unfoldable pub stop_from : AppState → CoApp → CoApp × Result (Unit {0})
    stop_from app_stopped c = (c, ok tt)
    stop_from _ c =
        let after = stop_all (in_state app_stopping c) in
        (in_state (end_state (pending_cleanup after.registry.entries)) after, ok tt)

    unfoldable pub stop : CoApp → CoApp × Result (Unit {0})
    stop = exclusively "Stop: lifecycle transition in progress" λ c. stop_from c.state c
