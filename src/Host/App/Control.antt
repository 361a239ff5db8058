-- ===== src/Host/App/Control.antt =====
-- framework/src/host/App.cc: the state of an application and the ways in which it calls the hooks of
-- its objects. What happens while no lock is held is up to `Outside`: each call out of the lock
-- takes the registry as it is then and gives it as it is when the call is over.
pub mod Calls
use bbt_framework.Prelude.{
  ℕ, Bool, true, false, not, ◌&&◌, ◌||◌, List, [], ◌∷◌, ◌++◌, Option, none, some, String, ◌++ₛ◌,
  Dict, lookup, insert, ℕ_discrete, ◌==◌, add64, if◌then◌else◌,
}
use bbt_framework.Infra.{
  Infra, Error, ErrorCode, make_error, Result, ok, err, timed_out, cancelled, invalid_context,
  overloaded, runtime_unavailable, internal_error,
}
use bbt_framework.Ordered.Types.{◌==ₛ◌}
use bbt_framework.Host.Registry.{
  Registry, RegistryEntry, ObjectState, ObjectError, LifecycleFailure, first_entry, set_state,
  record_failure,
}
use bbt_framework.Host.Registry.Observers.{Handle}
use bbt_framework.Host.App.Bind.{on_entry}
use bbt_framework.Host.App.History.{hook_begins, hook_settles}

pub data AppState : Type 0 where
  app_created app_starting app_running app_paused app_stopping : AppState
  app_stop_incomplete app_stopped : AppState

pub data Hook : Type 0 where
  on_install on_start on_pause on_resume on_stop on_uninstall on_destroy : Hook

-- The answers of a wait of the coroutine library.
pub data WaitStatus : Type 0 where
  wait_completed wait_timed_out wait_cancelled wait_invalid_context : WaitStatus
  already_waiting wait_unavailable : WaitStatus

-- A hook returns a result, or throws; an exception may have a text.
pub data HookEnd : Type 0 where
  returned : Result (Unit {0}) → HookEnd
  threw : Option String → HookEnd

pub record Outside : Type 0 where
  -- the observers of an object that entered a state
  pub observed : String → ObjectState → Registry → Registry
  -- the wait for an earlier hook of an object
  pub settling : String → Registry → Registry × WaitStatus
  -- why the scheduler does not take the task of a hook, if it does not
  pub refuses : Hook → String → Registry → Option String
  -- a hook in a coroutine of its own, until it or the wait for it is over
  pub awaited : Hook → String → Registry → Registry × WaitStatus × HookEnd
  -- a hook that the caller runs itself
  pub called : Hook → String → Registry → Registry × HookEnd
  -- the waits for borrows, wake-up by wake-up; after the last one comes the deadline
  pub wakes : String → Registry → List ((Registry → Registry) × WaitStatus)

-- What an application does to its objects, in the order of the doing.
pub data Event : Type 0 where
  hooked : Hook → String → Event
  succeeded : Hook → String → Event
  released : String → Event
  -- a declared binding of a service that is made, and the call that undoes it
  attached : ℕ → String → Event
  detached : ℕ → String → Event

pub record CoApp : Type 0 where
  pub registry : Registry
  pub state : AppState
  pub lifecycle_active : Bool
  pub events : List Event

abbrev pub in_registry : (Registry → Registry) → CoApp → CoApp
in_registry f c = record c { registry = f c.registry }

abbrev pub note : Event → CoApp → CoApp
note e c = record c { events = c.events ++ e ∷ [] }

abbrev pub in_state : AppState → CoApp → CoApp
in_state s c = record c { state = s }

-- A `LifecycleFailure` of an object at a phase.
abbrev pub failure : String → String → String → ErrorCode → String → LifecycleFailure
failure id operation phase code message = record {
  object_id = id;
  generation = 0;
  operation = operation;
  phase = phase;
  code = code;
  message = message;
}

abbrev pub record_fail : String → String → Error → CoApp → CoApp
record_fail id phase e c = in_registry (record_failure (failure id phase phase e.code e.message)) c

-- `NoteHookSettled`, for a hook that is over when its wait is.
abbrev pub settle : WaitStatus → String → Registry → Registry
settle wait_completed id r = on_entry id hook_settles r
settle _ id r = r

module _ ⦃infra : Infra⦄ where
  -- `RunHookCaught`
  abbrev pub run_hook_caught : HookEnd → Result (Unit {0})
  run_hook_caught (returned r) = r
  run_hook_caught (threw (some what)) =
      err (record (make_error internal_error ("hook threw: " ++ₛ what)) { domain = "framework" })
  run_hook_caught (threw none) =
      err (record (make_error internal_error "hook threw (non-std)") { domain = "framework" })

  -- `FinishCoHookWait`; the slot has the result of the hook.
  abbrev pub finish_hook_wait : WaitStatus → Result (Unit {0}) → Result (Unit {0})
  finish_hook_wait wait_completed slot = slot
  finish_hook_wait wait_timed_out slot =
      err (make_error timed_out "lifecycle hook deadline exceeded")
  finish_hook_wait wait_cancelled slot = err (make_error cancelled "lifecycle hook wait cancelled")
  finish_hook_wait wait_invalid_context slot =
      err
        (make_error invalid_context "lifecycle: CoWaiter must be awaited from a managed coroutine")
  finish_hook_wait already_waiting slot =
      err (make_error overloaded "lifecycle: hook wait slot already occupied")
  finish_hook_wait wait_unavailable slot =
      err (make_error runtime_unavailable "lifecycle: coroutine wait runtime unavailable")

  -- The answers of `WaitHooksSettledCo`
  abbrev pub settled_answer : WaitStatus → Result (Unit {0})
  settled_answer wait_completed = ok tt
  settled_answer wait_timed_out =
      err (make_error timed_out "lifecycle: prior hook still in flight at deadline")
  settled_answer wait_cancelled = err (make_error cancelled "lifecycle: hook-settle wait cancelled")
  settled_answer wait_invalid_context =
      err (make_error invalid_context "lifecycle: hook-settle wait requires a managed coroutine")
  settled_answer already_waiting = err (
      make_error overloaded
        "lifecycle: another coroutine is already waiting for this object’s hooks to settle")
  settled_answer wait_unavailable =
      err (make_error runtime_unavailable "lifecycle: coroutine wait runtime unavailable")

  module _ (outside : Outside) where
    -- `SetStateAndDispatch`
    unfoldable pub set_and_dispatch : String → ObjectState → Option ObjectError → CoApp → CoApp
    set_and_dispatch id s error c = elim (first_entry id c.registry.entries) [
      | none ↦ c
      | some _ ↦ in_registry (λ r. outside.observed id s (on_entry id (set_state s error) r)) c
    ]

    -- `WaitHooksSettledCo`
    unfoldable pub wait_hooks_settled : String → CoApp → CoApp × Result (Unit {0})
    wait_hooks_settled id c = elim (first_entry id c.registry.entries) [
      | none ↦ (c, ok tt)
      | some e ↦
          if e.hooks_in_flight == 0
          then (c, ok tt)
          else let (r, status) = outside.settling id c.registry in
            (record c { registry = r }, settled_answer status)
    ]

    -- The hook's task and the wait for it. A hook that is over has left `hooks_in_flight`; one that
    -- is not leaves it when it ends.
    unfoldable pub await_hook : Hook → String → String → CoApp → CoApp × Result (Unit {0})
    await_hook hook phase id c =
        let (r, status, end) = outside.awaited hook id c.registry in
        let result = finish_hook_wait status (run_hook_caught end) in
        let after = record c { registry = r } in
        let settled = in_registry (settle status id) after in
        elim result [
          | ok _ ↦ (note (succeeded hook id) settled, ok tt)
          | err e ↦ (record_fail id phase e settled, err e)
        ]

    -- `_RunServiceHookCo` and `_RunComponentHookCo`, which differ in the type of the hook.
    unfoldable pub run_hook_co : Hook → String → String → CoApp → CoApp × Result (Unit {0})
    run_hook_co hook phase id c =
        let (waited, settled) = wait_hooks_settled id c in
        elim settled [
          | err e ↦ (waited, err e)
          | ok _ ↦ elim (first_entry id waited.registry.entries) [
            | none ↦ (waited, ok tt)
            | some _ ↦
                let begun = in_registry (on_entry id hook_begins) waited in
                elim (outside.refuses hook id begun.registry) [
                  | some message ↦ (
                    in_registry (on_entry id hook_settles) begun,
                    err (make_error runtime_unavailable message),
                  )
                  | none ↦ await_hook hook phase id (note (hooked hook id) begun)
                ]
          ]
        ]

    -- `_RunServiceHook` and `_RunComponentHook`: the caller runs the hook.
    unfoldable pub run_hook : Hook → String → String → CoApp → CoApp × Result (Unit {0})
    run_hook hook phase id c = elim (first_entry id c.registry.entries) [
      | none ↦ (c, ok tt)
      | some _ ↦
          let (r, end) = outside.called hook id c.registry in
          let after = record (note (hooked hook id) c) { registry = r } in
          elim (run_hook_caught end) [
            | ok _ ↦ (note (succeeded hook id) after, ok tt)
            | err e ↦ (record_fail id phase e after, err e)
          ]
    ]

    -- The text of a hook without a result that threw.
    abbrev void_text : Option String → String
    void_text (some what) = "void hook threw: " ++ₛ what
    void_text none = "void hook threw (non-std)"

    -- `_RunServiceVoidHook` and `_RunComponentVoidHook`
    unfoldable pub run_void_hook : Hook → String → String → CoApp → CoApp
    run_void_hook hook phase id c = elim (first_entry id c.registry.entries) [
      | none ↦ c
      | some _ ↦
          let (r, end) = outside.called hook id c.registry in
          let after = record (note (hooked hook id) c) { registry = r } in
          elim end [
            | returned _ ↦ after
            | threw what ↦
                in_registry
                  (record_failure (failure id phase phase internal_error (void_text what))) after
          ]
    ]
