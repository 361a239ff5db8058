-- ===== src/Host/Lifecycle.antt =====
-- framework/src/host/HostLifecycle.cc: the fixed order of start and shutdown of a host. The network
-- host, the hooks and the request to shut down are the environment: `Env` holds their answers. The
-- actions on them are recorded in order. Time shows only in the answers of the two waits.
pub mod Safety
pub mod Order
pub mod Guarantees
use bbt_framework.Prelude.{
  ℕ, ◌≡◌, Bool, true, false, not, ◌&&◌, List, [], ◌∷◌, ◌++◌, Option, none, some, String, ◌++ₛ◌, ite,
  String_discrete, ◌==◌, if◌then◌else◌,
}
use bbt_framework.Infra.{
  Infra, Error, make_error, Result, ok, err, internal_error, timed_out, ErrorCode,
}

pub data Phase : Type 0 where
  idle starting running closing shutdown_incomplete closed failed : Phase

-- ShutdownState.hpp
pub data ShutdownState : Type 0 where
  is_running is_closing is_incomplete is_closed : ShutdownState

pub data DrainOutcome : Type 0 where
  drained interrupted undrained : DrainOutcome

-- A call of foreign code: its reply, or an exception with its text, if it is a `std::exception`.
pub data Call : Type 0 where
  returned : Result (Unit {0}) → Call
  threw : Option String → Call

pub data Action : Type 0 where
  scheduler_start scheduler_hook host_create host_start : Action
  stop_accepting wait_within_budget wait_on handlers_drained host_close release : Action

-- `none` for a hook that is not installed. `step_budget` is 0 where the source's is not positive.
-- `close_reason` and `close_reason_late` are what `CloseReason` says after each of the two waits.
pub record Env : Type 0 where
  pub has_host : Bool
  pub step_budget : ℕ
  pub scheduler_initialized : Bool
  pub scheduler_starts : Call
  pub on_scheduler_started : Option Call
  pub creates : Call
  pub starts : Call
  pub shutdown_requested : Bool
  pub first_wait : Result (Unit {0})
  pub close_reason : Bool
  pub late_wait : Result (Unit {0})
  pub close_reason_late : Bool
  pub on_handlers_drained : Option Call
  pub on_release : Option Call

pub record HostLifecycle : Type 0 where
  pub started : Bool
  pub host_created : Bool
  pub exceeded_budget : Bool
  pub phase : Phase
  pub state : ShutdownState
  pub incomplete : List String
  pub failures : List String
  pub actions : List Action

-- `Run` returns a code, waits for a request, or keeps its thread for ever.
pub data Outcome : Type 0 where
  exits : ℕ → Outcome
  waits : Outcome
  parks : Outcome

abbrev pub exit_ok : ℕ
exit_ok = 0

abbrev pub exit_rejected : ℕ
exit_rejected = 1

abbrev pub exit_start_failed : ℕ
exit_start_failed = 2

abbrev pub exit_shutdown_late : ℕ
exit_shutdown_late = 3

abbrev pub exit_shutdown_failed : ℕ
exit_shutdown_failed = 4

unfoldable pub init : HostLifecycle
init = record {
  started = false;
  host_created = false;
  exceeded_budget = false;
  phase = idle;
  state = is_running;
  incomplete = [];
  failures = [];
  actions = [];
}

-- The switch of `_SetPhase`.
abbrev pub state_of : Phase → ShutdownState
state_of closing = is_closing
state_of shutdown_incomplete = is_incomplete
state_of closed = is_closed
state_of failed = is_closed
state_of _ = is_running

abbrev pub set_phase : Phase → HostLifecycle → HostLifecycle
set_phase p l = record l { phase = p; state = state_of p }

abbrev pub add_failure : String → HostLifecycle → HostLifecycle
add_failure what l = record l { failures = l.failures ++ what ∷ [] }

abbrev pub act : Action → HostLifecycle → HostLifecycle
act a l = record l { actions = l.actions ++ a ∷ [] }

abbrev pub enter_incomplete : String → HostLifecycle → HostLifecycle
enter_incomplete name l =
    set_phase shutdown_incomplete (record l { incomplete = l.incomplete ++ name ∷ [] })

unfoldable pub remove_step : String → List String → List String
remove_step name [] = []
remove_step name (x ∷ xs) = ite (String_discrete x name) xs (x ∷ remove_step name xs)

abbrev pub leave_incomplete : String → HostLifecycle → HostLifecycle
leave_incomplete name l = record l { incomplete = remove_step name l.incomplete }

abbrev pub is_timed_out : ErrorCode → Bool
is_timed_out timed_out = true
is_timed_out _ = false

-- The text of a failed wait.
abbrev pub wait_failure : Error → String
wait_failure e = "WaitHandlersDone: " ++ₛ e.message

-- The second wait, without a limit of time.
unfoldable pub wait_late : Env → Bool → HostLifecycle → HostLifecycle × DrainOutcome
wait_late env was_timeout l =
    let waited = act wait_on l in
    let left = leave_incomplete "WaitHandlersDone" waited in
    let counted = if was_timeout then record left { exceeded_budget = true } else left in
    elim env.late_wait [
      | ok _ ↦ (counted, drained)
      | err e ↦
          if env.close_reason_late
          then (counted, interrupted)
          else (add_failure (wait_failure e) waited, undrained)
    ]

-- `_WaitHandlersDone`
unfoldable pub wait_handlers_done : Env → HostLifecycle → HostLifecycle × DrainOutcome
unfolding wait_late
wait_handlers_done env l =
    let waited = act wait_within_budget l in
    elim env.first_wait [
      | ok _ ↦ (waited, drained)
      | err e ↦
          let timeout = is_timed_out e.code in
          let noted = if timeout then waited else add_failure (wait_failure e) waited in
          if env.close_reason
          then (waited, interrupted)
          else wait_late env timeout (enter_incomplete "WaitHandlersDone" noted)
    ]

abbrev note_throw : String → String → Option String → HostLifecycle → HostLifecycle
note_throw named unnamed (some what) l = add_failure (named ++ₛ what) l
note_throw named unnamed none l = add_failure unnamed l

-- `_OnHandlersDrained`
unfoldable pub run_handlers_drained : Option Call → HostLifecycle → HostLifecycle
run_handlers_drained none l = l
run_handlers_drained (some (returned _)) l = act handlers_drained l
run_handlers_drained (some (threw what)) l =
    note_throw "on_handlers_drained: " "on_handlers_drained threw" what (act handlers_drained l)

unfoldable pub run_release : Option Call → HostLifecycle → HostLifecycle
run_release none l = l
run_release (some (returned _)) l = act release l
run_release (some (threw _)) l = add_failure "on_release hook threw" (act release l)

-- The return code of `_ShutDown`.
unfoldable pub shutdown_code : Bool → HostLifecycle → ℕ
shutdown_code was_interrupted l = elim l.failures [
  | [] ↦ if l.exceeded_budget then exit_shutdown_late else exit_ok
  | _ ∷ _ ↦
      if was_interrupted && l.exceeded_budget then exit_shutdown_late else exit_shutdown_failed
]

-- From the network close on; `was_interrupted` says that a close broke the wait.
unfoldable pub finish_close : Env → Bool → HostLifecycle → HostLifecycle × Outcome
unfolding run_release shutdown_code
finish_close env was_interrupted l =
    let done = run_release env.on_release (act host_close l) in
    (done, exits (shutdown_code was_interrupted done))

-- The switch of `_ShutDown` on the outcome of the wait; a wait that fails for good parks the thread.
unfoldable pub after_wait : Env → DrainOutcome → HostLifecycle → HostLifecycle × Outcome
unfolding finish_close run_handlers_drained
after_wait env undrained l = (l, parks)
after_wait env interrupted l =
    finish_close env true (add_failure "WaitHandlersDone: interrupted by host close" l)
after_wait env drained l = finish_close env false (run_handlers_drained env.on_handlers_drained l)

-- `_ShutDown`
unfoldable pub shut_down : Env → HostLifecycle → HostLifecycle × Outcome
unfolding wait_handlers_done after_wait run_release shutdown_code
shut_down env l =
    let closing_l = set_phase closing l in
    let (waited, outcome) = wait_handlers_done env (act stop_accepting closing_l) in
    let unopened = run_release env.on_release closing_l in
    if l.host_created
    then after_wait env outcome waited
    else (unopened, exits (shutdown_code false unopened))

-- `_StartUp` after the hook: the network host is created, then started.
unfoldable pub open_host : Env → HostLifecycle → HostLifecycle × Call
open_host env l =
    let created = act host_create l in
    elim env.creates [
      | returned (ok _) ↦ (act host_start (record created { host_created = true }), env.starts)
      | other ↦ (created, other)
    ]

unfoldable pub start_up : Env → HostLifecycle → HostLifecycle × Call
unfolding open_host
start_up env l = elim env.on_scheduler_started [
  | none ↦ open_host env l
  | some (returned (ok _)) ↦ open_host env (act scheduler_hook l)
  | some other ↦ (act scheduler_hook l, other)
]

-- The scheduler starts once for the process.
unfoldable pub start_all : Env → HostLifecycle → HostLifecycle × Call
unfolding start_up
start_all env l =
    let l' = act scheduler_start l in
    if env.scheduler_initialized
    then start_up env l
    else elim env.scheduler_starts [ returned _ ↦ start_up env l' | threw what ↦ (l', threw what) ]

module _ ⦃infra : Infra⦄ where
  -- The handlers of `Run` turn an exception into a failed start.
  abbrev pub startup_result : Call → Result (Unit {0})
  startup_result (returned r) = r
  startup_result (threw (some what)) = err (make_error internal_error ("startup threw: " ++ₛ what))
  startup_result (threw none) = err (make_error internal_error "startup threw (non-std::exception)")

  -- A failed start rolls back in the order of the shutdown; a park there is for ever too.
  unfoldable pub roll_back : Env → Error → HostLifecycle → HostLifecycle × Outcome
  roll_back env e l =
      let (down, outcome) = shut_down env (add_failure ("startup: " ++ₛ e.message) l) in
      elim outcome [
        | exits _ ↦ (set_phase failed down, exits exit_start_failed)
        | other ↦ (down, other)
      ]

  abbrev pub final_phase : ℕ → Phase
  final_phase code = if code == exit_shutdown_failed then failed else closed

  unfoldable pub serve : Env → HostLifecycle → HostLifecycle × Outcome
  serve env l =
      let (down, outcome) = shut_down env l in
      if env.shutdown_requested
      then elim outcome [
        | exits code ↦ (set_phase (final_phase code) down, exits code)
        | other ↦ (down, other)
      ]
      else (l, waits)

  -- `Run` after the start.
  unfoldable pub proceed : Env → Result (Unit {0}) → HostLifecycle → HostLifecycle × Outcome
  unfolding roll_back serve
  proceed env (ok _) l = serve env (set_phase running l)
  proceed env (err e) l = roll_back env e l

  -- `Run` from the phase `Starting` on.
  unfoldable pub begin : Env → HostLifecycle → HostLifecycle × Outcome
  unfolding start_all proceed
  begin env l =
      let (up, call) = start_all env (set_phase starting l) in proceed env (startup_result call) up

  -- `Run`
  unfoldable pub run : Env → HostLifecycle → HostLifecycle × Outcome
  unfolding begin
  run env l =
      let entered = record l { started = true } in
      if l.started
      then (l, exits exit_rejected)
      else if not env.has_host
      then (
        set_phase failed (add_failure "network host is not configured" entered),
        exits exit_rejected,
      )
      else if env.step_budget == 0
      then (set_phase failed (add_failure "step_budget must be > 0" entered), exits exit_rejected)
      else begin env entered
