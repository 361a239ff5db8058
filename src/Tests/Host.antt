-- ===== src/Tests/Host.antt =====
-- The host's components on concrete inputs.
use bbt_framework.Tests.{test_infra}
use bbt_framework.Prelude.{◌≡◌, refl, true, false, none, some}
use bbt_framework.Infra.{ok, err}
use bbt_framework.Host.Lifecycle.{
  Env, returned, is_incomplete, host_close, release, handlers_drained, init, run, begin, start_all,
  start_up, open_host, proceed, serve, shut_down, wait_handlers_done, wait_late, after_wait,
}
use bbt_framework.Host.Lifecycle.Safety.{performed}
use bbt_framework.Host.Lifecycle.Order.{Within}
use bbt_framework.Host.Lifecycle.Guarantees.{actions_in_order, parked_keeps_owners}

-- A host whose two waits both fail after a request to shut down.
abbrev stuck : Env
stuck = record {
  has_host = true;
  step_budget = 10;
  scheduler_initialized = true;
  scheduler_starts = returned (ok tt);
  on_scheduler_started = none;
  creates = returned (ok tt);
  starts = returned (ok tt);
  shutdown_requested = true;
  first_wait = err (test_infra.blank_error);
  close_reason = false;
  late_wait = err (test_infra.blank_error);
  close_reason_late = false;
  on_handlers_drained = some (returned (ok tt));
  on_release = some (returned (ok tt));
}

actions_in_order_example : Within 0 10 (run stuck init).0.actions
actions_in_order_example = actions_in_order stuck

parked_keeps_owners_example :
    ((run stuck init).0.state ≡ is_incomplete)
    × (performed host_close (run stuck init).0.actions ≡ false)
    × (performed release (run stuck init).0.actions ≡ false)
    × (performed handlers_drained (run stuck init).0.actions ≡ false)
unfolding run init begin start_all start_up open_host proceed serve shut_down wait_handlers_done
    wait_late after_wait
parked_keeps_owners_example = parked_keeps_owners stuck refl
