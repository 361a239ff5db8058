-- ===== src/Host/Lifecycle/Guarantees.antt =====
-- What a run of the host guarantees, for every environment (HostLifecycle.cc).
use bbt_framework.Prelude.{◌≡◌, false, arith}
use bbt_framework.Infra.{Infra}
use bbt_framework.Host.Lifecycle.{
  is_incomplete, handlers_drained, host_close, release, Env, parks, init, run,
}
use bbt_framework.Host.Lifecycle.Safety.{performed}
use bbt_framework.Host.Lifecycle.Order.{Within, Within-performed, run-Ends}

module _ ⦃infra : Infra⦄ where
  -- In every environment, the actions of a run of the host happen at most once each and in the fixed
  -- order: scheduler, its hook, creation and start of the network host, stop of accepting, the two
  -- waits, the drained hook, close of the network host, release of the owners.
  pub actions_in_order : (env : Env) → Within 0 10 (run env init).0.actions
  actions_in_order env = (run-Ends env).0

  -- If `Run` keeps its thread for ever, the shutdown state says incomplete, and the network host was
  -- neither closed nor released, nor were the business objects told that handlers had drained.
  pub parked_keeps_owners :
      (env : Env)
      → (run env init).1 ≡ parks
      → ((run env init).0.state ≡ is_incomplete)
        × (performed host_close (run env init).0.actions ≡ false)
        × (performed release (run env init).0.actions ≡ false)
        × (performed handlers_drained (run env init).0.actions ≡ false)
  parked_keeps_owners env h =
      let (incomplete, w) = (run-Ends env).1 h in
      (
        incomplete,
        Within-performed 0 7 host_close _ w (omega arith),
        Within-performed 0 7 release _ w (omega arith),
        Within-performed 0 7 handlers_drained _ w (omega arith),
      )
