-- ===== src/Host/Lifecycle/Safety.antt =====
-- The order that HostLifecycle.cc fixes for its actions, as a rank.
use bbt_framework.Prelude.{ℕ, Bool, false, ◌||◌, List, [], ◌∷◌, ◌==◌}
use bbt_framework.Host.Lifecycle.{
  Action, scheduler_start, scheduler_hook, host_create, host_start, stop_accepting,
  wait_within_budget, wait_on, handlers_drained, host_close, release,
}

-- The place of an action in the fixed order.
abbrev pub rank : Action → ℕ
rank scheduler_start = 1
rank scheduler_hook = 2
rank host_create = 3
rank host_start = 4
rank stop_accepting = 5
rank wait_within_budget = 6
rank wait_on = 7
rank handlers_drained = 8
rank host_close = 9
rank release = 10

abbrev pub performed : Action → List Action → Bool
performed a [] = false
performed a (b ∷ bs) = rank a == rank b || performed a bs
