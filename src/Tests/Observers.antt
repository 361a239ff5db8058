-- ===== src/Tests/Observers.antt =====
-- The observers of the registry on concrete inputs.
use bbt_framework.Tests.{test_infra}
use bbt_framework.Prelude.{
  ◌≡◌, refl, true, false, List, [], ◌∷◌, arith, lookup, insert, emplace, erase, String_discrete,
  ℕ_discrete,
}
use bbt_framework.Host.Registry.{Registry, Creation, component, app_scope, new_entry, find_entry}
use bbt_framework.Host.Registry.Views.{handle_valid}
use bbt_framework.Host.Registry.Observers.{
  Handle, ObserverRecord, observe, count_active, is_current, begin_callback, end_callback,
  mark_revoked, is_quiet, observer_active, erase_observer, drop_inactive,
}
use bbt_framework.Host.Registry.Revoked.{
  Event, observes, begins, ends, marks, waits, erases, no_observers, run, step, times, remove_one,
  revoked_silent, Spared, drops, clears,
}

abbrev store : Creation
store = record {
  kind = component;
  type_name = "Store";
  name = "store";
  scope = app_scope;
  owner_id = "";
  object_type = 1;
  object = 10;
}

abbrev stores : Registry
stores = record {
  limits = record { max_objects = 2; max_bindings = 4; max_observers = 4 };
  entries = new_entry store "component:0" 1 ∷ [];
  index = ("component:0", 0) ∷ [];
  next_generation = 2;
  next_id_seq = 1;
  failures = [];
  failures_dropped = 0;
}

abbrev handle : Handle
handle = record { id = "component:0"; generation = 1; is_ours = true }

abbrev revoked : List Event
revoked = observes true handle handle stores ∷ begins 1 ∷ marks 1 ∷ begins 1 ∷ ends 1 ∷ waits 1 ∷ []

waited_once : times 1 (run (no_observers 4) revoked).waited ≡ 1
unfolding run step no_observers times remove_one observe count_active is_current find_entry
    begin_callback end_callback mark_revoked is_quiet observer_active lookup insert emplace
    ℕ_discrete String_discrete
waited_once = refl

cleared_quiet :
    Spared 1 (run (no_observers 4) revoked) (begins 1 ∷ drops 1 ∷ clears 1 ∷ erases 1 ∷ [])
unfolding Spared run step no_observers times remove_one observe count_active is_current find_entry
    begin_callback end_callback mark_revoked is_quiet observer_active erase_observer lookup insert
    emplace erase ℕ_discrete String_discrete
cleared_quiet = (tt, (tt, (λ _. refl, (tt, tt))))

revoked_silent_example :
    times 1
      (run (run (no_observers 4) revoked) (begins 1 ∷ drops 1 ∷ clears 1 ∷ erases 1 ∷ [])).running
    ≡ 0
unfolding Spared
revoked_silent_example =
    revoked_silent 4 1 revoked (begins 1 ∷ drops 1 ∷ clears 1 ∷ erases 1 ∷ []) (omega arith)
      (tt, (tt, (tt, (tt, (tt, (tt, tt)))))) cleared_quiet (omega (arith, waited_once))

abbrev called : ObserverRecord
called = record {
  observer_id = "component:0";
  observer_generation = 1;
  target_id = "component:0";
  target_generation = 1;
  active = false;
  in_flight = 1;
}

-- The last pass of `DrainInactiveObservers` also erases a record whose callback runs, if another
-- revocation marked it after the wait.
drop_inactive_running : drop_inactive ((1, called) ∷ []) ≡ []
unfolding drop_inactive
drop_inactive_running = refl

store_valid : handle_valid handle stores ≡ true
unfolding handle_valid find_entry lookup String_discrete
store_valid = ground arith
