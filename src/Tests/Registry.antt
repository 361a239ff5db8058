-- ===== src/Tests/Registry.antt =====
-- The registry of managed objects on concrete inputs.
use bbt_framework.Tests.{test_infra}
use bbt_framework.Prelude.{
  ℕ, ◌≡◌, ◌↔◌, true, false, List, [], ◌∷◌, none, some, String, length, arith,
}
use bbt_framework.Host.Registry.{
  Creation, Binding, component, service, app_scope, running, new_entry, new_registry, find_entry,
  first_entry, set_state,
}
use bbt_framework.Host.Registry.Index.{creates, destroys, updates, find_entry_scans}
use bbt_framework.Host.Registry.Index
use bbt_framework.Host.Registry.Borrow.{find_edge, borrows_drained, binding_drained}
use bbt_framework.Host.Registry.Counts.{count}
use bbt_framework.Host.Registry.Drained.{
  binds, unbinds, borrows, returns, changes, lending, drained_means_returned,
}
use bbt_framework.Host.Registry.Drained

abbrev store : Creation
store = record {
  kind = component;
  type_name = "Store";
  name = "store";
  scope = app_scope;
  owner_id = "";
  object_type = 1;
  object = 10;
}

abbrev door : Creation
door = record store { kind = service; type_name = "Door"; name = "door"; object = 11 }

abbrev history : List Index.Call
history =
    creates store
    ∷ creates door
    ∷ updates 0 (set_state running none)
    ∷ destroys "component:0"
    ∷ creates store
    ∷ []

find_entry_scans_example :
    find_entry "service:1" (
      Index.run
        (new_registry (record { max_objects = 2; max_bindings = 4; max_observers = 4 }))
        history)
    ≡ first_entry "service:1"
        (Index.run
          (new_registry (record { max_objects = 2; max_bindings = 4; max_observers = 4 }))
          history).entries
find_entry_scans_example =
    find_entry_scans (record { max_objects = 2; max_bindings = 4; max_observers = 4 }) history
      "service:1"

abbrev uses : List Drained.Call
uses =
    changes (set_state running none)
    ∷ binds 0 4 (new_entry door "service:1" 2) "service:1"
    ∷ borrows false (λ _. false) 1 3
    ∷ borrows false (λ _. false) 1 3
    ∷ unbinds "service:1"
    ∷ returns "service:1" 3
    ∷ []

drained_means_returned_example :
    ((borrows_drained (Drained.run (lending (new_entry store "component:0" 1) 3) uses).entry ≡ true)
      ↔ (length (Drained.run (lending (new_entry store "component:0" 1) 3) uses).leases ≡ 0))
    × ((o : String) (g : ℕ) (b : Binding)
        → find_edge o g
            (Drained.run (lending (new_entry store "component:0" 1) 3) uses).entry.bindings
          ≡ some b
        → (binding_drained o g
              (Drained.run (lending (new_entry store "component:0" 1) 3) uses).entry
            ≡ true)
          ↔ (count o g (Drained.run (lending (new_entry store "component:0" 1) 3) uses).leases ≡ 0))
drained_means_returned_example = drained_means_returned store "component:0" 1 3 uses (omega arith)
