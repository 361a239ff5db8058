-- ===== src/Tests/App.antt =====
-- The control plane of an application on concrete inputs.
use bbt_framework.Prelude.{
  ◌≡◌, ◌↔◌, true, false, none, refl, List, [], ◌∷◌, String, String_discrete, lookup,
}
use bbt_framework.Host.Registry.{
  RegistryEntry, Binding, Creation, component, app_scope, new_entry, ObjectKind_discrete,
}
use bbt_framework.Host.App.Cycle.{
  would_form_cycle, graph_of, bound_by, deps_in, member, visit, reaches, unwalked, Chain,
}
use bbt_framework.Tests.{test_infra}
use bbt_framework.Host.Registry.{Limits, new_registry, running}
use bbt_framework.Host.App.StartOrder.{walk, dfs, walk_all, component_start_order}
use bbt_framework.Host.App.StartOrder.Topology.{IsOrdered}
use bbt_framework.Host.App.Bind.{BindRequest}
use bbt_framework.Host.App.History.{Change, creates, binds, sets, run}
use bbt_framework.Host.App.History.Orderly.{start_order-IsOrdered}
use bbt_framework.Host.Registry.Views.{ids_of_kind}
use bbt_framework.Host.App.Edges.{components}
use bbt_framework.Host.App.Cycle.Search.{would_form_cycle_iff}

abbrev part : Creation
part = record {
  kind = component;
  type_name = "Part";
  name = "part";
  scope = app_scope;
  owner_id = "";
  object_type = 1;
  object = 10;
}

abbrev edge_of : String → Binding
edge_of subject = record {
  subject_id = subject;
  generation = 1;
  active = true;
  retiring = false;
  borrows = 0;
}

-- 2 depends on 1, and 1 on 0 and on itself through 3.
abbrev parts : List RegistryEntry
parts =
    record (new_entry part "component:0" 1) { bindings = edge_of "component:1" ∷ [] }
    ∷ record (new_entry part "component:1" 2) {
      bindings = edge_of "component:2" ∷ edge_of "component:3" ∷ [];
    }
    ∷ new_entry part "component:2" 3
    ∷ record (new_entry part "component:3" 4) { bindings = edge_of "component:1" ∷ [] }
    ∷ []

closes :
    (would_form_cycle parts "component:0" "component:2" ≡ true)
    × (would_form_cycle parts "component:2" "component:0" ≡ false)
unfolding would_form_cycle reaches visit member graph_of deps_in bound_by unwalked
    ObjectKind_discrete String_discrete lookup
closes = (refl, refl)

-- Without the way back from 1 to 3.
abbrev tree : List RegistryEntry
tree =
    new_entry part "component:2" 3
    ∷ record (new_entry part "component:1" 2) {
      bindings = edge_of "component:2" ∷ edge_of "component:3" ∷ [];
    }
    ∷ record (new_entry part "component:0" 1) { bindings = edge_of "component:1" ∷ [] }
    ∷ new_entry part "component:3" 4
    ∷ []

orders :
    ((component_start_order tree).order
      ≡ "component:0" ∷ "component:1" ∷ "component:2" ∷ "component:3" ∷ [])
    × ((component_start_order tree).cycle ≡ false)
    × ((component_start_order parts).cycle ≡ true)
unfolding component_start_order walk_all dfs walk member graph_of deps_in bound_by unwalked
    ObjectKind_discrete ids_of_kind String_discrete lookup
orders = (refl, refl, refl)

abbrev few : Limits
few = record { max_objects = 4; max_bindings = 4; max_observers = 4 }

abbrev on_store : BindRequest
on_store = record {
  component_type = 1;
  subject = record { id = "component:1"; generation = 2; is_ours = true };
  name = "store";
  placement = record { scope = app_scope; owner = none };
}

abbrev changes : List Change
changes =
    creates (record part { name = "store" })
    ∷ creates (record part { name = "cache"; object_type = 2 })
    ∷ sets "component:0" running none
    ∷ binds on_store ""
    ∷ []

start_order-IsOrdered_example :
    ((component_start_order (run (λ _ _. true) (new_registry few) changes).entries).cycle ≡ false)
    × IsOrdered
        (graph_of
          (run (λ _ _. true) (new_registry few) changes).entries
          (run (λ _ _. true) (new_registry few) changes).entries)
        []
        (component_start_order (run (λ _ _. true) (new_registry few) changes).entries).order
    × ((x : String)
        → (member x
              (component_start_order (run (λ _ _. true) (new_registry few) changes).entries).order
            ≡ true)
          ↔ (member x (components (run (λ _ _. true) (new_registry few) changes).entries) ≡ true))
start_order-IsOrdered_example = start_order-IsOrdered (λ _ _. true) few changes

would_form_cycle_iff_example :
    (would_form_cycle parts "component:0" "component:2" ≡ true)
    ↔ Chain (graph_of parts parts) "component:2" "component:0"
would_form_cycle_iff_example = would_form_cycle_iff parts "component:0" "component:2"
