-- ===== src/Host/App/StartOrder.antt =====
-- framework/src/host/Registry.cc, `ComponentStartOrderLocked`: the components in the order of their
-- start, which a depth-first walk of the dependencies finds. A component is marked 1 while it is on
-- the stack of the walk and 2 when it stands in the order.
pub mod Topology
pub mod Acyclic
pub mod Order
use bbt_framework.Prelude.{
  ℕ, zero, suc, ◌+◌, Bool, true, false, List, [], ◌∷◌, ◌++◌, Option, none, some, String,
  String_discrete, lookup, length,
}
use bbt_framework.Host.Registry.{RegistryEntry, component}
use bbt_framework.Host.Registry.Views.{ids_of_kind}
use bbt_framework.Host.App.Cycle.{Graph, graph_of, deps, or_none, member, unwalked}

pub record Walk : Type 0 where
  pub order : List String
  pub cycle : Bool

-- The end of `dfs`: the mark 2 and the place in the order.
abbrev pub finish : String → Walk → Walk
finish id w = record w { order = w.order ++ id ∷ [] }

module _ (g : Graph) where
  -- The loop of `dfs` over some dependencies, on fuel; `stack` has the components with the mark 1.
  unfoldable pub walk : ℕ → List String → List String → Walk → Walk
  unfolding member
  walk fuel stack [] w = w
  walk zero stack (d ∷ ds) w = w
  walk (suc fuel) stack (d ∷ ds) w = elim (member d w.order) [
    | true ↦ walk fuel stack ds w
    | false ↦ elim (member d stack) [
      | true ↦ walk fuel stack ds (record w { cycle = true })
      | false ↦ elim (lookup String_discrete d g) [
        | none ↦ walk fuel stack ds w
        | some next ↦ walk fuel stack ds (finish d (walk fuel (d ∷ stack) next w))
      ]
    ]
  ]

  -- `dfs`, from a component without a mark when no other is on the stack.
  unfoldable pub dfs : ℕ → String → Walk → Walk
  unfolding walk
  dfs fuel id w = finish id (walk fuel (id ∷ []) (deps g id) w)

  -- The loop over the components.
  unfoldable pub walk_all : ℕ → List String → Walk → Walk
  unfolding dfs
  walk_all fuel [] w = w
  walk_all fuel (id ∷ ids) w = elim (member id w.order) [
    | true ↦ walk_all fuel ids w
    | false ↦ walk_all fuel ids (dfs fuel id w)
  ]

abbrev pub no_walk : Walk
no_walk = record { order = []; cycle = false }

-- The fuel is the number of all edges.
unfoldable pub component_start_order : List RegistryEntry → Walk
unfolding walk_all graph_of unwalked
component_start_order entries =
    let g = graph_of entries entries in
    walk_all g (unwalked [] g) (ids_of_kind component entries) no_walk
