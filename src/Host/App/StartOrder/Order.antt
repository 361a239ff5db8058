-- ===== src/Host/App/StartOrder/Order.antt =====
-- `ComponentStartOrderLocked` (framework/src/host/Registry.cc): what it answers for a registry.
use bbt_framework.Prelude.{
  ℕ, zero, suc, ◌+◌, ◌≡◌, ◌≤◌, ◌↔◌, inl, inr, refl, true, false, List, [], ◌∷◌, String, length,
  arith, Bool-cases,
}
use bbt_framework.Host.Registry.{RegistryEntry}
use bbt_framework.Host.App.Cycle.{Graph, graph_of, deps, member, unwalked}
use bbt_framework.Host.App.Cycle.Search.{
  Grows-head, member-head, member-tail, Grows, unwalked-Grows, unwalked-mark,
}
use bbt_framework.Host.App.Edges.{
  has_key, member-append, components, has_key-graph_of, member-deps, is_bound-components,
}
use bbt_framework.Host.App.StartOrder.{
  Walk, finish, walk, dfs, walk_all, no_walk, component_start_order,
}
use bbt_framework.Host.App.StartOrder.Topology.{
  IsClosed, IsOrdered, walk-Walked, Walked-finish, Keyed,
}
use bbt_framework.Host.App.StartOrder.Acyclic.{IsAcyclic, LeadsTo-deeper, walk-still}

-- What the loop keeps and reaches.
record Sorted (g : Graph) (ids : List String) (w w' : Walk) : Type 0 where
  still : w'.cycle ≡ false
  ordered : IsOrdered g [] w'.order
  grows : Grows w.order w'.order
  all : Grows ids w'.order

module _ (g : Graph) where
  Keyed-finish :
      (d : String) (w : Walk) → has_key d g ≡ true → Keyed g w.order → Keyed g (finish d w).order
  unfolding member
  Keyed-finish d w key keys x m = elim (Bool-cases (member x w.order)) [
    | inl old ↦ keys x old
    | inr new ↦ ground (arith, member-append x w.order (d ∷ []), new, key, m)
  ]

  -- Only components come into the order.
  walk-Keyed :
      (fuel : ℕ) (stack ds : List String) (w : Walk)
      → Keyed g w.order
      → Keyed g (walk g fuel stack ds w).order
  unfolding walk
  walk-Keyed fuel stack [] w keys = keys
  walk-Keyed zero stack (d ∷ ds) w keys = keys
  walk-Keyed (suc fuel) stack (d ∷ ds) w keys = elim (Bool-cases (has_key d g)) [
    | inl key ↦
        let inner = walk g fuel (d ∷ stack) (deps g d) w in
        let deeper = Keyed-finish d inner key (walk-Keyed fuel (d ∷ stack) (deps g d) w keys) in
        let on = walk-Keyed fuel stack ds in
        λ x. ground (
          arith,
          key,
          on w keys x,
          on (record w { cycle = true }) keys x,
          on (finish d inner) deeper x,
        )
    | inr alien ↦
        let on = walk-Keyed fuel stack ds in
        λ x. ground (arith, alien, on w keys x, on (record w { cycle = true }) keys x)
  ]

  walk_all-Keyed :
      (fuel : ℕ) (ids : List String) (w : Walk)
      → Keyed g ids
      → Keyed g w.order
      → Keyed g (walk_all g fuel ids w).order
  unfolding walk_all dfs
  walk_all-Keyed fuel [] w all keys = keys
  walk_all-Keyed fuel (id ∷ ids) w all keys =
      let rest : Keyed g ids = λ x m. all x (member-tail id x ids m) in
      let deeper =
        Keyed-finish id (walk g fuel (id ∷ []) (deps g id) w) (all id (member-head id ids))
          (walk-Keyed fuel (id ∷ []) (deps g id) w keys) in
      elim (Bool-cases (member id w.order)) [
        | inl m ↦ λ x. ground (arith, m, walk_all-Keyed fuel ids w rest keys x)
        | inr m ↦ λ x. ground (arith, m, walk_all-Keyed fuel ids (dfs g fuel id w) rest deeper x)
      ]

  Sorted-then :
      (id : String) (ids : List String) (w v w' : Walk)
      → Grows w.order v.order
      → member id v.order ≡ true
      → Sorted g ids v w'
      → Sorted g (id ∷ ids) w w'
  Sorted-then id ids w v w' more placed rest = record {
    still = rest.still;
    ordered = rest.ordered;
    grows = λ x m. rest.grows x (more x m);
    all = Grows-head id ids w'.order (rest.grows id placed) rest.all;
  }

module _ (g : Graph) (closed : IsClosed g) (acyclic : IsAcyclic g) where
  dfs-Sorted :
      (fuel : ℕ) (id : String) (w : Walk)
      → unwalked [] g ≤ fuel
      → member id w.order ≡ false
      → w.cycle ≡ false
      → IsOrdered g [] w.order
      → Sorted g (id ∷ []) w (dfs g fuel id w)
  unfolding dfs member
  dfs-Sorted fuel id w enough m still h =
      let inner = walk g fuel (id ∷ []) (deps g id) w in
      let less = unwalked-mark g id w.order m in
      let most = unwalked-Grows g [] w.order (λ x n. ground (arith, n)) in
      let leads = LeadsTo-deeper g acyclic [] [] id (λ x n. ground (arith, n)) in
      let quiet = walk-still g acyclic fuel (id ∷ []) (deps g id) w leads still in
      let enough' : length (deps g id) + unwalked (id ∷ w.order) g ≤ fuel =
        omega (arith, enough, less, most) in
      let done = walk-Walked g closed fuel (id ∷ []) (deps g id) w enough' (closed id) h quiet in
      let (ordered, grows, placed, apart) = Walked-finish g [] id w inner m refl done in
      record {
        still = quiet;
        ordered = ordered;
        grows = grows;
        all = Grows-head id [] (finish id inner).order placed (λ x n. ground (arith, n));
      }

  walk_all-placed :
      (fuel : ℕ) (id : String) (ids : List String) (w : Walk)
      → member id w.order ≡ true
      → walk_all g fuel (id ∷ ids) w ≡ walk_all g fuel ids w
  unfolding walk_all
  walk_all-placed fuel id ids w m = ground (arith, m)

  walk_all-new :
      (fuel : ℕ) (id : String) (ids : List String) (w : Walk)
      → member id w.order ≡ false
      → walk_all g fuel (id ∷ ids) w ≡ walk_all g fuel ids (dfs g fuel id w)
  unfolding walk_all
  walk_all-new fuel id ids w m = ground (arith, m)

  walk_all-Sorted :
      (fuel : ℕ) (ids : List String) (w : Walk)
      → unwalked [] g ≤ fuel
      → w.cycle ≡ false
      → IsOrdered g [] w.order
      → Sorted g ids w (walk_all g fuel ids w)
  unfolding walk_all member
  walk_all-Sorted fuel [] w enough still h = record {
    still = still;
    ordered = h;
    grows = λ x m. m;
    all = λ x m. ground (arith, m);
  }
  walk_all-Sorted fuel (id ∷ ids) w enough still h = elim (Bool-cases (member id w.order)) [
    | inl m ↦
        rw (walk_all-placed fuel id ids w m)
          (Sorted-then g id ids w w _ (λ x old. old) m (walk_all-Sorted fuel ids w enough still h))
    | inr m ↦
        let one = dfs-Sorted fuel id w enough m still h in
        let rest = walk_all-Sorted fuel ids (dfs g fuel id w) enough one.still one.ordered in
        rw (walk_all-new fuel id ids w m) (
          Sorted-then g id ids w (dfs g fuel id w) _ one.grows (one.all id (member-head id []))
            rest)
  ]

-- The graph that the entries give has all its dependencies among the components.
graph_of-IsClosed : (es : List RegistryEntry) → IsClosed (graph_of es es)
graph_of-IsClosed es x y m =
    ground (arith, has_key-graph_of y es es, member-deps x y es, m, is_bound-components x y es)

-- Where no component depends on itself by any number of steps, `ComponentStartOrderLocked` reports no
-- cycle, its order has exactly the components, each of them once, and each stands behind all
-- components that it depends on.
pub component_start_order-IsOrdered :
    (entries : List RegistryEntry)
    → IsAcyclic (graph_of entries entries)
    → ((component_start_order entries).cycle ≡ false)
      × IsOrdered (graph_of entries entries) [] (component_start_order entries).order
      × ((x : String)
          → (member x (component_start_order entries).order ≡ true)
            ↔ (member x (components entries) ≡ true))
unfolding component_start_order member
component_start_order-IsOrdered entries acyclic =
    let g = graph_of entries entries in
    let done =
      walk_all-Sorted g (graph_of-IsClosed entries) acyclic (unwalked [] g) (components entries)
        no_walk (omega arith) refl tt in
    let keys =
      walk_all-Keyed g (unwalked [] g) (components entries) no_walk
        (λ x m. ground (arith, has_key-graph_of x entries entries, m)) (λ x m. ground (arith, m)) in
    (
      done.still,
      done.ordered,
      λ x. (λ m. ground (arith, keys x m, has_key-graph_of x entries entries), done.all x),
    )
