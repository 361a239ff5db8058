-- ===== src/Host/App/Cycle.antt =====
-- framework/src/host/App.cc, `_WouldFormCycleLocked`: whether a binding would close a cycle of
-- components. The search walks the dependencies from the target; a component that is marked is not
-- walked again.
pub mod Search
use bbt_framework.Prelude.{
  ℕ, zero, suc, ◌+◌, ◌≡◌, ◌≢◌, ◌≤◌, ◌↔◌, ◌⊎◌, inl, inr, refl, sym, subst, Bool, true, false, ◌||◌,
  List, [], ◌∷◌, ◌++◌, Option, none, some, String, String_discrete, Dict, lookup, length,
  if◌then◌else◌, arith, Bool-cases,
}
use bbt_framework.Ordered.Types.{◌==ₛ◌}
use bbt_framework.Host.Registry.{RegistryEntry, Binding, ObjectKind, component, same_kind}

unfoldable pub member : String → List String → Bool
member x [] = false
member x (y ∷ ys) = y ==ₛ x || member x ys

-- The components that have a binding of this subject, one for each binding.
unfoldable pub bound_by : String → String → List Binding → List String
bound_by x id [] = []
bound_by x id (b ∷ bs) =
    let rest = bound_by x id bs in if b.subject_id ==ₛ x then id ∷ rest else rest

unfoldable pub deps_in : String → List RegistryEntry → List String
unfolding bound_by
deps_in x [] = []
deps_in x (e ∷ es) =
    let rest = deps_in x es in
    if same_kind e.kind component then bound_by x e.id e.bindings ++ rest else rest

-- The map `deps`: each component with what it depends on.
abbrev pub Graph : Type 0
Graph = Dict String (List String)

unfoldable pub graph_of : List RegistryEntry → List RegistryEntry → Graph
unfolding deps_in
graph_of all [] = []
graph_of all (e ∷ es) =
    let rest = graph_of all es in
    if same_kind e.kind component then (e.id, deps_in e.id all) ∷ rest else rest

-- `deps[id]`
abbrev pub or_none : Option (List String) → List String
or_none none = []
or_none (some ds) = ds

abbrev pub deps : Graph → String → List String
deps g x = or_none (lookup String_discrete x g)

module _ (g : Graph) (subject : String) where
  -- The loop of `reach` over some dependencies, on fuel: whether the subject was found, and the marks.
  unfoldable pub visit : ℕ → List String → List String → Bool × List String
  unfolding member
  visit fuel [] marks = (false, marks)
  visit zero (d ∷ ds) marks = (false, marks)
  visit (suc fuel) (d ∷ ds) marks = elim (member d marks) [
    | true ↦ visit fuel ds marks
    | false ↦ elim (d ==ₛ subject) [
      | true ↦ (true, marks)
      | false ↦
          let (found, walked) = visit fuel (deps g d) (d ∷ marks) in
          elim found [ true ↦ (true, walked) | false ↦ visit fuel ds walked ]
    ]
  ]

-- The edges of a graph that lead out of components without a mark.
unfoldable pub unwalked : List String → Graph → ℕ
unfolding member
unwalked marks [] = 0
unwalked marks ((k, ds) ∷ g) = (if member k marks then 0 else length ds) + unwalked marks g

unfoldable pub reaches : Graph → String → String → Bool
unfolding visit unwalked
reaches g subject target = (visit g subject (suc (unwalked [] g)) (target ∷ []) []).0

unfoldable pub would_form_cycle : List RegistryEntry → String → String → Bool
unfolding reaches graph_of
would_form_cycle entries subject target =
    if subject ==ₛ target then true else reaches (graph_of entries entries) subject target

-- A chain of dependencies.
pub data Chain (g : Graph) : String → String → Type 0 where
  here : {x : String} → Chain g x x
  through : {x y z : String} → member y (deps g x) ≡ true → Chain g y z → Chain g x z
