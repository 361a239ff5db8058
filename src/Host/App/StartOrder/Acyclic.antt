-- ===== src/Host/App/StartOrder/Acyclic.antt =====
-- `ComponentStartOrderLocked` (framework/src/host/Registry.cc) on dependencies without a cycle.
use bbt_framework.Prelude.{
  ℕ, zero, suc, ◌≡◌, inl, inr, subst, true, false, List, [], ◌∷◌, String, arith, Bool-cases,
}
use bbt_framework.Host.App.Cycle.{Graph, deps, member, Chain, here, through}
use bbt_framework.Host.App.Cycle.Search.{member-head, member-tail, member-split, Chain-then}
use bbt_framework.Host.App.StartOrder.{Walk, finish, walk}

-- No component depends on itself, by however many steps.
abbrev pub IsAcyclic : Graph → Type 0
IsAcyclic g = (x y : String) → member y (deps g x) ≡ true → ¬ Chain g y x

module _ (g : Graph) (acyclic : IsAcyclic g) where
  -- Everything on the stack leads, by at least one step, to each of the dependencies.
  abbrev pub LeadsTo : List String → List String → Type 0
  LeadsTo stack ds =
      (x : String)
      → member x stack ≡ true
      → (d : String) → member d ds ≡ true
      → (y : String) × (member y (deps g x) ≡ true) × Chain g y d

  pub LeadsTo-deeper :
      (stack ds : List String) (d : String)
      → LeadsTo stack (d ∷ ds)
      → LeadsTo (d ∷ stack) (deps g d)
  LeadsTo-deeper stack ds d leads x m e edge = elim (member-split d x stack m) [
    | inl same ↦
        subst (λ z. (y : String) × (member y (deps g z) ≡ true) × Chain g y e) same (e, edge, here)
    | inr below ↦
        let (y, first, c) = leads x below d (member-head d ds) in
        (y, first, Chain-then c (through edge here))
  ]

  pub walk-still :
      (fuel : ℕ) (stack ds : List String) (w : Walk)
      → LeadsTo stack ds
      → w.cycle ≡ false
      → (walk g fuel stack ds w).cycle ≡ false
  unfolding walk
  walk-still fuel stack [] w leads h = h
  walk-still zero stack (d ∷ ds) w leads h = h
  walk-still (suc fuel) stack (d ∷ ds) w leads h =
      let fewer : LeadsTo stack ds = λ x m e edge. leads x m e (member-tail d e ds edge) in
      let inner = walk-still fuel (d ∷ stack) (deps g d) w (LeadsTo-deeper stack ds d leads) h in
      let rest = λ (v : Walk). walk-still fuel stack ds v fewer in
      elim (Bool-cases (member d stack)) [
        | inl s ↦ let (y, edge, c) = leads d s d (member-head d ds) in absurd (acyclic d y edge c)
        | inr s ↦
            ground
              (arith, s, rest w h, rest (finish d (walk g fuel (d ∷ stack) (deps g d) w)) inner)
      ]
