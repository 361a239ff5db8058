-- ===== src/Host/App/History/Chains.antt =====
-- Chains of dependencies when the dependencies change.
use bbt_framework.Prelude.{◌≡◌, ◌≢◌, ◌⊎◌, inl, inr, sym, subst, true, String}
use bbt_framework.Host.App.Cycle.{Graph, deps, member, Chain, here, through}
use bbt_framework.Host.App.Cycle.Search.{Chain-then}
use bbt_framework.Host.App.StartOrder.Acyclic.{IsAcyclic}

module _ (old new : Graph) where
  -- Every dependency was one before.
  abbrev pub IsLess : Type 0
  IsLess = (x y : String) → member y (deps new x) ≡ true → member y (deps old x) ≡ true

  Chain-IsLess : {x y : String} → IsLess → Chain new x y → Chain old x y
  Chain-IsLess less here = here
  Chain-IsLess less (through edge c) = through (less _ _ edge) (Chain-IsLess less c)

  pub IsAcyclic-IsLess : IsLess → IsAcyclic old → IsAcyclic new
  IsAcyclic-IsLess less acyclic x y edge c = acyclic x y (less x y edge) (Chain-IsLess less c)

  -- Every dependency was one before, or is the one of `s` on `t`.
  abbrev pub IsMore : String → String → Type 0
  IsMore s t =
      (x y : String)
      → member y (deps new x) ≡ true
      → (member y (deps old x) ≡ true) ⊎ ((x ≡ s) × (y ≡ t))

  module _ (s t : String) (more : IsMore s t) (open_ended : ¬ Chain old t s) where
    Chain-IsMore :
        {x y : String} → Chain new x y → (Chain old x y) ⊎ (Chain old x s × Chain old t y)
    Chain-IsMore here = inl here
    Chain-IsMore (through {x} {y} {z} edge c) = elim (more x y edge) [
      | inl before ↦ elim (Chain-IsMore c) [
        | inl rest ↦ inl (through before rest)
        | inr (to_s, from_t) ↦ inr (through before to_s, from_t)
      ]
      | inr (at_s, at_t) ↦ elim (Chain-IsMore c) [
        | inl rest ↦
            inr (subst (λ a. Chain old a s) (sym at_s) here, subst (λ a. Chain old a z) at_t rest)
        | inr (to_s, _) ↦ absurd (open_ended (subst (λ a. Chain old a s) at_t to_s))
      ]
    ]

    pub IsAcyclic-IsMore : IsAcyclic old → IsAcyclic new
    IsAcyclic-IsMore acyclic x y edge c = elim (more x y edge) [
      | inl before ↦ elim (Chain-IsMore c) [
        | inl back ↦ acyclic x y before back
        | inr (to_s, from_t) ↦ open_ended (Chain-then from_t (through before to_s))
      ]
      | inr (at_s, at_t) ↦ elim (Chain-IsMore c) [
        | inl back ↦
            open_ended (subst (λ a. Chain old a s) at_t (subst (λ a. Chain old y a) at_s back))
        | inr (to_s, _) ↦ open_ended (subst (λ a. Chain old a s) at_t to_s)
      ]
    ]

  -- Every dependency was one before, or is one of a component that nothing depends on.
  module _ (n : String)
      (fresh : (x y : String)
        → member y (deps new x) ≡ true
        → (y ≢ n) × ((member y (deps old x) ≡ true) ⊎ (x ≡ n))) where
    Chain-fresh : {x y : String} → x ≢ n → Chain new x y → (y ≢ n) × Chain old x y
    Chain-fresh apart here = (apart, here)
    Chain-fresh apart (through edge c) =
        let (y_apart, was) = fresh _ _ edge in
        let (z_apart, rest) = Chain-fresh y_apart c in
        elim was [ inl before ↦ (z_apart, through before rest) | inr at_n ↦ absurd (apart at_n) ]

    pub IsAcyclic-fresh : IsAcyclic old → IsAcyclic new
    IsAcyclic-fresh acyclic x y edge c =
        let (y_apart, was) = fresh x y edge in
        let (x_apart, back) = Chain-fresh y_apart c in
        elim was [ inl before ↦ acyclic x y before back | inr at_n ↦ x_apart at_n ]
