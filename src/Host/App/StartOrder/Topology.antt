-- ===== src/Host/App/StartOrder/Topology.antt =====
-- `ComponentStartOrderLocked` (framework/src/host/Registry.cc): the order that a walk without a
-- cycle gives.
use bbt_framework.Prelude.{
  ℕ, zero, suc, ◌+◌, ◌≡◌, ◌≤◌, inl, inr, refl, subst, true, false, not, ◌||◌, List, [], ◌∷◌, ◌++◌,
  String, length, arith, Bool-cases,
}
use bbt_framework.Host.App.Cycle.{Graph, deps, member, unwalked}
use bbt_framework.Host.App.Cycle.Search.{
  Grows-head, member-head, member-tail, unwalked-Grows, unwalked-mark, Grows,
}
use bbt_framework.Host.App.Edges.{has_key, member-append}
use bbt_framework.Host.App.StartOrder.{Walk, finish, walk}

-- Every dependency is a component.
abbrev pub IsClosed : Graph → Type 0
IsClosed g = (x y : String) → member y (deps g x) ≡ true → has_key y g ≡ true

-- Each component of a list stands in it once, and behind all that it depends on.
abbrev pub IsOrdered : Graph → List String → List String → Type 0
IsOrdered g before [] = Unit
IsOrdered g before (x ∷ xs) =
    (member x before ≡ false)
    × ((d : String) → member d (deps g x) ≡ true → member d before ≡ true)
    × IsOrdered g (x ∷ before) xs

module _ (g : Graph) (x : String) where
  IsOrdered-snoc :
      (before xs : List String)
      → IsOrdered g before xs
      → member x before ≡ false
      → member x xs ≡ false
      → ((d : String) → member d (deps g x) ≡ true → (member d before || member d xs) ≡ true)
      → IsOrdered g before (xs ++ x ∷ [])
  unfolding member
  IsOrdered-snoc before [] h new apart behind = (new, λ d m. ground (arith, behind d m), tt)
  IsOrdered-snoc before (z ∷ xs) (fresh, head, tail) new apart behind = (
    fresh,
    head,
    IsOrdered-snoc (z ∷ before) xs tail (ground (arith, new, apart)) (ground (arith, apart))
        λ d m. ground (arith, behind d m),
  )

module _ (g : Graph) (fuel : ℕ) (stack : List String) (d : String) (ds : List String)
    (w : Walk) where
  walk-placed :
      member d w.order ≡ true → walk g (suc fuel) stack (d ∷ ds) w ≡ walk g fuel stack ds w
  unfolding walk
  walk-placed m = ground (arith, m)

  walk-met :
      member d w.order ≡ false
      → member d stack ≡ true
      → walk g (suc fuel) stack (d ∷ ds) w ≡ walk g fuel stack ds (record w { cycle = true })
  unfolding walk
  walk-met m s = ground (arith, m, s)

  walk-deeper :
      member d w.order ≡ false
      → member d stack ≡ false
      → has_key d g ≡ true
      → walk g (suc fuel) stack (d ∷ ds) w
        ≡ walk g fuel stack ds (finish d (walk g fuel (d ∷ stack) (deps g d) w))
  unfolding walk
  walk-deeper m s k = ground (arith, m, s, k)

module _ (g : Graph) where
  walk-cycle :
      (fuel : ℕ) (stack ds : List String) (w : Walk)
      → w.cycle ≡ true
      → (walk g fuel stack ds w).cycle ≡ true
  unfolding walk
  walk-cycle fuel stack [] w h = h
  walk-cycle zero stack (d ∷ ds) w h = h
  walk-cycle (suc fuel) stack (d ∷ ds) w h =
      let inner = walk-cycle fuel (d ∷ stack) (deps g d) w h in
      let rest = λ (v : Walk). walk-cycle fuel stack ds v in
      ground (
        arith,
        rest w h,
        rest (record w { cycle = true }) refl,
        rest (finish d (walk g fuel (d ∷ stack) (deps g d) w)) inner,
      )

  -- What a walk without a cycle leaves.
  pub record Walked (stack ds : List String) (w w' : Walk) : Type 0 where
    pub ordered : IsOrdered g [] w'.order
    pub grows : Grows w.order w'.order
    pub all : Grows ds w'.order
    pub apart :
        (x : String) → member x w'.order ≡ true → (member x w.order || not (member x stack)) ≡ true

  -- One dependency more.
  Walked-then :
      (stack ds : List String) (d : String) (w v w' : Walk)
      → Grows w.order v.order
      → member d v.order ≡ true
      → ((x : String) → member x v.order ≡ true → (member x w.order || not (member x stack)) ≡ true)
      → Walked stack ds v w'
      → Walked stack (d ∷ ds) w w'
  unfolding member
  Walked-then stack ds d w v w' more placed new rest = record {
    ordered = rest.ordered;
    grows = λ x m. rest.grows x (more x m);
    all = Grows-head d ds w'.order (rest.grows d placed) rest.all;
    apart = λ x m. ground (arith, rest.apart x m, new x);
  }

  abbrev pub Keyed : List String → Type 0
  Keyed ds = (d : String) → member d ds ≡ true → has_key d g ≡ true

  -- The step into a dependency and the way back from it.
  pub Walked-finish :
      (stack : List String) (d : String) (w v : Walk)
      → member d w.order ≡ false
      → member d stack ≡ false
      → Walked (d ∷ stack) (deps g d) w v
      → IsOrdered g [] (finish d v).order
        × Grows w.order (finish d v).order
        × (member d (finish d v).order ≡ true)
        × ((x : String)
            → member x (finish d v).order ≡ true
            → (member x w.order || not (member x stack)) ≡ true)
  unfolding member
  Walked-finish stack d w v m s done = (
    IsOrdered-snoc g d [] v.order done.ordered refl (ground (arith, done.apart d, m)) done.all,
    λ x old. ground (arith, member-append x v.order (d ∷ []), done.grows x old),
    ground (arith, member-append d v.order (d ∷ [])),
    λ x new. ground (arith, member-append x v.order (d ∷ []), done.apart x, new, s),
  )

  pub still-before :
      (fuel : ℕ) (stack ds : List String) (w : Walk)
      → (walk g fuel stack ds w).cycle ≡ false
      → w.cycle ≡ false
  still-before fuel stack ds w h = ground (arith, walk-cycle fuel stack ds w, h)

  pub unwalked-less :
      (stack : List String) (old more : List String)
      → Grows old more
      → unwalked (stack ++ more) g ≤ unwalked (stack ++ old) g
  unwalked-less stack old more h =
      unwalked-Grows g (stack ++ old) (stack ++ more)
        λ x m. ground (arith, m, member-append x stack old, member-append x stack more, h x)

  module _ (closed : IsClosed g) where
    pub walk-Walked :
        (fuel : ℕ) (stack ds : List String) (w : Walk)
        → length ds + unwalked (stack ++ w.order) g ≤ fuel
        → Keyed ds
        → IsOrdered g [] w.order
        → (walk g fuel stack ds w).cycle ≡ false
        → Walked stack ds w (walk g fuel stack ds w)
    unfolding walk member
    walk-Walked fuel stack [] w enough keys h still = record {
      ordered = h;
      grows = λ x m. m;
      all = λ x m. ground (arith, m);
      apart = λ x m. ground (arith, m);
    }
    walk-Walked zero stack (d ∷ ds) w enough keys h still = absurd (ground (arith, enough))
    walk-Walked (suc fuel) stack (d ∷ ds) w enough keys h still =
        let rest : Keyed ds = λ x m. keys x (member-tail d x ds m) in
        let inner = walk g fuel (d ∷ stack) (deps g d) w in
        let on = walk-Walked fuel stack ds in
        let under = walk-Walked fuel (d ∷ stack) (deps g d) w in
        elim (Bool-cases (member d w.order)) [
          | inl m ↦
              let same = walk-placed g fuel stack d ds w m in
              rw same (
                Walked-then stack ds d w w _ (λ x old. old) m (λ x old. ground (arith, old))
                  (on w (omega (arith, enough)) rest h (subst (λ v. v.cycle ≡ false) same still)))
          | inr m ↦ elim (Bool-cases (member d stack)) [
            | inl s ↦
                let same = walk-met g fuel stack d ds w m s in
                let flag = still-before fuel stack ds _ (subst (λ v. v.cycle ≡ false) same still) in
                absurd (ground (arith, flag))
            | inr s ↦
                let same = walk-deeper g fuel stack d ds w m s (keys d (member-head d ds)) in
                let onward = subst (λ v. v.cycle ≡ false) same still in
                let seen : member d (stack ++ w.order) ≡ false =
                  ground (arith, m, s, member-append d stack w.order) in
                let less = unwalked-mark g d (stack ++ w.order) seen in
                let done =
                  under (omega (arith, enough, less)) (closed d) h
                    (still-before fuel stack ds (finish d inner) onward) in
                let (ordered, grows, placed, apart) = Walked-finish stack d w inner m s done in
                let fewer = unwalked-less stack w.order (finish d inner).order grows in
                rw same (
                  Walked-then stack ds d w (finish d inner) _ grows placed apart
                    (on (finish d inner) (omega (arith, enough, fewer)) rest ordered onward))
          ]
        ]
