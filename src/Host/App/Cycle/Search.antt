-- ===== src/Host/App/Cycle/Search.antt =====
-- The search of `_WouldFormCycleLocked` (framework/src/host/App.cc): what it finds and what it leaves.
use bbt_framework.Prelude.{
  ℕ, zero, suc, ◌+◌, ◌≡◌, ◌≢◌, ◌≤◌, ◌↔◌, ◌⊎◌, inl, inr, refl, sym, subst, Bool, true, false, List,
  [], ◌∷◌, String, String_discrete, lookup, length, arith, Bool-cases,
}
use bbt_framework.Host.Registry.{RegistryEntry}
use bbt_framework.Host.App.Cycle.{
  member, Graph, deps, graph_of, visit, unwalked, reaches, would_form_cycle, Chain, here, through,
}

-- Nothing that was marked loses its mark.
abbrev pub Grows : List String → List String → Type 0
Grows marks more = (x : String) → member x marks ≡ true → member x more ≡ true

pub unwalked-Grows :
    (g : Graph) (marks more : List String) → Grows marks more → unwalked more g ≤ unwalked marks g
unfolding unwalked
unwalked-Grows [] marks more h = omega arith
unwalked-Grows ((k, ds) ∷ g) marks more h = ground (arith, unwalked-Grows g marks more h, h k)

mark-Grows : (d : String) (marks : List String) → Grows marks (d ∷ marks)
unfolding member
mark-Grows d marks x h = ground (arith, h)

-- A mark takes the edges of its component away.
pub unwalked-mark :
    (g : Graph) (d : String) (marks : List String)
    → member d marks ≡ false
    → length (deps g d) + unwalked (d ∷ marks) g ≤ unwalked marks g
unfolding unwalked member lookup
unwalked-mark [] d marks h = omega arith
unwalked-mark ((k, ds) ∷ g) d marks h = elim (String_discrete k d) [
  | yes same ↦ ground (arith, unwalked-Grows g marks (d ∷ marks) (mark-Grows d marks), h, same)
  | no other ↦ ground (arith, unwalked-mark g d marks h, other)
]

-- A step along a chain, at its end.
pub Chain-then : {g : Graph} {x y z : String} → Chain g x y → Chain g y z → Chain g x z
Chain-then here rest = rest
Chain-then (through edge c) rest = through edge (Chain-then c rest)

module _ (g : Graph) (subject d : String) (fuel : ℕ) (ds marks : List String) where
  abbrev walk : Bool × List String
  walk = visit g subject fuel (deps g d) (d ∷ marks)

  visit-marked :
      member d marks ≡ true
      → visit g subject (suc fuel) (d ∷ ds) marks ≡ visit g subject fuel ds marks
  unfolding visit
  visit-marked m = ground (arith, m)

  visit-walked :
      member d marks ≡ false
      → d ≢ subject
      → walk.0 ≡ false
      → visit g subject (suc fuel) (d ∷ ds) marks ≡ visit g subject fuel ds walk.1
  unfolding visit
  visit-walked m other f = ground (arith, m, other, f)

  visit-found :
      member d marks ≡ false → walk.0 ≡ true → (visit g subject (suc fuel) (d ∷ ds) marks).0 ≡ true
  unfolding visit
  visit-found m f = ground (arith, m, f)

  visit-subject :
      member d marks ≡ false → d ≡ subject → (visit g subject (suc fuel) (d ∷ ds) marks).0 ≡ true
  unfolding visit
  visit-subject m same = ground (arith, m, same)

pub member-head : (d : String) (ds : List String) → member d (d ∷ ds) ≡ true
unfolding member
member-head d ds = ground arith

pub member-tail : (d x : String) (ds : List String) → member x ds ≡ true → member x (d ∷ ds) ≡ true
unfolding member
member-tail d x ds m = ground (arith, m)

pub member-split :
    (d x : String) (ds : List String) → member x (d ∷ ds) ≡ true → (d ≡ x) ⊎ (member x ds ≡ true)
unfolding member
member-split d x ds m = elim (String_discrete d x) [
  | yes same ↦ inl same
  | no other ↦ inr (ground (arith, m, other))
]

pub Grows-head :
    (d : String) (ds more : List String)
    → member d more ≡ true
    → Grows ds more
    → Grows (d ∷ ds) more
Grows-head d ds more m all x at = elim (member-split d x ds at) [
  | inl same ↦ subst (λ y. member y more ≡ true) same m
  | inr tail ↦ all x tail
]

module _ (g : Graph) (subject start : String) where
  abbrev Led : List String → Type 0
  Led ds = (d : String) → member d ds ≡ true → Chain g start d

  -- What the search finds, a chain leads to.
  visit-Chain :
      (fuel : ℕ) (ds marks : List String)
      → Led ds
      → (visit g subject fuel ds marks).0 ≡ true
      → Chain g start subject
  unfolding visit
  visit-Chain fuel [] marks c h = ground (arith, h)
  visit-Chain zero (d ∷ ds) marks c h = ground (arith, h)
  visit-Chain (suc fuel) (d ∷ ds) marks c h =
      let at_d : Chain g start d = c d (member-head d ds) in
      let rest : Led ds = λ x m. c x (member-tail d x ds m) in
      let under : Led (deps g d) = λ x m. Chain-then at_d (through m here) in
      let skipped = visit-Chain fuel ds marks rest in
      let walked = visit-Chain fuel (deps g d) (d ∷ marks) under in
      let onward = visit-Chain fuel ds (walk g subject d fuel ds marks).1 rest in
      elim (Bool-cases (member d marks)) [
        | inl m ↦ skipped (subst (λ r. r.0 ≡ true) (visit-marked g subject d fuel ds marks m) h)
        | inr m ↦ elim (String_discrete d subject) [
          | yes same ↦ subst (λ x. Chain g start x) same at_d
          | no other ↦ elim (Bool-cases (walk g subject d fuel ds marks).0) [
            | inl f ↦ walked f
            | inr f ↦
                onward
                  (subst (λ r. r.0 ≡ true) (visit-walked g subject d fuel ds marks m other f) h)
          ]
        ]
      ]

module _ (g : Graph) (subject : String) where
  -- After a search without success: all of `ds` is marked, and of what was marked on the way nothing
  -- is the subject and every dependency is marked.
  record Done (ds marks more : List String) : Type 0 where
    grows : Grows marks more
    all : Grows ds more
    closed :
        (x : String)
        → member x more ≡ true
        → (member x marks ≡ true) ⊎ ((x ≢ subject) × Grows (deps g x) more)

  Done-skip :
      (d : String) (ds marks more : List String)
      → member d marks ≡ true
      → Done ds marks more
      → Done (d ∷ ds) marks more
  Done-skip d ds marks more m done = record {
    grows = done.grows;
    all = Grows-head d ds more (done.grows d m) done.all;
    closed = done.closed;
  }

  Done-step :
      (d : String) (ds marks walked more : List String)
      → d ≢ subject
      → Done (deps g d) (d ∷ marks) walked
      → Done ds walked more
      → Done (d ∷ ds) marks more
  Done-step d ds marks walked more other under rest = record {
    grows = λ x m. rest.grows x (under.grows x (member-tail d x marks m));
    all = Grows-head d ds more (rest.grows d (under.grows d (member-head d marks))) rest.all;
    closed = λ x m. elim (rest.closed x m) [
      | inr good ↦ inr good
      | inl before ↦ elim (under.closed x before) [
        | inr (apart, deep) ↦ inr (apart, λ y e. rest.grows y (deep y e))
        | inl at ↦ elim (member-split d x marks at) [
          | inr old ↦ inl old
          | inl same ↦
              subst (λ y. (member y marks ≡ true) ⊎ ((y ≢ subject) × Grows (deps g y) more)) same
                (inr (other, λ y e. rest.grows y (under.all y e)))
        ]
      ]
    ];
  }

  visit-Done :
      (fuel : ℕ) (ds marks : List String)
      → length ds + unwalked marks g ≤ fuel
      → (visit g subject fuel ds marks).0 ≡ false
      → Done ds marks (visit g subject fuel ds marks).1
  unfolding visit member
  visit-Done fuel [] marks enough h = record {
    grows = λ x m. m;
    all = λ x m. ground (arith, m);
    closed = λ x m. inl m;
  }
  visit-Done zero (d ∷ ds) marks enough h = absurd (ground (arith, enough))
  visit-Done (suc fuel) (d ∷ ds) marks enough h =
      let walked = walk g subject d fuel ds marks in
      let skipped = visit-Done fuel ds marks (omega (arith, enough)) in
      let inner = visit-Done fuel (deps g d) (d ∷ marks) in
      let onward = visit-Done fuel ds walked.1 in
      elim (Bool-cases (member d marks)) [
        | inl m ↦
            let same = visit-marked g subject d fuel ds marks m in
            subst (λ r. Done (d ∷ ds) marks r.1) (sym same)
              (Done-skip d ds marks _ m (skipped (subst (λ r. r.0 ≡ false) same h)))
        | inr m ↦ elim (String_discrete d subject) [
          | yes found ↦ ground (arith, visit-subject g subject d fuel ds marks m found, h)
          | no other ↦ elim (Bool-cases walked.0) [
            | inl f ↦ ground (arith, visit-found g subject d fuel ds marks m f, h)
            | inr f ↦
                let same = visit-walked g subject d fuel ds marks m other f in
                let under = inner (omega (arith, enough, unwalked-mark g d marks m)) f in
                let less =
                  unwalked-Grows g marks walked.1
                    (λ x old. under.grows x (member-tail d x marks old)) in
                subst (λ r. Done (d ∷ ds) marks r.1) (sym same)
                  (Done-step d ds marks walked.1 _ other under
                    (onward (omega (arith, enough, less)) (subst (λ r. r.0 ≡ false) same h)))
          ]
        ]
      ]

  Done-open :
      {ds more : List String} {y : String}
      → Done ds [] more
      → member y more ≡ true
      → (y ≢ subject) × Grows (deps g y) more
  unfolding member
  Done-open done m = elim (done.closed _ m) [ inl h ↦ ground (arith, h) | inr good ↦ good ]

  -- No chain leaves a closed set without the subject.
  Done-apart :
      {ds more : List String} {y z : String}
      → Done ds [] more
      → member y more ≡ true
      → Chain g y z
      → z ≢ subject
  Done-apart done m here = (Done-open done m).0
  Done-apart done m (through edge c) = Done-apart done ((Done-open done m).1 _ edge) c

pub reaches_iff :
    (g : Graph) (subject target : String)
    → (reaches g subject target ≡ true) ↔ Chain g target subject
unfolding reaches member
reaches_iff g subject target =
    let fuel : ℕ = suc (unwalked [] g) in
    let found : Led g subject target (target ∷ []) = λ x m. elim (member-split target x [] m) [
      | inl same ↦ subst (λ y. Chain g target y) same here
      | inr nothing ↦ ground (arith, nothing)
    ] in
    (
      visit-Chain g subject target fuel (target ∷ []) [] found,
      λ c. elim (Bool-cases (visit g subject fuel (target ∷ []) []).0) [
        | inl h ↦ h
        | inr h ↦
            let done = visit-Done g subject fuel (target ∷ []) [] (omega arith) h in
            absurd (Done-apart g subject done (done.all target (member-head target [])) c refl)
      ],
    )

-- For every registry, `_WouldFormCycleLocked` answers that a binding of the subject to the target
-- closes a cycle exactly when a chain of component dependencies, as the bindings in the registry give
-- them, leads from the target to the subject; the chain of no step, where both are the same, included.
pub would_form_cycle_iff :
    (entries : List RegistryEntry) (subject target : String)
    → (would_form_cycle entries subject target ≡ true)
      ↔ Chain (graph_of entries entries) target subject
unfolding would_form_cycle
would_form_cycle_iff entries subject target = elim (String_discrete subject target) [
  | yes same ↦ (
    λ h. subst (λ x. Chain (graph_of entries entries) x subject) same here,
    λ c. ground (arith, same),
  )
  | no other ↦ ground (arith, other, reaches_iff (graph_of entries entries) subject target)
]
