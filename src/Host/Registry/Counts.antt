-- ===== src/Host/Registry/Counts.antt =====
-- The counts of borrows are those of the leases that are out (Registry.cc, `AcquireBorrowLocked`,
-- `ReleaseBorrow` and the waits for them).
use bbt_framework.Prelude.{
  ℕ, suc, ◌-◌, ◌≤◌, ◌<◌, ◌≡◌, ◌≢◌, inl, inr, refl, sym, ap, ◌∙◌, true, false, not, ◌&&◌, ◌||◌, List,
  [], ◌∷◌, ◌++◌, Option, none, some, String, ◌==◌, u64_max, length, if◌then◌else◌, arith,
  Bool-cases, if_both,
}
use bbt_framework.Ordered.Types.{◌==ₛ◌}
use bbt_framework.Host.Registry.{Binding}
use bbt_framework.Host.Registry.Borrow.{
  new_binding, retire, find_edge, on_edge, borrow_more, borrow_less, erase_edge, erase_retiring,
  Lease,
}

-- How many of the leases are of this binding.
abbrev pub count : String → ℕ → List Lease → ℕ
count subject generation [] = 0
count subject generation ((s, g) ∷ ls) =
    if s ==ₛ subject && g == generation
    then suc (count subject generation ls)
    else count subject generation ls

-- The leases without one of this binding.
abbrev pub without : String → ℕ → List Lease → List Lease
without subject generation [] = []
without subject generation ((s, g) ∷ ls) =
    if s ==ₛ subject && g == generation then ls else (s, g) ∷ without subject generation ls

abbrev pub Fresh : ℕ → List Binding → Type 0
Fresh g [] = Unit
Fresh g (b ∷ bs) = (b.generation ≢ g) × Fresh g bs

abbrev pub LeasesBelow : ℕ → List Lease → Type 0
LeasesBelow next [] = Unit
LeasesBelow next ((s, g) ∷ ls) = (g < next) × LeasesBelow next ls

-- The edges bear different generations below the next one, and each counts its leases.
abbrev pub Counted : ℕ → List Lease → List Binding → Type 0
Counted next ls [] = Unit
Counted next ls (b ∷ bs) =
    (b.generation < next)
    × (b.borrows ≡ count b.subject_id b.generation ls)
    × Fresh b.generation bs
    × Counted next ls bs

pub count-le-length : (s : String) (g : ℕ) (ls : List Lease) → count s g ls ≤ length ls
count-le-length s g [] = omega arith
count-le-length s g ((t, h) ∷ ls) = ground (arith, count-le-length s g ls)

pub count-above :
    (s : String) (g next : ℕ) (ls : List Lease) → LeasesBelow next ls → next ≤ g → count s g ls ≡ 0
count-above s g next [] w h = refl
count-above s g next ((t, i) ∷ ls) w h = ground (arith, count-above s g next ls w.1 h)

pub LeasesBelow-mono : (m n : ℕ) (ls : List Lease) → m ≤ n → LeasesBelow m ls → LeasesBelow n ls
LeasesBelow-mono m n [] h w = tt
LeasesBelow-mono m n ((s, g) ∷ ls) h w = (omega arith, LeasesBelow-mono m n ls h w.1)

pub LeasesBelow-without :
    (s : String) (g n : ℕ) (ls : List Lease) → LeasesBelow n ls → LeasesBelow n (without s g ls)
LeasesBelow-without s g n [] w = tt
LeasesBelow-without s g n ((t, h) ∷ ls) w = ground (arith, LeasesBelow-without s g n ls w.1)

pub length-without :
    (s : String) (g : ℕ) (ls : List Lease)
    → 0 < count s g ls
    → suc (length (without s g ls)) ≡ length ls
length-without s g [] h = absurd (omega arith)
length-without s g ((t, i) ∷ ls) h = ground (arith, length-without s g ls)

count-without_same :
    (s : String) (g : ℕ) (ls : List Lease) → count s g (without s g ls) ≡ count s g ls - 1
count-without_same s g [] = refl
count-without_same s g ((u, i) ∷ ls) = ground (arith, count-without_same s g ls)

same_lease :
    (s t u : String) (g h i : ℕ)
    → ((u ==ₛ s && i == g) ≡ true)
    → ((s ==ₛ t && g == h) ≡ false)
    → (u ==ₛ t && i == h) ≡ false
same_lease s t u g h i = ground arith

count-without_other :
    (s t : String) (g h : ℕ) (ls : List Lease)
    → (s ==ₛ t && g == h) ≡ false
    → count t h (without s g ls) ≡ count t h ls
count-without_other s t g h [] d = refl
count-without_other s t g h ((u, i) ∷ ls) d = elim (Bool-cases (u ==ₛ s && i == g)) [
  | inl e ↦ rw (e, same_lease s t u g h i e d) refl
  | inr e ↦ elim (Bool-cases (u ==ₛ t && i == h)) [
    | inl k ↦ rw (e, count, k) (ap suc (count-without_other s t g h ls d))
    | inr k ↦ rw (e, count, k) (count-without_other s t g h ls d)
  ]
]

pub Counted-mono :
    (m n : ℕ) (ls : List Lease) (bs : List Binding) → m ≤ n → Counted m ls bs → Counted n ls bs
Counted-mono m n ls [] h w = tt
Counted-mono m n ls (b ∷ bs) h w = (omega arith, w.1, w.2, Counted-mono m n ls bs h w.3)

-- Leases of another generation do not matter.
Counted-lease :
    (next : ℕ) (s : String) (g : ℕ) (ls : List Lease) (bs : List Binding)
    → Fresh g bs
    → Counted next ls bs
    → Counted next ((s, g) ∷ ls) bs
Counted-lease next s g ls [] f w = tt
Counted-lease next s g ls (b ∷ bs) f w =
    (w.0, ground arith, w.2, Counted-lease next s g ls bs f.1 w.3)

Counted-without :
    (next : ℕ) (s : String) (g : ℕ) (ls : List Lease) (bs : List Binding)
    → Fresh g bs
    → Counted next ls bs
    → Counted next (without s g ls) bs
Counted-without next s g ls [] f w = tt
Counted-without next s g ls (b ∷ bs) f w = (
  w.0,
  w.1 ∙ sym (count-without_other s b.subject_id g b.generation ls (ground arith)),
  w.2,
  Counted-without next s g ls bs f.1 w.3,
)

Fresh-on_edge :
    (i : ℕ) (s : String) (g : ℕ) (f : Binding → Binding) (bs : List Binding)
    → ((b : Binding) → (f b).generation ≡ b.generation)
    → Fresh i bs
    → Fresh i (on_edge s g f bs)
unfolding on_edge
Fresh-on_edge i s g f [] k w = tt
Fresh-on_edge i s g f (b ∷ bs) k w = ground (arith, k b, Fresh-on_edge i s g f bs k w.1)

pub Counted-borrow_more :
    (next : ℕ) (s : String) (g : ℕ) (ls : List Lease) (bs : List Binding)
    → length ls < u64_max
    → Counted next ls bs
    → Counted next ((s, g) ∷ ls) (on_edge s g borrow_more bs)
unfolding on_edge
Counted-borrow_more next s g ls [] room w = tt
Counted-borrow_more next s g ls (b ∷ bs) room w = ground (
  arith,
  count-le-length b.subject_id b.generation ls,
  Counted-borrow_more next s g ls bs room w.3,
  Counted-lease next s g ls bs,
  Fresh-on_edge b.generation s g borrow_more bs (λ c. refl) w.2,
)

pub Counted-borrow_less :
    (next : ℕ) (s : String) (g : ℕ) (ls : List Lease) (bs : List Binding)
    → Counted next ls bs
    → Counted next (without s g ls) (on_edge s g borrow_less bs)
unfolding on_edge
Counted-borrow_less next s g ls [] w = tt
Counted-borrow_less next s g ls (b ∷ bs) w = ground (
  arith,
  count-without_same s g ls,
  count-without_other s b.subject_id g b.generation ls,
  Counted-borrow_less next s g ls bs w.3,
  Counted-without next s g ls bs,
  Fresh-on_edge b.generation s g borrow_less bs (λ c. refl) w.2,
)

Fresh-above :
    (g next : ℕ) (ls : List Lease) (bs : List Binding) → next ≤ g → Counted next ls bs → Fresh g bs
Fresh-above g next ls [] h w = tt
Fresh-above g next ls (b ∷ bs) h w = (λ q. absurd (omega arith), Fresh-above g next ls bs h w.3)

Fresh-append :
    (g : ℕ) (bs : List Binding) (b : Binding)
    → Fresh g bs
    → b.generation ≢ g
    → Fresh g (bs ++ b ∷ [])
Fresh-append g [] b w h = (h, tt)
Fresh-append g (c ∷ bs) b w h = (w.0, Fresh-append g bs b w.1 h)

-- A new edge takes the next generation, and no lease is out on it.
pub Counted-new :
    (next : ℕ) (s : String) (ls : List Lease) (bs : List Binding)
    → LeasesBelow next ls
    → Counted next ls bs
    → Counted (suc next) ls (bs ++ new_binding s next ∷ [])
Counted-new next s ls [] l w =
    (omega arith, sym (count-above s next next ls l (omega arith)), tt, tt)
Counted-new next s ls (b ∷ bs) l w = (
  omega arith,
  w.1,
  Fresh-append b.generation bs (new_binding s next) w.2 (λ q. absurd (omega arith)),
  Counted-new next s ls bs l w.3,
)

-- Retiring an edge leaves its generation and its count.
abbrev pub Retired : ℕ → List Lease → List Binding → Option (List Binding × ℕ) → Type 0
Retired next ls bs none = Unit
Retired next ls bs (some (bs', _)) = Counted next ls bs' × ((i : ℕ) → Fresh i bs → Fresh i bs')

Retired-later :
    (next : ℕ) (ls : List Lease) (b : Binding) (bs : List Binding)
    (rest : Option (List Binding × ℕ))
    → Counted next ls (b ∷ bs)
    → Retired next ls bs rest
    → Retired next ls
        (b ∷ bs)
        (elim rest [ none ↦ none | some (bs', generation) ↦ some (b ∷ bs', generation) ])
Retired-later next ls b bs none w r = tt
Retired-later next ls b bs (some (bs', g)) w (counted, fresh) =
    ((w.0, w.1, fresh b.generation w.2, counted), λ i f. (f.0, fresh i f.1))

pub retire-Retired :
    (next : ℕ) (s : String) (ls : List Lease) (bs : List Binding)
    → Counted next ls bs
    → Retired next ls bs (retire s bs)
unfolding retire
retire-Retired next s ls [] w = tt
retire-Retired next s ls (b ∷ bs) w =
    if_both {A = Option (List Binding × ℕ)} (Retired next ls (b ∷ bs))
      (not (b.subject_id ==ₛ s) || b.retiring) _ _
      (λ _. Retired-later next ls b bs (retire s bs) w (retire-Retired next s ls bs w.3))
      (λ _. (w, λ i f. f))

Fresh-erase_edge :
    (i : ℕ) (s : String) (g : ℕ) (bs : List Binding) → Fresh i bs → Fresh i (erase_edge s g bs)
unfolding erase_edge
Fresh-erase_edge i s g [] w = tt
Fresh-erase_edge i s g (b ∷ bs) w = ground (arith, Fresh-erase_edge i s g bs w.1)

pub Counted-erase_edge :
    (next : ℕ) (s : String) (g : ℕ) (ls : List Lease) (bs : List Binding)
    → Counted next ls bs
    → Counted next ls (erase_edge s g bs)
unfolding erase_edge
Counted-erase_edge next s g ls [] w = tt
Counted-erase_edge next s g ls (b ∷ bs) w =
    ground (arith, Counted-erase_edge next s g ls bs w.3, Fresh-erase_edge b.generation s g bs w.2)

Fresh-erase_retiring :
    (i : ℕ) (s : String) (bs : List Binding) → Fresh i bs → Fresh i (erase_retiring s bs)
unfolding erase_retiring
Fresh-erase_retiring i s [] w = tt
Fresh-erase_retiring i s (b ∷ bs) w = ground (arith, Fresh-erase_retiring i s bs w.1)

pub Counted-erase_retiring :
    (next : ℕ) (s : String) (ls : List Lease) (bs : List Binding)
    → Counted next ls bs
    → Counted next ls (erase_retiring s bs)
unfolding erase_retiring
Counted-erase_retiring next s ls [] w = tt
Counted-erase_retiring next s ls (b ∷ bs) w =
    ground
      (arith, Counted-erase_retiring next s ls bs w.3, Fresh-erase_retiring b.generation s bs w.2)

-- An edge that is found bears a generation below the next, and counts its leases.
pub Counted-find_edge :
    (next : ℕ) (s : String) (g : ℕ) (ls : List Lease) (bs : List Binding) (b : Binding)
    → Counted next ls bs
    → find_edge s g bs ≡ some b
    → (g < next) × (b.borrows ≡ count s g ls)
unfolding find_edge
Counted-find_edge next s g ls [] b w h = absurd (ground arith)
Counted-find_edge next s g ls (c ∷ bs) b w h =
    ground (arith, Counted-find_edge next s g ls bs b w.3)
