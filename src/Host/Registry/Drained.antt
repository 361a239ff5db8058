-- ===== src/Host/Registry/Drained.antt =====
-- A component with the leases on it (Registry.cc): what its counts say of them, after any calls.
use bbt_framework.Prelude.{
  ℕ, suc, ◌+◌, ◌≤◌, ◌≡◌, ◌↔◌, refl, Bool, true, List, [], ◌∷◌, Option, none, some, String, ltb,
  add64, u64_max, length, if◌then◌else◌, arith, Option-cases, inl, inr,
}
use bbt_framework.Infra.{Infra, Result, ok, err}
use bbt_framework.Host.Registry.{Binding, RegistryEntry, Creation, new_entry}
use bbt_framework.Host.Registry.Borrow.{
  find_edge, release_borrow, erase_binding, erase_subject_bindings, borrows_drained,
  binding_drained, Lease, subject_of, bind, begin_unbind, acquire_borrow, borrow, retire,
}
use bbt_framework.Host.Registry.Counts.{
  count, without, Counted, LeasesBelow, LeasesBelow-mono, LeasesBelow-without, length-without,
  Counted-new, Counted-borrow_more, Counted-borrow_less, Retired, retire-Retired,
  Counted-erase_edge, Counted-erase_retiring, Counted-find_edge,
}

-- The component's entry, the registry's next generation, and the leases that are not yet returned.
pub record Lending : Type 0 where
  pub entry : RegistryEntry
  pub next_generation : ℕ
  pub leases : List Lease

abbrev pub lending : RegistryEntry → ℕ → Lending
lending e next = record { entry = e; next_generation = next; leases = [] }

-- `changes` is any change of the entry that leaves its edges and its count alone. A lease is
-- returned by the one destructor it has, so only while it is out.
pub data Call : Type 0 where
  binds : ℕ → ℕ → RegistryEntry → String → Call
  unbinds : String → Call
  erases : String → ℕ → Call
  erases_all : String → Call
  borrows : Bool → (String → Bool) → ℕ → ℕ → Call
  returns : String → ℕ → Call
  changes : (RegistryEntry → RegistryEntry) → Call

-- After a borrow or a bind: a success adds the lease, or takes a generation.
abbrev pub lent : Lending → RegistryEntry × Result Lease → Lending
lent s (e, ok lease) = record s { entry = e; leases = lease ∷ s.leases }
lent s (e, err _) = record s { entry = e }

abbrev pub bound : Lending → RegistryEntry × Result (Unit {0}) → Lending
bound s (e, ok _) = record s { entry = e; next_generation = add64 s.next_generation 1 }
bound s (e, err _) = record s { entry = e }

abbrev pub keep_counts : (RegistryEntry → RegistryEntry) → RegistryEntry → RegistryEntry
keep_counts f e = record (f e) { bindings = e.bindings; component_borrows = e.component_borrows }

module _ ⦃infra : Infra⦄ where
  unfoldable pub step : Lending → Call → Lending
  step s (binds total max_bindings subject_entry subject) =
      bound s (bind total max_bindings subject_entry subject s.next_generation s.entry)
  step s (unbinds subject) = record s { entry = (begin_unbind subject s.entry).0 }
  step s (erases subject generation) = record s { entry = erase_binding subject generation s.entry }
  step s (erases_all subject) = record s { entry = erase_subject_bindings subject s.entry }
  step s (borrows allow subject_installing handle_generation binding_generation) =
      lent s (borrow allow subject_installing handle_generation binding_generation s.entry)
  step s (returns subject generation) =
      if ltb 0 (count subject generation s.leases)
      then record s {
        entry = release_borrow subject generation s.entry;
        leases = without subject generation s.leases;
      }
      else s
  step s (changes f) = record s { entry = keep_counts f s.entry }

  unfoldable pub run : Lending → List Call → Lending
  run s [] = s
  run s (c ∷ cs) = run (step s c) cs

abbrev Inv : Lending → Type 0
Inv s =
    (s.entry.component_borrows ≡ length s.leases)
    × LeasesBelow s.next_generation s.leases
    × Counted s.next_generation s.leases s.entry.bindings

-- The room for `n` more calls in 64 bits.
abbrev Room : ℕ → Lending → Type 0
Room n s = (s.next_generation + n ≤ u64_max) × (length s.leases + n ≤ u64_max)

module _ ⦃infra : Infra⦄ where
  bind-Inv :
      (n : ℕ) (s : Lending) (total max : ℕ) (se : RegistryEntry) (o : String)
      → Room (suc n) s
      → Inv s
      → Inv (step s (binds total max se o)) × Room n (step s (binds total max se o))
  unfolding step bind
  bind-Inv n s total max se o room v = ground (
    arith,
    Counted-new s.next_generation o s.leases s.entry.bindings v.1 v.2,
    LeasesBelow-mono s.next_generation (suc s.next_generation) s.leases (omega arith) v.1,
  )

  unbind-Inv : (s : Lending) (o : String) → Inv s → Inv (step s (unbinds o))
  unfolding step begin_unbind
  unbind-Inv s o v =
      go (retire o s.entry.bindings) refl
        (retire-Retired s.next_generation o s.leases s.entry.bindings v.2)
    where
      go :
          (r : Option (List Binding × ℕ))
          → retire o s.entry.bindings ≡ r
          → Retired s.next_generation s.leases s.entry.bindings r
          → Inv (step s (unbinds o))
      go none q w = ground (arith, v)
      go (some (bs, g)) q w = ground (arith, v, w)

  acquire-Inv :
      (n : ℕ) (s : Lending) (allow inst : Bool) (o : String) (g : ℕ)
      → Room (suc n) s
      → Inv s
      → Inv (lent s (acquire_borrow allow inst o g s.entry))
        × Room n (lent s (acquire_borrow allow inst o g s.entry))
  unfolding acquire_borrow
  acquire-Inv n s allow inst o g room v = elim (Option-cases (find_edge o g s.entry.bindings)) [
    | inl q ↦ ground arith
    | inr (edge, q) ↦ ground (
      arith,
      Counted-find_edge s.next_generation o g s.leases s.entry.bindings edge v.2 q,
      Counted-borrow_more s.next_generation o g s.leases s.entry.bindings (omega arith) v.2,
    )
  ]

  borrow-Inv :
      (n : ℕ) (s : Lending) (allow : Bool) (inst : String → Bool) (h g : ℕ)
      → Room (suc n) s
      → Inv s
      → Inv (step s (borrows allow inst h g)) × Room n (step s (borrows allow inst h g))
  unfolding step borrow
  borrow-Inv n s allow inst h g room v = elim (Option-cases (subject_of g s.entry.bindings)) [
    | inl q ↦ ground arith
    | inr (o, q) ↦ ground (arith, acquire-Inv n s allow (inst o) o g room v)
  ]

  return-Inv :
      (n : ℕ) (s : Lending) (o : String) (g : ℕ)
      → Room (suc n) s
      → Inv s
      → Inv (step s (returns o g)) × Room n (step s (returns o g))
  unfolding step release_borrow
  return-Inv n s o g room v = ground (
    arith,
    length-without o g s.leases,
    LeasesBelow-without o g s.next_generation s.leases v.1,
    Counted-borrow_less s.next_generation o g s.leases s.entry.bindings v.2,
  )

  step-Inv :
      (n : ℕ) (s : Lending) (c : Call) → Room (suc n) s → Inv s → Inv (step s c) × Room n (step s c)
  unfolding step erase_binding erase_subject_bindings
  step-Inv n s (binds total max se o) room v = bind-Inv n s total max se o room v
  step-Inv n s (unbinds o) room v = (unbind-Inv s o v, (omega arith, omega arith))
  step-Inv n s (erases o g) room v = (
    (v.0, v.1, Counted-erase_edge s.next_generation o g s.leases s.entry.bindings v.2),
    (omega arith, omega arith),
  )
  step-Inv n s (erases_all o) room v = (
    (v.0, v.1, Counted-erase_retiring s.next_generation o s.leases s.entry.bindings v.2),
    (omega arith, omega arith),
  )
  step-Inv n s (borrows allow inst h g) room v = borrow-Inv n s allow inst h g room v
  step-Inv n s (returns o g) room v = return-Inv n s o g room v
  step-Inv n s (changes f) room v = (v, (omega arith, omega arith))

  run-Inv : (s : Lending) (cs : List Call) → Room (length cs) s → Inv s → Inv (run s cs)
  unfolding run
  run-Inv s [] room v = v
  run-Inv s (c ∷ cs) room v =
      let (v', room') = step-Inv (length cs) s c room v in run-Inv (step s c) cs room' v'

  drained_iff :
      (s : Lending) (o : String) (g : ℕ) (b : Binding)
      → Inv s
      → find_edge o g s.entry.bindings ≡ some b
      → (binding_drained o g s.entry ≡ true) ↔ (count o g s.leases ≡ 0)
  unfolding binding_drained
  drained_iff s o g b v q =
      let found = Counted-find_edge s.next_generation o g s.leases s.entry.bindings b v.2 q in
      (ground (arith, found), ground (arith, found))

  none_iff : (s : Lending) → Inv s → (borrows_drained s.entry ≡ true) ↔ (length s.leases ≡ 0)
  unfolding borrows_drained
  none_iff s v = (ground (arith, v), ground (arith, v))

  -- After any binds, unbinds, erasures, borrows and returns on a new component, within the 64-bit
  -- range of its counters: the condition on which a destruction waits holds exactly when no lease on
  -- the component is out, and the one on which an unbind waits, while the edge is there, exactly
  -- when no lease on this edge is out.
  pub drained_means_returned :
      (c : Creation) (id : String) (generation next : ℕ) (cs : List Call)
      → next + length cs ≤ u64_max
      → ((borrows_drained (run (lending (new_entry c id generation) next) cs).entry ≡ true)
          ↔ (length (run (lending (new_entry c id generation) next) cs).leases ≡ 0))
        × ((o : String) (g : ℕ) (b : Binding)
            → find_edge o g (run (lending (new_entry c id generation) next) cs).entry.bindings
              ≡ some b
            → (binding_drained o g (run (lending (new_entry c id generation) next) cs).entry ≡ true)
              ↔ (count o g (run (lending (new_entry c id generation) next) cs).leases ≡ 0))
  drained_means_returned c id generation next cs room =
      let s = lending (new_entry c id generation) next in
      let v = run-Inv s cs (room, omega arith) (refl, tt, tt) in
      (none_iff (run s cs) v, λ o g b. drained_iff (run s cs) o g b v)
