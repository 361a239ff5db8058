-- ===== src/Host/Registry/Index.antt =====
-- The index of the registry (Registry.cc, `FindEntryLocked`) against the scan of its entries.
use bbt_framework.Prelude.{
  ℕ, zero, suc, ◌+◌, ◌-◌, ◌≤◌, ◌≡◌, refl, List, [], ◌∷◌, ◌++◌, Option, none, some, String,
  String_discrete, Dict, lookup, emplace, lookup-insert, length, get_elem?, if◌then◌else◌, arith,
  to_string, ◌++ₛ◌,
}
use bbt_framework.Infra.{Infra}
use bbt_framework.Ordered.Types.{◌==ₛ◌}
use bbt_framework.Host.Registry.{
  Registry, RegistryEntry, Creation, Limits, LifecycleFailure, new_registry, new_entry,
  create_entry, find_entry, first_entry, erase_entry, build_index, finish_destroy, update_entry,
  record_failure, kind_prefix,
}

-- Where the first entry with the id stands, counted from `i`.
abbrev position : ℕ → String → List RegistryEntry → Option ℕ
position i id [] = none
position i id (e ∷ es) = if e.id ==ₛ id then some i else position (suc i) id es

-- Each id stands in the index at the place of the first entry that bears it.
abbrev Indexed : Dict String ℕ → List RegistryEntry → Type 0
Indexed m es = (id : String) → lookup String_discrete id m ≡ position 0 id es

abbrev or_else : Option ℕ → Option ℕ → Option ℕ
or_else (some i) o = some i
or_else none o = o

lookup-emplace_or :
    (k j : String) (i : ℕ) (m : Dict String ℕ)
    → lookup String_discrete j (emplace String_discrete k i m)
      ≡ or_else (lookup String_discrete j m) (if k ==ₛ j then some i else none)
unfolding emplace
lookup-emplace_or k j i m = ground (arith, lookup-insert String_discrete k j i m)

lookup-build_index :
    (i : ℕ) (es : List RegistryEntry) (m : Dict String ℕ) (id : String)
    → lookup String_discrete id (build_index i es m)
      ≡ or_else (lookup String_discrete id m) (position i id es)
unfolding build_index
lookup-build_index i [] m id = ground arith
lookup-build_index i (e ∷ es) m id =
    let rest = lookup-build_index (suc i) es (emplace String_discrete e.id i m) id in
    ground (arith, rest, lookup-emplace_or e.id id i m)

position-append :
    (i : ℕ) (id : String) (es : List RegistryEntry) (e : RegistryEntry)
    → position i id (es ++ e ∷ [])
      ≡ or_else (position i id es) (if e.id ==ₛ id then some (i + length es) else none)
position-append i id [] e = ground arith
position-append i id (x ∷ es) e = ground (arith, position-append (suc i) id es e)

position-update_entry :
    (i n : ℕ) (f : RegistryEntry → RegistryEntry) (id : String) (es : List RegistryEntry)
    → position i id (update_entry n f es) ≡ position i id es
unfolding update_entry
position-update_entry i n f id [] = refl
position-update_entry i zero f id (e ∷ es) = refl
position-update_entry i (suc n) f id (e ∷ es) =
    ground (arith, position-update_entry (suc i) n f id es)

position-below :
    (i : ℕ) (id : String) (es : List RegistryEntry) (j : ℕ) → position i id es ≡ some j → i ≤ j
position-below i id [] j h = absurd (ground arith)
position-below i id (e ∷ es) j h = ground (arith, position-below (suc i) id es j)

-- What `get_elem?` finds at that place.
abbrev at : ℕ → Option ℕ → List RegistryEntry → Option RegistryEntry
at i none es = none
at i (some j) es = get_elem? es (j - i)

get_elem?_down :
    (e : RegistryEntry) (es : List RegistryEntry) (i j : ℕ)
    → suc i ≤ j
    → get_elem? (e ∷ es) (j - i) ≡ get_elem? es (j - suc i)
get_elem?_down e es i j h = go (j - suc i) (j - i) (omega arith)
  where
    go : (m n : ℕ) → n ≡ suc m → get_elem? (e ∷ es) n ≡ get_elem? es m
    go m n q = rw (q, get_elem?) refl

get_elem?_here :
    (e : RegistryEntry) (es : List RegistryEntry) (i : ℕ) → get_elem? (e ∷ es) (i - i) ≡ some e
get_elem?_here e es i = go (i - i) (omega arith)
  where
    go : (n : ℕ) → n ≡ 0 → get_elem? (e ∷ es) n ≡ some e
    go n q = rw q refl

at-later :
    (i : ℕ) (id : String) (e : RegistryEntry) (es : List RegistryEntry) (o : Option ℕ)
    → position (suc i) id es ≡ o
    → at i o (e ∷ es) ≡ at (suc i) o es
at-later i id e es none h = refl
at-later i id e es (some j) h = get_elem?_down e es i j (position-below (suc i) id es j h)

at-position :
    (i : ℕ) (id : String) (es : List RegistryEntry) → at i (position i id es) es ≡ first_entry id es
unfolding first_entry
at-position i id [] = refl
at-position i id (e ∷ es) = ground (
  arith,
  at-later i id e es (position (suc i) id es) refl,
  at-position (suc i) id es,
  get_elem?_here e es i,
)

-- A call on the registry: a creation, the end of a destruction, any change of an entry that is
-- present, or a recorded failure.
pub data Call : Type 0 where
  creates : Creation → Call
  destroys : String → Call
  updates : ℕ → (RegistryEntry → RegistryEntry) → Call
  records : LifecycleFailure → Call

module _ ⦃infra : Infra⦄ where
  unfoldable pub step : Registry → Call → Registry
  step r (creates c) = (create_entry c r).0
  step r (destroys id) = finish_destroy id r
  step r (updates i f) = record r { entries = update_entry i f r.entries }
  step r (records f) = record_failure f r

  unfoldable pub run : Registry → List Call → Registry
  run r [] = r
  run r (c ∷ cs) = run (step r c) cs

  step-Indexed :
      (r : Registry) (c : Call)
      → Indexed r.index r.entries
      → Indexed (step r c).index (step r c).entries
  unfolding step create_entry finish_destroy record_failure lookup
  step-Indexed r (creates c) h id =
      let name = kind_prefix c.kind ++ₛ ":" ++ₛ to_string r.next_id_seq in
      ground (
        arith,
        h id,
        lookup-emplace_or name id (length r.entries) r.index,
        position-append 0 id r.entries (new_entry c name r.next_generation),
      )
  step-Indexed r (destroys name) h id =
      ground (arith, lookup-build_index 0 (erase_entry name r.entries) [] id)
  step-Indexed r (updates i f) h id = ground (arith, h id, position-update_entry 0 i f id r.entries)
  step-Indexed r (records f) h id = ground (arith, h id)

  run-Indexed :
      (r : Registry) (cs : List Call)
      → Indexed r.index r.entries
      → Indexed (run r cs).index (run r cs).entries
  unfolding run
  run-Indexed r [] h = h
  run-Indexed r (c ∷ cs) h = run-Indexed (step r c) cs (step-Indexed r c h)

find_entry-Indexed :
    (r : Registry) (id : String)
    → Indexed r.index r.entries
    → find_entry id r ≡ first_entry id r.entries
unfolding find_entry
find_entry-Indexed r id h = ground (arith, h id, at-position 0 id r.entries)

module _ ⦃infra : Infra⦄ where
  -- After any creations, destructions and changes of objects, the search by the index finds what a
  -- scan of the entries finds: no entry is missed, and no other entry is taken for it.
  pub find_entry_scans :
      (limits : Limits) (cs : List Call) (id : String)
      → find_entry id (run (new_registry limits) cs)
        ≡ first_entry id (run (new_registry limits) cs).entries
  unfolding new_registry lookup
  find_entry_scans limits cs id =
      find_entry-Indexed (run (new_registry limits) cs) id
        (run-Indexed (new_registry limits) cs (λ j. refl))
