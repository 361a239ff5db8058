-- ===== src/Host/App/History/Names.antt =====
-- The ids in the histories of a registry begin with the kinds of their objects.
use bbt_framework.Prelude.{
  ◌≡◌, inl, inr, sym, ◌∙◌, subst, true, ◌&&◌, List, [], ◌∷◌, ◌++◌, some, String, String_discrete,
  ◌++ₛ◌, arith, Bool-cases,
}
use bbt_framework.Ordered.Types.{◌==ₛ◌}
use bbt_framework.Host.Registry.{
  RegistryEntry, ObjectKind, component, same_kind, erase_entry, kind_prefix, first_entry,
}
use bbt_framework.Host.Registry.Views.{ids_of_kind}
use bbt_framework.Host.App.Ids.{kind_of_id}
use bbt_framework.Host.App.Cycle.{member}
use bbt_framework.Host.App.Edges.{components}
use bbt_framework.Host.App.Bind.{on_first}

-- Every id begins with the prefix of its object's kind.
abbrev pub HasPrefix : ObjectKind → String → Type 0
HasPrefix k id = (s : String) × (id ≡ kind_prefix k ++ₛ s)

abbrev pub IsNamed : List RegistryEntry → Type 0
IsNamed [] = Unit
IsNamed (e ∷ es) = HasPrefix e.kind e.id × IsNamed es

first_entry-HasPrefix :
    (id : String) (es : List RegistryEntry) (e : RegistryEntry)
    → IsNamed es
    → first_entry id es ≡ some e
    → HasPrefix e.kind id
unfolding first_entry
first_entry-HasPrefix id [] e named h = ground (arith, h)
first_entry-HasPrefix id (x ∷ es) e (head, tail) h = elim (String_discrete x.id id) [
  | yes same ↦
      let found : x ≡ e = ground (arith, h, same) in
      subst (λ y. HasPrefix y.kind id) found (subst (λ i. HasPrefix x.kind i) same head)
  | no other ↦ first_entry-HasPrefix id es e tail (ground (arith, h, other))
]

component-HasPrefix :
    (id : String) (es : List RegistryEntry)
    → IsNamed es
    → member id (components es) ≡ true
    → HasPrefix component id
unfolding ids_of_kind member
component-HasPrefix id [] named h = ground (arith, h)
component-HasPrefix id (x ∷ es) (head, tail) h =
    elim (Bool-cases (same_kind x.kind component && x.id ==ₛ id)) [
      | inl here_it_is ↦
          let same : x.id ≡ id = ground (arith, here_it_is) in
          let kind : x.kind ≡ component = ground (arith, here_it_is) in
          subst (λ k. HasPrefix k id) kind (subst (λ i. HasPrefix x.kind i) same head)
      | inr elsewhere ↦ component-HasPrefix id es tail (ground (arith, h, elsewhere))
    ]

pub IsNamed-on_first :
    (id : String) (f : RegistryEntry → RegistryEntry) (es : List RegistryEntry)
    → ((e : RegistryEntry) → (f e).kind ≡ e.kind)
    → IsNamed es
    → IsNamed (on_first id f es)
unfolding on_first
IsNamed-on_first id f [] same named = tt
IsNamed-on_first id f (e ∷ es) same (head, tail) = elim (Bool-cases (e.id ==ₛ id)) [
  | inl m ↦ rw m (subst (λ k. HasPrefix k e.id) (sym (same e)) head, tail)
  | inr m ↦ rw m (head, IsNamed-on_first id f es same tail)
]

pub IsNamed-erase_entry :
    (id : String) (es : List RegistryEntry) → IsNamed es → IsNamed (erase_entry id es)
unfolding erase_entry
IsNamed-erase_entry id [] named = tt
IsNamed-erase_entry id (e ∷ es) (head, tail) = elim (Bool-cases (e.id ==ₛ id)) [
  | inl m ↦ rw m tail
  | inr m ↦ rw m (head, IsNamed-erase_entry id es tail)
]

pub IsNamed-snoc :
    (es : List RegistryEntry) (e : RegistryEntry)
    → IsNamed es
    → HasPrefix e.kind e.id
    → IsNamed (es ++ e ∷ [])
IsNamed-snoc [] e named h = (h, tt)
IsNamed-snoc (x ∷ es) e (head, tail) h = (head, IsNamed-snoc es e tail h)

-- A component's id leads to no object of another kind.
pub first_entry-component :
    (id : String) (es : List RegistryEntry) (e : RegistryEntry)
    → IsNamed es
    → first_entry id es ≡ some e
    → member id (components es) ≡ true
    → e.kind ≡ component
first_entry-component id es e named found m =
    let (s, p) = first_entry-HasPrefix id es e named found in
    let (t, q) = component-HasPrefix id es named m in kind_of_id e.kind component s t (sym p ∙ q)
