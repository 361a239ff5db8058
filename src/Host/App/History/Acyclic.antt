-- ===== src/Host/App/History/Acyclic.antt =====
-- The dependencies of components through the histories of a registry.
use bbt_framework.Prelude.{
  ◌≡◌, inl, inr, refl, ap, subst, leb, length, true, ◌&&◌, List, [], ◌∷◌, ◌++◌, String,
  String_discrete, ◌++ₛ◌, to_string, arith, Bool-cases,
}
use bbt_framework.Ordered.Types.{◌==ₛ◌}
use bbt_framework.Infra.{Infra}
use bbt_framework.Host.Registry.{
  Registry, RegistryEntry, Creation, erase_entry, kind_prefix, create_entry, finish_destroy,
  new_entry,
}
use bbt_framework.Host.App.Cycle.{graph_of, member, Chain}
use bbt_framework.Host.App.Edges.{components, member-deps, is_bound-components, is_bound}
use bbt_framework.Host.App.StartOrder.Acyclic.{IsAcyclic}
use bbt_framework.Host.App.Bind.{on_first, on_entry}
use bbt_framework.Host.App.History.Graph.{
  Keeps, Adds, components-on_first, is_bound-on_first, is_bound-on_first-Keeps, is_bound-snoc,
  components-snoc, is_bound-erase_entry, components-erase_entry,
}
use bbt_framework.Host.App.History.Names.{
  HasPrefix, IsNamed, IsNamed-on_first, IsNamed-erase_entry, IsNamed-snoc,
}
use bbt_framework.Host.App.History.Chains.{IsAcyclic-IsLess, IsAcyclic-IsMore, IsAcyclic-fresh}

-- What holds of every registry.
pub record Inv (r : Registry) : Type 0 where
  pub named : IsNamed r.entries
  pub acyclic : IsAcyclic (graph_of r.entries r.entries)

-- Entries that stand for no new dependency.
Inv-less :
    (r : Registry) (es : List RegistryEntry)
    → ((x : String) → member x (components es) ≡ true → member x (components r.entries) ≡ true)
    → ((x y : String) → is_bound x y es ≡ true → is_bound x y r.entries ≡ true)
    → Inv r
    → IsAcyclic (graph_of es es)
Inv-less r es fewer less inv =
    IsAcyclic-IsLess (graph_of r.entries r.entries) (graph_of es es)
      (λ x y m. ground (arith, member-deps x y es, member-deps x y r.entries, m, fewer x, less x y))
      inv.acyclic

pub Inv-on_entry :
    (id : String) (f : RegistryEntry → RegistryEntry) (r : Registry)
    → Keeps f
    → Inv r
    → Inv (on_entry id f r)
Inv-on_entry id f r keeps inv =
    let same = components-on_first id f r.entries (λ e. (keeps e).0) in
    record {
      named = IsNamed-on_first id f r.entries (λ e. (keeps e).0) inv.named;
      acyclic =
          Inv-less r (on_first id f r.entries) (λ x m. subst (λ l. member x l ≡ true) same m)
            (λ x y m. is_bound-on_first-Keeps id f r.entries x y keeps m) inv;
    }

pub Inv-finish_destroy : (id : String) (r : Registry) → Inv r → Inv (finish_destroy id r)
unfolding finish_destroy
Inv-finish_destroy id r inv = record {
  named = IsNamed-erase_entry id r.entries inv.named;
  acyclic =
      Inv-less r (erase_entry id r.entries) (λ x. components-erase_entry id x r.entries)
        (λ x y. is_bound-erase_entry id x y r.entries) inv;
}

-- A new entry has no bindings, and nothing depends on it.
Inv-new :
    (r : Registry) (e : RegistryEntry)
    → e.bindings ≡ []
    → HasPrefix e.kind e.id
    → Inv r
    → IsNamed (r.entries ++ e ∷ [])
      × IsAcyclic (graph_of (r.entries ++ e ∷ []) (r.entries ++ e ∷ []))
Inv-new r e none_bound named inv =
    let es = r.entries ++ e ∷ [] in
    let bound = λ (x y : String). is_bound-snoc x y r.entries e none_bound in
    (
      IsNamed-snoc r.entries e inv.named named,
      elim (Bool-cases (member e.id (components r.entries))) [
        | inl old ↦
            IsAcyclic-IsLess (graph_of r.entries r.entries) (graph_of es es)
              (λ x y m. ground (
                arith,
                member-deps x y es,
                member-deps x y r.entries,
                m,
                bound x y,
                components-snoc x r.entries e,
                old,
              ))
              inv.acyclic
        | inr new ↦
            IsAcyclic-fresh (graph_of r.entries r.entries) (graph_of es es) e.id
              (λ x y m.
                let was : is_bound x y r.entries ≡ true =
                  ground (arith, member-deps x y es, m, bound x y) in
                let there = is_bound-components x y r.entries was in
                (
                  λ same. ground (arith, there, new, same),
                  elim (String_discrete x e.id) [
                    | yes same ↦ inr same
                    | no other ↦ inl (
                        ground (
                          arith,
                          member-deps x y es,
                          member-deps x y r.entries,
                          m,
                          was,
                          components-snoc x r.entries e,
                          other,
                        ))
                  ],
                ))
              inv.acyclic
      ],
    )

pub Inv-create_entry :
    ⦃infra : Infra⦄ → (c : Creation) (r : Registry) → Inv r → Inv (create_entry c r).0
unfolding create_entry
Inv-create_entry c r inv =
    let id = kind_prefix c.kind ++ₛ ":" ++ₛ to_string r.next_id_seq in
    let (named, acyclic) = Inv-new r (new_entry c id r.next_generation) refl (_, refl) inv in
    elim (Bool-cases (leb r.limits.max_objects (length r.entries))) [
      | inl full ↦ rw full inv
      | inr room ↦ rw room (record { named = named; acyclic = acyclic })
    ]

-- The entry of a component takes a new edge, behind the test for cycles.
pub Inv-edge :
    (id s : String) (f : RegistryEntry → RegistryEntry) (r : Registry)
    → Adds s f
    → (member s (components r.entries) ≡ true → ¬ Chain (graph_of r.entries r.entries) id s)
    → Inv r
    → Inv (on_entry id f r)
Inv-edge id s f r adds open_ended inv =
    let es = on_first id f r.entries in
    let same = components-on_first id f r.entries (λ e. (adds e).0) in
    let kept = λ (x : String). ap (member x) same in
    let bound = λ (x y : String). is_bound-on_first id s f r.entries x y adds in
    record {
      named = IsNamed-on_first id f r.entries (λ e. (adds e).0) inv.named;
      acyclic = elim (Bool-cases (member s (components r.entries))) [
        | inl m ↦
            IsAcyclic-IsMore (graph_of r.entries r.entries) (graph_of es es) s id
              (λ x y edge. elim (Bool-cases (x ==ₛ s && id ==ₛ y)) [
                | inl at ↦ inr (ground (arith, at), ground (arith, at))
                | inr apart ↦ inl (
                    ground (
                      arith,
                      member-deps x y es,
                      member-deps x y r.entries,
                      edge,
                      kept x,
                      bound x y,
                      apart,
                    ))
              ])
              (open_ended m) inv.acyclic
        | inr alien ↦
            IsAcyclic-IsLess (graph_of r.entries r.entries) (graph_of es es)
              (λ x y edge. ground (
                arith,
                member-deps x y es,
                member-deps x y r.entries,
                edge,
                kept x,
                bound x y,
                alien,
              ))
              inv.acyclic
      ];
    }
