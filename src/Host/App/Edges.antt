-- ===== src/Host/App/Edges.antt =====
-- The map `deps` of framework/src/host/App.cc and framework/src/host/Registry.cc: whom it has as a
-- key, and which edges the entries give.
use bbt_framework.Prelude.{
  ◌≡◌, refl, Bool, true, false, ◌||◌, ◌&&◌, List, [], ◌∷◌, ◌++◌, none, some, String,
  String_discrete, lookup, if◌then◌else◌, arith,
}
use bbt_framework.Ordered.Types.{◌==ₛ◌}
use bbt_framework.Host.Registry.{RegistryEntry, Binding, component, same_kind}
use bbt_framework.Host.Registry.Views.{ids_of_kind}
use bbt_framework.Host.App.Cycle.{Graph, graph_of, deps, deps_in, bound_by, member}

abbrev pub has_key : String → Graph → Bool
has_key x g = elim (lookup String_discrete x g) [ none ↦ false | some _ ↦ true ]

abbrev pub components : List RegistryEntry → List String
components es = ids_of_kind component es

pub has_key-graph_of :
    (x : String) (all es : List RegistryEntry)
    → has_key x (graph_of all es) ≡ member x (components es)
unfolding graph_of member ids_of_kind lookup
has_key-graph_of x all [] = refl
has_key-graph_of x all (e ∷ es) = ground (arith, has_key-graph_of x all es)

pub deps-graph_of :
    (x : String) (all es : List RegistryEntry)
    → deps (graph_of all es) x ≡ (if member x (components es) then deps_in x all else [])
unfolding graph_of member ids_of_kind lookup
deps-graph_of x all [] = refl
deps-graph_of x all (e ∷ es) = ground (arith, deps-graph_of x all es)

pub member-append :
    (x : String) (xs ys : List String) → member x (xs ++ ys) ≡ (member x xs || member x ys)
unfolding member
member-append x [] ys = refl
member-append x (z ∷ xs) ys = ground (arith, member-append x xs ys)

-- Whether some binding is of this subject.
unfoldable pub has_subject : String → List Binding → Bool
has_subject x [] = false
has_subject x (b ∷ bs) = b.subject_id ==ₛ x || has_subject x bs

-- Whether a component with this id has a binding of the subject.
unfoldable pub is_bound : String → String → List RegistryEntry → Bool
unfolding has_subject
is_bound x y [] = false
is_bound x y (e ∷ es) =
    (same_kind e.kind component && (e.id ==ₛ y && has_subject x e.bindings)) || is_bound x y es

member-bound_by :
    (x y id : String) (bs : List Binding)
    → member y (bound_by x id bs) ≡ (id ==ₛ y && has_subject x bs)
unfolding member bound_by has_subject
member-bound_by x y id [] = ground arith
member-bound_by x y id (b ∷ bs) = ground (arith, member-bound_by x y id bs)

member-deps_in :
    (x y : String) (es : List RegistryEntry) → member y (deps_in x es) ≡ is_bound x y es
unfolding member deps_in is_bound
member-deps_in x y [] = refl
member-deps_in x y (e ∷ es) = ground (
  arith,
  member-deps_in x y es,
  member-bound_by x y e.id e.bindings,
  member-append y (bound_by x e.id e.bindings) (deps_in x es),
)

-- The edges of the map.
pub member-deps :
    (x y : String) (es : List RegistryEntry)
    → member y (deps (graph_of es es) x) ≡ (member x (components es) && is_bound x y es)
unfolding member
member-deps x y es = ground (arith, deps-graph_of x es es, member-deps_in x y es)

pub is_bound-components :
    (x y : String) (es : List RegistryEntry)
    → is_bound x y es ≡ true
    → member y (components es) ≡ true
unfolding is_bound member ids_of_kind
is_bound-components x y [] h = h
is_bound-components x y (e ∷ es) h = ground (arith, is_bound-components x y es, h)
