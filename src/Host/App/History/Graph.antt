-- ===== src/Host/App/History/Graph.antt =====
-- What the changes of a registry do to the dependencies of its components.
use bbt_framework.Prelude.{◌≡◌, refl, Bool, true, ◌||◌, ◌&&◌, List, [], ◌∷◌, ◌++◌, String, arith}
use bbt_framework.Ordered.Types.{◌==ₛ◌}
use bbt_framework.Host.Registry.{RegistryEntry, component, same_kind, erase_entry}
use bbt_framework.Host.Registry.Views.{ids_of_kind}
use bbt_framework.Host.App.Cycle.{graph_of, deps, member}
use bbt_framework.Host.App.Edges.{components, has_subject, is_bound}
use bbt_framework.Host.App.Bind.{on_first}

abbrev pub edge : List RegistryEntry → String → String → Bool
edge es x y = member y (deps (graph_of es es) x)

-- A change of an entry that keeps its kind and gives it no binding of a new subject.
abbrev pub Keeps : (RegistryEntry → RegistryEntry) → Type 0
Keeps f =
    (e : RegistryEntry)
    → ((f e).kind ≡ e.kind)
      × ((x : String) → has_subject x (f e).bindings ≡ true → has_subject x e.bindings ≡ true)

-- A change of an entry that may give it a binding of this subject.
abbrev pub Adds : String → (RegistryEntry → RegistryEntry) → Type 0
Adds s f =
    (e : RegistryEntry)
    → ((f e).kind ≡ e.kind)
      × ((x : String)
          → has_subject x (f e).bindings ≡ true
          → (x ==ₛ s || has_subject x e.bindings) ≡ true)

pub components-on_first :
    (id : String) (f : RegistryEntry → RegistryEntry) (es : List RegistryEntry)
    → ((e : RegistryEntry) → (f e).kind ≡ e.kind)
    → components (on_first id f es) ≡ components es
unfolding ids_of_kind on_first
components-on_first id f [] same = refl
components-on_first id f (e ∷ es) same = ground (arith, same e, components-on_first id f es same)

pub is_bound-on_first :
    (id s : String) (f : RegistryEntry → RegistryEntry) (es : List RegistryEntry) (x y : String)
    → Adds s f
    → is_bound x y (on_first id f es) ≡ true
    → (is_bound x y es || (x ==ₛ s && id ==ₛ y)) ≡ true
unfolding is_bound on_first
is_bound-on_first id s f [] x y adds h = ground (arith, h)
is_bound-on_first id s f (e ∷ es) x y adds h =
    ground (arith, (adds e).0, (adds e).1 x, is_bound-on_first id s f es x y adds, h)

pub is_bound-erase_entry :
    (id x y : String) (es : List RegistryEntry)
    → is_bound x y (erase_entry id es) ≡ true
    → is_bound x y es ≡ true
unfolding is_bound erase_entry
is_bound-erase_entry id x y [] h = h
is_bound-erase_entry id x y (e ∷ es) h = ground (arith, is_bound-erase_entry id x y es, h)

pub components-erase_entry :
    (id x : String) (es : List RegistryEntry)
    → member x (components (erase_entry id es)) ≡ true
    → member x (components es) ≡ true
unfolding ids_of_kind erase_entry member
components-erase_entry id x [] h = h
components-erase_entry id x (e ∷ es) h = ground (arith, components-erase_entry id x es, h)

pub is_bound-on_first-Keeps :
    (id : String) (f : RegistryEntry → RegistryEntry) (es : List RegistryEntry) (x y : String)
    → Keeps f
    → is_bound x y (on_first id f es) ≡ true
    → is_bound x y es ≡ true
unfolding is_bound on_first
is_bound-on_first-Keeps id f [] x y keeps h = h
is_bound-on_first-Keeps id f (e ∷ es) x y keeps h =
    ground (arith, (keeps e).0, (keeps e).1 x, is_bound-on_first-Keeps id f es x y keeps, h)

-- A last entry without bindings adds nothing.
pub is_bound-snoc :
    (x y : String) (es : List RegistryEntry) (e : RegistryEntry)
    → e.bindings ≡ []
    → is_bound x y (es ++ e ∷ []) ≡ is_bound x y es
unfolding is_bound has_subject
is_bound-snoc x y [] e none_bound = ground (arith, none_bound)
is_bound-snoc x y (z ∷ es) e none_bound = ground (arith, is_bound-snoc x y es e none_bound)

pub components-snoc :
    (x : String) (es : List RegistryEntry) (e : RegistryEntry)
    → member x (components (es ++ e ∷ []))
      ≡ (member x (components es) || (same_kind e.kind component && e.id ==ₛ x))
unfolding ids_of_kind member
components-snoc x [] e = ground arith
components-snoc x (z ∷ es) e = ground (arith, components-snoc x es e)
