-- ===== src/Host/App/History/Bindings.antt =====
-- No operation on an entry but a bind gives it a binding of a new subject.
use bbt_framework.Prelude.{
  ℕ, ◌≡◌, refl, Bool, true, ◌||◌, List, [], ◌∷◌, ◌++◌, Option, none, some, String, arith,
  Option-cases, inl, inr,
}
use bbt_framework.Ordered.Types.{◌==ₛ◌}
use bbt_framework.Infra.{Infra}
use bbt_framework.Host.Registry.{
  RegistryEntry, Binding, ObjectState, ObjectError, set_state, begin_destroy,
}
use bbt_framework.Host.Registry.Borrow.{
  retire, on_edge, borrow_more, borrow_less, erase_edge, erase_retiring, erase_binding,
  erase_subject_bindings, release_borrow, begin_unbind, acquire_borrow, bind, new_binding,
}
use bbt_framework.Host.App.Edges.{has_subject}
use bbt_framework.Host.App.History.Graph.{Keeps, Adds}

abbrev Fewer : List Binding → List Binding → Type 0
Fewer bs cs = (x : String) → has_subject x bs ≡ true → has_subject x cs ≡ true

retire-Fewer :
    (subject : String) (bs cs : List Binding) (generation : ℕ)
    → retire subject bs ≡ some (cs, generation)
    → Fewer cs bs
unfolding retire has_subject
retire-Fewer subject [] cs generation h x m = ground (arith, h)
retire-Fewer subject (b ∷ bs) cs generation h x m = elim (Option-cases (retire subject bs)) [
  | inl nothing ↦ ground (arith, nothing, h, m)
  | inr ((ds, n), found) ↦ ground (arith, found, h, m, retire-Fewer subject bs ds n found x)
]

on_edge-Fewer :
    (subject : String) (generation : ℕ) (f : Binding → Binding) (bs : List Binding)
    → ((b : Binding) → (f b).subject_id ≡ b.subject_id)
    → Fewer (on_edge subject generation f bs) bs
unfolding on_edge has_subject
on_edge-Fewer subject generation f [] same x m = m
on_edge-Fewer subject generation f (b ∷ bs) same x m =
    ground (arith, on_edge-Fewer subject generation f bs same x, same b, m)

erase_edge-Fewer :
    (subject : String) (generation : ℕ) (bs : List Binding)
    → Fewer (erase_edge subject generation bs) bs
unfolding erase_edge has_subject
erase_edge-Fewer subject generation [] x m = m
erase_edge-Fewer subject generation (b ∷ bs) x m =
    ground (arith, erase_edge-Fewer subject generation bs x, m)

erase_retiring-Fewer : (subject : String) (bs : List Binding) → Fewer (erase_retiring subject bs) bs
unfolding erase_retiring has_subject
erase_retiring-Fewer subject [] x m = m
erase_retiring-Fewer subject (b ∷ bs) x m = ground (arith, erase_retiring-Fewer subject bs x, m)

has_subject-append :
    (x s : String) (generation : ℕ) (bs : List Binding)
    → has_subject x (bs ++ new_binding s generation ∷ []) ≡ (has_subject x bs || s ==ₛ x)
unfolding has_subject
has_subject-append x s generation [] = ground arith
has_subject-append x s generation (b ∷ bs) = ground (arith, has_subject-append x s generation bs)

pub erase_binding-Keeps :
    (subject : String) (generation : ℕ) → Keeps (erase_binding subject generation)
unfolding erase_binding
erase_binding-Keeps subject generation e = (refl, erase_edge-Fewer subject generation e.bindings)

pub erase_subject_bindings-Keeps : (subject : String) → Keeps (erase_subject_bindings subject)
unfolding erase_subject_bindings
erase_subject_bindings-Keeps subject e = (refl, erase_retiring-Fewer subject e.bindings)

pub release_borrow-Keeps :
    (subject : String) (generation : ℕ) → Keeps (release_borrow subject generation)
unfolding release_borrow
release_borrow-Keeps subject generation e =
    (refl, on_edge-Fewer subject generation borrow_less e.bindings (λ b. refl))

pub set_state-Keeps : (s : ObjectState) (error : Option ObjectError) → Keeps (set_state s error)
unfolding set_state
set_state-Keeps s none e = (refl, λ x m. m)
set_state-Keeps s (some error) e = (refl, λ x m. m)

module _ ⦃infra : Infra⦄ where
  pub begin_unbind-Keeps : (subject : String) → Keeps (λ e. (begin_unbind subject e).0)
  unfolding begin_unbind
  begin_unbind-Keeps subject e = elim (Option-cases (retire subject e.bindings)) [
    | inl nothing ↦ ground (arith, nothing)
    | inr ((bs, generation), found) ↦
        ground (arith, found, retire-Fewer subject e.bindings bs generation found)
  ]

  pub acquire_borrow-Keeps :
      (allow installing : Bool) (subject : String) (generation : ℕ)
      → Keeps (λ e. (acquire_borrow allow installing subject generation e).0)
  unfolding acquire_borrow
  acquire_borrow-Keeps allow installing subject generation e = (
    ground arith,
    λ x. ground (arith, on_edge-Fewer subject generation borrow_more e.bindings (λ b. refl) x),
  )

  pub begin_destroy-Keeps : Keeps (λ e. (begin_destroy e).0)
  unfolding begin_destroy
  begin_destroy-Keeps e = (ground arith, λ x. ground arith)

  pub bind-Adds :
      (total most : ℕ) (subj : RegistryEntry) (s : String) (generation : ℕ)
      → Adds s (λ e. (bind total most subj s generation e).0)
  unfolding bind
  bind-Adds total most subj s generation e =
      (ground arith, λ x. ground (arith, has_subject-append x s generation e.bindings))
