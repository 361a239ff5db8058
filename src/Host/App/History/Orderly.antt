-- ===== src/Host/App/History/Orderly.antt =====
-- Every history of a registry leaves its components in an order of start.
use bbt_framework.Prelude.{
  ℕ, ◌≡◌, ◌⊎◌, ◌↔◌, inl, inr, refl, sym, subst, Bool, true, false, not, ◌&&◌, List, [], ◌∷◌, none,
  some, String, arith, Bool-cases, Option-cases, ◌==◌,
}
use bbt_framework.Infra.{Infra, Result-cases}
use bbt_framework.Host.Registry.{
  Registry, RegistryEntry, component, service, app, same_kind, first_entry, new_registry,
  find_component, count_bindings, Limits, LifecycleFailure, record_failure,
}
use bbt_framework.Host.Registry.Borrow.{bind}
use bbt_framework.Host.Registry.Views.{ids_of_kind}
use bbt_framework.Host.App.Cycle.{graph_of, member, would_form_cycle}
use bbt_framework.Host.App.Cycle.Search.{would_form_cycle_iff}
use bbt_framework.Host.App.Edges.{components, member-deps}
use bbt_framework.Host.App.StartOrder.{component_start_order}
use bbt_framework.Host.App.StartOrder.Acyclic.{IsAcyclic}
use bbt_framework.Host.App.StartOrder.Topology.{IsOrdered}
use bbt_framework.Host.App.StartOrder.Order.{component_start_order-IsOrdered}
use bbt_framework.Host.App.Bind.{bind_edge, bind_found, BindRequest}
use bbt_framework.Host.App.History.{
  Change, creates, binds, unbinds, erases_edge, erases_edges_of, borrows, returns, begins_destroy,
  finishes_destroy, sets, begins_op, ends_op, sets_phase, begins_hook, settles_hook, fails, step,
  run, begin_op, end_op, set_phase, hook_begins, hook_settles,
}
use bbt_framework.Host.App.History.Names.{IsNamed, first_entry-component}
use bbt_framework.Host.App.History.Bindings.{
  erase_binding-Keeps, erase_subject_bindings-Keeps, release_borrow-Keeps, set_state-Keeps,
  begin_unbind-Keeps, acquire_borrow-Keeps, begin_destroy-Keeps, bind-Adds,
}
use bbt_framework.Host.App.History.Acyclic.{
  Inv, Inv-on_entry, Inv-finish_destroy, Inv-create_entry, Inv-edge,
}

entries-record_failure :
    (f : LifecycleFailure) (r : Registry) → (record_failure f r).entries ≡ r.entries
unfolding record_failure
entries-record_failure f r = elim r.failures [ [] ↦ ground arith | _ ∷ _ ↦ ground arith ]

module _ ⦃infra : Infra⦄ (allows : ℕ → ℕ → Bool) where
  Inv-bind_found :
      (q : BindRequest) (subj comp : RegistryEntry) (r : Registry)
      → first_entry q.subject.id r.entries ≡ some subj
      → Inv r
      → Inv (bind_found allows q subj comp r).0
  unfolding bind_found
  Inv-bind_found q subj comp r found inv =
      elim (Bool-cases
        (same_kind subj.kind component && would_form_cycle r.entries q.subject.id comp.id)) [
          | inl closes ↦ rw closes inv
          | inr stays ↦
              let edge =
                bind (count_bindings r.entries) r.limits.max_bindings subj q.subject.id
                  r.next_generation in
              let taken =
                Inv-edge comp.id q.subject.id (λ e. (edge e).0) r
                  (bind-Adds (count_bindings r.entries) r.limits.max_bindings subj q.subject.id
                    r.next_generation)
                  (λ m c. ground (
                    arith,
                    first_entry-component q.subject.id r.entries subj inv.named found m,
                    would_form_cycle_iff r.entries q.subject.id comp.id,
                    c,
                    stays,
                  ))
                  inv in
              elim (Result-cases (edge comp).1) [
                | inl (e, refused) ↦ rw stays (rw refused inv)
                | inr (_, bound) ↦
                    rw stays (rw bound (record { named = taken.named; acyclic = taken.acyclic }))
              ]
        ]

  -- A bind that gets as far as the component, and one that does not.
  bind_edge-bind_found :
      (q : BindRequest) (owner_id : String) (r : Registry) (subj comp : RegistryEntry)
      → first_entry q.subject.id r.entries ≡ some subj
      → find_component q.placement.scope owner_id q.component_type q.name r.entries ≡ some comp
      → ((bind_edge allows q owner_id r).0 ≡ r)
        ⊎ ((bind_edge allows q owner_id r).0 ≡ (bind_found allows q subj comp r).0)
  unfolding bind_edge
  bind_edge-bind_found q owner_id r subj comp found there =
      elim (Bool-cases (
        subj.generation == q.subject.generation
        && (not (same_kind subj.kind app)
            && not (same_kind subj.kind service && not (allows subj.object q.component_type))))) [
              | inl pass ↦ inr (ground (arith, found, there, pass))
              | inr stop ↦ inl (ground (arith, found, there, stop))
            ]

  bind_edge-refused :
      (q : BindRequest) (owner_id : String) (r : Registry)
      → (first_entry q.subject.id r.entries ≡ none)
        ⊎ (find_component q.placement.scope owner_id q.component_type q.name r.entries ≡ none)
      → (bind_edge allows q owner_id r).0 ≡ r
  unfolding bind_edge
  bind_edge-refused q owner_id r (inl missing) = ground (arith, missing)
  bind_edge-refused q owner_id r (inr missing) =
      elim (Option-cases (first_entry q.subject.id r.entries)) [
        | inl nothing ↦ ground (arith, nothing)
        | inr (subj, found) ↦ ground (arith, found, missing)
      ]

  Inv-bind_edge :
      (q : BindRequest) (owner_id : String) (r : Registry)
      → Inv r
      → Inv (bind_edge allows q owner_id r).0
  Inv-bind_edge q owner_id r inv =
      let kept = λ (p : (bind_edge allows q owner_id r).0 ≡ r). subst Inv (sym p) inv in
      elim (Option-cases (first_entry q.subject.id r.entries)) [
        | inl nothing ↦ kept (bind_edge-refused q owner_id r (inl nothing))
        | inr (subj, found) ↦
            elim (Option-cases
              (find_component q.placement.scope owner_id q.component_type q.name r.entries)) [
                | inl nothing ↦ kept (bind_edge-refused q owner_id r (inr nothing))
                | inr (comp, there) ↦
                    elim (bind_edge-bind_found q owner_id r subj comp found there) [
                      | inl same ↦ kept same
                      | inr same ↦ subst Inv (sym same) (Inv-bind_found q subj comp r found inv)
                    ]
              ]
      ]

  Inv-record_failure : (f : LifecycleFailure) (r : Registry) → Inv r → Inv (record_failure f r)
  Inv-record_failure f r inv =
      let same = sym (entries-record_failure f r) in
      record {
        named = subst IsNamed same inv.named;
        acyclic = subst (λ es. IsAcyclic (graph_of es es)) same inv.acyclic;
      }

  Inv-step : (c : Change) (r : Registry) → Inv r → Inv (step allows c r)
  unfolding step
  Inv-step (creates c) r inv = Inv-create_entry c r inv
  Inv-step (binds q owner_id) r inv = Inv-bind_edge q owner_id r inv
  Inv-step (unbinds id subject) r inv = Inv-on_entry id _ r (begin_unbind-Keeps subject) inv
  Inv-step (erases_edge id subject generation) r inv =
      Inv-on_entry id _ r (erase_binding-Keeps subject generation) inv
  Inv-step (erases_edges_of id subject) r inv =
      Inv-on_entry id _ r (erase_subject_bindings-Keeps subject) inv
  Inv-step (borrows id allow installing subject generation) r inv =
      Inv-on_entry id _ r (acquire_borrow-Keeps allow installing subject generation) inv
  Inv-step (returns id subject generation) r inv =
      Inv-on_entry id _ r (release_borrow-Keeps subject generation) inv
  Inv-step (begins_destroy id) r inv = Inv-on_entry id _ r begin_destroy-Keeps inv
  Inv-step (finishes_destroy id) r inv = Inv-finish_destroy id r inv
  Inv-step (sets id s error) r inv = Inv-on_entry id _ r (set_state-Keeps s error) inv
  Inv-step (begins_op id) r inv = Inv-on_entry id begin_op r (λ e. (refl, λ x m. m)) inv
  Inv-step (ends_op id) r inv = Inv-on_entry id end_op r (λ e. (refl, λ x m. m)) inv
  Inv-step (sets_phase id phase) r inv =
      Inv-on_entry id (set_phase phase) r (λ e. (refl, λ x m. m)) inv
  Inv-step (begins_hook id) r inv = Inv-on_entry id hook_begins r (λ e. (refl, λ x m. m)) inv
  Inv-step (settles_hook id) r inv = Inv-on_entry id hook_settles r (λ e. (refl, λ x m. m)) inv
  Inv-step (fails f) r inv = Inv-record_failure f r inv

  Inv-run : (r : Registry) (cs : List Change) → Inv r → Inv (run allows r cs)
  unfolding run
  Inv-run r [] inv = inv
  Inv-run r (c ∷ cs) inv = Inv-run (step allows c r) cs (Inv-step c r inv)

  Inv-new_registry : (limits : Limits) → Inv (new_registry limits)
  unfolding new_registry member ids_of_kind
  Inv-new_registry limits = record {
    named = tt;
    acyclic = λ x y m c. ground (arith, member-deps x y [], m);
  }

  -- In every history of a registry, whatever the order in which objects come, bind and unbind, borrow,
  -- change their state and go, and whatever sets of components the services allow,
  -- `ComponentStartOrderLocked` reports no cycle; its order has exactly the components, each of them
  -- once, and each behind all components that it depends on.
  pub start_order-IsOrdered :
      (limits : Limits) (changes : List Change)
      → let es = (run allows (new_registry limits) changes).entries in
        ((component_start_order es).cycle ≡ false)
        × IsOrdered (graph_of es es) [] (component_start_order es).order
        × ((x : String)
            → (member x (component_start_order es).order ≡ true)
              ↔ (member x (components es) ≡ true))
  start_order-IsOrdered limits changes =
      component_start_order-IsOrdered _
        (Inv-run (new_registry limits) changes (Inv-new_registry limits)).acyclic
