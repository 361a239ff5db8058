-- ===== src/Host/App/Connect/Rollback.antt =====
-- What the declared bindings of a service leave (framework/src/host/App.cc).
use bbt_framework.Prelude.{
  ℕ, ◌≡◌, ◌⊎◌, some, inl, inr, refl, ap, ◌∙◌, Bool, true, false, not, List, [], ◌∷◌, ◌++◌, String,
  ◌==◌, arith, Bool-cases, Option-cases,
}
use bbt_framework.Infra.{Infra, Error, ok, err, Result-cases}
use bbt_framework.Host.Registry.{
  RegistryEntry, ObjectKind, app, service, actor, component, first_entry, find_component,
}
use bbt_framework.Host.Registry.Observers.{Handle}
use bbt_framework.Host.App.Bind.{BindRequest, BindingEvent, validate_owner, bind_edge}
use bbt_framework.Host.App.Control.{Outside, Event, attached, detached, CoApp, note}
use bbt_framework.Host.App.Control.Calls.{append_nil}
use bbt_framework.Host.App.Stages.Started.{append_assoc}
use bbt_framework.Host.App.Stop.{wait_drained, edge_drained}
use bbt_framework.Host.App.Stop.Ways.{HasNoObject}
use bbt_framework.Host.App.Uninstall.Answers.{Answered}
use bbt_framework.Host.App.Connect.{
  ComponentBindingDecl, request_of, OnBindingChanged, retire_edge, tell, bind_component,
  tell_unbound, finish_unbind, unbind_component, undo, apply_each, apply_service_bindings,
}

abbrev pub detaches : List ComponentBindingDecl → List Event
detaches [] = []
detaches (d ∷ ds) = detached d.component_type d.name ∷ detaches ds

module _ ⦃infra : Infra⦄ (outside : Outside) (changed : OnBindingChanged) where
  tell-events :
      (operation : String) (kind : ObjectKind) (event : BindingEvent) (c : CoApp)
      → (tell outside changed operation kind event c).events ≡ c.events
  unfolding tell
  tell-events operation app event c = refl
  tell-events operation service event c = ground arith
  tell-events operation actor event c = ground arith
  tell-events operation component event c = ground arith

  bind_component-events :
      (allows : ℕ → ℕ → Bool) (q : BindRequest) (c : CoApp)
      → (bind_component outside changed allows q c).0.events ≡ c.events
  unfolding bind_component
  bind_component-events allows q c = elim (Bool-cases (not q.subject.is_ours)) [
    | inl foreign ↦ ground (arith, foreign)
    | inr ours ↦ elim (Result-cases (validate_owner q.placement c.registry)) [
      | inl (e, p) ↦ ground (arith, ours, p)
      | inr (owner_id, p) ↦ elim (Result-cases (bind_edge allows q owner_id c.registry).1) [
        | inl (e, h) ↦ ground (arith, ours, p, h)
        | inr (b, h) ↦ ground (
          arith,
          ours,
          p,
          h,
          tell-events "bind" b.subject_kind b.event
              (record c { registry = (bind_edge allows q owner_id c.registry).0 }),
        )
      ]
    ]
  ]

  tell_unbound-events :
      (q : BindRequest) (comp_id : String) (c : CoApp)
      → (tell_unbound outside changed q comp_id c).events ≡ c.events
  unfolding tell_unbound
  tell_unbound-events q comp_id c =
      elim (Option-cases (first_entry q.subject.id c.registry.entries)) [
        | inl nothing ↦ rw (nothing, tell_unbound) refl
        | inr (subj, found) ↦ elim (Bool-cases (subj.object == 0)) [
          | inl no_object ↦ ground (arith, found, no_object)
          | inr object ↦ rw (found, tell_unbound) (rw object (tell-events _ _ _ _))
        ]
      ]

  finish_unbind-events :
      (q : BindRequest) (comp_id : String) (generation : ℕ) (c : CoApp)
      → (finish_unbind outside changed q comp_id generation c).0.events ≡ c.events
  unfolding finish_unbind
  finish_unbind-events q comp_id generation c =
      elim (Result-cases
        (wait_drained outside comp_id (edge_drained comp_id q.subject.id generation) c).1) [
          | inl (e, p) ↦ rw (p, finish_unbind) refl
          | inr (_, p) ↦ rw (p, finish_unbind) (tell_unbound-events q comp_id _)
        ]

  unbind_component-events :
      (q : BindRequest) (c : CoApp) → (unbind_component outside changed q c).0.events ≡ c.events
  unfolding unbind_component
  unbind_component-events q c = elim (Bool-cases (not q.subject.is_ours)) [
    | inl foreign ↦ rw (foreign, unbind_component) refl
    | inr ours ↦ elim (Result-cases (validate_owner q.placement c.registry)) [
      | inl (e, p) ↦ rw (ours, unbind_component) (rw (p, unbind_component) refl)
      | inr (owner_id, p) ↦
          elim (Option-cases (
            find_component q.placement.scope owner_id q.component_type q.name c.registry.entries)) [
              | inl nothing ↦
                  rw (ours, unbind_component) (rw (p, unbind_component) (rw nothing refl))
              | inr (comp, found) ↦
                  elim (Result-cases (retire_edge q.subject.id comp c.registry).1) [
                    | inl (e, h) ↦
                        rw (ours, unbind_component)
                          (rw (p, unbind_component) (rw found (rw h refl)))
                    | inr (generation, h) ↦
                        rw (ours, unbind_component)
                          (rw (p, unbind_component)
                            (rw found (rw h (finish_unbind-events q comp.id generation _))))
                  ]
            ]
    ]
  ]

  undo-events :
      (subject : Handle) (ds : List ComponentBindingDecl) (c : CoApp)
      → (undo outside changed subject ds c).events ≡ c.events ++ detaches ds
  unfolding undo
  undo-events subject [] c = append_nil c.events
  undo-events subject (d ∷ ds) c =
      let asked = note (detached d.component_type d.name) c in
      undo-events subject ds (unbind_component outside changed (request_of subject d) asked).0
      ∙ ap (λ es. es ++ detaches ds) (unbind_component-events (request_of subject d) asked)
      ∙ append_assoc c.events (detached d.component_type d.name ∷ []) (detaches ds)

  module _ (allows : ℕ → ℕ → Bool) where
    -- Why a declaration is not bound at the state `c`: the service does not allow the type, or the
    -- bind fails.
    abbrev pub IsUnbound : Handle → ℕ → ComponentBindingDecl → CoApp → Type 0
    IsUnbound subject object d c =
        (allows object d.component_type ≡ false)
        ⊎ ((e : Error) × ((bind_component outside changed allows (request_of subject d) c).1
              ≡ err e))

    abbrev pub after_bind : Handle → ComponentBindingDecl → CoApp → CoApp
    after_bind subject d c =
        note (attached d.component_type d.name)
          (bind_component outside changed allows (request_of subject d) c).0

    -- The ways of the declarations after those that are `done`, from the state `c` on, and whether
    -- all are bound: one after another is, up to the first that is not, and then those before it are
    -- undone in the order in which they were bound.
    pub data Applied (subject : Handle) (object : ℕ)
        : List ComponentBindingDecl
          → List ComponentBindingDecl
          → CoApp
          → List Event
          → Bool
          → Type 0 where
      all_bound :
          {done : List ComponentBindingDecl} {c : CoApp} → Applied subject object done [] c [] true
      undone :
          {done ds : List ComponentBindingDecl} {d : ComponentBindingDecl} {c : CoApp}
          → IsUnbound subject object d c
          → Applied subject object done (d ∷ ds) c (detaches done) false
      bound_one :
          {done ds : List ComponentBindingDecl} {d : ComponentBindingDecl} {c : CoApp}
          {es : List Event} {b : Bool} {r : Handle × ℕ}
          → allows object d.component_type ≡ true
          → (bind_component outside changed allows (request_of subject d) c).1 ≡ ok r
          → Applied subject object (done ++ d ∷ []) ds (after_bind subject d c) es b
          → Applied subject object done (d ∷ ds) c (attached d.component_type d.name ∷ es) b

    -- The ways of the declarations of a service, which may be gone or without an object.
    pub data Declared (subject : Handle) (ds : List ComponentBindingDecl) (c : CoApp)
        : List Event → Bool → Type 0 where
      vanished : HasNoObject subject.id c → Declared subject ds c [] false
      applied :
          {es : List Event} {b : Bool} (e : RegistryEntry)
          → first_entry subject.id c.registry.entries ≡ some e
          → (e.object == 0) ≡ false
          → Applied subject e.object [] ds c es b
          → Declared subject ds c es b

    undo_after :
        (subject : Handle) (done : List ComponentBindingDecl) (c after : CoApp)
        → after.events ≡ c.events
        → (undo outside changed subject done after).events ≡ c.events ++ detaches done
    undo_after subject done c after same =
        undo-events subject done after ∙ ap (λ es. es ++ detaches done) same

    apply_each-Applied :
        (subject : Handle) (object : ℕ) (done ds : List ComponentBindingDecl) (c : CoApp)
        → Answered
            (Applied subject object done ds c)
            c
            (apply_each outside changed allows subject object done ds c)
    unfolding apply_each
    apply_each-Applied subject object done [] c = record {
      events = [];
      noted = append_nil c.events;
      goes = all_bound;
    }
    apply_each-Applied subject object done (d ∷ ds) c =
        elim (Bool-cases (allows object d.component_type)) [
          | inr refused ↦
              rw (refused, apply_each)
                (record {
                  events = detaches done;
                  noted = undo_after subject done c c refl;
                  goes = undone (inl refused);
                })
          | inl allowed ↦
              let bound = bind_component outside changed allows (request_of subject d) c in
              let same = bind_component-events allows (request_of subject d) c in
              elim (Result-cases bound.1) [
                | inl (e, p) ↦
                    rw (allowed, apply_each)
                      (rw (p, apply_each)
                        (record {
                          events = detaches done;
                          noted = undo_after subject done c bound.0 same;
                          goes = undone (inr (e, p));
                        }))
                | inr (r, p) ↦
                    let rest =
                      apply_each-Applied subject object (done ++ d ∷ []) ds
                        (note (attached d.component_type d.name) bound.0) in
                    rw (allowed, apply_each)
                      (rw (p, apply_each)
                        (record {
                          events = attached d.component_type d.name ∷ rest.events;
                          noted =
                              rest.noted
                              ∙ ap
                                  (λ es.
                                    (es ++ attached d.component_type d.name ∷ []) ++ rest.events)
                                  same
                              ∙ append_assoc c.events (attached d.component_type d.name ∷ [])
                                  rest.events;
                          goes = bound_one allowed p rest.goes;
                        }))
              ]
        ]

    pub apply_service_bindings-Declared :
        (subject : Handle) (ds : List ComponentBindingDecl) (c : CoApp)
        → Answered
            (Declared subject ds c)
            c
            (apply_service_bindings outside changed allows subject ds c)
    unfolding apply_service_bindings
    apply_service_bindings-Declared subject ds c =
        elim (Option-cases (first_entry subject.id c.registry.entries)) [
          | inl nothing ↦
              rw (nothing, apply_service_bindings)
                (record { events = []; noted = append_nil c.events; goes = vanished (inl nothing) })
          | inr (e, found) ↦ elim (Bool-cases (e.object == 0)) [
            | inl no_object ↦
                rw (found, apply_service_bindings)
                  (rw (no_object, apply_service_bindings)
                    (record {
                      events = [];
                      noted = append_nil c.events;
                      goes = vanished (inr (e, found, no_object));
                    }))
            | inr object ↦
                let h = apply_each-Applied subject e.object [] ds c in
                rw (found, apply_service_bindings)
                  (rw (object, apply_service_bindings)
                    (record {
                      events = h.events;
                      noted = h.noted;
                      goes = applied e found object h.goes;
                    }))
          ]
        ]
