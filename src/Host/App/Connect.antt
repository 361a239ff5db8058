-- ===== src/Host/App/Connect.antt =====
-- framework/src/host/App.cc: `_BindComponentImpl`, `_UnbindComponentImpl` and
-- `_ApplyServiceBindings`. The own table of an object, which `_BindComponentEntry` and
-- `_UnbindComponentEntry` write, is left out.
pub mod Rollback
use bbt_framework.Prelude.{
  ℕ, Bool, true, false, not, List, [], ◌∷◌, ◌++◌, Option, none, some, String, ◌==◌, if◌then◌else◌,
}
use bbt_framework.Infra.{
  Infra, make_error, Result, ok, err, invalid_argument, not_found, internal_error,
}
use bbt_framework.Host.Registry.{
  Registry, RegistryEntry, ObjectKind, app, app_scope, first_entry, find_component, record_failure,
}
use bbt_framework.Host.Registry.Borrow.{begin_unbind, find_retiring, erase_binding}
use bbt_framework.Host.Registry.Observers.{Handle}
use bbt_framework.Host.App.Bind.{
  Placement, BindRequest, BindingEvent, validate_owner, bind_edge, on_entry,
}
use bbt_framework.Host.App.Control.{
  Outside, attached, detached, CoApp, in_registry, note, failure, record_fail,
}
use bbt_framework.Host.App.Stop.{wait_drained, edge_drained}

-- `ComponentBindingDecl`: a component of the application that a service binds as it is installed.
pub record ComponentBindingDecl : Type 0 where
  pub component_type : ℕ
  pub name : String

abbrev pub request_of : Handle → ComponentBindingDecl → BindRequest
request_of subject d = record {
  component_type = d.component_type;
  subject = subject;
  name = d.name;
  placement = record { scope = app_scope; owner = none };
}

-- `OnBindingChanged` of an object: what the registry is after it, and whether it threw.
abbrev pub OnBindingChanged : Type 0
OnBindingChanged = BindingEvent → Registry → Registry × Bool

module _ ⦃infra : Infra⦄ where
  -- `BeginUnbindLocked`, whose only error is `NotFound`; after it an edge that an earlier unbind left
  -- retiring is taken up again.
  unfoldable pub retire_edge : String → RegistryEntry → Registry → Registry × Result ℕ
  retire_edge subject comp r = elim (begin_unbind subject comp).1 [
    | ok generation ↦ (on_entry comp.id (λ e. (begin_unbind subject e).0) r, ok generation)
    | err e ↦ elim (find_retiring subject comp.bindings) [
      | some generation ↦ (r, ok generation)
      | none ↦ (r, err e)
    ]
  ]

  module _ (outside : Outside) (changed : OnBindingChanged) where
    unfoldable pub tell : String → ObjectKind → BindingEvent → CoApp → CoApp
    tell operation app event c = c
    tell operation _ event c =
        let (r, threw) = changed event c.registry in
        let told = record c { registry = r } in
        if threw
        then in_registry
            (record_failure (
              failure event.subject_id operation "binding_changed_hook" internal_error
                "OnBindingChanged threw"))
            told
        else told

    unfoldable pub bind_component :
        (ℕ → ℕ → Bool) → BindRequest → CoApp → CoApp × Result (Handle × ℕ)
    bind_component allows q c =
        if not q.subject.is_ours
        then (
          c,
          err (
              make_error invalid_argument
                "BindComponent: subject handle belongs to another Registry"),
        )
        else elim (validate_owner q.placement c.registry) [
          | err e ↦ (c, err e)
          | ok owner_id ↦
              let (r, result) = bind_edge allows q owner_id c.registry in
              elim result [
                | err e ↦ (record c { registry = r }, err e)
                | ok bound ↦ (
                  tell "bind" bound.subject_kind bound.event (record c { registry = r }),
                  ok (bound.component_handle, bound.generation),
                )
              ]
        ]

    -- The subject hears of it, unless it is gone by then.
    unfoldable pub tell_unbound : BindRequest → String → CoApp → CoApp
    tell_unbound q comp_id c = elim (first_entry q.subject.id c.registry.entries) [
      | none ↦ c
      | some subj ↦
          if subj.object == 0
          then c
          else tell "unbind" subj.kind
              (record {
                subject_id = q.subject.id;
                target_id = comp_id;
                generation = 0;
                bound = false;
                revision = 0;
              })
              c
    ]

    unfoldable pub finish_unbind : BindRequest → String → ℕ → CoApp → CoApp × Result (Unit {0})
    finish_unbind q comp_id generation c =
        let (drained, r) =
          wait_drained outside comp_id (edge_drained comp_id q.subject.id generation) c in
        elim r [
          | err e ↦ (
            in_registry (record_failure (failure comp_id "unbind" "borrow_drain" e.code e.message))
                drained,
            err e,
          )
          | ok _ ↦ (
            tell_unbound q comp_id
                (in_registry (on_entry comp_id (erase_binding q.subject.id generation)) drained),
            ok tt,
          )
        ]

    unfoldable pub unbind_component : BindRequest → CoApp → CoApp × Result (Unit {0})
    unbind_component q c =
        if not q.subject.is_ours
        then (
          c,
          err (
              make_error invalid_argument
                "UnbindComponent: subject handle belongs to another Registry"),
        )
        else elim (validate_owner q.placement c.registry) [
          | err e ↦ (c, err e)
          | ok owner_id ↦
              elim (find_component q.placement.scope owner_id q.component_type q.name
                c.registry.entries) [
                  | none ↦ (c, err (make_error not_found "UnbindComponent: component not found"))
                  | some comp ↦
                      let (r, retired) = retire_edge q.subject.id comp c.registry in
                      elim retired [
                        | err e ↦ (record c { registry = r }, err e)
                        | ok generation ↦
                            finish_unbind q comp.id generation (record c { registry = r })
                      ]
                ]
        ]

    -- The bindings that were made are undone in the order of their making, whatever comes of it.
    unfoldable pub undo : Handle → List ComponentBindingDecl → CoApp → CoApp
    undo subject [] c = c
    undo subject (d ∷ ds) c =
        undo subject ds
          (unbind_component (request_of subject d) (note (detached d.component_type d.name) c)).0

    module _ (allows : ℕ → ℕ → Bool) where
      -- The loop over the declarations; `done` has those that are bound.
      unfoldable pub apply_each :
          Handle
          → ℕ
          → List ComponentBindingDecl
          → List ComponentBindingDecl
          → CoApp
          → CoApp × Result (Unit {0})
      apply_each subject object done [] c = (c, ok tt)
      apply_each subject object done (d ∷ ds) c = elim (allows object d.component_type) [
        | false ↦ (
          undo subject done c,
          err (
              make_error invalid_argument
                "BindComponent: component type is not declared in this Service’s allowed set"),
        )
        | true ↦
            let (after, r) = bind_component allows (request_of subject d) c in
            elim r [
              | err e ↦ (undo subject done after, err e)
              | ok _ ↦
                  apply_each subject object (done ++ d ∷ []) ds
                    (note (attached d.component_type d.name) after)
            ]
      ]

      unfoldable pub apply_service_bindings :
          Handle → List ComponentBindingDecl → CoApp → CoApp × Result (Unit {0})
      apply_service_bindings subject ds c = elim (first_entry subject.id c.registry.entries) [
        | none ↦
            (c, err (make_error internal_error "_ApplyServiceBindings: service entry vanished"))
        | some e ↦ elim (e.object == 0) [
          | true ↦
              (c, err (make_error internal_error "_ApplyServiceBindings: service entry vanished"))
          | false ↦ apply_each subject e.object [] ds c
        ]
      ]
