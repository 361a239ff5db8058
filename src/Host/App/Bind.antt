-- ===== src/Host/App/Bind.antt =====
-- framework/src/host/App.cc, `_ValidateOwner` and the critical section of `_BindComponentImpl`.
-- `FindEntryLocked` is the scan for the first entry with the id, which the index stands for.
use bbt_framework.Prelude.{
  ℕ, Bool, true, not, ◌&&◌, List, [], ◌∷◌, Option, none, some, String, ◌==◌, add64, if◌then◌else◌,
}
use bbt_framework.Infra.{Infra, make_error, Result, ok, err, invalid_argument, not_found}
use bbt_framework.Ordered.Types.{◌==ₛ◌}
use bbt_framework.Host.Registry.{
  Registry, RegistryEntry, ObjectKind, ComponentScope, app, service, actor, component, app_scope,
  service_scope, actor_scope, same_kind, first_entry, find_component, count_bindings,
}
use bbt_framework.Host.Registry.Borrow.{bind}
use bbt_framework.Host.Registry.Observers.{Handle}
use bbt_framework.Host.App.Cycle.{would_form_cycle}

-- `ComponentOptions`: where a component stands.
pub record Placement : Type 0 where
  pub scope : ComponentScope
  pub owner : Option Handle

-- The arguments of a bind or an unbind.
pub record BindRequest : Type 0 where
  pub component_type : ℕ
  pub subject : Handle
  pub name : String
  pub placement : Placement

pub record BindingEvent : Type 0 where
  pub subject_id : String
  pub target_id : String
  pub generation : ℕ
  pub bound : Bool
  pub revision : ℕ

-- What the critical section hands on; the subject's own table of components, which
-- `_BindComponentEntry` writes, takes the handle and the generation.
pub record Bound : Type 0 where
  pub component_handle : Handle
  pub generation : ℕ
  pub subject_object : ℕ
  pub subject_kind : ObjectKind
  pub event : BindingEvent

-- An entry is written through its pointer; none of the operations changes its id.
unfoldable pub on_first :
    String → (RegistryEntry → RegistryEntry) → List RegistryEntry → List RegistryEntry
on_first id f [] = []
on_first id f (e ∷ es) =
    let rest = on_first id f es in if e.id ==ₛ id then record (f e) { id = e.id } ∷ es else e ∷ rest

abbrev pub on_entry : String → (RegistryEntry → RegistryEntry) → Registry → Registry
on_entry id f r = record r { entries = on_first id f r.entries }

-- `MakeHandleLocked`
abbrev pub make_handle : RegistryEntry → Handle
make_handle e = record { id = e.id; generation = e.generation; is_ours = true }

module _ ⦃infra : Infra⦄ where
  unfoldable pub validate_owner : Placement → Registry → Result String
  validate_owner placement r = elim placement.scope [
    | app_scope ↦ elim placement.owner [
      | some _ ↦ err (
          make_error invalid_argument
            "ComponentOptions: App scope does not allow an explicit owner")
      | none ↦ ok ""
    ]
    | _ ↦ elim placement.owner [
      | none ↦ err (
          make_error invalid_argument
            "ComponentOptions: Service/Actor scope requires an explicit owner")
      | some owner ↦
          if not owner.is_ours
          then err (
              make_error invalid_argument
                "ComponentOptions: owner handle belongs to another Registry")
          else elim (first_entry owner.id r.entries) [
            | none ↦ err (
                make_error not_found
                  "ComponentOptions: owner is not registered or its generation changed")
            | some e ↦
                if not (e.generation == owner.generation)
                then err (
                    make_error not_found
                      "ComponentOptions: owner is not registered or its generation changed")
                else elim placement.scope [
                  | service_scope ↦
                      if not (same_kind e.kind service)
                      then err (
                          make_error invalid_argument
                            "ComponentOptions: Service scope owner must be a Service")
                      else ok owner.id
                  | actor_scope ↦
                      if not (same_kind e.kind actor)
                      then err (
                          make_error invalid_argument
                            "ComponentOptions: Actor scope owner must be an Actor")
                      else ok owner.id
                  | app_scope ↦ ok owner.id
                ]
          ]
    ]
  ]

  -- `allows` is `_AllowsComponent` of an object for a component type.
  module _ (allows : ℕ → ℕ → Bool) where
    unfoldable pub bind_found :
        BindRequest → RegistryEntry → RegistryEntry → Registry → Registry × Result Bound
    unfolding would_form_cycle
    bind_found q subj comp r =
        let edge =
          bind (count_bindings r.entries) r.limits.max_bindings subj q.subject.id
            r.next_generation in
        if same_kind subj.kind component && would_form_cycle r.entries q.subject.id comp.id
        then (r, err (make_error invalid_argument "BindComponent: dependency would form a cycle"))
        else elim (edge comp).1 [
          | err e ↦ (r, err e)
          | ok _ ↦ (
            record (on_entry comp.id (λ e. (edge e).0) r) {
              next_generation = add64 r.next_generation 1;
            },
            ok (record {
              component_handle = make_handle comp;
              generation = r.next_generation;
              subject_object = subj.object;
              subject_kind = subj.kind;
              event = record {
                subject_id = q.subject.id;
                target_id = comp.id;
                generation = comp.generation;
                bound = true;
                revision = comp.revision;
              };
            }),
          )
        ]

    unfoldable pub bind_edge : BindRequest → String → Registry → Registry × Result Bound
    unfolding bind_found
    bind_edge q owner_id r = elim (first_entry q.subject.id r.entries) [
      | none ↦ (r, err (make_error not_found "BindComponent: subject stale"))
      | some subj ↦
          if not (subj.generation == q.subject.generation)
          then (r, err (make_error not_found "BindComponent: subject stale"))
          else if same_kind subj.kind app
          then (
            r,
            err (make_error invalid_argument "BindComponent: subject cannot be an App handle"),
          )
          else if same_kind subj.kind service && not (allows subj.object q.component_type)
          then (
            r,
            err (
                make_error invalid_argument
                  "BindComponent: component type is not declared in this Service’s allowed set"),
          )
          else elim (find_component q.placement.scope owner_id q.component_type q.name r.entries) [
            | none ↦ (r, err (make_error not_found "BindComponent: component not found"))
            | some comp ↦ bind_found q subj comp r
          ]
    ]
