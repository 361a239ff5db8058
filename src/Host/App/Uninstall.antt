-- ===== src/Host/App/Uninstall.antt =====
-- framework/src/host/App.cc: `_UninstallComponentImpl`, `_UninstallServiceImpl` and
-- `_UninstallActorTypeImpl`. The observers of an object that goes are in Host.Registry.Observers; the
-- table of the components that a service has bound is left out.
pub mod Answers
use bbt_framework.Prelude.{
  ℕ, Bool, true, false, not, ◌&&◌, ◌||◌, List, [], ◌∷◌, ◌++◌, Option, none, some, String, is_empty,
  if◌then◌else◌,
}
use bbt_framework.Infra.{Infra, Error, make_error, Result, ok, err, not_found, overloaded}
use bbt_framework.Ordered.Types.{◌==ₛ◌}
use bbt_framework.Host.Registry.{
  Registry, RegistryEntry, service, actor, component, uninstalling, uninstall_incomplete, same_kind,
  first_entry, find_component, find_by_type_name, begin_destroy, set_state,
}
use bbt_framework.Host.Registry.Borrow.{has_active, begin_unbind, erase_subject_bindings}
use bbt_framework.Host.Registry.Views.{ids_of_kind}
use bbt_framework.Host.App.Bind.{Placement, validate_owner, on_entry}
use bbt_framework.Host.App.History.{set_phase}
use bbt_framework.Host.App.Control.{Outside, CoApp, in_registry}
use bbt_framework.Host.App.Stop.{
  retiring_of, wait_edges, wait_drained, all_drained, abort_destroy, stop_and_remove, remove,
  end_phase,
}

-- Whether an instance of an actor type is there beside the entry of the type.
unfoldable pub has_instance : String → String → List RegistryEntry → Bool
has_instance id type [] = false
has_instance id type (e ∷ es) =
    (same_kind e.kind actor
      && (not (e.id ==ₛ id) && (e.type_name ==ₛ type && not (is_empty e.name))))
    || has_instance id type es

unfoldable pub erase_edges : String → List (String × ℕ) → Registry → Registry
erase_edges subject [] r = r
erase_edges subject ((id, _) ∷ edges) r =
    erase_edges subject edges (on_entry id (erase_subject_bindings subject) r)

module _ ⦃infra : Infra⦄ where
  -- The edges of a subject on one component: the active one, which is retired, before those that were
  -- retiring.
  abbrev pub collect : String → String → RegistryEntry → Registry → Registry × List (String × ℕ)
  collect subject id e r =
      let old = retiring_of subject id e.bindings in
      if has_active subject e.bindings
      then elim (begin_unbind subject e).1 [
        | ok generation ↦ (on_entry id (λ x. (begin_unbind subject x).0) r, (id, generation) ∷ old)
        | err _ ↦ (r, old)
      ]
      else (r, old)

  unfoldable pub collect_edges : String → List String → Registry → Registry × List (String × ℕ)
  collect_edges subject [] r = (r, [])
  collect_edges subject (id ∷ ids) r = elim (first_entry id r.entries) [
    | none ↦ collect_edges subject ids r
    | some e ↦
        let (sealed, edges) = collect subject id e r in
        let (last, more) = collect_edges subject ids sealed in (last, edges ++ more)
  ]

  module _ (outside : Outside) where
    -- The destruction begins, or is refused.
    unfoldable pub begin_uninstall : String → RegistryEntry → CoApp → CoApp × Result (Unit {0})
    begin_uninstall phase e c = elim (begin_destroy e).1 [
      | err error ↦ (c, err error)
      | ok _ ↦ (
        in_registry
            (λ r. outside.observed e.id uninstalling (
              on_entry e.id (λ x. set_state uninstalling none (set_phase phase (begin_destroy x).0))
                r))
            c,
        ok tt,
      )
    ]

    -- From the begin on, for a component.
    unfoldable pub close_component : String → CoApp → CoApp × Result (Unit {0})
    close_component id c =
        let (drained, r) = wait_drained outside id (all_drained id) c in
        elim r [
          | err e ↦ (
            abort_destroy outside id "uninstall" "borrow_drain" e uninstall_incomplete drained,
            err e,
          )
          | ok _ ↦
              stop_and_remove outside "uninstall" "uninstall: prior hook still in flight"
                uninstall_incomplete (λ reg. reg) id drained
        ]

    -- From the begin on, for a service: its edges are drained and erased before `OnStop`.
    unfoldable pub close_service : String → CoApp → CoApp × Result (Unit {0})
    close_service id c =
        let (sealed, edges) =
          collect_edges id (ids_of_kind component c.registry.entries) c.registry in
        let (drained, r) = wait_edges outside id edges (record c { registry = sealed }) in
        elim r [
          | err e ↦ (
            abort_destroy outside id "uninstall" "borrow_drain" e uninstall_incomplete drained,
            err e,
          )
          | ok _ ↦
              stop_and_remove outside "uninstall" "uninstall: prior hook still in flight"
                uninstall_incomplete (λ reg. reg) id (in_registry (erase_edges id edges) drained)
        ]

    abbrev pub and_then :
        (CoApp → CoApp × Result (Unit {0})) → CoApp × Result (Unit {0}) → CoApp × Result (Unit {0})
    and_then f (c, err e) = (c, err e)
    and_then f (c, ok _) = f c

    unfoldable pub uninstall_component : ℕ → String → Placement → CoApp → CoApp × Result (Unit {0})
    uninstall_component type name placement c = elim (validate_owner placement c.registry) [
      | err e ↦ (c, err e)
      | ok owner_id ↦ elim (find_component placement.scope owner_id type name c.registry.entries) [
        | none ↦ (c, err (make_error not_found "UninstallComponent: not found"))
        | some e ↦ and_then (close_component e.id) (begin_uninstall "uninstall" e c)
      ]
    ]

    unfoldable pub uninstall_service : String → CoApp → CoApp × Result (Unit {0})
    uninstall_service type_name c = elim (find_by_type_name service type_name c.registry.entries) [
      | none ↦ (c, err (make_error not_found "UninstallService: not found"))
      | some e ↦ and_then (close_service e.id) (begin_uninstall "uninstall" e c)
    ]

    unfoldable pub uninstall_actor_type : String → CoApp → CoApp × Result (Unit {0})
    uninstall_actor_type type c = elim (find_by_type_name actor type c.registry.entries) [
      | none ↦ (c, err (make_error not_found "UninstallActor: type not registered"))
      | some e ↦
          if has_instance e.id type c.registry.entries
          then (c, err (make_error overloaded "UninstallActor: live actor instances remain"))
          else and_then (λ begun. (remove outside end_phase e.id begun, ok tt))
              (begin_uninstall e.destroy_phase e c)
    ]
