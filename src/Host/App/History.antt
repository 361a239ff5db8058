-- ===== src/Host/App/History.antt =====
-- The histories of a registry under the control plane (framework/src/host/App.cc): the critical
-- sections of all its operations, in any order that the callers give them.
pub mod Graph
pub mod Chains
pub mod Bindings
pub mod Names
pub mod Acyclic
pub mod Orderly
use bbt_framework.Prelude.{
  ℕ, Bool, true, false, List, [], ◌∷◌, Option, none, some, String, add64, ltb, ◌-◌, if◌then◌else◌,
}
use bbt_framework.Infra.{Infra}
use bbt_framework.Host.Registry.{
  Registry, RegistryEntry, Creation, Limits, ObjectState, ObjectError, LifecycleFailure,
  new_registry, create_entry, begin_destroy, finish_destroy, set_state, record_failure,
}
use bbt_framework.Host.Registry.Borrow.{
  begin_unbind, erase_binding, erase_subject_bindings, acquire_borrow, release_borrow,
}
use bbt_framework.Host.App.Bind.{BindRequest, bind_edge, on_entry}

-- `BeginOpLocked`, where no operation is in progress, and `EndOpLocked`
abbrev pub begin_op : RegistryEntry → RegistryEntry
begin_op e = record e { op_in_progress = true }

abbrev pub end_op : RegistryEntry → RegistryEntry
end_op e = record e { op_in_progress = false }

abbrev pub set_phase : String → RegistryEntry → RegistryEntry
set_phase phase e = record e { destroy_phase = phase }

-- `++e->hooks_in_flight`, and the entry's part of `NoteHookSettled`
abbrev pub hook_begins : RegistryEntry → RegistryEntry
hook_begins e = record e { hooks_in_flight = add64 e.hooks_in_flight 1 }

abbrev pub hook_settles : RegistryEntry → RegistryEntry
hook_settles e = record e {
  hooks_in_flight = if ltb 0 e.hooks_in_flight then e.hooks_in_flight - 1 else e.hooks_in_flight;
}

pub data Change : Type 0 where
  creates : Creation → Change
  binds : BindRequest → String → Change
  unbinds : String → String → Change
  erases_edge : String → String → ℕ → Change
  erases_edges_of : String → String → Change
  borrows : String → Bool → Bool → String → ℕ → Change
  returns : String → String → ℕ → Change
  begins_destroy : String → Change
  finishes_destroy : String → Change
  sets : String → ObjectState → Option ObjectError → Change
  begins_op : String → Change
  ends_op : String → Change
  sets_phase : String → String → Change
  begins_hook : String → Change
  settles_hook : String → Change
  fails : LifecycleFailure → Change

module _ ⦃infra : Infra⦄ (allows : ℕ → ℕ → Bool) where
  unfoldable pub step : Change → Registry → Registry
  step (creates c) r = (create_entry c r).0
  step (binds q owner_id) r = (bind_edge allows q owner_id r).0
  step (unbinds id subject) r = on_entry id (λ e. (begin_unbind subject e).0) r
  step (erases_edge id subject generation) r = on_entry id (erase_binding subject generation) r
  step (erases_edges_of id subject) r = on_entry id (erase_subject_bindings subject) r
  step (borrows id allow installing subject generation) r =
      on_entry id (λ e. (acquire_borrow allow installing subject generation e).0) r
  step (returns id subject generation) r = on_entry id (release_borrow subject generation) r
  step (begins_destroy id) r = on_entry id (λ e. (begin_destroy e).0) r
  step (finishes_destroy id) r = finish_destroy id r
  step (sets id s error) r = on_entry id (set_state s error) r
  step (begins_op id) r = on_entry id begin_op r
  step (ends_op id) r = on_entry id end_op r
  step (sets_phase id phase) r = on_entry id (set_phase phase) r
  step (begins_hook id) r = on_entry id hook_begins r
  step (settles_hook id) r = on_entry id hook_settles r
  step (fails f) r = record_failure f r

  unfoldable pub run : Registry → List Change → Registry
  unfolding step
  run r [] = r
  run r (c ∷ cs) = run (step c r) cs
