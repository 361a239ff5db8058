-- ===== src/Host/Registry.antt =====
-- framework/src/host/Registry.cc and internal/Registry.hpp: the registry of managed objects, its
-- entries and its index. Each operation that the source names `...Locked` is one function. Clocks,
-- waiters and condition variables are left out.
pub mod Index
pub mod Borrow
pub mod Counts
pub mod Drained
pub mod Observers
pub mod Views
pub mod Revoked
use bbt_framework.Prelude.{
  ℕ, zero, suc, ◌+◌, ◌-◌, ◌≡◌, refl, Bool, true, false, not, ◌&&◌, ◌||◌, List, [], ◌∷◌, ◌++◌,
  Option, none, some, String, ◌++ₛ◌, String_discrete, ℕ_discrete, Dict, lookup, emplace, length,
  get_elem?, is_yes, is_empty, leb, ltb, ◌==◌, to_string, add64, if◌then◌else◌,
}
use bbt_framework.Infra.{
  Infra, Error, ErrorCode, make_error, Result, ok, err, overloaded, not_found, invalid_argument,
  timed_out,
}
use bbt_framework.Ordered.Types.{◌==ₛ◌}

pub data ObjectState : Type 0 where
  created installing installed starting running paused stopping stopped : ObjectState
  install_failed failed stop_incomplete uninstalling uninstall_incomplete : ObjectState
  destroyed invalidated unknown : ObjectState

pub data ComponentScope : Type 0 where
  app_scope service_scope actor_scope : ComponentScope

pub data ObjectKind : Type 0 where
  app service actor component : ObjectKind

unfoldable pub ObjectState_discrete : Discrete ObjectState
ObjectState_discrete = hlevel

unfoldable pub ComponentScope_discrete : Discrete ComponentScope
ComponentScope_discrete = hlevel

unfoldable pub ObjectKind_discrete : Discrete ObjectKind
ObjectKind_discrete = hlevel

abbrev pub same_state : ObjectState → ObjectState → Bool
same_state a b = is_yes (ObjectState_discrete a b)

abbrev pub same_kind : ObjectKind → ObjectKind → Bool
same_kind a b = is_yes (ObjectKind_discrete a b)

abbrev pub same_scope : ComponentScope → ComponentScope → Bool
same_scope a b = is_yes (ComponentScope_discrete a b)

pub record Binding : Type 0 where
  pub subject_id : String
  pub generation : ℕ
  pub active : Bool
  pub retiring : Bool
  pub borrows : ℕ

pub record ObjectError : Type 0 where
  pub code : ErrorCode
  pub phase : String
  pub message : String

-- `object` and `object_type` are the identities of an object and of its C++ type.
pub record RegistryEntry : Type 0 where
  pub id : String
  pub generation : ℕ
  pub kind : ObjectKind
  pub type_name : String
  pub name : String
  pub scope : ComponentScope
  pub owner_id : String
  pub state : ObjectState
  pub last_error : Option ObjectError
  pub revision : ℕ
  pub object : ℕ
  pub object_type : ℕ
  pub bindings : List Binding
  pub component_borrows : ℕ
  pub exec_leases : ℕ
  pub hooks_in_flight : ℕ
  pub op_in_progress : Bool
  pub gate_closed : Bool
  pub destroy_phase : String

pub record LifecycleFailure : Type 0 where
  pub object_id : String
  pub generation : ℕ
  pub operation : String
  pub phase : String
  pub code : ErrorCode
  pub message : String

pub record Limits : Type 0 where
  pub max_objects : ℕ
  pub max_bindings : ℕ
  pub max_observers : ℕ

pub record Registry : Type 0 where
  pub limits : Limits
  pub entries : List RegistryEntry
  pub index : Dict String ℕ
  pub next_generation : ℕ
  pub next_id_seq : ℕ
  pub failures : List LifecycleFailure
  pub failures_dropped : ℕ

unfoldable pub new_registry : Limits → Registry
new_registry limits = record {
  limits = limits;
  entries = [];
  index = [];
  next_generation = 1;
  next_id_seq = 0;
  failures = [];
  failures_dropped = 0;
}

abbrev pub kind_prefix : ObjectKind → String
kind_prefix app = "app"
kind_prefix service = "service"
kind_prefix actor = "actor"
kind_prefix component = "component"

-- What a caller gives for a new entry.
pub record Creation : Type 0 where
  pub kind : ObjectKind
  pub type_name : String
  pub name : String
  pub scope : ComponentScope
  pub owner_id : String
  pub object_type : ℕ
  pub object : ℕ

abbrev pub new_entry : Creation → String → ℕ → RegistryEntry
new_entry c id generation = record {
  id = id;
  generation = generation;
  kind = c.kind;
  type_name = c.type_name;
  name = c.name;
  scope = c.scope;
  owner_id = c.owner_id;
  state = created;
  last_error = none;
  revision = 0;
  object = c.object;
  object_type = c.object_type;
  bindings = [];
  component_borrows = 0;
  exec_leases = 0;
  hooks_in_flight = 0;
  op_in_progress = false;
  gate_closed = false;
  destroy_phase = "";
}

-- `FindEntryLocked`: by the index.
unfoldable pub find_entry : String → Registry → Option RegistryEntry
find_entry id r = elim (lookup String_discrete id r.index) [
  | none ↦ none
  | some i ↦ get_elem? r.entries i
]

-- The reference: the first entry that bears the id.
unfoldable pub first_entry : String → List RegistryEntry → Option RegistryEntry
first_entry id [] = none
first_entry id (e ∷ es) = if e.id ==ₛ id then some e else first_entry id es

-- `FinishDestroyLocked` erases the first entry with the id and builds the index anew.
unfoldable pub erase_entry : String → List RegistryEntry → List RegistryEntry
erase_entry id [] = []
erase_entry id (e ∷ es) = let rest = erase_entry id es in if e.id ==ₛ id then es else e ∷ rest

unfoldable pub build_index : ℕ → List RegistryEntry → Dict String ℕ → Dict String ℕ
build_index i [] m = m
build_index i (e ∷ es) m = build_index (suc i) es (emplace String_discrete e.id i m)

unfoldable pub finish_destroy : String → Registry → Registry
finish_destroy id r =
    let es = erase_entry id r.entries in record r { entries = es; index = build_index 0 es [] }

-- Every operation on a present entry writes it through its reference; none changes its id.
unfoldable pub update_entry :
    ℕ → (RegistryEntry → RegistryEntry) → List RegistryEntry → List RegistryEntry
update_entry i f [] = []
update_entry zero f (e ∷ es) = record (f e) { id = e.id } ∷ es
update_entry (suc i) f (e ∷ es) = e ∷ update_entry i f es

unfoldable pub find_component :
    ComponentScope → String → ℕ → String → List RegistryEntry → Option RegistryEntry
find_component scope owner_id type name [] = none
find_component scope owner_id type name (e ∷ es) =
    let rest = find_component scope owner_id type name es in
    if not (same_kind e.kind component)
    then rest
    else if not (same_scope e.scope scope)
    then rest
    else if not (same_scope e.scope app_scope) && not (e.owner_id ==ₛ owner_id)
    then rest
    else if not (e.object_type == type)
    then rest
    else if not (e.name ==ₛ name)
    then rest
    else some e

unfoldable pub find_actor : String → String → List RegistryEntry → Option RegistryEntry
find_actor type key [] = none
find_actor type key (e ∷ es) =
    let rest = find_actor type key es in
    if not (same_kind e.kind actor)
    then rest
    else if e.type_name ==ₛ type && e.name ==ₛ key
    then some e
    else rest

unfoldable pub find_by_type_name : ObjectKind → String → List RegistryEntry → Option RegistryEntry
find_by_type_name kind type_name [] = none
find_by_type_name kind type_name (e ∷ es) =
    let rest = find_by_type_name kind type_name es in
    if not (same_kind e.kind kind) then rest else if e.type_name ==ₛ type_name then some e else rest

unfoldable pub count_bindings : List RegistryEntry → ℕ
count_bindings [] = 0
count_bindings (e ∷ es) = length e.bindings + count_bindings es

-- `SetStateLocked` without the snapshots for observers.
unfoldable pub set_state : ObjectState → Option ObjectError → RegistryEntry → RegistryEntry
set_state s none e = record e { state = s; revision = add64 e.revision 1 }
set_state s (some error) e = record e {
  state = s;
  revision = add64 e.revision 1;
  last_error = some error;
}

-- `RecordFailure`: at the limit the oldest failure makes room. With a limit of 0 the source calls
-- `pop_front` on an empty deque, which C++ leaves undefined; here nothing is dropped then.
unfoldable pub record_failure : LifecycleFailure → Registry → Registry
record_failure f r =
    let pushed : List LifecycleFailure → List LifecycleFailure = λ fs. fs ++ f ∷ [] in
    if leb r.limits.max_objects (length r.failures)
    then elim r.failures [
      | [] ↦ record r { failures = pushed []; failures_dropped = add64 r.failures_dropped 1 }
      | _ ∷ fs ↦ record r { failures = pushed fs; failures_dropped = add64 r.failures_dropped 1 }
    ]
    else record r { failures = pushed r.failures }

pub record CleanupInfo : Type 0 where
  pub object_id : String
  pub generation : ℕ
  pub phase : String
  pub pending_borrows : ℕ
  pub pending_tasks : ℕ
  pub code : ErrorCode

unfoldable pub is_pending : RegistryEntry → Bool
is_pending e =
    ltb 0 e.component_borrows
    || (ltb 0 e.exec_leases
        || (ltb 0 e.hooks_in_flight
            || (not (is_empty e.destroy_phase)
                || (same_state e.state stop_incomplete
                    || same_state e.state uninstall_incomplete))))

abbrev error_code : Option ObjectError → ErrorCode
error_code none = timed_out
error_code (some error) = error.code

unfoldable pub pending_cleanup : List RegistryEntry → List CleanupInfo
unfolding is_pending
pending_cleanup [] = []
pending_cleanup (e ∷ es) =
    let rest = pending_cleanup es in
    if not (is_pending e)
    then rest
    else record {
      object_id = e.id;
      generation = e.generation;
      phase = e.destroy_phase;
      pending_borrows = e.component_borrows;
      pending_tasks = add64 e.exec_leases e.hooks_in_flight;
      code = error_code e.last_error;
    }
      ∷ rest

module _ ⦃infra : Infra⦄ where
  -- `CreateEntryLocked`
  unfoldable pub create_entry : Creation → Registry → Registry × Result RegistryEntry
  create_entry c r =
      let id = kind_prefix c.kind ++ₛ ":" ++ₛ to_string r.next_id_seq in
      let e = new_entry c id r.next_generation in
      if leb r.limits.max_objects (length r.entries)
      then (r, err (make_error overloaded "registry: object limit reached"))
      else (
        record r {
          entries = r.entries ++ e ∷ [];
          index = emplace String_discrete id (length r.entries) r.index;
          next_generation = add64 r.next_generation 1;
          next_id_seq = add64 r.next_id_seq 1;
        },
        ok e,
      )

  -- `BeginDestroyLocked` on the entry that was found.
  unfoldable pub begin_destroy : RegistryEntry → RegistryEntry × Result (Unit {0})
  begin_destroy e =
      let bound : Bool = elim e.bindings [ [] ↦ false | _ ∷ _ ↦ true ] in
      if same_kind e.kind component && bound
      then (e, err (make_error overloaded "UninstallComponent: active bindings remain"))
      else if e.op_in_progress
      then (e, err (make_error overloaded "BeginDestroy: operation in progress"))
      else (record e { gate_closed = true; op_in_progress = true }, ok tt)
