-- ===== src/Host/Registry/Borrow.antt =====
-- Bindings of a component and borrows of it (Registry.cc, `BindLocked` to
-- `EraseSubjectBindingsLocked`, and `BorrowImpl`). Each function takes the component's entry and
-- gives it back changed.
use bbt_framework.Prelude.{
  ℕ, ◌-◌, Bool, true, false, not, ◌&&◌, ◌||◌, List, [], ◌∷◌, ◌++◌, Option, none, some, String, leb,
  ltb, ◌==◌, add64, if◌then◌else◌,
}
use bbt_framework.Infra.{
  Infra, ErrorCode, make_error, Result, ok, err, invalid_argument, closed, overloaded, not_found,
}
use bbt_framework.Ordered.Types.{◌==ₛ◌}
use bbt_framework.Host.Registry.{
  Binding, RegistryEntry, ObjectState, created, installing, installed, starting, running, paused,
  stopping, stopped, stop_incomplete, uninstalling, uninstall_incomplete, destroyed, invalidated,
  component, same_state, same_kind,
}

-- Whether an edge is the one of this subject and generation.
abbrev pub is_edge : String → ℕ → Binding → Bool
is_edge subject generation b = b.subject_id ==ₛ subject && b.generation == generation

-- A subject that is being closed takes no new edge.
abbrev pub is_closing : RegistryEntry → Bool
is_closing e =
    e.gate_closed
    || (e.op_in_progress
        || (same_state e.state stopping
            || (same_state e.state stopped
                || (same_state e.state uninstalling
                    || (same_state e.state destroyed
                        || (same_state e.state invalidated
                            || (same_state e.state stop_incomplete
                                || same_state e.state uninstall_incomplete)))))))

unfoldable pub has_active : String → List Binding → Bool
has_active subject [] = false
has_active subject (b ∷ bs) = b.subject_id ==ₛ subject && not b.retiring || has_active subject bs

abbrev pub new_binding : String → ℕ → Binding
new_binding subject generation = record {
  subject_id = subject;
  generation = generation;
  active = true;
  retiring = false;
  borrows = 0;
}

-- The first edge of the subject that is not retiring, with the edge retired.
unfoldable pub retire : String → List Binding → Option (List Binding × ℕ)
retire subject [] = none
retire subject (b ∷ bs) =
    let rest = retire subject bs in
    if not (b.subject_id ==ₛ subject) || b.retiring
    then elim rest [ none ↦ none | some (bs', generation) ↦ some (b ∷ bs', generation) ]
    else some (record b { active = false; retiring = true } ∷ bs, b.generation)

unfoldable pub find_edge : String → ℕ → List Binding → Option Binding
find_edge subject generation [] = none
find_edge subject generation (b ∷ bs) =
    if is_edge subject generation b then some b else find_edge subject generation bs

-- The first edge of the subject and generation, changed.
unfoldable pub on_edge : String → ℕ → (Binding → Binding) → List Binding → List Binding
on_edge subject generation f [] = []
on_edge subject generation f (b ∷ bs) =
    let rest = on_edge subject generation f bs in
    if is_edge subject generation b then f b ∷ bs else b ∷ rest

abbrev pub borrow_more : Binding → Binding
borrow_more b = record b { borrows = add64 b.borrows 1 }

abbrev pub borrow_less : Binding → Binding
borrow_less b = record b { borrows = if ltb 0 b.borrows then b.borrows - 1 else b.borrows }

-- `ReleaseBorrow` on the component's entry.
unfoldable pub release_borrow : String → ℕ → RegistryEntry → RegistryEntry
release_borrow subject generation e = record e {
  component_borrows =
      if ltb 0 e.component_borrows then e.component_borrows - 1 else e.component_borrows;
  bindings = on_edge subject generation borrow_less e.bindings;
}

unfoldable pub find_retiring : String → List Binding → Option ℕ
find_retiring subject [] = none
find_retiring subject (b ∷ bs) =
    if b.subject_id ==ₛ subject && b.retiring then some b.generation else find_retiring subject bs

unfoldable pub erase_edge : String → ℕ → List Binding → List Binding
erase_edge subject generation [] = []
erase_edge subject generation (b ∷ bs) =
    let rest = erase_edge subject generation bs in
    if is_edge subject generation b && b.retiring then bs else b ∷ rest

-- `EraseBindingLocked`
unfoldable pub erase_binding : String → ℕ → RegistryEntry → RegistryEntry
erase_binding subject generation e = record e {
  bindings = erase_edge subject generation e.bindings;
}

unfoldable pub erase_retiring : String → List Binding → List Binding
erase_retiring subject [] = []
erase_retiring subject (b ∷ bs) =
    let rest = erase_retiring subject bs in
    if b.subject_id ==ₛ subject && b.retiring then rest else b ∷ rest

-- `EraseSubjectBindingsLocked`
unfoldable pub erase_subject_bindings : String → RegistryEntry → RegistryEntry
erase_subject_bindings subject e = record e { bindings = erase_retiring subject e.bindings }

-- The conditions that the two waits of `_WaitBorrows` watch.
unfoldable pub borrows_drained : RegistryEntry → Bool
borrows_drained e = e.component_borrows == 0

unfoldable pub binding_drained : String → ℕ → RegistryEntry → Bool
binding_drained subject generation e = elim (find_edge subject generation e.bindings) [
  | none ↦ true
  | some b ↦ b.borrows == 0
]

abbrev pub borrowable : Bool → ObjectState → Bool
borrowable installing_borrow s = same_state s running || installing_borrow && same_state s installed

abbrev pub borrow_refusal : ObjectState → ErrorCode
borrow_refusal installing = overloaded
borrow_refusal starting = overloaded
borrow_refusal paused = overloaded
borrow_refusal created = overloaded
borrow_refusal installed = overloaded
borrow_refusal _ = closed

-- A lease: the subject and the generation of its binding.
abbrev pub Lease : Type 0
Lease = String × ℕ

-- The first edge with this generation, of whatever subject (`BorrowImpl`).
unfoldable pub subject_of : ℕ → List Binding → Option String
subject_of generation [] = none
subject_of generation (b ∷ bs) =
    if b.generation == generation then some b.subject_id else subject_of generation bs

module _ ⦃infra : Infra⦄ where
  -- `BindLocked`; `total` is `CountBindingsLocked`, and `generation` the next generation, which a
  -- success takes.
  unfoldable pub bind :
      ℕ → ℕ → RegistryEntry → String → ℕ → RegistryEntry → RegistryEntry × Result (Unit {0})
  bind total max_bindings subject_entry subject generation e =
      if not (same_kind e.kind component)
      then (e, err (make_error invalid_argument "BindComponent: target is not a component"))
      else if e.gate_closed
      then (e, err (make_error closed "BindComponent: component gate closed"))
      else if is_closing subject_entry
      then (e, err (make_error closed "BindComponent: subject is closing"))
      else if leb max_bindings total
      then (e, err (make_error overloaded "BindComponent: binding limit reached"))
      else if has_active subject e.bindings
      then (e, err (make_error invalid_argument "BindComponent: duplicate binding"))
      else (record e { bindings = e.bindings ++ new_binding subject generation ∷ [] }, ok tt)

  -- `BeginUnbindLocked`
  unfoldable pub begin_unbind : String → RegistryEntry → RegistryEntry × Result ℕ
  begin_unbind subject e = elim (retire subject e.bindings) [
    | none ↦ (e, err (make_error not_found "UnbindComponent: binding not found"))
    | some (bs, generation) ↦ (record e { bindings = bs }, ok generation)
  ]

  -- `AcquireBorrowLocked`; `subject_installing` says that the subject's entry is there and in the
  -- state `Installing`.
  unfoldable pub acquire_borrow :
      Bool → Bool → String → ℕ → RegistryEntry → RegistryEntry × Result Lease
  acquire_borrow allow_installing_borrow subject_installing subject generation e =
      let invalidated_edge = make_error closed "Borrow: binding invalidated" in
      if e.gate_closed
      then (e, err (make_error closed "Borrow: component gate closed"))
      else if not (borrowable (allow_installing_borrow || subject_installing) e.state)
      then (
        e,
        err (
            make_error (borrow_refusal e.state)
              "Borrow: component not borrowable in current state"),
      )
      else elim (find_edge subject generation e.bindings) [
        | none ↦ (e, err invalidated_edge)
        | some edge ↦ if not edge.active || edge.retiring then (e, err invalidated_edge) else (
          record e {
            component_borrows = add64 e.component_borrows 1;
            bindings = on_edge subject generation borrow_more e.bindings;
          },
          ok (subject, generation),
        )
      ]

  -- `BorrowImpl` on the entry that the handle's id found; `handle_generation` is the handle's.
  unfoldable pub borrow :
      Bool → (String → Bool) → ℕ → ℕ → RegistryEntry → RegistryEntry × Result Lease
  unfolding acquire_borrow
  borrow allow_installing_borrow subject_installing handle_generation binding_generation e =
      if not (e.generation == handle_generation)
      then (e, err (make_error closed "Borrow: generation stale"))
      else elim (subject_of binding_generation e.bindings) [
        | none ↦ (e, err (make_error closed "Borrow: binding invalidated"))
        | some subject ↦
            acquire_borrow allow_installing_borrow (subject_installing subject) subject
              binding_generation e
      ]
