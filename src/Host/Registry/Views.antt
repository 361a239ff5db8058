-- ===== src/Host/Registry/Views.antt =====
-- framework/src/host/Registry.cc: what a handle lets its holder see, and the lists of ids.
use bbt_framework.Prelude.{
  ℕ, ◌≡◌, Bool, true, false, not, ◌&&◌, List, [], ◌∷◌, Option, none, some, String, ◌==◌,
  if◌then◌else◌, arith, Option-cases, inl, inr,
}
use bbt_framework.Infra.{Infra, make_error, Result, ok, err, invalid_argument, not_found}
use bbt_framework.Host.Registry.{
  Registry, RegistryEntry, find_entry, ObjectState, ObjectKind, ObjectError, ComponentScope,
  same_state, same_kind, destroyed, invalidated, app, service, actor, component,
}
use bbt_framework.Host.Registry.Observers.{Handle}

-- `ObjectInfo`, but for its clock reading.
pub record ObjectInfo : Type 0 where
  pub id : String
  pub generation : ℕ
  pub kind : ObjectKind
  pub type_name : String
  pub name : String
  pub scope : ComponentScope
  pub owner_id : String
  pub state : ObjectState
  pub last_error : Option ObjectError

-- `AppObjectAddress`
pub data Address : Type 0 where
  service_address : String → Address
  actor_address : String → String → Address

unfoldable pub ids_of_kind : ObjectKind → List RegistryEntry → List String
ids_of_kind kind [] = []
ids_of_kind kind (e ∷ es) =
    let rest = ids_of_kind kind es in if same_kind e.kind kind then e.id ∷ rest else rest

unfoldable pub ids_in_state : ObjectKind → ObjectState → List RegistryEntry → List String
ids_in_state kind state [] = []
ids_in_state kind state (e ∷ es) =
    let rest = ids_in_state kind state es in
    if same_kind e.kind kind && same_state e.state state then e.id ∷ rest else rest

unfoldable pub handle_valid : Handle → Registry → Bool
handle_valid h r = elim (find_entry h.id r) [
  | none ↦ false
  | some e ↦
      e.generation == h.generation
      && (not (same_state e.state destroyed) && not (same_state e.state invalidated))
]

module _ ⦃infra : Infra⦄ where
  unfoldable pub info : Handle → Registry → Result ObjectInfo
  info h r = elim (find_entry h.id r) [
    | none ↦ err (make_error not_found "ObjectHandle: object destroyed")
    | some e ↦
        if not (e.generation == h.generation)
        then err (make_error invalid_argument "ObjectHandle: generation stale")
        else ok (record {
          id = e.id;
          generation = e.generation;
          kind = e.kind;
          type_name = e.type_name;
          name = e.name;
          scope = e.scope;
          owner_id = e.owner_id;
          state = e.state;
          last_error = e.last_error;
        })
  ]

  unfoldable pub address_of : ObjectKind → RegistryEntry → Result Address
  address_of service e = ok (service_address e.type_name)
  address_of actor e = ok (actor_address e.type_name e.name)
  address_of app e =
      err (make_error invalid_argument "GetMailBox: only Service and Actor objects have addresses")
  address_of component e =
      err (make_error invalid_argument "GetMailBox: only Service and Actor objects have addresses")

  unfoldable pub mail_box_of : Handle → Registry → Result Address
  unfolding address_of
  mail_box_of h r = elim (find_entry h.id r) [
    | none ↦ err (make_error not_found "GetMailBox: object destroyed")
    | some e ↦
        if not (e.generation == h.generation)
        then err (make_error invalid_argument "GetMailBox: generation stale")
        else address_of e.kind e
  ]

  -- A valid handle shows the object that it was made for, in a state in which it still exists.
  handle_valid-info :
      (h : Handle) (r : Registry)
      → handle_valid h r ≡ true
      → (i : ObjectInfo) × (info h r ≡ ok i)
        × (i.generation ≡ h.generation)
        × (same_state i.state destroyed ≡ false)
        × (same_state i.state invalidated ≡ false)
  unfolding handle_valid info
  handle_valid-info h r v = elim (Option-cases (find_entry h.id r)) [
    | inl e ↦ absurd (ground (arith, e, v))
    | inr (x, e) ↦ (
      record {
        id = x.id;
        generation = x.generation;
        kind = x.kind;
        type_name = x.type_name;
        name = x.name;
        scope = x.scope;
        owner_id = x.owner_id;
        state = x.state;
        last_error = x.last_error;
      },
      ground (arith, e, v),
      ground (arith, e, v),
      ground (arith, e, v),
      ground (arith, e, v),
    )
  ]
