-- ===== src/Actor/Registry.antt =====
-- framework/src/actor/ActorRegistry.cc: activation of actors, at most once for each key and at most
-- `max_actors` for each service. A call is one critical section.
pub mod Invariant
pub mod Once
use bbt_framework.Prelude.{
  ℕ, ◌+◌, ◌≡◌, refl, Bool, true, false, Option, none, some, String, is_empty, leb, ◌==◌,
  if◌then◌else◌, String_discrete, Dict, lookup, insert, List, [], ◌∷◌, inl, inr, Bool-cases,
  Option-cases, ◌++ₛ◌,
}
use bbt_framework.Infra.{
  Infra, Error, make_error, Result, ok, err, invalid_argument, not_found, overloaded,
  internal_error,
}

-- An activated object, with the key that `_bind_actor_key` gave it.
pub record Instance (I : Type 0) : Type 0 where
  pub object : I
  pub actor_key : String

pub record ServiceEntry (F : Type 0) : Type 0 where
  pub factory : F
  pub max_actors : ℕ
  pub live_actors : ℕ

abbrev pub ActorId : Type 0
ActorId = String × String

pub ActorId_discrete : Discrete ActorId
ActorId_discrete = hlevel String_discrete

pub record ActorRegistry (F I : Type 0) : Type 0 where
  pub services : Dict String (ServiceEntry F)
  pub actors : Dict ActorId (Instance I)

-- What a factory, which is the service's own code, does when it is called.
pub data Activation (I : Type 0) : Type 0 where
  built : I → Activation I
  null_object : Activation I
  throws : Activation I

module _ {F I : Type 0} where
  unfoldable pub empty : ActorRegistry F I
  empty = record { services = []; actors = [] }

module _ {F I : Type 0} ⦃infra : Infra⦄ where
  -- An empty `std::function` is `none`.
  unfoldable pub register_factory :
      String → Option F → ℕ → ActorRegistry F I → ActorRegistry F I × Result (Unit {0})
  register_factory service_name none max_actors r = (
    r,
    err (
        make_error invalid_argument (
          if is_empty service_name
          then "ActorRegistry: empty service_name"
          else "ActorRegistry: empty factory")),
  )
  register_factory service_name (some factory) max_actors r =
      if is_empty service_name
      then (r, err (make_error invalid_argument "ActorRegistry: empty service_name"))
      else if max_actors == 0
      then (r, err (make_error invalid_argument "ActorRegistry: max_actors must be > 0"))
      else elim (lookup String_discrete service_name r.services) [
        | some _ ↦ (
          r,
          err (
              make_error invalid_argument
                ("ActorRegistry: duplicate service '" ++ₛ service_name ++ₛ "'")),
        )
        | none ↦ (
          record r {
            services =
                insert String_discrete service_name
                  (record { factory = factory; max_actors = max_actors; live_actors = 0 })
                  r.services;
          },
          ok tt,
        )
      ]

  -- The factory has answered: register what it built, or leave nothing behind.
  unfoldable pub activate :
      Activation I
      → ActorId
      → ServiceEntry F
      → ActorRegistry F I
      → ActorRegistry F I × Result (Instance I)
  activate throws id entry r = (
    r,
    err (
        make_error internal_error
          ("ActorRegistry: factory threw while activating actor '" ++ₛ id.1 ++ₛ "'")),
  )
  activate null_object id entry r = (
    r,
    err (
        make_error internal_error
          ("ActorRegistry: factory returned null for actor '" ++ₛ id.1 ++ₛ "'")),
  )
  activate (built object) id entry r =
      let instance_of : Instance I = record { object = object; actor_key = id.1 } in
      (
        record r {
          services =
              insert String_discrete id.0 (record entry { live_actors = entry.live_actors + 1 })
                r.services;
          actors = insert ActorId_discrete id instance_of r.actors;
        },
        ok instance_of,
      )

  -- `call` is what the service's factory answers if this call reaches it.
  unfoldable pub get_or_create :
      (F → Activation I)
      → String
      → String
      → ActorRegistry F I
      → ActorRegistry F I × Result (Instance I)
  unfolding activate
  get_or_create call service_name actor_key r =
      if is_empty actor_key
      then (r, err (make_error invalid_argument "ActorRegistry: empty actor_key"))
      else elim (lookup ActorId_discrete (service_name, actor_key) r.actors) [
        | some found ↦ (r, ok found)
        | none ↦ elim (lookup String_discrete service_name r.services) [
          | none ↦ (
            r,
            err (
                make_error not_found
                  ("ActorRegistry: service '" ++ₛ service_name ++ₛ "' not registered")),
          )
          | some entry ↦
              if leb entry.max_actors entry.live_actors
              then (
                r,
                err (
                    make_error overloaded (
                      "ActorRegistry: service '" ++ₛ service_name
                      ++ₛ "' reached max_actors limit")),
              )
              else activate (call entry.factory) (service_name, actor_key) entry r
        ]
      ]

module _ {F : Type 0} where
  abbrev pub live_or_zero : Option (ServiceEntry F) → ℕ
  live_or_zero none = 0
  live_or_zero (some entry) = entry.live_actors

unfoldable pub actor_count : {F I : Type 0} → String → ActorRegistry F I → ℕ
actor_count service_name r = live_or_zero (lookup String_discrete service_name r.services)

-- A call of the registry; a factory's answer belongs to the call that reaches it.
pub data Call (F I : Type 0) : Type 0 where
  registers : String → Option F → ℕ → Call F I
  gets : (F → Activation I) → String → String → Call F I

module _ {F I : Type 0} ⦃infra : Infra⦄ where
  -- A call of `get_or_create` is refused, finds the instance, or activates it where there is room.
  pub get_or_create_cases {ℓ} :
      (P : ActorRegistry F I × Result (Instance I) → Type ℓ) (call : F → Activation I)
      (s k : String) (r : ActorRegistry F I)
      → ((e : Error) → P (r, err e))
      → ((x : Instance I)
          → is_empty k ≡ false
          → lookup ActorId_discrete (s, k) r.actors ≡ some x
          → P (r, ok x))
      → ((entry : ServiceEntry F)
          → is_empty k ≡ false
          → lookup ActorId_discrete (s, k) r.actors ≡ none
          → lookup String_discrete s r.services ≡ some entry
          → leb entry.max_actors entry.live_actors ≡ false
          → P (activate (call entry.factory) (s, k) entry r))
      → P (get_or_create call s k r)
  unfolding get_or_create
  get_or_create_cases P call s k r refused found new = elim (Bool-cases (is_empty k)) [
    | inl e ↦ rw e (refused _)
    | inr e ↦ rw e (elim (Option-cases (lookup ActorId_discrete (s, k) r.actors)) [
      | inr (x, f) ↦ rw (f, get_or_create) (found x e f)
      | inl f ↦
          rw (f, get_or_create)
            (elim (Option-cases (lookup String_discrete s r.services)) [
              | inl g ↦ rw (g, get_or_create) (refused _)
              | inr (entry, g) ↦
                  rw (g, get_or_create)
                    (elim (Bool-cases (leb entry.max_actors entry.live_actors)) [
                      | inl full ↦ rw full (refused _)
                      | inr room ↦ rw room (new entry e f g room)
                    ])
            ])
    ])
  ]

  unfoldable pub step : ActorRegistry F I → Call F I → ActorRegistry F I
  step r (registers name factory max_actors) = (register_factory name factory max_actors r).0
  step r (gets call service_name actor_key) = (get_or_create call service_name actor_key r).0

  unfoldable pub run : ActorRegistry F I → List (Call F I) → ActorRegistry F I
  run r [] = r
  run r (c ∷ cs) = run (step r c) cs
