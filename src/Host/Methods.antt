-- ===== src/Host/Methods.antt =====
-- framework/include/bbt/framework/internal/MethodTable.hpp and framework/src/MethodTable.cc: the
-- methods of a service. The decoder of a key is user code: `extract_key` is what it answers. What a
-- method does when it is invoked is an argument of the call that invokes it.
use bbt_framework.Prelude.{
  ◌≡◌, ◌↔◌, refl, Bool, true, List, [], ◌∷◌, ◌++◌, Option, none, some, String, is_empty, ◌++ₛ◌,
  if◌then◌else◌, arith, All, Option-cases, inl, inr,
}
use bbt_framework.Infra.{Infra, make_error, Result, ok, err, invalid_argument}
use bbt_framework.Ordered.Types.{◌==ₛ◌}
use bbt_framework.Host.Policy.{ExecutionPolicy, actor_serial, concurrent}

pub record RpcMethod : Type 0 where
  pub name : String
  pub request_schema : String
  pub response_schema : String
  pub actor_keyed : Bool
  pub extract_key : String → Result String

-- A call that throws, with the text of its exception, or returns.
pub data Thrown (A : Type 0) : Type 0 where
  throws : String → Thrown A
  returns : A → Thrown A

-- `RpcMethodTable::find`
unfoldable pub find_method : String → List RpcMethod → Option RpcMethod
find_method name [] = none
find_method name (m ∷ ms) = if m.name ==ₛ name then some m else find_method name ms

-- `RpcMethodTable::Add`
unfoldable pub add_method : RpcMethod → List RpcMethod → Thrown (List RpcMethod)
unfolding find_method
add_method m table =
    if is_empty m.name
    then throws "method table: empty method name"
    else elim (find_method m.name table) [
      | some _ ↦ throws ("method table: duplicate method '" ++ₛ m.name ++ₛ "'")
      | none ↦ returns (table ++ m ∷ [])
    ]

-- `detail::ActorKeyToString`, on the text of the key field.
unfoldable pub actor_key_to_string : ⦃infra : Infra⦄ → String → Result String
actor_key_to_string s =
    if is_empty s then err (make_error invalid_argument "actor key field is empty") else ok s

module _ ⦃infra : Infra⦄ where
  unfoldable pub check_keyed : List RpcMethod → Result (Unit {0})
  check_keyed [] = ok tt
  check_keyed (m ∷ ms) =
      if m.actor_keyed
      then check_keyed ms
      else err (
          make_error invalid_argument (
            "ActorSerial method '" ++ₛ m.name
            ++ₛ "' has no key extractor; declare via fw::ActorMethod"))

  unfoldable pub validate_actor_keying : List RpcMethod → ExecutionPolicy → Result (Unit {0})
  unfolding check_keyed
  validate_actor_keying table concurrent = ok tt
  validate_actor_keying table actor_serial = check_keyed table

  check_keyed_iff :
      (table : List RpcMethod) → (check_keyed table ≡ ok tt) ↔ All (λ m. m.actor_keyed ≡ true) table
  unfolding check_keyed
  check_keyed_iff [] = (λ _. tt, λ _. refl)
  check_keyed_iff (m ∷ ms) =
      let (there, back) = check_keyed_iff ms in
      (λ h. (ground arith, there (ground arith)), λ (now, later). ground (arith, back later))

find_method-append :
    (table : List RpcMethod) (m : RpcMethod) (name : String)
    → find_method m.name table ≡ none
    → find_method name (table ++ m ∷ [])
      ≡ (if m.name ==ₛ name then some m else find_method name table)
unfolding find_method
find_method-append [] m name h = refl
find_method-append (x ∷ table) m name h = ground (arith, find_method-append table m name)

-- A method added to a table is found by its name, and every other name finds what it found before.
pub find-add_method :
    (m : RpcMethod) (table after : List RpcMethod) (name : String)
    → add_method m table ≡ returns after
    → find_method name after ≡ (if m.name ==ₛ name then some m else find_method name table)
unfolding add_method
find-add_method m table after name h = elim (Option-cases (find_method m.name table)) [
  | inl new ↦ ground (arith, find_method-append table m name new)
  | inr (x, found) ↦ ground arith
]
