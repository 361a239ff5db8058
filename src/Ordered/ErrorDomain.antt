-- ===== src/Ordered/ErrorDomain.antt =====
-- framework/include/bbt/framework/internal/ErrorDomainRule.hpp: the reserved detail keys of the
-- actor error domain, and the check of an error at a boundary of the framework.
use Prim.Native.Char.{code}
use bbt_framework.Prelude.{
  ◌≡◌, ◌↔◌, refl, Bool, true, false, ◌&&◌, List, [], ◌∷◌, String, All, arith, leb, is_empty,
  if◌then◌else◌, none, some,
}
use bbt_framework.Infra.{Infra, Error, make_error, Result, ok, err, protocol_error}
use bbt_framework.Ordered.Types.{◌==ₛ◌}

abbrev pub error_domain_framework_actor : String
error_domain_framework_actor = "framework.actor"

abbrev pub error_detail_expected_sequence : String
error_detail_expected_sequence = "expected_sequence"

unfoldable pub all_digits : String → Bool
all_digits String.[] = true
all_digits (String.◌∷◌ c s) = leb b'0' (code c) && (leb (code c) b'9' && all_digits s)

unfoldable pub is_unsigned_decimal : String → Bool
unfolding all_digits
is_unsigned_decimal s = if is_empty s then false else all_digits s

pub record ReservedKeyRule : Type 0 where
  pub key : String
  pub domain : String
  pub value_ok : String → Bool

unfoldable pub reserved_key_rules : List ReservedKeyRule
reserved_key_rules =
    record {
      key = error_detail_expected_sequence;
      domain = error_domain_framework_actor;
      value_ok = is_unsigned_decimal;
    }
    ∷ []

module _ ⦃infra : Infra⦄ where
  -- The inner loop: one detail against the rules.
  unfoldable pub check_detail : List ReservedKeyRule → String → String → String → Result (Unit {0})
  check_detail [] domain key val = ok tt
  check_detail (rule ∷ rules) domain key val =
      if key ==ₛ rule.key
      then if domain ==ₛ rule.domain
        then if rule.value_ok val
          then check_detail rules domain key val
          else err (make_error protocol_error "reserved key value has invalid format")
        else err (make_error protocol_error "reserved key outside its owning domain")
      else check_detail rules domain key val

  unfoldable pub check_details : String → List (String × String) → Result (Unit {0})
  check_details domain [] = ok tt
  check_details domain ((key, val) ∷ rest) = elim (check_detail reserved_key_rules domain key val) [
    | ok _ ↦ check_details domain rest
    | err e ↦ err e
  ]

  unfoldable pub validate_error_domain_rules : Error → Result (Unit {0})
  unfolding check_details
  validate_error_domain_rules error = check_details error.domain error.details

  unfoldable pub validate_error_at_boundary : Error → Result (Unit {0})
  validate_error_at_boundary error = elim (infra.validate_error_details error) [
    | some bad ↦ err bad
    | none ↦ validate_error_domain_rules error
  ]

  -- framework/src/host/RpcWireBridge.cc, `SafeBoundaryError`
  unfoldable pub safe_boundary_error : Error → Error
  safe_boundary_error error = elim (validate_error_at_boundary error) [
    | ok _ ↦ error
    | err bad ↦ bad
  ]

  -- What a detail of an error in this domain has to meet.
  abbrev pub IsLegal : String → String × String → Type 0
  IsLegal domain (key, val) =
      key ≡ error_detail_expected_sequence
      → (domain ≡ error_domain_framework_actor) × (is_unsigned_decimal val ≡ true)

  check_details_iff :
      (domain : String) (ds : List (String × String))
      → (check_details domain ds ≡ ok tt) ↔ All (IsLegal domain) ds
  unfolding check_details check_detail reserved_key_rules
  check_details_iff domain [] = (λ _. tt, λ _. refl)
  check_details_iff domain ((key, val) ∷ rest) =
      let (there, back) = check_details_iff domain rest in
      (λ h. (ground arith, there (ground arith)), λ (now, later). ground (arith, back later))

  -- An error passes the domain rules exactly when each of its details under the key
  -- `expected_sequence` stands in the domain `framework.actor` and has an unsigned decimal value.
  pub validate_error_domain_rules_iff :
      (e : Error) → (validate_error_domain_rules e ≡ ok tt) ↔ All (IsLegal e.domain) e.details
  unfolding validate_error_domain_rules
  validate_error_domain_rules_iff e = check_details_iff e.domain e.details
