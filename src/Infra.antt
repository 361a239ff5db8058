-- ===== src/Infra.antt =====
-- framework/include/bbt/framework/Result.hpp: the result and error types that the framework takes
-- from bbt::infra. What infra itself does is not in this repository: `Infra` is the interface.
use bbt_framework.Prelude.{ℕ, String, List, Option, ◌≡◌, refl, ◌⊎◌, inl, inr}

-- The enumerators of `ErrorCode` that the framework names; `other` stands for the rest.
pub data ErrorCode : Type 0 where
  invalid_argument closed overloaded runtime_unavailable not_found : ErrorCode
  internal_error remote_error protocol_error timed_out cancelled : ErrorCode
  invalid_context type_mismatch : ErrorCode
  other : ℕ → ErrorCode

pub record Error : Type 0 where
  pub code : ErrorCode
  pub message : String
  pub domain : String
  pub domain_code : String
  pub details : List (String × String)

-- What the framework uses of infra and does not implement: `blank_error` is what `MakeError`
-- leaves in the fields that it is not given, and `validate_error_details` is
-- `infra::ValidateErrorDetails`, which answers `none` where the details are well formed.
pub record Infra : Type 0 where
  pub blank_error : Error
  pub validate_error_details : Error → Option Error

-- `MakeError`
abbrev pub make_error : ⦃i : Infra⦄ → ErrorCode → String → Error
make_error ⦃i⦄ c m = record (i.blank_error) { code = c; message = m }

pub data Result {ℓ} (A : Type ℓ) : Type ℓ where
  ok : A → Result A
  err : Error → Result A

-- To split on a result that a call gives and keep the equation.
pub Result-cases {ℓ} :
    {A : Type ℓ} (r : Result A) → ((e : Error) × (r ≡ err e)) ⊎ ((a : A) × (r ≡ ok a))
Result-cases (err e) = inl (e, refl)
Result-cases (ok a) = inr (a, refl)
