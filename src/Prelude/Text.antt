-- ===== src/Prelude/Text.antt =====
-- Texts: `std::string` as a native text, its equality as a decision, and `std::to_string`.
use Prim.Native.Nat.{ℕ, zero, suc, ◌/◌, ◌%◌}
use Prim.Native.String.{String, ◌++◌}
use mathlib.Core.Path.{◌≡◌}
use mathlib.Core.Logic.{◌⊎◌, inl, inr}
use mathlib.Core.Bool.{Bool, true, false}
use text.Mathlib.Text.{◌==◌ as str_eq}
use text.Mathlib.TextEquality.{eq_iff}
use native.Mathlib.Omega.{arith}
use bbt_framework.Prelude.Tests.{ltb, if◌then◌else◌, Bool-cases}

String_dec : (a b : String) → ((str_eq a b ≡ true) ⊎ (str_eq a b ≡ false)) → Dec (a ≡ b)
String_dec a b (inl e) = yes ((eq_iff a b).0 e)
String_dec a b (inr e) = no (λ p. ground (arith, eq_iff a b))

unfoldable pub String_discrete : Discrete String
unfolding String_dec Bool-cases
String_discrete a b = String_dec a b (Bool-cases (str_eq a b))

infixr 65 ◌++ₛ◌
abbrev pub ◌++ₛ◌ : String → String → String
s ++ₛ t = s ++ t

abbrev pub is_empty : String → Bool
is_empty s = str_eq s ""

unfoldable pub digit : ℕ → String
digit zero = "0"
digit (suc zero) = "1"
digit (suc (suc zero)) = "2"
digit (suc (suc (suc zero))) = "3"
digit (suc (suc (suc (suc zero)))) = "4"
digit (suc (suc (suc (suc (suc zero))))) = "5"
digit (suc (suc (suc (suc (suc (suc zero)))))) = "6"
digit (suc (suc (suc (suc (suc (suc (suc zero))))))) = "7"
digit (suc (suc (suc (suc (suc (suc (suc (suc zero)))))))) = "8"
digit _ = "9"

-- The decimal digits of a number; a number has fewer digits than its value plus one.
unfoldable pub digits : ℕ → ℕ → String
digits zero n = ""
digits (suc fuel) n =
    let rest = digits fuel (n / 10) in if ltb n 10 then digit n else rest ++ digit (n % 10)

-- `std::to_string`
unfoldable pub to_string : ℕ → String
unfolding digits digit
to_string n = digits (suc n) n
