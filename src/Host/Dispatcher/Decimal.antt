-- ===== src/Host/Dispatcher/Decimal.antt =====
-- framework/src/host/InboundDispatcher.cc, `ParseUnsignedDecimal`: the reading of a sequence number
-- from its decimal digits, and what it has to do with `std::to_string`.
use Prim.Native.Char.{code}
use Prim.Native.String.append
use text.Mathlib.TextEquality.{eq_iff}
use text.Mathlib.TextLemmas.{cons-ne-nil}
use bbt_framework.Prelude.{
  ℕ, zero, suc, ◌+◌, ◌-◌, ◌*◌, ◌/◌, ◌%◌, ◌≤◌, ◌<◌, ◌≡◌, ◌↔◌, refl, true, false, String, Option,
  none, some, arith, ltb, if◌then◌else◌, ◌++ₛ◌, is_empty, digit, digits, to_string, u64_max,
  u64_mod,
}
use bbt_framework.Ordered.ErrorDomain.{all_digits, is_unsigned_decimal}

-- The loop over the digits, in 64 bits.
unfoldable pub read_digits : String → ℕ → Option ℕ
read_digits String.[] value = some value
read_digits (String.◌∷◌ c s) value =
    let d = code c - b'0' in
    let rest = read_digits s ((value * 10 + d) % u64_mod) in
    if ltb ((u64_max - d) / 10) value then none else rest

unfoldable pub parse_unsigned_decimal : String → Option ℕ
unfolding read_digits
parse_unsigned_decimal s = if is_unsigned_decimal s then read_digits s 0 else none

-- The number that digits spell behind `n`, with no bound.
abbrev pub value : String → ℕ → ℕ
value String.[] n = n
value (String.◌∷◌ c s) n = value s (n * 10 + (code c - b'0'))

le-value : (s : String) (n : ℕ) → n ≤ value s n
le-value String.[] n = omega arith
le-value (String.◌∷◌ c s) n = omega (arith, le-value s (n * 10 + (code c - b'0')))

read_digits_sound :
    (s : String) (n r : ℕ)
    → n ≤ u64_max
    → all_digits s ≡ true
    → read_digits s n ≡ some r
    → (r ≡ value s n) × (r ≤ u64_max)
unfolding read_digits all_digits
read_digits_sound String.[] n r fits ds h = ground arith
read_digits_sound (String.◌∷◌ c s) n r fits ds h =
    ground (arith, read_digits_sound s (n * 10 + (code c - b'0')) r)

read_digits_complete :
    (s : String) (n : ℕ)
    → all_digits s ≡ true
    → value s n ≤ u64_max
    → read_digits s n ≡ some (value s n)
unfolding read_digits all_digits
read_digits_complete String.[] n ds fits = refl
read_digits_complete (String.◌∷◌ c s) n ds fits =
    let m = n * 10 + (code c - b'0') in ground (arith, read_digits_complete s m, le-value s m)

-- A text is read as a number exactly when it is one or more digits whose true value fits into 64
-- bits, and then that value is what is read: nothing wraps around and nothing that fits is refused.
pub parse_unsigned_decimal_iff :
    (s : String) (r : ℕ)
    → (parse_unsigned_decimal s ≡ some r)
      ↔ ((is_unsigned_decimal s ≡ true) × (value s 0 ≡ r) × (r ≤ u64_max))
unfolding parse_unsigned_decimal is_unsigned_decimal
parse_unsigned_decimal_iff s r =
    (ground (arith, read_digits_sound s 0 r), ground (arith, read_digits_complete s 0))

-- Reading the digits of `n`.
value-append : (s t : String) (n : ℕ) → value (s ++ₛ t) n ≡ value t (value s n)
value-append String.[] t n = rw (append.nil t) refl
value-append (String.◌∷◌ c s) t n = rw (append.cons c s t) (value-append s t _)

all_digits-append :
    (s t : String) → all_digits s ≡ true → all_digits t ≡ true → all_digits (s ++ₛ t) ≡ true
unfolding all_digits
all_digits-append String.[] t hs ht = rw (append.nil t) ht
all_digits-append (String.◌∷◌ c s) t hs ht =
    rw (append.cons c s t) (ground (arith, all_digits-append s t))

below_ten {ℓ} :
    (P : ℕ → Type ℓ)
    → P 0
    → P 1
    → P 2
    → P 3
    → P 4
    → P 5
    → P 6
    → P 7
    → P 8
    → P 9
    → (n : ℕ) → n < 10
    → P n
below_ten P p0 p1 p2 p3 p4 p5 p6 p7 p8 p9 zero h = p0
below_ten P p0 p1 p2 p3 p4 p5 p6 p7 p8 p9 (suc zero) h = p1
below_ten P p0 p1 p2 p3 p4 p5 p6 p7 p8 p9 (suc (suc zero)) h = p2
below_ten P p0 p1 p2 p3 p4 p5 p6 p7 p8 p9 (suc (suc (suc zero))) h = p3
below_ten P p0 p1 p2 p3 p4 p5 p6 p7 p8 p9 (suc (suc (suc (suc zero)))) h = p4
below_ten P p0 p1 p2 p3 p4 p5 p6 p7 p8 p9 (suc (suc (suc (suc (suc zero))))) h = p5
below_ten P p0 p1 p2 p3 p4 p5 p6 p7 p8 p9 (suc (suc (suc (suc (suc (suc zero)))))) h = p6
below_ten P p0 p1 p2 p3 p4 p5 p6 p7 p8 p9 (suc (suc (suc (suc (suc (suc (suc zero))))))) h = p7
below_ten P p0 p1 p2 p3 p4 p5 p6 p7 p8 p9 (suc (suc (suc (suc (suc (suc (suc (suc zero)))))))) h =
    p8
below_ten P p0 p1 p2 p3 p4 p5 p6 p7 p8 p9 (suc (suc (suc (suc (suc (suc (suc (suc (suc zero)))))))))
      h =
    p9
below_ten P p0 p1 p2 p3 p4 p5 p6 p7 p8 p9
      (suc (suc (suc (suc (suc (suc (suc (suc (suc (suc n)))))))))) h =
    absurd (omega arith)

value-digit : (m n : ℕ) → n < 10 → value (digit n) m ≡ m * 10 + n
unfolding digit
value-digit m =
    below_ten (λ n. value (digit n) m ≡ m * 10 + n) (omega arith) (omega arith) (omega arith)
      (omega arith) (omega arith) (omega arith) (omega arith) (omega arith) (omega arith)
      (omega arith)

all_digits-digit : (n : ℕ) → n < 10 → all_digits (digit n) ≡ true
unfolding digit all_digits
all_digits-digit =
    below_ten (λ n. all_digits (digit n) ≡ true) refl refl refl refl refl refl refl refl refl refl

value-digits : (fuel n : ℕ) → n < fuel → value (digits fuel n) 0 ≡ n
unfolding digits
value-digits zero n h = absurd (omega arith)
value-digits (suc fuel) n h = ground (
  arith,
  value-digits fuel (n / 10),
  value-append (digits fuel (n / 10)) (digit (n % 10)) 0,
  value-digit 0 n,
  value-digit (n / 10) (n % 10),
)

all_digits-digits : (fuel n : ℕ) → n < fuel → all_digits (digits fuel n) ≡ true
unfolding digits
all_digits-digits zero n h = absurd (omega arith)
all_digits-digits (suc fuel) n h = ground (
  arith,
  all_digits-digits fuel (n / 10),
  all_digits-append (digits fuel (n / 10)) (digit (n % 10)),
  all_digits-digit n,
  all_digits-digit (n % 10),
)

pub value-to_string : (n : ℕ) → value (to_string n) 0 ≡ n
unfolding to_string
value-to_string n = value-digits (suc n) n (omega arith)

pub all_digits-to_string : (n : ℕ) → all_digits (to_string n) ≡ true
unfolding to_string
all_digits-to_string n = all_digits-digits (suc n) n (omega arith)

nonempty_of_value : (s : String) (n : ℕ) → value s 0 ≡ suc n → is_empty s ≡ false
nonempty_of_value String.[] n h = absurd (omega (arith, h))
nonempty_of_value (String.◌∷◌ c s) n h = ground (arith, eq_iff (String.◌∷◌ c s) "", cons-ne-nil c s)

is_empty-to_string : (n : ℕ) → is_empty (to_string n) ≡ false
unfolding to_string digits digit
is_empty-to_string zero = refl
is_empty-to_string (suc n) = nonempty_of_value (to_string (suc n)) n (value-to_string (suc n))

-- Every 64-bit number is read back from the text that `std::to_string` makes of it.
pub parse-to_string : (n : ℕ) → n ≤ u64_max → parse_unsigned_decimal (to_string n) ≡ some n
unfolding is_unsigned_decimal
parse-to_string n fits =
    let (_, back) = parse_unsigned_decimal_iff (to_string n) n in
    ground (arith, back, is_empty-to_string n, all_digits-to_string n, value-to_string n)
