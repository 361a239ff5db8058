-- ===== src/Host/Dispatcher/Digest.antt =====
-- framework/src/host/InboundDispatcher.cc, `OrderedRequestDigest`: the identity of the content of an
-- ordered request. A byte string is a text; its size is `len`.
use Prim.Native.Char.{Char, code, len_utf8, len_utf8_def}
use Prim.Native.String.{len}
use Prim.Native.String.len
use Prim.Native.String.append
use text.Mathlib.TextLemmas.{cons-eq-cons, append_cancel_left, append_assoc, append-nil}
use bbt_framework.Prelude.{◌<◌, ◌≡◌, refl, ap, sym, ◌∙◌, true, String, arith, ◌++ₛ◌, to_string}
use bbt_framework.Ordered.ErrorDomain.{all_digits}
use bbt_framework.Host.Dispatcher.Decimal.{value, value-to_string, all_digits-to_string}

-- The lambda `append`: the size, a colon, the bytes, a bar.
unfoldable pub framed : String → String
framed bytes = to_string (len bytes) ++ₛ ":" ++ₛ bytes ++ₛ "|"

unfoldable pub ordered_request_digest : String → String → String → String
unfolding framed
ordered_request_digest method actor_key payload =
    framed method ++ₛ framed actor_key ++ₛ framed payload

colon_is_no_digit :
    (d : Char) (b x y : String)
    → all_digits (String.◌∷◌ d b) ≡ true
    → ":" ++ₛ x ≡ String.◌∷◌ d b ++ₛ ":" ++ₛ y
    → ⊥
unfolding all_digits
colon_is_no_digit d b x y ds h =
    let same = (cons-eq-cons.0 (sym (append.cons ":" "" x) ∙ h ∙ append.cons d b (":" ++ₛ y))).0 in
    ground (arith, ap code same)

-- Digits before a colon are determined by the text.
digits_prefix :
    (a b x y : String)
    → all_digits a ≡ true
    → all_digits b ≡ true
    → a ++ₛ ":" ++ₛ x ≡ b ++ₛ ":" ++ₛ y
    → a ≡ b
unfolding all_digits
digits_prefix String.[] String.[] x y da db h = refl
digits_prefix String.[] (String.◌∷◌ d b) x y da db h =
    absurd (colon_is_no_digit d b x y db (sym (append.nil _) ∙ h))
digits_prefix (String.◌∷◌ c a) String.[] x y da db h =
    absurd (colon_is_no_digit c a y x da (sym (append.nil _) ∙ sym h))
digits_prefix (String.◌∷◌ c a) (String.◌∷◌ d b) x y da db h =
    let (now, later) = cons-eq-cons.0 (sym (append.cons c a _) ∙ h ∙ append.cons d b _) in
    cons-eq-cons.1 (now, digits_prefix a b x y (ground arith) (ground arith) later)

len_utf8_pos : (c : Char) → 0 < len_utf8 c
len_utf8_pos c = rw (len_utf8_def c) (ground arith)

-- Prefixes of one size are determined by the text.
sized_prefix : (a b x y : String) → len a ≡ len b → a ++ₛ x ≡ b ++ₛ y → a ≡ b
sized_prefix String.[] String.[] x y n h = refl
sized_prefix String.[] (String.◌∷◌ d b) x y n h =
    absurd (omega (arith, n, len.cons d b, len_utf8_pos d))
sized_prefix (String.◌∷◌ c a) String.[] x y n h =
    absurd (omega (arith, n, len.cons c a, len_utf8_pos c))
sized_prefix (String.◌∷◌ c a) (String.◌∷◌ d b) x y n h =
    let (now, later) = cons-eq-cons.0 (sym (append.cons c a x) ∙ h ∙ append.cons d b y) in
    let sizes : len a ≡ len b = omega (arith, n, len.cons c a, len.cons d b, ap len_utf8 now) in
    cons-eq-cons.1 (now, sized_prefix a b x y sizes later)

framed_open : (a x : String) → framed a ++ₛ x ≡ to_string (len a) ++ₛ ":" ++ₛ a ++ₛ "|" ++ₛ x
unfolding framed
framed_open a x = simp append_assoc

framed_prefix : (a b x y : String) → framed a ++ₛ x ≡ framed b ++ₛ y → (a ≡ b) × (x ≡ y)
unfolding framed
framed_prefix a b x y h =
    let opened = sym (framed_open a x) ∙ h ∙ framed_open b y in
    let sizes : to_string (len a) ≡ to_string (len b) =
      digits_prefix _ _ _ _ (all_digits-to_string (len a)) (all_digits-to_string (len b)) opened in
    let same_size : len a ≡ len b =
      omega (arith, ap (λ s. value s 0) sizes, value-to_string (len a), value-to_string (len b)) in
    let body : a ++ₛ "|" ++ₛ x ≡ b ++ₛ "|" ++ₛ y = append_cancel_left ":" _ _ (
      append_cancel_left (to_string (len a)) _ _
        (opened ∙ ap (λ s. s ++ₛ ":" ++ₛ b ++ₛ "|" ++ₛ y) (sym sizes))) in
    let same : a ≡ b = sized_prefix a b _ _ same_size body in
    (
      same,
      append_cancel_left "|" _ _
          (append_cancel_left a _ _ (body ∙ ap (λ s. s ++ₛ "|" ++ₛ y) (sym same))),
    )

-- Ordered requests with equal digests have the same method, actor key and payload.
pub ordered_request_digest_injective :
    (m k p m' k' p' : String)
    → ordered_request_digest m k p ≡ ordered_request_digest m' k' p'
    → (m ≡ m') × (k ≡ k') × (p ≡ p')
unfolding ordered_request_digest
ordered_request_digest_injective m k p m' k' p' h =
    let (em, rest) = framed_prefix m m' _ _ h in
    let (ek, last) = framed_prefix k k' _ _ rest in
    (em, ek, (framed_prefix p p' "" "" (append-nil _ ∙ last ∙ sym (append-nil _))).0)
