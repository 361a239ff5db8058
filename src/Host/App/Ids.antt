-- ===== src/Host/App/Ids.antt =====
-- The ids of managed objects (framework/src/host/Registry.cc, `CreateEntryLocked`).
use Prim.Native.Char.{Char, code}
use Prim.Native.String.append
use bbt_framework.Prelude.{◌≡◌, refl, ap, sym, ◌∙◌, String, ◌++ₛ◌, arith, ℕ}
use bbt_framework.Host.Registry.{ObjectKind, kind_prefix, app, service, actor, component}

second : String → ℕ
second String.[] = 0
second (String.◌∷◌ c String.[]) = 0
second (String.◌∷◌ c (String.◌∷◌ d s)) = code d

second-append : (c d : Char) (a x : String) → second (String.◌∷◌ c (String.◌∷◌ d a) ++ₛ x) ≡ code d
unfolding second
second-append c d a x = rw (append.cons c (String.◌∷◌ d a) x) (rw (append.cons d a x) refl)

-- The kinds differ in their second letter.
letter : ObjectKind → ℕ
letter k = second (kind_prefix k)

second_id : (k : ObjectKind) (x : String) → second (kind_prefix k ++ₛ x) ≡ letter k
unfolding letter second
second_id app x = second-append "a" "p" "p" x
second_id service x = second-append "s" "e" "rvice" x
second_id actor x = second-append "a" "c" "tor" x
second_id component x = second-append "c" "o" "mponent" x

letter_injective : (k j : ObjectKind) → letter k ≡ letter j → k ≡ j
unfolding letter second
letter_injective app app h = refl
letter_injective service service h = refl
letter_injective actor actor h = refl
letter_injective component component h = refl
letter_injective _ _ h = ground (arith, h)

-- The kind of an object can be read off its id.
pub kind_of_id :
    (k j : ObjectKind) (x y : String) → kind_prefix k ++ₛ x ≡ kind_prefix j ++ₛ y → k ≡ j
kind_of_id k j x y h = letter_injective k j (sym (second_id k x) ∙ ap second h ∙ second_id j y)
