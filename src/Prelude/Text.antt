-- ===== src/Prelude/Text.antt =====
-- Texts as lists of bytes, and what `std::to_string`, `%d` and `atoi` do with them.
use Prim.Native.Char.{code}
use Prim.Native.String.{String}
use Prim.Native.Nat.{ℕ, zero, suc, ◌+◌, ◌-◌, ◌*◌, ◌/◌, ◌%◌}
use mathlib.Core.Bool.{Bool, true, false, ◌&&◌, ◌||◌}
use mathlib.Core.List.{List, [], ◌∷◌, ◌++◌}
use mathlib.Core.Path.{◌≡◌, refl}
use mathlib.Core.Logic.{◌↔◌}
use native.Mathlib.Omega.{arith}
use cevent_loop.Prelude.Tests.{ltb, leb, ◌==◌, if◌then◌else◌}
use cevent_loop.Prelude.Int.{ℤ, pos, negsuc}

abbrev pub Text : Type 0
Text = List ℕ

-- The bytes of a literal.
abbrev pub codes : String → Text
codes String.[] = []
codes (String.◌∷◌ c s) = code c ∷ codes s

-- `strcmp` and `memcmp` against 0, and `==` of strings.
abbrev pub same_text : Text → Text → Bool
same_text [] [] = true
same_text [] (y ∷ ys) = false
same_text (x ∷ xs) [] = false
same_text (x ∷ xs) (y ∷ ys) = x == y && same_text xs ys

-- The last digits of a number, so many at most.
unfoldable pub digits : ℕ → ℕ → Text
digits zero n = []
digits (suc k) n =
    let before = digits k (n / 10) in (if ltb n 10 then [] else before) ++ ((b'0' + n % 10) ∷ [])

unfoldable pub decimal : ℕ → Text
unfolding digits
decimal n = digits (suc n) n

-- `%d` and `std::to_string`.
unfoldable pub print_int : ℤ → Text
unfolding decimal
print_int (pos n) = decimal n
print_int (negsuc n) = b'-' ∷ decimal (suc n)

abbrev pub is_digit : ℕ → Bool
is_digit c = leb b'0' c && leb c b'9'

-- The number that the digits at the start of a text spell, behind `acc`.
unfoldable pub scan_digits : ℕ → Text → ℕ
scan_digits acc [] = acc
scan_digits acc (c ∷ cs) =
    let rest = scan_digits (acc * 10 + (c - b'0')) cs in if is_digit c then rest else acc

-- The number that a text begins with.
unfoldable pub read_decimal : Text → ℕ
unfolding scan_digits
read_decimal text = scan_digits 0 text

abbrev pub is_blank : ℕ → Bool
is_blank c = c == 32 || (leb 9 c && leb c 13)

abbrev negated : ℕ → ℤ
negated zero = pos 0
negated (suc n) = negsuc n

-- `atoi`: blanks, a sign, digits.
unfoldable pub read_signed : Text → ℤ
unfolding read_decimal
read_signed [] = pos 0
read_signed (c ∷ cs) =
    if c == b'-'
    then negated (read_decimal cs)
    else if c == b'+'
    then pos (read_decimal cs)
    else pos (read_decimal (c ∷ cs))

unfoldable pub atoi : Text → ℤ
unfolding read_signed
atoi [] = pos 0
atoi (c ∷ cs) = let rest = atoi cs in if is_blank c then rest else read_signed (c ∷ cs)

pub same_text_iff : (xs ys : Text) → (same_text xs ys ≡ true) ↔ (xs ≡ ys)
same_text_iff [] [] = (λ h. refl, λ h. refl)
same_text_iff [] (y ∷ ys) = (λ h. cc h, λ h. cc h)
same_text_iff (x ∷ xs) [] = (λ h. cc h, λ h. cc h)
same_text_iff (x ∷ xs) (y ∷ ys) =
    let (one, other) = same_text_iff xs ys in (λ h. ground (arith, one), λ h. ground (arith, other))
