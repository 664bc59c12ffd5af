-- ===== src/Prelude/Decimal.antt =====
-- Decimal digits: they read back as the number, they are as few as its size allows, and two numbers
-- with the same digits are equal.
use Prim.Native.Nat.{ℕ, zero, suc, ◌+◌, ◌-◌, ◌*◌, ◌/◌, ◌%◌, ◌≤◌, ◌<◌}
use mathlib.Core.Path.{◌≡◌, refl, sym, ap, ◌∙◌}
use mathlib.Core.Logic.{◌≢◌, inl, inr}
use mathlib.Core.Bool.{true, false}
use mathlib.Core.List.{[], ◌∷◌, ◌++◌, append-nil}
use native.Mathlib.Omega.{arith}
use cevent_loop.Prelude.Tests.{ltb, Bool-cases}
use cevent_loop.Prelude.Lists.{length, length-append}
use cevent_loop.Prelude.Text.{
  Text, digits, decimal, is_digit, scan_digits, read_decimal, atoi, read_signed,
}
use cevent_loop.Prelude.Int.{pos}

abbrev pub AllDigits : Text → Type 0
AllDigits [] = Unit
AllDigits (c ∷ cs) = (is_digit c ≡ true) × AllDigits cs

AllDigits-append : (xs ys : Text) → AllDigits xs → AllDigits ys → AllDigits (xs ++ ys)
AllDigits-append [] ys h k = k
AllDigits-append (x ∷ xs) ys (h, hs) k = (h, AllDigits-append xs ys hs k)

last_digit : (n : ℕ) → is_digit (b'0' + n % 10) ≡ true
last_digit n = ground arith

AllDigits-digits : (k n : ℕ) → AllDigits (digits k n)
unfolding digits
AllDigits-digits zero n = tt
AllDigits-digits (suc k) n = elim (Bool-cases (ltb n 10)) [
  | inl small ↦ rw small (last_digit n, tt)
  | inr large ↦
      rw large
        (AllDigits-append (digits k (n / 10)) _ (AllDigits-digits k (n / 10)) (last_digit n, tt))
]

-- Digits are read to their end, and the next ones behind them.
scan_digits-append :
    (acc : ℕ) (xs ys : Text)
    → AllDigits xs
    → scan_digits acc (xs ++ ys) ≡ scan_digits (scan_digits acc xs) ys
unfolding scan_digits
scan_digits-append acc [] ys h = refl
scan_digits-append acc (x ∷ xs) ys (h, hs) =
    rw h (scan_digits-append (acc * 10 + (x - b'0')) xs ys hs)

scan_last :
    (acc n : ℕ) (rest : Text)
    → scan_digits acc ((b'0' + n % 10) ∷ rest) ≡ scan_digits (acc * 10 + n % 10) rest
unfolding scan_digits
scan_last acc n rest = rw (last_digit n) (ap (λ m. scan_digits m rest) (omega arith))

scan-digits : (k n : ℕ) → n < k → scan_digits 0 (digits k n) ≡ n
unfolding digits scan_digits
scan-digits zero n h = absurd (omega arith)
scan-digits (suc k) n h = elim (Bool-cases (ltb n 10)) [
  | inl small ↦ rw small (scan_last 0 n [] ∙ ground arith)
  | inr large ↦
      let ih = scan-digits k (n / 10) (ground arith) in
      rw large (
        scan_digits-append 0 (digits k (n / 10)) _ (AllDigits-digits k (n / 10))
        ∙ (rw ih (scan_last (n / 10) n [] ∙ omega arith)))
]

-- What comes behind the digits begins with none.
abbrev pub Ends : Text → Type 0
Ends [] = Unit
Ends (c ∷ cs) = is_digit c ≡ false

stops : (n : ℕ) (rest : Text) → Ends rest → scan_digits n rest ≡ n
unfolding scan_digits
stops n [] h = refl
stops n (c ∷ cs) h = rw h refl

pub read_decimal-decimal : (n : ℕ) (rest : Text) → Ends rest → read_decimal (decimal n ++ rest) ≡ n
unfolding read_decimal decimal
read_decimal-decimal n rest h =
    scan_digits-append 0 (digits (suc n) n) rest (AllDigits-digits (suc n) n)
    ∙ ap (λ m. scan_digits m rest) (scan-digits (suc n) n (omega arith))
    ∙ stops n rest h

pub decimal-injective : (m n : ℕ) → decimal m ≡ decimal n → m ≡ n
decimal-injective m n e =
    sym (read_decimal-decimal m [] tt)
    ∙ ap (λ t. read_decimal (t ++ [])) e
    ∙ read_decimal-decimal n [] tt

abbrev pub power_of_ten : ℕ → ℕ
power_of_ten zero = 1
power_of_ten (suc k) = 10 * power_of_ten k

-- A number below a power of ten has no more digits than that power has zeros.
length-digits : (j k n : ℕ) → n < power_of_ten (suc j) → length (digits k n) ≤ suc j
unfolding digits
length-digits j zero n h = omega arith
length-digits zero (suc k) n h =
    let small : ltb n 10 ≡ true = ground arith in rw small (omega arith)
length-digits (suc i) (suc k) n h =
    let p : ℕ = power_of_ten (suc i) in
    let less : n / 10 < p = omega arith in
    let ih = length-digits i k (n / 10) less in
    elim (Bool-cases (ltb n 10)) [
      | inl small ↦ rw small (omega arith)
      | inr large ↦
          rw (large, length-append (digits k (n / 10)) ((b'0' + n % 10) ∷ [])) (omega (arith, ih))
    ]

-- An `int` that is not negative has at most ten.
pub length-decimal : (n : ℕ) → n < 10_000_000_000 → length (decimal n) ≤ 10
unfolding decimal
length-decimal n h = length-digits 9 (suc n) n h

pub length-decimal_9 : (n : ℕ) → n < 1_000_000_000 → length (decimal n) ≤ 9
unfolding decimal
length-decimal_9 n h = length-digits 8 (suc n) n h

atoi-AllDigits : (t : Text) → AllDigits t → t ≢ [] → atoi t ≡ pos (read_decimal t)
unfolding atoi read_signed
atoi-AllDigits [] h n = absurd (n refl)
atoi-AllDigits (c ∷ cs) (h, hs) n = ground arith

snoc-ne-nil : (xs : Text) (y : ℕ) → xs ++ (y ∷ []) ≢ []
snoc-ne-nil [] y e = cc
snoc-ne-nil (x ∷ xs) y e = cc

pub decimal-ne-nil : (n : ℕ) → decimal n ≢ []
unfolding decimal digits
decimal-ne-nil n = snoc-ne-nil _ (b'0' + n % 10)

pub length-decimal_4 : (n : ℕ) → n < 10_000 → length (decimal n) ≤ 4
unfolding decimal
length-decimal_4 n h = length-digits 3 (suc n) n h

pub atoi-decimal : (n : ℕ) → atoi (decimal n) ≡ pos n
unfolding decimal digits
atoi-decimal n =
    atoi-AllDigits (decimal n) (AllDigits-digits (suc n) n) (snoc-ne-nil _ (b'0' + n % 10))
    ∙ ap (λ t. pos (read_decimal t)) (sym (append-nil (decimal n)))
    ∙ ap pos (read_decimal-decimal n [] tt)
