-- ===== src/Prelude/Flags.antt =====
-- Bit masks of events: the tests and the unions that the code makes of them.
use Prim.Native.Nat.{
  ℕ, zero, suc, ◌+◌, ◌*◌, ◌/◌, ◌%◌, ◌≤◌, min, max, bit_and, bit_or, digits, bit_and-bitwise,
  bit_or-bitwise,
}
use mathlib.Core.Path.{◌≡◌, refl}
use native.Mathlib.Omega.{arith}

-- The digits of a result do not depend on the fuel, once it covers the left number.
module _ (low : ℕ → ℕ) (op : ℕ → ℕ → ℕ) where
  digits-fuel : (n m a b : ℕ) → a ≤ n → a ≤ m → digits low op n a b ≡ digits low op m a b
  digits-fuel zero zero a b p q = refl
  digits-fuel zero (suc m) zero b p q = refl
  digits-fuel zero (suc m) (suc a) b p q = absurd (omega arith)
  digits-fuel (suc n) zero zero b p q = refl
  digits-fuel (suc n) zero (suc a) b p q = absurd (omega arith)
  digits-fuel (suc n) (suc m) zero b p q = refl
  digits-fuel (suc n) (suc m) (suc a) b p q =
      omega (arith, digits-fuel n m (suc a / 2) (b / 2) (omega arith) (omega arith))

-- One digit of a union and of an intersection.
or_digit : (a b : ℕ) → bit_or a b ≡ bit_or (a / 2) (b / 2) * 2 + max (a % 2) (b % 2)
or_digit zero b = omega (arith, bit_or-bitwise 0 b, bit_or-bitwise 0 (b / 2))
or_digit (suc a) b = omega (
  arith,
  bit_or-bitwise (suc a) b,
  bit_or-bitwise (suc a / 2) (b / 2),
  digits-fuel (λ x. x) max a (suc a / 2) (suc a / 2) (b / 2) (omega arith) (omega arith),
)

and_digit : (a b : ℕ) → bit_and a b ≡ bit_and (a / 2) (b / 2) * 2 + min (a % 2) (b % 2)
and_digit zero b = omega (arith, bit_and-bitwise 0 b, bit_and-bitwise 0 (b / 2))
and_digit (suc a) b = omega (
  arith,
  bit_and-bitwise (suc a) b,
  bit_and-bitwise (suc a / 2) (b / 2),
  digits-fuel (λ x. 0) min a (suc a / 2) (suc a / 2) (b / 2) (omega arith) (omega arith),
)

none-or : (b : ℕ) → bit_or 0 b ≡ b
none-or b = bit_or-bitwise 0 b

and-none_fuel : (n a : ℕ) → a ≤ n → bit_and a 0 ≡ 0
and-none_fuel zero a h = let e : a ≡ 0 = omega arith in rw e (bit_and-bitwise 0 0)
and-none_fuel (suc n) a h = omega (arith, and_digit a 0, and-none_fuel n (a / 2) (omega arith))

and-none : (a : ℕ) → bit_and a 0 ≡ 0
and-none a = and-none_fuel a a (omega arith)

and_one : (a : ℕ) → bit_and a 1 ≡ a % 2
and_one a = omega (arith, and_digit a 1, and-none (a / 2))

and_two : (a : ℕ) → bit_and a 2 ≡ a / 2 % 2 * 2
and_two a = omega (arith, and_digit a 2, and_one (a / 2))

-- POLLOUT is one digit of a mask, POLLIN and POLLPRI are two.
and_four : (a : ℕ) → bit_and a 4 ≡ a / 4 % 2 * 4
and_four a = omega (arith, and_digit a 4, and_two (a / 2))

and_three : (a : ℕ) → bit_and a 3 ≡ a % 4
and_three a = omega (arith, and_digit a 3, and_one (a / 2))

or_three : (a : ℕ) → bit_or 3 a ≡ a / 4 * 4 + 3
or_three a = omega (arith, or_digit 3 a, or_digit 1 (a / 2), none-or (a / 2 / 2))

or_four : (a : ℕ) → bit_or 4 a ≡ a / 8 * 8 + 4 + a % 4
or_four a =
    omega (arith, or_digit 4 a, or_digit 2 (a / 2), or_digit 1 (a / 2 / 2), none-or (a / 2 / 2 / 2))

-- Asking for reading and for writing are independent.
pub and_three-or_three : (a : ℕ) → bit_and (bit_or 3 a) 3 ≡ 3
and_three-or_three a = omega (arith, and_three (bit_or 3 a), or_three a)

pub and_four-or_three : (a : ℕ) → bit_and (bit_or 3 a) 4 ≡ bit_and a 4
and_four-or_three a = omega (arith, and_four (bit_or 3 a), and_four a, or_three a)

pub and_four-or_four : (a : ℕ) → bit_and (bit_or 4 a) 4 ≡ 4
and_four-or_four a = omega (arith, and_four (bit_or 4 a), or_four a)

pub and_three-or_four : (a : ℕ) → bit_and (bit_or 4 a) 3 ≡ bit_and a 3
and_three-or_four a = omega (arith, and_three (bit_or 4 a), and_three a, or_four a)
