-- ===== src/Prelude/Int.antt =====
-- `int` values: descriptors and indices, where -1 is no descriptor and no index.
use Prim.Native.Nat.{ℕ}
use mathlib.Core.Path.{◌≡◌}
use mathlib.Core.Logic.{◌↔◌}
use mathlib.Core.Bool.{Bool, true, false}
use native.Mathlib.Omega.{arith}
use cevent_loop.Prelude.Tests.{◌==◌}

-- `negsuc n` is -(n + 1).
pub data ℤ : Type 0 where
  pos : ℕ → ℤ
  negsuc : ℕ → ℤ

abbrev pub is_negative : ℤ → Bool
is_negative (pos n) = false
is_negative (negsuc n) = true

unfoldable pub same : ℤ → ℤ → Bool
same (pos a) (pos b) = a == b
same (pos a) (negsuc b) = false
same (negsuc a) (pos b) = false
same (negsuc a) (negsuc b) = a == b

pub same_iff : (a b : ℤ) → (same a b ≡ true) ↔ (a ≡ b)
unfolding same
same_iff (pos a) (pos b) = ground arith
same_iff (pos a) (negsuc b) = ground arith
same_iff (negsuc a) (pos b) = ground arith
same_iff (negsuc a) (negsuc b) = ground arith
