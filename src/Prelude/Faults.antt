-- ===== src/Prelude/Faults.antt =====
-- What a call of the C++ code comes to: a value, or a fault. An `assert` that fails, an `abort`, an
-- access outside an object, a call of an empty `std::function` and an `int` that is counted past its end
-- are different faults.
use mathlib.Core.Path.{◌≡◌, refl}
use mathlib.Core.Logic.{◌⊎◌, inl, inr}

pub data Fault : Type 0 where
  assertion_failed aborted out_of_bounds null_pointer bad_function_call not_in_loop_thread
        int_overflow :
      Fault

pub data Exec {ℓ} (A : Type ℓ) : Type ℓ where
  ok : A → Exec A
  fault : Fault → Exec A

infixl 5 ◌>>=◌
abbrev pub ◌>>=◌ {ℓ κ} : {A : Type ℓ} {B : Type κ} → Exec A → (A → Exec B) → Exec B
ok a >>= f = f a
fault e >>= f = fault e

-- A call that faults leaves nothing to say of the state after it.
abbrev pub After {ℓ κ} : {A : Type ℓ} → (A → Type κ) → Exec A → Type κ
After P (ok a) = P a
After P (fault e) = Unit

pub Exec-cases {ℓ} :
    {A : Type ℓ} (m : Exec A) → ((a : A) × (m ≡ ok a)) ⊎ ((e : Fault) × (m ≡ fault e))
Exec-cases (ok a) = inl (a, refl)
Exec-cases (fault e) = inr (e, refl)
