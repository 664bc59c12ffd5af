-- ===== src/Prelude/Maps.antt =====
-- Maps as functions: a `std::map` whose order nobody reads, and the objects that pointers lead to.
use Prim.Native.Nat.{ℕ}
use mathlib.Core.Path.{◌≡◌}
use mathlib.Core.Logic.{◌≢◌, ◌⊎◌, inl, inr}
use mathlib.Core.Bool.{true, false}
use native.Mathlib.Omega.{arith}
use native.Mathlib.Decide.{ℕ_discrete}
use mathlib.Core.Logic.{◌⊎◌, inl, inr}
use mathlib.Core.Bool.{true, false}
use cevent_loop.Prelude.Tests.{Bool-cases, ◌==◌, if◌then◌else◌}
use cevent_loop.Prelude.Int.{ℤ, same, same_iff}

module _ {ℓ} {V : Type ℓ} where
  -- The map with `v` at the key.
  abbrev pub put : (ℤ → V) → ℤ → V → ℤ → V
  put m k v j = if same k j then v else m j

  -- The heap with `v` at the address.
  abbrev pub store : (ℕ → V) → ℕ → V → ℕ → V
  store h p v q = if p == q then v else h q

  pub put_self : (m : ℤ → V) (k : ℤ) (v : V) → put m k v k ≡ v
  put_self m k v = ground (arith, same_iff k k)

  pub put_ne : (m : ℤ → V) (k j : ℤ) (v : V) → k ≢ j → put m k v j ≡ m j
  put_ne m k j v h = ground (arith, same_iff k j)

  pub store_self : (h : ℕ → V) (p : ℕ) (v : V) → store h p v p ≡ v
  store_self h p v = ground arith

  pub store_ne : (h : ℕ → V) (p q : ℕ) (v : V) → p ≢ q → store h p v q ≡ h q
  store_ne h p q v n = ground arith

  -- What the map holds for a key after a write at another one, or the same.
  pub put_cases :
      (m : ℤ → V) (k j : ℤ) (v : V)
      → ((k ≡ j) × (put m k v j ≡ v)) ⊎ ((k ≢ j) × (put m k v j ≡ m j))
  put_cases m k j v = elim (Bool-cases (same k j)) [
    | inl t ↦ inl ((same_iff k j).0 t, rw t)
    | inr f ↦ inr ((λ e. differ e f), rw f)
  ]
    where
      differ : k ≡ j → same k j ≡ false → ⊥
      differ e f = let t : same k j ≡ true = (same_iff k j).1 e in cc (t, f)

  pub store_cases :
      (h : ℕ → V) (p q : ℕ) (v : V)
      → ((p ≡ q) × (store h p v q ≡ v)) ⊎ ((p ≢ q) × (store h p v q ≡ h q))
  store_cases h p q v = elim (ℕ_discrete p q) [
    | yes e ↦ inl (e, ground arith)
    | no n ↦ inr (n, store_ne h p q v n)
  ]
