-- ===== src/Prelude/Elements.antt =====
-- Elements by position: what `push_back`, `pop_back` and an exchange do to each of them.
use Prim.Native.Nat.{ℕ, zero, suc, ◌<◌}
use mathlib.Core.Path.{◌≡◌, refl, ap}
use mathlib.Core.Logic.{◌⊎◌, inl, inr}
use mathlib.Core.List.{List, [], ◌∷◌, ◌++◌}
use mathlib.Core.Option.{some}
use native.Mathlib.Omega.{arith}
use cevent_loop.Prelude.Lists.{length, take, get_elem?}

module _ {ℓ} {A : Type ℓ} where
  pub get_elem?-lt-length : (xs : List A) (i : ℕ) {x : A} → get_elem? xs i ≡ some x → i < length xs
  get_elem?-lt-length [] i e = absurd (cc)
  get_elem?-lt-length (x ∷ xs) zero e = omega arith
  get_elem?-lt-length (x ∷ xs) (suc i) e = omega (arith, get_elem?-lt-length xs i e)

  pub get_elem?-of_lt : (xs : List A) (i : ℕ) → i < length xs → (x : A) × (get_elem? xs i ≡ some x)
  get_elem?-of_lt [] i h = absurd (omega arith)
  get_elem?-of_lt (x ∷ xs) zero h = (x, refl)
  get_elem?-of_lt (x ∷ xs) (suc i) h = get_elem?-of_lt xs i (omega arith)

  pub get_elem?-append_left :
      (xs ys : List A) (i : ℕ) → i < length xs → get_elem? (xs ++ ys) i ≡ get_elem? xs i
  get_elem?-append_left [] ys i h = absurd (omega arith)
  get_elem?-append_left (x ∷ xs) ys zero h = refl
  get_elem?-append_left (x ∷ xs) ys (suc i) h = get_elem?-append_left xs ys i (omega arith)

  pub get_elem?-push_last : (xs : List A) (x : A) → get_elem? (xs ++ (x ∷ [])) (length xs) ≡ some x
  get_elem?-push_last [] x = refl
  get_elem?-push_last (y ∷ xs) x = get_elem?-push_last xs x

  -- What stands in a list after `push_back`.
  pub get_elem?-push_cases :
      (xs : List A) (x y : A) (i : ℕ)
      → get_elem? (xs ++ (x ∷ [])) i ≡ some y
      → (get_elem? xs i ≡ some y) ⊎ ((i ≡ length xs) × (y ≡ x))
  get_elem?-push_cases [] x y zero e = inr (refl, cc)
  get_elem?-push_cases [] x y (suc i) e = absurd (cc)
  get_elem?-push_cases (z ∷ xs) x y zero e = inl e
  get_elem?-push_cases (z ∷ xs) x y (suc i) e = elim (get_elem?-push_cases xs x y i e) [
    | inl h ↦ inl h
    | inr h ↦ inr (ap suc h.0, h.1)
  ]

  pub get_elem?-take :
      (n : ℕ) (xs : List A) (i : ℕ) → i < n → get_elem? (take n xs) i ≡ get_elem? xs i
  get_elem?-take zero xs i h = absurd (omega arith)
  get_elem?-take (suc n) [] i h = refl
  get_elem?-take (suc n) (x ∷ xs) zero h = refl
  get_elem?-take (suc n) (x ∷ xs) (suc i) h = get_elem?-take n xs i (omega arith)

  pub get_elem?-take_lt :
      (n : ℕ) (xs : List A) (i : ℕ) {x : A} → get_elem? (take n xs) i ≡ some x → i < n
  get_elem?-take_lt zero xs i e = absurd (cc)
  get_elem?-take_lt (suc n) [] i e = absurd (cc)
  get_elem?-take_lt (suc n) (y ∷ xs) zero e = omega arith
  get_elem?-take_lt (suc n) (y ∷ xs) (suc i) e = omega (arith, get_elem?-take_lt n xs i e)
