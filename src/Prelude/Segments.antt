-- ===== src/Prelude/Segments.antt =====
-- Ranges of a list by position: the part between two indices, and what a write does to it.
use Prim.Native.Nat.{ℕ, zero, suc, ◌+◌, ◌-◌, ◌≤◌}
use mathlib.Core.Path.{◌≡◌, refl, sym, ap, ◌∙◌}
use mathlib.Core.List.{List, [], ◌∷◌, ◌++◌, append_assoc}
use native.Mathlib.Omega.{arith}
use cevent_loop.Prelude.Lists.{length, take, drop, length-append, length-take, length-drop}

module _ {ℓ} {A : Type ℓ} where
  -- The elements at positions `i` up to `j`.
  abbrev pub segment : ℕ → ℕ → List A → List A
  segment i j xs = take (j - i) (drop i xs)

  -- `xs` with `ys` written over it from position `i` on.
  abbrev pub overwrite : List A → ℕ → List A → List A
  overwrite xs i ys = take i xs ++ (ys ++ drop (i + length ys) xs)

  pub take-nil : (n : ℕ) → take {A = A} n [] ≡ []
  take-nil zero = refl
  take-nil (suc n) = refl

  pub drop-nil : (n : ℕ) → drop {A = A} n [] ≡ []
  drop-nil zero = refl
  drop-nil (suc n) = refl

  pub take_of_length-le : (n : ℕ) (xs : List A) → length xs ≤ n → take n xs ≡ xs
  take_of_length-le n [] h = take-nil n
  take_of_length-le zero (x ∷ xs) h = absurd (omega arith)
  take_of_length-le (suc k) (y ∷ ys) h = ap (◌∷◌ y) (take_of_length-le k ys (omega arith))

  pub drop_of_length-le : (n : ℕ) (xs : List A) → length xs ≤ n → drop n xs ≡ []
  drop_of_length-le n [] h = drop-nil n
  drop_of_length-le zero (x ∷ xs) h = absurd (omega arith)
  drop_of_length-le (suc k) (x ∷ xs) h = drop_of_length-le k xs (omega arith)

  pub take-append-exact : (n : ℕ) (xs ys : List A) → n ≡ length xs → take n (xs ++ ys) ≡ xs
  take-append-exact zero [] ys e = refl
  take-append-exact zero (x ∷ xs) ys e = absurd (omega arith)
  take-append-exact (suc n) [] ys e = absurd (omega arith)
  take-append-exact (suc n) (x ∷ xs) ys e = ap (◌∷◌ x) (take-append-exact n xs ys (omega arith))

  pub drop-append-exact : (n : ℕ) (xs ys : List A) → n ≡ length xs → drop n (xs ++ ys) ≡ ys
  drop-append-exact zero [] ys e = refl
  drop-append-exact zero (x ∷ xs) ys e = absurd (omega arith)
  drop-append-exact (suc n) [] ys e = absurd (omega arith)
  drop-append-exact (suc n) (x ∷ xs) ys e = drop-append-exact n xs ys (omega arith)

  pub drop-drop : (i j : ℕ) (xs : List A) → drop j (drop i xs) ≡ drop (i + j) xs
  drop-drop zero j xs = let e : j ≡ 0 + j = omega arith in ap (λ n. drop n xs) e
  drop-drop (suc i) j [] = drop-nil j ∙ sym (drop-nil (suc i + j))
  drop-drop (suc i) j (x ∷ xs) =
      let e : suc (i + j) ≡ suc i + j = omega arith in
      drop-drop i j xs ∙ ap (λ n. drop n (x ∷ xs)) e

  pub drop-take : (i n : ℕ) (xs : List A) → drop i (take n xs) ≡ take (n - i) (drop i xs)
  drop-take zero n xs = let e : n ≡ n - 0 = omega arith in ap (λ k. take k xs) e
  drop-take (suc i) zero xs =
      let e : 0 ≡ 0 - suc i = omega arith in ap (λ k. take k (drop (suc i) xs)) e
  drop-take (suc i) (suc n) [] = sym (take-nil (suc n - suc i))
  drop-take (suc i) (suc n) (x ∷ xs) =
      let e : n - i ≡ suc n - suc i = omega arith in
      drop-take i n xs ∙ ap (λ k. take k (drop i xs)) e

  pub drop-append-le :
      (n : ℕ) (xs ys : List A) → n ≤ length xs → drop n (xs ++ ys) ≡ drop n xs ++ ys
  drop-append-le zero xs ys h = refl
  drop-append-le (suc n) [] ys h = absurd (omega arith)
  drop-append-le (suc n) (x ∷ xs) ys h = drop-append-le n xs ys (omega arith)

  pub take-append-le : (n : ℕ) (xs ys : List A) → n ≤ length xs → take n (xs ++ ys) ≡ take n xs
  take-append-le zero xs ys h = refl
  take-append-le (suc n) [] ys h = absurd (omega arith)
  take-append-le (suc n) (x ∷ xs) ys h = ap (◌∷◌ x) (take-append-le n xs ys (omega arith))

  pub take-take : (m n : ℕ) (xs : List A) → m ≤ n → take m (take n xs) ≡ take m xs
  take-take zero n xs h = refl
  take-take (suc m) zero xs h = absurd (omega arith)
  take-take (suc m) (suc n) [] h = refl
  take-take (suc m) (suc n) (x ∷ xs) h = ap (◌∷◌ x) (take-take m n xs (omega arith))

  pub length-segment : (i j : ℕ) (xs : List A) → j ≤ length xs → length (segment i j xs) ≡ j - i
  length-segment i j xs h = omega (arith, length-take (j - i) (drop i xs), length-drop i xs)

  pub length-overwrite :
      (xs : List A) (i : ℕ) (ys : List A)
      → i + length ys ≤ length xs
      → length (overwrite xs i ys) ≡ length xs
  length-overwrite xs i ys h = omega (
    arith,
    length-append (take i xs) (ys ++ drop (i + length ys) xs),
    length-append ys (drop (i + length ys) xs),
    length-take i xs,
    length-drop (i + length ys) xs,
  )

  pub drop-segment : (n i j : ℕ) (xs : List A) → drop n (segment i j xs) ≡ segment (i + n) j xs
  drop-segment n i j xs =
      let e : j - i - n ≡ j - (i + n) = omega arith in
      rw (drop-take n (j - i) (drop i xs), drop-drop i n xs, e)

  -- Writing at the end of a segment extends it by what is written.
  pub segment-overwrite :
      (xs : List A) (i j k : ℕ) (ys : List A)
      → i ≤ j
      → k ≡ j + length ys
      → k ≤ length xs
      → segment i k (overwrite xs j ys) ≡ segment i j xs ++ ys
  segment-overwrite xs i j k ys h e l =
      rw
        (
          drop-append-le i (take j xs) (ys ++ rest) (omega (arith, length-take j xs)),
          drop-take i j xs,
          ← append_assoc (segment i j xs) ys rest,
        )
        (take-append-exact (k - i) (segment i j xs ++ ys) rest fits)
    where
      rest : List A
      rest = drop (j + length ys) xs

      fits : k - i ≡ length (segment i j xs ++ ys)
      fits = omega (arith, length-append (segment i j xs) ys, length-segment i j xs (omega arith))

  take_add : (i j k : ℕ) (xs : List A) → k ≡ i + j → take i xs ++ take j (drop i xs) ≡ take k xs
  take_add zero j k xs e = ap (λ n. take n xs) (omega arith)
  take_add (suc i) j k [] e = take-nil j ∙ sym (take-nil k)
  take_add (suc i) j zero (x ∷ xs) e = absurd (omega arith)
  take_add (suc i) j (suc k) (x ∷ xs) e = ap (◌∷◌ x) (take_add i j k xs (omega arith))

  pub segment-split :
      (i m n : ℕ) (xs : List A)
      → segment i (i + m) xs ++ segment (i + m) (i + m + n) xs ≡ segment i (i + (m + n)) xs
  segment-split i m n xs =
      let left : i + m - i ≡ m = omega arith in
      let right : i + m + n - (i + m) ≡ n = omega arith in
      let whole : i + (m + n) - i ≡ m + n = omega arith in
      rw (left, right, whole, ← drop-drop i m xs) (take_add m n (m + n) (drop i xs) refl)

  pub segment-whole : (xs : List A) → segment 0 (0 + length xs) xs ≡ xs
  segment-whole xs = take_of_length-le (0 + length xs - 0) xs (omega arith)
