-- ===== src/ThreadPool/Turns.antt =====
-- `getNextLoop` takes the loops in turn.
use cevent_loop.Prelude.{
  Exec-cases, inl, inr, fault, length-drop, dec_lt, ℕ, zero, suc, ◌+◌, ◌-◌, ◌≤◌, ◌<◌, ◌≡◌, ◌≢◌,
  refl, ap, ◌∙◌, true, some, List, [], ◌∷◌, ◌++◌, leb, if◌then◌else◌, length, get_elem?, take, drop,
  Exec, ok, ◌>>=◌, arith,
}
use cevent_loop.Prelude.Segments.{take_of_length-le}
use cevent_loop.Prelude.Elements.{get_elem?-of_lt}
use cevent_loop.ThreadPool.{ThreadPool, get_next_loop, get_loops}

abbrev pub at : ℕ → ThreadPool → ThreadPool
at i p = record p { next = i }

abbrev pub wrap : ℕ → ℕ → ℕ
wrap n i = if leb n i then 0 else i

drop-next :
    (xs : List ℕ) (i : ℕ) {x : ℕ} → get_elem? xs i ≡ some x → drop i xs ≡ x ∷ drop (suc i) xs
drop-next [] i e = absurd (cc)
drop-next (y ∷ ys) zero e = ground arith
drop-next (y ∷ ys) (suc i) e = drop-next ys i e

not-nil : (xs : List ℕ) (i : ℕ) {x : ℕ} → get_elem? xs i ≡ some x → xs ≢ []
not-nil [] i e n = cc
not-nil (y ∷ ys) i e n = cc

pub one_turn :
    (p : ThreadPool) (i : ℕ) {x : ℕ}
    → get_elem? p.loops i ≡ some x
    → get_next_loop true (at i p) ≡ ok (x, at (wrap (length p.loops) (i + 1)) p)
unfolding get_next_loop
one_turn p i e = let n = not-nil p.loops i e in ground (arith, e)

-- `k` calls that do not go past the end.
turns :
    (p : ThreadPool) (k i : ℕ)
    → i < length p.loops
    → i + k ≤ length p.loops
    → get_loops k (at i p) ≡ ok (take k (drop i p.loops), at (wrap (length p.loops) (i + k)) p)
unfolding get_loops
turns p zero i l h =
    let e : i ≡ wrap (length p.loops) (i + 0) = ground arith in ap (λ j. ok ([], at j p)) e
turns p (suc k) i l h =
    let (x, e) = get_elem?-of_lt p.loops i l in
    elim (dec_lt (i + 1) (length p.loops)) [
      | yes more ↦
          let inside : wrap (length p.loops) (i + 1) ≡ suc i = ground arith in
          let same : suc i + k ≡ i + suc k = omega arith in
          rw
            (
              one_turn p i e,
              ◌>>=◌,
              inside,
              turns p k (suc i) (omega arith) (omega arith),
              drop-next p.loops i e,
              same,
            )
            refl
      | no last ↦
          let none_left : k ≡ 0 = omega arith in
          let wrapped : wrap (length p.loops) (i + 1) ≡ 0 = ground arith in
          rw (none_left, one_turn p i e, ◌>>=◌, wrapped, drop-next p.loops i e) refl
    ]

-- The calls of two runs in a row.
abbrev and_then : ℕ → Exec (List ℕ × ThreadPool) → Exec (List ℕ × ThreadPool)
and_then k r = r >>= λ a. get_loops k a.1 >>= λ b. ok (a.0 ++ b.0, b.1)

abbrev put_first : ℕ → Exec (List ℕ × ThreadPool) → Exec (List ℕ × ThreadPool)
put_first l r = r >>= λ b. ok (l ∷ b.0, b.1)

and_then-none : (r : Exec (List ℕ × ThreadPool)) → r ≡ (r >>= λ b. ok ([] ++ b.0, b.1))
and_then-none (ok a) = refl
and_then-none (fault e) = refl

and_then-put_first :
    (k l : ℕ) (r : Exec (List ℕ × ThreadPool))
    → put_first l (and_then k r) ≡ and_then k (put_first l r)
and_then-put_first k l (fault e) = refl
and_then-put_first k l (ok (ls, q)) = elim (Exec-cases (get_loops k q)) [
  | inl (b, e) ↦ rw e refl
  | inr (f, e) ↦ rw e refl
]

get_loops-add : (j k : ℕ) (p : ThreadPool) → get_loops (j + k) p ≡ and_then k (get_loops j p)
unfolding get_loops
get_loops-add zero k p = let e : 0 + k ≡ k = omega arith in rw e (and_then-none (get_loops k p))
get_loops-add (suc j) k p =
    let e : suc j + k ≡ suc (j + k) = omega arith in
    elim (Exec-cases (get_next_loop true p)) [
      | inl ((l, q), m) ↦ rw (e, m, get_loops-add j k q) (and_then-put_first k l (get_loops j q))
      | inr (f, m) ↦ rw (e, m) refl
    ]

-- As many calls of `getNextLoop` as there are loops give each loop once, beginning where the counter
-- stands and going round, and leave the pool as it was.
pub full_turn :
    (p : ThreadPool)
    → p.next < length p.loops
    → get_loops (length p.loops) p ≡ ok (drop p.next p.loops ++ take p.next p.loops, p)
full_turn p h = rw (split, get_loops-add (n - p.next) p.next p, first, second) refl
  where
    n : ℕ
    n = length p.loops

    split : n ≡ n - p.next + p.next
    split = omega arith

    first : get_loops (n - p.next) p ≡ ok (drop p.next p.loops, at 0 p)
    first =
        let fits =
          take_of_length-le (n - p.next) (drop p.next p.loops)
            (omega (arith, length-drop p.next p.loops)) in
        let wrapped : wrap n (p.next + (n - p.next)) ≡ 0 = ground arith in
        turns p (n - p.next) p.next h (omega arith) ∙ (rw (fits, wrapped) refl)

    second : get_loops p.next (at 0 p) ≡ ok (take p.next p.loops, p)
    second =
        let back : wrap n (0 + p.next) ≡ p.next = ground arith in
        turns p p.next 0 (omega arith) (omega arith) ∙ (rw back refl)
