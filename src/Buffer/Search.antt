-- ===== src/Buffer/Search.antt =====
-- `findCRLF`: where it points, and when it finds nothing.
use cevent_loop.Prelude.{
  ℕ, zero, suc, ◌+◌, ◌<◌, ◌≡◌, refl, inl, inr, List, [], ◌∷◌, arith, drop, true, false, none, some,
  Option-cases,
}
use cevent_loop.Buffer.{Buffer, is_prefix, search_for, find_crlf, contents, peek, crlf}

-- No match starts before the one that is found.
search_for-first :
    (ns xs : List ℕ) (i j : ℕ)
    → search_for ns xs ≡ some i
    → j < i
    → is_prefix ns (drop j xs) ≡ false
unfolding search_for
search_for-first ns [] i j e h = cc
search_for-first ns (x ∷ xs) zero j e h = absurd (omega arith)
search_for-first ns (x ∷ xs) (suc i) zero e h = ground arith
search_for-first ns (x ∷ xs) (suc i) (suc j) e h =
    let found : search_for ns xs ≡ some i = ground arith in
    search_for-first ns xs i j found (omega arith)

search_for-hit :
    (ns xs : List ℕ) (i : ℕ) → search_for ns xs ≡ some i → is_prefix ns (drop i xs) ≡ true
unfolding search_for
search_for-hit ns [] i e = cc
search_for-hit ns (x ∷ xs) zero e = ground arith
search_for-hit ns (x ∷ xs) (suc i) e =
    let found : search_for ns xs ≡ some i = ground arith in search_for-hit ns xs i found

search_for-miss :
    (n : ℕ) (ns xs : List ℕ) (j : ℕ)
    → search_for (n ∷ ns) xs ≡ none
    → is_prefix (n ∷ ns) (drop j xs) ≡ false
unfolding search_for
search_for-miss n ns [] zero e = refl
search_for-miss n ns [] (suc j) e = refl
search_for-miss n ns (x ∷ xs) zero e = ground arith
search_for-miss n ns (x ∷ xs) (suc j) e =
    let missed : search_for (n ∷ ns) xs ≡ none = ground arith in search_for-miss n ns xs j missed

-- `findCRLF` returns the null pointer only if no line end starts anywhere in the readable bytes;
-- otherwise it points at a line end there, and none starts before it.
pub find_crlf_lem :
    (b : Buffer)
    → (find_crlf b ≡ none → (j : ℕ) → is_prefix crlf (drop j (contents b)) ≡ false)
      × ((p : ℕ)
          → find_crlf b ≡ some p
          → (i : ℕ) × (p ≡ peek b + i)
            × (is_prefix crlf (drop i (contents b)) ≡ true)
            × ((j : ℕ) → j < i → is_prefix crlf (drop j (contents b)) ≡ false))
unfolding find_crlf
find_crlf_lem b = elim (Option-cases (search_for crlf (contents b))) [
  | inl missed ↦ (
    λ h j. search_for-miss 13 (10 ∷ []) (contents b) j missed,
    λ p h. let no : none ≡ some p = rw missed at h in cc no,
  )
  | inr (i, found) ↦ (
    λ h j. let no : some (peek b + i) ≡ none = rw found at h in cc no,
    λ p h.
        let there : some (peek b + i) ≡ some p = rw found at h in
        (
          i,
          cc there,
          search_for-hit crlf (contents b) i found,
          λ j l. search_for-first crlf (contents b) i j found l,
        ),
  )
]
