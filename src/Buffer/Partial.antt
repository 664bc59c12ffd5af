-- ===== src/Buffer/Partial.antt =====
-- A line whose end has not come.
use cevent_loop.Prelude.{ℕ, ◌+◌, ◌≤◌, ◌≡◌, refl, List, [], ◌∷◌, ◌++◌, arith, length, none}
use cevent_loop.Buffer.{Buffer, contents, find_crlf, search_for, is_prefix, crlf}
use cevent_loop.Buffer.Lines.{Absent}

pub cons-injective : {A : Type 0} {x y : A} {xs ys : List A} → x ∷ xs ≡ y ∷ ys → (x ≡ y) × (xs ≡ ys)
cons-injective e = (cc, cc)

-- A beginning of a line and its end that stops before the line feed.
pub search_for-short :
    (text more line rest : List ℕ)
    → text ++ more ≡ line ++ (13 ∷ 10 ∷ rest)
    → Absent 13 line
    → length text ≤ length line + 1
    → search_for crlf text ≡ none
unfolding search_for is_prefix
search_for-short [] more line rest e h l = refl
search_for-short (x ∷ []) more [] rest e h l = let (same, tail) = cons-injective e in rw same refl
search_for-short (x ∷ y ∷ text) more [] rest e h l = absurd (omega arith)
search_for-short (x ∷ text) more (y ∷ line) rest e (h, hs) l =
    let (same, tail) = cons-injective e in
    rw (same, h, search_for-short text more line rest tail hs (omega arith)) refl

pub find_crlf-short :
    (more line rest : List ℕ) (b : Buffer)
    → contents b ++ more ≡ line ++ (13 ∷ 10 ∷ rest)
    → Absent 13 line
    → length (contents b) ≤ length line + 1
    → find_crlf b ≡ none
unfolding find_crlf
find_crlf-short more line rest b e h l =
    rw (search_for-short (contents b) more line rest e h l) refl
