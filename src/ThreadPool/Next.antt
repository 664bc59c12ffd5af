-- ===== src/ThreadPool/Next.antt =====
-- Every call of `getNextLoop` in the base loop's thread gives a loop.
use cevent_loop.Prelude.{ℕ, ◌+◌, ◌≡◌, ◌<◌, ◌⊎◌, inl, inr, true, [], ok, length, arith}
use cevent_loop.Prelude.Elements.{get_elem?-of_lt}
use cevent_loop.ThreadPool.{ThreadPool, get_next_loop}
use cevent_loop.ThreadPool.Turns.{one_turn, at, wrap}

-- No loops, or a counter within them.
abbrev pub InTurn : ThreadPool → Type 0
InTurn p = (p.loops ≡ []) ⊎ (p.next < length p.loops)

pub get_next_loop-InTurn :
    (p : ThreadPool)
    → InTurn p
    → (l : ℕ) × (p' : ThreadPool) × (get_next_loop true p ≡ ok (l, p')) × InTurn p'
unfolding get_next_loop
get_next_loop-InTurn p (inl e) = (p.base_loop, p, simp e, inl e)
get_next_loop-InTurn p (inr h) =
    let (x, e) = get_elem?-of_lt p.loops p.next h in
    (x, at (wrap (length p.loops) (p.next + 1)) p, one_turn p p.next e, inr (ground arith))
