-- ===== src/ThreadPool/Tests.antt =====
-- Three io loops, of which the second is next.
use cevent_loop.Prelude.{◌+◌, ◌≡◌, refl, true, [], ◌∷◌, ok, arith}
use cevent_loop.ThreadPool.{ThreadPool, new, set_thread_num, start, get_next_loop, get_loops}
use cevent_loop.ThreadPool.Turns.{full_turn}

abbrev three : ThreadPool
three = record {
  base_loop = 9;
  started = true;
  num_threads = 3;
  next = 1;
  loops = 10 ∷ 11 ∷ 12 ∷ [];
}

start-three : start true (λ i. i + 10) (set_thread_num 3 (new 9)) ≡ ok (record three { next = 0 })
unfolding start set_thread_num new
start-three = refl

no_threads : get_next_loop true (new 9) ≡ ok (9, new 9)
unfolding get_next_loop new
no_threads = refl

full_turn_example : get_loops 3 three ≡ ok (11 ∷ 12 ∷ 10 ∷ [], three)
full_turn_example = full_turn three (omega arith)
