-- ===== src/TimerQueue/Tests.antt =====
-- Timers in the year 2020.
use Prim.Native.Nat.{◌*◌}
use cevent_loop.Prelude.{
  ℕ, ◌+◌, ◌≡◌, refl, Bool, true, false, List, [], ◌∷◌, arith, Option, ok, ◌>>=◌, ◌==◌,
}
use cevent_loop.TimerQueue.{
  Timestamp, TimerQueue, Adding, assert_in_loop, reset_timer_fd, empty, add_all, handle_read,
  new_timer, microseconds_per_second,
}
use cevent_loop.TimerQueue.Firing.{handle_read_fires_nothing, only_first_kept}

abbrev at_second : ℕ → Timestamp
at_second n = record { microseconds_since_epoch = (1_580_000_000 + n) * microseconds_per_second }

abbrev one_timer : TimerQueue ℕ
one_timer = record {
  timers =
      (at_second 1, record { callback = 7; expiration = at_second 1; repeat = false; sequence = 0 })
      ∷ [];
  armed = Option.none;
  loop = Option.some 4;
}

handle_read_fires_nothing_example :
    handle_read (λ l. l == 4) (at_second 5) (at_second 5) one_timer ≡ (
      assert_in_loop (λ l. l == 4) one_timer >>= λ asserted.
      ok ([], reset_timer_fd (at_second 5) (at_second 5) one_timer))
handle_read_fires_nothing_example =
    handle_read_fires_nothing (λ l. l == 4) (at_second 5) (at_second 5) one_timer (omega arith)

asserted : assert_in_loop (λ l. l == 4) one_timer ≡ ok tt
unfolding assert_in_loop
asserted = refl

abbrev later_call : List (Timestamp × ℕ × Timestamp × Bool)
later_call = (at_second 0, 8, at_second 2, true) ∷ []

only_first_kept_example :
    (s : Adding ℕ) × (add_all
        (λ l. l == 4)
        ((at_second 0, 7, at_second 9, false) ∷ later_call)
        (record { created = 0; queue = empty (Option.some 4); queued = [] })
      ≡ ok s)
    × (s.queue.timers ≡ (at_second 9, (new_timer {T = ℕ} 7 (at_second 9) false 0).0) ∷ [])
only_first_kept_example =
    only_first_kept {T = ℕ} (λ l. l == 4) 4 refl (at_second 0) (at_second 9) 7 false later_call 0
      (omega arith) (omega arith)
