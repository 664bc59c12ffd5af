-- ===== src/TimerQueue.antt =====
-- CEventLoop/Timestamp.h, Timer.h and TimerQueue.h with their .cc files. Times are microseconds since
-- the epoch, from the epoch on. A callback is a value of `T`.
mod Tests
pub mod Firing
pub mod Arming
use Prim.Native.Nat.{◌*◌, ◌/◌}
use cevent_loop.Prelude.{
  ℕ, ◌+◌, ◌-◌, ◌%◌, Bool, true, false, Option, none, some, List, [], ◌∷◌, map, ltb, if◌then◌else◌,
  ◌||◌, ◌++◌, Exec, ok, fault, null_pointer, not_in_loop_thread, ◌>>=◌,
}
use cevent_loop.Prelude.OrderedMap.{before, from, insert}

pub record Timestamp : Type 0 where
  pub microseconds_since_epoch : ℕ

abbrev pub microseconds_per_second : ℕ
microseconds_per_second = 1000 * 1000

-- `operator<`, which reads the constant and not the other time.
unfoldable pub less : Timestamp → Timestamp → Bool
less t u = ltb t.microseconds_since_epoch microseconds_per_second

-- `now` from what `gettimeofday` gives.
unfoldable pub now : ℕ → ℕ → Timestamp
now tv_sec tv_usec = record {
  microseconds_since_epoch = tv_sec * microseconds_per_second + tv_usec;
}

-- `interval_` is kept as `repeat_`, whether it is above zero.
pub record Timer (T : Type 0) : Type 0 where
  pub callback : T
  pub expiration : Timestamp
  pub repeat : Bool
  pub sequence : ℕ

-- The constructor, and `s_numCreated` after it.
unfoldable pub new_timer : {T : Type 0} → T → Timestamp → Bool → ℕ → Timer T × ℕ
new_timer cb when repeat created =
    (record { callback = cb; expiration = when; repeat = repeat; sequence = created }, created + 1)

-- `restart` has an empty body.
unfoldable pub restart : {T : Type 0} → Timestamp → Timer T → Timer T
restart t timer = timer

-- The two fields of the `timespec` that the descriptor is set to.
pub record TimeSpec : Type 0 where
  pub tv_sec : ℕ
  pub tv_nsec : ℕ

-- A time that has passed gives a negative difference in the source, and the same result.
unfoldable pub how_much_time_from_now : Timestamp → Timestamp → TimeSpec
how_much_time_from_now when current =
    let difference = when.microseconds_since_epoch - current.microseconds_since_epoch in
    let microseconds = if ltb difference 100 then 100 else difference in
    record {
      tv_sec = microseconds / microseconds_per_second;
      tv_nsec = (microseconds % microseconds_per_second) * 1000;
    }

-- `timers_`, what `timerfd_` was last set to, and what the memory of `loop_` holds, which no code sets:
-- a loop by its number, or nothing that is one.
pub record TimerQueue (T : Type 0) : Type 0 where
  pub timers : List (Timestamp × Timer T)
  pub armed : Option TimeSpec
  pub loop : Option ℕ

-- What `addTimer` works on: `s_numCreated`, the queue, and the timers whose `addTimerInLoop` waits in the
-- loop that `loop_` names.
pub record Adding (T : Type 0) : Type 0 where
  pub created : ℕ
  pub queue : TimerQueue T
  pub queued : List (Timer T)

module _ {T : Type 0} where
  -- The constructor, around what the memory of `loop_` held.
  unfoldable pub empty : Option ℕ → TimerQueue T
  empty stale = record { timers = []; armed = none; loop = stale }

  -- `ResetTimerFd`
  unfoldable pub reset_timer_fd : Timestamp → Timestamp → TimerQueue T → TimerQueue T
  unfolding how_much_time_from_now
  reset_timer_fd expiration current q = record q {
    armed = some (how_much_time_from_now expiration current);
  }

  -- `loop_->isInLoopThread()`; `here` says whose thread the caller is in.
  unfoldable pub is_in_loop_thread : (ℕ → Bool) → TimerQueue T → Exec Bool
  is_in_loop_thread here q = elim q.loop [ none ↦ fault null_pointer | some l ↦ ok (here l) ]

  -- `loop_->assertInLoopThread()`
  unfoldable pub assert_in_loop : (ℕ → Bool) → TimerQueue T → Exec {0} Unit
  unfolding is_in_loop_thread
  assert_in_loop here q = do
    inside ← is_in_loop_thread here q
    if inside then ok tt else fault not_in_loop_thread

  -- Whether the map is empty or the time is before its first key.
  unfoldable pub is_earliest : Timestamp → List (Timestamp × Timer T) → Bool
  unfolding less
  is_earliest when [] = true
  is_earliest when (e ∷ es) = less when e.0

  unfoldable pub insert_timer : (ℕ → Bool) → Timer T → TimerQueue T → Exec (Bool × TimerQueue T)
  unfolding assert_in_loop is_earliest insert less
  insert_timer here timer q = do
    asserted ← assert_in_loop here q
    ok (
      is_earliest timer.expiration q.timers,
      record q { timers = insert less timer.expiration timer q.timers },
    )

  unfoldable pub add_timer_in_loop :
      (ℕ → Bool) → Timestamp → Timer T → TimerQueue T → Exec (TimerQueue T)
  unfolding assert_in_loop insert_timer reset_timer_fd
  add_timer_in_loop here current timer q = do
    asserted ← assert_in_loop here q
    (changed, q') ← insert_timer here timer q
    ok (if changed then reset_timer_fd timer.expiration current q' else q')

  -- `addTimer`, with `loop_->runInLoop` written out: at once in the thread of the loop, and queued there
  -- from another one. The sequence number of the `TimerId` is the counter, read after the timer was made.
  unfoldable pub add_timer :
      (ℕ → Bool) → Timestamp → T → Timestamp → Bool → Adding T → Exec (ℕ × Adding T)
  unfolding new_timer is_in_loop_thread add_timer_in_loop
  add_timer here current cb when repeat s =
      let (timer, created') = new_timer cb when repeat s.created in
      let made : Adding T = record s { created = created' } in
      is_in_loop_thread here s.queue >>= λ inside.
      if inside
      then (add_timer_in_loop here current timer s.queue >>= λ q.
          ok (created', record made { queue = q }))
      else ok (created', record made { queued = s.queued ++ (timer ∷ []) })

  -- `handleRead`: the callbacks that run, in order, and the queue after it. `later` is the time when the
  -- descriptor is set.
  unfoldable pub handle_read :
      (ℕ → Bool) → Timestamp → Timestamp → TimerQueue T → Exec (List T × TimerQueue T)
  unfolding assert_in_loop reset_timer_fd before from less
  handle_read here current later q = do
    asserted ← assert_in_loop here q
    let q' = reset_timer_fd current later q in
        ok (
          map (λ e. e.1.callback) (before less current q'.timers),
          record q' { timers = from less current q'.timers },
        )

  -- Calls of `addTimer`, one after the other, each at a time, with a callback, a time and whether the
  -- interval is above zero.
  unfoldable pub add_all :
      (ℕ → Bool) → List (Timestamp × T × Timestamp × Bool) → Adding T → Exec (Adding T)
  unfolding add_timer
  add_all here [] s = ok s
  add_all here ((current, cb, when, repeat) ∷ more) s =
      add_timer here current cb when repeat s >>= λ (number, s'). add_all here more s'
