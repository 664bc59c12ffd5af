-- ===== src/TimerQueue/Firing.antt =====
-- Which timers run, by the comparison that the map is given.
use cevent_loop.Prelude.{
  ℕ, ◌≤◌, ◌≡◌, refl, Bool, true, false, some, List, [], ◌∷◌, arith, ap, ◌∙◌, ok, ◌>>=◌,
  if◌then◌else◌,
}
use cevent_loop.Prelude.OrderedMap.{before, from, insert}
use cevent_loop.TimerQueue.{
  Timestamp, Timer, TimerQueue, less, microseconds_per_second, add_timer, handle_read, empty,
  add_all, new_timer, Adding, assert_in_loop, is_in_loop_thread, reset_timer_fd, insert_timer,
  add_timer_in_loop, is_earliest,
}

-- A time later than the first second of the epoch, as every time of a clock that was set is.
abbrev pub IsCurrent : Timestamp → Type 0
IsCurrent t = microseconds_per_second ≤ t.microseconds_since_epoch

abbrev pub AllCurrent : {T : Type 0} → List (Timestamp × Timer T) → Type 0
AllCurrent [] = Unit
AllCurrent (e ∷ es) = IsCurrent e.0 × AllCurrent es

less-false : (t u : Timestamp) → IsCurrent t → less t u ≡ false
unfolding less
less-false t u h = ground arith

module _ {T : Type 0} where
  before_nothing :
      (k : Timestamp) (es : List (Timestamp × Timer T)) → AllCurrent es → before less k es ≡ []
  unfolding before
  before_nothing k [] h = refl
  before_nothing k (e ∷ es) h = rw (less-false e.0 k h.0) refl

  from_all : (k : Timestamp) (es : List (Timestamp × Timer T)) → AllCurrent es → from less k es ≡ es
  unfolding from
  from_all k [] h = refl
  from_all k (e ∷ es) h = rw (less-false e.0 k h.0) refl

  -- `handleRead` runs no timer and takes none out of the queue, whatever the time is, if no timer's time
  -- lies in the first second of the epoch: if `loop_`, which is never set, happens to name the loop of the
  -- caller's thread, it only sets the descriptor, and otherwise it fails.
  pub handle_read_fires_nothing :
      (here : ℕ → Bool) (current later : Timestamp) (q : TimerQueue T)
      → AllCurrent q.timers
      → handle_read here current later q
        ≡ (assert_in_loop here q >>= λ asserted. ok ([], reset_timer_fd current later q))
  unfolding handle_read reset_timer_fd
  handle_read_fires_nothing here current later q h =
      rw (before_nothing current q.timers h, from_all current q.timers h) refl

  insert_lost :
      (k : Timestamp) (v : Timer T) (e : Timestamp × Timer T) (es : List (Timestamp × Timer T))
      → IsCurrent k
      → IsCurrent e.0
      → insert less k v (e ∷ es) ≡ e ∷ es
  unfolding insert
  insert_lost k v e es h g = rw (less-false e.0 k g, less-false k e.0 h) refl

  -- The times of some calls of `addTimer` are current.
  abbrev pub CurrentCalls : List (Timestamp × T × Timestamp × Bool) → Type 0
  CurrentCalls [] = Unit
  CurrentCalls ((current, cb, when, repeat) ∷ more) = IsCurrent when × CurrentCalls more

module _ {T : Type 0} (here : ℕ → Bool) (l : ℕ) (inside : here l ≡ true) where
  -- What a call of `addTimer` in the loop's thread leaves.
  record Inserted (timer : Timer T) (s s' : Adding T) : Type 0 where
    timers_eq : s'.queue.timers ≡ insert less timer.expiration timer s.queue.timers
    loop_eq : s'.queue.loop ≡ some l

  found_inside : (q : TimerQueue T) → q.loop ≡ some l → is_in_loop_thread here q ≡ ok true
  unfolding is_in_loop_thread
  found_inside q e = rw (e, inside) refl

  asserted_inside : (q : TimerQueue T) → q.loop ≡ some l → assert_in_loop here q ≡ ok tt
  unfolding assert_in_loop
  asserted_inside q e = rw (found_inside q e) refl

  maybe_reset :
      (b : Bool) (expiration current : Timestamp) (q : TimerQueue T)
      → let q' = if b then reset_timer_fd expiration current q else q in
        (q'.timers ≡ q.timers) × (q'.loop ≡ q.loop)
  unfolding reset_timer_fd
  maybe_reset true expiration current q = (refl, refl)
  maybe_reset false expiration current q = (refl, refl)

  add_timer_in_loop-Inserted :
      (current : Timestamp) (timer : Timer T) (q : TimerQueue T)
      → q.loop ≡ some l
      → (q' : TimerQueue T) × (add_timer_in_loop here current timer q ≡ ok q')
        × (q'.timers ≡ insert less timer.expiration timer q.timers)
        × (q'.loop ≡ some l)
  unfolding add_timer_in_loop insert_timer
  add_timer_in_loop-Inserted current timer q e =
      let q₁ : TimerQueue T = record q { timers = insert less timer.expiration timer q.timers } in
      let first = is_earliest timer.expiration q.timers in
      let (same, owned) = maybe_reset first timer.expiration current q₁ in
      (
        if first then reset_timer_fd timer.expiration current q₁ else q₁,
        rw (asserted_inside q e) refl,
        same,
        owned ∙ e,
      )

  runs_at_once :
      (current when : Timestamp) (cb : T) (repeat : Bool) (s : Adding T) (q : TimerQueue T)
      → s.queue.loop ≡ some l
      → add_timer_in_loop here current (new_timer cb when repeat s.created).0 s.queue ≡ ok q
      → let created' = (new_timer cb when repeat s.created).1 in
        add_timer here current cb when repeat s
        ≡ ok (created', record s { created = created'; queue = q })
  unfolding add_timer
  runs_at_once current when cb repeat s q e f = rw (f, found_inside s.queue e) refl

  add_timer-Inserted :
      (current when : Timestamp) (cb : T) (repeat : Bool) (s : Adding T)
      → s.queue.loop ≡ some l
      → (n : ℕ) × (s' : Adding T) × (add_timer here current cb when repeat s ≡ ok (n, s'))
        × Inserted (new_timer cb when repeat s.created).0 s s'
  unfolding new_timer
  add_timer-Inserted current when cb repeat s e =
      let (timer, created') = new_timer cb when repeat s.created in
      let (q, f, g, h) = add_timer_in_loop-Inserted current timer s.queue e in
      (
        created',
        record s { created = created'; queue = q },
        runs_at_once current when cb repeat s q e f,
        record { timers_eq = g; loop_eq = h },
      )

  kept_alone :
      (more : List (Timestamp × T × Timestamp × Bool)) (s : Adding T) (e : Timestamp × Timer T)
      → s.queue.loop ≡ some l
      → s.queue.timers ≡ e ∷ []
      → IsCurrent e.0
      → CurrentCalls more
      → (s' : Adding T) × (add_all here more s ≡ ok s') × (s'.queue.timers ≡ e ∷ [])
  unfolding add_all
  kept_alone [] s e loop alone c cs = (s, refl, alone)
  kept_alone ((current, cb, when, repeat) ∷ more) s e loop alone c cs =
      let (n, s₁, f, m) = add_timer-Inserted current when cb repeat s loop in
      let timer = (new_timer cb when repeat s.created).0 in
      let still = ap (insert less when timer) alone ∙ insert_lost when timer e [] cs.0 c in
      let (s', g, h) = kept_alone more s₁ e m.loop_eq (m.timers_eq ∙ still) c cs.1 in
      (s', rw (f, ◌>>=◌, g) refl, h)

  -- `loop_` of a new queue is never set. Where it happens to name the loop of the caller's thread, calls
  -- of `addTimer` go through, for times after the first second of the epoch and any intervals: the first
  -- timer stays and every later one is dropped.
  pub only_first_kept :
      (current when : Timestamp) (cb : T) (repeat : Bool)
      (more : List (Timestamp × T × Timestamp × Bool)) (created : ℕ)
      → IsCurrent when
      → CurrentCalls more
      → (s : Adding T) × (add_all here
            ((current, cb, when, repeat) ∷ more)
            (record { created = created; queue = empty (some l); queued = [] })
          ≡ ok s)
        × (s.queue.timers ≡ (when, (new_timer cb when repeat created).0) ∷ [])
  unfolding add_all empty insert new_timer
  only_first_kept current when cb repeat more created h cs =
      let s₀ : Adding T = record { created = created; queue = empty (some l); queued = [] } in
      let (n, s₁, f, m) = add_timer-Inserted current when cb repeat s₀ refl in
      let timer = (new_timer cb when repeat created).0 in
      let (s, g, k) = kept_alone more s₁ (when, timer) m.loop_eq m.timers_eq h cs in
      (s, rw (f, ◌>>=◌, g) refl, k)
