-- ===== src/EventLoop.antt =====
-- CEventLoop/EventLoop.h and EventLoop.cc: the loop, its queue of functors and its wakeup descriptor.
-- A call says whether it is made in the loop's own thread.

mod Tests
mod TurnTests
pub mod Pending
pub mod Threads
pub mod Invariant
pub mod Rounds
pub mod Looping
pub mod Ending
pub mod Turn
pub mod Lifetime
pub mod Handlers
pub mod Due
pub mod Dispatching
use cevent_loop.Prelude.{
  ℕ, ◌≡◌, Bool, true, false, not, ◌||◌, List, [], ◌∷◌, ◌++◌, if◌then◌else◌, Exec, ok, fault,
  not_in_loop_thread, assertion_failed, ◌>>=◌,
}

-- The eventfd, of which the loop uses that a write makes it readable.
pub record EventFd : Type 1 where
  pub Fd : Type 0
  pub write : Fd → Fd
  pub read : Fd → Fd
  pub ready : Fd → Bool
  pub ready-write : (e : Fd) → ready (write e) ≡ true

-- What a functor asks of the loop that runs it. What it gives to `runInLoop` is run at once, as a part
-- of the functor.
pub data Request (T : Type 0) : Type 0 where
  queue : T → Request T
  request_quit : Request T

-- The functors are values of `T`; `perform` is what one does to the rest of the program, and what it
-- asks of the loop, in order.
pub record Program : Type 1 where
  pub event_fd : EventFd
  pub T : Type 0
  pub W : Type 0
  pub perform : T → W → W × List (Request T)

module _ (P : Program) where
  open P use {event_fd, T, W, perform}

  -- `quit_`, `looping_`, `callingPendingFunctors_`, `pendingFunctors_` and the eventfd, and the rest of
  -- the program.
  pub record EventLoop : Type 0 where
    pub quit_flag : Bool
    pub looping : Bool
    pub calling : Bool
    pub pending : List T
    pub wakeup_fd : event_fd.Fd
    pub world : W

  unfoldable pub new : event_fd.Fd → W → EventLoop
  new fd w = record {
    quit_flag = false;
    looping = false;
    calling = false;
    pending = [];
    wakeup_fd = fd;
    world = w;
  }

  unfoldable pub assert_in_loop_thread : Bool → EventLoop → Exec EventLoop
  assert_in_loop_thread here s = if here then ok s else fault not_in_loop_thread

  unfoldable pub wakeup : EventLoop → EventLoop
  wakeup s = record s { wakeup_fd = event_fd.write s.wakeup_fd }

  unfoldable pub handle_read : EventLoop → EventLoop
  handle_read s = record s { wakeup_fd = event_fd.read s.wakeup_fd }

  unfoldable pub queue_in_loop : Bool → T → EventLoop → EventLoop
  unfolding wakeup
  queue_in_loop here t s =
      let s' = record s { pending = s.pending ++ (t ∷ []) } in
      if not here || s.calling then wakeup s' else s'

  unfoldable pub quit : Bool → EventLoop → EventLoop
  unfolding wakeup
  quit here s = let s' = record s { quit_flag = true } in if here then s' else wakeup s'

  -- The calls that code in the loop's thread makes.
  unfoldable pub serve : List (Request T) → EventLoop → EventLoop
  serve [] s = s
  serve (queue t ∷ rs) s = serve rs (queue_in_loop true t s)
  serve (request_quit ∷ rs) s = serve rs (quit true s)

  -- `functor()`
  unfoldable pub run_functor : T → EventLoop → EventLoop
  run_functor t s = serve (perform t s.world).1 (record s { world = (perform t s.world).0 })

  unfoldable pub run_in_loop : Bool → T → EventLoop → EventLoop
  run_in_loop here t s = if here then run_functor t s else queue_in_loop false t s

  unfoldable pub run_functors : List T → EventLoop → EventLoop
  run_functors [] s = s
  run_functors (t ∷ ts) s = run_functors ts (run_functor t s)

  -- `functors.swap(pendingFunctors_)`, with the flag that is set next.
  unfoldable pub take_pending : EventLoop → EventLoop
  take_pending s = record s { pending = []; calling = true }

  unfoldable pub end_pending : EventLoop → EventLoop
  end_pending s = record s { calling = false }

  unfoldable pub do_pending_functors : EventLoop → EventLoop
  unfolding take_pending end_pending
  do_pending_functors s = end_pending (run_functors s.pending (take_pending s))

  -- One channel that `poll` found: the wakeup channel, or another one, whose callbacks change the
  -- program and ask for things.
  pub data Event : Type 0 where
    woken : Event
    handled : (W → W × List (Request T)) → Event

  unfoldable pub handle : Event → EventLoop → EventLoop
  unfolding handle_read
  handle woken s = handle_read s
  handle (handled f) s = serve (f s.world).1 (record s { world = (f s.world).0 })

  unfoldable pub handle_all : List Event → EventLoop → EventLoop
  handle_all [] s = s
  handle_all (e ∷ es) s = handle_all es (handle e s)

  -- The `while` loop, over what `poll` brings in each round, and whether it has ended.
  unfoldable pub rounds : List (List Event) → EventLoop → Bool × EventLoop
  rounds [] s = (s.quit_flag, s)
  rounds (es ∷ more) s =
      let next = rounds more (do_pending_functors (handle_all es s)) in
      if s.quit_flag then (true, s) else next

  -- `loop`: whether it has returned, and the state.
  unfoldable pub loop : List (List Event) → EventLoop → Exec (Bool × EventLoop)
  unfolding rounds
  loop schedule s =
      if s.looping
      then fault assertion_failed
      else (let (done, s') = rounds schedule (record s { looping = true }) in
          ok (done, if done then record s' { looping = false } else s'))
