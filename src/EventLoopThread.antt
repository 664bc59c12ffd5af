-- ===== src/EventLoopThread.antt =====
-- CEventLoop/EventLoopThread.cc and EventloopThread.h: `startLoop`, which waits until the new thread has
-- made its loop, `threadFunc`, which that thread runs, and the destructor.
mod Tests
pub mod Handshake
use cevent_loop.Prelude.{ℕ, zero, suc, ◌≡◌, ◌<◌, refl, Bool, List, [], ◌∷◌, if◌then◌else◌}

-- Where the caller of `startLoop` is: before the thread is made, at the test of the `while`, blocked in
-- `wait`, returned with a pointer, or past the `join` of the destructor.
pub data Caller : Type 0 where
  outside testing waiting destroyed : Caller
  returned : ℕ → Caller

-- Where `threadFunc` is: not yet made, before the callback, before the first lock, in `loop()`, or at its
-- end.
pub data Worker : Type 0 where
  unborn preparing ready looping over : Worker

-- `loop_` is an address, and 0 is the null pointer; whether `callback_` is set, and the loops that it was
-- called with.
pub record EventLoopThread : Type 0 where
  pub loop : ℕ
  pub caller : Caller
  pub worker : Worker
  pub callback : Bool
  pub inits : List ℕ

-- The constructor does not set `loop_`.
abbrev pub new : Bool → ℕ → EventLoopThread
new callback stale = record {
  loop = stale;
  caller = outside;
  worker = unborn;
  callback = callback;
  inits = [];
}

-- `cond_.notify_all()`
unfoldable pub notified : Caller → Caller
notified outside = outside
notified testing = testing
notified waiting = testing
notified destroyed = destroyed
notified (returned p) = returned p

-- A step of one of the two threads; the loop of the new thread is at `address`.
pub data Step (address : ℕ) : EventLoopThread → EventLoopThread → Type 0 where
  launch :
      {s : EventLoopThread}
      → s.caller ≡ outside
      → Step address s (record s { caller = testing; worker = preparing })
  finds_null :
      {s : EventLoopThread}
      → s.caller ≡ testing
      → s.loop ≡ 0
      → Step address s (record s { caller = waiting })
  finds_loop :
      {s : EventLoopThread}
      → s.caller ≡ testing
      → 0 < s.loop
      → Step address s (record s { caller = returned s.loop })
  wakes :
      {s : EventLoopThread} → s.caller ≡ waiting → Step address s (record s { caller = testing })
  initialises :
      {s : EventLoopThread}
      → s.worker ≡ preparing
      → Step address s
          (record s { worker = ready; inits = if s.callback then address ∷ s.inits else s.inits })
  announces :
      {s : EventLoopThread}
      → s.worker ≡ ready
      → Step address s (record s { loop = address; caller = notified s.caller; worker = looping })
  finishes :
      {s : EventLoopThread}
      → s.worker ≡ looping
      → Step address s (record s { loop = 0; worker = over })
  joins :
      {s : EventLoopThread} {p : ℕ}
      → s.caller ≡ returned p
      → s.worker ≡ over
      → Step address s (record s { caller = destroyed })

pub data Reach (address : ℕ) (start : EventLoopThread) : EventLoopThread → Type 0 where
  here : Reach address start start
  step : {s t : EventLoopThread} → Reach address start s → Step address s t → Reach address start t
