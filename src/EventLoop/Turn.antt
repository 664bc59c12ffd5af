-- ===== src/EventLoop/Turn.antt =====
-- CEventLoop/EventLoop.cc: what `loop` does with what `poll` brings, over the channels of Poller and the
-- callbacks of Channel.
use cevent_loop.Prelude.{
  ℕ, ◌+◌, Bool, true, false, not, ◌&&◌, Option, none, some, List, [], ◌∷◌, ◌++◌, ltb, if◌then◌else◌,
  Exec, ok, ◌>>=◌,
}
use cevent_loop.Prelude.Int.{ℤ}
use cevent_loop.Channel.{
  Callbacks, has, pollin, pollpri, pollout, pollerr, pollhup, pollnval, pollrdhup, handle_event,
  set_active_events,
}
use cevent_loop.Poller.{Poller, PollFd, Polled, poll, modify}

-- The poller with its channels, and what the callbacks change besides.
pub record Reactor (W : Type 0) : Type 0 where
  pub poller : Poller
  pub world : W

-- A callback.
abbrev pub Handler : Type 0 → Type 0
Handler W = Reactor W → Exec (Reactor W)

module _ {W : Type 0} where
  unfoldable pub cleared : ℕ → Reactor W → Reactor W
  cleared c s = record s { poller = modify (set_active_events 0) c s.poller }

  -- `currentActiveChannel_->handleEvent(pollReturnTime)`: the channel at an address, which leads to its
  -- callbacks too. The last statement of `handleEvent` is done on the channel as it is by then.
  unfoldable pub handle_channel : (ℕ → Callbacks (Reactor W)) → ℕ → ℕ → Reactor W → Exec (Reactor W)
  unfolding handle_event cleared
  handle_channel cbs time c s =
      handle_event (cbs c) time (s.poller.heap c) s >>= λ r. ok (cleared c r.0)

  unfoldable pub handle_channels :
      (ℕ → Callbacks (Reactor W)) → ℕ → List ℕ → Reactor W → Exec (Reactor W)
  unfolding handle_channel
  handle_channels cbs time [] s = ok s
  handle_channels cbs time (c ∷ cs) s =
      handle_channel cbs time c s >>= λ s'. handle_channels cbs time cs s'

  -- `poll`, and the `for` over the active channels.
  unfoldable pub poll_and_handle :
      (ℕ → Callbacks (Reactor W)) → Polled → Reactor W → Exec (Reactor W)
  unfolding poll handle_channels
  poll_and_handle cbs p s = do
    (time, q, active) ← poll p s.poller
    handle_channels cbs time active (record s { poller = q })

  -- The callbacks that are called for some events, in order.
  abbrev pub called : Bool → Option (Handler W) → List (Handler W)
  called false f = []
  called true none = []
  called true (some f) = f ∷ []

  abbrev pub at_time : ℕ → Option (ℕ → Handler W) → Option (Handler W)
  at_time time none = none
  at_time time (some f) = some (f time)

  abbrev pub calls : Callbacks (Reactor W) → ℕ → ℕ → List (Handler W)
  calls cb time r =
      called (has r pollhup && not (has r pollin)) cb.close
      ++ (called (has r (pollerr + pollnval)) cb.error
          ++ (called (has r (pollin + pollpri + pollrdhup)) (at_time time cb.read)
              ++ called (has r pollout) cb.write))

  abbrev pub run_all : List (Handler W) → Reactor W → Exec (Reactor W)
  run_all [] s = ok s
  run_all (f ∷ fs) s = f s >>= λ s'. run_all fs s'

  -- What is due: channels with their events. For each its callbacks, and then it has no events.
  unfoldable pub spec_turn :
      (ℕ → Callbacks (Reactor W)) → ℕ → List (ℕ × ℕ) → Reactor W → Exec (Reactor W)
  spec_turn cbs time [] s = ok s
  spec_turn cbs time ((c, r) ∷ rest) s =
      run_all (calls (cbs c) time r) s >>= λ s'. spec_turn cbs time rest (cleared c s')

-- The channels whose entries have events, in the order of the array, with the events.
unfoldable pub due : (ℤ → Option ℕ) → List PollFd → List (ℕ × ℕ)
due channels [] = []
due channels (p ∷ ps) =
    if ltb 0 p.revents
    then elim (channels p.fd) [ none ↦ due channels ps | some c ↦ (c, p.revents) ∷ due channels ps ]
    else due channels ps

-- The events stored in the channels.
unfoldable pub mark_all : List (ℕ × ℕ) → Poller → Poller
unfolding modify set_active_events
mark_all [] s = s
mark_all ((c, r) ∷ rest) s = mark_all rest (modify (set_active_events r) c s)
