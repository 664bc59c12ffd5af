-- ===== src/Connector.antt =====
-- CEventLoop/Connector.h and Connector.cc: one attempt to connect, with the poller that its channel is
-- registered with. `here` says whether the caller is in the thread of the loop.
mod Tests
pub mod Channels
pub mod Addresses
pub mod Settling
use cevent_loop.Prelude.{
  ℕ, zero, suc, ◌+◌, Bool, true, false, Option, none, some, List, [], ◌∷◌, ◌==◌, if◌then◌else◌,
  Exec, ok, fault, ◌>>=◌, null_pointer, bad_function_call, not_in_loop_thread,
}
use cevent_loop.Prelude.Int.{ℤ}
use cevent_loop.Prelude.Maps.{store}
use cevent_loop.Channel
use cevent_loop.Channel.{Channel}
use cevent_loop.Poller.{Poller, enable_writing, disable_all, remove_channel, pointer}
use cevent_loop.TcpConnection.{States, disconnected, connecting, connected}

-- `errno` after `connect`: the values that the source names, and the others.
pub data Errno : Type 0 where
  in_progress interrupted is_connected : Errno
  again addr_in_use addr_not_avail conn_refused net_unreach : Errno
  access perm af_no_support already bad_fd bad_address not_sock : Errno
  other : Errno

-- What `connect` does with the descriptor.
pub data Verdict : Type 0 where
  wait retries gives_up : Verdict

-- The `switch`, where `none` is a call that returned 0.
abbrev pub verdict : Option Errno → Verdict
verdict none = wait
verdict (some in_progress) = wait
verdict (some interrupted) = wait
verdict (some is_connected) = wait
verdict (some again) = retries
verdict (some addr_in_use) = retries
verdict (some addr_not_avail) = retries
verdict (some conn_refused) = retries
verdict (some net_unreach) = retries
verdict (some access) = gives_up
verdict (some perm) = gives_up
verdict (some af_no_support) = gives_up
verdict (some already) = gives_up
verdict (some bad_fd) = gives_up
verdict (some bad_address) = gives_up
verdict (some not_sock) = gives_up
verdict (some other) = gives_up

abbrev pub is_connecting : States → Bool
is_connecting disconnected = false
is_connecting connecting = true
is_connecting connected = false

-- `connect_`, `state_` and `channel_`, with the poller, the descriptors that are closed, how many
-- functors wait that reset `channel_`, and the rest of the program.
pub record Connector (W : Type 0) : Type 0 where
  pub connect_flag : Bool
  pub state : States
  pub channel : Option ℕ
  pub poller : Poller
  pub closed : List ℤ
  pub resets : ℕ
  pub world : W

unfoldable pub new : {W : Type 0} → Poller → List ℤ → W → Connector W
new poller closed world = record {
  connect_flag = false;
  state = disconnected;
  channel = none;
  poller = poller;
  closed = closed;
  resets = 0;
  world = world;
}

module _ {W : Type 0} where
  abbrev pub invoke :
      Option (ℤ → Connector W → Exec (Connector W)) → ℤ → Connector W → Exec (Connector W)
  invoke none fd s = fault bad_function_call
  invoke (some f) fd s = f fd s

  -- `connecting(fd)`, with the address at which the channel is made and what its memory held.
  unfoldable pub start_connecting : ℕ → ℕ → ℕ → ℕ → ℤ → Connector W → Exec (Connector W)
  unfolding Channel.new
  start_connecting loop address stale_events stale_active fd s = do
    p ← enable_writing address (record s.poller {
      heap = store s.poller.heap address (Channel.new loop fd stale_events stale_active);
    })
    ok (record s { channel = some address; state = connecting; poller = p })

  -- `retry`: it closes the descriptor, and tries nothing again.
  unfoldable pub retry : ℤ → Connector W → Connector W
  retry fd s = record s { closed = fd ∷ s.closed; state = disconnected }

  -- `connect`, with the descriptor that the system made and what `connect` came to.
  unfoldable pub connect : Option Errno → ℕ → ℕ → ℕ → ℕ → ℤ → Connector W → Exec (Connector W)
  unfolding start_connecting retry
  connect e loop address stale_events stale_active fd s = elim (verdict e) [
    | wait ↦ start_connecting loop address stale_events stale_active fd s
    | retries ↦ ok (retry fd s)
    | gives_up ↦ ok (record s { closed = fd ∷ s.closed })
  ]

  unfoldable pub start_in_loop :
      Bool → Option Errno → ℕ → ℕ → ℕ → ℕ → ℤ → Connector W → Exec (Connector W)
  unfolding connect
  start_in_loop here e loop address stale_events stale_active fd s =
      if here
      then (if s.connect_flag then connect e loop address stale_events stale_active fd s else ok s)
      else fault not_in_loop_thread

  -- `start`, which hands `start_in_loop` to `runInLoop`.
  unfoldable pub start : Connector W → Connector W
  start s = record s { connect_flag = true }

  -- `removeAndResetChannel`
  unfoldable pub remove_and_reset_channel : Connector W → Exec (ℤ × Connector W)
  remove_and_reset_channel s = do
    c ← pointer s.channel
    p ← disable_all c s.poller
    q ← remove_channel c p
    ok ((q.heap c).fd, record s { poller = q; resets = s.resets + 1 })

  -- The functor that it queues.
  unfoldable pub reset_channel : Connector W → Connector W
  reset_channel s = record s { channel = none }

  -- `handleWrite` on a socket with an error and on one that is connected to itself, or not.
  unfoldable pub handle_write :
      Option (ℤ → Connector W → Exec (Connector W)) → ℕ → Bool → Connector W → Exec (Connector W)
  unfolding remove_and_reset_channel retry
  handle_write callback err self s =
      if is_connecting s.state
      then (do
        (fd, s₁) ← remove_and_reset_channel s
        if err == 0
            then (if self
                then ok (retry fd s₁)
                else (let s₂ = record s₁ { state = connected } in
                    if s₂.connect_flag
                    then invoke callback fd s₂
                    else ok (record s₂ { closed = fd ∷ s₂.closed })))
            else ok (retry fd s₁))
      else ok s
