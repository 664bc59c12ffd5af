-- ===== src/Acceptor.antt =====
-- CEventLoop/Acceptor.h and Acceptor.cc, with CEventLoop/Socket.h and Socket.cc: the listening socket,
-- and the descriptor that is kept back for the time when no other is left.
mod Tests
pub mod Ledger
use cevent_loop.Prelude.{
  ℕ, ◌+◌, Bool, true, false, Option, none, some, List, [], ◌∷◌, if◌then◌else◌, Exec, ok, fault,
  ◌>>=◌, not_in_loop_thread,
}
use cevent_loop.Prelude.Int.{ℤ, is_negative}
use cevent_loop.Prelude.Maps.{store}
use cevent_loop.Channel
use cevent_loop.Poller.{Poller, enable_reading, disable_all, remove_channel}

-- `acceptSocket_`, the address of `acceptChannel_`, and `idleFd_`, with the poller; the results of
-- `socket`, `accept` and `open`, the descriptors that were closed and those that were handed on; whether
-- the socket listens, and the rest of the program.
pub record Acceptor (W : Type 0) : Type 0 where
  pub accept_socket : ℤ
  pub channel : ℕ
  pub idle_fd : ℤ
  pub poller : Poller
  pub listening : Bool
  pub got : List ℤ
  pub closed : List ℤ
  pub handed : List ℤ
  pub world : W

-- The constructor, with what `socket` and `open` returned.
unfoldable pub new : {W : Type 0} → ℕ → ℕ → ℕ → ℕ → ℤ → ℤ → Poller → W → Acceptor W
unfolding Channel.new
new loop address stale_events stale_active socket idle poller world = record {
  accept_socket = socket;
  channel = address;
  idle_fd = idle;
  poller = record poller {
    heap = store poller.heap address (Channel.new loop socket stale_events stale_active);
  };
  listening = false;
  got = idle ∷ socket ∷ [];
  closed = [];
  handed = [];
  world = world;
}

-- What `accept` comes to: its result and whether `errno` is EMFILE then; and the results of the second
-- `accept` and of `open` where they are called.
pub record Arrival : Type 0 where
  pub connfd : ℤ
  pub emfile : Bool
  pub second : ℤ
  pub reopened : ℤ

module _ {W : Type 0} where
  unfoldable pub listen : Acceptor W → Exec (Acceptor W)
  listen s = do
    p ← enable_reading s.channel s.poller
    ok (record s { listening = true; poller = p })

  -- The branch for EMFILE.
  unfoldable pub swap_idle : Arrival → Acceptor W → Acceptor W
  swap_idle a s = record s {
    idle_fd = a.reopened;
    got = a.reopened ∷ a.second ∷ s.got;
    closed = a.second ∷ s.idle_fd ∷ s.closed;
  }

  -- The branch for a new descriptor.
  unfoldable pub deliver :
      Option (ℤ → Acceptor W → Exec (Acceptor W)) → ℤ → Acceptor W → Exec (Acceptor W)
  deliver none fd s = ok (record s { got = fd ∷ s.got; closed = fd ∷ s.closed })
  deliver (some f) fd s = f fd (record s { got = fd ∷ s.got; handed = fd ∷ s.handed })

  unfoldable pub handle_read :
      Option (ℤ → Acceptor W → Exec (Acceptor W)) → Bool → Arrival → Acceptor W → Exec (Acceptor W)
  unfolding swap_idle deliver
  handle_read callback here a s =
      if here
      then (if is_negative a.connfd
          then ok (if a.emfile then swap_idle a s else s)
          else deliver callback a.connfd s)
      else fault not_in_loop_thread

  -- `~Acceptor`. Nothing closes `acceptSocket_`.
  unfoldable pub destruct : Acceptor W → Exec (Acceptor W)
  destruct s = do
    p ← disable_all s.channel s.poller
    q ← remove_channel s.channel p
    ok (record s { poller = q; closed = s.idle_fd ∷ s.closed })
