-- ===== src/TcpServer/Hosting.antt =====
-- CEventLoop/TcpServer.cc: a connection of the server, with the callbacks that `newConnection` gives it
-- and with what the functors that the loops take do to it.
use cevent_loop.Prelude.{ℕ, List, [], ◌∷◌, Option, some, true, ◌==◌, if◌then◌else◌, Exec, ok, ◌>>=◌}
use cevent_loop.Poller.{Poller}
use cevent_loop.TcpClient.{Socket, connection_of}
use cevent_loop.TcpConnection.{Net, Callbacks, connect_established, connect_destroyed}
use cevent_loop.TcpConnection.Hooks.{
  no_callbacks, set_connection_callback, set_message_callback, set_close_callback,
}
use cevent_loop.TcpServer.{
  TcpServer, Task, listens, quits, establishes, destroys, removes, remove_connection_in_loop,
  run_first, new_connection,
}

-- The server, and what its user keeps.
pub record Hosted (U : Type 0) : Type 0 where
  pub server : TcpServer
  pub user : U

module _ {U : Type 0} where
  abbrev pub with_server : TcpServer → Net (Hosted U) → Net (Hosted U)
  with_server server s = record s { world = record s.world { server = server } }

  -- The three callbacks that `newConnection` sets, on the connection `c`.
  unfoldable pub hooks :
      ℕ
      → Option (Net (Hosted U) → Exec (Net (Hosted U)))
      → Option (ℕ → Net (Hosted U) → Exec (Net (Hosted U)))
      → Callbacks (Hosted U)
  unfolding no_callbacks set_connection_callback set_message_callback set_close_callback
      remove_connection_in_loop
  hooks c connection_cb message_cb =
      set_close_callback
        (some (λ s. ok (with_server (remove_connection_in_loop c s.world.server) s)))
        (set_message_callback message_cb (set_connection_callback connection_cb no_callbacks))

  -- `newConnection` in the thread of the server's loop, with the object that it makes. A connection of
  -- that loop is established at once, and any other by a functor.
  unfoldable pub host : Callbacks (Hosted U) → Socket → Poller → Hosted U → Exec (Net (Hosted U))
  unfolding new_connection connection_of connect_established
  host cb k poller w = do
    server ← new_connection true k.fd w.server
    let s = connection_of k poller (record w { server = server })
    if (server.heap w.server.free).io_loop == server.loop
        then connect_established cb true s
        else ok s

  -- What a functor does to the connection `c`; what it does to the server is in `run_first`.
  unfoldable pub carry_out :
      Callbacks (Hosted U) → ℕ → Task → Net (Hosted U) → Exec (Net (Hosted U))
  unfolding connect_established connect_destroyed
  carry_out cb c listens s = ok s
  carry_out cb c quits s = ok s
  carry_out cb c (removes d) s = ok s
  carry_out cb c (establishes d) s = if d == c then connect_established cb true s else ok s
  carry_out cb c (destroys d) s = if d == c then connect_destroyed cb true s else ok s

  -- One functor of a loop.
  unfoldable pub take_functor :
      Callbacks (Hosted U) → ℕ → ℕ → Net (Hosted U) → Exec (Net (Hosted U))
  unfolding run_first carry_out
  take_functor cb c l s = elim (s.world.server.queue l) [
    | [] ↦ ok s
    | t ∷ ts ↦ run_first l s.world.server >>= λ server. carry_out cb c t (with_server server s)
  ]

  -- Loops that take a functor each, one after the other.
  unfoldable pub take_functors :
      Callbacks (Hosted U) → ℕ → List ℕ → Net (Hosted U) → Exec (Net (Hosted U))
  unfolding take_functor
  take_functors cb c [] s = ok s
  take_functors cb c (l ∷ ls) s = take_functor cb c l s >>= take_functors cb c ls
