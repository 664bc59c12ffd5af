-- ===== src/Echo/Wiring.antt =====
-- CEventLoop/Test/echo/echo.cc: the callbacks that the constructors set, and the two programs with a
-- network between them that brings each message whole.
use cevent_loop.Prelude.{
  ℕ, zero, suc, true, Option, none, some, [], ◌∷◌, if◌then◌else◌, length, drop, Exec, ok, ◌>>=◌,
}
use cevent_loop.Prelude.Text.{Text}
use cevent_loop.Buffer.{stored}
use cevent_loop.TcpConnection.{Net, Callbacks, Written, took, handle_read}
use cevent_loop.TcpConnection.Hooks.{no_callbacks}
use cevent_loop.TcpServer
use cevent_loop.TcpServer.Hosting.{Hosted, with_server, hooks}
use cevent_loop.TcpClient
use cevent_loop.TcpClient.{TcpClient, client_hooks}
use cevent_loop.Echo.{client_answer, server_on_message, client_on_connection, client_on_message}

module _ {U : Type 0} where
  -- `EchoServer::onMessage`, which stops the server of the connection.
  unfoldable pub echo_message : Written → ℕ → Net (Hosted U) → Exec (Net (Hosted U))
  unfolding server_on_message TcpServer.stop no_callbacks
  echo_message w time s = do
    (stops, t) ← server_on_message no_callbacks true w s
    ok (if stops then with_server (TcpServer.stop t.world.server) t else t)

  -- The connection `c` of an `EchoServer`; `w` is what its next write comes to.
  unfoldable pub echo_server_hooks : ℕ → Written → Callbacks (Hosted U)
  unfolding hooks echo_message
  echo_server_hooks c w = hooks c (some (λ s. ok s)) (some (echo_message w))

-- The connection of an `EchoClient`.
unfoldable pub echo_client_hooks : Written → Callbacks TcpClient
unfolding client_hooks client_on_connection client_on_message TcpClient.stop no_callbacks
echo_client_hooks w =
    client_hooks (some (client_on_connection no_callbacks true w))
      (some (λ time s. client_on_message no_callbacks true w s))
      (some (λ s. ok (record s { world = TcpClient.stop s.world })))

-- A message comes to the server, what it sends comes to the client, and so on until the server sends
-- nothing; each write takes everything. `none` where that has not come after so many messages.
module _ {U : Type 0} (c time : ℕ) where
  unfoldable pub exchange :
      ℕ → Text → Net (Hosted U) → Net TcpClient → Exec (Option (Net (Hosted U) × Net TcpClient))
  unfolding handle_read echo_server_hooks echo_client_hooks client_answer
  exchange zero message s t = ok none
  exchange (suc fuel) message s t =
      handle_read (echo_server_hooks c (took (length message))) true time (stored message) s
      >>= λ s'. elim (drop (length s.wire) s'.wire) [
        | [] ↦ ok (some (s', t))
        | x ∷ xs ↦ client_answer (x ∷ xs) >>= λ text.
            handle_read (echo_client_hooks (took (length text))) true time (stored (x ∷ xs)) t
            >>= λ t'. exchange fuel (drop (length t.wire) t'.wire) s' t'
      ]
