-- ===== src/TcpServer/Life.antt =====
-- The life of a connection of a server, over all the loops that have a part in it.
use cevent_loop.Prelude.{ℕ, ◌≡◌, true, none, List, [], ◌∷◌, ◌++◌, Exec, ◌>>=◌}
use cevent_loop.Prelude.Int.{ℤ}
use cevent_loop.Buffer.{stored, contents}
use cevent_loop.Poller.{Poller}
use cevent_loop.ThreadPool.{ThreadPool}
use cevent_loop.TcpConnection.{Net, disconnected, connected, handle_read}
use cevent_loop.TcpConnection.Deeds.{Deed, deeds}
use cevent_loop.TcpClient.{Socket}
use cevent_loop.TcpServer.Registry.{Registry, Represents, comes, goes, spec_act}
use cevent_loop.TcpServer.Hosting.{Hosted, hooks, take_functor, take_functors}
use cevent_loop.TcpServer.Hosting.{host}
use cevent_loop.TcpServer.Session.{User, app, cb, speech, hear_all}

-- What is left of a connection when its life is over.
pub record Lived {U : Type 0} (user : User U) (ds : List Deed) (fd : ℤ) (r : Registry)
    (w : Hosted U) (s : Net (Hosted U)) : Type 0 where
  pub unlisted : Represents s.world.server (spec_act (goes w.server.free) (spec_act (comes fd) r))
  pub told : s.world.user ≡ user.told disconnected (hear_all user ds (user.told connected w.user))
  pub sent : s.wire ++ contents s.conn.output_buffer ≡ speech ds
  pub down : s.conn.state ≡ disconnected
  pub unmapped : s.poller.channels fd ≡ none
  pub kept_open : s.closed ≡ []

module _ {U : Type 0} (user : User U) (k : Socket) (io time : ℕ) (ds : List Deed) where
  -- The server's loop makes the connection, its loop establishes it, the deeds happen (`app` has the
  -- callbacks of `cb`), the input ends, and the two loops take what that queues.
  unfoldable pub life : Poller → Hosted U → Exec (Net (Hosted U))
  unfolding host take_functor take_functors deeds handle_read hooks
  life p w = do
    let c = w.server.free
    s₁ ← host (cb user w.server.free) k p w >>= take_functor (cb user c) c io
    s₂ ← deeds (app user c) ds s₁
    handle_read (cb user c) true time (stored []) s₂
        >>= take_functors (cb user c) c (w.server.loop ∷ io ∷ [])

  module _ (p : Poller) (w : Hosted U) where
    abbrev c : ℕ
    c = w.server.free
