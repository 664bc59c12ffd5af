-- ===== src/TcpClient/Dialling.antt =====
-- CEventLoop/TcpClient.cc over Connector.cc: the connector's callback, which the constructor of the client
-- sets, and what an attempt comes to.
use cevent_loop.Prelude.{ℕ, ◌+◌, ◌≡◌, true, Option, some, ◌++◌, Exec, ok, ◌>>=◌}
use cevent_loop.Prelude.Int.{ℤ}
use cevent_loop.Prelude.Text.{Text, codes}
use cevent_loop.Buffer.{contents}
use cevent_loop.Poller.{Poller}
use cevent_loop.SocketsOps.{Ntop, get_addr}
use cevent_loop.InetAddress.{to_ip_port_text}
use cevent_loop.TcpConnection.{Net, Callbacks, took, connected}
use cevent_loop.TcpConnection.Keeping.{IsValid}
use cevent_loop.Connector.{Connector}
use cevent_loop.TcpClient.{TcpClient, Socket, conn_name, new_connection}
use cevent_loop.TcpClient.Established.{greeting}

-- The client, the connection that it has made, and the rest of the program.
pub record Session (W : Type 0) : Type 0 where
  pub client : TcpClient
  pub net : Option (Net W)
  pub user : W

module _ {W : Type 0} (ntop : Ntop) (peer : Option Text) (cb : Callbacks W) (n : ℕ)
    (k : Socket) where
  -- `[&](int sockfd) { this->newConnection(sockfd); }`, in the thread of the loop.
  unfoldable pub on_connected : ℤ → Connector (Session W) → Exec (Connector (Session W))
  unfolding new_connection
  on_connected fd t = do
    (c, net) ←
        new_connection ntop true peer (greeting cb (took n)) (record k { fd = fd }) t.poller
          t.world.user t.world.client
    ok (record t {
      poller = net.poller;
      world = record { client = c; net = some net; user = net.world };
    })

  -- The client after one connection more.
  abbrev pub named : TcpClient → TcpClient
  named c = record c {
    next_conn_id = c.next_conn_id + 1;
    connection =
        some (
          conn_name c.name (to_ip_port_text ntop (record { bytes = get_addr peer }))
            c.next_conn_id);
  }

  -- What the attempt leaves.
  pub record Dialled (s s' : Connector (Session W)) (net : Net W) : Type 0 where
    pub handed : s'.world.net ≡ some net
    pub numbered : s'.world.client ≡ named s.world.client
    pub one_poller : s'.poller ≡ net.poller
    pub settled : s'.state ≡ connected
    pub kept_open : s'.closed ≡ s.closed
    pub ready : IsValid net
    pub up : net.conn.state ≡ connected
    pub greeted : net.wire ++ contents net.conn.output_buffer ≡ codes "Hello World"
