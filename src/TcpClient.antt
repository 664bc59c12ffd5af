-- ===== src/TcpClient.antt =====
-- CEventLoop/TcpClient.h and TcpClient.cc: the connection that a client makes of a descriptor.
mod Tests
pub mod Names
pub mod Greeting
pub mod Established
pub mod Dialling
pub mod Defaults
use cevent_loop.Prelude.{
  ℕ, ◌+◌, Bool, true, false, Option, none, some, List, [], ◌∷◌, ◌++◌, if◌then◌else◌, Exec, ok,
  fault, ◌>>=◌, not_in_loop_thread,
}
use cevent_loop.Prelude.Int.{ℤ}
use cevent_loop.Prelude.Maps.{store}
use cevent_loop.Prelude.Text.{Text, codes, decimal}
use cevent_loop.Buffer
use cevent_loop.Buffer.{append}
use cevent_loop.Channel
use cevent_loop.Poller.{Poller}
use cevent_loop.SocketsOps.{Ntop, get_addr, snprintf}
use cevent_loop.InetAddress.{to_ip_port_text}
use cevent_loop.TcpConnection
use cevent_loop.TcpConnection.Hooks.{
  no_callbacks, set_connection_callback, set_message_callback, set_close_callback,
}
use cevent_loop.TcpConnection.{Net, Callbacks, Written, connect_established, send_buffer}

-- The client: its name, the next number, the name of `connection_`, and how many functors wait that
-- quit the loop.
pub record TcpClient : Type 0 where
  pub name : Text
  pub next_conn_id : ℕ
  pub connection : Option Text
  pub quits : ℕ

unfoldable pub new : Text → TcpClient
new name = record { name = name; next_conn_id = 1; connection = none; quits = 0 }

unfoldable pub stop : TcpClient → TcpClient
stop c = record c { quits = c.quits + 1 }

-- `snprintf(buf, sizeof(buf), "%s#%d", ...)` behind the name of the client.
unfoldable pub conn_name : Text → Text → ℕ → Text
conn_name client ip_port id = client ++ snprintf 32 (ip_port ++ (b'#' ∷ decimal id))

-- The descriptor of a new connection, the address and the memory of the channel that is made for it, and
-- its loop.
pub record Socket : Type 0 where
  pub fd : ℤ
  pub loop : ℕ
  pub address : ℕ
  pub stale_events : ℕ
  pub stale_active : ℕ

-- The connection that is made of it.
unfoldable pub connection_of : {W : Type 0} → Socket → Poller → W → Net W
unfolding TcpConnection.new Channel.new
connection_of k poller world = record {
  conn = TcpConnection.new k.address;
  poller = record poller {
    heap = store poller.heap k.address (Channel.new k.loop k.fd k.stale_events k.stale_active);
  };
  wire = [];
  closed = [];
  write_ended = false;
  world = world;
}

-- `newConnection`, with what `getpeername` stores.
unfoldable pub new_connection :
    {W : Type 0}
    → Ntop
    → Bool
    → Option Text
    → Callbacks W
    → Socket
    → Poller
    → W
    → TcpClient
    → Exec (TcpClient × Net W)
unfolding conn_name connection_of connect_established
new_connection ntop here peer cb k poller world c =
    if here
    then (do
      let ip_port = to_ip_port_text ntop (record { bytes = get_addr peer })
      net ← connect_established cb here (connection_of k poller world)
      ok (
        record c {
          next_conn_id = c.next_conn_id + 1;
          connection = some (conn_name c.name ip_port c.next_conn_id);
        },
        net,
      ))
    else fault not_in_loop_thread

-- `defaultConnectionCallback`
unfoldable pub default_connection_callback :
    {W : Type 0} → Callbacks W → Bool → Written → Net W → Exec (Net W)
unfolding send_buffer append
default_connection_callback cb here w s = do
  buf ← append (codes "Hello World") (Buffer.new 1024)
  send_buffer cb here w buf s

-- `defaultMessageCallback`, which takes nothing out of the buffer.
unfoldable pub default_message_callback : {W : Type 0} → ℕ → Net W → Exec (Net W)
default_message_callback time s = ok s

-- What `newConnection` sets on the connection.
unfoldable pub client_hooks :
    {W : Type 0}
    → Option (Net W → Exec (Net W))
    → Option (ℕ → Net W → Exec (Net W))
    → Option (Net W → Exec (Net W))
    → Callbacks W
unfolding no_callbacks set_message_callback set_connection_callback set_close_callback
client_hooks connection_cb message_cb close_cb =
    set_close_callback close_cb
      (set_connection_callback connection_cb (set_message_callback message_cb no_callbacks))

-- What the constructor of the client stores, and what the user sets for the end of a connection; `w` is
-- what the write of the greeting comes to.
unfoldable pub default_hooks : {W : Type 0} → Written → Option (Net W → Exec (Net W)) → Callbacks W
unfolding client_hooks default_connection_callback default_message_callback no_callbacks
default_hooks w close_cb =
    client_hooks (some (default_connection_callback no_callbacks true w))
      (some default_message_callback) close_cb
