-- ===== src/TcpClient/Tests.antt =====
-- The names of a client's connections, and a client that dials on descriptor 4.
use cevent_loop.Prelude.{arith, [], true, none, ok}
use cevent_loop.Prelude.Int.{pos}
use cevent_loop.Poller.Fixture.{no_channels}
use cevent_loop.SocketsOps.{Ntop}
use cevent_loop.TcpConnection
use cevent_loop.Buffer.{Buffer, stored, contents}
use cevent_loop.Buffer.Valid
use cevent_loop.Poller.{Poller}
use cevent_loop.TcpConnection.{Net, took, handle_read}
use cevent_loop.TcpConnection.Closing.{Attached}
use cevent_loop.TcpConnection.Fixture.{
  with_buffers, nothing_kept, poller-IsValid, first_entry, registered,
}
use cevent_loop.TcpClient.{default_hooks}
use cevent_loop.TcpClient.Defaults.{ended, hangs_up_lem, reads, with_input, bytes_of, piles_up_lem}
use cevent_loop.Connector.{Connector}
use cevent_loop.TcpClient
use cevent_loop.TcpClient.{Socket}
use cevent_loop.TcpClient.Dialling.{Session}
use cevent_loop.Prelude.{
  List, ◌∷◌, ◌++◌, fault, bad_function_call, out_of_bounds, ℕ, ◌≤◌, ◌<◌, ◌≡◌, refl, replicate,
}
use cevent_loop.Prelude.Text.{codes, decimal}
use cevent_loop.TcpClient.{conn_name}
use cevent_loop.TcpClient.Names.{conn_name_lem}

first_name : conn_name (codes "c") (codes "10.0.0.1:80") 12 ≡ codes "c10.0.0.1:80#12"
unfolding conn_name decimal
first_name = refl

conn_name_lem_example :
    (31 ≤ 21
      → 1 < 1_000_000_000
      → 2 < 1_000_000_000
      → conn_name (codes "c") (replicate 31 b'1') 1 ≡ conn_name (codes "c") (replicate 31 b'1') 2
      → ◌≡◌ {A = ℕ} 1 2)
    × (31 ≤ 31
        → conn_name (codes "c") (replicate 31 b'1') 1 ≡ conn_name (codes "c") (replicate 31 b'1') 2)
conn_name_lem_example = conn_name_lem (codes "c") (replicate 31 b'1') 1 2

abbrev any_host : Ntop
any_host family bytes = codes "0.0.0.0"

abbrev ready : Connector (Session ℕ)
ready = record {
  connect_flag = true;
  state = cevent_loop.TcpConnection.disconnected;
  channel = none;
  poller = no_channels;
  closed = [];
  resets = 0;
  world = record { client = cevent_loop.TcpClient.new (codes "client"); net = none; user = 0 };
}

abbrev second_channel : Socket
second_channel = record { fd = pos 0; loop = 0; address = 2; stale_events = 0; stale_active = 0 }

-- Nothing is set for the end; three bytes fit in the buffer of the fixture, and seventeen do not.
abbrev quiet_client : Net ℕ
quiet_client = with_buffers nothing_kept nothing_kept

hangs_up_lem_example :
    (p : Poller) × (handle_read (default_hooks (took 0) none) true 7 (stored []) quiet_client
      ≡ fault bad_function_call)
    × Attached (ended (took 0) none p quiet_client)
hangs_up_lem_example =
    hangs_up_lem (took 0) none 7 quiet_client
      (record { poller = poller-IsValid; registered = (0, first_entry, registered) }) (omega arith)

abbrev seventeen : List (ℕ × List ℕ)
seventeen = (97, 98 ∷ 99 ∷ []) ∷ (100, replicate 13 101) ∷ []

piles_up_lem_example :
    (17 ≤ 16
      → (b : Buffer) × (reads (took 0) none 7 seventeen quiet_client
          ≡ ok (with_input b quiet_client))
        × cevent_loop.Buffer.Valid.IsValid b
        × (contents b ≡ contents nothing_kept ++ bytes_of seventeen))
    × (16 < 17 → reads (took 0) none 7 seventeen quiet_client ≡ fault out_of_bounds)
piles_up_lem_example = piles_up_lem (took 0) none 7 seventeen quiet_client (omega arith)
