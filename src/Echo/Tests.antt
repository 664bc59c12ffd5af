-- ===== src/Echo/Tests.antt =====
-- A connection with "7" to read and room for a reply.
use cevent_loop.Prelude.{
  ℕ, ◌+◌, ◌≤◌, ◌≡◌, ◌≢◌, refl, [], true, false, some, ◌∷◌, ◌++◌, arith, ok, replicate, length,
}
use cevent_loop.Prelude.Text.{decimal, codes}
use cevent_loop.Buffer.{Buffer, contents}
use cevent_loop.TcpConnection.{Net, took}
use cevent_loop.TcpConnection.Keeping.{IsValid}
use cevent_loop.TcpConnection.Fixture.{
  nothing_kept, with_buffers, with_buffers-IsValid, callbacks, quiet,
}
use cevent_loop.Echo.{server_on_message, client_on_message, first_message, client_answer}
use cevent_loop.Echo.Replies.{Replied, replies}
use cevent_loop.Buffer.{readable_bytes}
use cevent_loop.TcpServer
use cevent_loop.TcpServer.Hosting.{Hosted}
use cevent_loop.TcpClient
use cevent_loop.TcpClient.{TcpClient}
use cevent_loop.Echo.Wiring.{exchange}
use cevent_loop.Echo.Whole.{Idle}
use cevent_loop.Echo.Exchange.{Exchanged, exchange_lem}

abbrev seven : Buffer
seven = record { buf = replicate 8 0 ++ (55 ∷ replicate 7 0); reader_index = 8; writer_index = 9 }

abbrev net : Net ℕ
net = with_buffers seven nothing_kept

net-IsValid : IsValid net
net-IsValid = with_buffers-IsValid seven nothing_kept (omega arith) (omega arith)

after_nine : client_answer (codes "-9") ≡ ok (codes "-8")
unfolding client_answer decimal
after_nine = refl

replies_example :
    (◌≢◌ {A = ℕ} 7 1000
      → 1 ≤ length (decimal 7)
      → 8 + length (decimal 7) ≤ 24
      → (t : Net ℕ) × (server_on_message callbacks true (took 1) net ≡ ok (false, t))
        × Replied (decimal 7) net t)
    × (1 ≤ length (decimal 8)
        → 8 + length (decimal 8) ≤ 24
        → (t : Net ℕ) × (client_on_message callbacks true (took 1) net ≡ ok t)
          × Replied (decimal 8) net t)
unfolding decimal contents
replies_example = replies callbacks quiet 7 1 net (omega arith) net-IsValid refl (omega arith) refl

-- The two ends of a connection.
abbrev server_end : Net (Hosted ℕ)
server_end = record {
  conn = net.conn;
  poller = net.poller;
  wire = [];
  closed = [];
  write_ended = false;
  world = record {
    server = cevent_loop.TcpServer.new 1 (codes "0.0.0.0:2007") (codes "EchoServer");
    user = 0;
  };
}

abbrev with_nothing : {W : Type 0} → Net W → Net W
with_nothing s = record s {
  conn = record s.conn { input_buffer = nothing_kept; output_buffer = nothing_kept };
}

abbrev client_end : Net TcpClient
client_end = record {
  conn = net.conn;
  poller = net.poller;
  wire = [];
  closed = [];
  write_ended = false;
  world = cevent_loop.TcpClient.new (codes "EchoClient");
}

server_end-Idle : Idle (with_nothing server_end)
unfolding readable_bytes
server_end-Idle = record {
  input = omega arith;
  taken = refl;
  roomy = omega arith;
  up = refl;
  nothing_kept = refl;
}

client_end-Idle : Idle (with_nothing client_end)
unfolding readable_bytes
client_end-Idle = record {
  input = omega arith;
  taken = refl;
  roomy = omega arith;
  up = refl;
  nothing_kept = refl;
}

exchange_lem_example :
    (s' : Net (Hosted ℕ)) × (t' : Net TcpClient) × (exchange 0 7 1001 first_message
        (with_nothing server_end)
        (with_nothing client_end)
      ≡ ok (some (s', t')))
    × Exchanged 0 7 1000 0 (with_nothing server_end) s' (with_nothing client_end) t'
exchange_lem_example =
    exchange_lem 0 7 1001 (with_nothing server_end) (with_nothing client_end) (omega arith)
      server_end-Idle client_end-Idle
