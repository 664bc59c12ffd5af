-- ===== src/HttpServer/Tests.antt =====
-- A request without headers, "GET / HTTP/1.0", to a connection with room for the page.
use cevent_loop.Prelude.{
  ℕ, ◌≡◌, refl, true, false, none, some, List, [], ◌∷◌, ◌++◌, arith, ok, replicate,
}
use cevent_loop.Prelude.Text.{codes}
use cevent_loop.Buffer.{Buffer, contents}
use cevent_loop.HttpContext.{HttpContext, HttpRequest, Scanned, unknown, invalid, got_all}
use cevent_loop.TcpConnection.{Net, Written, took}
use cevent_loop.TcpConnection.Keeping.{IsValid}
use cevent_loop.TcpConnection.Fixture.{with_buffers, with_buffers-IsValid, callbacks, quiet}
use cevent_loop.HttpServer.{fresh_context, hello_world, on_message}
use cevent_loop.HttpServer.Answer.{on_message_lem}

abbrev input : Buffer
input = record {
  buf = replicate 8 0 ++ (codes "GET /" ++ (13 ∷ 10 ∷ 13 ∷ 10 ∷ replicate 3 0));
  reader_index = 8;
  writer_index = 17;
}

abbrev output : Buffer
output = record { buf = replicate 108 0; reader_index = 8; writer_index = 8 }

abbrev net : Net ℕ
net = with_buffers input output

net-IsValid : IsValid net
net-IsValid = with_buffers-IsValid input output (omega arith) (omega arith)

abbrev blank : HttpRequest
blank = record {
  version = unknown;
  method = invalid;
  path = [];
  query = [];
  receive_time = 0;
  headers = λ key. none;
}

abbrev scan : List ℕ → Scanned
scan _ = record {
  count = 3;
  method = codes "GET";
  path = codes "/";
  near_10 = true;
  near_11 = false;
}

on_message_lem_example :
    (c : HttpContext) × (s' : Net ℕ) × (on_message scan 2 5 callbacks true
        (took 0)
        (took 10)
        (fresh_context blank)
        net
      ≡ ok (some (c, s')))
    × (c.state ≡ got_all)
    × (contents s'.conn.input_buffer ≡ [])
    × (s'.wire ++ contents s'.conn.output_buffer ≡ ([] ++ contents output) ++ hello_world)
    × (s'.write_ended ≡ true)
    × ((fuel' time' : ℕ) (w₁ w₂ : Written) (next : Net ℕ)
        → on_message scan fuel' time' callbacks true w₁ w₂ c next ≡ ok none)
unfolding contents
on_message_lem_example =
    on_message_lem callbacks quiet scan (codes "GET /") [] [] 2 5 10 (took 0) blank net net-IsValid
      refl (omega arith) refl (refl, (refl, (refl, (refl, (refl, tt))))) tt refl refl (omega arith)
      (omega arith) (omega arith)

-- The same request in three reads, from a new input buffer.
abbrev nothing_yet : Buffer
nothing_yet = record { buf = replicate 24 0; reader_index = 8; writer_index = 8 }

abbrev waiting : Net ℕ
waiting = with_buffers nothing_yet output

abbrev pieces : List (ℕ × List ℕ)
pieces = (1, codes "GE") ∷ (2, codes "T /" ++ (13 ∷ [])) ∷ []
