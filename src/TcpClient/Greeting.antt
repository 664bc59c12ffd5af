-- ===== src/TcpClient/Greeting.antt =====
-- What the default callback of a client sends.
use cevent_loop.Prelude.{
  ap, ◌∙◌, replicate, false, ℕ, ◌+◌, ◌≤◌, ◌≡◌, refl, true, false, arith, length, ok,
}
use cevent_loop.Prelude.Text.{codes}
use cevent_loop.Prelude.Segments.{overwrite}
use cevent_loop.Buffer
use cevent_loop.Buffer.{Buffer, contents, append, readable_bytes}
use cevent_loop.TcpConnection.{
  Net, Callbacks, Written, send_in_loop, took, connected, is_disconnected, is_connected,
  send_buffer,
}
use cevent_loop.TcpConnection.Keeping.{IsValid}
use cevent_loop.TcpConnection.Sending.{Quiet, Sent, send_in_loop-Sent}
use cevent_loop.TcpClient.{default_connection_callback}

abbrev pub hello : Buffer
hello = record {
  buf = overwrite (replicate 1032 0) 8 (codes "Hello World");
  reader_index = 8;
  writer_index = 19;
}

pub callback_sends :
    {W : Type 0} (cb : Callbacks W) (w : Written) (s : Net W)
    → default_connection_callback cb true w s ≡ send_buffer cb true w hello s
unfolding default_connection_callback append Buffer.new
callback_sends cb w s = refl

send_buffer_up :
    {W : Type 0} (cb : Callbacks W) (w : Written) (s : Net W)
    → is_connected s.conn.state ≡ true
    → send_buffer cb true w hello s ≡ send_in_loop cb true w hello.buf 8 11 s
unfolding send_buffer readable_bytes
send_buffer_up cb w s up = rw up refl

-- In the loop's thread, on a connection that is up with room for eleven bytes, the default connection
-- callback sends "Hello World": what the system took, followed by what is kept, is what it was with
-- these bytes behind it, however many of them the system takes at once.
pub greets :
    {W : Type 0} (cb : Callbacks W) (n : ℕ) (s : Net W)
    → IsValid s
    → s.conn.state ≡ connected
    → Quiet cb.write_complete
    → n ≤ 11
    → s.conn.output_buffer.writer_index + 11 ≤ length s.conn.output_buffer.buf
    → (s' : Net W) × (default_connection_callback cb true (took n) s ≡ ok s')
      × Sent (codes "Hello World") s s'
greets cb n s v up quiet part fits =
    let not_down : is_disconnected s.conn.state ≡ false = ap is_disconnected up in
    let (s', e, k) =
      send_in_loop-Sent cb n hello.buf 8 11 s v not_down quiet part (omega arith) fits in
    (s', callback_sends cb (took n) s ∙ send_buffer_up cb (took n) s (ap is_connected up) ∙ e, k)
