-- ===== src/TcpConnection/Order.antt =====
-- A run of messages and of turns in which the socket is writable.
use cevent_loop.Prelude.{
  ℕ, ◌+◌, ◌≤◌, ◌<◌, ◌≡◌, refl, ap, ◌∙◌, List, [], ◌∷◌, ◌++◌, true, false, arith, length,
  length-append, Exec, ok, ◌>>=◌,
}
use cevent_loop.Prelude.Segments.{segment-whole}
use cevent_loop.Buffer.{contents}
use cevent_loop.TcpConnection.{Net, Callbacks, took, send_in_loop, handle_write, is_disconnected}
use cevent_loop.TcpConnection.Keeping.{IsValid}
use cevent_loop.TcpConnection.Sending.{Quiet, Sent, Sent-nothing, Sent-trans, send_in_loop-Sent}

-- A message, with as many of its bytes as the system would take, or a turn of `handleWrite`.
pub data Turn : Type 0 where
  sends : ℕ → List ℕ → Turn
  writable : Turn

unfoldable pub turn : {W : Type 0} → Callbacks W → Turn → Net W → Exec (Net W)
unfolding send_in_loop handle_write
turn cb (sends n message) s = send_in_loop cb true (took n) message 0 (length message) s
turn cb writable s = handle_write s

unfoldable pub run : {W : Type 0} → Callbacks W → List Turn → Net W → Exec (Net W)
unfolding turn
run cb [] s = ok s
run cb (t ∷ ts) s = turn cb t s >>= run cb ts

abbrev pub messages : List Turn → List ℕ
messages [] = []
messages (sends n message ∷ ts) = message ++ messages ts
messages (writable ∷ ts) = messages ts

-- `write` takes no more than it is given.
abbrev pub Possible : List Turn → Type 0
Possible [] = Unit
Possible (sends n message ∷ ts) = (n ≤ length message) × Possible ts
Possible (writable ∷ ts) = Possible ts

module _ {W : Type 0} (cb : Callbacks W) (quiet : Quiet cb.write_complete) where
  send-Sent :
      (n : ℕ) (message : List ℕ) (s : Net W)
      → IsValid s
      → is_disconnected s.conn.state ≡ false
      → n ≤ length message
      → s.conn.output_buffer.writer_index + length message ≤ length s.conn.output_buffer.buf
      → (s' : Net W) × (turn cb (sends n message) s ≡ ok s') × Sent message s s'
  unfolding turn
  send-Sent n message s v up part fits =
      let (s', e, k) =
        send_in_loop-Sent cb n message 0 (length message) s v up quiet part (omega arith) fits in
      (s', e, rw (segment-whole message) at k)

  then_run :
      (ts : List Turn) (m : Exec (Net W)) (t u : Net W)
      → m ≡ ok t
      → run cb ts t ≡ ok u
      → (m >>= run cb ts) ≡ ok u
  then_run ts m t u e f = rw (e, f) refl

  run-Sent :
      (ts : List Turn) (s : Net W)
      → IsValid s
      → is_disconnected s.conn.state ≡ false
      → Possible ts
      → s.conn.output_buffer.writer_index + length (messages ts) ≤ length s.conn.output_buffer.buf
      → (s' : Net W) × (run cb ts s ≡ ok s') × Sent (messages ts) s s'
  unfolding run turn handle_write
  run-Sent [] s v up p fits = (s, refl, Sent-nothing s v)
  run-Sent (writable ∷ ts) s v up p fits = run-Sent ts s v up p fits
  run-Sent (sends n message ∷ ts) s v up (part, p) fits =
      let both = length-append message (messages ts) in
      let (t, e, a) = send-Sent n message s v up part (omega (arith, both)) in
      let (u, f, b) =
        run-Sent ts t a.valid (ap is_disconnected a.state_of ∙ up) p
          (omega (arith, both, a.writer, a.size)) in
      (u, then_run ts _ t u e f, Sent-trans message (messages ts) s t u a b)

  -- Messages and turns of `handleWrite` on a connection that is up, with room in the output buffer for
  -- all of them and no refused write: everything that the system took, followed by everything that is
  -- kept, is what it was with the messages behind it, in order and without loss.
  in_order :
      (ts : List Turn) (s : Net W)
      → IsValid s
      → is_disconnected s.conn.state ≡ false
      → Possible ts
      → s.conn.output_buffer.writer_index + length (messages ts) ≤ length s.conn.output_buffer.buf
      → (s' : Net W) × (run cb ts s ≡ ok s')
        × (s'.wire ++ contents s'.conn.output_buffer
            ≡ (s.wire ++ contents s.conn.output_buffer) ++ messages ts)
  in_order ts s v up p fits = let (s', e, k) = run-Sent ts s v up p fits in (s', e, k.stream)

  -- Once the output buffer of a connection that is up holds a byte, with room in it for all the messages,
  -- a high water mark that is not below its size, and no write-complete callback or one that leaves the
  -- connection alone: no message, whose write is not refused, and no turn of `handleWrite` gets another
  -- byte to the system, also where the system would take it. What is sent is only kept.
  pub never_flushed :
      (ts : List Turn) (s : Net W)
      → IsValid s
      → is_disconnected s.conn.state ≡ false
      → Possible ts
      → s.conn.output_buffer.writer_index + length (messages ts) ≤ length s.conn.output_buffer.buf
      → 0 < length (contents s.conn.output_buffer)
      → (s' : Net W) × (run cb ts s ≡ ok s')
        × (s'.wire ≡ s.wire)
        × (contents s'.conn.output_buffer ≡ contents s.conn.output_buffer ++ messages ts)
  never_flushed ts s v up p fits held =
      let (s', e, k) = run-Sent ts s v up p fits in
      let (same, more) = k.busy held in (s', e, same, more)
