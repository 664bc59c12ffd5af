-- ===== src/Echo/Replies.antt =====
-- The two `onMessage` on the connection.
use cevent_loop.Prelude.{
  ℕ, suc, ◌+◌, ◌≤◌, ◌<◌, ◌≡◌, ◌≢◌, refl, ap, ◌∙◌, true, false, some, [], ◌++◌, length, arith, ok,
  ◌>>=◌, ◌==◌,
}
use cevent_loop.Prelude.Segments.{segment-whole}
use cevent_loop.Prelude.Text.{Text, decimal}
use cevent_loop.Buffer.{Buffer, contents, retrieve_all, retrieve_all_as_string}
use cevent_loop.Buffer.Queue.{retrieve_all_as_string_lem}
use cevent_loop.TcpConnection.{Net, Callbacks, Written, took, is_disconnected}
use cevent_loop.TcpConnection.Keeping.{IsValid}
use cevent_loop.TcpConnection.Sending.{Quiet, Sent, send_in_loop-Sent}
use cevent_loop.Echo.{
  send_all, server_answer, client_answer, with_input, server_on_message, client_on_message,
}
use cevent_loop.Echo.Dialogue.{server_lem, client_lem}

-- What a reply leaves: the text behind what was sent before, and nothing to read.
pub record Replied {W : Type 0} (text : Text) (s t : Net W) : Type 0 where
  pub stream :
      t.wire ++ contents t.conn.output_buffer ≡ (s.wire ++ contents s.conn.output_buffer) ++ text
  pub taken : contents t.conn.input_buffer ≡ []

module _ {W : Type 0} (cb : Callbacks W) (quiet : Quiet cb.write_complete) where
  send_all-Sent :
      (n : ℕ) (text : Text) (s : Net W)
      → IsValid s
      → is_disconnected s.conn.state ≡ false
      → n ≤ length text
      → s.conn.output_buffer.writer_index + length text ≤ length s.conn.output_buffer.buf
      → (t : Net W) × (send_all cb true (took n) text s ≡ ok t) × Sent text s t
  unfolding send_all
  send_all-Sent n text s v up part room =
      let (t, e, k) =
        send_in_loop-Sent cb n text 0 (length text) s v up quiet part (omega arith) room in
      (t, e, rw (segment-whole text) at k)

  server_sends :
      (w : Written) (message text : Text) (b : Buffer) (s t : Net W)
      → retrieve_all_as_string s.conn.input_buffer ≡ ok (message, b)
      → server_answer message ≡ ok (some text)
      → send_all cb true w text (with_input b s) ≡ ok t
      → server_on_message cb true w s ≡ ok (false, t)
  unfolding server_on_message
  server_sends w message text b s t e f g = rw (e, ◌>>=◌, f, g) refl

  client_sends :
      (w : Written) (message text : Text) (b : Buffer) (s t : Net W)
      → retrieve_all_as_string s.conn.input_buffer ≡ ok (message, b)
      → client_answer message ≡ ok text
      → send_all cb true w text (with_input b s) ≡ ok t
      → client_on_message cb true w s ≡ ok t
  unfolding client_on_message
  client_sends w message text b s t e f g = rw (e, ◌>>=◌, f, g) refl

  replied :
      (n : ℕ) (text : Text) (s : Net W)
      → IsValid s
      → is_disconnected s.conn.state ≡ false
      → n ≤ length text
      → s.conn.output_buffer.writer_index + length text ≤ length s.conn.output_buffer.buf
      → (t : Net W) × (send_all cb true
            (took n)
            text
            (with_input (retrieve_all s.conn.input_buffer) s)
          ≡ ok t)
        × Replied text s t
  unfolding retrieve_all contents
  replied n text s v up part room =
      let s₁ : Net W = with_input (retrieve_all s.conn.input_buffer) s in
      let v₁ : IsValid s₁ = record {
        out = v.out;
        poller = v.poller;
        registered = v.registered;
        marked = v.marked;
      } in
      let (t, e, k) = send_all-Sent n text s₁ v₁ up part room in
      (t, e, record { stream = k.stream; taken = ap contents k.input_of })

  -- With the digits of a number below the greatest `int` in the input buffer, on a connection that is up
  -- and registered, with room for the reply in the output buffer, whose size the high water mark is not
  -- below, no write-complete callback or one that leaves the connection alone, and a write that is not
  -- refused: the server sends the same digits back, unless the number is 1000, and the client sends the
  -- digits of the next number. Both leave nothing to read.
  pub replies :
      (k n : ℕ) (s : Net W)
      → k < 2147483647
      → IsValid s
      → is_disconnected s.conn.state ≡ false
      → cevent_loop.Buffer.Valid.IsValid s.conn.input_buffer
      → contents s.conn.input_buffer ≡ decimal k
      → (k ≢ 1000
          → n ≤ length (decimal k)
          → s.conn.output_buffer.writer_index + length (decimal k) ≤ length s.conn.output_buffer.buf
          → (t : Net W) × (server_on_message cb true (took n) s ≡ ok (false, t))
            × Replied (decimal k) s t)
        × (n ≤ length (decimal (suc k))
            → s.conn.output_buffer.writer_index + length (decimal (suc k))
              ≤ length s.conn.output_buffer.buf
            → (t : Net W) × (client_on_message cb true (took n) s ≡ ok t)
              × Replied (decimal (suc k)) s t)
  replies k n s fits v up input text =
      let got =
        retrieve_all_as_string_lem input
        ∙ ap (λ m. ok (m, retrieve_all s.conn.input_buffer)) text in
      (
        λ other part room.
            let (t, e, r) = replied n (decimal k) s v up part room in
            let differs : (k == 1000) ≡ false = ground arith in
            let answer : server_answer (decimal k) ≡ ok (some (decimal k)) =
              server_lem k (omega arith) ∙ (rw differs refl) in
            (t, server_sends (took n) (decimal k) (decimal k) _ s t got answer e, r),
        λ part room.
            let (t, e, r) = replied n (decimal (suc k)) s v up part room in
            (
              t,
              client_sends (took n) (decimal k) (decimal (suc k)) _ s t got (client_lem k fits) e,
              r,
            ),
      )
