-- ===== src/HttpServer/Answer.antt =====
-- What a connection gets for a request, and what becomes of the next one.
use cevent_loop.Prelude.{
  ℕ, ◌+◌, ◌≤◌, ◌<◌, ◌≡◌, refl, ap, inl, ◌∙◌, true, false, some, none, List, ◌∷◌, ◌++◌, length,
  arith, ok, ◌==◌,
}
use cevent_loop.Buffer.{Buffer, contents}
use cevent_loop.Buffer.Lines.{Absent}
use cevent_loop.HttpContext.{HttpContext, HttpRequest, Scanned, fits, got_all, parse_request}
use cevent_loop.HttpContext.Parsing.{header_text, WellFormed, parse_request_lem}
use cevent_loop.HttpContext.Hanging.{parse_request_hangs}
use cevent_loop.TcpConnection.{
  Net, Callbacks, Written, took, is_disconnected, send_text, send_in_loop, shutdown,
}
use cevent_loop.TcpConnection.Keeping.{IsValid}
use cevent_loop.TcpConnection.Sending.{Quiet, Sent, send_in_loop-Sent}
use cevent_loop.HttpServer.{
  hello_world, c_string, fresh_context, answer, on_request, after_parse, with_input, on_message,
}

module _ {W : Type 0} (cb : Callbacks W) (quiet : Quiet cb.write_complete) where
  answers :
      (w : Written) (s t : Net W)
      → send_in_loop cb true w (c_string hello_world) 0 (length hello_world) s ≡ ok t
      → on_request cb true w s ≡ ok (record t { write_ended = true })
  unfolding on_request answer send_text shutdown
  answers w s t e = rw e refl

  on_request-Sent :
      (n : ℕ) (s : Net W)
      → IsValid s
      → is_disconnected s.conn.state ≡ false
      → n ≤ length hello_world
      → s.conn.output_buffer.writer_index + length hello_world ≤ length s.conn.output_buffer.buf
      → (t : Net W) × (on_request cb true (took n) s ≡ ok (record t { write_ended = true }))
        × Sent hello_world s t
  on_request-Sent n s v up part room =
      let (t, e, k) =
        send_in_loop-Sent cb n (c_string hello_world) 0 (length hello_world) s v up quiet part
          (omega arith) room in
      (t, answers (took n) s t e, k)

  module _ (scan : List ℕ → Scanned) where
    passes :
        (fuel time : ℕ) (w w' : Written) (c c' : HttpContext) (b : Buffer) (s t : Net W)
        → parse_request scan fuel time c s.conn.input_buffer ≡ ok (some (true, c', b))
        → after_parse cb true w w' true c' (with_input b s) ≡ ok t
        → on_message scan fuel time cb true w w' c s ≡ ok (some (c', t))
    unfolding on_message
    passes fuel time w w' c c' b s t e f = rw (e, f) refl

    hangs :
        (fuel time : ℕ) (w w' : Written) (c : HttpContext) (s : Net W)
        → c.state ≡ got_all
        → on_message scan fuel time cb true w w' c s ≡ ok none
    unfolding on_message
    hangs fuel time w w' c s done =
        rw (parse_request_hangs scan time fuel c s.conn.input_buffer (inl done)) refl

    -- A connection that is up, with a new context and a complete request in its input buffer (the
    -- conditions of `parse_request_lem`), room in the output buffer for the answer, whose size the high
    -- water mark is not below, a write of the page that is not refused, and no write-complete callback or
    -- one that leaves the connection alone: `onMessage` ends, takes the request off the input, sends or
    -- keeps the page behind what was there before, and shuts the socket down for writing. With the context
    -- that it leaves, the next call on any connection has not ended after any number of turns.
    pub on_message_lem :
        (line : List ℕ) (hs : List (List ℕ × List ℕ)) (rest : List ℕ) (fuel time n : ℕ)
        (w : Written) (r : HttpRequest) (s : Net W)
        → IsValid s
        → is_disconnected s.conn.state ≡ false
        → cevent_loop.Buffer.Valid.IsValid s.conn.input_buffer
        → contents s.conn.input_buffer ≡ line ++ (13 ∷ 10 ∷ header_text hs rest)
        → Absent 13 line
        → WellFormed hs
        → fits (scan line) ≡ true
        → ((scan line).count == 3) ≡ true
        → length hs + 1 < fuel
        → n ≤ length hello_world
        → s.conn.output_buffer.writer_index + length hello_world ≤ length s.conn.output_buffer.buf
        → (c : HttpContext) × (s' : Net W) × (on_message scan fuel time cb true w
              (took n)
              (fresh_context r)
              s
            ≡ ok (some (c, s')))
          × (c.state ≡ got_all)
          × (contents s'.conn.input_buffer ≡ rest)
          × (s'.wire ++ contents s'.conn.output_buffer
              ≡ (s.wire ++ contents s.conn.output_buffer) ++ hello_world)
          × (s'.write_ended ≡ true)
          × ((fuel' time' : ℕ) (w₁ w₂ : Written) (next : Net W)
              → on_message scan fuel' time' cb true w₁ w₂ c next ≡ ok none)
    unfolding after_parse
    on_message_lem line hs rest fuel time n w r s v up input text no_return well short three l part
          room =
        let (b, parsed, input', left) =
          parse_request_lem scan time line hs rest fuel r input text no_return well short three l in
        let s₁ : Net W = with_input b s in
        let v₁ : IsValid s₁ = record {
          out = v.out;
          poller = v.poller;
          registered = v.registered;
          marked = v.marked;
        } in
        let (t, sent, k) = on_request-Sent n s₁ v₁ up part room in
        (
          _,
          record t { write_ended = true },
          passes fuel time w (took n) (fresh_context r) _ b s _ parsed sent,
          refl,
          ap contents k.input_of ∙ left,
          k.stream,
          refl,
          λ fuel' time' w₁ w₂ next. hangs fuel' time' w₁ w₂ _ next refl,
        )
