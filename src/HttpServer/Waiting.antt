-- ===== src/HttpServer/Waiting.antt =====
-- One read of a connection to the HTTP server, where the end of the request line has not come.
use cevent_loop.Prelude.{
  ℕ, zero, suc, ◌+◌, ◌-◌, ◌≤◌, ◌<◌, ◌≡◌, refl, ◌∙◌, true, some, none, List, [], ◌∷◌, length, arith,
  leb, ok,
}
use cevent_loop.Buffer.{Buffer, Received, stored, contents, find_crlf, read_fd}
use cevent_loop.Buffer
use cevent_loop.Buffer.Valid
use cevent_loop.Buffer.Valid.{extended, extended-IsValid}
use cevent_loop.Buffer.Receive.{read_fd_cases}
use cevent_loop.HttpContext.{
  HttpContext, HttpRequest, Scanned, parse_request, parse_loop, parse_turn,
}
use cevent_loop.TcpConnection.{Net, Callbacks, Written}
use cevent_loop.TcpConnection.Keeping.{IsValid}
use cevent_loop.HttpServer.{fresh_context, after_parse, with_input, on_message}
use cevent_loop.HttpServer.Reads.{on_received, on_readable, on_reads}

-- A read that fits.
read-fits :
    (text : List ℕ) {b : Buffer}
    → Buffer.Valid.IsValid b
    → b.writer_index + length text ≤ length b.buf
    → read_fd (stored text) b ≡ ok (stored text, extended text b)
read-fits text {b} v room =
    let fits : leb (length text) (length b.buf - b.writer_index) ≡ true =
      ground (arith, v.within) in
    read_fd_cases text v ∙ (rw fits refl)

module _ {W : Type 0} (cb : Callbacks W) (scan : List ℕ → Scanned) where
  pub readable :
      (fuel time x : ℕ) (xs : List ℕ) (w w' : Written) (c : HttpContext) (s : Net W)
      → Buffer.Valid.IsValid s.conn.input_buffer
      → s.conn.input_buffer.writer_index + length (x ∷ xs) ≤ length s.conn.input_buffer.buf
      → on_readable scan fuel cb w w' true time (stored (x ∷ xs)) c s
        ≡ on_message scan fuel time cb true w w' c
            (with_input (extended (x ∷ xs) s.conn.input_buffer) s)
  unfolding on_readable on_received
  readable fuel time x xs w w' c s v room = rw (read-fits (x ∷ xs) v room) refl

  waits :
      (fuel time : ℕ) (w w' : Written) (r : HttpRequest) (s : Net W)
      → find_crlf s.conn.input_buffer ≡ none
      → on_message scan (suc fuel) time cb true w w' (fresh_context r) s
        ≡ ok (some (fresh_context r, s))
  unfolding on_message parse_request parse_loop parse_turn after_parse
  waits fuel time w w' r s e = rw (on_message, parse_turn, e) refl

  pub reads_cons :
      (fuel time : ℕ) (text : List ℕ) (more : List (ℕ × List ℕ)) (w w' : Written)
      (c c' : HttpContext) (s s' : Net W)
      → on_readable scan fuel cb w w' true time (stored text) c s ≡ ok (some (c', s'))
      → on_reads scan fuel cb w w' ((time, text) ∷ more) c s ≡ on_reads scan fuel cb w w' more c' s'
  unfolding on_reads
  reads_cons fuel time text more w w' c c' s s' e = rw e refl

  pub reads_one :
      (fuel time : ℕ) (text : List ℕ) (w w' : Written) (c c' : HttpContext) (s s' : Net W)
      → on_readable scan fuel cb w w' true time (stored text) c s ≡ ok (some (c', s'))
      → on_reads scan fuel cb w w' ((time, text) ∷ []) c s ≡ ok (some (c', s'))
  unfolding on_reads
  reads_one fuel time text w w' c c' s s' e = rw e refl

  -- The connection and its buffer after a read.
  unfoldable pub grown : List ℕ → Net W → Net W
  grown text s = with_input (extended text s.conn.input_buffer) s

  pub grown-IsValid : (text : List ℕ) (s : Net W) → IsValid s → IsValid (grown text s)
  unfolding grown
  grown-IsValid text s v = record {
    out = v.out;
    poller = v.poller;
    registered = v.registered;
    marked = v.marked;
  }

  pub keeps_waiting :
      (fuel time x : ℕ) (xs : List ℕ) (w w' : Written) (r : HttpRequest) (s : Net W)
      → 0 < fuel
      → Buffer.Valid.IsValid s.conn.input_buffer
      → s.conn.input_buffer.writer_index + length (x ∷ xs) ≤ length s.conn.input_buffer.buf
      → find_crlf (extended (x ∷ xs) s.conn.input_buffer) ≡ none
      → on_readable scan fuel cb w w' true time (stored (x ∷ xs)) (fresh_context r) s
        ≡ ok (some (fresh_context r, grown (x ∷ xs) s))
  unfolding grown
  keeps_waiting zero time x xs w w' r s l v room e = absurd (omega arith)
  keeps_waiting (suc fuel) time x xs w w' r s l v room e =
      readable (suc fuel) time x xs w w' (fresh_context r) s v room
      ∙ waits fuel time w w' r (with_input (extended (x ∷ xs) s.conn.input_buffer) s) e
