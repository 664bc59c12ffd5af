-- ===== src/Echo/Whole.antt =====
-- A connection that hears a short message at once and sends one at once.
use cevent_loop.Prelude.{
  ℕ, ◌+◌, ◌-◌, ◌^◌, ◌≤◌, ◌<◌, ◌≡◌, ◌≢◌, refl, ap, ◌∙◌, true, false, none, [], ◌∷◌, ◌++◌, length, ok,
  ◌==◌, arith,
}
use cevent_loop.Prelude.Segments.{segment-whole, length-overwrite}
use cevent_loop.Prelude.Text.{Text}
use cevent_loop.Buffer
use cevent_loop.Buffer.{
  Buffer, stored, read_fd, contents, readable_bytes, retrieve_all, retrieve_all_as_string,
}
use cevent_loop.Buffer.Valid
use cevent_loop.Buffer.Valid.{extended, extended-IsValid}
use cevent_loop.Buffer.Queue.{contents-extended, retrieve_all_as_string_lem}
use cevent_loop.Buffer.Receive.{read_fd_cases}
use cevent_loop.TcpConnection.{
  Net, Callbacks, took, is_disconnected, handle_read, received, invoke_with, send_in_loop,
  queue_rest,
}
use cevent_loop.TcpConnection.Plain.{first_write-none}
use cevent_loop.TcpConnection.Sending.{send_open-idle}
use cevent_loop.Echo.{with_input, send_all}

module _ {W : Type 0} where
  -- A connection that is up, with nothing to read and nothing kept.
  pub record Idle (s : Net W) : Type 0 where
    pub input : Buffer.Valid.IsValid s.conn.input_buffer
    pub taken : s.conn.input_buffer.writer_index ≡ 8
    pub roomy : 12 ≤ length s.conn.input_buffer.buf
    pub up : is_disconnected s.conn.state ≡ false
    pub nothing_kept : (readable_bytes s.conn.output_buffer == 0) ≡ true

  -- The connection with the message in its input buffer, and with the message taken.
  abbrev pub holding : Text → Net W → Net W
  holding text s = with_input (extended text s.conn.input_buffer) s

  abbrev pub after : Text → Net W → Net W
  after text s = with_input (retrieve_all (extended text s.conn.input_buffer)) s

  holds :
      (text : Text) (s : Net W)
      → Idle s
      → length text ≤ 4
      → s.conn.input_buffer.writer_index + length text ≤ length s.conn.input_buffer.buf
  holds text s i short = omega (arith, i.taken, i.roomy)

  pub hears_lem :
      (cb : Callbacks W) (time : ℕ) (text : Text) (s : Net W)
      → Idle s
      → text ≢ []
      → length text ≤ 4
      → handle_read cb true time (stored text) s ≡ invoke_with cb.message time (holding text s)
  unfolding handle_read received
  hears_lem cb time [] s i n short = absurd (n refl)
  hears_lem cb time (x ∷ xs) s i n short =
      let room = holds (x ∷ xs) s i short in
      let reads : read_fd (stored (x ∷ xs)) s.conn.input_buffer
          ≡ ok (stored (x ∷ xs), extended (x ∷ xs) s.conn.input_buffer) =
        read_fd_cases (x ∷ xs) i.input ∙ ground arith in
      rw reads refl

  pub takes_lem :
      (text : Text) (s : Net W)
      → Idle s
      → length text ≤ 4
      → retrieve_all_as_string (extended text s.conn.input_buffer)
        ≡ ok (text, retrieve_all (extended text s.conn.input_buffer))
  unfolding contents
  takes_lem text s i short =
      let old = s.conn.input_buffer in
      let room = holds text s i short in
      let none_left : old.writer_index - old.reader_index ≡ 0 =
        omega (arith, i.taken, i.input.prepend) in
      let empty : contents old ≡ [] = rw none_left refl in
      let whole : contents (extended text old) ≡ text =
        contents-extended text i.input room ∙ ap (λ ys. ys ++ text) empty in
      retrieve_all_as_string_lem (extended-IsValid text i.input room)
      ∙ ap (λ m. ok (m, retrieve_all (extended text old))) whole

  pub after-Idle :
      (text wire : Text) (world : W) (s : Net W)
      → Idle s
      → length text ≤ 4
      → Idle (record (after text s) { wire = wire; world = world })
  unfolding retrieve_all
  after-Idle text wire world s i short =
      let old = s.conn.input_buffer in
      let size = length-overwrite old.buf old.writer_index text (holds text s i short) in
      record {
        input = record {
          prepend = omega arith;
          ordered = omega arith;
          within = omega (arith, size, i.roomy);
          small = omega (arith, size, i.input.small);
          settled = λ e. refl;
        };
        taken = refl;
        roomy = omega (arith, size, i.roomy);
        up = i.up;
        nothing_kept = i.nothing_kept;
      }

  -- A message that the system takes whole.
  pub sends_whole :
      (cb : Callbacks W) (text : Text) (s : Net W)
      → cb.write_complete ≡ none
      → is_disconnected s.conn.state ≡ false
      → (readable_bytes s.conn.output_buffer == 0) ≡ true
      → length text < 2 ^ 63
      → send_all cb true (took (length text)) text s ≡ ok (record s { wire = s.wire ++ text })
  unfolding send_all send_in_loop queue_rest
  sends_whole cb text s empty up idle small =
      let n = length text in
      let s₁ : Net W = record s { wire = s.wire ++ text } in
      let first =
        first_write-none cb text 0 n n s empty
        ∙ ap (λ xs. ok (record s { wire = s.wire ++ xs })) (segment-whole text) in
      let none_left : n - n ≡ 0 = omega arith in
      let rest : queue_rest cb text (ok (0 + n)) (n - n) s₁ ≡ ok s₁ = rw none_left refl in
      rw up (send_open-idle cb text 0 n n s s₁ s₁ idle first rest (omega arith) small)
