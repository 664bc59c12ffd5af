-- ===== src/TcpConnection/Steps.antt =====
-- What each deed does to a connection, against its specification.
use mathlib.Core.Path.{subst}
use cevent_loop.Poller.{Poller}
use cevent_loop.Prelude.{
  ℕ, ◌+◌, ◌-◌, ◌≤◌, ◌≡◌, refl, sym, ap, ◌∙◌, Bool-cases, inl, inr, true, List, [], ◌∷◌, ◌++◌, arith,
  length, leb, ok,
}
use cevent_loop.Prelude.Int.{ℤ}
use cevent_loop.Prelude.Segments.{segment-whole, length-overwrite}
use cevent_loop.Buffer
use cevent_loop.Buffer.{
  Buffer, Received, stored, read_fd, contents, retrieve_all, retrieve_all_as_string,
}
use cevent_loop.Buffer.Valid
use cevent_loop.Buffer.Valid.{extended, extended-IsValid}
use cevent_loop.Buffer.Queue.{contents-extended, retrieve_all_as_string_lem}
use cevent_loop.Buffer.Receive.{read_fd_cases}
use cevent_loop.TcpConnection.{
  Net, States, disconnected, is_disconnected, send_in_loop, handle_read, received, silence,
  with_state,
}
use cevent_loop.TcpConnection.Sending.{Sent}
use cevent_loop.TcpConnection.Plain.{send_in_loop-plain}
use cevent_loop.TcpConnection.Closing.{silence_lem, handle_read-ends}
use cevent_loop.TcpConnection.Deeds.{
  App, Deed, says, hears, ends, callbacks_of, deed, View, view, spec_deed, Live, said,
}

module _ {W : Type 0} (a : App W) where
  pub record Done (d : Deed) (s s' : Net W) : Type 0 where
    pub live : Live s'
    pub viewed : view s' ≡ spec_deed a d (view s)
    pub input_size : length s'.conn.input_buffer.buf ≡ length s.conn.input_buffer.buf
    pub output_size : length s'.conn.output_buffer.buf ≡ length s.conn.output_buffer.buf
    pub writer :
        s'.conn.output_buffer.writer_index ≤ s.conn.output_buffer.writer_index + said (d ∷ [])

  viewed_same :
      {out out' : List ℕ} {state state' : States} {user user' : W} {closed closed' : List ℤ}
      {fd fd' : ℤ}
      → out ≡ out'
      → state ≡ state'
      → user ≡ user'
      → closed ≡ closed'
      → fd ≡ fd'
      → ◌≡◌ {A = View W}
          (record { out = out; state = state; user = user; closed = closed; fd = fd })
          (record { out = out'; state = state'; user = user'; closed = closed'; fd = fd' })
  viewed_same e f g h i = rw (e, f, g, h, i) refl

  pub nothing : (s : Net W) → Live s → (d : Deed) → view s ≡ spec_deed a d (view s) → Done d s s
  nothing s l d e = record {
    live = l;
    viewed = e;
    input_size = refl;
    output_size = refl;
    writer = omega arith;
  }

  pub says-Done :
      (n : ℕ) (text : List ℕ) (s : Net W)
      → Live s
      → n ≤ length text
      → s.conn.output_buffer.writer_index + length text ≤ length s.conn.output_buffer.buf
      → (s' : Net W) × (deed a (says n text) s ≡ ok s') × Done (says n text) s s'
  unfolding deed send_in_loop
  says-Done n text s l part fits = elim (Bool-cases (is_disconnected s.conn.state)) [
    | inl down ↦ (
      s,
      rw down refl,
      record {
        live = l;
        viewed = rw down refl;
        input_size = refl;
        output_size = refl;
        writer = omega arith;
      },
    )
    | inr up ↦
        let (s', e, k, world, closed) =
          send_in_loop-plain (callbacks_of a) n text 0 (length text) s l.valid up refl part
            (omega arith) fits in
        let k' : Sent text s s' = rw (segment-whole text) at k in
        (
          s',
          e,
          record {
            live = record {
              valid = k'.valid;
              input = subst (λ b. Buffer.Valid.IsValid b) (sym k'.input_of) l.input;
              taken = ap (λ (b : Buffer). b.writer_index) k'.input_of ∙ l.taken;
            };
            viewed = rw up (viewed_same k'.stream k'.state_of world closed k'.descriptor_of);
            input_size = ap (λ (b : Buffer). length b.buf) k'.input_of;
            output_size = k'.size;
            writer = omega (arith, k'.writer);
          },
        )
  ]

  -- A read into the empty input buffer.
  read_lem :
      (bytes : List ℕ) (s : Net W)
      → Live s
      → 8 + length bytes ≤ length s.conn.input_buffer.buf
      → read_fd (stored bytes) s.conn.input_buffer
        ≡ ok (stored bytes, extended bytes s.conn.input_buffer)
  read_lem bytes s l fits =
      let room : leb (length bytes)
            (length s.conn.input_buffer.buf - s.conn.input_buffer.writer_index)
          ≡ true =
        ground (arith, l.taken) in
      read_fd_cases bytes l.input ∙ (rw room refl)

  heard_lem :
      (time x : ℕ) (xs : List ℕ) (b b' : Buffer) (text : List ℕ) (s : Net W)
      → read_fd (stored (x ∷ xs)) s.conn.input_buffer ≡ ok (stored (x ∷ xs), b)
      → retrieve_all_as_string b ≡ ok (text, b')
      → deed a (hears time x xs) s
        ≡ ok (record s { conn = record s.conn { input_buffer = b' }; world = a.heard text s.world })
  unfolding deed handle_read received
  heard_lem time x xs b b' text s e f = rw (e, f) refl

  pub hears-Done :
      (time x : ℕ) (xs : List ℕ) (s : Net W)
      → Live s
      → 8 + length (x ∷ xs) ≤ length s.conn.input_buffer.buf
      → (s' : Net W) × (deed a (hears time x xs) s ≡ ok s') × Done (hears time x xs) s s'
  unfolding retrieve_all contents
  hears-Done time x xs s l fits =
      let old = s.conn.input_buffer in
      let b = extended (x ∷ xs) old in
      let room : old.writer_index + length (x ∷ xs) ≤ length old.buf = omega (arith, l.taken) in
      let size = length-overwrite old.buf old.writer_index (x ∷ xs) room in
      let none_left : old.writer_index - old.reader_index ≡ 0 =
        omega (arith, l.taken, l.input.prepend) in
      let empty : contents old ≡ [] = rw none_left refl in
      let text : contents b ≡ x ∷ xs =
        contents-extended (x ∷ xs) l.input room ∙ ap (λ ys. ys ++ (x ∷ xs)) empty in
      let v = extended-IsValid (x ∷ xs) l.input room in
      (
        _,
        heard_lem time x xs b _ _ s (read_lem (x ∷ xs) s l fits) (retrieve_all_as_string_lem v),
        record {
          live = record {
            valid = record {
              out = l.valid.out;
              poller = l.valid.poller;
              registered = l.valid.registered;
              marked = l.valid.marked;
            };
            input = record {
              prepend = omega arith;
              ordered = omega arith;
              within = omega (arith, size);
              small = omega (arith, size, l.input.small);
              settled = λ e. refl;
            };
            taken = refl;
          };
          viewed = viewed_same refl refl (ap (λ t. a.heard t s.world) text) refl refl;
          input_size = size;
          output_size = refl;
          writer = omega arith;
        },
      )

  closed_lem :
      (b : Buffer) (p : Poller) (s : Net W)
      → read_fd (stored []) s.conn.input_buffer ≡ ok (stored [], b)
      → (let t : Net W =
            with_state disconnected (record s { conn = record s.conn { input_buffer = b } }) in
          silence t ≡ ok (record t { poller = p })
          → deed a ends s
            ≡ ok (record t { poller = p; world = a.shut (a.told disconnected s.world) }))
  unfolding deed
  closed_lem b p s e f = handle_read-ends (callbacks_of a) 0 b s _ _ _ e f refl refl

  pub ends-Done :
      (s : Net W)
      → Live s
      → 8 ≤ length s.conn.input_buffer.buf
      → (s' : Net W) × (deed a ends s ≡ ok s') × Done ends s s'
  ends-Done s l fits =
      let old = s.conn.input_buffer in
      let b = extended [] old in
      let room : old.writer_index + length {A = ℕ} [] ≤ length old.buf = omega (arith, l.taken) in
      let t : Net W =
        with_state disconnected (record s { conn = record s.conn { input_buffer = b } }) in
      let (p, f, attached, same) =
        silence_lem t (record { poller = l.valid.poller; registered = l.valid.registered }) in
      (
        _,
        closed_lem b p s (read_lem [] s l (omega arith)) f,
        record {
          live = record {
            valid = record {
              out = l.valid.out;
              poller = attached.poller;
              registered = attached.registered;
              marked = l.valid.marked;
            };
            input = extended-IsValid [] l.input room;
            taken = omega (arith, l.taken);
          };
          viewed = viewed_same refl refl refl refl same;
          input_size = length-overwrite old.buf old.writer_index [] room;
          output_size = refl;
          writer = omega arith;
        },
      )
