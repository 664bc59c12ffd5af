-- ===== src/TcpConnection/Sending.antt =====
-- `sendInLoop`: which bytes the system takes and which stay in the output buffer.
use cevent_loop.Prelude.{
  ℕ, ◌+◌, ◌-◌, ◌^◌, ◌&&◌, ◌≤◌, ◌<◌, ◌≡◌, refl, sym, ap, ◌∙◌, ◌⊎◌, inl, inr, Bool-cases, List, [],
  ◌++◌, append-nil, append_assoc, arith, length, length-append, ltb, ◌==◌, true, false, Option,
  Exec, ok,
}
use cevent_loop.Prelude.Segments.{segment, length-segment, segment-split}
use cevent_loop.Buffer.{contents, readable_bytes, sub_size}
use cevent_loop.Buffer.Valid.{readable_bytes_lem}
use cevent_loop.Channel.{call}
use cevent_loop.TcpConnection.{
  Net, Callbacks, descriptor, took, first_write, queue_rest, send_open, send_in_loop,
  is_disconnected,
}
use cevent_loop.TcpConnection.Keeping.{IsValid, Kept, queue_rest-Kept}

joined :
    (ws xs ys zs os wire out : List ℕ)
    → wire ≡ ws ++ xs
    → out ≡ os ++ ys
    → os ≡ []
    → xs ++ ys ≡ zs
    → wire ++ out ≡ (ws ++ os) ++ zs
joined ws xs ys zs os wire out e f g h = rw (e, f, g, ← h, append-nil ws) (append_assoc ws xs ys)

module _ {W : Type 0} where
  -- An empty function, or one that leaves the connection alone.
  abbrev pub Quiet : Option (Net W → Exec (Net W)) → Type 0
  Quiet f = (s : Net W) → (w : W) × (call f s ≡ ok (record s { world = w }))

  first_write-took :
      (cb : Callbacks W) (mem : List ℕ) (ptr len n : ℕ) (s : Net W)
      → Quiet cb.write_complete
      → (w : W) × (first_write cb (took n) mem ptr len s
          ≡ ok (record s { wire = s.wire ++ segment ptr (ptr + n) mem; world = w }))
  unfolding first_write
  first_write-took cb mem ptr len n s quiet =
      let s' : Net W = record s { wire = s.wire ++ segment ptr (ptr + n) mem } in
      elim (Bool-cases (ltb 0 n && sub_size len n == 0)) [
        | inl all ↦ let (w, e) = quiet s' in (w, rw all e)
        | inr some_left ↦ (s.world, rw some_left refl)
      ]

  -- What a send leaves: the bytes that the system took, followed by those that are kept, are what they
  -- were with the new ones behind; if some were kept before, the system takes none.
  pub record Sent (bytes : List ℕ) (s s' : Net W) : Type 0 where
    pub valid : IsValid s'
    pub state_of : s'.conn.state ≡ s.conn.state
    pub input_of : s'.conn.input_buffer ≡ s.conn.input_buffer
    pub stream :
        s'.wire ++ contents s'.conn.output_buffer
        ≡ (s.wire ++ contents s.conn.output_buffer) ++ bytes
    pub busy :
        0 < length (contents s.conn.output_buffer)
        → (s'.wire ≡ s.wire)
          × (contents s'.conn.output_buffer ≡ contents s.conn.output_buffer ++ bytes)
    pub writer :
        s'.conn.output_buffer.writer_index ≤ s.conn.output_buffer.writer_index + length bytes
    pub size : length s'.conn.output_buffer.buf ≡ length s.conn.output_buffer.buf
    pub descriptor_of : descriptor s' ≡ descriptor s

  Kept-Sent : (bytes : List ℕ) (s s' : Net W) → Kept bytes s s' → Sent bytes s s'
  Kept-Sent bytes s s' k = record {
    valid = k.valid;
    state_of = k.state_of;
    input_of = k.input_of;
    stream =
        rw (k.wire_of, k.output) (sym (append_assoc s.wire (contents s.conn.output_buffer) bytes));
    busy = λ h. (k.wire_of, k.output);
    writer = k.writer;
    size = k.size;
    descriptor_of = k.descriptor_of;
  }

  contents_of_idle :
      {s : Net W}
      → IsValid s
      → (readable_bytes s.conn.output_buffer == 0) ≡ true
      → contents s.conn.output_buffer ≡ []
  unfolding contents
  contents_of_idle {s} v idle =
      let none_left : s.conn.output_buffer.writer_index - s.conn.output_buffer.reader_index ≡ 0 =
        ground (arith, readable_bytes_lem v.out) in
      rw none_left refl

  pub send_open-idle :
      (cb : Callbacks W) (mem : List ℕ) (ptr len n : ℕ) (s s₁ s' : Net W)
      → (readable_bytes s.conn.output_buffer == 0) ≡ true
      → first_write cb (took n) mem ptr len s ≡ ok s₁
      → queue_rest cb mem (ok (ptr + n)) (len - n) s₁ ≡ ok s'
      → n ≤ len
      → len < 2 ^ 63
      → send_open cb (took n) mem ptr len s ≡ ok s'
  unfolding send_open
  send_open-idle cb mem ptr len n s s₁ s' idle first rest part small =
      let left : sub_size len n ≡ len - n = omega arith in rw (idle, first, left, rest) refl

  -- With what the first write comes to.
  pub send_open_first :
      (cb : Callbacks W) (n : ℕ) (mem : List ℕ) (ptr len : ℕ) (s : Net W) (w : W)
      → IsValid s
      → first_write cb (took n) mem ptr len s
        ≡ ok (record s { wire = s.wire ++ segment ptr (ptr + n) mem; world = w })
      → n ≤ len
      → ptr + len ≤ length mem
      → s.conn.output_buffer.writer_index + len ≤ length s.conn.output_buffer.buf
      → (s' : Net W) × (send_open cb (took n) mem ptr len s ≡ ok s')
        × Sent (segment ptr (ptr + len) mem) s s'
        × ((s'.world ≡ s.world) ⊎ (s'.world ≡ w))
        × (s'.closed ≡ s.closed)
  unfolding send_open
  send_open_first cb n mem ptr len s w v first part inside fits =
      elim (Bool-cases (readable_bytes s.conn.output_buffer == 0)) [
        | inr used ↦
            let (s', e, k) = queue_rest-Kept cb mem ptr len s v inside fits in
            (s', rw (used, e) refl, Kept-Sent _ s s' k, inl k.world_of, k.closed_of)
        | inl idle ↦
            let s₁ : Net W = record s { wire = s.wire ++ segment ptr (ptr + n) mem; world = w } in
            let v₁ : IsValid s₁ = record {
              out = v.out;
              poller = v.poller;
              registered = v.registered;
              marked = v.marked;
            } in
            let left : sub_size len n ≡ len - n = omega (arith, v.out.small) in
            let (s', e, k) =
              queue_rest-Kept cb mem (ptr + n) (len - n) s₁ v₁ (omega arith) (omega arith) in
            let whole : n + (len - n) ≡ len = omega arith in
            let rest : length (segment (ptr + n) (ptr + n + (len - n)) mem) ≡ len - n =
              omega (arith, length-segment (ptr + n) (ptr + n + (len - n)) mem (omega arith)) in
            let all : length (segment ptr (ptr + len) mem) ≡ len =
              omega (arith, length-segment ptr (ptr + len) mem inside) in
            let empty = contents_of_idle v idle in
            (
              s',
              send_open-idle cb mem ptr len n s s₁ s' idle first e part (omega arith),
              record {
                valid = k.valid;
                state_of = k.state_of;
                input_of = k.input_of;
                stream =
                    joined s.wire _ _ _ _ _ _ k.wire_of k.output empty (
                      segment-split ptr n (len - n) mem
                      ∙ ap (λ m. segment ptr (ptr + m) mem) whole);
                busy = λ h.
                    let none_left : 0 < length {A = ℕ} [] = rw empty at h in absurd (omega arith);
                writer = omega (arith, k.writer, rest, all);
                size = k.size;
                descriptor_of = k.descriptor_of;
              },
              inr k.world_of,
              k.closed_of,
            )
      ]

  send_open-Sent :
      (cb : Callbacks W) (n : ℕ) (mem : List ℕ) (ptr len : ℕ) (s : Net W)
      → IsValid s
      → Quiet cb.write_complete
      → n ≤ len
      → ptr + len ≤ length mem
      → s.conn.output_buffer.writer_index + len ≤ length s.conn.output_buffer.buf
      → (s' : Net W) × (send_open cb (took n) mem ptr len s ≡ ok s')
        × Sent (segment ptr (ptr + len) mem) s s'
  send_open-Sent cb n mem ptr len s v quiet part inside fits =
      let (w, first) = first_write-took cb mem ptr len n s quiet in
      let (s', e, k, rest, more) = send_open_first cb n mem ptr len s w v first part inside fits in
      (s', e, k)

  -- A message of a connection that is not down.
  pub send_in_loop-Sent :
      (cb : Callbacks W) (n : ℕ) (mem : List ℕ) (ptr len : ℕ) (s : Net W)
      → IsValid s
      → is_disconnected s.conn.state ≡ false
      → Quiet cb.write_complete
      → n ≤ len
      → ptr + len ≤ length mem
      → s.conn.output_buffer.writer_index + len ≤ length s.conn.output_buffer.buf
      → (s' : Net W) × (send_in_loop cb true (took n) mem ptr len s ≡ ok s')
        × Sent (segment ptr (ptr + len) mem) s s'
  unfolding send_in_loop
  send_in_loop-Sent cb n mem ptr len s v up quiet part inside fits =
      rw up (send_open-Sent cb n mem ptr len s v quiet part inside fits)

  pub Sent-nothing : (s : Net W) → IsValid s → Sent [] s s
  Sent-nothing s v = record {
    valid = v;
    state_of = refl;
    input_of = refl;
    stream = sym (append-nil (s.wire ++ contents s.conn.output_buffer));
    busy = λ h. (refl, sym (append-nil (contents s.conn.output_buffer)));
    writer = omega arith;
    size = refl;
    descriptor_of = refl;
  }

  pub Sent-trans :
      (xs ys : List ℕ) (s t u : Net W) → Sent xs s t → Sent ys t u → Sent (xs ++ ys) s u
  Sent-trans xs ys s t u a b = record {
    valid = b.valid;
    state_of = b.state_of ∙ a.state_of;
    input_of = b.input_of ∙ a.input_of;
    stream =
        b.stream ∙ (rw a.stream (append_assoc (s.wire ++ contents s.conn.output_buffer) xs ys));
    busy = λ h.
        let (same, more) = a.busy h in
        let some_left : 0 < length (contents t.conn.output_buffer) =
          omega (arith, ap length more, length-append (contents s.conn.output_buffer) xs) in
        let (same', more') = b.busy some_left in
        (same' ∙ same, more' ∙ (rw more (append_assoc (contents s.conn.output_buffer) xs ys)));
    writer = omega (arith, a.writer, b.writer, length-append xs ys);
    size = b.size ∙ a.size;
    descriptor_of = b.descriptor_of ∙ a.descriptor_of;
  }
