-- ===== src/TcpConnection/Keeping.antt =====
-- `sendInLoop`: the bytes that stay in the output buffer.
use cevent_loop.Prelude.{
  ℕ, zero, suc, ◌+◌, ◌-◌, ◌^◌, ◌&&◌, ◌≤◌, ◌<◌, ◌≡◌, refl, sym, ◌∙◌, inl, inr, Bool-cases, List, [],
  ◌++◌, append-nil, arith, length, ltb, leb, true, false, ok,
}
use cevent_loop.Prelude.Segments.{segment, length-segment, length-overwrite}
use cevent_loop.Buffer
use cevent_loop.Buffer.{Buffer, contents, append, readable_bytes, sub_size, add_size}
use cevent_loop.Buffer.Valid
use cevent_loop.Buffer.Valid.{append_lem, extended, extended-IsValid, readable_bytes_lem}
use cevent_loop.Buffer.Queue.{contents-extended}
use cevent_loop.Channel
use cevent_loop.Channel.{call}
use cevent_loop.Poller.{Poller, PollFd, enable_writing}
use cevent_loop.Poller.Valid.{Registered}
use cevent_loop.Poller.Interest.{interest-Reaches}
use cevent_loop.TcpConnection.{Net, Callbacks, descriptor, ensure_writing, queue_rest, with_output}

module _ {W : Type 0} where
  -- The output buffer and the poller are consistent, the channel is registered, and the high water mark
  -- is out of the buffer's reach.
  pub record IsValid (s : Net W) : Type 0 where
    pub out : Buffer.Valid.IsValid s.conn.output_buffer
    pub poller : cevent_loop.Poller.Valid.IsValid s.poller
    pub registered : (i : ℕ) × (p : PollFd) × Registered s.poller s.conn.channel i p
    pub marked : length s.conn.output_buffer.buf ≤ s.conn.high_water_mark

  -- What sending leaves, where `bytes` stay in the output buffer.
  pub record Kept (bytes : List ℕ) (s s' : Net W) : Type 0 where
    pub valid : IsValid s'
    pub state_of : s'.conn.state ≡ s.conn.state
    pub input_of : s'.conn.input_buffer ≡ s.conn.input_buffer
    pub output : contents s'.conn.output_buffer ≡ contents s.conn.output_buffer ++ bytes
    pub writer :
        s'.conn.output_buffer.writer_index ≤ s.conn.output_buffer.writer_index + length bytes
    pub size : length s'.conn.output_buffer.buf ≡ length s.conn.output_buffer.buf
    pub wire_of : s'.wire ≡ s.wire
    pub world_of : s'.world ≡ s.world
    pub closed_of : s'.closed ≡ s.closed
    pub descriptor_of : descriptor s' ≡ descriptor s

  pub ensure_writing-Kept :
      (s : Net W) → IsValid s → (s' : Net W) × (ensure_writing s ≡ ok s') × Kept [] s s'
  unfolding ensure_writing
  ensure_writing-Kept s v = elim (Bool-cases (Channel.is_writing (s.poller.heap s.conn.channel))) [
    | inl writing ↦ (
      s,
      rw writing refl,
      record {
        valid = v;
        state_of = refl;
        input_of = refl;
        output = sym (append-nil (contents s.conn.output_buffer));
        writer = omega arith;
        size = refl;
        wire_of = refl;
        world_of = refl;
        closed_of = refl;
        descriptor_of = refl;
      },
    )
    | inr idle ↦
        let (p', e, ok', r) =
          (interest-Reaches s.poller s.conn.channel v.poller (inr v.registered)).1 in
        (
          record s { poller = p' },
          rw (idle, e) refl,
          record {
            valid = record {
              out = v.out;
              poller = ok';
              registered = (r.0, _, r.1);
              marked = v.marked;
            };
            state_of = refl;
            input_of = refl;
            output = sym (append-nil (contents s.conn.output_buffer));
            writer = omega arith;
            size = refl;
            wire_of = refl;
            world_of = refl;
            closed_of = refl;
            descriptor_of = r.1.fd_of ∙ refl;
          },
        )
  ]

  pub queue_rest-some :
      (cb : Callbacks W) (mem : List ℕ) (at n : ℕ) (s : Net W)
      → IsValid s
      → at + n ≤ length mem
      → 0 < n
      → s.conn.output_buffer.writer_index + n ≤ length s.conn.output_buffer.buf
      → queue_rest cb mem (ok at) n s
        ≡ ensure_writing (with_output (extended (segment at (at + n) mem) s.conn.output_buffer) s)
  unfolding queue_rest
  queue_rest-some cb mem at n s v inside some_left fits =
      let bytes : List ℕ = segment at (at + n) mem in
      let len : length bytes ≡ n = omega (arith, length-segment at (at + n) mem inside) in
      let low : leb s.conn.high_water_mark (add_size (readable_bytes s.conn.output_buffer) n)
          ≡ false =
        rw (readable_bytes_lem v.out) (ground (arith, v.marked)) in
      let positive : (ltb 0 n && ltb n (2 ^ 63)) ≡ true = ground arith in
      let readable : leb (at + n) (length mem) ≡ true = ground arith in
      rw (positive, low, readable, append_lem bytes v.out) (ground (arith, len))

  -- `if (remaining > 0)`, for bytes that fit.
  pub queue_rest-Kept :
      (cb : Callbacks W) (mem : List ℕ) (at n : ℕ) (s : Net W)
      → IsValid s
      → at + n ≤ length mem
      → s.conn.output_buffer.writer_index + n ≤ length s.conn.output_buffer.buf
      → (s' : Net W) × (queue_rest cb mem (ok at) n s ≡ ok s') × Kept (segment at (at + n) mem) s s'
  unfolding queue_rest
  queue_rest-Kept cb mem at zero s v inside fits = (
    s,
    refl,
    record {
      valid = v;
      state_of = refl;
      input_of = refl;
      output =
          let none_left : at + 0 - at ≡ 0 = omega arith in
          rw none_left (sym (append-nil (contents s.conn.output_buffer)));
      writer = omega arith;
      size = refl;
      wire_of = refl;
      world_of = refl;
      closed_of = refl;
      descriptor_of = refl;
    },
  )
  queue_rest-Kept cb mem at (suc k) s v inside fits =
      let n : ℕ = suc k in
      let bytes : List ℕ = segment at (at + n) mem in
      let len : length bytes ≡ n = omega (arith, length-segment at (at + n) mem inside) in
      let b : Buffer = s.conn.output_buffer in
      let room : b.writer_index + length bytes ≤ length b.buf = omega (arith, len) in
      let s₁ : Net W = with_output (extended bytes b) s in
      let v₁ : IsValid s₁ = record {
        out = extended-IsValid bytes v.out room;
        poller = v.poller;
        registered = v.registered;
        marked = omega (arith, length-overwrite b.buf b.writer_index bytes, v.marked);
      } in
      let (s', e, k') = ensure_writing-Kept s₁ v₁ in
      (
        s',
        queue_rest-some cb mem at n s v inside (omega arith) fits ∙ e,
        record {
          valid = k'.valid;
          state_of = k'.state_of;
          input_of = k'.input_of;
          output = k'.output ∙ append-nil _ ∙ contents-extended bytes v.out room;
          writer = omega (arith, k'.writer);
          size = k'.size ∙ omega (arith, length-overwrite b.buf b.writer_index bytes);
          wire_of = k'.wire_of;
          world_of = k'.world_of;
          closed_of = k'.closed_of;
          descriptor_of = k'.descriptor_of;
        },
      )
