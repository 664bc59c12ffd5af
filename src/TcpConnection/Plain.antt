-- ===== src/TcpConnection/Plain.antt =====
-- `sendInLoop` where nobody is told that a message was written.
use cevent_loop.Prelude.{
  ℕ, ◌+◌, ◌&&◌, ◌≤◌, ◌≡◌, refl, inl, inr, Bool-cases, none, List, ◌++◌, length, ltb, ◌==◌, true,
  false, ok,
}
use cevent_loop.Prelude.Segments.{segment}
use cevent_loop.Buffer.{sub_size}
use cevent_loop.Channel.{call}
use cevent_loop.TcpConnection.{Net, Callbacks, took, first_write, send_in_loop, is_disconnected}
use cevent_loop.TcpConnection.Keeping.{IsValid}
use cevent_loop.TcpConnection.Sending.{Sent, send_open_first}

module _ {W : Type 0} where
  pub first_write-none :
      (cb : Callbacks W) (mem : List ℕ) (ptr len n : ℕ) (s : Net W)
      → cb.write_complete ≡ none
      → first_write cb (took n) mem ptr len s
        ≡ ok (record s { wire = s.wire ++ segment ptr (ptr + n) mem; world = s.world })
  unfolding first_write call
  first_write-none cb mem ptr len n s empty = elim (Bool-cases (ltb 0 n && sub_size len n == 0)) [
    | inl all ↦ rw (all, empty) refl
    | inr some_left ↦ rw some_left refl
  ]

  -- A message of a connection that is not down, where nobody is told that it was written.
  pub send_in_loop-plain :
      (cb : Callbacks W) (n : ℕ) (mem : List ℕ) (ptr len : ℕ) (s : Net W)
      → IsValid s
      → is_disconnected s.conn.state ≡ false
      → cb.write_complete ≡ none
      → n ≤ len
      → ptr + len ≤ length mem
      → s.conn.output_buffer.writer_index + len ≤ length s.conn.output_buffer.buf
      → (s' : Net W) × (send_in_loop cb true (took n) mem ptr len s ≡ ok s')
        × Sent (segment ptr (ptr + len) mem) s s'
        × (s'.world ≡ s.world)
        × (s'.closed ≡ s.closed)
  unfolding send_in_loop
  send_in_loop-plain cb n mem ptr len s v up empty part inside fits =
      let (s', e, k, world, closed) =
        send_open_first cb n mem ptr len s s.world v (first_write-none cb mem ptr len n s empty)
          part inside fits in
      (s', rw up e, k, elim world [ inl same ↦ same | inr same ↦ same ], closed)
