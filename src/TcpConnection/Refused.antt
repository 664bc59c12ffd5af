-- ===== src/TcpConnection/Refused.antt =====
-- `sendInLoop` where `write` fails: -1 is added to the pointer.
use cevent_loop.Prelude.{ℕ, suc, ◌+◌, ◌≤◌, ◌≡◌, List, [], true, false, arith, length, ok, ap, ◌==◌}
use cevent_loop.Prelude.Segments.{segment}
use cevent_loop.Buffer.{contents, readable_bytes}
use cevent_loop.Buffer.Queue.{length-contents}
use cevent_loop.TcpConnection.{
  Net, Callbacks, refused, send_in_loop, send_open, first_write, is_disconnected,
}
use cevent_loop.TcpConnection.Keeping.{IsValid, queue_rest-Kept}
use cevent_loop.Buffer.Valid.{readable_bytes_lem}

-- When `write` fails on a connection that is up and keeps nothing, for a message that has a byte before
-- it in the same object and fits in the output buffer, whose size the high water mark is not below: the
-- bytes that are kept are not the message at `ptr` but the ones that start one byte before it, and the
-- last byte of it is lost; nothing reaches the system.
pub refused_write :
    {W : Type 0} (cb : Callbacks W) (mem : List ℕ) (before len : ℕ) (s : Net W)
    → IsValid s
    → is_disconnected s.conn.state ≡ false
    → contents s.conn.output_buffer ≡ []
    → before + len ≤ length mem
    → s.conn.output_buffer.writer_index + len ≤ length s.conn.output_buffer.buf
    → (s' : Net W) × (send_in_loop cb true refused mem (suc before) len s ≡ ok s')
      × (contents s'.conn.output_buffer ≡ segment before (before + len) mem)
      × (s'.wire ≡ s.wire)
unfolding send_in_loop send_open first_write
refused_write cb mem before len s v up empty inside fits =
    let idle : (readable_bytes s.conn.output_buffer == 0) ≡ true =
      ground (arith, ap length empty, length-contents v.out, readable_bytes_lem v.out) in
    let (s', e, k) = queue_rest-Kept cb mem before len s v inside fits in
    (s', rw (up, idle) e, rw empty at k.output, k.wire_of)
