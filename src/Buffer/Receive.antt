-- ===== src/Buffer/Receive.antt =====
-- `readFd`: what it does with as much as `readv` may store.
use cevent_loop.Prelude.{
  ◌⊎◌, inl, inr, Bool-cases, leb→le, ◌++◌, ◌∙◌, ℕ, ◌+◌, ◌-◌, ◌≤◌, ◌≡◌, refl, List, arith, length,
  leb, if◌then◌else◌, ok, fault, out_of_bounds, take, length-take, length-drop, ◌<◌,
}
use cevent_loop.Prelude.Segments.{length-overwrite}
use cevent_loop.Buffer.{contents, Buffer, stored, read_fd, offered}
use cevent_loop.Buffer.Queue.{contents-extended}
use cevent_loop.Buffer.Valid.{extended-IsValid, IsValid, extended}

pub read_fd_cases :
    (bytes : List ℕ) {b : Buffer}
    → IsValid b
    → read_fd (stored bytes) b ≡ (
        if leb (length bytes) (length b.buf - b.writer_index)
        then ok (stored bytes, extended bytes b)
        else fault out_of_bounds)
unfolding read_fd
read_fd_cases bytes {b} v = ground (
  arith,
  length-overwrite b.buf b.writer_index bytes,
  length-take (length b.buf - b.writer_index) bytes,
  length-drop (length b.buf - b.writer_index) bytes,
  length-overwrite b.buf b.writer_index (take (length b.buf - b.writer_index) bytes),
)

-- Of what `readv` stores within the room that it is offered: if it fits in the vector, `readFd` leaves
-- a valid buffer that holds it behind what was there; if not, `readFd` writes past the end of the
-- vector.
pub read_fd_lem :
    (bytes : List ℕ) {b : Buffer}
    → IsValid b
    → length bytes ≤ offered b
    → ((length bytes ≤ length b.buf - b.writer_index)
        × ((b' : Buffer) × (read_fd (stored bytes) b ≡ ok (stored bytes, b'))
            × IsValid b'
            × (contents b' ≡ contents b ++ bytes)))
      ⊎ ((length b.buf - b.writer_index < length bytes)
          × (read_fd (stored bytes) b ≡ fault out_of_bounds))
read_fd_lem bytes {b} v h = elim (Bool-cases (leb (length bytes) (length b.buf - b.writer_index))) [
  | inl fits ↦
      let small = leb→le (length bytes) (length b.buf - b.writer_index) fits in
      let inside : b.writer_index + length bytes ≤ length b.buf = omega (arith, v.within) in
      inl (
        small,
        (
          extended bytes b,
          read_fd_cases bytes v ∙ (rw fits refl),
          extended-IsValid bytes v inside,
          contents-extended bytes v inside,
        ),
      )
  | inr over ↦ inr (ground arith, read_fd_cases bytes v ∙ (rw over refl))
]
