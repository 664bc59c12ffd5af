-- ===== src/Buffer/Valid.antt =====
-- The representation invariant of the buffer, and what its size computations come to under it.
use cevent_loop.Prelude.{
  ℕ, ◌+◌, ◌-◌, ◌^◌, ◌≤◌, ◌<◌, ◌≡◌, List, arith, length, leb, if◌then◌else◌, ok, fault,
  out_of_bounds, take, drop, ltb, assertion_failed,
}
use cevent_loop.Prelude.Segments.{overwrite, length-overwrite}
use cevent_loop.Buffer.{
  Buffer, k_cheap_prepend, new, readable_bytes, writable_bytes, append, retrieve,
  retrieve_as_string,
}

-- The indices are in order behind the prepend area, and a buffer that holds nothing starts afresh.
pub record IsValid (b : Buffer) : Type 0 where
  pub prepend : k_cheap_prepend ≤ b.reader_index
  pub ordered : b.reader_index ≤ b.writer_index
  pub within : b.writer_index ≤ length b.buf
  pub small : length b.buf < 2 ^ 63
  pub settled : b.reader_index ≡ b.writer_index → b.reader_index ≡ k_cheap_prepend

pub new-IsValid : (n : ℕ) → IsValid (new n)
unfolding new
new-IsValid n = omega arith

pub readable_bytes_lem :
    {b : Buffer} → IsValid b → readable_bytes b ≡ b.writer_index - b.reader_index
unfolding readable_bytes
readable_bytes_lem v = omega arith

pub writable_bytes_lem : {b : Buffer} → IsValid b → writable_bytes b ≡ length b.buf - b.writer_index
unfolding writable_bytes
writable_bytes_lem v = omega arith

-- The buffer with `bytes` written at its end.
abbrev pub extended : List ℕ → Buffer → Buffer
extended bytes b = record b {
  buf = overwrite b.buf b.writer_index bytes;
  writer_index = b.writer_index + length bytes;
}

-- The buffer without its first `n` bytes.
abbrev pub shortened : ℕ → Buffer → Buffer
shortened n b =
    if ltb n (b.writer_index - b.reader_index)
    then record b { reader_index = b.reader_index + n }
    else record b { reader_index = k_cheap_prepend; writer_index = k_cheap_prepend }

pub append_lem :
    (bytes : List ℕ) {b : Buffer}
    → IsValid b
    → append bytes b ≡ (
        if leb (length bytes) (length b.buf - b.writer_index)
        then ok (extended bytes b)
        else fault out_of_bounds)
unfolding append
append_lem bytes {b} v = ground (arith, length-overwrite b.buf b.writer_index bytes)

pub retrieve_lem :
    (n : ℕ) {b : Buffer}
    → IsValid b
    → retrieve n b ≡ (
        if leb n (b.writer_index - b.reader_index)
        then ok (shortened n b)
        else fault assertion_failed)
unfolding retrieve
retrieve_lem n {b} v = ground (arith, readable_bytes_lem v)

pub retrieve_as_string_lem :
    (n : ℕ) {b : Buffer}
    → IsValid b
    → retrieve_as_string n b ≡ (
        if leb n (b.writer_index - b.reader_index)
        then ok (take n (drop b.reader_index b.buf), shortened n b)
        else fault assertion_failed)
unfolding retrieve_as_string
retrieve_as_string_lem n {b} v = ground (arith, readable_bytes_lem v)

pub extended-IsValid :
    (bytes : List ℕ) {b : Buffer}
    → IsValid b
    → b.writer_index + length bytes ≤ length b.buf
    → IsValid (extended bytes b)
extended-IsValid bytes {b} v h = omega (arith, length-overwrite b.buf b.writer_index bytes)

pub shortened-IsValid : (n : ℕ) {b : Buffer} → IsValid b → IsValid (shortened n b)
shortened-IsValid n {b} v = ground arith
