-- ===== src/Buffer.antt =====
-- CEventLoop/Buffer.h and Buffer.cc: the byte buffer of a connection. A position in the vector is
-- an index, and a pointer into it is the index it stands at. `size_t` is a number below 2 ^ 64.
mod Tests
pub mod Valid
pub mod Queue
pub mod Run
pub mod Receive
pub mod Search
pub mod Lines
pub mod Partial
use cevent_loop.Prelude.{
  ℕ, zero, suc, ◌+◌, ◌-◌, ◌%◌, ◌^◌, Bool, true, false, ◌&&◌, Option, none, some, List, [], ◌∷◌,
  ◌++◌, ltb, leb, ◌==◌, if◌then◌else◌, length, take, drop, replicate, Exec, ok, fault, ◌>>=◌,
  assertion_failed, out_of_bounds,
}
use cevent_loop.Prelude.Segments.{segment, overwrite}
use mathlib.Core.Option

abbrev pub k_cheap_prepend : ℕ
k_cheap_prepend = 8

abbrev pub k_initial_size : ℕ
k_initial_size = 1024

-- `size_t` sums and differences.
abbrev pub add_size : ℕ → ℕ → ℕ
add_size a b = (a + b) % 2 ^ 64

abbrev pub sub_size : ℕ → ℕ → ℕ
sub_size a b = (2 ^ 64 + a - b) % 2 ^ 64

-- `buf_`, `readerIndex_` and `writerIndex_`.
pub record Buffer : Type 0 where
  pub buf : List ℕ
  pub reader_index : ℕ
  pub writer_index : ℕ

-- The constructor. Its argument is not used, as in the source.
unfoldable pub new : ℕ → Buffer
new initial_size = record {
  buf = replicate (k_cheap_prepend + k_initial_size) 0;
  reader_index = k_cheap_prepend;
  writer_index = k_cheap_prepend;
}

unfoldable pub readable_bytes : Buffer → ℕ
readable_bytes b = sub_size b.writer_index b.reader_index

unfoldable pub writable_bytes : Buffer → ℕ
writable_bytes b = sub_size (length b.buf) b.writer_index

unfoldable pub has_written : ℕ → Buffer → Exec Buffer
unfolding writable_bytes
has_written len b =
    if leb len (writable_bytes b)
    then ok (record b { writer_index = add_size b.writer_index len })
    else fault assertion_failed

-- `std::copy` to an index of the vector.
unfoldable pub copy_to : List ℕ → ℕ → List ℕ → Exec (List ℕ)
copy_to bytes at buf =
    if leb (at + length bytes) (length buf)
    then ok (overwrite buf at bytes)
    else fault out_of_bounds

-- `append(data, len)`, where the list is the `len` bytes at `data`.
unfoldable pub append : List ℕ → Buffer → Exec Buffer
unfolding copy_to has_written
append bytes b = do
  buf' ← copy_to bytes b.writer_index b.buf
  has_written (length bytes) (record b { buf = buf' })

-- `peek` and `beginWrite`.
abbrev pub peek : Buffer → ℕ
peek b = b.reader_index

abbrev pub begin_write : Buffer → ℕ
begin_write b = b.writer_index

abbrev pub crlf : List ℕ
crlf = 13 ∷ 10 ∷ []

-- The constant that the source calls CRLF2.
abbrev pub crlf2 : List ℕ
crlf2 = 13 ∷ 10 ∷ []

unfoldable pub is_prefix : List ℕ → List ℕ → Bool
is_prefix [] xs = true
is_prefix (n ∷ ns) [] = false
is_prefix (n ∷ ns) (x ∷ xs) = n == x && is_prefix ns xs

-- `std::search`: how far into the range the first match starts.
unfoldable pub search_for : List ℕ → List ℕ → Option ℕ
unfolding is_prefix
search_for needle [] = none
search_for needle (x ∷ xs) =
    if is_prefix needle (x ∷ xs) then some 0 else Option.map suc (search_for needle xs)

-- The bytes between `peek` and `beginWrite`.
unfoldable pub contents : Buffer → List ℕ
contents b = segment b.reader_index b.writer_index b.buf

-- `none` is the null pointer.
unfoldable pub find_crlf : Buffer → Option ℕ
unfolding search_for contents
find_crlf b = Option.map (λ i. peek b + i) (search_for crlf (contents b))

unfoldable pub find_crlf2 : Buffer → Option ℕ
unfolding search_for contents
find_crlf2 b = Option.map (λ i. peek b + i) (search_for crlf2 (contents b))

unfoldable pub retrieve_all : Buffer → Buffer
retrieve_all b = record b { reader_index = k_cheap_prepend; writer_index = k_cheap_prepend }

unfoldable pub retrieve : ℕ → Buffer → Exec Buffer
unfolding readable_bytes retrieve_all
retrieve len b =
    if leb len (readable_bytes b)
    then ok (
        if ltb len (readable_bytes b)
        then record b { reader_index = add_size b.reader_index len }
        else retrieve_all b)
    else fault assertion_failed

unfoldable pub retrieve_util : ℕ → Buffer → Exec Buffer
unfolding retrieve
retrieve_util end b =
    if leb (peek b) end then retrieve (sub_size end (peek b)) b else fault assertion_failed

-- The string is read before the bytes are given up. A string of more bytes than the vector holds
-- past `peek` would be read outside it.
unfoldable pub retrieve_as_string : ℕ → Buffer → Exec (List ℕ × Buffer)
unfolding readable_bytes retrieve
retrieve_as_string len b =
    if leb len (readable_bytes b)
    then (if leb (peek b + len) (length b.buf)
        then (do b' ← retrieve len b; ok (take len (drop (peek b) b.buf), b'))
        else fault out_of_bounds)
    else fault assertion_failed

unfoldable pub retrieve_all_as_string : Buffer → Exec (List ℕ × Buffer)
retrieve_all_as_string b = retrieve_as_string (readable_bytes b) b

-- What `readv` comes to: an `errno`, or the bytes that it stored, in order.
pub data Received : Type 0 where
  failed : ℕ → Received
  stored : List ℕ → Received

abbrev pub extra_size : ℕ
extra_size = 65536

-- The room that `readv` is given: the rest of the vector, and `extraBuf` where that is smaller.
unfoldable pub offered : Buffer → ℕ
unfolding writable_bytes
offered b =
    if ltb (writable_bytes b) extra_size then writable_bytes b + extra_size else writable_bytes b

-- `readFd`. The first `writable` bytes are stored in the vector and the others in `extraBuf`.
unfoldable pub read_fd : Received → Buffer → Exec (Received × Buffer)
unfolding writable_bytes append copy_to
read_fd (failed e) b = ok (failed e, b)
read_fd (stored bytes) b =
    if leb (length bytes) (writable_bytes b)
    then (do
      buf' ← copy_to bytes b.writer_index b.buf
      ok (
        stored bytes,
        record b { buf = buf'; writer_index = add_size b.writer_index (length bytes) },
      ))
    else (do
      buf' ← copy_to (take (writable_bytes b) bytes) b.writer_index b.buf
      b' ←
          append (drop (writable_bytes b) bytes)
            (record b { buf = buf'; writer_index = length b.buf })
      ok (stored bytes, b'))
