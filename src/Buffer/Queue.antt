-- ===== src/Buffer/Queue.antt =====
-- What the buffer promises: a queue of bytes with room for so many more. The room that is used up
-- comes back only when the queue is emptied.
use cevent_loop.Prelude.{
  ℕ, ◌+◌, ◌-◌, ◌≤◌, ◌≡◌, refl, List, [], ◌++◌, arith, length, leb, ltb, if◌then◌else◌, Exec, ok,
  fault, out_of_bounds, take, drop, assertion_failed, sym, ◌∙◌, Bool-cases, inl, inr,
}
use cevent_loop.Prelude.Segments.{
  length-overwrite, length-segment, segment-overwrite, drop-segment, take-take, drop_of_length-le,
}
use cevent_loop.Buffer.{
  Buffer, k_cheap_prepend, append, retrieve, retrieve_as_string, retrieve_all_as_string,
  retrieve_all, contents,
}
use cevent_loop.Buffer.Valid.{
  IsValid, extended, shortened, append_lem, retrieve_lem, retrieve_as_string_lem,
  readable_bytes_lem,
}

pub record Queue : Type 0 where
  pub bytes : List ℕ
  pub room : ℕ
  pub capacity : ℕ

abbrev pub view : Buffer → Queue
view b = record {
  bytes = contents b;
  room = length b.buf - b.writer_index;
  capacity = length b.buf - k_cheap_prepend;
}

-- The calls of a client, and the text that each gives back.
pub data Call : Type 0 where
  appends : List ℕ → Call
  retrieves takes : ℕ → Call
  takes_all clears : Call

abbrev pub Reply {ℓ} : Type ℓ → Type ℓ
Reply S = Exec (List ℕ × S)

abbrev pub silent {ℓ} : {S : Type ℓ} → Exec S → Reply S
silent (ok s) = ok ([], s)
silent (fault e) = fault e

unfoldable pub step : Call → Buffer → Reply Buffer
step (appends bytes) b = silent (append bytes b)
step (retrieves n) b = silent (retrieve n b)
step (takes n) b = retrieve_as_string n b
step takes_all b = retrieve_all_as_string b
step clears b = ok ([], retrieve_all b)

-- The same calls on the queue.
pub emptied : Queue → Queue
emptied q = record q { bytes = []; room = q.capacity }

pub without : ℕ → Queue → Queue
unfolding emptied
without n q = if ltb n (length q.bytes) then record q { bytes = drop n q.bytes } else emptied q

pub spec_step : Call → Queue → Reply Queue
unfolding emptied without
spec_step (appends bytes) q =
    if leb (length bytes) q.room
    then ok ([], record q { bytes = q.bytes ++ bytes; room = q.room - length bytes })
    else fault out_of_bounds
spec_step (retrieves n) q =
    if leb n (length q.bytes) then ok ([], without n q) else fault assertion_failed
spec_step (takes n) q =
    if leb n (length q.bytes) then ok (take n q.bytes, without n q) else fault assertion_failed
spec_step takes_all q = ok (q.bytes, emptied q)
spec_step clears q = ok ([], emptied q)

abbrev pub seen : Reply Buffer → Reply Queue
seen (ok (out, b)) = ok (out, view b)
seen (fault e) = fault e

pub length-contents :
    {b : Buffer} → IsValid b → length (contents b) ≡ b.writer_index - b.reader_index
unfolding contents
length-contents {b} v = length-segment b.reader_index b.writer_index b.buf v.within

pub contents-extended :
    (bytes : List ℕ) {b : Buffer}
    → IsValid b
    → b.writer_index + length bytes ≤ length b.buf
    → contents (extended bytes b) ≡ contents b ++ bytes
unfolding contents
contents-extended bytes {b} v h =
    segment-overwrite b.buf b.reader_index b.writer_index (b.writer_index + length bytes) bytes
      v.ordered refl h

view-extended :
    (bytes : List ℕ) {b : Buffer}
    → IsValid b
    → b.writer_index + length bytes ≤ length b.buf
    → view (extended bytes b) ≡ record {
      bytes = contents b ++ bytes;
      room = length b.buf - b.writer_index - length bytes;
      capacity = length b.buf - k_cheap_prepend;
    }
view-extended bytes {b} v h =
    ground (arith, contents-extended bytes v h, length-overwrite b.buf b.writer_index bytes)

drop-contents :
    (n : ℕ) (b : Buffer)
    → drop n (contents b) ≡ contents (record b { reader_index = b.reader_index + n })
unfolding contents
drop-contents n b = drop-segment n b.reader_index b.writer_index b.buf

pub take-contents :
    (n : ℕ) (b : Buffer)
    → n ≤ b.writer_index - b.reader_index
    → take n (contents b) ≡ take n (drop b.reader_index b.buf)
unfolding contents
take-contents n b h = take-take n (b.writer_index - b.reader_index) (drop b.reader_index b.buf) h

contents-cleared : (b : Buffer) → contents (retrieve_all b) ≡ []
unfolding contents retrieve_all
contents-cleared b = refl

view-cleared : (b : Buffer) → view (retrieve_all b) ≡ emptied (view b)
unfolding emptied retrieve_all
view-cleared b = ground (arith, contents-cleared b)

-- A buffer without its first bytes holds the rest of them.
pub contents-shortened :
    (n : ℕ) {b : Buffer} → IsValid b → contents (shortened n b) ≡ drop n (contents b)
unfolding retrieve_all
contents-shortened n {b} v = elim (Bool-cases (ltb n (b.writer_index - b.reader_index))) [
  | inl part ↦ rw part (sym (drop-contents n b))
  | inr all ↦
      let none_left : length (contents b) ≤ n = ground (arith, length-contents v) in
      rw all (contents-cleared b ∙ sym (drop_of_length-le n (contents b) none_left))
]

view-shortened : (n : ℕ) {b : Buffer} → IsValid b → view (shortened n b) ≡ without n (view b)
unfolding without emptied retrieve_all
view-shortened n {b} v = ground (arith, drop-contents n b, length-contents v, contents-cleared b)

pub retrieve_all_as_string_lem :
    {b : Buffer} → IsValid b → retrieve_all_as_string b ≡ ok (contents b, retrieve_all b)
unfolding retrieve_all_as_string retrieve_all contents
retrieve_all_as_string_lem {b} v =
    rw (readable_bytes_lem v, retrieve_as_string_lem (b.writer_index - b.reader_index) v)
      (ground arith)

-- Every call of a valid buffer gives back the same text, or the same fault, as that of its queue.
pub step_refines : (c : Call) {b : Buffer} → IsValid b → seen (step c b) ≡ spec_step c (view b)
unfolding step spec_step
step_refines (appends bytes) {b} v = rw (append_lem bytes v) (ground (arith, view-extended bytes v))
step_refines (retrieves n) {b} v =
    ground (arith, retrieve_lem n v, view-shortened n v, length-contents v)
step_refines (takes n) {b} v =
    ground
      (arith, retrieve_as_string_lem n v, view-shortened n v, length-contents v, take-contents n b)
step_refines takes_all {b} v = ground (arith, retrieve_all_as_string_lem v, view-cleared b)
step_refines clears {b} v = ground (arith, view-cleared b)
