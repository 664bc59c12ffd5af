-- ===== src/Buffer/Lines.antt =====
-- Taking a line off the buffer: `findCRLF`, the bytes up to it, and `retrieveUtil`.
use cevent_loop.Prelude.{
  ℕ, ◌+◌, ◌-◌, ◌≡◌, refl, ap, ◌∙◌, List, [], ◌∷◌, ◌++◌, arith, length, length-append, true, false,
  some, ok, ◌==◌, leb,
}
use cevent_loop.Prelude.Segments.{segment, take-append-exact, drop-append-exact, drop-drop}
use cevent_loop.Buffer.{
  Buffer, contents, find_crlf, search_for, is_prefix, crlf, peek, retrieve_util, sub_size,
}
use cevent_loop.Buffer.Valid.{IsValid, shortened, shortened-IsValid, retrieve_lem}
use cevent_loop.Buffer.Queue.{length-contents, contents-shortened, take-contents}

-- The list does not hold the value.
abbrev pub Absent : ℕ → List ℕ → Type 0
Absent x [] = Unit
Absent x (y ∷ ys) = ((x == y) ≡ false) × Absent x ys

pub search_for-line :
    (line rest : List ℕ)
    → Absent 13 line
    → search_for crlf (line ++ (13 ∷ 10 ∷ rest)) ≡ some (length line)
unfolding search_for is_prefix
search_for-line [] rest h = refl
search_for-line (x ∷ line) rest (h, hs) = rw (h, search_for-line line rest hs) refl

-- A valid buffer that starts with a line without a carriage return: `findCRLF` finds the end of the
-- line, the bytes up to it are the line, and `retrieveUtil` past the two bytes leaves a valid buffer
-- with the rest.
pub take_line :
    (line rest : List ℕ) {b : Buffer}
    → IsValid b
    → contents b ≡ line ++ (13 ∷ 10 ∷ rest)
    → Absent 13 line
    → (find_crlf b ≡ some (peek b + length line))
      × (segment (peek b) (peek b + length line) b.buf ≡ line)
      × ((b' : Buffer) × (retrieve_util (peek b + length line + 2) b ≡ ok b')
          × IsValid b'
          × (contents b' ≡ rest))
unfolding find_crlf retrieve_util
take_line line rest {b} v e h =
    let size : b.writer_index - b.reader_index ≡ length line + (length rest + 2) =
      omega (arith, length-contents v, ap length e, length-append line (13 ∷ 10 ∷ rest)) in
    let whole : b.reader_index + length line - b.reader_index ≡ length line = omega arith in
    let after : sub_size (b.reader_index + length line + 2) b.reader_index ≡ length line + 2 =
      omega (arith, v.within, v.small) in
    let inside : leb b.reader_index (b.reader_index + length line + 2) ≡ true = ground arith in
    let enough : leb (length line + 2) (b.writer_index - b.reader_index) ≡ true = ground arith in
    (
      rw (e, search_for-line line rest h) refl,
      rw (whole, ← take-contents (length line) b (omega arith), e)
          (take-append-exact (length line) line (13 ∷ 10 ∷ rest) refl),
      (
        shortened (length line + 2) b,
        rw (inside, after, retrieve_lem (length line + 2) v, enough) refl,
        shortened-IsValid (length line + 2) v,
        contents-shortened (length line + 2) v
            ∙ (rw
                (
                  e,
                  ← drop-drop (length line) 2 (line ++ (13 ∷ 10 ∷ rest)),
                  drop-append-exact (length line) line (13 ∷ 10 ∷ rest) refl,
                )
                refl),
      ),
    )
