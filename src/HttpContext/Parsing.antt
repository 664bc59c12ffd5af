-- ===== src/HttpContext/Parsing.antt =====
-- A complete request in the buffer.
use cevent_loop.Prelude.{
  ℕ, zero, suc, ◌+◌, ◌<◌, ◌≡◌, refl, Bool, true, false, Option, some, List, [], ◌∷◌, ◌++◌, length,
  arith, Exec, ok, ◌==◌,
}
use cevent_loop.Prelude.Segments.{segment}
use cevent_loop.Buffer.{Buffer, contents, peek, find_crlf, retrieve_util}
use cevent_loop.Buffer.Valid.{IsValid}
use cevent_loop.Buffer.Lines.{Absent, take_line}
use cevent_loop.HttpContext.{
  HttpContext, HttpRequest, Headers, Scanned, expect_request_line, expect_headers, got_all, assign,
  split, parse_turn, parse_loop, parse_request, take_request_line, take_header,
  process_request_line, with_path, find_method, request_methods, version_of, fits,
}

-- The header lines, the empty line, and what follows it.
abbrev pub header_text : List (List ℕ × List ℕ) → List ℕ → List ℕ
header_text [] rest = 13 ∷ 10 ∷ rest
header_text ((key, value) ∷ hs) rest = (key ++ (58 ∷ value)) ++ (13 ∷ 10 ∷ header_text hs rest)

-- No line holds a carriage return, and no key a colon.
abbrev pub WellFormed : List (List ℕ × List ℕ) → Type 0
WellFormed [] = Unit
WellFormed ((key, value) ∷ hs) = Absent 58 key × Absent 13 (key ++ (58 ∷ value)) × WellFormed hs

abbrev pub assigned : List (List ℕ × List ℕ) → Headers → Headers
assigned [] headers = headers
assigned ((key, value) ∷ hs) headers = assigned hs (assign key value headers)

split-append :
    (x : ℕ) (key value : List ℕ)
    → (x == x) ≡ true
    → Absent x key
    → split x (key ++ (x ∷ value)) ≡ some (key, value)
unfolding split
split-append x [] value e h = rw e refl
split-append x (y ∷ key) value e (h, hs) = rw (h, split-append x key value e hs) refl

-- The context while it reads the headers of a request, and after them.
abbrev pub reading : HttpRequest → HttpContext
reading r = record { request = r; state = expect_headers }

abbrev pub with_headers : List (List ℕ × List ℕ) → HttpRequest → HttpRequest
with_headers hs r = record r { headers = assigned hs r.headers }

module _ (scan : List ℕ → Scanned) (time : ℕ) where
  pub header_turn :
      (key value : List ℕ) (good : Bool) (r : HttpRequest) (b b' : Buffer) (end : ℕ)
      → find_crlf b ≡ some end
      → segment (peek b) end b.buf ≡ key ++ (58 ∷ value)
      → retrieve_util (end + 2) b ≡ ok b'
      → Absent 58 key
      → parse_turn scan time good expect_headers (reading r) b
        ≡ ok (record {
          good = good;
          has_more = true;
          context = reading (record r { headers = assign key value r.headers });
          buffer = b';
        })
  unfolding parse_turn take_header
  header_turn key value good r b b' end e f g h =
      rw (parse_turn, e, g, f, split-append 58 key value refl h) refl

  last_turn :
      (good : Bool) (r : HttpRequest) (b b' : Buffer) (end : ℕ)
      → find_crlf b ≡ some end
      → segment (peek b) end b.buf ≡ []
      → retrieve_util (end + 2) b ≡ ok b'
      → parse_turn scan time good expect_headers (reading r) b
        ≡ ok (record {
          good = good;
          has_more = false;
          context = record { request = r; state = got_all };
          buffer = b';
        })
  unfolding parse_turn take_header split
  last_turn good r b b' end e f g = ground (arith, e, g, f)

  -- One turn of the loop that goes on, and one that ends it.
  pub goes_on :
      (fuel : ℕ) (good good' : Bool) (c c' : HttpContext) (b b' : Buffer)
      (answer : Exec (Option (Bool × HttpContext × Buffer)))
      → parse_turn scan time good c.state c b
        ≡ ok (record { good = good'; has_more = true; context = c'; buffer = b' })
      → parse_loop scan fuel time good' c' b' ≡ answer
      → parse_loop scan (suc fuel) time good c b ≡ answer
  unfolding parse_loop
  goes_on fuel good good' c c' b b' answer e f = rw e f

  ends :
      (fuel : ℕ) (good good' : Bool) (c c' : HttpContext) (b b' : Buffer)
      → parse_turn scan time good c.state c b
        ≡ ok (record { good = good'; has_more = false; context = c'; buffer = b' })
      → parse_loop scan (suc fuel) time good c b ≡ ok (some (good', c', b'))
  unfolding parse_loop
  ends fuel good good' c c' b b' e = rw e refl

  headers_lem :
      (hs : List (List ℕ × List ℕ)) (rest : List ℕ) (fuel : ℕ) (good : Bool) (r : HttpRequest)
      {b : Buffer}
      → IsValid b
      → contents b ≡ header_text hs rest
      → WellFormed hs
      → length hs < fuel
      → (b' : Buffer) × (parse_loop scan fuel time good (reading r) b
          ≡ ok (some (good, record { request = with_headers hs r; state = got_all }, b')))
        × IsValid b'
        × (contents b' ≡ rest)
  headers_lem hs rest zero good r v e w l = absurd (omega arith)
  headers_lem [] rest (suc fuel) good r {b} v e w l =
      let (found, line, (b', taken, v', e')) = take_line [] rest v e tt in
      (
        b',
        ends fuel good good (reading r) _ b b' (last_turn good r b b' _ found line taken),
        v',
        e',
      )
  headers_lem ((key, value) ∷ hs) rest (suc fuel) good r {b} v e (no_colon, no_return, w) l =
      let (found, line, (b', taken, v', e')) =
        take_line (key ++ (58 ∷ value)) (header_text hs rest) v e no_return in
      let (b'', answer, v'', e'') =
        headers_lem hs rest fuel good (record r { headers = assign key value r.headers }) v' e' w
          (omega arith) in
      (
        b'',
        goes_on fuel good good (reading r) _ b b' _
            (header_turn key value good r b b' _ found line taken no_colon) answer,
        v'',
        e'',
      )

  -- What a request line makes of a request.
  abbrev pub described : Scanned → HttpRequest → HttpRequest
  described seen r =
      record (with_path seen.path (record r { method = find_method request_methods seen.method })) {
        version = version_of seen;
        receive_time = time;
      }

  pub line_turn :
      (line : List ℕ) (good : Bool) (r : HttpRequest) (b b' : Buffer) (end : ℕ)
      → find_crlf b ≡ some end
      → segment (peek b) end b.buf ≡ line
      → retrieve_util (end + 2) b ≡ ok b'
      → fits (scan line) ≡ true
      → ((scan line).count == 3) ≡ true
      → parse_turn scan time good expect_request_line
          (record { request = r; state = expect_request_line })
          b
        ≡ ok (record {
          good = true;
          has_more = true;
          context = reading (described (scan line) r);
          buffer = b';
        })
  unfolding parse_turn take_request_line process_request_line
  line_turn line good r b b' end e f g short three = rw (parse_turn, e, f, short, three, g) refl

  -- A request line of which `sscanf` makes three fields that fit their arrays, header lines without
  -- carriage returns whose keys hold no colon, an empty line, and then anything: `parseRequest` succeeds
  -- in two turns more than there are headers, with the fields of the line and each header assigned in
  -- order, is at the end of the request, and leaves exactly what follows it in the buffer.
  pub parse_request_lem :
      (line : List ℕ) (hs : List (List ℕ × List ℕ)) (rest : List ℕ) (fuel : ℕ) (r : HttpRequest)
      {b : Buffer}
      → IsValid b
      → contents b ≡ line ++ (13 ∷ 10 ∷ header_text hs rest)
      → Absent 13 line
      → WellFormed hs
      → fits (scan line) ≡ true
      → ((scan line).count == 3) ≡ true
      → length hs + 1 < fuel
      → (b' : Buffer) × (parse_request scan fuel time
            (record { request = r; state = expect_request_line })
            b
          ≡ ok (
              some (
                true,
                record { request = with_headers hs (described (scan line) r); state = got_all },
                b',
              )))
        × IsValid b'
        × (contents b' ≡ rest)
  unfolding parse_request
  parse_request_lem line hs rest zero r v e no_return w short three l = absurd (omega arith)
  parse_request_lem line hs rest (suc fuel) r {b} v e no_return w short three l =
      let (found, text, (b', taken, v', e')) = take_line line (header_text hs rest) v e no_return in
      let (b'', answer, v'', e'') =
        headers_lem hs rest fuel true (described (scan line) r) v' e' w (omega arith) in
      (
        b'',
        goes_on fuel true true (record { request = r; state = expect_request_line }) _ b b' _
            (line_turn line true r b b' _ found text taken short three) answer,
        v'',
        e'',
      )
