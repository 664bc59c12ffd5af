-- ===== src/HttpContext.antt =====
-- CEventLoop/Http/HttpContext.h, HttpContext.cc, HttpRequest.h and HttpRequest.cc: the parser of
-- requests over the input buffer of a connection. Texts are lists of bytes. What `sscanf` makes of a
-- line is a parameter.
mod Tests
pub mod Parsing
pub mod Hanging
pub mod Cut
pub mod Execute
use cevent_loop.Prelude.{
  ℕ, zero, suc, ◌+◌, Bool, true, false, ◌&&◌, not, Option, none, some, List, [], ◌∷◌, ltb, leb,
  ◌==◌, if◌then◌else◌, length, Exec, ok, fault, ◌>>=◌, out_of_bounds,
}
use cevent_loop.Prelude.Segments.{segment}
use cevent_loop.Prelude.Text.{same_text}
use cevent_loop.Buffer.{Buffer, find_crlf, peek, retrieve_util}
use mathlib.Core.Option

pub data Method : Type 0 where
  get post head put delete invalid : Method

pub data Version : Type 0 where
  unknown http10 http11 : Version

-- `std::map<std::string, std::string>`
abbrev pub Headers : Type 0
Headers = List ℕ → Option (List ℕ)

abbrev pub assign : List ℕ → List ℕ → Headers → Headers
assign key value headers other = if same_text key other then some value else headers other

pub record HttpRequest : Type 0 where
  pub version : Version
  pub method : Method
  pub path : List ℕ
  pub query : List ℕ
  pub receive_time : ℕ
  pub headers : Headers

-- `requestMethods`: "GET", "POST", "HEAD", "Put" and "Delete".
abbrev pub request_methods : List (List ℕ × Method)
request_methods =
    (71 ∷ 69 ∷ 84 ∷ [], get)
    ∷ (80 ∷ 79 ∷ 83 ∷ 84 ∷ [], post)
    ∷ (72 ∷ 69 ∷ 65 ∷ 68 ∷ [], head)
    ∷ (80 ∷ 117 ∷ 116 ∷ [], put)
    ∷ (68 ∷ 101 ∷ 108 ∷ 101 ∷ 116 ∷ 101 ∷ [], delete)
    ∷ []

unfoldable pub find_method : List (List ℕ × Method) → List ℕ → Method
find_method [] text = invalid
find_method ((name, m) ∷ rest) text = if same_text name text then m else find_method rest text

-- `strchr` and `std::find`: the bytes before and after the first occurrence.
unfoldable pub split : ℕ → List ℕ → Option (List ℕ × List ℕ)
split x [] = none
split x (y ∷ ys) =
    if x == y
    then some ([], ys)
    else Option.map (λ (before, after). (y ∷ before, after)) (split x ys)

-- What `sscanf(line, "%s %s HTTP/%f", ...)` returns and leaves in its arguments, and on which side of
-- the two comparisons the version falls.
pub record Scanned : Type 0 where
  pub count : ℕ
  pub method : List ℕ
  pub path : List ℕ
  pub near_10 : Bool
  pub near_11 : Bool

-- `char method[12], path[1024]`: the text with its zero byte.
abbrev pub fits : Scanned → Bool
fits r = ltb (length r.method) 12 && ltb (length r.path) 1024

abbrev pub version_of : Scanned → Version
version_of r = if r.near_10 then http10 else (if r.near_11 then http11 else http10)

unfoldable pub with_path : List ℕ → HttpRequest → HttpRequest
unfolding split
with_path text r = elim (split 63 text) [
  | none ↦ record r { path = text }
  | some (before, after) ↦ record r { path = before; query = after }
]

-- `HttpRequestParseState`
pub data ParseState : Type 0 where
  expect_request_line expect_headers expect_body got_all : ParseState

pub record HttpContext : Type 0 where
  pub request : HttpRequest
  pub state : ParseState

-- The outcome of one turn of the `while`: `ok`, `hasMore`, and what the turn leaves.
pub record Turn : Type 0 where
  pub good : Bool
  pub has_more : Bool
  pub context : HttpContext
  pub buffer : Buffer

module _ (scan : List ℕ → Scanned) where
  unfoldable pub process_request_line : List ℕ → HttpRequest → Exec (Bool × HttpRequest)
  unfolding find_method with_path
  process_request_line line r =
      let seen = scan line in
      let named = record r { method = find_method request_methods seen.method } in
      if fits seen
      then ok (seen.count == 3, record (with_path seen.path named) { version = version_of seen })
      else fault out_of_bounds

  -- The state ExpectRequestLine, with a line that ends at `crlf`.
  unfoldable pub take_request_line : ℕ → ℕ → HttpContext → Buffer → Exec Turn
  unfolding process_request_line
  take_request_line time crlf c b = do
    (good, r) ← process_request_line (segment (peek b) crlf b.buf) c.request
    if good
        then (retrieve_util (crlf + 2) b >>= λ b'. ok (record {
          good = true;
          has_more = true;
          context = record { request = record r { receive_time = time }; state = expect_headers };
          buffer = b';
        }))
        else ok (record {
          good = false;
          has_more = false;
          context = record c { request = r };
          buffer = b;
        })

  -- The state ExpectHeaders, with a line that ends at `crlf`.
  unfoldable pub take_header : Bool → ℕ → HttpContext → Buffer → Exec Turn
  unfolding split
  take_header good crlf c b = do
    b' ← retrieve_util (crlf + 2) b
    elim (split 58 (segment (peek b) crlf b.buf)) [
      | none ↦ ok (record {
        good = good;
        has_more = false;
        context = record c { state = got_all };
        buffer = b';
      })
      | some (key, value) ↦ ok (record {
        good = good;
        has_more = true;
        context = record c {
          request = record c.request { headers = assign key value c.request.headers };
        };
        buffer = b';
      })
    ]

  unfoldable pub parse_turn : ℕ → Bool → ParseState → HttpContext → Buffer → Exec Turn
  unfolding take_request_line take_header
  parse_turn time good expect_request_line c b = elim (find_crlf b) [
    | none ↦ ok (record { good = good; has_more = false; context = c; buffer = b })
    | some crlf ↦ take_request_line time crlf c b
  ]
  parse_turn time good expect_headers c b = elim (find_crlf b) [
    | none ↦ ok (record { good = good; has_more = true; context = c; buffer = b })
    | some crlf ↦ take_header good crlf c b
  ]
  parse_turn time good expect_body c b =
      ok (record { good = good; has_more = true; context = c; buffer = b })
  parse_turn time good got_all c b =
      ok (record { good = good; has_more = true; context = c; buffer = b })

  -- So many turns of the loop; `none` where it still runs after them.
  unfoldable pub parse_loop :
      ℕ → ℕ → Bool → HttpContext → Buffer → Exec (Option (Bool × HttpContext × Buffer))
  unfolding parse_turn
  parse_loop zero time good c b = ok none
  parse_loop (suc fuel) time good c b = parse_turn time good c.state c b >>= λ t.
      let rest = parse_loop fuel time t.good t.context t.buffer in
      if t.has_more then rest else ok (some (t.good, t.context, t.buffer))

  unfoldable pub parse_request :
      ℕ → ℕ → HttpContext → Buffer → Exec (Option (Bool × HttpContext × Buffer))
  unfolding parse_loop
  parse_request fuel time c b = parse_loop fuel time true c b
