-- ===== src/HttpServer.antt =====
-- CEventLoop/Http/HttpServer.h and HttpServer.cc: the callbacks that answer requests, on a connection
-- whose context is an `HttpContext`.
mod Tests
pub mod Answer
pub mod Reads
pub mod Waiting
pub mod Pieces
use cevent_loop.Prelude.{
  ℕ, Bool, true, false, Option, none, some, List, [], ◌∷◌, ◌++◌, if◌then◌else◌, Exec, ok, fault,
  ◌>>=◌,
}
use cevent_loop.Prelude.Text.{Text, codes}
use cevent_loop.Buffer.{Buffer}
use cevent_loop.HttpContext.{
  HttpContext, HttpRequest, Scanned, ParseState, expect_request_line, expect_headers, expect_body,
  got_all, parse_request,
}
use cevent_loop.TcpConnection.{Net, Callbacks, Written, States, is_connected, send_text, shutdown}

abbrev line_end : Text
line_end = b'\r' ∷ b'\n' ∷ []

-- The two answers, without their zero bytes.
abbrev pub bad_request : Text
bad_request = codes "HTTP/1.1 400 Bad Request" ++ (line_end ++ line_end)

abbrev pub hello_world : Text
hello_world =
    codes "HTTP/1.1 200 OK" ++ (line_end ++ (line_end ++ codes "<html>Hello World!</html>"))

abbrev pub c_string : Text → Text
c_string t = t ++ (0 ∷ [])

-- A new context, around what the memory of its request held.
abbrev pub fresh_context : HttpRequest → HttpContext
fresh_context request = record { request = request; state = expect_request_line }

-- `gotAll`
abbrev pub is_got_all : ParseState → Bool
is_got_all expect_request_line = false
is_got_all expect_headers = false
is_got_all expect_body = false
is_got_all got_all = true

module _ {W : Type 0} where
  -- `onConnection`: the context that the connection has afterwards.
  unfoldable pub on_connection : HttpRequest → Net W → HttpContext → HttpContext
  on_connection request s c = if is_connected s.conn.state then fresh_context request else c

  -- A text is sent, and the socket is shut down for writing.
  unfoldable pub answer : Text → Callbacks W → Bool → Written → Net W → Exec (Net W)
  unfolding send_text shutdown
  answer text cb here w s = send_text cb here w (c_string text) 0 s >>= shutdown here

  unfoldable pub on_request : Callbacks W → Bool → Written → Net W → Exec (Net W)
  unfolding answer
  on_request cb here w s = answer hello_world cb here w s

  abbrev pub with_input : Buffer → Net W → Net W
  with_input b s = record s { conn = record s.conn { input_buffer = b } }

  -- `onMessage` once the loop of `parseRequest` has ended; `w` and `w'` are what the two writes come to.
  unfoldable pub after_parse :
      Callbacks W → Bool → Written → Written → Bool → HttpContext → Net W → Exec (Net W)
  unfolding answer on_request
  after_parse cb here w w' good c s = do
    s₁ ← if good then ok s else answer bad_request cb here w s
    if is_got_all c.state then on_request cb here w' s₁ else ok s₁

  -- `onMessage` on the input buffer of the connection; `none` where the loop of `parseRequest` has not
  -- ended after that many turns.
  unfoldable pub on_message :
      (List ℕ → Scanned)
      → ℕ
      → ℕ
      → Callbacks W
      → Bool
      → Written
      → Written
      → HttpContext
      → Net W
      → Exec (Option (HttpContext × Net W))
  unfolding parse_request after_parse
  on_message scan fuel time cb here w w' c s =
      parse_request scan fuel time c s.conn.input_buffer >>= λ r. elim r [
        | none ↦ ok none
        | some (good, c', b) ↦
            after_parse cb here w w' good c' (with_input b s) >>= λ s'. ok (some (c', s'))
      ]
