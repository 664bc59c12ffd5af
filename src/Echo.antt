-- ===== src/Echo.antt =====
-- CEventLoop/Test/echo/echo.h and echo.cc: a server that sends back what it gets, and a client that
-- counts.
mod Tests
pub mod Dialogue
pub mod Replies
pub mod Wiring
pub mod Whole
pub mod Exchange
use cevent_loop.Prelude.{
  ℕ, zero, suc, Bool, true, false, Option, none, some, List, [], ◌∷◌, if◌then◌else◌, length, Exec,
  ok, fault, int_overflow, ◌>>=◌, leb, ◌==◌,
}
use cevent_loop.Prelude.Int.{ℤ, pos, negsuc, same}
use cevent_loop.Prelude.Text.{Text, codes, atoi, print_int}
use cevent_loop.Buffer.{Buffer, retrieve_all_as_string}
use cevent_loop.TcpConnection.{Net, Callbacks, Written, send_in_loop}

-- A number as an `int`, which has 32 bits.
unfoldable pub as_int : ℤ → Exec ℤ
as_int (pos n) = if leb n 2147483647 then ok (pos n) else fault int_overflow
as_int (negsuc n) = if leb n 2147483647 then ok (negsuc n) else fault int_overflow

-- `std::atoi`: no behaviour is defined for a number that does not fit.
unfoldable pub read_int : Text → Exec ℤ
unfolding atoi as_int
read_int message = as_int (atoi message)

-- `++num`
unfoldable pub increment : ℤ → Exec ℤ
increment (pos n) = if n == 2147483647 then fault int_overflow else ok (pos (suc n))
increment (negsuc zero) = ok (pos 0)
increment (negsuc (suc n)) = ok (negsuc n)

-- What the server sends for a message; `none` where it stops.
unfoldable pub server_answer : Text → Exec (Option Text)
unfolding read_int same
server_answer message = do
  num ← read_int message
  ok (if same num (pos 1000) then none else some message)

-- What the client sends for a message, and first.
unfoldable pub client_answer : Text → Exec Text
unfolding read_int increment print_int
client_answer message = do num ← read_int message; next ← increment num; ok (print_int next)

abbrev pub first_message : Text
first_message = codes "0"

module _ {W : Type 0} where
  abbrev pub with_input : Buffer → Net W → Net W
  with_input b s = record s { conn = record s.conn { input_buffer = b } }

  unfoldable pub send_all : Callbacks W → Bool → Written → Text → Net W → Exec (Net W)
  unfolding send_in_loop
  send_all cb here w text s = send_in_loop cb here w text 0 (length text) s

  -- `EchoServer::onMessage`, and whether it stops the server.
  unfoldable pub server_on_message : Callbacks W → Bool → Written → Net W → Exec (Bool × Net W)
  unfolding server_answer send_all retrieve_all_as_string
  server_on_message cb here w s = do
    (message, b) ← retrieve_all_as_string s.conn.input_buffer
    answer ← server_answer message
    elim answer [
      | none ↦ ok (true, with_input b s)
      | some text ↦ send_all cb here w text (with_input b s) >>= λ s'. ok (false, s')
    ]

  -- `EchoClient::onConnection` and `EchoClient::onMessage`
  unfoldable pub client_on_connection : Callbacks W → Bool → Written → Net W → Exec (Net W)
  unfolding send_all
  client_on_connection cb here w s = send_all cb here w first_message s

  unfoldable pub client_on_message : Callbacks W → Bool → Written → Net W → Exec (Net W)
  unfolding client_answer send_all retrieve_all_as_string
  client_on_message cb here w s = do
    (message, b) ← retrieve_all_as_string s.conn.input_buffer
    text ← client_answer message
    send_all cb here w text (with_input b s)
