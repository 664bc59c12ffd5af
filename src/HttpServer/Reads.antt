-- ===== src/HttpServer/Reads.antt =====
-- CEventLoop/TcpConnection.cc with HttpServer.cc: `handleRead` of a connection whose message callback is
-- `onMessage`, as the constructor of the server sets it.
use cevent_loop.Prelude.{
  ℕ, Bool, Option, none, some, List, [], ◌∷◌, if◌then◌else◌, Exec, ok, fault, ◌>>=◌,
  not_in_loop_thread,
}
use cevent_loop.Buffer.{Received, failed, stored, read_fd}
use cevent_loop.HttpContext.{HttpContext, Scanned}
use cevent_loop.TcpConnection.{Net, Callbacks, Written, handle_close}
use cevent_loop.HttpServer.{on_message, with_input}

module _ {W : Type 0} (scan : List ℕ → Scanned) (fuel : ℕ) (cb : Callbacks W) (w w' : Written) where
  -- `none` where the loop of `parseRequest` has not ended after that many turns.
  unfoldable pub on_received :
      Bool → ℕ → Received → HttpContext → Net W → Exec (Option (HttpContext × Net W))
  unfolding on_message handle_close
  on_received here time (failed e) c s = ok (some (c, s))
  on_received here time (stored []) c s = handle_close cb here s >>= λ s'. ok (some (c, s'))
  on_received here time (stored (x ∷ xs)) c s = on_message scan fuel time cb here w w' c s

  unfoldable pub on_readable :
      Bool → ℕ → Received → HttpContext → Net W → Exec (Option (HttpContext × Net W))
  unfolding read_fd on_received
  on_readable here time r c s =
      if here
      then (do (r', b) ← read_fd r s.conn.input_buffer; on_received here time r' c (with_input b s))
      else fault not_in_loop_thread

  -- One read after another, each at its time.
  unfoldable pub on_reads :
      List (ℕ × List ℕ) → HttpContext → Net W → Exec (Option (HttpContext × Net W))
  unfolding on_readable
  on_reads [] c s = ok (some (c, s))
  on_reads ((time, text) ∷ more) c s = on_readable Bool.true time (stored text) c s >>= λ r.
      elim r [ none ↦ ok none | some (c', s') ↦ on_reads more c' s' ]
