-- ===== src/TcpConnection.antt =====
-- CEventLoop/TcpConnection.h and TcpConnection.cc: a connection, the poller that its channel is
-- registered with, and what its socket has come to. `here` says whether the caller is in the thread of
-- the loop.
mod Tests
pub mod Keeping
pub mod Sending
pub mod Refused
pub mod Order
pub mod Closing
pub mod Plain
pub mod Deeds
pub mod Steps
pub mod Duplex
pub mod Fixture
pub mod Hooks
use cevent_loop.Prelude.{
  ℕ, zero, suc, ◌+◌, ◌*◌, ◌^◌, Bool, true, false, ◌&&◌, Option, none, some, List, [], ◌∷◌, ◌++◌,
  ltb, leb, ◌==◌, if◌then◌else◌, length, drop, Exec, ok, fault, ◌>>=◌, out_of_bounds,
  bad_function_call, not_in_loop_thread,
}
use cevent_loop.Prelude.Int.{ℤ}
use cevent_loop.Prelude.Maps.{store}
use cevent_loop.Prelude.Segments.{segment}
use cevent_loop.Buffer
use cevent_loop.Buffer.{
  Buffer, Received, failed, stored, add_size, sub_size, readable_bytes, peek, append, read_fd,
}
use cevent_loop.Channel
use cevent_loop.Channel.{call}
use cevent_loop.Poller.{Poller, modify, enable_reading, enable_writing, disable_all, remove_channel}

-- `enum class States`
pub data States : Type 0 where
  disconnected connecting connected : States

abbrev pub is_disconnected : States → Bool
is_disconnected disconnected = true
is_disconnected connecting = false
is_disconnected connected = false

abbrev pub is_connected : States → Bool
is_connected disconnected = false
is_connected connecting = false
is_connected connected = true

-- `channel` is the address of the channel.
pub record TcpConnection : Type 0 where
  pub state : States
  pub channel : ℕ
  pub high_water_mark : ℕ
  pub input_buffer : Buffer
  pub output_buffer : Buffer

-- The constructor, with the channel that it makes.
unfoldable pub new : ℕ → TcpConnection
new channel = record {
  state = disconnected;
  channel = channel;
  high_water_mark = 64 * 1024 * 1024;
  input_buffer = Buffer.new 1024;
  output_buffer = Buffer.new 1024;
}

-- A connection, its poller, the bytes that the system took from it, the descriptors that it closed,
-- whether it shut the socket down for writing, and the rest of the program.
pub record Net (W : Type 0) : Type 0 where
  pub conn : TcpConnection
  pub poller : Poller
  pub wire : List ℕ
  pub closed : List ℤ
  pub write_ended : Bool
  pub world : W

-- The `std::function`s of a connection.
pub record Callbacks (W : Type 0) : Type 0 where
  pub connection : Option (Net W → Exec (Net W))
  pub message : Option (ℕ → Net W → Exec (Net W))
  pub close : Option (Net W → Exec (Net W))
  pub write_complete : Option (Net W → Exec (Net W))
  pub high_water : Option (ℕ → Net W → Exec (Net W))
  pub write : Option (Net W → Exec (Net W))

-- What `::write` comes to: -1, or how many bytes the system took.
pub data Written : Type 0 where
  refused : Written
  took : ℕ → Written

-- Whether a `ssize_t` is positive.
abbrev pub is_positive : ℕ → Bool
is_positive n = ltb 0 n && ltb n (2 ^ 63)

-- The `len` bytes at a pointer into an object.
abbrev pub read_memory : List ℕ → ℕ → ℕ → Exec (List ℕ)
read_memory mem at len =
    if leb (at + len) (length mem) then ok (segment at (at + len) mem) else fault out_of_bounds

-- `data + nwrote`, where `nwrote` is -1 for a refused write.
abbrev pub past_written : Written → ℕ → Exec ℕ
past_written refused zero = fault out_of_bounds
past_written refused (suc d) = ok d
past_written (took n) d = ok (d + n)

abbrev pub strlen : List ℕ → Exec ℕ
strlen [] = fault out_of_bounds
strlen (x ∷ xs) = if x == 0 then ok 0 else (strlen xs >>= λ n. ok (suc n))

-- `remaining` after the write.
abbrev pub unwritten : Written → ℕ → ℕ
unwritten refused len = len
unwritten (took n) len = sub_size len n

module _ {W : Type 0} where
  -- A call of a `std::function` that no test guards.
  abbrev pub invoke : Option (Net W → Exec (Net W)) → Net W → Exec (Net W)
  invoke none s = fault bad_function_call
  invoke (some f) s = f s

  abbrev pub invoke_with : Option (ℕ → Net W → Exec (Net W)) → ℕ → Net W → Exec (Net W)
  invoke_with none n s = fault bad_function_call
  invoke_with (some f) n s = f n s

  abbrev pub descriptor : Net W → ℤ
  descriptor s = (s.poller.heap s.conn.channel).fd

  abbrev pub with_poller : Net W → Exec Poller → Exec (Net W)
  with_poller s r = r >>= λ p. ok (record s { poller = p })

  abbrev pub with_state : States → Net W → Net W
  with_state state s = record s { conn = record s.conn { state = state } }

  abbrev pub with_output : Buffer → Net W → Net W
  with_output b s = record s { conn = record s.conn { output_buffer = b } }

  -- `SocketsOps::Write(fd, data, len)`, with the call back for a write that took everything.
  unfoldable pub first_write : Callbacks W → Written → List ℕ → ℕ → ℕ → Net W → Exec (Net W)
  unfolding call
  first_write cb refused mem ptr len s = ok s
  first_write cb (took n) mem ptr len s =
      let s' = record s { wire = s.wire ++ segment ptr (ptr + n) mem } in
      if ltb 0 n && sub_size len n == 0 then call cb.write_complete s' else ok s'

  -- `if(!channel_->isWriting()) channel_->enableWriting()`
  unfoldable pub ensure_writing : Net W → Exec (Net W)
  unfolding Channel.is_writing enable_writing
  ensure_writing s =
      if Channel.is_writing (s.poller.heap s.conn.channel)
      then ok s
      else with_poller s (enable_writing s.conn.channel s.poller)

  -- `if (remaining > 0)`
  unfoldable pub queue_rest : Callbacks W → List ℕ → Exec ℕ → ℕ → Net W → Exec (Net W)
  unfolding readable_bytes append ensure_writing
  queue_rest cb mem from remaining s =
      let old = readable_bytes s.conn.output_buffer in
      let total = add_size old remaining in
      if is_positive remaining
      then (do
        s₁ ←
            if leb s.conn.high_water_mark total && ltb old s.conn.high_water_mark
            then invoke_with cb.high_water total s
            else ok s
        at ← from
        bytes ← read_memory mem at remaining
        out ← append bytes s₁.conn.output_buffer
        ensure_writing (with_output out s₁))
      else ok s

  -- `sendInLoop` once the state has been tested.
  unfoldable pub send_open : Callbacks W → Written → List ℕ → ℕ → ℕ → Net W → Exec (Net W)
  unfolding readable_bytes first_write queue_rest
  send_open cb w mem ptr len s =
      if readable_bytes s.conn.output_buffer == 0
      then (do
        s' ← first_write cb w mem ptr len s
        queue_rest cb mem (past_written w ptr) (unwritten w len) s')
      else queue_rest cb mem (ok ptr) len s

  -- `sendInLoop(data, len)`, where `ptr` is where `data` points in the object `mem`.
  unfoldable pub send_in_loop : Callbacks W → Bool → Written → List ℕ → ℕ → ℕ → Net W → Exec (Net W)
  unfolding send_open
  send_in_loop cb here w mem ptr len s =
      if here
      then (if is_disconnected s.conn.state then ok s else send_open cb w mem ptr len s)
      else fault not_in_loop_thread

  -- `send(const char*)`
  unfoldable pub send_text : Callbacks W → Bool → Written → List ℕ → ℕ → Net W → Exec (Net W)
  unfolding send_in_loop
  send_text cb here w mem ptr s = do
    len ← strlen (drop ptr mem)
    send_in_loop cb here w mem ptr len s

  -- `send(Buffer*)`. The bytes stay in that buffer, and another thread sends nothing.
  unfoldable pub send_buffer : Callbacks W → Bool → Written → Buffer → Net W → Exec (Net W)
  unfolding send_in_loop readable_bytes
  send_buffer cb here w b s =
      if is_connected s.conn.state && here
      then send_in_loop cb here w b.buf (peek b) (readable_bytes b) s
      else ok s

  unfoldable pub connect_established : Callbacks W → Bool → Net W → Exec (Net W)
  unfolding call modify Channel.tie enable_reading
  connect_established cb here s =
      if here
      then (do
        s' ←
            with_poller s
              (enable_reading s.conn.channel (modify Channel.tie s.conn.channel s.poller))
        call cb.connection (with_state connected s'))
      else fault not_in_loop_thread

  -- `channel_->remove()`
  unfoldable pub drop_channel : Net W → Exec (Net W)
  unfolding remove_channel
  drop_channel s = with_poller s (remove_channel s.conn.channel s.poller)

  -- `channel_->disableAll()`
  unfoldable pub silence : Net W → Exec (Net W)
  unfolding disable_all
  silence s = with_poller s (disable_all s.conn.channel s.poller)

  unfoldable pub connect_destroyed : Callbacks W → Bool → Net W → Exec (Net W)
  unfolding drop_channel silence
  connect_destroyed cb here s =
      if here
      then (if is_connected s.conn.state
          then (do
            s₁ ← silence (with_state disconnected s)
            s₂ ← invoke cb.connection s₁
            drop_channel (record s₂ { closed = descriptor s₂ ∷ s₂.closed }))
          else drop_channel s)
      else fault not_in_loop_thread

  unfoldable pub shutdown : Bool → Net W → Exec (Net W)
  shutdown here s = if here then ok (record s { write_ended = true }) else fault not_in_loop_thread

  -- `~TcpConnection`
  unfoldable pub destruct : Bool → Net W → Exec (Net W)
  unfolding shutdown
  destruct here s = if is_connected s.conn.state then shutdown here s else ok s

  unfoldable pub handle_close : Callbacks W → Bool → Net W → Exec (Net W)
  unfolding silence
  handle_close cb here s =
      if here
      then (do
        s₁ ← silence (with_state disconnected s)
        s₂ ← invoke cb.connection s₁
        invoke cb.close s₂)
      else fault not_in_loop_thread

  -- What `handleRead` does with what `readFd` returned.
  unfoldable pub received : Callbacks W → Bool → ℕ → Received → Net W → Exec (Net W)
  unfolding handle_close
  received cb here time (failed e) s = ok s
  received cb here time (stored []) s = handle_close cb here s
  received cb here time (stored (x ∷ xs)) s = invoke_with cb.message time s

  unfoldable pub handle_read : Callbacks W → Bool → ℕ → Received → Net W → Exec (Net W)
  unfolding read_fd received
  handle_read cb here time r s =
      if here
      then (do
        (r', b) ← read_fd r s.conn.input_buffer
        received cb here time r' (record s { conn = record s.conn { input_buffer = b } }))
      else fault not_in_loop_thread

  unfoldable pub handle_write : Net W → Exec (Net W)
  handle_write s = ok s
