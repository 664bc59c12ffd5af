-- ===== src/TcpServer/Departure.antt =====
-- A peer closes a connection of the server: the way from `handleRead` of the connection through the loop
-- of the server and back to the loop of the connection.
use cevent_loop.Prelude.{
  ℕ, ◌<◌, ◌≡◌, inl, inr, refl, sym, ap, ◌∙◌, true, false, Option, some, List, [], ◌∷◌, ◌++◌, arith,
  ok, ◌==◌, Exec, ◌>>=◌,
}
use cevent_loop.Prelude.Maps.{store, store_cases, store_self, store_ne}
use cevent_loop.Buffer.{Buffer, stored, read_fd, contents}
use cevent_loop.Buffer.Valid.{extended}
use cevent_loop.Buffer.Valid
use cevent_loop.Buffer.Receive.{read_fd_cases}
use cevent_loop.Poller.{Poller}
use cevent_loop.TcpConnection.{
  Net, Callbacks, States, disconnected, is_connected, descriptor, drop_channel, with_state,
  handle_read, connect_destroyed,
}
use cevent_loop.TcpConnection.Hooks.{
  no_callbacks, set_connection_callback, set_message_callback, set_close_callback,
}
use cevent_loop.TcpConnection.Closing.{
  Attached, Gone, silence_lem, drop_channel_lem, handle_read-ends,
}
use cevent_loop.TcpServer.{
  TcpServer, Task, destroys, removes, queue_in, run_now, run_first, remove_connection,
  remove_connection_in_loop,
}
use cevent_loop.TcpServer.Registry.{Registry, Represents, goes, spec_act}
use cevent_loop.TcpServer.Connections.{without, scheduled-Represents, without-Represents}
use cevent_loop.TcpServer.Histories.{taken}
use cevent_loop.TcpServer.Hosting.{
  Hosted, with_server, hooks, carry_out, take_functor, take_functors,
}

-- A queue that was empty is empty after another functor was queued and taken.
pub cleared :
    (queue : ℕ → List Task) (l k : ℕ) (ts : List Task)
    → queue k ≡ []
    → store (store queue l ts) l [] k ≡ []
cleared queue l k ts e = elim (store_cases (store queue l ts) l k []) [
  | inl (same, w) ↦ w
  | inr (n, w) ↦ w ∙ (store_ne queue l k ts n ∙ e)
]

-- The server when its loop has taken the removal, and when the loop of the connection has taken the
-- end of it.
module _ (c : ℕ) (s : TcpServer) where
  abbrev asked : TcpServer
  asked = queue_in s.loop (removes c) s

  abbrev removed : TcpServer
  removed = without c (taken s.loop (removes c) asked [])

  abbrev pub departed : TcpServer
  departed = taken (s.heap c).io_loop (destroys c) removed []

  removal_waits : s.queue s.loop ≡ [] → (asked).queue s.loop ≡ removes c ∷ []
  unfolding queue_in
  removal_waits e = store_self s.queue s.loop _ ∙ ap (λ ts. ts ++ (removes c ∷ [])) e

  end_waits : s.queue (s.heap c).io_loop ≡ [] → (removed).queue (s.heap c).io_loop ≡ destroys c ∷ []
  unfolding queue_in run_now
  end_waits e =
      store_self (store (asked).queue s.loop []) (s.heap c).io_loop _
      ∙ ap (λ ts. ts ++ (destroys c ∷ []))
          (cleared s.queue s.loop (s.heap c).io_loop (s.queue s.loop ++ (removes c ∷ [])) e)

  departed-Represents :
      {r : Registry}
      → Represents s r
      → r.count < 2147483647
      → c < r.count
      → Represents departed (spec_act (goes c) r)
  unfolding queue_in run_now
  departed-Represents v small h =
      let u = taken s.loop (removes c) asked [] in
      scheduled-Represents departed.ran departed.queue
        (without-Represents (scheduled-Represents u.ran u.queue v) small c h)

first_removes :
    (c : ℕ) (s : TcpServer) (l : ℕ) (ts : List Task)
    → s.loop ≡ l
    → s.queue l ≡ removes c ∷ ts
    → run_first l s ≡ ok (without c (taken l (removes c) s ts))
unfolding run_first run_now remove_connection queue_in
first_removes c s l ts home e =
    let same : (l == s.loop) ≡ true = ground arith in rw (run_first, e, same) refl

first_destroys :
    (c : ℕ) (s : TcpServer) (l : ℕ) (ts : List Task)
    → s.queue l ≡ destroys c ∷ ts
    → run_first l s ≡ ok (taken l (destroys c) s ts)
unfolding run_first
first_destroys c s l ts e = rw (run_first, e) refl

-- The user is told of a connection what its state is.
abbrev pub tells : {U : Type 0} → (States → U → U) → Net (Hosted U) → Exec (Net (Hosted U))
tells note s = ok (record s { world = record s.world { user = note s.conn.state s.world.user } })

-- A connection that the server made, whose loop and the server's have nothing waiting.
pub record Resident {U : Type 0} (c : ℕ) (r : Registry) (s : Net (Hosted U)) : Type 0 where
  pub represented : Represents s.world.server r
  pub few : r.count < 2147483647
  pub made : c < r.count
  pub attached : Attached s
  pub input : cevent_loop.Buffer.Valid.IsValid s.conn.input_buffer
  pub at_home : s.world.server.queue s.world.server.loop ≡ []
  pub away : s.world.server.queue (s.world.server.heap c).io_loop ≡ []

-- What is left when the connection has gone.
pub record Departed {U : Type 0} (c : ℕ) (r : Registry) (note : States → U → U)
    (s s' : Net (Hosted U)) : Type 0 where
  pub unlisted : Represents s'.world.server (spec_act (goes c) r)
  pub told : s'.world.user ≡ note disconnected s.world.user
  pub gone : Gone s.closed s s'
  pub unchanged :
      s'.wire ++ contents s'.conn.output_buffer ≡ s.wire ++ contents s.conn.output_buffer

module _ {U : Type 0} (note : States → U → U) (c : ℕ)
    (message : Option (ℕ → Net (Hosted U) → Exec (Net (Hosted U)))) where
  abbrev cb : Callbacks (Hosted U)
  cb = hooks c (some (tells note)) message

  -- The connection when `handleClose` has run, and with another state of the server.
  abbrev shut : Poller → Net (Hosted U) → Net (Hosted U)
  shut p s = record s {
    conn = record s.conn { state = disconnected; input_buffer = extended [] s.conn.input_buffer };
    poller = p;
    world = record { server = asked c s.world.server; user = note disconnected s.world.user };
  }

  reads_end :
      (time : ℕ) (s : Net (Hosted U))
      → cevent_loop.Buffer.Valid.IsValid s.conn.input_buffer
      → Attached s
      → (p : Poller) × (handle_read cb true time (stored []) s ≡ ok (shut p s))
        × Attached (shut p s)
        × (descriptor (shut p s) ≡ descriptor s)
  unfolding hooks no_callbacks set_connection_callback set_message_callback set_close_callback
      remove_connection_in_loop
  reads_end time s v a =
      let b = extended [] s.conn.input_buffer in
      let t : Net (Hosted U) =
        with_state disconnected (record s { conn = record s.conn { input_buffer = b } }) in
      let (p, e, a', d) = silence_lem t (record { poller = a.poller; registered = a.registered }) in
      let reads : read_fd (stored []) s.conn.input_buffer ≡ ok (stored [], b) =
        read_fd_cases [] v ∙ ground arith in
      (
        p,
        handle_read-ends cb time b s (record t { poller = p }) _ (shut p s) reads e refl refl,
        record { poller = a'.poller; registered = a'.registered },
        d,
      )

  -- The loop of the server takes the removal.
  server_turn :
      (s : Net (Hosted U)) (l : ℕ)
      → s.world.server.loop ≡ l
      → s.world.server.queue l ≡ removes c ∷ []
      → take_functor cb c l s
        ≡ ok (with_server (without c (taken l (removes c) s.world.server [])) s)
  unfolding take_functor carry_out
  server_turn s l home e = rw (take_functor, e, first_removes c s.world.server l [] home e) refl

  -- The loop of the connection takes the end of it.
  io_turn :
      (s t : Net (Hosted U)) (l : ℕ)
      → s.world.server.queue l ≡ destroys c ∷ []
      → connect_destroyed cb true (with_server (taken l (destroys c) s.world.server []) s) ≡ ok t
      → take_functor cb c l s ≡ ok t
  unfolding take_functor carry_out
  io_turn s t l e f =
      let same : (c == c) ≡ true = ground arith in
      rw (take_functor, e, first_destroys c s.world.server l [] e, same) f

  destroyed :
      (s t : Net (Hosted U))
      → is_connected s.conn.state ≡ false
      → drop_channel s ≡ ok t
      → connect_destroyed cb true s ≡ ok t
  unfolding connect_destroyed
  destroyed s t e f = rw e f

  two_turns :
      (time : ℕ) (s t u v : Net (Hosted U)) (l k : ℕ)
      → handle_read cb true time (stored []) s ≡ ok t
      → take_functor cb c l t ≡ ok u
      → take_functor cb c k u ≡ ok v
      → (handle_read cb true time (stored []) s >>= take_functors cb c (l ∷ k ∷ [])) ≡ ok v
  unfolding take_functors
  two_turns time s t u v l k e f g = rw (e, f, g) refl

  -- The peer closes a connection that the server made, whose channel is registered, while the two loops
  -- have nothing waiting and the connections were fewer than an `int` counts: when its loop has read the
  -- end, the server's loop has taken a functor and then its loop has taken one, all without a fault, the
  -- map holds the same connections without this one, the user was told once, of a connection that is
  -- disconnected, and the channel is out of the poller; no descriptor was closed, and nothing was sent.
  pub departs_lem :
      (time : ℕ) (s : Net (Hosted U)) (r : Registry)
      → Resident c r s
      → (let server = s.world.server in
          (s' : Net (Hosted U)) × ((handle_read cb true time (stored []) s
              >>= take_functors cb c (server.loop ∷ (server.heap c).io_loop ∷ []))
            ≡ ok s')
          × Departed c r note s s')
  unfolding queue_in run_now
  departs_lem time s r h =
      let server = s.world.server in
      let (p, reads, a, d) = reads_end time s h.input h.attached in
      let u : Net (Hosted U) = with_server (removed c server) (shut p s) in
      let t : Net (Hosted U) = with_server (departed c server) (shut p s) in
      let (q, drops, out) =
        drop_channel_lem t (record { poller = a.poller; registered = a.registered }) in
      (
        record t { poller = q },
        two_turns time s (shut p s) u (record t { poller = q }) server.loop (server.heap c).io_loop
            reads (server_turn (shut p s) server.loop refl (removal_waits c server h.at_home))
            (io_turn u (record t { poller = q }) (server.heap c).io_loop (end_waits c server h.away)
              (destroyed t (record t { poller = q }) refl drops)),
        record {
          unlisted = departed-Represents c server h.represented h.few h.made;
          told = refl;
          gone = record { down = refl; unmapped = ap q.channels (sym d) ∙ out; closed_of = refl };
          unchanged = refl;
        },
      )
