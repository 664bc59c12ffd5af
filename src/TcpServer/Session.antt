-- ===== src/TcpServer/Session.antt =====
-- CEventLoop/TcpServer.cc: the steps of the life of a connection in a loop that is not the server's.
use mathlib.Core.Path.{subst}
use cevent_loop.Prelude.{
  ℕ, ◌<◌, ◌≡◌, ◌≢◌, refl, sym, ap, ◌∙◌, true, false, some, List, [], ◌∷◌, ◌++◌, arith, ok, ◌==◌,
  if◌then◌else◌, append-nil, append_assoc,
}
use cevent_loop.Prelude.Int.{ℤ}
use cevent_loop.Prelude.Maps.{store_self}
use cevent_loop.ThreadPool.{ThreadPool, get_next_loop}
use cevent_loop.ThreadPool.Next.{InTurn, get_next_loop-InTurn}
use cevent_loop.TcpConnection.{
  Net, Callbacks, States, connected, is_disconnected, connect_established,
}
use cevent_loop.TcpConnection.Hooks.{
  no_callbacks, set_connection_callback, set_message_callback, set_close_callback,
}
use cevent_loop.TcpConnection.Deeds.{
  App, Deed, says, hears, misses, flushes, ends, View, spec_deeds, takes_all, callbacks_of,
}
use cevent_loop.TcpServer.{
  TcpServer, Task, establishes, new_connection, conn_name, queue_in, run_now, run_in, run_first,
  remove_connection_in_loop,
}
use cevent_loop.TcpServer.Arrival.{arrived, keyed, new_connection_lem}
use cevent_loop.TcpServer.Registry.{Registry, Represents, comes, spec_act}
use cevent_loop.TcpServer.Connections.{arrived-Represents, scheduled-Represents}
use cevent_loop.TcpServer.Histories.{taken}
use cevent_loop.TcpServer.Hosting.{Hosted, with_server, hooks, carry_out, take_functor}
use cevent_loop.TcpServer.Departure.{tells}

first_establishes :
    (c : ℕ) (s : TcpServer) (l : ℕ) (ts : List Task)
    → s.queue l ≡ establishes c ∷ ts
    → run_first l s ≡ ok (taken l (establishes c) s ts)
unfolding run_first
first_establishes c s l ts e = rw (run_first, e) refl

-- What the user of a server does when it is told of a connection, and with what comes on it.
pub record User (U : Type 0) : Type 0 where
  pub told : States → U → U
  pub heard : List ℕ → U → U

-- The input does not end.
abbrev pub Lasting : List Deed → Type 0
Lasting [] = Unit
Lasting (says n text ∷ ds) = Lasting ds
Lasting (hears time x xs ∷ ds) = Lasting ds
Lasting (misses e ∷ ds) = Lasting ds
Lasting (flushes ∷ ds) = Lasting ds
Lasting (ends ∷ ds) = ⊥

-- All that is said, and all that the user hears.
abbrev pub speech : List Deed → List ℕ
speech [] = []
speech (says n text ∷ ds) = text ++ speech ds
speech (hears time x xs ∷ ds) = speech ds
speech (misses e ∷ ds) = speech ds
speech (flushes ∷ ds) = speech ds
speech (ends ∷ ds) = speech ds

abbrev pub hear_all : {U : Type 0} → User U → List Deed → U → U
hear_all user [] u = u
hear_all user (says n text ∷ ds) u = hear_all user ds u
hear_all user (hears time x xs ∷ ds) u = hear_all user ds (user.heard (x ∷ xs) u)
hear_all user (misses e ∷ ds) u = hear_all user ds u
hear_all user (flushes ∷ ds) u = hear_all user ds u
hear_all user (ends ∷ ds) u = hear_all user ds u

module _ {U : Type 0} (user : User U) (c : ℕ) where
  -- The user as the connection `c` of the server has it.
  abbrev pub app : App (Hosted U)
  app = record {
    heard = λ text w. record w { user = user.heard text w.user };
    told = λ state w. record w { user = user.told state w.user };
    shut = λ w. record w {
      server = queue_in w.server.loop (cevent_loop.TcpServer.removes c) w.server;
    };
  }

  -- What the deeds of a connection that stays up come to.
  pub lasting_lem :
      (ds : List Deed) (v : View (Hosted U))
      → Lasting ds
      → v.state ≡ connected
      → spec_deeds app ds v ≡ record v {
        out = v.out ++ speech ds;
        user = record v.user { user = hear_all user ds v.user.user };
      }
  lasting_lem [] v l up = ap (λ xs. record v { out = xs }) (sym (append-nil v.out))
  lasting_lem (says n text ∷ ds) v l up =
      let still : is_disconnected v.state ≡ false = ap is_disconnected up in
      let w : View (Hosted U) = record v { out = v.out ++ text } in
      ap (λ b. spec_deeds app ds (if b then v else w)) still
      ∙ lasting_lem ds w l up
      ∙ ap
          (λ xs. record v {
            out = xs;
            user = record v.user { user = hear_all user ds v.user.user };
          })
          (append_assoc v.out text (speech ds))
  lasting_lem (hears time x xs ∷ ds) v l up = lasting_lem ds _ l up
  lasting_lem (misses e ∷ ds) v l up = lasting_lem ds v l up
  lasting_lem (flushes ∷ ds) v l up = lasting_lem ds v l up
  lasting_lem (ends ∷ ds) v l up = absurd l

  -- Its callbacks are those that `newConnection` sets.
  abbrev pub cb : Callbacks (Hosted U)
  cb = hooks c (some (tells user.told)) (some (takes_all app))

  pub hooks-app : cb ≡ callbacks_of app
  unfolding hooks no_callbacks set_connection_callback set_message_callback set_close_callback
      remove_connection_in_loop
  hooks-app = refl

  -- The loop of the connection takes its establishment.
  pub set_up_turn :
      (s t : Net (Hosted U)) (l : ℕ)
      → s.world.server.queue l ≡ establishes c ∷ []
      → connect_established cb true (with_server (taken l (establishes c) s.world.server []) s)
        ≡ ok t
      → take_functor cb c l s ≡ ok t
  unfolding take_functor carry_out
  set_up_turn s t l e f =
      let same : (c == c) ≡ true = ground arith in
      rw (take_functor, e, first_establishes c s.world.server l [] e, same) f

module _ (fd : ℤ) (io : ℕ) (pool : ThreadPool) (s : TcpServer) where
  -- The server when the connection has come, and when the loop of the connection has established it.
  abbrev pub queued : TcpServer
  queued =
      keyed (conn_name s.name s.ip_port s.next_conn_id) s.free
        (queue_in io (establishes s.free) (arrived io pool fd s))

  abbrev pub set_up : TcpServer
  set_up = taken io (establishes s.free) queued []

  pub queues_lem :
      get_next_loop true s.pool ≡ ok (io, pool)
      → io ≢ s.loop
      → s.next_conn_id < 2147483647
      → new_connection true fd s ≡ ok queued
  unfolding run_in
  queues_lem e n room =
      let away : (io == s.loop) ≡ false = ground arith in
      new_connection_lem fd s io pool e room
      ∙ ap
          (λ here. ok (
            keyed (conn_name s.name s.ip_port s.next_conn_id) s.free
              (run_in here io (establishes s.free) (arrived io pool fd s))))
          away

  pub set_up_waits : s.queue io ≡ [] → (queued).queue io ≡ establishes s.free ∷ []
  unfolding queue_in
  set_up_waits e = store_self s.queue io _ ∙ ap (λ ts. ts ++ (establishes s.free ∷ [])) e

  pub set_up-Represents :
      {r : Registry}
      → Represents s r
      → r.count < 2147483647
      → get_next_loop true s.pool ≡ ok (io, pool)
      → Represents set_up (spec_act (comes fd) r)
  unfolding queue_in run_now
  set_up-Represents v small e =
      let (l, q, e', t) = get_next_loop-InTurn s.pool v.turn in
      let both : ok (l, q) ≡ ok (io, pool) = sym e' ∙ e in
      let one : q ≡ pool = cc both in
      scheduled-Represents set_up.ran set_up.queue
        (arrived-Represents v small io pool fd (subst (λ x. InTurn x) one t))
