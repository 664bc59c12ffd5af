-- ===== src/TcpServer/Establishing.antt =====
-- CEventLoop/TcpServer.cc: a connection from `newConnection` to its establishment in its own loop.
use mathlib.Core.Path.{subst}
use cevent_loop.Prelude.{
  ◌==◌, ℕ, ◌+◌, ◌<◌, ◌≡◌, ◌≢◌, refl, sym, ap, ◌∙◌, true, false, none, [], ◌∷◌, ◌++◌, arith, ok,
  ◌>>=◌,
}
use cevent_loop.Prelude.Int.{is_negative}
use cevent_loop.Prelude.Maps.{store_self}
use cevent_loop.Poller.{Poller}
use cevent_loop.Poller
use cevent_loop.ThreadPool.{ThreadPool, get_next_loop}
use cevent_loop.TcpConnection.{Net, connected, descriptor}
use cevent_loop.TcpConnection.Hooks.{
  set_connection_callback, set_message_callback, set_close_callback,
}
use cevent_loop.TcpConnection.Deeds.{Live}
use cevent_loop.Connector.Channels.{Unused}
use cevent_loop.TcpClient.{Socket, connection_of}
use cevent_loop.TcpClient.Established.{opened_lem}
use cevent_loop.TcpServer.{Member, establishes, queue_in, run_now}
use cevent_loop.TcpServer.Registry.{Registry, Represents, comes, spec_act}
use cevent_loop.TcpServer.Hosting.{Hosted, hooks, take_functor}
use cevent_loop.TcpServer.Departure.{Resident}
use cevent_loop.TcpServer.Hosting.{host}
use cevent_loop.TcpServer.Session.{
  User, cb, set_up_turn, queued, set_up, queues_lem, set_up_waits, set_up-Represents,
}
use cevent_loop.TcpClient.Established.{new-IsValid, writer_of_new}
use cevent_loop.TcpServer.Departure.{cleared}
use cevent_loop.TcpConnection.{with_state}
use cevent_loop.Channel.{call}

-- A server that has no functors waiting, and a new socket for the loop that is next in its pool.
pub record Awaits {U : Type 0} (k : Socket) (p : Poller) (io : ℕ) (r : Registry) (w : Hosted U)
    : Type 0 where
  pub represented : Represents w.server r
  pub few : r.count + 1 < 2147483647
  pub next : (pool : ThreadPool) × (get_next_loop true w.server.pool ≡ ok (io, pool))
  pub elsewhere : io ≢ w.server.loop
  pub at_home : w.server.queue w.server.loop ≡ []
  pub away : w.server.queue io ≡ []
  pub poller : cevent_loop.Poller.Valid.IsValid p
  pub unused : Unused p k.address
  pub opened : is_negative k.fd ≡ false
  pub free : p.channels k.fd ≡ none

module _ {U : Type 0} (user : User U) (k : Socket) (io : ℕ) (p : Poller) (w : Hosted U) where
  abbrev c : ℕ
  c = w.server.free

  -- The connection that has been established, with the poller that it left.
  abbrev pub fresh : ThreadPool → Poller → Net (Hosted U)
  fresh pool p' =
      record (with_state connected
        (record (connection_of k p (record w { server = set_up k.fd io pool w.server })) {
          poller = p';
        })) {
          world = record {
            server = set_up k.fd io pool w.server;
            user = user.told connected w.user;
          };
        }

  hosts_lem :
      (pool : ThreadPool)
      → get_next_loop true w.server.pool ≡ ok (io, pool)
      → io ≢ w.server.loop
      → w.server.next_conn_id < 2147483647
      → host (cb user w.server.free) k p w
        ≡ ok (connection_of k p (record w { server = queued k.fd io pool w.server }))
  unfolding host queue_in
  hosts_lem pool e n room =
      let server = queued k.fd io pool w.server in
      let own : (server.heap c).io_loop ≡ io =
        ap (λ (m : Member). m.io_loop) (store_self w.server.heap c _) in
      let other : ((server.heap c).io_loop == server.loop) ≡ false = ground (arith, own, n) in
      rw (queues_lem k.fd io pool w.server e n room, other) refl

  pub establishes_lem :
      {r : Registry}
      → (h : Awaits k p io r w)
      → (p' : Poller) × ((host (cb user w.server.free) k p w >>= take_functor (cb user c) c io)
          ≡ ok (fresh h.next.0 p'))
        × Live (fresh h.next.0 p')
        × (descriptor (fresh h.next.0 p') ≡ k.fd)
  unfolding connection_of call hooks set_connection_callback set_message_callback set_close_callback
  establishes_lem h =
      let (pool, e) = h.next in
      let (p', (f, ready, on)) =
        opened_lem k (cb user c) p (record w { server = set_up k.fd io pool w.server }) h.poller
          h.unused h.opened h.free in
      (
        p',
        rw (hosts_lem pool e h.elsewhere (omega (arith, h.represented.numbered, h.few))) (
            set_up_turn user c
              (connection_of k p (record w { server = queued k.fd io pool w.server }))
              (fresh pool p') io (set_up_waits k.fd io pool w.server h.away) f),
        record {
          valid = record {
            out = ready.out;
            poller = ready.poller;
            registered = ready.registered;
            marked = ready.marked;
          };
          input = new-IsValid;
          taken = writer_of_new;
        },
        on,
      )

  pub own_loop : (pool : ThreadPool) → ((set_up k.fd io pool w.server).heap c).io_loop ≡ io
  unfolding queue_in run_now
  own_loop pool = ap (λ (m : Member). m.io_loop) (store_self w.server.heap c _)

  -- Both loops have nothing waiting when the connection is established.
  idle_lem :
      {r : Registry} (h : Awaits k p io r w)
      → (let server = set_up k.fd io h.next.0 w.server in
          (server.queue w.server.loop ≡ []) × (server.queue (server.heap c).io_loop ≡ []))
  unfolding queue_in run_now
  idle_lem h =
      let server = set_up k.fd io h.next.0 w.server in
      let queue = w.server.queue in
      let ts = queue io ++ (establishes c ∷ []) in
      (
        cleared queue io w.server.loop ts h.at_home,
        ap server.queue (own_loop h.next.0) ∙ cleared queue io io ts h.away,
      )

  pub still-Resident :
      {r : Registry} (h : Awaits k p io r w) (s : Net (Hosted U)) (u : U)
      → s.world ≡ record { server = set_up k.fd io h.next.0 w.server; user = u }
      → Live s
      → Resident c (spec_act (comes k.fd) r) s
  unfolding queue_in run_now
  still-Resident {r} h s u e l =
      let server = set_up k.fd io h.next.0 w.server in
      let stands =
        set_up-Represents k.fd io h.next.0 w.server h.represented (omega (arith, h.few)) h.next.1 in
      let r' : Registry = spec_act (comes k.fd) r in
      record {
        represented = subst (λ (x : Hosted U). Represents x.server r') (sym e) stands;
        few = h.few;
        made = omega (arith, h.represented.counted);
        attached = record { poller = l.valid.poller; registered = l.valid.registered };
        input = l.input;
        at_home =
            subst (λ (x : Hosted U). x.server.queue x.server.loop ≡ []) (sym e) (idle_lem h).0;
        away =
            subst (λ (x : Hosted U). x.server.queue (x.server.heap c).io_loop ≡ []) (sym e)
              (idle_lem h).1;
      }
