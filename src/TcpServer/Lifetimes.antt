-- ===== src/TcpServer/Lifetimes.antt =====
-- Runs of a server: connections come, ask to be removed from any thread, and the loops take functors off
-- their queues, in any interleaving.
use mathlib.Core.List.{Mem}
use mathlib.Core.Path.{subst, sym}
use cevent_loop.Prelude.{
  ℕ, ◌+◌, ◌≤◌, ◌<◌, ◌≡◌, refl, ap, Bool, true, false, List, [], ◌∷◌, none, arith, ok, ◌==◌,
}
use native.Mathlib.Decide.{ℕ_discrete}
use cevent_loop.Prelude.Int.{ℤ}
use cevent_loop.Prelude.Text.{Text}
use cevent_loop.Prelude.TextMap.{put_text}
use cevent_loop.Prelude.Maps.{store, store_self, store_ne}
use cevent_loop.ThreadPool.{ThreadPool}
use cevent_loop.ThreadPool.Next.{InTurn, get_next_loop-InTurn}
use cevent_loop.TcpServer.{
  TcpServer, Member, Task, listens, quits, establishes, destroys, removes, queue_in, run_now,
  run_in, stop, conn_name, remove_connection_in_loop, remove_connection, run_first,
}
use cevent_loop.TcpServer.Arrival.{arrived, keyed, new_connection_lem, run_in-free, run_in-next}
use cevent_loop.TcpServer.Calls.{
  Call, arrives, closes, turns, stops, call, calls, counted, Known, Known-rest, number_after,
  number_after-le,
}
use cevent_loop.TcpServer.Histories.{
  history, Ordered, AllLocal, AllLocal-more, queue_in-Ordered, run_now-Ordered, run_in-Mem, taken,
  taken-Ordered,
}

abbrev Next : Call → TcpServer → Type 0
Next e s =
    (s' : TcpServer) × (call e s ≡ ok s')
    × (s'.free ≡ counted e s.free)
    × (s'.next_conn_id ≡ counted e s.next_conn_id)
    × Ordered s'.free s'

one_more :
    (n : ℕ) (u : TcpServer)
    → Ordered n u
    → Mem (establishes n) (history u (u.heap n).io_loop)
    → Ordered (n + 1) u
one_more n u p m = record {
  proper = p.proper;
  made = λ c h. elim (ℕ_discrete n c) [
    | yes e ↦ subst (λ x. Mem (establishes x) (history u (u.heap x).io_loop)) e m
    | no d ↦ p.made c (omega arith)
  ];
  removals = λ l. AllLocal-more u.loop n l (u.queue l) (p.removals l);
  turn = p.turn;
}

module _ (s : TcpServer) (o : Ordered s.free s) where
  arrived-Ordered :
      (io : ℕ) (pool : ThreadPool) (fd : ℤ) → InTurn pool → Ordered s.free (arrived io pool fd s)
  arrived-Ordered io pool fd t = record {
    proper = o.proper;
    made = λ c h.
        let same : store s.heap s.free
              (record {
                name = conn_name s.name s.ip_port s.next_conn_id;
                io_loop = io;
                sockfd = fd;
              })
              c
            ≡ s.heap c =
          store_ne s.heap s.free c _ (omega arith) in
        subst (λ (m : Member). Mem (establishes c) (history s m.io_loop)) (sym same) (o.made c h);
    removals = o.removals;
    turn = t;
  }

  run_in-Ordered :
      (here : Bool) (l c : ℕ) (u : TcpServer)
      → Ordered s.free u
      → Ordered s.free (run_in here l (establishes c) u)
  unfolding run_in
  run_in-Ordered true l c u p = run_now-Ordered l (establishes c) u s.free p (λ seen. tt)
  run_in-Ordered false l c u p = queue_in-Ordered l (establishes c) u s.free p tt tt

  -- The connection that came is in the history of its loop, so that there is one more.
  keyed-Ordered :
      (key : Text) (here : Bool) (io : ℕ) (pool : ThreadPool) (fd : ℤ)
      → InTurn pool
      → (let u = keyed key s.free (run_in here io (establishes s.free) (arrived io pool fd s)) in
          Ordered u.free u)
  unfolding run_in queue_in run_now
  keyed-Ordered key true io pool fd t =
      let a = arrived io pool fd s in
      let p = run_in-Ordered true io s.free a (arrived-Ordered io pool fd t) in
      let same : io ≡ (a.heap s.free).io_loop =
        ap (λ (m : Member). m.io_loop) (sym (store_self s.heap s.free _)) in
      one_more s.free (keyed key s.free (run_now io (establishes s.free) a))
        (record { proper = p.proper; made = p.made; removals = p.removals; turn = p.turn })
        (subst (λ l. Mem (establishes s.free) (history (run_now io (establishes s.free) a) l)) same
          (run_in-Mem io (establishes s.free) a true))
  keyed-Ordered key false io pool fd t =
      let a = arrived io pool fd s in
      let p = run_in-Ordered false io s.free a (arrived-Ordered io pool fd t) in
      let same : io ≡ (a.heap s.free).io_loop =
        ap (λ (m : Member). m.io_loop) (sym (store_self s.heap s.free _)) in
      one_more s.free (keyed key s.free (queue_in io (establishes s.free) a))
        (record { proper = p.proper; made = p.made; removals = p.removals; turn = p.turn })
        (subst (λ l. Mem (establishes s.free) (history (queue_in io (establishes s.free) a) l)) same
          (run_in-Mem io (establishes s.free) a false))

  arrives-Next : (fd : ℤ) → s.next_conn_id < 2147483647 → Next (arrives fd) s
  unfolding call
  arrives-Next fd room =
      let (io, pool, e, t) = get_next_loop-InTurn s.pool o.turn in
      (
        _,
        new_connection_lem fd s io pool e room,
        run_in-free (io == s.loop) io (establishes s.free) (arrived io pool fd s),
        run_in-next (io == s.loop) io (establishes s.free) (arrived io pool fd s),
        keyed-Ordered (conn_name s.name s.ip_port s.next_conn_id) (io == s.loop) io pool fd t,
      )

  closes-Next : (c : ℕ) → c < s.free → Next (closes c) s
  unfolding call remove_connection_in_loop queue_in
  closes-Next c h =
      (_, refl, refl, refl, queue_in-Ordered s.loop (removes c) s s.free o tt (refl, h))

  stops-Next : Next stops s
  unfolding call stop queue_in
  stops-Next = (_, refl, refl, refl, queue_in-Ordered s.loop quits s s.free o tt tt)

  removes_lem :
      (l c : ℕ) (ts : List Task)
      → s.queue l ≡ removes c ∷ ts
      → l ≡ s.loop
      → c < s.free
      → Next (turns l) s
  unfolding call run_first run_now remove_connection queue_in
  removes_lem l c ts e home h =
      let u = taken l (removes c) s ts in
      let p = taken-Ordered l (removes c) s s.free ts e o in
      let q = queue_in-Ordered (s.heap c).io_loop (destroys c) u s.free p (p.made c h) tt in
      let at_home : (l == s.loop) ≡ true = ground arith in
      (
        record (queue_in (s.heap c).io_loop (destroys c) u) {
          connections = put_text s.connections (s.heap c).name none;
        },
        rw (call, run_first, e, at_home) refl,
        refl,
        refl,
        record { proper = q.proper; made = q.made; removals = q.removals; turn = q.turn },
      )

  -- A functor that is not a removal changes nothing but the history.
  first_lem : (l : ℕ) (q : List Task) → s.queue l ≡ q → Next (turns l) s
  unfolding call run_first run_now
  first_lem l [] e = (s, rw (call, run_first, e) refl, refl, refl, o)
  first_lem l (listens ∷ ts) e = (
    taken l listens s ts,
    rw (call, run_first, e) refl,
    refl,
    refl,
    taken-Ordered l listens s s.free ts e o,
  )
  first_lem l (quits ∷ ts) e = (
    taken l quits s ts,
    rw (call, run_first, e) refl,
    refl,
    refl,
    taken-Ordered l quits s s.free ts e o,
  )
  first_lem l (establishes c ∷ ts) e = (
    taken l (establishes c) s ts,
    rw (call, run_first, e) refl,
    refl,
    refl,
    taken-Ordered l (establishes c) s s.free ts e o,
  )
  first_lem l (destroys c ∷ ts) e = (
    taken l (destroys c) s ts,
    rw (call, run_first, e) refl,
    refl,
    refl,
    taken-Ordered l (destroys c) s s.free ts e o,
  )
  first_lem l (removes c ∷ ts) e =
      let (near, near_all) = subst (AllLocal s.loop s.free l) e (o.removals l) in
      removes_lem l c ts e near.0 near.1

  call-Next :
      (e : Call) (es : List Call)
      → Known (e ∷ es) s.free
      → number_after (e ∷ es) s.next_conn_id ≤ 2147483647
      → Next e s
  call-Next (arrives fd) es k room =
      arrives-Next fd (omega (arith, number_after-le es (s.next_conn_id + 1)))
  call-Next (closes c) es (h, k) room = closes-Next c h
  call-Next (turns l) es k room = first_lem l (s.queue l) refl
  call-Next stops es k room = stops-Next

then_calls :
    (e : Call) (es : List Call) (s t u : TcpServer)
    → call e s ≡ ok t
    → calls es t ≡ ok u
    → calls (e ∷ es) s ≡ ok u
unfolding calls
then_calls e es s t u f g = rw (f, g) refl

-- From a server on that is in order, as a new one is: connections come, those that have come ask to be
-- removed from any thread, are removed when the server's loop takes that functor, and loops take
-- functors, in any interleaving, and no more connections come than the numbers of an `int` last for: no
-- call fails, and afterwards, in what each loop ran and has waiting, every `connectDestroyed` stands
-- behind the `connectEstablished` of its connection, and every connection that came stands in the list
-- of its own loop.
pub lifetimes :
    (es : List Call) (s : TcpServer)
    → Ordered s.free s
    → Known es s.free
    → number_after es s.next_conn_id ≤ 2147483647
    → (s' : TcpServer) × (calls es s ≡ ok s') × Ordered s'.free s'
unfolding calls
lifetimes [] s o k room = (s, refl, o)
lifetimes (e ∷ es) s o k room =
    let (t, f, n, next, p) = call-Next s o e es k room in
    let (u, g, q) =
      lifetimes es t p (subst (Known es) (sym n) (Known-rest e es s.free k))
        (subst (λ m. number_after es m ≤ 2147483647) (sym next) room) in
    (u, then_calls e es s t u f g, q)
