-- ===== src/TcpServer/Growth.antt =====
-- CEventLoop/TcpServer.cc: newConnection called for one descriptor after another, and what each call leaves
-- in the pool and among the connections.
use mathlib.Core.Path.{ap₂}
use cevent_loop.Prelude.Text.{Text}
use cevent_loop.Prelude.{
  ℕ, zero, suc, ◌+◌, ◌<◌, ◌≡◌, refl, sym, ap, ◌∙◌, Bool, true, false, List, [], ◌∷◌, arith, length,
  ok, ◌==◌,
}
use cevent_loop.Prelude.Int.{ℤ}
use cevent_loop.Prelude.Maps.{store_self, store_ne}
use cevent_loop.ThreadPool.{ThreadPool, get_next_loop, get_loops}
use cevent_loop.ThreadPool.Next.{get_next_loop-InTurn}
use cevent_loop.TcpServer.{
  TcpServer, Member, Task, establishes, conn_name, new_connection, run_in, queue_in, run_now,
}
use cevent_loop.TcpServer.Arrival.{arrived, keyed, new_connection_lem, run_in-free}
use cevent_loop.TcpServer.Registry.{Registry, Represents, comes, spec_act}
use cevent_loop.TcpServer.Connections.{arrived-Represents, run_in-Represents}

-- Of that many connections from a number on: their sockets and their loops.
abbrev pub sockets : ℕ → ℕ → (ℕ → Member) → List ℤ
sockets c zero heap = []
sockets c (suc k) heap = (heap c).sockfd ∷ sockets (c + 1) k heap

abbrev pub io_loops : ℕ → ℕ → (ℕ → Member) → List ℕ
io_loops c zero heap = []
io_loops c (suc k) heap = (heap c).io_loop ∷ io_loops (c + 1) k heap

-- A server with one connection more for each of the descriptors, in order, on the loops that the pool
-- gives in turn; those that were there are as they were.
pub record Grown (fds : List ℤ) (s s' : TcpServer) : Type 0 where
  pub counted : s'.free ≡ s.free + length fds
  pub older : (c : ℕ) → c < s.free → s'.heap c ≡ s.heap c
  pub sockets_are : sockets s.free (length fds) s'.heap ≡ fds
  pub in_turn : get_loops (length fds) s.pool ≡ ok (io_loops s.free (length fds) s'.heap, s'.pool)

run_in-heap : (here : Bool) (l : ℕ) (t : Task) (s : TcpServer) → (run_in here l t s).heap ≡ s.heap
unfolding run_in queue_in run_now
run_in-heap true l t s = refl
run_in-heap false l t s = refl

run_in-pool : (here : Bool) (l : ℕ) (t : Task) (s : TcpServer) → (run_in here l t s).pool ≡ s.pool
unfolding run_in queue_in run_now
run_in-pool true l t s = refl
run_in-pool false l t s = refl

pub Grown-none : (s : TcpServer) → Grown [] s s
unfolding get_loops
Grown-none s = record {
  counted = omega arith;
  older = λ c h. refl;
  sockets_are = refl;
  in_turn = refl;
}

-- The same for one descriptor.
pub record Newcomer (fd : ℤ) (s s' : TcpServer) : Type 0 where
  pub counted : s'.free ≡ s.free + 1
  pub older : (c : ℕ) → c < s.free → s'.heap c ≡ s.heap c
  pub socket_is : (s'.heap s.free).sockfd ≡ fd
  pub in_turn : get_next_loop true s.pool ≡ ok ((s'.heap s.free).io_loop, s'.pool)

pub newcomer :
    (fd : ℤ) (s : TcpServer) (r : Registry)
    → Represents s r
    → r.count + 1 < 2147483647
    → (s' : TcpServer) × (new_connection true fd s ≡ ok s')
      × Represents s' (spec_act (comes fd) r)
      × Newcomer fd s s'
newcomer fd s r v room =
    let small : r.count < 2147483647 = omega arith in
    let (io, pool, e, t) = get_next_loop-InTurn s.pool v.turn in
    let c = s.free in
    let u = arrived io pool fd s in
    let here = io == s.loop in
    let key : Text = conn_name s.name s.ip_port s.next_conn_id in
    let same = run_in-heap here io (establishes c) u in
    let there : u.heap c ≡ record { name = key; io_loop = io; sockfd = fd } =
      store_self s.heap c _ in
    let member = ap (λ (heap : ℕ → Member). heap c) same ∙ there in
    (
      keyed key c (run_in here io (establishes c) u),
      new_connection_lem fd s io pool e (omega (arith, v.numbered)),
      run_in-Represents here io (establishes c) key c u _ (arrived-Represents v small io pool fd t),
      record {
        counted = run_in-free here io (establishes c) u;
        older = λ d h. ap (λ heap. heap d) same ∙ store_ne s.heap c d _ (omega arith);
        socket_is = ap (λ (m : Member). m.sockfd) member;
        in_turn =
            e
            ∙ sym (
                ap₂ (λ (m : Member) (q : ThreadPool). ok (m.io_loop, q)) member
                  (run_in-pool here io (establishes c) u));
      },
    )

turn_then :
    (k l : ℕ) (p q q' : ThreadPool) (ls : List ℕ)
    → get_next_loop true p ≡ ok (l, q)
    → get_loops k q ≡ ok (ls, q')
    → get_loops (suc k) p ≡ ok (l ∷ ls, q')
unfolding get_loops
turn_then k l p q q' ls e f = rw (e, f) refl

pub Newcomer-Grown :
    (fd : ℤ) (fds : List ℤ) (s t u : TcpServer)
    → Newcomer fd s t
    → Grown fds t u
    → Grown (fd ∷ fds) s u
Newcomer-Grown fd fds s t u n g =
    let kept : u.heap s.free ≡ t.heap s.free = g.older s.free (omega (arith, n.counted)) in
    record {
      counted = omega (arith, n.counted, g.counted);
      older = λ c h. g.older c (omega (arith, n.counted)) ∙ n.older c h;
      sockets_are =
          ap₂ ◌∷◌ (ap (λ (m : Member). m.sockfd) kept ∙ n.socket_is)
            (ap (λ c. sockets c (length fds) u.heap) (sym n.counted) ∙ g.sockets_are);
      in_turn =
          turn_then (length fds) _ s.pool t.pool u.pool _ n.in_turn g.in_turn
          ∙ ap₂ (λ (m : Member) (c : ℕ). ok (m.io_loop ∷ io_loops c (length fds) u.heap, u.pool))
              (sym kept) n.counted;
    }
