-- ===== src/TcpServer/Intake.antt =====
-- CEventLoop/TcpServer.cc over Acceptor.cc: the acceptor's callback, which the constructor of the server
-- sets, and what a run of arrivals leaves in the server.
use mathlib.Core.List.{map}
use mathlib.Core.Path.{subst}
use cevent_loop.Prelude.{
  ◌+◌, ◌<◌, ◌≡◌, refl, sym, Bool-cases, inl, inr, true, false, some, List, [], ◌∷◌, arith, length,
  if◌then◌else◌, Exec, ok, ◌>>=◌,
}
use cevent_loop.Prelude.Int.{ℤ, is_negative}
use cevent_loop.Acceptor.{Acceptor, Arrival, handle_read, deliver, swap_idle}
use cevent_loop.Acceptor.Ledger.{Balanced, swap_idle-Balanced, run, then_run}
use cevent_loop.TcpServer.{TcpServer, new_connection}
use cevent_loop.TcpServer.Registry.{Registry, Represents, comes, spec_act, spec_run}
use cevent_loop.TcpServer.Growth.{Grown, Grown-none, newcomer, Newcomer-Grown}

-- `[&](int sockfd, const InetAddress& addr) { this->newConnection(sockfd, addr); }`
unfoldable pub on_new_connection : ℤ → Acceptor TcpServer → Exec (Acceptor TcpServer)
unfolding new_connection
on_new_connection fd a = new_connection true fd a.world >>= λ s. ok (record a { world = s })

-- The descriptors that `accept` gives.
abbrev pub accepted : List Arrival → List ℤ
accepted [] = []
accepted (a ∷ rest) = if is_negative a.connfd then accepted rest else a.connfd ∷ accepted rest

-- An acceptor and its server after some descriptors came.
pub record Taken (fds : List ℤ) (r : Registry) (a a' : Acceptor TcpServer) : Type 0 where
  pub balanced : Balanced a'
  pub represents : Represents a'.world (spec_run (map comes fds) r)
  pub grown : Grown fds a.world a'.world

abbrev delivered : ℤ → TcpServer → Acceptor TcpServer → Acceptor TcpServer
delivered fd s a = record a { got = fd ∷ a.got; handed = fd ∷ a.handed; world = s }

delivered-Balanced :
    (fd : ℤ) (s : TcpServer) (a : Acceptor TcpServer) → Balanced a → Balanced (delivered fd s a)
unfolding Balanced
delivered-Balanced fd s a b x = omega (arith, b x)

accepts :
    (x : Arrival) (a : Acceptor TcpServer) (s : TcpServer)
    → is_negative x.connfd ≡ false
    → new_connection true x.connfd a.world ≡ ok s
    → handle_read (some on_new_connection) true x a ≡ ok (delivered x.connfd s a)
unfolding handle_read deliver on_new_connection
accepts x a s good e = rw (good, e) refl

refuses :
    (x : Arrival) (a : Acceptor TcpServer)
    → is_negative x.connfd ≡ true
    → Balanced a
    → (a' : Acceptor TcpServer) × (handle_read (some on_new_connection) true x a ≡ ok a')
      × Balanced a'
      × (a'.world ≡ a.world)
unfolding handle_read swap_idle
refuses x a bad b = elim (Bool-cases x.emfile) [
  | inl full ↦ (swap_idle x a, rw (bad, full) refl, swap_idle-Balanced x a b, refl)
  | inr other ↦ (a, rw (bad, other) refl, b, refl)
]

accepted_bad :
    (x : Arrival) (rest : List Arrival)
    → is_negative x.connfd ≡ true
    → accepted rest ≡ accepted (x ∷ rest)
accepted_bad x rest bad = rw bad refl

accepted_good :
    (x : Arrival) (rest : List Arrival)
    → is_negative x.connfd ≡ false
    → x.connfd ∷ accepted rest ≡ accepted (x ∷ rest)
accepted_good x rest good = rw good refl

-- Whatever arrives at the listening socket of a server, with EMFILE or not, in the thread of its loop and
-- never more in all than an `int` counts: every call goes through, and the acceptor's books are
-- balanced. Exactly the descriptors that `accept` gave have become connections, one each and in order,
-- on the loops that the pool gives in turn, under names in the map; the connections that were there
-- are as they were.
pub intake_lem :
    (arrivals : List Arrival) (a : Acceptor TcpServer) (r : Registry)
    → Balanced a
    → Represents a.world r
    → r.count + length arrivals < 2147483647
    → (a' : Acceptor TcpServer) × (run (some on_new_connection) arrivals a ≡ ok a')
      × Taken (accepted arrivals) r a a'
unfolding run
intake_lem [] a r b v l =
    (a, refl, record { balanced = b; represents = v; grown = Grown-none a.world })
intake_lem (x ∷ rest) a r b v l = elim (Bool-cases (is_negative x.connfd)) [
  | inl bad ↦
      let (a₁, e, b₁, same) = refuses x a bad b in
      let (a₂, f, k) =
        intake_lem rest a₁ r b₁ (subst (λ s. Represents s r) (sym same) v) (omega arith) in
      (
        a₂,
        then_run (some on_new_connection) rest _ a₁ a₂ e f,
        subst (λ fds. Taken fds r a a₂) (accepted_bad x rest bad)
            (record {
              balanced = k.balanced;
              represents = k.represents;
              grown = subst (λ s. Grown (accepted rest) s a₂.world) same k.grown;
            }),
      )
  | inr good ↦
      let (s, e, v₁, n) = newcomer x.connfd a.world r v (omega arith) in
      let a₁ = delivered x.connfd s a in
      let (a₂, f, k) =
        intake_lem rest a₁ (spec_act (comes x.connfd) r) (delivered-Balanced x.connfd s a b) v₁
          (omega arith) in
      (
        a₂,
        then_run (some on_new_connection) rest _ a₁ a₂ (accepts x a s good e) f,
        subst (λ fds. Taken fds r a a₂) (accepted_good x rest good)
            (record {
              balanced = k.balanced;
              represents = k.represents;
              grown = Newcomer-Grown x.connfd (accepted rest) a.world s a₂.world n k.grown;
            }),
      )
]
