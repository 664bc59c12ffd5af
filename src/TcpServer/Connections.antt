-- ===== src/TcpServer/Connections.antt =====
-- The map of connections holds exactly the connections that were made and not removed.
use cevent_loop.Prelude.{
  ℕ, ◌+◌, ◌≤◌, ◌<◌, ◌≡◌, ◌≢◌, inl, inr, refl, sym, ap, ◌∙◌, Bool, true, false, none, some, List, [],
  ◌∷◌, arith, length, ok, ◌==◌,
}
use cevent_loop.Prelude.Int.{ℤ}
use cevent_loop.Prelude.Maps.{store, store_cases, store_self, store_ne}
use cevent_loop.Prelude.Text.{Text}
use cevent_loop.Prelude.TextMap.{put_text, put_text_cases, put_text_self, put_text_ne}
use cevent_loop.ThreadPool.{ThreadPool}
use cevent_loop.ThreadPool.Next.{InTurn, get_next_loop-InTurn}
use cevent_loop.TcpServer.{
  TcpServer, Member, Task, establishes, destroys, conn_name, remove_connection, run_in, queue_in,
  run_now,
}
use cevent_loop.TcpServer.Arrival.{arrived, keyed, new_connection_lem}
use cevent_loop.TcpServer.Names.{conn_name-injective}
use cevent_loop.TcpServer.Registry.{
  Registry, Represents, Event, comes, goes, act, spec_act, run, spec_run, Possible,
}

pub run_in-Represents :
    (here : Bool) (l : ℕ) (t : Task) (key : Text) (c : ℕ) (s : TcpServer) (r : Registry)
    → Represents (keyed key c s) r
    → Represents (keyed key c (run_in here l t s)) r
unfolding run_in queue_in run_now
run_in-Represents true l t key c s r v = record {
  counted = v.counted;
  numbered = v.numbered;
  named = v.named;
  held = v.held;
  only = v.only;
  short = v.short;
  turn = v.turn;
}
run_in-Represents false l t key c s r v = record {
  counted = v.counted;
  numbered = v.numbered;
  named = v.named;
  held = v.held;
  only = v.only;
  short = v.short;
  turn = v.turn;
}

name_differs :
    {s : TcpServer} {r : Registry}
    → Represents s r
    → (c d : ℕ) → c ≤ r.count
    → d < r.count
    → r.count < 2147483647
    → c ≢ d
    → conn_name s.name s.ip_port (c + 1) ≢ (s.heap d).name
name_differs {s} v c d hc hd small n e =
    let numbers =
      conn_name-injective s.name s.ip_port (c + 1) (d + 1) v.short (omega arith) (omega arith)
        (e ∙ v.named d hd) in
    n (omega arith)

-- The server after `removeConnection` of a connection.
abbrev pub without : ℕ → TcpServer → TcpServer
without c s = record (queue_in (s.heap c).io_loop (destroys c) s) {
  connections = put_text s.connections (s.heap c).name none;
}

-- The functors that the loops ran and that wait are nothing to the registry.
pub scheduled-Represents :
    (ran queue : ℕ → List Task) {s : TcpServer} {r : Registry}
    → Represents s r
    → Represents (record s { ran = ran; queue = queue }) r
scheduled-Represents ran queue v = record {
  counted = v.counted;
  numbered = v.numbered;
  named = v.named;
  held = v.held;
  only = v.only;
  short = v.short;
  turn = v.turn;
}

module _ {s : TcpServer} {r : Registry} (v : Represents s r) (small : r.count < 2147483647) where
  pub without-Represents : (c : ℕ) → c < r.count → Represents (without c s) (spec_act (goes c) r)
  unfolding queue_in
  without-Represents c h = record {
    counted = v.counted;
    numbered = v.numbered;
    named = v.named;
    held = λ d l there. elim (store_cases r.present c d false) [
      | inl (e, gone) ↦ let no : false ≡ true = sym gone ∙ there in cc no
      | inr (n, same) ↦
          let apart = name_differs v c d (omega arith) l small n in
          put_text_ne s.connections (s.heap c).name (s.heap d).name none
            (λ e. apart (sym (v.named c h) ∙ e))
          ∙ v.held d l (sym same ∙ there)
    ];
    only = λ key d there. elim (put_text_cases s.connections (s.heap c).name key none) [
      | inl (e, gone) ↦ let no : none ≡ some d = sym gone ∙ there in cc no
      | inr (n, same) ↦
          let (l, present, name) = v.only key d (sym same ∙ there) in
          (
            l,
            store_ne r.present c d false (λ e. n (ap (λ x. (s.heap x).name) e ∙ name)) ∙ present,
            name,
          )
    ];
    short = v.short;
    turn = v.turn;
  }

  goes-Represents :
      (c : ℕ)
      → c < r.count
      → (s' : TcpServer) × (act (goes c) s ≡ ok s') × Represents s' (spec_act (goes c) r)
  unfolding act remove_connection
  goes-Represents c h = (without c s, refl, without-Represents c h)

  -- The new connection takes the next number, under a name that no other has.
  fresh_name : (d : ℕ) → d < r.count → conn_name s.name s.ip_port s.next_conn_id ≢ (s.heap d).name
  fresh_name d l e =
      name_differs v r.count d (omega arith) l small (omega arith)
        (ap (conn_name s.name s.ip_port) (sym v.numbered) ∙ e)

  pub arrived-Represents :
      (io : ℕ) (pool : ThreadPool) (fd : ℤ)
      → InTurn pool
      → Represents
          (keyed (conn_name s.name s.ip_port s.next_conn_id) s.free (arrived io pool fd s))
          (spec_act (comes fd) r)
  arrived-Represents io pool fd t =
      let key₁ : Text = conn_name s.name s.ip_port s.next_conn_id in
      let m : Member = record { name = key₁; io_loop = io; sockfd = fd } in
      record {
        counted = omega (arith, v.counted);
        numbered = omega (arith, v.numbered);
        named = λ d l. elim (store_cases s.heap s.free d m) [
          | inl (e, w) ↦
              ap (λ (x : Member). x.name) w
              ∙ ap (conn_name s.name s.ip_port) (omega (arith, v.numbered, v.counted))
          | inr (n, w) ↦ ap (λ (x : Member). x.name) w ∙ v.named d (omega (arith, v.counted))
        ];
        held = λ d l there. elim (store_cases s.heap s.free d m) [
          | inl (e, w) ↦
              ap (λ (x : Member). put_text s.connections key₁ (some s.free) x.name) w
              ∙ put_text_self s.connections key₁ (some s.free)
              ∙ ap some e
          | inr (n, w) ↦
              let old : d < r.count = omega (arith, v.counted) in
              ap (λ (x : Member). put_text s.connections key₁ (some s.free) x.name) w
              ∙ put_text_ne s.connections key₁ (s.heap d).name (some s.free) (fresh_name d old)
              ∙ v.held d old (sym (store_ne r.present r.count d true (omega arith)) ∙ there)
        ];
        only = λ key d there. elim (put_text_cases s.connections key₁ key (some s.free)) [
          | inl (e, w) ↦
              let both : some s.free ≡ some d = sym w ∙ there in
              let same : s.free ≡ d = cc both in
              let count_is : r.count ≡ d = sym v.counted ∙ same in
              (
                omega arith,
                ap (λ x. store r.present r.count true x) (sym count_is)
                    ∙ store_self r.present r.count true,
                ap (λ x. (store s.heap s.free m x).name) (sym same)
                    ∙ ap (λ (x : Member). x.name) (store_self s.heap s.free m)
                    ∙ e,
              )
          | inr (n, w) ↦
              let (l, present, name) = v.only key d (sym w ∙ there) in
              (
                omega arith,
                store_ne r.present r.count d true (omega arith) ∙ present,
                ap (λ (x : Member). x.name) (store_ne s.heap s.free d m (omega (arith, v.counted)))
                    ∙ name,
              )
        ];
        short = v.short;
        turn = t;
      }

  comes-Represents :
      (fd : ℤ)
      → r.count + 1 < 2147483647
      → (s' : TcpServer) × (act (comes fd) s ≡ ok s') × Represents s' (spec_act (comes fd) r)
  unfolding act
  comes-Represents fd room =
      let (io, pool, e, t) = get_next_loop-InTurn s.pool v.turn in
      (
        _,
        new_connection_lem fd s io pool e (omega (arith, v.numbered)),
        run_in-Represents (io == s.loop) io (establishes s.free) _ s.free (arrived io pool fd s) _
            (arrived-Represents io pool fd t),
      )

  act-Represents :
      (e : Event)
      → Possible (e ∷ []) r
      → r.count + 1 < 2147483647
      → (s' : TcpServer) × (act e s ≡ ok s') × Represents s' (spec_act e r)
  act-Represents (comes fd) p room = comes-Represents fd room
  act-Represents (goes c) (h, p) room = goes-Represents c h

run_then :
    (e : Event) (es : List Event) (s t u : TcpServer)
    → act e s ≡ ok t
    → run es t ≡ ok u
    → run (e ∷ es) s ≡ ok u
unfolding run
run_then e es s t u f g = rw (f, g) refl

Possible-first :
    (e : Event) (es : List Event) (r : Registry) → Possible (e ∷ es) r → Possible (e ∷ []) r
Possible-first (comes fd) es r p = tt
Possible-first (goes c) es r (h, p) = (h, tt)

Possible-rest :
    (e : Event) (es : List Event) (r : Registry) → Possible (e ∷ es) r → Possible es (spec_act e r)
Possible-rest (comes fd) es r p = p
Possible-rest (goes c) es r (h, p) = p

spec_act-le : (e : Event) (r : Registry) → (spec_act e r).count ≤ r.count + 1
spec_act-le (comes fd) r = omega arith
spec_act-le (goes c) r = omega arith

-- Connections come and go in any order, in the thread of the server's loop, and never more in all than
-- an `int` counts: every call goes through, and afterwards the map holds exactly those that came and did
-- not go, each under the name of its number.
pub registry_refines :
    (es : List Event) (s : TcpServer) (r : Registry)
    → Represents s r
    → Possible es r
    → r.count + length es < 2147483647
    → (s' : TcpServer) × (run es s ≡ ok s') × Represents s' (spec_run es r)
unfolding run
registry_refines [] s r v p l = (s, refl, v)
registry_refines (e ∷ es) s r v p l =
    let (t, f, w) = act-Represents v (omega arith) e (Possible-first e es r p) (omega arith) in
    let (u, g, x) =
      registry_refines es t (spec_act e r) w (Possible-rest e es r p)
        (omega (arith, spec_act-le e r)) in
    (u, run_then e es s t u f g, x)
