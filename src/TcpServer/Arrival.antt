-- ===== src/TcpServer/Arrival.antt =====
-- What `newConnection` comes to where the pool has a loop for it.
use cevent_loop.Prelude.{ℕ, ◌+◌, ◌<◌, ltb, arith, ◌≡◌, refl, Bool, true, false, some, ok, ◌==◌}
use cevent_loop.Prelude.Int.{ℤ}
use cevent_loop.Prelude.Maps.{store}
use cevent_loop.Prelude.Text.{Text}
use cevent_loop.Prelude.TextMap.{put_text}
use cevent_loop.ThreadPool.{ThreadPool, get_next_loop}
use cevent_loop.TcpServer.{
  TcpServer, Task, establishes, conn_name, new_connection, run_in, queue_in, run_now,
}

-- A new connection, before its first functor is handed on.
abbrev pub arrived : ℕ → ThreadPool → ℤ → TcpServer → TcpServer
arrived io pool fd s = record s {
  pool = pool;
  next_conn_id = s.next_conn_id + 1;
  heap =
      store s.heap s.free
        (record { name = conn_name s.name s.ip_port s.next_conn_id; io_loop = io; sockfd = fd });
  free = s.free + 1;
}

abbrev pub keyed : Text → ℕ → TcpServer → TcpServer
keyed key c s = record s { connections = put_text s.connections key (some c) }

pub new_connection_lem :
    (fd : ℤ) (s : TcpServer) (io : ℕ) (pool : ThreadPool)
    → get_next_loop true s.pool ≡ ok (io, pool)
    → s.next_conn_id < 2147483647
    → new_connection true fd s
      ≡ ok (
          keyed
            (conn_name s.name s.ip_port s.next_conn_id)
            s.free
            (run_in (io == s.loop) io (establishes s.free) (arrived io pool fd s)))
unfolding new_connection
new_connection_lem fd s io pool e room =
    let small : ltb s.next_conn_id 2147483647 ≡ true = ground arith in rw (e, small) refl

pub run_in-free :
    (here : Bool) (l : ℕ) (t : Task) (s : TcpServer) → (run_in here l t s).free ≡ s.free
unfolding run_in queue_in run_now
run_in-free true l t s = refl
run_in-free false l t s = refl

pub run_in-next :
    (here : Bool) (l : ℕ) (t : Task) (s : TcpServer)
    → (run_in here l t s).next_conn_id ≡ s.next_conn_id
unfolding run_in queue_in run_now
run_in-next true l t s = refl
run_in-next false l t s = refl
