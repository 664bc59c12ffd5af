-- ===== src/TcpServer.antt =====
-- CEventLoop/TcpServer.h and TcpServer.cc: the connections of a server by their names, and the functors
-- that it queues in its loops. A loop and a connection are addresses; what a functor then does to a
-- connection is in TcpConnection.
mod Tests
pub mod Names
pub mod Registry
pub mod Arrival
pub mod Connections
pub mod Order
pub mod Histories
pub mod Calls
pub mod Lifetimes
pub mod Growth
pub mod Intake
pub mod Hosting
pub mod Departure
pub mod Session
pub mod Establishing
pub mod Life
use cevent_loop.Prelude.{
  ℕ, suc, ◌+◌, ◌-◌, Bool, true, false, Option, none, some, List, [], ◌∷◌, ◌++◌, ltb, ◌==◌,
  if◌then◌else◌, Exec, ok, fault, ◌>>=◌, not_in_loop_thread, int_overflow,
}
use cevent_loop.Prelude.Int.{ℤ}
use cevent_loop.Prelude.Maps.{store}
use cevent_loop.Prelude.Text.{Text, decimal}
use cevent_loop.Prelude.TextMap.{put_text}
use cevent_loop.Buffer.{Buffer, retrieve_all}
use cevent_loop.SocketsOps.{snprintf}
use cevent_loop.ThreadPool
use cevent_loop.ThreadPool.{ThreadPool, set_thread_num, get_next_loop}

-- The functors: `listen` of the acceptor, `quit` of the loop, `connectEstablished` and
-- `connectDestroyed` of a connection, `removeConnection` of one.
pub data Task : Type 0 where
  listens quits : Task
  establishes destroys removes : ℕ → Task

-- What the server gave to a connection.
pub record Member : Type 0 where
  pub name : Text
  pub io_loop : ℕ
  pub sockfd : ℤ

-- The members, the next free address, and for each loop the functors that it ran and those that wait.
pub record TcpServer : Type 0 where
  pub loop : ℕ
  pub ip_port : Text
  pub name : Text
  pub pool : ThreadPool
  pub started : Bool
  pub next_conn_id : ℕ
  pub connections : Text → Option ℕ
  pub heap : ℕ → Member
  pub free : ℕ
  pub ran : ℕ → List Task
  pub queue : ℕ → List Task

unfoldable pub new : ℕ → Text → Text → TcpServer
unfolding ThreadPool.new
new loop ip_port name = record {
  loop = loop;
  ip_port = ip_port;
  name = name;
  pool = ThreadPool.new loop;
  started = false;
  next_conn_id = 1;
  connections = λ key. none;
  heap = λ c. record { name = []; io_loop = loop; sockfd = cevent_loop.Prelude.Int.negsuc 0 };
  free = 0;
  ran = λ l. [];
  queue = λ l. [];
}

-- `queueInLoop` and `runInLoop` of a loop; `here` is whether the caller is in its thread.
unfoldable pub queue_in : ℕ → Task → TcpServer → TcpServer
queue_in l t s = record s { queue = store s.queue l (s.queue l ++ (t ∷ [])) }

unfoldable pub run_now : ℕ → Task → TcpServer → TcpServer
run_now l t s = record s { ran = store s.ran l (s.ran l ++ (t ∷ [])) }

unfoldable pub run_in : Bool → ℕ → Task → TcpServer → TcpServer
unfolding queue_in run_now
run_in here l t s = if here then run_now l t s else queue_in l t s

-- `setThreadNum`
unfoldable pub set_threads : ℕ → TcpServer → TcpServer
unfolding set_thread_num
set_threads n s = if ltb 0 n then record s { pool = set_thread_num n s.pool } else s

unfoldable pub start : Bool → (ℕ → ℕ) → TcpServer → Exec TcpServer
unfolding ThreadPool.start run_in
start here start_loop s = if s.started then ok s else (do
  pool ← ThreadPool.start here start_loop s.pool
  ok (run_in here s.loop listens (record s { started = true; pool = pool })))

unfoldable pub stop : TcpServer → TcpServer
unfolding queue_in
stop s = queue_in s.loop quits s

-- `snprintf(buf, sizeof(buf), "-%s#%d", ...)` behind the name of the server.
unfoldable pub conn_name : Text → Text → ℕ → Text
conn_name server ip_port id =
    server ++ snprintf 64 ((b'-' ∷ []) ++ (ip_port ++ (b'#' ∷ decimal id)))

-- `++` of an `int` that is not negative.
abbrev pub increment_int : ℕ → Exec ℕ
increment_int n = if ltb n 2147483647 then ok (n + 1) else fault int_overflow

-- `newConnection`
unfoldable pub new_connection : Bool → ℤ → TcpServer → Exec TcpServer
unfolding conn_name run_in
new_connection here fd s =
    if here
    then (do
      (io, pool) ← get_next_loop here s.pool
      let key = conn_name s.name s.ip_port s.next_conn_id
      next ← increment_int s.next_conn_id
      let c = s.free
      let s₁ = record s {
        pool = pool;
        next_conn_id = next;
        heap = store s.heap c (record { name = key; io_loop = io; sockfd = fd });
        free = c + 1;
      }
      let s₂ = run_in (io == s.loop) io (establishes c) s₁
      ok (record s₂ { connections = put_text s₂.connections key (some c) }))
    else fault not_in_loop_thread

-- `removeConnectionInLoop`
unfoldable pub remove_connection_in_loop : ℕ → TcpServer → TcpServer
unfolding queue_in
remove_connection_in_loop c s = queue_in s.loop (removes c) s

-- `removeConnection`
unfoldable pub remove_connection : Bool → ℕ → TcpServer → Exec TcpServer
unfolding queue_in
remove_connection here c s =
    if here
    then (let s₁ = queue_in (s.heap c).io_loop (destroys c) s in
        ok (record s₁ { connections = put_text s₁.connections (s.heap c).name none }))
    else fault not_in_loop_thread

-- One turn of `doPendingFunctors`: the first functor is taken and run. What the loop swapped out and what
-- was queued since stand behind one another in one list.
unfoldable pub run_first : ℕ → TcpServer → Exec TcpServer
unfolding run_now remove_connection
run_first l s = elim (s.queue l) [
  | [] ↦ ok s
  | t ∷ ts ↦
      let s₁ = run_now l t (record s { queue = store s.queue l ts }) in
      elim t [
        | removes c ↦ remove_connection (l == s.loop) c s₁
        | listens ↦ ok s₁
        | quits ↦ ok s₁
        | establishes c ↦ ok s₁
        | destroys c ↦ ok s₁
      ]
]

-- `defaultMessageCallback`
unfoldable pub default_message_callback : Buffer → Buffer
default_message_callback b = retrieve_all b
