-- ===== src/TcpServer/Registry.antt =====
-- A registry of connections: what the map of the server stands for.
use cevent_loop.Prelude.{
  ℕ, ◌+◌, ◌≤◌, ◌<◌, ◌≡◌, Bool, true, false, some, List, [], ◌∷◌, length, Exec, ok, ◌>>=◌,
}
use cevent_loop.Prelude.Int.{ℤ}
use cevent_loop.Prelude.Maps.{store}
use cevent_loop.Prelude.Text.{Text}
use cevent_loop.ThreadPool.Next.{InTurn}
use cevent_loop.TcpServer.{TcpServer, conn_name, new_connection, remove_connection}

-- Which connections there are, in the eyes of a user: numbered as they come, each there or gone.
pub record Registry : Type 0 where
  pub count : ℕ
  pub present : ℕ → Bool

-- The map of the server is that registry: a connection that is present is under its name, and nothing
-- else is in the map; the names are those of the numbers from 1 on.
pub record Represents (s : TcpServer) (r : Registry) : Type 0 where
  pub counted : s.free ≡ r.count
  pub numbered : s.next_conn_id ≡ r.count + 1
  pub named : (c : ℕ) → c < r.count → (s.heap c).name ≡ conn_name s.name s.ip_port (c + 1)
  pub held : (c : ℕ) → c < r.count → r.present c ≡ true → s.connections (s.heap c).name ≡ some c
  pub only :
      (key : Text) (c : ℕ)
      → s.connections key ≡ some c
      → (c < r.count) × (r.present c ≡ true) × ((s.heap c).name ≡ key)
  pub short : length s.ip_port ≤ 51
  pub turn : InTurn s.pool

-- A connection comes on a descriptor, or one that is there goes.
pub data Event : Type 0 where
  comes : ℤ → Event
  goes : ℕ → Event

unfoldable pub act : Event → TcpServer → Exec TcpServer
unfolding new_connection remove_connection
act (comes fd) s = new_connection true fd s
act (goes c) s = remove_connection true c s

abbrev pub spec_act : Event → Registry → Registry
spec_act (comes fd) r = record { count = r.count + 1; present = store r.present r.count true }
spec_act (goes c) r = record r { present = store r.present c false }

unfoldable pub run : List Event → TcpServer → Exec TcpServer
unfolding act
run [] s = ok s
run (e ∷ es) s = act e s >>= run es

abbrev pub spec_run : List Event → Registry → Registry
spec_run [] r = r
spec_run (e ∷ es) r = spec_run es (spec_act e r)

-- Only connections that were made go.
abbrev pub Possible : List Event → Registry → Type 0
Possible [] r = Unit
Possible (comes fd ∷ es) r = Possible es (spec_act (comes fd) r)
Possible (goes c ∷ es) r = (c < r.count) × Possible es (spec_act (goes c) r)
