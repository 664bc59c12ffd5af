-- ===== src/TcpServer/Tests.antt =====
-- A server without threads: two connections come, and the first goes.
use cevent_loop.Prelude.{
  ℕ, ◌+◌, length, ◌≡◌, ◌>>=◌, refl, inl, inr, true, false, none, some, List, [], ◌∷◌, arith, ok,
}
use cevent_loop.Prelude.Int.{pos, negsuc}
use cevent_loop.Prelude.Text.{Text, codes, decimal}
use cevent_loop.ThreadPool
use cevent_loop.TcpServer
use cevent_loop.TcpServer.{TcpServer, conn_name, queue_in, run_now}
use cevent_loop.TcpServer.Registry.{
  Registry, Represents, Event, comes, goes, run, spec_act, spec_run,
}
use cevent_loop.TcpServer.Connections.{registry_refines}
use cevent_loop.TcpServer.Histories.{Ordered}
use cevent_loop.TcpServer.Calls.{Call, arrives, closes, turns, stops, calls}
use cevent_loop.TcpServer.Lifetimes.{lifetimes}
use cevent_loop.Acceptor.{Acceptor, Arrival}
use cevent_loop.Acceptor.Ledger.{Balanced}
use cevent_loop.Acceptor.Ledger
use cevent_loop.TcpServer.Intake.{on_new_connection, Taken, intake_lem}
use cevent_loop.Poller.{Poller}
use cevent_loop.Poller.Valid
use cevent_loop.ThreadPool.{ThreadPool, get_next_loop}
use cevent_loop.Buffer.{stored}
use cevent_loop.TcpConnection.Fixture.{
  poller, poller-IsValid, first_entry, registered, nothing_kept,
}
use cevent_loop.TcpConnection.{Net, handle_read, disconnected, connecting, connected}
use cevent_loop.TcpConnection.Deeds.{Deed, says, hears, flushes}
use cevent_loop.TcpClient.{Socket}
use cevent_loop.TcpServer.Hosting.{Hosted, hooks, take_functors}
use cevent_loop.TcpServer.Departure.{Resident, Departed, tells, departs_lem}
use cevent_loop.TcpServer.Session.{User, set_up, set_up-Represents}

abbrev empty : TcpServer
empty = TcpServer.new 1 (codes "0.0.0.0:2007") (codes "Echo")

abbrev nobody : Registry
nobody = record { count = 0; present = λ c. true }

empty-Represents : Represents empty nobody
unfolding TcpServer.new ThreadPool.new
empty-Represents = record {
  counted = refl;
  numbered = refl;
  named = λ c h. absurd (omega arith);
  held = λ c h there. absurd (omega arith);
  only = λ key c there. cc there;
  short = omega arith;
  turn = inl refl;
}

abbrev events : List Event
events = comes (pos 5) ∷ comes (pos 6) ∷ goes 0 ∷ []

second_name : conn_name (codes "Echo") (codes "0.0.0.0:2007") 2 ≡ codes "Echo-0.0.0.0:2007#2"
unfolding conn_name decimal
second_name = refl

registry_refines_example :
    (s' : TcpServer) × (run events empty ≡ ok s') × Represents s' (spec_run events nobody)
registry_refines_example =
    registry_refines events empty nobody empty-Represents (omega arith, tt) (omega arith)

abbrev one_byte : Text
one_byte = codes "x"

empty-Ordered : Ordered empty.free empty
unfolding TcpServer.new ThreadPool.new
empty-Ordered = record {
  proper = λ l. tt;
  made = λ c h. absurd (omega arith);
  removals = λ l. tt;
  turn = inl refl;
}

abbrev schedule : List Call
schedule = arrives (pos 5) ∷ arrives (pos 6) ∷ closes 0 ∷ turns 1 ∷ turns 1 ∷ stops ∷ []

lifetimes_example : (s' : TcpServer) × (calls schedule empty ≡ ok s') × Ordered s'.free s'
unfolding TcpServer.new
lifetimes_example = lifetimes schedule empty empty-Ordered (omega arith, tt) (omega arith)

-- The server with two loops behind it, and an acceptor on descriptor 3 that keeps 4 back.
abbrev busy : TcpServer
busy = record empty {
  pool = record { base_loop = 1; started = true; num_threads = 2; next = 1; loops = 10 ∷ 11 ∷ [] };
}

busy-Represents : Represents busy nobody
unfolding TcpServer.new
busy-Represents = record {
  counted = refl;
  numbered = refl;
  named = λ c h. absurd (omega arith);
  held = λ c h there. absurd (omega arith);
  only = λ key c there. cc there;
  short = omega arith;
  turn = inr (omega arith);
}

abbrev unused : Poller
unused = record {
  pollfds = [];
  channels = λ fd. none;
  heap = λ c. record {
    loop = 0;
    fd = pos 0;
    index = negsuc 0;
    events = 0;
    active_events = 0;
    tied = false;
  };
}

abbrev door : Acceptor TcpServer
door = record {
  accept_socket = pos 3;
  channel = 1;
  idle_fd = pos 4;
  poller = unused;
  listening = true;
  got = pos 4 ∷ pos 3 ∷ [];
  closed = [];
  handed = [];
  world = busy;
}

door-Balanced : Balanced door
unfolding Balanced
door-Balanced fd = omega arith

-- Two connections, and between them none for want of descriptors.
abbrev knocks : List Arrival
knocks =
    record { connfd = pos 5; emfile = false; second = pos 0; reopened = pos 0 }
    ∷ record { connfd = negsuc 0; emfile = true; second = pos 4; reopened = pos 4 }
    ∷ record { connfd = pos 6; emfile = false; second = pos 0; reopened = pos 0 }
    ∷ []

intake_lem_example :
    (a' : Acceptor TcpServer) × (Ledger.run (some on_new_connection) knocks door ≡ ok a')
    × Taken (pos 5 ∷ pos 6 ∷ []) nobody door a'
intake_lem_example = intake_lem knocks door nobody door-Balanced busy-Represents (omega arith)

-- Loop 11 is next. The user counts bytes, and adds 100 for a connection that is up and 1000 for one that
-- is down.
abbrev counting : User ℕ
counting = record {
  told = λ state n. elim state [ disconnected ↦ n + 1000 | connecting ↦ n | connected ↦ n + 100 ];
  heard = λ text n. n + length text;
}

abbrev socket : Socket
socket = record { fd = pos 5; loop = 11; address = 1; stale_events = 0; stale_active = 0 }

abbrev hosting : Hosted ℕ
hosting = record { server = busy; user = 0 }

abbrev visit : List Deed
visit = hears 3 104 (105 ∷ []) ∷ says 1 (97 ∷ 98 ∷ []) ∷ flushes ∷ []

-- The server after that establishment, and the connection on descriptor 4 of the other fixture.
abbrev moved : ThreadPool
moved = record busy.pool { next = 0 }

abbrev resident : Net (Hosted ℕ)
resident = record {
  conn = record {
    state = connected;
    channel = 1;
    high_water_mark = 100;
    input_buffer = nothing_kept;
    output_buffer = nothing_kept;
  };
  poller = poller;
  wire = [];
  closed = [];
  write_ended = false;
  world = record { server = set_up (pos 5) 11 moved busy; user = 0 };
}

resident-Resident : Resident 0 (spec_act (comes (pos 5)) nobody) resident
unfolding TcpServer.new get_next_loop queue_in run_now
resident-Resident = record {
  represented = set_up-Represents (pos 5) 11 moved busy busy-Represents (omega arith) refl;
  few = omega arith;
  made = omega arith;
  attached = record { poller = poller-IsValid; registered = (0, first_entry, registered) };
  input = omega arith;
  at_home = refl;
  away = refl;
}

departs_lem_example :
    (s' : Net (Hosted ℕ)) × ((handle_read
          (hooks 0 (some (tells counting.told)) none)
          true
          7
          (stored [])
          resident
        >>= take_functors (hooks 0 (some (tells counting.told)) none) 0 (1 ∷ 11 ∷ []))
      ≡ ok s')
    × Departed 0 (spec_act (comes (pos 5)) nobody) counting.told resident s'
unfolding TcpServer.new queue_in run_now
departs_lem_example =
    departs_lem counting.told 0 none 7 resident (spec_act (comes (pos 5)) nobody) resident-Resident
