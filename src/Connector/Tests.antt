-- ===== src/Connector/Tests.antt =====
-- An attempt on descriptor 4, which the system takes up and the socket then confirms.
use cevent_loop.Prelude.{◌≡◌, refl, true, false, none, some, List, [], ◌∷◌, Option, Exec, ok}
use cevent_loop.Prelude.Int.{ℤ, pos, negsuc}
use cevent_loop.Poller.{Poller}
use cevent_loop.Connector
use cevent_loop.Connector.{Connector, start, conn_refused, verdict, connect, retry}
use cevent_loop.Connector.Settling.{attempt}

abbrev no_channels : Poller
no_channels = record {
  pollfds = [];
  channels = λ fd. none;
  heap = λ c. record {
    loop = 0;
    fd = pos 0;
    index = negsuc 0;
    events = 0;
    active_events = 0;
    tied = false;
  };
}

abbrev ready : Connector (List ℤ)
ready = record {
  connect_flag = true;
  state = cevent_loop.TcpConnection.disconnected;
  channel = none;
  poller = no_channels;
  closed = [];
  resets = 0;
  world = [];
}

-- The callback keeps the descriptors that it is given.
abbrev keep : Option (ℤ → Connector (List ℤ) → Exec (Connector (List ℤ)))
keep = some (λ fd s. ok (record s { world = fd ∷ s.world }))

refused_at_once :
    attempt keep (some conn_refused) 0 false 0 1 0 0 (pos 4) ready
    ≡ ok (record ready { closed = pos 4 ∷ [] })
unfolding attempt connect retry Connector.handle_write
refused_at_once = refl
