-- ===== src/Acceptor/Tests.antt =====
-- An acceptor on descriptor 3 that keeps 4 back.
use cevent_loop.Prelude.{ℕ, ◌≡◌, arith, true, false, none, List, [], ◌∷◌, ok}
use cevent_loop.Prelude.Int.{pos, negsuc}
use cevent_loop.Poller.{Poller}
use cevent_loop.Acceptor
use cevent_loop.Acceptor.{Acceptor, Arrival}
use cevent_loop.Acceptor.Ledger.{Balanced, run, run-Balanced}

abbrev no_channels : Poller
no_channels = record {
  pollfds = [];
  channels = λ fd. none;
  heap = λ c. record {
    loop = 0;
    fd = pos 0;
    index = negsuc 0;
    events = 0;
    active_events = 0;
    tied = false;
  };
}

abbrev fresh : Acceptor ℕ
fresh = Acceptor.new 0 1 0 0 (pos 3) (pos 4) no_channels 0

fresh-Balanced : Balanced fresh
unfolding Balanced Acceptor.new
fresh-Balanced fd = omega arith

-- A connection, and then none for want of descriptors.
abbrev arrivals : List Arrival
arrivals =
    record { connfd = pos 5; emfile = false; second = pos 0; reopened = pos 0 }
    ∷ record { connfd = negsuc 0; emfile = true; second = pos 4; reopened = pos 4 }
    ∷ []

run-Balanced_example : (s' : Acceptor ℕ) × (run none arrivals fresh ≡ ok s') × Balanced s'
run-Balanced_example = run-Balanced none arrivals fresh tt fresh-Balanced
