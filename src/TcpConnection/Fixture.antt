-- ===== src/TcpConnection/Fixture.antt =====
-- For the tests: a connection on descriptor 4 whose channel, at address 1, is registered.
use cevent_loop.Prelude.{
  ℕ, ◌+◌, ◌*◌, ◌≤◌, refl, false, none, some, [], Exec, ok, arith, replicate, length,
}
use cevent_loop.Prelude.Int.{pos, negsuc, same}
use cevent_loop.Buffer.{Buffer}
use cevent_loop.Buffer.Valid
use cevent_loop.Channel.{call}
use cevent_loop.Poller
use cevent_loop.Poller.{Poller, PollFd, add_channel}
use cevent_loop.Poller.Valid.{Registered}
use cevent_loop.Poller.Update.{add_channel-IsValid}
use cevent_loop.TcpConnection.{Net, Callbacks, connected}
use cevent_loop.TcpConnection.Keeping.{IsValid}
use cevent_loop.TcpConnection.Sending.{Quiet}

abbrev pub no_channels : Poller
no_channels = record {
  pollfds = [];
  channels = λ fd. none;
  heap = λ c. record {
    loop = 0;
    fd = pos (c + 3);
    index = negsuc 0;
    events = 3;
    active_events = 0;
    tied = false;
  };
}

abbrev pub poller : Poller
poller = add_channel 1 no_channels

abbrev pub first_entry : PollFd
first_entry = record { fd = pos 4; events = 3; revents = 0 }

pub poller-IsValid : cevent_loop.Poller.Valid.IsValid poller
poller-IsValid =
    add_channel-IsValid (record { entries = λ i p e. cc e; owners = λ fd c e. cc e }) 1
      (record { unindexed = refl; opened = refl; unmapped = refl })

pub registered : Registered poller 1 0 first_entry
unfolding add_channel same
registered = record { entry_at = refl; mapped = refl; index_of = refl; fd_of = refl; opened = refl }

abbrev pub nothing_kept : Buffer
nothing_kept = record { buf = replicate 24 0; reader_index = 8; writer_index = 8 }

abbrev pub with_buffers : Buffer → Buffer → Net ℕ
with_buffers input output = record {
  conn = record {
    state = connected;
    channel = 1;
    high_water_mark = 64 * 1024 * 1024;
    input_buffer = input;
    output_buffer = output;
  };
  poller = poller;
  wire = [];
  closed = [];
  write_ended = false;
  world = 0;
}

pub with_buffers-IsValid :
    (input output : Buffer)
    → cevent_loop.Buffer.Valid.IsValid output
    → length output.buf ≤ 2000
    → IsValid (with_buffers input output)
with_buffers-IsValid input output v small = record {
  out = v;
  poller = poller-IsValid;
  registered = (0, first_entry, registered);
  marked = omega arith;
}

-- The callbacks count.
abbrev pub counts : Net ℕ → Exec (Net ℕ)
counts s = ok (record s { world = s.world + 1 })

abbrev pub callbacks : Callbacks ℕ
callbacks = record {
  connection = some counts;
  message = none;
  close = some counts;
  write_complete = none;
  high_water = none;
  write = none;
}

pub quiet : Quiet callbacks.write_complete
unfolding call
quiet s = (s.world, refl)
