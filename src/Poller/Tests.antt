-- ===== src/Poller/Tests.antt =====
-- The poller with two channels.
use cevent_loop.Prelude.{ℕ, ◌≡◌, refl, ok, inr, arith}
use cevent_loop.Prelude.Int.{pos, same}
use cevent_loop.Channel.{ask_reading, ask_writing, ask_nothing}
use cevent_loop.Poller.{
  Poller, PollFd, add_channel, update_channel, remove_channel, enable_reading, enable_writing,
  disable_all,
}
use cevent_loop.Poller.Valid.{Registered, IsValid}
use cevent_loop.Poller.Remove.{Removed, remove_channel-Removed}
use cevent_loop.Poller.Stale.{TakenOver, stale_update}
use cevent_loop.Poller.Fixture.{two_channels, two_channels-IsValid}
use cevent_loop.Poller.Interest.{Reaches, interest-Reaches}

abbrev first_entry : PollFd
first_entry = record { fd = pos 4; events = 3; revents = 0 }

first-Registered : Registered two_channels 1 0 first_entry
unfolding add_channel same
first-Registered = record {
  entry_at = refl;
  mapped = refl;
  index_of = refl;
  fd_of = refl;
  opened = refl;
}

remove_channel-Removed_example :
    (s' : Poller) × (remove_channel 1 two_channels ≡ ok s') × Removed two_channels 1 s'
remove_channel-Removed_example =
    remove_channel-Removed 1 0 first_entry two_channels-IsValid first-Registered

stale_update_example :
    (s' s'' : Poller) × (remove_channel 1 two_channels ≡ ok s')
    × (update_channel 1 s' ≡ ok s'')
    × ((d : ℕ) × (q : PollFd) × TakenOver 1 d 0 q s' s'')
    × (¬ IsValid s'')
unfolding add_channel
stale_update_example =
    stale_update 1 0 first_entry two_channels-IsValid first-Registered (omega arith)

interest-Reaches_example :
    Reaches 1 (ask_reading (two_channels.heap 1)) (enable_reading 1 two_channels)
    × Reaches 1 (ask_writing (two_channels.heap 1)) (enable_writing 1 two_channels)
    × Reaches 1 (ask_nothing (two_channels.heap 1)) (disable_all 1 two_channels)
interest-Reaches_example =
    interest-Reaches two_channels 1 two_channels-IsValid (inr (0, first_entry, first-Registered))
