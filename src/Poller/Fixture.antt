-- ===== src/Poller/Fixture.antt =====
-- A poller with two channels: descriptor 4 at address 1, and descriptor 7 at address 2.
use Prim.Native.Nat.{◌*◌}
use cevent_loop.Prelude.{◌+◌, refl, false, none, []}
use cevent_loop.Prelude.Int.{ℤ, pos, negsuc, same}
use cevent_loop.Channel.{Channel}
use cevent_loop.Poller.{Poller, add_channel}
use cevent_loop.Poller.Valid.{IsValid}
use cevent_loop.Poller.Update.{IsFresh, add_channel-IsValid}

abbrev pub channel : ℤ → ℤ → Channel
channel fd index = record {
  loop = 0;
  fd = fd;
  index = index;
  events = 3;
  active_events = 0;
  tied = false;
}

abbrev pub no_channels : Poller
no_channels = record {
  pollfds = [];
  channels = λ fd. none;
  heap = λ c. channel (pos (c * 3 + 1)) (negsuc 0);
}

pub no_channels-IsValid : IsValid no_channels
no_channels-IsValid = record { entries = λ i p e. cc e; owners = λ fd c e. cc e }

pub first-IsFresh : IsFresh no_channels 1
first-IsFresh = record { unindexed = refl; opened = refl; unmapped = refl }

abbrev pub one_channel : Poller
one_channel = add_channel 1 no_channels

pub one_channel-IsValid : IsValid one_channel
one_channel-IsValid = add_channel-IsValid no_channels-IsValid 1 first-IsFresh

pub second-IsFresh : IsFresh one_channel 2
unfolding add_channel same
second-IsFresh = record { unindexed = refl; opened = refl; unmapped = refl }

abbrev pub two_channels : Poller
two_channels = add_channel 2 one_channel

pub two_channels-IsValid : IsValid two_channels
two_channels-IsValid = add_channel-IsValid one_channel-IsValid 2 second-IsFresh
