-- ===== src/Channel/Dispatch.antt =====
-- Asking for reading and for writing do not disturb each other.
use cevent_loop.Prelude.{◌≡◌, refl, Bool, true, false}
use cevent_loop.Prelude.Flags.{
  and_three-or_three, and_four-or_three, and_four-or_four, and_three-or_four,
}
use cevent_loop.Channel.{Channel, has, is_writing, ask_writing, ask_reading, ask_nothing}

-- Whether the channel asks for POLLIN or POLLPRI.
abbrev is_reading : Channel → Bool
is_reading c = has c.events 3

-- After `enableWriting` a channel asks for writing and for reading as before; after `enableReading`
-- the other way round; after `disableAll` for neither. This holds for whatever `events_` held before.
interest_lem :
    (c : Channel)
    → ((is_writing (ask_writing c) ≡ true) × (is_reading (ask_writing c) ≡ is_reading c))
      × ((is_reading (ask_reading c) ≡ true) × (is_writing (ask_reading c) ≡ is_writing c))
      × ((is_writing (ask_nothing c) ≡ false) × (is_reading (ask_nothing c) ≡ false))
unfolding is_writing ask_writing ask_reading ask_nothing
interest_lem c = (
  (rw and_four-or_four refl, rw and_three-or_four refl),
  (rw and_three-or_three refl, rw and_four-or_three refl),
  (refl, refl),
)
