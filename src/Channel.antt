-- ===== src/Channel.antt =====
-- CEventLoop/Channel.h and Channel.cc: a descriptor with the events it asks for and its callbacks.
-- Registering with the poller is in Poller.
mod Tests
pub mod Dispatch
use Prim.Native.Nat.{bit_and, bit_or}
use cevent_loop.Prelude.{
  ℕ, ◌+◌, Bool, Option, none, some, [], ◌++◌, not, ◌==◌, ◌&&◌, if◌then◌else◌, Exec, ok, ◌>>=◌,
}
use cevent_loop.Prelude.Int.{ℤ, negsuc}
use cevent_loop.Prelude.Text.{Text, codes, print_int}

-- The flags of <poll.h>.
abbrev pub pollin : ℕ
pollin = 1

abbrev pub pollpri : ℕ
pollpri = 2

abbrev pub pollout : ℕ
pollout = 4

abbrev pub pollerr : ℕ
pollerr = 8

abbrev pub pollhup : ℕ
pollhup = 16

abbrev pub pollnval : ℕ
pollnval = 32

abbrev pub pollrdhup : ℕ
pollrdhup = 0x2000

-- `enum class Event`.
abbrev pub none_event : ℕ
none_event = 0

abbrev pub read_event : ℕ
read_event = 3

abbrev pub write_event : ℕ
write_event = 4

-- `loop` names the owner loop; `tied` is whether `tie` was called.
pub record Channel : Type 0 where
  pub loop : ℕ
  pub fd : ℤ
  pub index : ℤ
  pub events : ℕ
  pub active_events : ℕ
  pub tied : Bool

-- The constructor leaves `events_` and `activeEvents_` as the memory was.
unfoldable pub new : ℕ → ℤ → ℕ → ℕ → Channel
new loop fd stale_events stale_active = record {
  loop = loop;
  fd = fd;
  index = negsuc 0;
  events = stale_events;
  active_events = stale_active;
  tied = Bool.false;
}

-- A test `mask & flags` of the source.
abbrev pub has : ℕ → ℕ → Bool
has mask flags = not (bit_and mask flags == 0)

abbrev named : Bool → Text → Text
named b name = if b then name else []

unfoldable pub is_writing : Channel → Bool
is_writing c = has c.events pollout

unfoldable pub set_active_events : ℕ → Channel → Channel
set_active_events active c = record c { active_events = active }

unfoldable pub set_index : ℤ → Channel → Channel
set_index i c = record c { index = i }

unfoldable pub tie : Channel → Channel
tie c = record c { tied = Bool.true }

-- What `enableWriting`, `enableReading` and `disableAll` do to `events_` before the update.
unfoldable pub ask_writing : Channel → Channel
ask_writing c = record c { events = bit_or write_event c.events }

unfoldable pub ask_reading : Channel → Channel
ask_reading c = record c { events = bit_or read_event c.events }

unfoldable pub ask_nothing : Channel → Channel
ask_nothing c = record c { events = none_event }

-- `eventsToString`: the descriptor, and the name of each flag that is set.
unfoldable pub events_to_string : ℤ → ℕ → Text
unfolding print_int
events_to_string fd events =
    print_int fd
    ++ (codes ": "
        ++ (named (has events pollin) (codes "IN ")
            ++ (named (has events pollpri) (codes "PRI ")
                ++ (named (has events pollout) (codes "OUT ")
                    ++ (named (has events pollhup) (codes "HUP ")
                        ++ (named (has events pollrdhup) (codes "RDHUP ")
                            ++ (named (has events pollerr) (codes "ERR ")
                                ++ named (has events pollnval) (codes "NVAL"))))))))

-- The four `std::function`s, on a state `W` that they change. An empty one is `none`.
pub record Callbacks {ℓ} (W : Type ℓ) : Type ℓ where
  pub close : Option (W → Exec W)
  pub error : Option (W → Exec W)
  pub read : Option (ℕ → W → Exec W)
  pub write : Option (W → Exec W)

-- `if (cb) cb();`
unfoldable pub call {ℓ} : {W : Type ℓ} → Option (W → Exec W) → W → Exec W
call none w = ok w
call (some f) w = f w

unfoldable pub call_read {ℓ} : {W : Type ℓ} → Option (ℕ → W → Exec W) → ℕ → W → Exec W
call_read none t w = ok w
call_read (some f) t w = f t w

-- `if (mask & flags) { … }`
unfoldable pub when {ℓ} : {W : Type ℓ} → Bool → (W → Exec W) → W → Exec W
when b act w = if b then act w else ok w

-- `handleEvent`. The mask is read from the channel once: no callback changes it.
unfoldable pub handle_event {ℓ} : {W : Type ℓ} → Callbacks W → ℕ → Channel → W → Exec (W × Channel)
unfolding when call call_read
handle_event cb poll_time c w = do
  w₁ ← when (has c.active_events pollhup && not (has c.active_events pollin)) (call cb.close) w
  w₂ ← when (has c.active_events (pollerr + pollnval)) (call cb.error) w₁
  w₃ ← when (has c.active_events (pollin + pollpri + pollrdhup)) (call_read cb.read poll_time) w₂
  w₄ ← when (has c.active_events pollout) (call cb.write) w₃
  ok (w₄, record c { active_events = 0 })
