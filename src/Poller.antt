-- ===== src/Poller.antt =====
-- CEventLoop/Poller.h and Poller.cc: the array that `poll` reads and the map from descriptors to
-- channels, with the channels that the pointers of both lead to. A pointer is an address.

mod Tests
pub mod Valid
pub mod Update
pub mod Remove
pub mod Active
pub mod Poll
pub mod Stale
pub mod Interest
pub mod Marks
pub mod Fixture
use cevent_loop.Prelude.{
  ℕ, zero, suc, ◌+◌, ◌-◌, ◌<◌, Bool, true, false, Option, none, some, List, [], ◌∷◌, ◌++◌, ltb,
  ◌==◌, not, if◌then◌else◌, length, take, get_elem?, set, Exec, ok, fault, ◌>>=◌, assertion_failed,
  out_of_bounds, null_pointer,
}
use cevent_loop.Prelude.Int.{ℤ, pos, negsuc, is_negative}
use cevent_loop.Prelude.Maps.{put, store}
use cevent_loop.Channel
use cevent_loop.Channel.{Channel}

-- `struct pollfd`
pub record PollFd : Type 0 where
  pub fd : ℤ
  pub events : ℕ
  pub revents : ℕ

-- `pollfds_` and `channels_`, and the objects at the addresses.
pub record Poller : Type 0 where
  pub pollfds : List PollFd
  pub channels : ℤ → Option ℕ
  pub heap : ℕ → Channel

abbrev pub entry : Channel → PollFd
entry c = record { fd = c.fd; events = c.events; revents = 0 }

-- `updateChannel`, the branch of a channel that is not in the array.
unfoldable pub add_channel : ℕ → Poller → Poller
unfolding Channel.set_index
add_channel c s = record {
  pollfds = s.pollfds ++ (entry (s.heap c) ∷ []);
  channels = put s.channels (s.heap c).fd (some c);
  heap = store s.heap c (Channel.set_index (pos (length s.pollfds)) (s.heap c));
}

-- A position of the array: a negative index, or one past the end, is outside it.
abbrev pub position : ℤ → Poller → Exec ℕ
position (pos i) s = if ltb i (length s.pollfds) then ok i else fault out_of_bounds
position (negsuc i) s = fault out_of_bounds

unfoldable pub update_channel : ℕ → Poller → Exec Poller
unfolding add_channel
update_channel c s = if is_negative (s.heap c).index then ok (add_channel c s) else (do
  i ← position (s.heap c).index s
  ok (record s { pollfds = set s.pollfds i (entry (s.heap c)) }))

-- `std::vector::operator[]` and `back`.
abbrev pub at {ℓ} : {A : Type ℓ} → List A → ℕ → Exec A
at xs i = elim (get_elem? xs i) [ none ↦ fault out_of_bounds | some x ↦ ok x ]

abbrev pub pop_back {ℓ} : {A : Type ℓ} → List A → List A
pop_back xs = take (length xs - 1) xs

-- The pointer that a map holds for a key; `operator[]` makes a null one where it holds none.
abbrev pub pointer : Option ℕ → Exec ℕ
pointer none = fault null_pointer
pointer (some c) = ok c

-- `-fd - 1` where `fd` is negative, as the source writes.
abbrev pub restored : ℤ → ℤ
restored (pos n) = pos n
restored (negsuc n) = pos n

-- `std::iter_swap` of position `i` and the last one.
abbrev pub swap_last : List PollFd → ℕ → PollFd → PollFd → List PollFd
swap_last xs i here last = set (set xs i last) (length xs - 1) here

-- The branch of `removeChannel` that moves the last entry into the hole.
unfoldable pub fill_hole : ℕ → PollFd → Poller → Exec Poller
unfolding Channel.set_index
fill_hole i here s = do
  last ← at s.pollfds (length s.pollfds - 1)
  moved ← pointer (s.channels (restored last.fd))
  ok (record s {
    pollfds = pop_back (swap_last s.pollfds i here last);
    heap = store s.heap moved (Channel.set_index (pos i) (s.heap moved));
  })

-- `removeChannel` once the channel is known to be in the map.
unfoldable pub remove_entry : ℕ → Poller → Exec Poller
unfolding fill_hole
remove_entry c s = do
  i ← position (s.heap c).index s
  here ← at s.pollfds i
  let s' = record s { channels = put s.channels here.fd none }
  if i == length s.pollfds - 1
      then ok (record s' { pollfds = pop_back s.pollfds })
      else fill_hole i here s'

unfoldable pub remove_channel : ℕ → Poller → Exec Poller
unfolding remove_entry
remove_channel c s = elim (s.channels (s.heap c).fd) [ none ↦ ok s | some _ ↦ remove_entry c s ]

-- `fillActiveChannels`: the loop over the rest of the array, with `numEvents` left.
unfoldable pub fill_active : List PollFd → ℕ → Poller → Exec (Poller × List ℕ)
unfolding Channel.set_active_events
fill_active [] left s = ok (s, [])
fill_active (p ∷ ps) zero s = ok (s, [])
fill_active (p ∷ ps) (suc left) s = elim (ltb 0 p.revents) [
  | false ↦ fill_active ps (suc left) s
  | true ↦ elim (s.channels p.fd) [
    | none ↦ fault assertion_failed
    | some c ↦
        fill_active ps left
          (record s { heap = store s.heap c (Channel.set_active_events p.revents (s.heap c)) })
        >>= λ r. ok (r.0, c ∷ r.1)
  ]
]

-- What `::poll` comes to: an error, or the number it returns and the `revents` that it stores.
pub data Polled : Type 0 where
  failed : Polled
  happened : ℕ → List ℕ → Polled

-- The array with the `revents` that the system stored in it.
abbrev pub with_revents : List ℕ → List PollFd → List PollFd
with_revents [] ps = ps
with_revents (r ∷ rs) [] = []
with_revents (r ∷ rs) (p ∷ ps) = record p { revents = r } ∷ with_revents rs ps

-- `poll`: the active channels. The time that it returns is always `Timestamp(0)`.
unfoldable pub poll : Polled → Poller → Exec (ℕ × Poller × List ℕ)
unfolding fill_active
poll failed s = ok (0, s, [])
poll (happened n rs) s =
    let s' = record s { pollfds = with_revents rs s.pollfds } in
    let filled = fill_active s'.pollfds n s' in
    if ltb 0 n then (filled >>= λ r. ok (0, r.0, r.1)) else ok (0, s', [])

-- `Channel::enableWriting`, `enableReading`, `disableAll` and `remove`, through `loop_`.
unfoldable pub modify : (Channel → Channel) → ℕ → Poller → Poller
modify f c s = record s { heap = store s.heap c (f (s.heap c)) }

unfoldable pub enable_writing : ℕ → Poller → Exec Poller
unfolding modify update_channel Channel.ask_writing
enable_writing c s = update_channel c (modify Channel.ask_writing c s)

unfoldable pub enable_reading : ℕ → Poller → Exec Poller
unfolding modify update_channel Channel.ask_reading
enable_reading c s = update_channel c (modify Channel.ask_reading c s)

unfoldable pub disable_all : ℕ → Poller → Exec Poller
unfolding modify update_channel Channel.ask_nothing
disable_all c s = update_channel c (modify Channel.ask_nothing c s)
