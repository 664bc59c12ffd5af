-- ===== src/EventLoop/Lifetime.antt =====
-- CEventLoop/EventLoop.cc: the constructor and the destructor with the pointer that each thread has, the
-- eventfd's channel, and the calls that go on to the poller.
use mathlib.Core.Path.{subst}
use cevent_loop.Prelude.{
  ℕ, ◌≡◌, refl, ap, ◌∙◌, Bool, false, Option, none, some, [], inl, if◌then◌else◌, Exec, ok, fault,
  ◌>>=◌, ◌==◌, assertion_failed, aborted, not_in_loop_thread,
}
use cevent_loop.Prelude.Int.{ℤ, is_negative}
use cevent_loop.Prelude.Maps.{store, store_self}
use cevent_loop.Channel
use cevent_loop.Channel.{Channel, ask_reading}
use cevent_loop.Poller.{Poller, entry, enable_reading, update_channel, remove_channel}
use cevent_loop.Poller.Valid.{Registered, IsValid}
use cevent_loop.Poller.Update.{IsFresh}
use cevent_loop.Poller.Interest.{interest-Reaches}

-- `Poller(this)`, over the objects that there are.
unfoldable pub new_poller : (ℕ → Channel) → Poller
new_poller heap = record { pollfds = []; channels = λ fd. none; heap = heap }

-- `createWakeupEventFd`, with what `eventfd` returns.
unfoldable pub create_wakeup_event_fd : ℤ → Exec ℤ
create_wakeup_event_fd fd = if is_negative fd then fault aborted else ok fd

-- The constructor of the loop at an address, with that of its wakeup channel and what the memory of the
-- channel held: the poller, and `t_loopInThisThread`. A loop that the thread had before is only logged.
unfoldable pub construct : ℕ → ℕ → ℕ → ℕ → ℤ → (ℕ → Channel) → Option ℕ → Exec (Poller × Option ℕ)
unfolding new_poller create_wakeup_event_fd enable_reading Channel.new
construct loop address stale_events stale_active eventfd heap current = do
  fd ← create_wakeup_event_fd eventfd
  p ←
      enable_reading address
        (new_poller (store heap address (Channel.new loop fd stale_events stale_active)))
  ok (p, some loop)

-- `~EventLoop`
unfoldable pub destruct : Bool → Option ℕ → Exec (Option ℕ)
destruct looping current = if looping then fault assertion_failed else ok none

-- `getEventLoopOfCurrentThread`
abbrev pub get_event_loop_of_current_thread : Option ℕ → Option ℕ
get_event_loop_of_current_thread current = current

-- `updateChannel` and `removeChannel` of a loop; `this` is its address.
unfoldable pub update_channel_in_loop : Bool → ℕ → Poller → Exec Poller
unfolding update_channel
update_channel_in_loop here c p = if here then update_channel c p else fault not_in_loop_thread

unfoldable pub remove_channel_in_loop : Bool → ℕ → ℕ → Poller → Exec Poller
unfolding remove_channel
remove_channel_in_loop here this c p =
    if (p.heap c).loop == this
    then (if here then remove_channel c p else fault not_in_loop_thread)
    else fault assertion_failed

nothing-IsValid : (heap : ℕ → Channel) → IsValid (new_poller heap)
unfolding new_poller
nothing-IsValid heap = record { entries = λ i p e. cc e; owners = λ fd c e. cc e }

-- Where `eventfd` gives a descriptor, the constructor goes through: the thread has this loop, whatever it
-- had before, and the poller is consistent and polls that descriptor for what its channel asks for
-- after `enableReading`.
construct_lem :
    (loop address stale_events stale_active : ℕ) (fd : ℤ) (heap : ℕ → Channel) (current : Option ℕ)
    → is_negative fd ≡ false
    → (p : Poller) × (construct loop address stale_events stale_active fd heap current
        ≡ ok (p, some loop))
      × IsValid p
      × ((i : ℕ) × Registered p address i
            (entry (ask_reading (Channel.new loop fd stale_events stale_active))))
unfolding construct create_wakeup_event_fd Channel.new new_poller ask_reading
construct_lem loop address stale_events stale_active fd heap current opened =
    let c : Channel = Channel.new loop fd stale_events stale_active in
    let q = new_poller (store heap address c) in
    let here : q.heap address ≡ c = store_self heap address c in
    let fresh : IsFresh q address = record {
      unindexed = ap (λ (x : Channel). is_negative x.index) here;
      opened = ap (λ (x : Channel). is_negative x.fd) here ∙ opened;
      unmapped = refl;
    } in
    let (p, e, v, (i, r)) =
      (interest-Reaches q address (nothing-IsValid (store heap address c)) (inl fresh)).0 in
    (
      p,
      rw opened (ap (λ m. m >>= λ p'. ok (p', some loop)) e),
      v,
      (i, subst (λ (x : Channel). Registered p address i (entry (ask_reading x))) here r),
    )
