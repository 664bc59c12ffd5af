-- ===== src/Connector/Addresses.antt =====
-- Which addresses the map of the poller leads to, through the calls on one channel.
use cevent_loop.Prelude.{
  ℕ, ◌≡◌, ◌≢◌, sym, ap, ◌∙◌, Bool-cases, inl, inr, Option, none, some, ok, Exec-cases,
}
use cevent_loop.Prelude.Int.{ℤ, is_negative}
use cevent_loop.Prelude.Maps.{put, put_cases}
use cevent_loop.Poller.{
  Poller, position, add_channel, update_channel, enable_writing, disable_all, modify,
}
use cevent_loop.Poller.Remove.{Removed}
use cevent_loop.Channel
use cevent_loop.Connector.{Connector, start_connecting}
use cevent_loop.Connector.Channels.{Unused, placed}

ok-same : {A : Type 0} {a b : A} → ok a ≡ ok b → a ≡ b
ok-same e = cc

put-Unused :
    (channels : ℤ → Option ℕ) (key fd : ℤ) (c a : ℕ)
    → c ≢ a
    → channels fd ≢ some a
    → put channels key (some c) fd ≢ some a
put-Unused channels key fd c a differ free e = elim (put_cases channels key fd (some c)) [
  | inl (same, w) ↦ differ (let one : some c ≡ some a = sym w ∙ e in cc one)
  | inr (other, w) ↦ free (sym w ∙ e)
]

update_channel-Unused :
    (c a : ℕ) (s s' : Poller) → c ≢ a → update_channel c s ≡ ok s' → Unused s a → Unused s' a
unfolding update_channel add_channel
update_channel-Unused c a s s' differ e free fd = elim (Bool-cases (is_negative (s.heap c).index)) [
  | inl unindexed ↦
      rw (← ok-same (rw unindexed at e))
        (put-Unused s.channels (s.heap c).fd fd c a differ (free fd))
  | inr indexed ↦ elim (Exec-cases (position (s.heap c).index s)) [
    | inl (i, found) ↦ rw (← ok-same (rw (indexed, found) at e)) (free fd)
    | inr (x, missing) ↦ absurd (cc (rw (indexed, missing) at e))
  ]
]

pub enable_writing-Unused :
    (c a : ℕ) (s s' : Poller) → c ≢ a → enable_writing c s ≡ ok s' → Unused s a → Unused s' a
unfolding enable_writing modify
enable_writing-Unused c a s s' differ e free =
    update_channel-Unused c a (modify Channel.ask_writing c s) s' differ e free

pub disable_all-Unused :
    (c a : ℕ) (s s' : Poller) → c ≢ a → disable_all c s ≡ ok s' → Unused s a → Unused s' a
unfolding disable_all modify
disable_all-Unused c a s s' differ e free =
    update_channel-Unused c a (modify Channel.ask_nothing c s) s' differ e free

pub Removed-Unused : (c a : ℕ) (s s' : Poller) → Removed s c s' → Unused s a → Unused s' a
Removed-Unused c a s s' k free fd e = elim (put_cases s.channels (s.heap c).fd fd none) [
  | inl (same, w) ↦ (let no : none ≡ some a = sym w ∙ sym (k.channels_of fd) ∙ e in cc no)
  | inr (other, w) ↦ free fd (sym w ∙ sym (k.channels_of fd) ∙ e)
]

pub start_connecting-Unused :
    {W : Type 0} (loop c stale_events stale_active a : ℕ) (fd : ℤ) (s s' : Connector W)
    → c ≢ a
    → start_connecting loop c stale_events stale_active fd s ≡ ok s'
    → Unused s.poller a
    → Unused s'.poller a
unfolding start_connecting
start_connecting-Unused {W} loop c stale_events stale_active a fd s s' differ e free =
    let q = placed s.poller c (Channel.new loop fd stale_events stale_active) in
    elim (Exec-cases (enable_writing c q)) [
      | inl (p, ran) ↦
          rw (ap (λ (t : Connector W). t.poller) (sym (ok-same (rw ran at e))))
            (enable_writing-Unused c a q p differ ran free)
      | inr (x, ran) ↦ absurd (cc (rw ran at e))
    ]
