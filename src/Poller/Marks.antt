-- ===== src/Poller/Marks.antt =====
-- No call on the poller but `poll` sets the events of a channel that `handleEvent` reads.
use cevent_loop.Prelude.{
  ℕ, ◌-◌, ◌==◌, ◌≡◌, refl, sym, ap, ◌∙◌, Bool-cases, inl, inr, none, some, length, ok, Exec-cases,
}
use cevent_loop.Prelude.Int.{is_negative}
use cevent_loop.Prelude.Maps.{store, put, store_cases}
use cevent_loop.Channel.{Channel, set_index, ask_writing, ask_reading, ask_nothing}
use cevent_loop.Poller.{
  Poller, PollFd, modify, position, at, pointer, restored, add_channel, update_channel, fill_hole,
  remove_entry, remove_channel, enable_writing, enable_reading, disable_all,
}

ok-injective : {A : Type 0} {a b : A} → ok a ≡ ok b → a ≡ b
ok-injective e = cc

-- The same events in every channel.
abbrev pub SameMarks : Poller → Poller → Type 0
SameMarks s s' = (d : ℕ) → (s'.heap d).active_events ≡ (s.heap d).active_events

marks_of : ℕ → Poller → ℕ
marks_of d s = (s.heap d).active_events

store-marks :
    (heap : ℕ → Channel) (c d : ℕ) (x : Channel)
    → x.active_events ≡ (heap c).active_events
    → (store heap c x d).active_events ≡ (heap d).active_events
store-marks heap c d x e = elim (store_cases heap c d x) [
  | inl (same, w) ↦ rw (w, ← same) e
  | inr (n, w) ↦ rw w refl
]

update_channel-marks : (c : ℕ) (s s' : Poller) → update_channel c s ≡ ok s' → SameMarks s s'
unfolding update_channel add_channel set_index marks_of
update_channel-marks c s s' e d = elim (Bool-cases (is_negative (s.heap c).index)) [
  | inl unindexed ↦
      ap (marks_of d) (sym (ok-injective (rw unindexed at e))) ∙ store-marks s.heap c d _ refl
  | inr indexed ↦ elim (Exec-cases (position (s.heap c).index s)) [
    | inl (i, found) ↦ ap (marks_of d) (sym (ok-injective (rw (indexed, found) at e)))
    | inr (x, missing) ↦ absurd (cc (rw (indexed, missing) at e))
  ]
]

modify-marks :
    (f : Channel → Channel) (c : ℕ) (s : Poller)
    → ((x : Channel) → (f x).active_events ≡ x.active_events)
    → SameMarks s (modify f c s)
unfolding modify
modify-marks f c s same d = store-marks s.heap c d (f (s.heap c)) (same (s.heap c))

asks-marks :
    (f : Channel → Channel) (c : ℕ) (s s' : Poller)
    → ((x : Channel) → (f x).active_events ≡ x.active_events)
    → update_channel c (modify f c s) ≡ ok s'
    → SameMarks s s'
asks-marks f c s s' same e d =
    update_channel-marks c (modify f c s) s' e d ∙ modify-marks f c s same d

fill_hole-marks :
    (i : ℕ) (here : PollFd) (s s' : Poller) → fill_hole i here s ≡ ok s' → SameMarks s s'
unfolding fill_hole set_index marks_of
fill_hole-marks i here s s' e d = elim (Exec-cases (at s.pollfds (length s.pollfds - 1))) [
  | inl (last, found) ↦ elim (Exec-cases (pointer (s.channels (restored last.fd)))) [
    | inl (moved, there) ↦
        ap (marks_of d) (sym (ok-injective (rw (found, there) at e)))
        ∙ store-marks s.heap moved d _ refl
    | inr (x, missing) ↦ absurd (cc (rw (found, missing) at e))
  ]
  | inr (x, missing) ↦ absurd (cc (rw missing at e))
]

remove_entry-marks : (c : ℕ) (s s' : Poller) → remove_entry c s ≡ ok s' → SameMarks s s'
unfolding remove_entry marks_of
remove_entry-marks c s s' e d = elim (Exec-cases (position (s.heap c).index s)) [
  | inl (i, found) ↦ elim (Exec-cases (at s.pollfds i)) [
    | inl (here, there) ↦ elim (Bool-cases (i == length s.pollfds - 1)) [
      | inl last ↦ ap (marks_of d) (sym (ok-injective (rw (found, there, last) at e)))
      | inr inner ↦
          fill_hole-marks i here (record s { channels = put s.channels here.fd none }) s'
            (rw (found, there, inner) at e) d
    ]
    | inr (x, missing) ↦ absurd (cc (rw (found, missing) at e))
  ]
  | inr (x, missing) ↦ absurd (cc (rw missing at e))
]

remove_channel-marks : (c : ℕ) (s s' : Poller) → remove_channel c s ≡ ok s' → SameMarks s s'
unfolding remove_channel marks_of
remove_channel-marks c s s' e =
    elim (s.channels (s.heap c).fd) as (λ m. s.channels (s.heap c).fd ≡ m → SameMarks s s') [
      | none ↦ λ at_key d. ap (marks_of d) (sym (ok-injective (rw (at_key, remove_channel) at e)))
      | some x ↦ λ at_key. remove_entry-marks c s s' (rw (at_key, remove_channel) at e)
    ]
      refl

-- What a callback calls on the poller sets the events of no channel.
pub calls-marks :
    (c : ℕ) (s s' : Poller)
    → (enable_reading c s ≡ ok s' → SameMarks s s')
      × (enable_writing c s ≡ ok s' → SameMarks s s')
      × (disable_all c s ≡ ok s' → SameMarks s s')
      × (remove_channel c s ≡ ok s' → SameMarks s s')
unfolding enable_reading enable_writing disable_all ask_reading ask_writing ask_nothing
calls-marks c s s' = (
  asks-marks ask_reading c s s' (λ x. refl),
  asks-marks ask_writing c s s' (λ x. refl),
  asks-marks ask_nothing c s s' (λ x. refl),
  remove_channel-marks c s s',
)
