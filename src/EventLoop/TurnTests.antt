-- ===== src/EventLoop/TurnTests.antt =====
-- A turn in which the callback of one channel removes the other one, which has events too.
use cevent_loop.Prelude.{
  ℕ, ◌≡◌, refl, ◌∙◌, ap, sym, none, some, List, [], ◌∷◌, ◌++◌, ok, ◌>>=◌, Exec-cases, inl, inr,
  ◌==◌, if◌then◌else◌, Bool-cases,
}
use cevent_loop.Prelude.Int.{same}
use cevent_loop.Channel.{Callbacks, handle_event, set_active_events, set_index}
use cevent_loop.Poller.{
  remove_channel, remove_entry, happened, poll, fill_active, modify, add_channel,
}
use cevent_loop.Poller.Marks.{calls-marks}
use cevent_loop.Poller.Active.{hot}
use cevent_loop.Poller.Poll.{polled}
use cevent_loop.Poller.Fixture.{two_channels, two_channels-IsValid}
use cevent_loop.EventLoop.Turn.{
  Reactor, Handler, poll_and_handle, handle_channels, handle_channel, cleared, spec_turn, due,
  mark_all,
}
use cevent_loop.EventLoop.Handlers.{KeepsMarks, Gentle}
use cevent_loop.EventLoop.Dispatching.{poll_and_handle_lem}

-- The world is what was called.
abbrev removes_other : Handler (List ℕ)
removes_other s = do
  q ← remove_channel 2 s.poller
  ok (record s { poller = q; world = s.world ++ (1 ∷ []) })

abbrev notes : ℕ → Handler (List ℕ)
notes c s = ok (record s { world = s.world ++ (c ∷ []) })

abbrev callbacks : ℕ → Callbacks (Reactor (List ℕ))
callbacks c = record {
  close = none;
  error = none;
  read = some (λ time. if c == 1 then removes_other else notes c);
  write = some (notes 10);
}

ok-world : {W : Type 0} {s t : Reactor W} → ok s ≡ ok t → s ≡ t
ok-world e = cc

removes_other-KeepsMarks : KeepsMarks removes_other
removes_other-KeepsMarks s s' e c = elim (Exec-cases (remove_channel 2 s.poller)) [
  | inl (q, ran) ↦
      ap (λ (t : Reactor (List ℕ)). (t.poller.heap c).active_events) (sym (ok-world (rw ran at e)))
      ∙ (let (reading, writing, nothing, removing) = calls-marks 2 s.poller q in removing ran c)
  | inr (x, ran) ↦ absurd (cc (rw ran at e))
]

notes-KeepsMarks : (n : ℕ) → KeepsMarks (notes n)
notes-KeepsMarks n s s' e c =
    ap (λ (t : Reactor (List ℕ)). (t.poller.heap c).active_events) (sym (ok-world e))

callbacks-Gentle : (c : ℕ) → Gentle (callbacks c)
callbacks-Gentle c = record {
  close_keeps = tt;
  error_keeps = tt;
  read_keeps = λ time. elim (Bool-cases (c == 1)) [
    | inl one ↦ rw one removes_other-KeepsMarks
    | inr other ↦ rw other (notes-KeepsMarks c)
  ];
  write_keeps = notes-KeepsMarks 10;
}

abbrev start : Reactor (List ℕ)
start = record { poller = two_channels; world = [] }

-- Both are called, though the first one has removed the second.
both_called :
    (poll_and_handle callbacks (happened 2 (1 ∷ 5 ∷ [])) start >>= λ s. ok s.world)
    ≡ ok (1 ∷ 2 ∷ 10 ∷ [])
unfolding poll_and_handle poll fill_active handle_channels handle_channel handle_event cleared
    modify set_active_events remove_channel remove_entry add_channel set_index same
both_called = refl

poll_and_handle_lem_example :
    poll_and_handle callbacks (happened 2 (1 ∷ 5 ∷ [])) start
    ≡ spec_turn callbacks 0 ((1, 1) ∷ (2, 5) ∷ []) (record start {
      poller = mark_all ((1, 1) ∷ (2, 5) ∷ []) (polled (1 ∷ 5 ∷ []) two_channels);
    })
unfolding hot add_channel due set_index same
poll_and_handle_lem_example =
    poll_and_handle_lem callbacks 2 (1 ∷ 5 ∷ []) start two_channels-IsValid callbacks-Gentle refl
