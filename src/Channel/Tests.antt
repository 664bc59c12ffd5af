-- ===== src/Channel/Tests.antt =====
-- Channels on concrete masks.
use cevent_loop.Prelude.{ℕ, ◌+◌, ◌≡◌, refl, false, List, [], ◌∷◌, ◌++◌, ok, some}
use cevent_loop.Prelude.Int.{pos}
use cevent_loop.Prelude.Text.{codes, print_int}
use cevent_loop.Channel.{
  Channel, Callbacks, events_to_string, handle_event, pollin, pollout, pollhup, pollerr,
}

abbrev fresh : Channel
fresh = record { loop = 1; fd = pos 5; index = pos 0; events = 3; active_events = 0; tied = false }

-- Callbacks that note their name: 1 close, 2 error, 3 read, 4 write.
abbrev recorder : Callbacks (List ℕ)
recorder = record {
  close = some (λ l. ok (l ++ (1 ∷ [])));
  error = some (λ l. ok (l ++ (2 ∷ [])));
  read = some (λ t l. ok (l ++ (3 ∷ [])));
  write = some (λ l. ok (l ++ (4 ∷ [])));
}

hangup_with_input :
    handle_event recorder 0 (record fresh { active_events = pollhup + pollin }) []
    ≡ ok (3 ∷ [], fresh)
unfolding handle_event
hangup_with_input = refl

hangup_and_error :
    handle_event recorder 0 (record fresh { active_events = pollhup + pollerr + pollout }) []
    ≡ ok (1 ∷ 2 ∷ 4 ∷ [], fresh)
unfolding handle_event
hangup_and_error = refl

what_the_log_says : events_to_string (pos 5) (pollin + pollhup) ≡ codes "5: IN HUP "
unfolding events_to_string print_int
what_the_log_says = refl
