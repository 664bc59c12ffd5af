-- ===== src/EventLoop/Tests.antt =====
-- A program whose functor `suc n` queues `n`, and counts what ran.
use cevent_loop.Prelude.{
  ℕ, zero, suc, ◌+◌, ◌<◌, ◌≡◌, ◌⊎◌, refl, Bool, true, false, List, [], ◌∷◌, ◌++◌, ok,
}
use cevent_loop.EventLoop.{
  handle_all, EventFd, Event, Request, queue, request_quit, Program, EventLoop, queue_in_loop,
  do_pending_functors, loop, handled, woken, handle, serve, run_functors, run_functor, quit,
}
use cevent_loop.EventLoop.Pending.{effects}
use cevent_loop.EventLoop.Rounds.{event_effects, event_posts, quits}
use cevent_loop.EventLoop.Looping.{Looped, spec_loop, view, loop_refines}
use cevent_loop.EventLoop.Ending.{loop_ends}
use cevent_loop.EventLoop.Threads.{
  checking, polling, System, other_queues, enters, Reach, here, next, IsStart,
}
use cevent_loop.EventLoop.Invariant.{no_lost_wakeup, none_lost, waiting}

-- An eventfd as its counter.
abbrev counter : EventFd
counter = record {
  Fd = ℕ;
  write = λ n. suc n;
  read = λ n. 0;
  ready = λ n. elim n [ zero ↦ false | suc m ↦ true ];
  ready-write = λ n. refl;
}

abbrev asks : ℕ → List (Request ℕ)
asks zero = request_quit ∷ []
asks (suc n) = queue n ∷ []

abbrev countdown : Program
countdown = record { event_fd = counter; T = ℕ; W = ℕ; perform = λ t w. (w + 1, asks t) }

abbrev idle : EventLoop countdown
idle = record {
  quit_flag = false;
  looping = true;
  calling = false;
  pending = [];
  wakeup_fd = 0;
  world = 0;
}

-- Three rounds: one functor each, of which the last one quits.
count_down_two :
    loop countdown
      ((handled (λ w. (w, queue 2 ∷ [])) ∷ []) ∷ (woken ∷ []) ∷ (woken ∷ []) ∷ [])
      (record idle { looping = false })
    ≡ ok (true, record idle { quit_flag = true; looping = false; world = 3 })
unfolding loop do_pending_functors handle_all handle serve run_functors run_functor queue_in_loop
    quit
count_down_two = refl

abbrev start : System countdown
start = record { loop = idle; phase = checking; quitting = 0; posted = []; ran = [] }

start-IsStart : IsStart countdown start
start-IsStart = record {
  at_check = refl;
  none_pending = refl;
  not_calling = refl;
  none_posted = refl;
  none_ran = refl;
}

-- The loop goes into `poll`, and another thread queues 5.
abbrev queued_while_polling : System countdown
queued_while_polling = record start {
  loop = queue_in_loop countdown false 5 idle;
  phase = polling;
  posted = 5 ∷ [];
}

reached : Reach countdown start queued_while_polling
reached = next (next here (enters refl refl refl)) (other_queues 5 refl)

no_lost_wakeup_example :
    ((queued_while_polling.loop.pending ≡ [])
      ⊎ (counter.ready queued_while_polling.loop.wakeup_fd ≡ true))
    × ((queued_while_polling.loop.quit_flag ≡ false)
        ⊎ ((counter.ready queued_while_polling.loop.wakeup_fd ≡ true) ⊎ (0 < 0)))
no_lost_wakeup_example = no_lost_wakeup countdown start-IsStart reached refl

none_lost_example :
    queued_while_polling.posted
    ≡ queued_while_polling.ran
      ++ (waiting countdown queued_while_polling.phase ++ queued_while_polling.loop.pending)
none_lost_example = none_lost countdown start-IsStart reached

abbrev still : EventLoop countdown
still = record idle { looping = false; pending = 1 ∷ []; wakeup_fd = 1 }

abbrev schedule : List (List (Event countdown))
schedule = (woken ∷ []) ∷ [] ∷ (woken ∷ []) ∷ []

loop_refines_example :
    (done : Bool) × (s' : EventLoop countdown) × (loop countdown schedule still ≡ ok (done, s'))
    × Looped countdown (spec_loop countdown schedule (view countdown still)) done still s'
loop_refines_example = loop_refines countdown schedule still refl

abbrev told : EventLoop countdown
told = record still { pending = 5 ∷ 0 ∷ 3 ∷ [] }

zero_quits : (w : ℕ) → quits (countdown.perform 0 w).1 ≡ true
unfolding quits
zero_quits w = refl

loop_ends_example :
    (s' : EventLoop countdown) × (loop countdown ([] ∷ schedule) told ≡ ok (true, s'))
    × (s'.looping ≡ false)
    × (s'.world
        ≡ effects countdown (5 ∷ 0 ∷ 3 ∷ event_posts countdown [] 0) (event_effects countdown [] 0))
loop_ends_example =
    loop_ends countdown 0 (5 ∷ []) (3 ∷ []) [] schedule told refl refl refl zero_quits
