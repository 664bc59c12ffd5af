-- ===== src/EventLoop/Invariant.antt =====
-- No interleaving loses a functor or a wakeup.
use cevent_loop.Prelude.{
  ℕ, ◌+◌, ◌<◌, ◌≡◌, ◌⊎◌, inl, inr, refl, sym, ◌∙◌, Bool, true, false, List, [], ◌∷◌, ◌++◌, arith,
  append_assoc, append-nil,
}
use mathlib.Core.Path.{subst}
use cevent_loop.EventLoop.{
  Request, Program, EventLoop, queue_in_loop, wakeup, handle_read, handle, handled, take_pending,
  end_pending, run_functor,
}
use cevent_loop.EventLoop.Pending.{
  Announced-cases, queued, Announced, queue_in_loop_lem, serve-Served,
}
use cevent_loop.EventLoop.Threads.{
  Phase, checking, polling, handling, stopped, draining, System, Step, other_queues, other_quits,
  other_wakes, enters, leaves, polls, wakes, handles, swaps, runs, drained, Reach, here, next,
  IsStart,
}

module _ (P : Program) where
  open P use {event_fd, T, W, perform}

  -- What holds at each place of the loop's thread.
  abbrev Good : Phase T → EventLoop P → ℕ → Type 0
  Good checking l n = Announced P l × (l.calling ≡ false)
  Good polling l n =
      Announced P l
      × (l.calling ≡ false)
      × (l.quit_flag ≡ true → (event_fd.ready l.wakeup_fd ≡ true) ⊎ (0 < n))
  Good handling l n = l.calling ≡ false
  Good stopped l n = Unit
  Good (draining ts) l n = Announced P l × (l.calling ≡ true)

  -- The functors that the loop's thread has taken and not yet run.
  abbrev pub waiting : Phase T → List T
  waiting (draining ts) = ts
  waiting checking = []
  waiting polling = []
  waiting handling = []
  waiting stopped = []

  record Inv (s : System P) : Type 0 where
    good : Good s.phase s.loop s.quitting
    ledger : s.posted ≡ s.ran ++ (waiting s.phase ++ s.loop.pending)

  -- A wakeup is good at every place.
  ready-Good :
      (ph : Phase T) (l l' : EventLoop P) (n m : ℕ)
      → event_fd.ready l'.wakeup_fd ≡ true
      → l'.calling ≡ l.calling
      → Good ph l n
      → Good ph l' m
  ready-Good checking l l' n m r c g = (λ _. r, c ∙ g.1)
  ready-Good polling l l' n m r c g = (λ _. r, c ∙ g.1, λ _. inl r)
  ready-Good handling l l' n m r c g = c ∙ g
  ready-Good stopped l l' n m r c g = tt
  ready-Good (draining ts) l l' n m r c g = (λ _. r, c ∙ g.1)

  flag-Good :
      (ph : Phase T) (l : EventLoop P) (n : ℕ)
      → Good ph l n
      → Good ph (record l { quit_flag = true }) (n + 1)
  flag-Good checking l n g = g
  flag-Good polling l n g = (g.0, g.1, λ _. inr (omega arith))
  flag-Good handling l n g = g
  flag-Good stopped l n g = tt
  flag-Good (draining ts) l n g = g

  -- The ledger when functors are queued at the end.
  post_ledger :
      (posted ran taken pending new : List T)
      → posted ≡ ran ++ (taken ++ pending)
      → posted ++ new ≡ ran ++ (taken ++ (pending ++ new))
  post_ledger posted ran taken pending new e = rw e (simp append_assoc)

  module _ (s : System P) (i : Inv s) where
    Good-at : (ph : Phase T) → s.phase ≡ ph → Good ph s.loop s.quitting
    Good-at ph at = subst (λ x. Good x s.loop s.quitting) at i.good

    ledger_at : (ph : Phase T) → s.phase ≡ ph → s.posted ≡ s.ran ++ (waiting ph ++ s.loop.pending)
    ledger_at ph at = subst (λ x. s.posted ≡ s.ran ++ (waiting x ++ s.loop.pending)) at i.ledger

    queues_Inv :
        (t : T)
        → Inv (record s { loop = queue_in_loop P false t s.loop; posted = s.posted ++ (t ∷ []) })
    queues_Inv t = rw (queue_in_loop_lem P false t s.loop) (record {
      good =
          ready-Good s.phase s.loop _ s.quitting s.quitting (event_fd.ready-write s.loop.wakeup_fd)
            refl i.good;
      ledger = post_ledger s.posted s.ran (waiting s.phase) s.loop.pending (t ∷ []) i.ledger;
    })

    wakes_Inv : (n : ℕ) → Inv (record s { loop = wakeup P s.loop; quitting = n })
    unfolding wakeup
    wakes_Inv n = record {
      good =
          ready-Good s.phase s.loop (wakeup P s.loop) s.quitting n
            (event_fd.ready-write s.loop.wakeup_fd) refl i.good;
      ledger = i.ledger;
    }

    handles_Inv :
        (f : W → W × List (Request T))
        → s.phase ≡ handling
        → Inv (record s {
          loop = handle P (handled f) s.loop;
          posted = s.posted ++ queued (f s.loop.world).1;
        })
    unfolding handle
    handles_Inv f at =
        let m =
          serve-Served P (f s.loop.world).1 (record (s.loop) { world = (f s.loop.world).0 }) in
        record {
          good =
              subst (λ x. Good x (handle P (handled f) s.loop) s.quitting) (sym at)
                (m.calling_eq ∙ Good-at handling at);
          ledger = rw m.pending_eq (
              post_ledger s.posted s.ran (waiting s.phase) s.loop.pending
                (queued (f s.loop.world).1) i.ledger);
        }

    swaps_Inv :
        s.phase ≡ handling
        → Inv (record s { phase = draining s.loop.pending; loop = take_pending P s.loop })
    unfolding take_pending
    swaps_Inv at = record {
      good = (λ n. absurd (n refl), refl);
      ledger = rw (append-nil s.loop.pending) (ledger_at handling at);
    }

    runs_Inv :
        (t : T) (ts : List T)
        → s.phase ≡ draining (t ∷ ts)
        → Inv (record s {
          phase = draining ts;
          loop = run_functor P t s.loop;
          ran = s.ran ++ (t ∷ []);
          posted = s.posted ++ queued (perform t s.loop.world).1;
        })
    unfolding run_functor
    runs_Inv t ts at =
        let (w, rs) = perform t s.loop.world in
        let m = serve-Served P rs (record (s.loop) { world = w }) in
        let g = Good-at (draining (t ∷ ts)) at in
        record {
          good = (m.announced g.1 g.0, m.calling_eq ∙ g.1);
          ledger =
              rw (m.pending_eq, append_assoc s.ran (t ∷ []) (ts ++ (s.loop.pending ++ queued rs)))
                (post_ledger s.posted s.ran (t ∷ ts) s.loop.pending (queued rs)
                  (ledger_at (draining (t ∷ ts)) at));
        }

  Step-Inv : {s s' : System P} → Step P s s' → Inv s → Inv s'
  unfolding handle_read end_pending
  Step-Inv {s} (other_queues t e) i = rw e (queues_Inv s i t)
  Step-Inv {s} (other_quits e) i =
      rw e (record { good = flag-Good s.phase s.loop s.quitting i.good; ledger = i.ledger })
  Step-Inv {s} (other_wakes n q e) i = rw e (wakes_Inv s i n)
  Step-Inv {s} (enters at f e) i =
      let g = Good-at s i checking at in
      rw e (record { good = (g.0, g.1, λ q. cc (f, q)); ledger = ledger_at s i checking at })
  Step-Inv {s} (leaves at f e) i = rw e (record { good = tt; ledger = ledger_at s i checking at })
  Step-Inv {s} (polls at e) i =
      rw e (record { good = (Good-at s i polling at).1; ledger = ledger_at s i polling at })
  Step-Inv {s} (wakes at e) i = rw e (record {
    good = subst (λ x. Good x (handle_read P s.loop) s.quitting) (sym at) (Good-at s i handling at);
    ledger = i.ledger;
  })
  Step-Inv {s} (handles f at e) i = rw e (handles_Inv s i f at)
  Step-Inv {s} (swaps at e) i = rw e (swaps_Inv s i at)
  Step-Inv {s} (runs t ts at e) i = rw e (runs_Inv s i t ts at)
  Step-Inv {s} (drained at e) i =
      let g = Good-at s i (draining []) at in
      rw e (record { good = (g.0, refl); ledger = ledger_at s i (draining []) at })

  start-Inv : {s : System P} → IsStart P s → Inv s
  start-Inv {s} b = record {
    good =
        subst (λ x. Good x s.loop s.quitting) (sym b.at_check)
          (λ n. absurd (n b.none_pending), b.not_calling);
    ledger =
        subst (λ x. s.posted ≡ s.ran ++ (waiting x ++ s.loop.pending)) (sym b.at_check)
          (rw (b.none_posted, b.none_ran, b.none_pending) refl);
  }

  Reach-Inv : {s s' : System P} → Inv s → Reach P s s' → Inv s'
  Reach-Inv i here = i
  Reach-Inv i (next r st) = Step-Inv st (Reach-Inv i r)

  flag_cases : (b : Bool) {A : Type 0} → (b ≡ true → A) → (b ≡ false) ⊎ A
  flag_cases true f = inr (f refl)
  flag_cases false f = inl refl

  -- While the loop's thread is in `poll`, after any interleaving from a start with no functor queued:
  -- if functors are pending the wakeup descriptor is readable, and if the loop was told to quit it is
  -- readable or the thread that said so is about to make it so.
  pub no_lost_wakeup :
      {s s' : System P}
      → IsStart P s
      → Reach P s s'
      → s'.phase ≡ polling
      → ((s'.loop.pending ≡ []) ⊎ (event_fd.ready s'.loop.wakeup_fd ≡ true))
        × ((s'.loop.quit_flag ≡ false)
            ⊎ ((event_fd.ready s'.loop.wakeup_fd ≡ true) ⊎ (0 < s'.quitting)))
  no_lost_wakeup {s} {s'} b r at =
      let g = Good-at s' (Reach-Inv (start-Inv b) r) polling at in
      (Announced-cases P s'.loop g.0, flag_cases s'.loop.quit_flag g.2)

  -- At every moment of any interleaving the functors that were ever queued are, in the order they were
  -- queued, those that ran, then those taken to be run next, then those pending: none is lost, run
  -- twice, or run out of turn.
  pub none_lost :
      {s s' : System P}
      → IsStart P s
      → Reach P s s'
      → s'.posted ≡ s'.ran ++ (waiting s'.phase ++ s'.loop.pending)
  none_lost b r = (Reach-Inv (start-Inv b) r).ledger
