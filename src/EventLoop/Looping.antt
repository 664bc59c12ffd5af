-- ===== src/EventLoop/Looping.antt =====
-- `loop`, against its rounds on what a user of the loop sees.
use mathlib.Core.Path.{ap₂}
use cevent_loop.Prelude.{
  ◌≡◌, ◌⊎◌, inl, inr, refl, ap, ◌∙◌, Bool, true, false, not, ◌||◌, List, [], ◌∷◌, ◌++◌,
  if◌then◌else◌, ok,
}
use cevent_loop.EventLoop.{
  Program, EventLoop, Event, handle_all, do_pending_functors, take_pending, end_pending, rounds,
  loop,
}
use cevent_loop.EventLoop.Pending.{effects, posts, do_pending_functors_lem}
use cevent_loop.EventLoop.Rounds.{
  functors_quit, event_effects, event_posts, events_quit, handle_all-Handled,
  run_functors-quit_flag, run_functors-looping,
}

module _ (P : Program) where
  open P use {event_fd, T, W, perform}

  -- The functors that wait, the rest of the program, and whether someone has asked to quit.
  pub record View : Type 0 where
    pub waiting : List T
    pub world : W
    pub asked : Bool

  abbrev pub view : EventLoop P → View
  view s = record { waiting = s.pending; world = s.world; asked = s.quit_flag }

  -- A round: the callbacks of the events, then each functor that waits by then, in order. What the
  -- functors queue waits for the next round.
  unfoldable pub spec_round : List (Event P) → View → View
  spec_round es v =
      let w = event_effects P es v.world in
      let ts = v.waiting ++ event_posts P es v.world in
      record {
        waiting = posts P ts w;
        world = effects P ts w;
        asked = (v.asked || events_quit P es v.world) || functors_quit P ts w;
      }

  -- Rounds until someone has asked to quit; a round is finished first.
  unfoldable pub spec_loop : List (List (Event P)) → View → Bool × View
  spec_loop [] v = (v.asked, v)
  spec_loop (es ∷ more) v =
      let next = spec_loop more (spec_round es v) in if v.asked then (true, v) else next

  -- What `poll` would wait for is there if anything is left over.
  abbrev pub Ready : EventLoop P → Type 0
  Ready s = (s.pending ≡ []) ⊎ (event_fd.ready s.wakeup_fd ≡ true)

  -- That is so of `t`, or what waits in it and its eventfd are those of `s`.
  abbrev pub Woken : EventLoop P → EventLoop P → Type 0
  Woken s t = Ready t ⊎ ((t.pending ≡ s.pending) × (t.wakeup_fd ≡ s.wakeup_fd))

  Woken-Ready : (s t : EventLoop P) → Ready s → Woken s t → Ready t
  Woken-Ready s t r (inl k) = k
  Woken-Ready s t (inl none_left) (inr (e, f)) = inl (e ∙ none_left)
  Woken-Ready s t (inr ready) (inr (e, f)) = inr (ap event_fd.ready f ∙ ready)

  one_round : List (Event P) → EventLoop P → EventLoop P
  one_round es s = do_pending_functors P (handle_all P es s)

  view_same :
      {ts ts' : List T} {w w' : W} {q q' : Bool}
      → ts ≡ ts'
      → w ≡ w'
      → q ≡ q'
      → ◌≡◌ {A = View}
          (record { waiting = ts; world = w; asked = q })
          (record { waiting = ts'; world = w'; asked = q' })
  view_same e f g = rw (e, f, g) refl

  do_pending_functors-quit_flag :
      (s : EventLoop P)
      → (do_pending_functors P s).quit_flag ≡ s.quit_flag || functors_quit P s.pending s.world
  unfolding do_pending_functors end_pending take_pending
  do_pending_functors-quit_flag s = run_functors-quit_flag P s.pending (take_pending P s)

  do_pending_functors-looping : (s : EventLoop P) → (do_pending_functors P s).looping ≡ s.looping
  unfolding do_pending_functors end_pending take_pending
  do_pending_functors-looping s = run_functors-looping P s.pending (take_pending P s)

  one_round_lem :
      (es : List (Event P)) (s : EventLoop P)
      → (view (one_round es s) ≡ spec_round es (view s))
        × Ready (one_round es s)
        × ((one_round es s).looping ≡ s.looping)
  unfolding one_round spec_round
  one_round_lem es s =
      let h = handle_all-Handled P es s in
      let u = handle_all P es s in
      let (world, pending, ready, calm) = do_pending_functors_lem P u in
      (
        view_same (pending ∙ ap₂ (posts P) h.pending_eq h.world_eq)
            (world ∙ ap₂ (effects P) h.pending_eq h.world_eq)
            (do_pending_functors-quit_flag u
              ∙ ap₂ ◌||◌ h.quit_eq (ap₂ (functors_quit P) h.pending_eq h.world_eq)),
        ready,
        do_pending_functors-looping u ∙ h.looping_eq,
      )

  record Refined (r : Bool × EventLoop P) (v : Bool × View) (s : EventLoop P) : Type 0 where
    done : r.0 ≡ v.0
    viewed : view r.1 ≡ v.1
    woken : Woken s r.1
    still : r.1.looping ≡ s.looping

  if-Refined :
      (b : Bool) (s : EventLoop P) (r : Bool × EventLoop P) (v : Bool × View)
      → Refined (true, s) (true, view s) s
      → Refined r v s
      → Refined (if b then (true, s) else r) (if b then (true, view s) else v) s
  if-Refined true s r v told on = told
  if-Refined false s r v told on = on

  rounds-Refined :
      (schedule : List (List (Event P))) (s : EventLoop P)
      → Refined (rounds P schedule s) (spec_loop schedule (view s)) s
  unfolding rounds spec_loop one_round
  rounds-Refined [] s = record {
    done = refl;
    viewed = refl;
    woken = inr (refl, refl);
    still = refl;
  }
  rounds-Refined (es ∷ more) s =
      let (same, ready, still) = one_round_lem es s in
      let m = rounds-Refined more (one_round es s) in
      if-Refined s.quit_flag s _ _
        (record { done = refl; viewed = refl; woken = inr (refl, refl); still = refl })
        (record {
          done = m.done ∙ ap (λ v. (spec_loop more v).0) same;
          viewed = m.viewed ∙ ap (λ v. (spec_loop more v).1) same;
          woken =
              inl (Woken-Ready (one_round es s) (rounds P more (one_round es s)).1 ready m.woken);
          still = m.still ∙ still;
        })

  -- What `loop` leaves: whether it has returned and what is seen of it, as its rounds say; if it has, it
  -- is not looping. What is left over can wake the next `poll`, or waited before with the same eventfd.
  pub record Looped (v : Bool × View) (done : Bool) (s s' : EventLoop P) : Type 0 where
    pub done_is : done ≡ v.0
    pub viewed : view s' ≡ v.1
    pub stopped : s'.looping ≡ not v.0
    pub woken : Woken s s'

  ended : Bool → EventLoop P → EventLoop P
  ended done s = if done then record s { looping = false } else s

  ended-Looped :
      (r : Bool × EventLoop P) (v : Bool × View) (s : EventLoop P)
      → Refined r v (record s { looping = true })
      → Looped v r.0 s (ended r.0 r.1)
  unfolding ended
  ended-Looped (true, t) v s m = record {
    done_is = m.done;
    viewed = m.viewed;
    stopped = ap not m.done;
    woken = m.woken;
  }
  ended-Looped (false, t) v s m = record {
    done_is = m.done;
    viewed = m.viewed;
    stopped = m.still ∙ ap not m.done;
    woken = m.woken;
  }

  -- `loop` of a loop that does not run yet goes through. It does the rounds that `poll` brings events for
  -- until someone has asked to quit, before or in an event or a functor, and finishes the round in which
  -- that was: in each, the callbacks of the events and then the functors that wait by then, in order.
  -- Then no functor waits, or the eventfd is readable, or both are as they were before.
  pub loop_refines :
      (schedule : List (List (Event P))) (s : EventLoop P)
      → s.looping ≡ false
      → (done : Bool) × (s' : EventLoop P) × (loop P schedule s ≡ ok (done, s'))
        × Looped (spec_loop schedule (view s)) done s s'
  unfolding loop ended
  loop_refines schedule s still =
      let t : EventLoop P = record s { looping = true } in
      let (done, u) = rounds P schedule t in
      (
        done,
        ended done u,
        rw still refl,
        ended-Looped (rounds P schedule t) _ s (rounds-Refined schedule t),
      )
