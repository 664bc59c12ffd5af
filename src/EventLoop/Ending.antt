-- ===== src/EventLoop/Ending.antt =====
-- When `loop` returns.
use cevent_loop.Prelude.{
  ◌≡◌, refl, ap, ◌∙◌, Bool, true, false, not, ◌||◌, List, [], ◌∷◌, ◌++◌, if◌then◌else◌, ok,
  append_assoc,
}
use cevent_loop.EventLoop.{Program, EventLoop, Event, loop}
use cevent_loop.EventLoop.Pending.{effects}
use cevent_loop.EventLoop.Rounds.{
  functors_quit, event_effects, event_posts, events_quit, functors_quit-some, quits, or-true,
}
use cevent_loop.EventLoop.Looping.{View, view, spec_round, spec_loop, loop_refines}

if_true {ℓ} : {A : Type ℓ} (b : Bool) (x y : A) → b ≡ true → (if b then x else y) ≡ x
if_true b x y e = rw e refl

if_false {ℓ} : {A : Type ℓ} (b : Bool) (x y : A) → b ≡ false → (if b then x else y) ≡ y
if_false b x y e = rw e refl

module _ (P : Program) where
  open P use {event_fd, T, W, perform}

  spec_loop-asked :
      (schedule : List (List (Event P))) (v : View P)
      → v.asked ≡ true
      → spec_loop P schedule v ≡ (true, v)
  unfolding spec_loop
  spec_loop-asked [] v e = ap (λ b. (b, v)) e
  spec_loop-asked (es ∷ more) v e = if_true v.asked _ _ e

  spec_loop-last :
      (es : List (Event P)) (after : List (List (Event P))) (v : View P)
      → v.asked ≡ false
      → (spec_round P es v).asked ≡ true
      → spec_loop P (es ∷ after) v ≡ (true, spec_round P es v)
  unfolding spec_loop
  spec_loop-last es after v on told =
      if_false v.asked _ _ on ∙ spec_loop-asked after (spec_round P es v) told

  -- A functor that waits and quits the loop, as `stop` of a server queues one, and a loop that does not run
  -- yet and was not asked to quit before: `loop` returns after its first round, whatever `poll` brings
  -- then and would bring later, and has run every functor that waited.
  pub loop_ends :
      (t : T) (before behind : List T) (es : List (Event P)) (after : List (List (Event P)))
      (s : EventLoop P)
      → s.looping ≡ false
      → s.quit_flag ≡ false
      → s.pending ≡ before ++ (t ∷ behind)
      → ((w : W) → quits (perform t w).1 ≡ true)
      → (s' : EventLoop P) × (loop P (es ∷ after) s ≡ ok (true, s'))
        × (s'.looping ≡ false)
        × (s'.world
            ≡ effects P
                (before ++ (t ∷ (behind ++ event_posts P es s.world)))
                (event_effects P es s.world))
  unfolding spec_round
  loop_ends t before behind es after s still on waits asks =
      let (done, s', e, m) = loop_refines P (es ∷ after) s still in
      let w = event_effects P es s.world in
      let order =
        ap (λ ts. ts ++ event_posts P es s.world) waits
        ∙ append_assoc before (t ∷ behind) (event_posts P es s.world) in
      let quits_now =
        ap (λ ts. functors_quit P ts w) order
        ∙ functors_quit-some P t before (behind ++ event_posts P es s.world) w asks in
      let told =
        ap (λ b. (s.quit_flag || events_quit P es s.world) || b) quits_now
        ∙ or-true (s.quit_flag || events_quit P es s.world) in
      let last = spec_loop-last es after (view P s) on told in
      (
        s',
        e ∙ ap (λ b. ok (b, s')) (m.done_is ∙ ap (λ (x : Bool × View P). x.0) last),
        m.stopped ∙ ap (λ (x : Bool × View P). not x.0) last,
        ap (λ (v : View P). v.world) (m.viewed ∙ ap (λ (x : Bool × View P). x.1) last)
            ∙ ap (λ ts. effects P ts w) order,
      )
