-- ===== src/EventLoop/Pending.antt =====
-- `doPendingFunctors`: each functor once, in order, and nothing that they queue is left unannounced.
use cevent_loop.Prelude.{
  ◌⊎◌, Bool-cases, inl, inr, ◌≡◌, ◌≢◌, refl, ap, sym, ◌∙◌, Bool, true, false, List, [], ◌∷◌, ◌++◌,
  append-nil, append_assoc, if◌then◌else◌, not, ◌||◌,
}
use mathlib.Core.Path.{ap₂}
use cevent_loop.EventLoop.{
  Request, queue, request_quit, Program, EventLoop, serve, run_functor, run_functors,
  do_pending_functors, queue_in_loop, quit, take_pending,
}

-- The functors among some requests, in order.
unfoldable pub queued : {T : Type 0} → List (Request T) → List T
queued [] = []
queued (queue t ∷ rs) = t ∷ queued rs
queued (request_quit ∷ rs) = queued rs

module _ (P : Program) where
  open P use {event_fd, T, W, perform}

  -- What some functors do to the program when they run one after the other, and what they queue.
  pub effects : List T → W → W
  effects [] w = w
  effects (t ∷ ts) w = effects ts (perform t w).0

  pub posts : List T → W → List T
  unfolding queued
  posts [] w = []
  posts (t ∷ ts) w = queued (perform t w).1 ++ posts ts (perform t w).0

  -- A loop with functors left over can be woken.
  abbrev pub Announced : EventLoop P → Type 0
  Announced s = s.pending ≢ [] → event_fd.ready s.wakeup_fd ≡ true

  pub record Served (rs : List (Request T)) (s s' : EventLoop P) : Type 0 where
    pub pending_eq : s'.pending ≡ s.pending ++ queued rs
    pub world_eq : s'.world ≡ s.world
    pub calling_eq : s'.calling ≡ s.calling
    pub looping_eq : s'.looping ≡ s.looping
    pub announced : s.calling ≡ true → Announced s → Announced s'

  pub queue_in_loop_lem :
      (here : Bool) (t : T) (s : EventLoop P)
      → queue_in_loop P here t s ≡ record s {
        pending = s.pending ++ (t ∷ []);
        wakeup_fd = if not here || s.calling then event_fd.write s.wakeup_fd else s.wakeup_fd;
      }
  unfolding queue_in_loop
  queue_in_loop_lem here t s = elim (Bool-cases (not here || s.calling)) [
    | inl e ↦ rw e refl
    | inr e ↦ rw e refl
  ]

  one-Announced :
      (t : T) (s : EventLoop P) → s.calling ≡ true → Announced (queue_in_loop P true t s)
  unfolding queue_in_loop
  one-Announced t s c = rw c (λ n. event_fd.ready-write s.wakeup_fd)

  pub serve-Served : (rs : List (Request T)) (s : EventLoop P) → Served rs s (serve P rs s)
  unfolding serve queued quit
  serve-Served [] s = record {
    pending_eq = sym (append-nil s.pending);
    world_eq = refl;
    calling_eq = refl;
    looping_eq = refl;
    announced = λ c a. a;
  }
  serve-Served (queue t ∷ rs) s =
      let m = serve-Served rs (queue_in_loop P true t s) in
      let e = queue_in_loop_lem true t s in
      record {
        pending_eq =
            m.pending_eq
            ∙ (ap (λ (x : EventLoop P). x.pending ++ queued rs) e
                ∙ append_assoc s.pending (t ∷ []) (queued rs));
        world_eq = m.world_eq ∙ ap (λ (x : EventLoop P). x.world) e;
        calling_eq = m.calling_eq ∙ ap (λ (x : EventLoop P). x.calling) e;
        looping_eq = m.looping_eq ∙ ap (λ (x : EventLoop P). x.looping) e;
        announced =
            λ c a. m.announced (ap (λ (x : EventLoop P). x.calling) e ∙ c) (one-Announced t s c);
      }
  serve-Served (request_quit ∷ rs) s =
      let m = serve-Served rs (quit P true s) in
      record {
        pending_eq = m.pending_eq;
        world_eq = m.world_eq;
        calling_eq = m.calling_eq;
        looping_eq = m.looping_eq;
        announced = m.announced;
      }

  -- What a run of some functors in the loop's thread leaves.
  pub record Ran (ts : List T) (s s' : EventLoop P) : Type 0 where
    pub pending_eq : s'.pending ≡ s.pending ++ posts ts s.world
    pub world_eq : s'.world ≡ effects ts s.world
    pub calling_eq : s'.calling ≡ s.calling
    pub announced : s.calling ≡ true → Announced s → Announced s'

  pub run_functors-Ran : (ts : List T) (s : EventLoop P) → Ran ts s (run_functors P ts s)
  unfolding run_functors run_functor posts effects
  run_functors-Ran [] s = record {
    pending_eq = sym (append-nil s.pending);
    world_eq = refl;
    calling_eq = refl;
    announced = λ c a. a;
  }
  run_functors-Ran (t ∷ ts) s =
      let (w, rs) = perform t s.world in
      let one = serve-Served rs (record s { world = w }) in
      let m = run_functors-Ran ts (run_functor P t s) in
      record {
        pending_eq =
            m.pending_eq
            ∙ (ap₂ (λ p v. p ++ posts ts v) one.pending_eq one.world_eq
                ∙ append_assoc s.pending (queued rs) (posts ts w));
        world_eq = m.world_eq ∙ ap (effects ts) one.world_eq;
        calling_eq = m.calling_eq ∙ one.calling_eq;
        announced = λ c a. m.announced (one.calling_eq ∙ c) (one.announced c a);
      }

  -- `Announced` by cases.
  pub Announced-cases :
      (s : EventLoop P) → Announced s → (s.pending ≡ []) ⊎ (event_fd.ready s.wakeup_fd ≡ true)
  Announced-cases s a = by_list s.pending refl
    where
      by_list :
          (ts : List T) → s.pending ≡ ts → (s.pending ≡ []) ⊎ (event_fd.ready s.wakeup_fd ≡ true)
      by_list [] e = inl e
      by_list (t ∷ ts) e = inr (a (λ n. let none_left : t ∷ ts ≡ [] = sym e ∙ n in cc none_left))

  -- `doPendingFunctors` runs the functors that were pending, each once and in the order they were
  -- queued; what they queue is pending afterwards, in order, and if that is anything the wakeup
  -- descriptor is readable.
  pub do_pending_functors_lem :
      (s : EventLoop P)
      → let s' = do_pending_functors P s in
        (s'.world ≡ effects s.pending s.world)
        × (s'.pending ≡ posts s.pending s.world)
        × ((s'.pending ≡ []) ⊎ (event_fd.ready s'.wakeup_fd ≡ true))
        × (s'.calling ≡ false)
  unfolding do_pending_functors
  do_pending_functors_lem s =
      let m = run_functors-Ran s.pending (take_pending P s) in
      (
        m.world_eq,
        m.pending_eq,
        Announced-cases (do_pending_functors P s) (m.announced refl (λ n. absurd (n refl))),
        refl,
      )
