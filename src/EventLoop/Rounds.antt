-- ===== src/EventLoop/Rounds.antt =====
-- The rounds of the loop, without its flags and its eventfd: the functors that wait, the rest of the
-- program, and whether someone has asked to quit.
use mathlib.Core.Path.{ap₂}
use cevent_loop.Prelude.{
  ◌≡◌, refl, ap, sym, ◌∙◌, Bool, true, false, List, [], ◌∷◌, ◌++◌, append-nil, append_assoc, ◌||◌,
}
use cevent_loop.EventLoop.{
  Request, queue, request_quit, Program, EventLoop, Event, woken, handled, serve, run_functor,
  run_functors, handle, handle_all, handle_read, queue_in_loop, quit,
}
use cevent_loop.EventLoop.Pending.{queued, queue_in_loop_lem, serve-Served}

-- Whether some requests ask to quit.
unfoldable pub quits : {T : Type 0} → List (Request T) → Bool
quits [] = false
quits (queue t ∷ rs) = quits rs
quits (request_quit ∷ rs) = true

or-false : (a : Bool) → a || false ≡ a
or-false true = refl
or-false false = refl

or_assoc : (a b c : Bool) → (a || b) || c ≡ a || (b || c)
or_assoc true b c = refl
or_assoc false b c = refl

pub or-true : (a : Bool) → a || true ≡ true
or-true true = refl
or-true false = refl

module _ (P : Program) where
  open P use {event_fd, T, W, perform}

  -- Whether some functors that run one after the other ask to quit.
  unfoldable pub functors_quit : List T → W → Bool
  functors_quit [] w = false
  functors_quit (t ∷ ts) w = quits (perform t w).1 || functors_quit ts (perform t w).0

  -- What the callbacks of an event do and ask for.
  abbrev pub answer : Event P → W → W × List (Request T)
  answer woken w = (w, [])
  answer (handled f) w = f w

  unfoldable pub event_effects : List (Event P) → W → W
  event_effects [] w = w
  event_effects (e ∷ es) w = event_effects es (answer e w).0

  unfoldable pub event_posts : List (Event P) → W → List T
  event_posts [] w = []
  event_posts (e ∷ es) w = queued (answer e w).1 ++ event_posts es (answer e w).0

  unfoldable pub events_quit : List (Event P) → W → Bool
  events_quit [] w = false
  events_quit (e ∷ es) w = quits (answer e w).1 || events_quit es (answer e w).0

  -- One functor that always asks is enough.
  pub functors_quit-some :
      (t : T) (before behind : List T) (w : W)
      → ((v : W) → quits (perform t v).1 ≡ true)
      → functors_quit (before ++ (t ∷ behind)) w ≡ true
  unfolding functors_quit
  functors_quit-some t [] behind w asks = rw (asks w) refl
  functors_quit-some t (u ∷ before) behind w asks =
      let rest = functors_quit-some t before behind (perform u w).0 asks in
      rw rest (or-true (quits (perform u w).1))

  serve-quit_flag :
      (rs : List (Request T)) (s : EventLoop P) → (serve P rs s).quit_flag ≡ s.quit_flag || quits rs
  unfolding serve quits quit
  serve-quit_flag [] s = sym (or-false s.quit_flag)
  serve-quit_flag (queue t ∷ rs) s =
      serve-quit_flag rs (queue_in_loop P true t s)
      ∙ ap (λ (x : EventLoop P). x.quit_flag || quits rs) (queue_in_loop_lem P true t s)
  serve-quit_flag (request_quit ∷ rs) s =
      serve-quit_flag rs (quit P true s) ∙ sym (or-true s.quit_flag)

  pub run_functors-quit_flag :
      (ts : List T) (s : EventLoop P)
      → (run_functors P ts s).quit_flag ≡ s.quit_flag || functors_quit ts s.world
  unfolding run_functors run_functor functors_quit
  run_functors-quit_flag [] s = sym (or-false s.quit_flag)
  run_functors-quit_flag (t ∷ ts) s =
      let (w, rs) = perform t s.world in
      let one = serve-Served P rs (record s { world = w }) in
      run_functors-quit_flag ts (run_functor P t s)
      ∙ ap₂ (λ q v. q || functors_quit ts v) (serve-quit_flag rs (record s { world = w }))
          one.world_eq
      ∙ or_assoc s.quit_flag (quits rs) (functors_quit ts w)

  -- What events leave.
  pub record Handled (es : List (Event P)) (s s' : EventLoop P) : Type 0 where
    pub pending_eq : s'.pending ≡ s.pending ++ event_posts es s.world
    pub world_eq : s'.world ≡ event_effects es s.world
    pub quit_eq : s'.quit_flag ≡ s.quit_flag || events_quit es s.world
    pub looping_eq : s'.looping ≡ s.looping

  Handled-none : (s : EventLoop P) → Handled [] s s
  unfolding event_posts event_effects events_quit
  Handled-none s = record {
    pending_eq = sym (append-nil s.pending);
    world_eq = refl;
    quit_eq = sym (or-false s.quit_flag);
    looping_eq = refl;
  }

  record Answered (a : W × List (Request T)) (s s' : EventLoop P) : Type 0 where
    pending_eq : s'.pending ≡ s.pending ++ queued a.1
    world_eq : s'.world ≡ a.0
    quit_eq : s'.quit_flag ≡ s.quit_flag || quits a.1
    looping_eq : s'.looping ≡ s.looping

  handle-Answered : (e : Event P) (s : EventLoop P) → Answered (answer e s.world) s (handle P e s)
  unfolding handle handle_read queued quits
  handle-Answered woken s = record {
    pending_eq = sym (append-nil s.pending);
    world_eq = refl;
    quit_eq = sym (or-false s.quit_flag);
    looping_eq = refl;
  }
  handle-Answered (handled f) s =
      let s₁ : EventLoop P = record s { world = (f s.world).0 } in
      let m = serve-Served P (f s.world).1 s₁ in
      record {
        pending_eq = m.pending_eq;
        world_eq = m.world_eq;
        quit_eq = serve-quit_flag (f s.world).1 s₁;
        looping_eq = m.looping_eq;
      }

  pub handle_all-Handled :
      (es : List (Event P)) (s : EventLoop P) → Handled es s (handle_all P es s)
  unfolding handle_all event_posts event_effects events_quit
  handle_all-Handled [] s = Handled-none s
  handle_all-Handled (e ∷ es) s =
      let (w, rs) = answer e s.world in
      let a = handle-Answered e s in
      let m = handle_all-Handled es (handle P e s) in
      record {
        pending_eq =
            m.pending_eq
            ∙ ap₂ (λ ts v. ts ++ event_posts es v) a.pending_eq a.world_eq
            ∙ append_assoc s.pending (queued rs) (event_posts es w);
        world_eq = m.world_eq ∙ ap (event_effects es) a.world_eq;
        quit_eq =
            m.quit_eq
            ∙ ap₂ (λ q v. q || events_quit es v) a.quit_eq a.world_eq
            ∙ or_assoc s.quit_flag (quits rs) (events_quit es w);
        looping_eq = m.looping_eq ∙ a.looping_eq;
      }

  pub run_functors-looping :
      (ts : List T) (s : EventLoop P) → (run_functors P ts s).looping ≡ s.looping
  unfolding run_functors run_functor
  run_functors-looping [] s = refl
  run_functors-looping (t ∷ ts) s =
      run_functors-looping ts (run_functor P t s)
      ∙ (serve-Served P (perform t s.world).1
          (record s { world = (perform t s.world).0 })).looping_eq
