-- ===== src/EventLoop/Handlers.antt =====
-- `handleEvent` of a channel that the poller holds, against the list of its callbacks that are due.
use cevent_loop.Prelude.{
  ℕ, ◌+◌, ◌≡◌, refl, sym, ◌∙◌, Bool, inl, inr, true, false, not, ◌&&◌, Option, none, some, List, [],
  ◌∷◌, ◌++◌, Exec, ok, fault, ◌>>=◌, Exec-cases,
}
use cevent_loop.Channel.{
  Callbacks, has, pollin, pollpri, pollout, pollerr, pollhup, pollnval, pollrdhup, handle_event,
  when, call, call_read,
}
use cevent_loop.EventLoop.Turn.{
  Reactor, Handler, cleared, handle_channel, called, at_time, calls, run_all,
}

pub bind_assoc :
    {A B C : Type 0} (m : Exec A) (f : A → Exec B) (g : B → Exec C)
    → m >>= f >>= g ≡ m >>= λ x. f x >>= g
bind_assoc (ok a) f g = refl
bind_assoc (fault e) f g = refl

pub bind_ext :
    {A B : Type 0} (m : Exec A) (f g : A → Exec B)
    → ((a : A) → m ≡ ok a → f a ≡ g a)
    → m >>= f ≡ m >>= g
bind_ext (ok a) f g h = h a refl
bind_ext (fault e) f g h = refl

module _ {W : Type 0} where
  abbrev pub active : Reactor W → ℕ → ℕ
  active s c = (s.poller.heap c).active_events

  -- A callback that sets the events of no channel.
  abbrev pub KeepsMarks : Handler W → Type 0
  KeepsMarks f = (s s' : Reactor W) → f s ≡ ok s' → (c : ℕ) → active s' c ≡ active s c

  abbrev pub IfAny : Option (Handler W) → Type 0
  IfAny none = Unit
  IfAny (some f) = KeepsMarks f

  pub record Gentle (cb : Callbacks (Reactor W)) : Type 0 where
    pub close_keeps : IfAny cb.close
    pub error_keeps : IfAny cb.error
    pub read_keeps : (time : ℕ) → IfAny (at_time time cb.read)
    pub write_keeps : IfAny cb.write

  unfoldable pub AllKeep : List (Handler W) → Type 0
  AllKeep [] = Unit
  AllKeep (f ∷ fs) = KeepsMarks f × AllKeep fs

  called-AllKeep :
      (b : Bool) (f : Option (Handler W)) (rest : List (Handler W))
      → IfAny f
      → AllKeep rest
      → AllKeep (called b f ++ rest)
  unfolding AllKeep
  called-AllKeep false f rest k ks = ks
  called-AllKeep true none rest k ks = ks
  called-AllKeep true (some f) rest k ks = (k, ks)

  last-AllKeep : (b : Bool) (f : Option (Handler W)) → IfAny f → AllKeep (called b f)
  unfolding AllKeep
  last-AllKeep false f k = tt
  last-AllKeep true none k = tt
  last-AllKeep true (some f) k = (k, tt)

  pub calls-AllKeep :
      (cb : Callbacks (Reactor W)) (time r : ℕ) → Gentle cb → AllKeep (calls cb time r)
  unfolding AllKeep
  calls-AllKeep cb time r g =
      let fourth : List (Handler W) = called (has r pollout) cb.write in
      let third : List (Handler W) =
        called (has r (pollin + pollpri + pollrdhup)) (at_time time cb.read) ++ fourth in
      let second : List (Handler W) = called (has r (pollerr + pollnval)) cb.error ++ third in
      called-AllKeep (has r pollhup && not (has r pollin)) cb.close second g.close_keeps (
        called-AllKeep (has r (pollerr + pollnval)) cb.error third g.error_keeps (
          called-AllKeep (has r (pollin + pollpri + pollrdhup)) (at_time time cb.read) fourth
            (g.read_keeps time) (last-AllKeep (has r pollout) cb.write g.write_keeps)))

  pub run_all-marks :
      (fs : List (Handler W)) (s s' : Reactor W)
      → AllKeep fs
      → run_all fs s ≡ ok s'
      → (c : ℕ) → active s' c ≡ active s c
  unfolding AllKeep
  run_all-marks [] s s' k e c = cc e
  run_all-marks (f ∷ fs) s s' (k, ks) e c = elim (Exec-cases (f s)) [
    | inl (t, e') ↦ run_all-marks fs t s' ks (rw e' at e) c ∙ k s t e' c
    | inr (x, e') ↦ absurd (cc (rw e' at e))
  ]

  -- A guarded callback, before others.
  when-called :
      {A : Type 0} (b : Bool) (f : Option (Handler W)) (rest : List (Handler W)) (s : Reactor W)
      (k : Reactor W → Exec A)
      → run_all (called b f ++ rest) s >>= k ≡ when b (call f) s >>= λ s'. run_all rest s' >>= k
  unfolding when call
  when-called false f rest s k = refl
  when-called true none rest s k = refl
  when-called true (some f) rest s k = bind_assoc (f s) (run_all rest) k

  when-last :
      {A : Type 0} (b : Bool) (f : Option (Handler W)) (s : Reactor W) (k : Reactor W → Exec A)
      → run_all (called b f) s >>= k ≡ when b (call f) s >>= k
  unfolding when call
  when-last false f s k = refl
  when-last true none s k = refl
  when-last true (some f) s k = bind_assoc (f s) (λ s'. ok s') k

  when-read :
      (b : Bool) (time : ℕ) (f : Option (ℕ → Handler W)) (s : Reactor W)
      → when b (call_read f time) s ≡ when b (call (at_time time f)) s
  unfolding when call call_read
  when-read false time f s = refl
  when-read true time none s = refl
  when-read true time (some f) s = refl

  -- One more callback, before what is known of the rest.
  one_more :
      {B : Type 0} (b : Bool) (f : Option (Handler W)) (rest : List (Handler W)) (s : Reactor W)
      (k : Handler W) (on : Reactor W → Exec (Reactor W × B))
      → ((w : Reactor W) → on w >>= (λ x. k x.0) ≡ run_all rest w >>= k)
      → when b (call f) s >>= on >>= (λ x. k x.0) ≡ run_all (called b f ++ rest) s >>= k
  one_more b f rest s k on h =
      bind_assoc (when b (call f) s) on (λ x. k x.0)
      ∙ bind_ext (when b (call f) s) (λ w. on w >>= λ x. k x.0) (λ w. run_all rest w >>= k)
          (λ w e. h w)
      ∙ sym (when-called b f rest s k)

  paired : {B : Type 0} → B → Reactor W → Exec (Reactor W × B)
  paired y w = ok (w, y)

  the_last :
      {B : Type 0} (b : Bool) (f : Option (Handler W)) (y : B) (s : Reactor W) (k : Handler W)
      → when b (call f) s >>= paired y >>= (λ x. k x.0) ≡ run_all (called b f) s >>= k
  unfolding paired
  the_last b f y s k =
      bind_assoc (when b (call f) s) (paired y) (λ x. k x.0) ∙ sym (when-last b f s k)

  -- `handleEvent` for any four tests.
  four_steps :
      {B : Type 0} (b₁ b₂ b₃ b₄ : Bool) (cb : Callbacks (Reactor W)) (time : ℕ) (y : B)
      (s : Reactor W) (k : Handler W)
      → (do
        w₁ ← when b₁ (call cb.close) s
        w₂ ← when b₂ (call cb.error) w₁
        w₃ ← when b₃ (call_read cb.read time) w₂
        when b₄ (call cb.write) w₃ >>= paired y)
          >>= (λ x. k x.0)
        ≡ run_all
            (called b₁ cb.close
              ++ (called b₂ cb.error ++ (called b₃ (at_time time cb.read) ++ called b₄ cb.write)))
            s
          >>= k
  four_steps {B} b₁ b₂ b₃ b₄ cb time y s k =
      let on₃ : Reactor W → Exec (Reactor W × B) = λ w. when b₄ (call cb.write) w >>= paired y in
      let on₂ : Reactor W → Exec (Reactor W × B) =
        λ w. when b₃ (call_read cb.read time) w >>= on₃ in
      let on₁ : Reactor W → Exec (Reactor W × B) = λ w. when b₂ (call cb.error) w >>= on₂ in
      let fs₃ : List (Handler W) = called b₄ cb.write in
      let fs₂ : List (Handler W) = called b₃ (at_time time cb.read) ++ fs₃ in
      let third : (w : Reactor W) → on₂ w >>= (λ x. k x.0) ≡ run_all fs₂ w >>= k = λ w.
        rw (when-read b₃ time cb.read w)
          (one_more b₃ (at_time time cb.read) fs₃ w k on₃ (λ v. the_last b₄ cb.write y v k)) in
      one_more b₁ cb.close (called b₂ cb.error ++ fs₂) s k on₁
        (λ w. one_more b₂ cb.error fs₂ w k on₂ third)

  -- A channel with some events in it.
  pub handle_channel_lem :
      (cbs : ℕ → Callbacks (Reactor W)) (time c r : ℕ) (s : Reactor W)
      → active s c ≡ r
      → handle_channel cbs time c s ≡ run_all (calls (cbs c) time r) s >>= λ s'. ok (cleared c s')
  unfolding handle_channel handle_event paired
  handle_channel_lem cbs time c r s e = rw e (
      four_steps (has r pollhup && not (has r pollin)) (has r (pollerr + pollnval))
        (has r (pollin + pollpri + pollrdhup)) (has r pollout) (cbs c) time
        (record (s.poller.heap c) { active_events = 0 }) s (λ s'. ok (cleared c s')))
