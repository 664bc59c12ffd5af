-- ===== src/EventLoopThread/Handshake.antt =====
-- What `startLoop` returns, when it waits, and what has happened by then.
use cevent_loop.Prelude.{
  ℕ, ◌≡◌, ◌≢◌, ◌<◌, ◌⊎◌, inl, inr, refl, sym, ap, ◌∙◌, arith, Bool, List, [], ◌∷◌, if◌then◌else◌,
}
use cevent_loop.EventLoopThread.{
  EventLoopThread, Caller, outside, testing, waiting, returned, destroyed, Worker, unborn,
  preparing, ready, looping, over, new, notified, Step, launch, finds_null, finds_loop, wakes,
  initialises, announces, finishes, joins, Reach, here, step,
}

-- The calls of the callback that the place of `threadFunc` lets expect.
abbrev pub expected : ℕ → Bool → Worker → List ℕ
expected address callback unborn = []
expected address callback preparing = []
expected address callback ready = if callback then address ∷ [] else []
expected address callback looping = if callback then address ∷ [] else []
expected address callback over = if callback then address ∷ [] else []

record Good (address : ℕ) (s : EventLoopThread) : Type 0 where
  value : (s.loop ≡ 0) ⊎ ((s.loop ≡ address) × (s.worker ≡ looping))
  answer :
      (p : ℕ) → s.caller ≡ returned p → (p ≡ address) × ((s.worker ≡ looping) ⊎ (s.worker ≡ over))
  set : s.worker ≡ looping → s.loop ≡ address
  blocked : s.caller ≡ waiting → s.loop ≡ 0
  before : s.caller ≡ outside → s.worker ≡ unborn
  called : s.inits ≡ expected address s.callback s.worker
  gone : s.caller ≡ destroyed → s.worker ≡ over

notified-waiting : (c : Caller) → notified c ≢ waiting
unfolding notified
notified-waiting outside e = cc
notified-waiting testing e = cc
notified-waiting waiting e = cc
notified-waiting destroyed e = cc
notified-waiting (returned p) e = cc

notified-same : (c d : Caller) → d ≢ testing → notified c ≡ d → c ≡ d
unfolding notified
notified-same outside d n e = e
notified-same testing d n e = e
notified-same waiting d n e = absurd (n (sym e))
notified-same destroyed d n e = e
notified-same (returned p) d n e = e

module _ {address : ℕ} {s : EventLoopThread} (g : Good address s) where
  launch-Good :
      s.caller ≡ outside → Good address (record s { caller = testing; worker = preparing })
  launch-Good e = record {
    value = elim g.value [
      | inl null ↦ inl null
      | inr (right, there) ↦ let none_yet = g.before e in cc (there, none_yet)
    ];
    answer = λ p f. cc f;
    set = λ f. cc f;
    blocked = λ f. cc f;
    before = λ f. cc f;
    called = g.called ∙ ap (expected address s.callback) (g.before e);
    gone = λ f. cc f;
  }

  finds_loop-Good : 0 < s.loop → Good address (record s { caller = returned s.loop })
  finds_loop-Good there = record {
    value = g.value;
    answer = λ p f.
        let same : s.loop ≡ p = cc f in
        elim g.value [
          | inl null ↦ absurd (omega arith)
          | inr (right, at) ↦ (sym same ∙ right, inl at)
        ];
    set = g.set;
    blocked = λ f. cc f;
    before = λ f. cc f;
    called = g.called;
    gone = λ f. cc f;
  }

  initialises-Good :
      s.worker ≡ preparing
      → Good address
          (record s { worker = ready; inits = if s.callback then address ∷ s.inits else s.inits })
  initialises-Good e = record {
    value = elim g.value [ inl null ↦ inl null | inr (right, there) ↦ cc (there, e) ];
    answer = λ p f. elim ((g.answer p f).1) [ inl at ↦ cc (at, e) | inr at ↦ cc (at, e) ];
    set = λ f. cc f;
    blocked = g.blocked;
    before = λ f. let none_yet = g.before f in cc (e, none_yet);
    called =
        ap (λ is. if s.callback then address ∷ is else is)
          (g.called ∙ ap (expected address s.callback) e);
    gone = λ f. let at_end = g.gone f in cc (e, at_end);
  }

  announces-Good :
      s.worker ≡ ready
      → Good address (record s { loop = address; caller = notified s.caller; worker = looping })
  announces-Good e = record {
    value = inr (refl, refl);
    answer = λ p f.
        let before_it = g.answer p (notified-same s.caller (returned p) (λ x. cc x) f) in
        (before_it.0, inl refl);
    set = λ f. refl;
    blocked = λ f. absurd (notified-waiting s.caller f);
    before = λ f.
        let none_yet = g.before (notified-same s.caller outside (λ x. cc x) f) in cc (e, none_yet);
    called = g.called ∙ ap (expected address s.callback) e;
    gone =
        λ f. let at_end = g.gone (notified-same s.caller destroyed (λ x. cc x) f) in cc (e, at_end);
  }

  finishes-Good : s.worker ≡ looping → Good address (record s { loop = 0; worker = over })
  finishes-Good e = record {
    value = inl refl;
    answer = λ p f. ((g.answer p f).0, inr refl);
    set = λ f. cc f;
    blocked = λ f. refl;
    before = λ f. let none_yet = g.before f in cc (e, none_yet);
    called = g.called ∙ ap (expected address s.callback) e;
    gone = λ f. refl;
  }

  -- The caller moves on, to a place that says nothing new.
  moves-Good :
      (c : Caller)
      → ((p : ℕ) → c ≢ returned p)
      → (c ≡ waiting → s.loop ≡ 0)
      → c ≢ outside
      → (c ≡ destroyed → s.worker ≡ over)
      → Good address (record s { caller = c })
  moves-Good c no_return null begun at_end = record {
    value = g.value;
    answer = λ p f. absurd (no_return p f);
    set = g.set;
    blocked = null;
    before = λ f. absurd (begun f);
    called = g.called;
    gone = at_end;
  }

Step-Good :
    {address : ℕ} {s t : EventLoopThread} → Good address s → Step address s t → Good address t
Step-Good g (launch e) = launch-Good g e
Step-Good g (finds_null e null) =
    moves-Good g waiting (λ p f. cc f) (λ f. null) (λ f. cc f) (λ f. cc f)
Step-Good g (finds_loop e there) = finds_loop-Good g there
Step-Good g (wakes e) = moves-Good g testing (λ p f. cc f) (λ f. cc f) (λ f. cc f) (λ f. cc f)
Step-Good g (initialises e) = initialises-Good g e
Step-Good g (announces e) = announces-Good g e
Step-Good g (finishes e) = finishes-Good g e
Step-Good g (joins e at_end) =
    moves-Good g destroyed (λ p f. cc f) (λ f. cc f) (λ f. cc f) (λ f. at_end)

Reach-Good :
    {address : ℕ} {callback : Bool} {s : EventLoopThread}
    → Reach address (new callback 0) s
    → Good address s
Reach-Good here = record {
  value = inl refl;
  answer = λ p f. cc f;
  set = λ f. cc f;
  blocked = λ f. cc;
  before = λ f. refl;
  called = refl;
  gone = λ f. cc f;
}
Reach-Good (step r m) = Step-Good (Reach-Good r) m

Step-callback : {address : ℕ} {s t : EventLoopThread} → Step address s t → t.callback ≡ s.callback
Step-callback (launch e) = refl
Step-callback (finds_null e null) = refl
Step-callback (finds_loop e there) = refl
Step-callback (wakes e) = refl
Step-callback (initialises e) = refl
Step-callback (announces e) = refl
Step-callback (finishes e) = refl
Step-callback (joins e at_end) = refl

Reach-callback :
    {address : ℕ} {callback : Bool} {s : EventLoopThread}
    → Reach address (new callback 0) s
    → s.callback ≡ callback
Reach-callback here = refl
Reach-callback (step r m) = Step-callback m ∙ Reach-callback r

-- From a null `loop_`, in any interleaving of the two threads: what `startLoop` returns is the address
-- of the new thread's loop, and by then the callback, if there is one, has been called once, with that
-- loop; while `startLoop` is blocked in `wait` that thread is not in `loop()`; and once the destructor has
-- joined it, it is at its end and `loop_` is null.
pub handshake :
    {address : ℕ} {callback : Bool} {s : EventLoopThread}
    → Reach address (new callback 0) s
    → 0 < address
    → ((p : ℕ)
        → s.caller ≡ returned p
        → (p ≡ address) × (s.inits ≡ (if callback then address ∷ [] else [])))
      × (s.caller ≡ waiting → s.worker ≢ looping)
      × (s.caller ≡ destroyed → (s.worker ≡ over) × (s.loop ≡ 0))
handshake {address} {callback} {s} r pos =
    let g = Reach-Good r in
    let called : s.inits ≡ expected address callback s.worker =
      g.called ∙ ap (λ b. expected address b s.worker) (Reach-callback r) in
    (
      λ p f.
          let (right, at) = g.answer p f in
          (
            right,
            elim at [
              | inl e ↦ called ∙ ap (expected address callback) e
              | inr e ↦ called ∙ ap (expected address callback) e
            ],
          ),
      λ w l. let null = g.blocked w in let there = g.set l in absurd (omega arith),
      λ f.
          let at_end = g.gone f in
          (at_end, elim g.value [ inl null ↦ null | inr (right, at) ↦ cc (at, at_end) ]),
    )
