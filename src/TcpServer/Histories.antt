-- ===== src/TcpServer/Histories.antt =====
-- The functors of all loops: those that each ran, and behind them those that wait in its queue.
use mathlib.Core.List.{Mem, Mem-prop, mem-cons_self, mem-append, mem-append_left, mem-append_right}
use mathlib.Core.Logic.Or
use native.Mathlib.Decide.{ℕ_discrete}
use mathlib.Core.Path.{subst, sym}
use cevent_loop.Prelude.{
  ℕ, ◌+◌, ◌<◌, ◌≡◌, ◌≢◌, ◌⊎◌, inl, inr, refl, ap, ◌∙◌, Bool, true, false, List, [], ◌∷◌, ◌++◌,
  append_assoc, arith,
}
use cevent_loop.Prelude.Maps.{store, store_cases, store_self, store_ne}
use cevent_loop.ThreadPool.Next.{InTurn}
use cevent_loop.TcpServer.{
  TcpServer, Task, listens, quits, establishes, destroys, removes, queue_in, run_now, run_in,
}
use cevent_loop.TcpServer.Order.{Earlier, Proper, Earlier-more, Proper-between, Proper-last}

abbrev pub history : TcpServer → ℕ → List Task
history s l = s.ran l ++ s.queue l

-- A `removeConnection` waits only in the loop of the server, for one of the first `n` connections.
abbrev pub Local : ℕ → ℕ → ℕ → Task → Type 0
Local home n l listens = Unit
Local home n l quits = Unit
Local home n l (establishes c) = Unit
Local home n l (destroys c) = Unit
Local home n l (removes c) = (l ≡ home) × (c < n)

abbrev pub AllLocal : ℕ → ℕ → ℕ → List Task → Type 0
AllLocal home n l [] = Unit
AllLocal home n l (t ∷ ts) = Local home n l t × AllLocal home n l ts

AllLocal-last :
    (home n l : ℕ) (ts : List Task) (t : Task)
    → AllLocal home n l ts
    → Local home n l t
    → AllLocal home n l (ts ++ (t ∷ []))
AllLocal-last home n l [] t h e = (e, tt)
AllLocal-last home n l (u ∷ ts) t (d, h) e = (d, AllLocal-last home n l ts t h e)

Local-more : (home n l : ℕ) (t : Task) → Local home n l t → Local home (n + 1) l t
Local-more home n l listens h = tt
Local-more home n l quits h = tt
Local-more home n l (establishes c) h = tt
Local-more home n l (destroys c) h = tt
Local-more home n l (removes c) (e, h) = (e, omega arith)

pub AllLocal-more :
    (home n l : ℕ) (ts : List Task) → AllLocal home n l ts → AllLocal home (n + 1) l ts
AllLocal-more home n l [] h = tt
AllLocal-more home n l (t ∷ ts) (d, h) = (Local-more home n l t d, AllLocal-more home n l ts h)

-- In each loop the destruction of a connection follows its establishment, and the first `n` connections
-- have been handed to their loops.
pub record Ordered (n : ℕ) (s : TcpServer) : Type 0 where
  pub proper : (l : ℕ) → Proper [] (history s l)
  pub made : (c : ℕ) → c < n → Mem (establishes c) (history s (s.heap c).io_loop)
  pub removals : (l : ℕ) → AllLocal s.loop n l (s.queue l)
  pub turn : InTurn s.pool

module _ (l : ℕ) (t : Task) (s : TcpServer) where
  history-queue_in :
      (k : ℕ)
      → ((l ≡ k) × (history (queue_in l t s) k ≡ history s k ++ (t ∷ [])))
        ⊎ ((l ≢ k) × (history (queue_in l t s) k ≡ history s k))
  unfolding queue_in
  history-queue_in k = elim (store_cases s.queue l k (s.queue l ++ (t ∷ []))) [
    | inl (e, w) ↦
        inl
          (e, ap (λ q. s.ran k ++ q) w ∙ (rw e (sym (append_assoc (s.ran k) (s.queue k) (t ∷ [])))))
    | inr (n, w) ↦ inr (n, ap (λ q. s.ran k ++ q) w)
  ]

  pub queue_in-Ordered :
      (n : ℕ)
      → Ordered n s
      → Earlier t (history s l)
      → Local s.loop n l t
      → Ordered n (queue_in l t s)
  unfolding queue_in
  queue_in-Ordered n o due near = record {
    proper = λ k. elim (history-queue_in k) [
      | inl (e, w) ↦ subst (Proper []) (sym w) (
          Proper-last t (history s k) [] (o.proper k) (λ all before behind.
            Earlier-more t behind (subst (λ x. Earlier t (history s x)) e due)))
      | inr (d, w) ↦ subst (Proper []) (sym w) (o.proper k)
    ];
    made = λ c h. elim (history-queue_in (s.heap c).io_loop) [
      | inl (e, w) ↦ subst (Mem (establishes c)) (sym w) (mem-append_left (t ∷ []) (o.made c h))
      | inr (d, w) ↦ subst (Mem (establishes c)) (sym w) (o.made c h)
    ];
    removals = λ k. elim (store_cases s.queue l k (s.queue l ++ (t ∷ []))) [
      | inl (e, w) ↦ subst (AllLocal s.loop n k) (sym w) (
          subst (λ x. AllLocal s.loop n x (s.queue l ++ (t ∷ []))) e
            (AllLocal-last s.loop n l (s.queue l) t (o.removals l) near))
      | inr (d, w) ↦ subst (AllLocal s.loop n k) (sym w) (o.removals k)
    ];
    turn = o.turn;
  }

  history-run_now :
      (k : ℕ)
      → ((l ≡ k) × (history (run_now l t s) k ≡ (s.ran k ++ (t ∷ [])) ++ s.queue k))
        ⊎ ((l ≢ k) × (history (run_now l t s) k ≡ history s k))
  unfolding run_now
  history-run_now k = elim (store_cases s.ran l k (s.ran l ++ (t ∷ []))) [
    | inl (e, w) ↦ inl (e, ap (λ q. q ++ s.queue k) (w ∙ ap (λ x. s.ran x ++ (t ∷ [])) e))
    | inr (n, w) ↦ inr (n, ap (λ q. q ++ s.queue k) w)
  ]

  pub run_now-Ordered :
      (n : ℕ) → Ordered n s → ((seen : List Task) → Earlier t seen) → Ordered n (run_now l t s)
  unfolding run_now
  run_now-Ordered n o free = record {
    proper = λ k. elim (history-run_now k) [
      | inl (e, w) ↦
          subst (Proper []) (sym w) (Proper-between t free (s.ran k) (s.queue k) [] (o.proper k))
      | inr (d, w) ↦ subst (Proper []) (sym w) (o.proper k)
    ];
    made = λ c h. elim (history-run_now (s.heap c).io_loop) [
      | inl (e, w) ↦
          subst (Mem (establishes c)) (sym w) (between (s.ran _) (s.queue _) (o.made c h))
      | inr (d, w) ↦ subst (Mem (establishes c)) (sym w) (o.made c h)
    ];
    removals = o.removals;
    turn = o.turn;
  }
    where
      between : {a : Task} (xs ys : List Task) → Mem a (xs ++ ys) → Mem a ((xs ++ (t ∷ [])) ++ ys)
      between {a} xs ys m =
          Or.elim (Mem-prop {a = a} {l = (xs ++ (t ∷ [])) ++ ys}) (mem-append.0 m)
            (λ h. mem-append_left ys (mem-append_left (t ∷ []) h))
            (λ h. mem-append_right (xs ++ (t ∷ [])) h)

  -- Either way the functor is then in the history of the loop.
  pub run_in-Mem : (here : Bool) → Mem t (history (run_in here l t s) l)
  unfolding run_in queue_in run_now
  run_in-Mem true =
      let w : (run_now l t s).ran l ≡ s.ran l ++ (t ∷ []) =
        store_self s.ran l (s.ran l ++ (t ∷ [])) in
      subst (λ q. Mem t (q ++ s.queue l)) (sym w)
        (mem-append_left (s.queue l) (mem-append_right (s.ran l) mem-cons_self))
  run_in-Mem false =
      let w : (queue_in l t s).queue l ≡ s.queue l ++ (t ∷ []) =
        store_self s.queue l (s.queue l ++ (t ∷ [])) in
      subst (λ q. Mem t (s.ran l ++ q)) (sym w)
        (mem-append_right (s.ran l) (mem-append_right (s.queue l) mem-cons_self))

  -- What a loop takes off its queue stays where it was in the history.
  abbrev pub taken : List Task → TcpServer
  taken ts = run_now l t (record s { queue = store s.queue l ts })

  history-taken :
      (ts : List Task) → s.queue l ≡ t ∷ ts → (k : ℕ) → history (taken ts) k ≡ history s k
  unfolding run_now
  history-taken ts e k = elim (ℕ_discrete l k) [
    | yes same ↦
        let r : store s.ran l (s.ran l ++ (t ∷ [])) l ≡ s.ran l ++ (t ∷ []) =
          store_self s.ran l (s.ran l ++ (t ∷ [])) in
        let q : store s.queue l ts l ≡ ts = store_self s.queue l ts in
        subst (λ x. history (taken ts) x ≡ history s x) same
          (rw (r, q, e) (append_assoc (s.ran l) (t ∷ []) ts))
    | no differs ↦
        let r : store s.ran l (s.ran l ++ (t ∷ [])) k ≡ s.ran k = store_ne s.ran l k _ differs in
        let q : store s.queue l ts k ≡ s.queue k = store_ne s.queue l k ts differs in rw (r, q) refl
  ]

  pub taken-Ordered :
      (n : ℕ) (ts : List Task) → s.queue l ≡ t ∷ ts → Ordered n s → Ordered n (taken ts)
  unfolding run_now
  taken-Ordered n ts e o = record {
    proper = λ k. subst (Proper []) (sym (history-taken ts e k)) (o.proper k);
    made = λ c h.
        subst (Mem (establishes c)) (sym (history-taken ts e (s.heap c).io_loop)) (o.made c h);
    removals = λ k. elim (store_cases s.queue l k ts) [
      | inl (same, w) ↦ subst (AllLocal s.loop n k) (sym w) (
          subst (λ x. AllLocal s.loop n x ts) same (subst (AllLocal s.loop n l) e (o.removals l)).1)
      | inr (d, w) ↦ subst (AllLocal s.loop n k) (sym w) (o.removals k)
    ];
    turn = o.turn;
  }
