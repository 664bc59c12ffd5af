-- ===== src/EventLoop/Due.antt =====
-- What `poll` leaves: the events in the channels that are due, which all differ.
use cevent_loop.Prelude.{
  ℕ, zero, suc, ◌+◌, ◌≤◌, ◌<◌, ◌≡◌, ◌≢◌, refl, sym, ap, ◌∙◌, Bool-cases, inl, inr, true, false,
  Option, some, List, [], ◌∷◌, ltb, length, map, arith, get_elem?, ok, ◌>>=◌, dec_lt,
}
use cevent_loop.Prelude.Int.{ℤ, pos}
use cevent_loop.Prelude.Maps.{store_self, store_ne}
use cevent_loop.Channel.{Channel, set_active_events}
use cevent_loop.Poller.{Poller, PollFd, happened, poll, modify, fill_active, with_revents}
use cevent_loop.Poller.Active.{hot, AllMapped, hot_left, cold_left}
use cevent_loop.Poller.Poll.{polled}
use cevent_loop.EventLoop.Turn.{due, mark_all}

-- The events of a channel after those of another one, or its own, are set.
pub modify-other :
    (s : Poller) (c d r : ℕ)
    → c ≢ d
    → ((modify (set_active_events r) c s).heap d).active_events ≡ (s.heap d).active_events
unfolding modify set_active_events
modify-other s c d r n = ap (λ (x : Channel). x.active_events) (store_ne s.heap c d _ n)

modify_self : (s : Poller) (c r : ℕ) → ((modify (set_active_events r) c s).heap c).active_events ≡ r
unfolding modify set_active_events
modify_self s c r = ap (λ (x : Channel). x.active_events) (store_self s.heap c _)

-- What is due is of other channels than `c`; and of channels that all differ.
unfoldable pub Without : ℕ → List (ℕ × ℕ) → Type 0
Without c [] = Unit
Without c ((d, r) ∷ rest) = (c ≢ d) × Without c rest

unfoldable pub Apart : List (ℕ × ℕ) → Type 0
unfolding Without
Apart [] = Unit
Apart ((c, r) ∷ rest) = Without c rest × Apart rest

-- The channels have the events that are due.
unfoldable pub Marked : List (ℕ × ℕ) → Poller → Type 0
Marked [] s = Unit
Marked ((c, r) ∷ rest) s = ((s.heap c).active_events ≡ r) × Marked rest s

mark_all-other :
    (l : List (ℕ × ℕ)) (s : Poller) (c : ℕ)
    → Without c l
    → ((mark_all l s).heap c).active_events ≡ (s.heap c).active_events
unfolding mark_all Without
mark_all-other [] s c w = refl
mark_all-other ((d, r) ∷ rest) s c (n, w) =
    mark_all-other rest (modify (set_active_events r) d s) c w
    ∙ modify-other s d c r (λ e. n (sym e))

pub mark_all-Marked : (l : List (ℕ × ℕ)) (s : Poller) → Apart l → Marked l (mark_all l s)
unfolding mark_all Apart Marked
mark_all-Marked [] s a = tt
mark_all-Marked ((c, r) ∷ rest) s (w, a) = (
  mark_all-other rest (modify (set_active_events r) c s) c w ∙ modify_self s c r,
  mark_all-Marked rest (modify (set_active_events r) c s) a,
)

-- Marks stay where no events change but those of one channel that is not concerned.
pub Marked-kept :
    (l : List (ℕ × ℕ)) (s s' : Poller) (c : ℕ)
    → Without c l
    → ((d : ℕ) → c ≢ d → (s'.heap d).active_events ≡ (s.heap d).active_events)
    → Marked l s
    → Marked l s'
unfolding Marked Without
Marked-kept [] s s' c w k m = tt
Marked-kept ((d, r) ∷ rest) s s' c (n, w) k (e, m) = (k d n ∙ e, Marked-kept rest s s' c w k m)

-- Entries whose channels know their position, from a position on.
unfoldable pub Placed : (ℤ → Option ℕ) → (ℕ → Channel) → ℕ → List PollFd → Type 0
Placed channels heap k [] = Unit
Placed channels heap k (p ∷ ps) =
    ((c : ℕ) × (channels p.fd ≡ some c) × ((heap c).index ≡ pos k))
    × Placed channels heap (suc k) ps

pub placed :
    (s : Poller) (k : ℕ) (ps : List PollFd)
    → ((i : ℕ) (p : PollFd)
        → get_elem? ps i ≡ some p
        → (c : ℕ) × (s.channels p.fd ≡ some c) × ((s.heap c).index ≡ pos (k + i)))
    → Placed s.channels s.heap k ps
unfolding Placed
placed s k [] h = tt
placed s k (p ∷ ps) h =
    let (c, m, e) = h zero p refl in
    (
      (c, m, e ∙ ap pos (omega arith)),
      placed s (suc k) ps
          (λ i q at. let (d, n, f) = h (suc i) q at in (d, n, f ∙ ap pos (omega arith))),
    )

due-Without :
    (channels : ℤ → Option ℕ) (heap : ℕ → Channel) (k : ℕ) (ps : List PollFd) (c : ℕ)
    → Placed channels heap k ps
    → ((j : ℕ) → (heap c).index ≡ pos j → j < k)
    → Without c (due channels ps)
unfolding Placed due Without
due-Without channels heap k [] c x h = tt
due-Without channels heap k (p ∷ ps) c ((d, m, e), x) h =
    let rest = due-Without channels heap (suc k) ps c x (λ j i. omega (arith, h j i)) in
    elim (Bool-cases (ltb 0 p.revents)) [
      | inl some_hot ↦
          rw (some_hot, m)
            (
              (λ same.
                  let below = h k (ap (λ a. (heap a).index) same ∙ e) in
                  absurd (omega (arith, below))),
              rest,
            )
      | inr cold ↦ rw cold rest
    ]

pub due-Apart :
    (channels : ℤ → Option ℕ) (heap : ℕ → Channel) (k : ℕ) (ps : List PollFd)
    → Placed channels heap k ps
    → Apart (due channels ps)
unfolding Placed due Apart
due-Apart channels heap k [] x = tt
due-Apart channels heap k (p ∷ ps) ((d, m, e), x) =
    let rest = due-Apart channels heap (suc k) ps x in
    elim (Bool-cases (ltb 0 p.revents)) [
      | inl some_hot ↦
          rw (some_hot, m)
            (
              due-Without channels heap (suc k) ps d x (λ j i.
                  let here : pos j ≡ pos k = sym i ∙ e in
                  let one : j ≡ k = cc here in omega (arith, one)),
              rest,
            )
      | inr cold ↦ rw cold rest
    ]

hot_some : (p : PollFd) (ps : List PollFd) → ltb 0 p.revents ≡ true → length (hot (p ∷ ps)) ≤ 0 → ⊥
unfolding hot
hot_some p ps t h = ground arith

cold_none :
    (p : PollFd) (ps : List PollFd)
    → ltb 0 p.revents ≡ false
    → length (hot (p ∷ ps)) ≤ 0
    → length (hot ps) ≤ 0
unfolding hot
cold_none p ps t h = ground arith

due_none : (channels : ℤ → Option ℕ) (ps : List PollFd) → length (hot ps) ≤ 0 → due channels ps ≡ []
unfolding due
due_none channels [] h = refl
due_none channels (p ∷ ps) h = elim (Bool-cases (ltb 0 p.revents)) [
  | inl some_hot ↦ absurd (hot_some p ps some_hot h)
  | inr cold ↦ rw cold (due_none channels ps (cold_none p ps cold h))
]

-- `fillActiveChannels` where it finds no more than it is told to.
fill_active_lem :
    (ps : List PollFd) (left : ℕ) (s : Poller)
    → AllMapped s.channels ps
    → length (hot ps) ≤ left
    → fill_active ps left s
      ≡ ok (mark_all (due s.channels ps) s, map (λ x. x.0) (due s.channels ps))
unfolding fill_active due mark_all modify
fill_active_lem [] left s m h = refl
fill_active_lem (p ∷ ps) zero s m h = rw (due_none s.channels (p ∷ ps) h) refl
fill_active_lem (p ∷ ps) (suc left) s ((c, e), m) h = elim (Bool-cases (ltb 0 p.revents)) [
  | inl some_hot ↦
      let t = modify (set_active_events p.revents) c s in
      rw (some_hot, fill_active)
        (rw (e, fill_active)
          (rw (fill_active_lem ps left t m (hot_left p ps left some_hot h)) refl))
  | inr cold ↦
      rw (cold, fill_active) (fill_active_lem ps (suc left) s m (cold_left p ps left cold h))
]

pub poll-due :
    (n : ℕ) (rs : List ℕ) (s : Poller)
    → AllMapped s.channels (with_revents rs s.pollfds)
    → n ≡ length (hot (with_revents rs s.pollfds))
    → (let l = due s.channels (with_revents rs s.pollfds) in
        poll (happened n rs) s ≡ ok (0, mark_all l (polled rs s), map (λ x. x.0) l))
unfolding poll mark_all
poll-due n rs s m e = elim (dec_lt 0 n) [
  | yes some_event ↦
      let t : ltb 0 n ≡ true = ground arith in
      let filled =
        fill_active_lem (with_revents rs s.pollfds) n (polled rs s) m (omega (arith, e)) in
      rw t (rw (filled, ◌>>=◌) refl)
  | no nothing ↦
      let f : ltb 0 n ≡ false = ground arith in
      let none_due = due_none s.channels (with_revents rs s.pollfds) (omega (arith, e)) in
      rw f (rw none_due refl)
]
