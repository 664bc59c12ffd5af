-- ===== src/Poller/Active.antt =====
-- `fillActiveChannels` and `poll`: the channels that the loop hands events to.
use cevent_loop.Prelude.{
  ℕ, zero, suc, ◌≤◌, ◌≡◌, refl, true, false, Option, some, List, [], ◌∷◌, map, sym, ◌∙◌, arith,
  length, ok, ltb, if◌then◌else◌, Bool-cases, inl, inr,
}
use mathlib.Core.Path.{ap₂}
use cevent_loop.Prelude.Int.{ℤ}
use cevent_loop.Prelude.Maps.{store}
use cevent_loop.Channel.{set_active_events}
use cevent_loop.Poller.{Poller, PollFd, fill_active}

-- The entries in which the system stored an event.
unfoldable pub hot : List PollFd → List PollFd
hot [] = []
hot (p ∷ ps) = if ltb 0 p.revents then p ∷ hot ps else hot ps

-- Only what `setActiveEvents` writes differs.
pub record SameEntries (s s' : Poller) : Type 0 where
  pub pollfds_eq : s'.pollfds ≡ s.pollfds
  pub channels_eq : s'.channels ≡ s.channels
  pub fd_eq : (c : ℕ) → (s'.heap c).fd ≡ (s.heap c).fd
  pub index_eq : (c : ℕ) → (s'.heap c).index ≡ (s.heap c).index

SameEntries-refl : (s : Poller) → SameEntries s s
SameEntries-refl s = record {
  pollfds_eq = refl;
  channels_eq = refl;
  fd_eq = λ c. refl;
  index_eq = λ c. refl;
}

SameEntries-trans : {s t u : Poller} → SameEntries s t → SameEntries t u → SameEntries s u
SameEntries-trans a b = record {
  pollfds_eq = b.pollfds_eq ∙ a.pollfds_eq;
  channels_eq = b.channels_eq ∙ a.channels_eq;
  fd_eq = λ c. b.fd_eq c ∙ a.fd_eq c;
  index_eq = λ c. b.index_eq c ∙ a.index_eq c;
}

abbrev activated : Poller → ℕ → ℕ → Poller
activated s c revents = record s { heap = store s.heap c (set_active_events revents (s.heap c)) }

SameEntries-activated : (s : Poller) (c revents : ℕ) → SameEntries s (activated s c revents)
unfolding set_active_events
SameEntries-activated s c revents = record {
  pollfds_eq = refl;
  channels_eq = refl;
  fd_eq = λ d. ground arith;
  index_eq = λ d. ground arith;
}

abbrev pub AllMapped : (ℤ → Option ℕ) → List PollFd → Type 0
AllMapped channels [] = Unit
AllMapped channels (p ∷ ps) = ((c : ℕ) × (channels p.fd ≡ some c)) × AllMapped channels ps

-- The loop that has `left` events to find, where there are no more than that.
pub record Filled (ps : List PollFd) (left : ℕ) (s : Poller) : Type 0 where
  pub after : Poller
  pub active : List ℕ
  pub runs : fill_active ps left s ≡ ok (after, active)
  pub found : map some active ≡ map (λ p. s.channels p.fd) (hot ps)
  pub same : SameEntries s after

Filled-hot :
    (p : PollFd) (ps : List PollFd) (left : ℕ) (s : Poller) (c : ℕ)
    → ltb 0 p.revents ≡ true
    → s.channels p.fd ≡ some c
    → Filled ps left (activated s c p.revents)
    → Filled (p ∷ ps) (suc left) s
unfolding fill_active hot
Filled-hot p ps left s c t e f = record {
  after = f.after;
  active = c ∷ f.active;
  runs = rw (t, fill_active) (rw (e, fill_active) (rw f.runs refl));
  found = rw t (ap₂ ◌∷◌ (sym e) f.found);
  same = SameEntries-trans (SameEntries-activated s c p.revents) f.same;
}

Filled-cold :
    (p : PollFd) (ps : List PollFd) (left : ℕ) (s : Poller)
    → ltb 0 p.revents ≡ false
    → Filled ps (suc left) s
    → Filled (p ∷ ps) (suc left) s
unfolding fill_active hot
Filled-cold p ps left s t f = record {
  after = f.after;
  active = f.active;
  runs = rw (t, fill_active) f.runs;
  found = rw t f.found;
  same = f.same;
}

pub none_hot : (ps : List PollFd) → length (hot ps) ≤ 0 → hot ps ≡ []
none_hot ps h =
    elim (hot ps) as (λ l. length l ≤ 0 → l ≡ []) [
      | [] ↦ λ h. refl
      | x ∷ xs ↦ λ h. absurd (omega arith)
    ]
      h

pub hot_left :
    (p : PollFd) (ps : List PollFd) (left : ℕ)
    → ltb 0 p.revents ≡ true
    → length (hot (p ∷ ps)) ≤ suc left
    → length (hot ps) ≤ left
unfolding hot
hot_left p ps left t h = ground arith

pub cold_left :
    (p : PollFd) (ps : List PollFd) (left : ℕ)
    → ltb 0 p.revents ≡ false
    → length (hot (p ∷ ps)) ≤ suc left
    → length (hot ps) ≤ suc left
unfolding hot
cold_left p ps left t h = ground arith

pub fill_active-Filled :
    (ps : List PollFd) (left : ℕ) (s : Poller)
    → AllMapped s.channels ps
    → length (hot ps) ≤ left
    → Filled ps left s
unfolding fill_active
fill_active-Filled [] left s m h = record {
  after = s;
  active = [];
  runs = refl;
  found = unfold hot in refl;
  same = SameEntries-refl s;
}
fill_active-Filled (p ∷ ps) zero s m h = record {
  after = s;
  active = [];
  runs = refl;
  found = rw (none_hot (p ∷ ps) h) refl;
  same = SameEntries-refl s;
}
fill_active-Filled (p ∷ ps) (suc left) s m h = elim (Bool-cases (ltb 0 p.revents)) [
  | inl some_hot ↦
      Filled-hot p ps left s m.0.0 some_hot m.0.1 (
        fill_active-Filled ps left (activated s m.0.0 p.revents) m.1
          (hot_left p ps left some_hot h))
  | inr cold ↦
      Filled-cold p ps left s cold
        (fill_active-Filled ps (suc left) s m.1 (cold_left p ps left cold h))
]
