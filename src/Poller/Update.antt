-- ===== src/Poller/Update.antt =====
-- `updateChannel` keeps the array and the map in agreement.
use cevent_loop.Prelude.{
  ℕ, ◌≡◌, ◌≢◌, ◌⊎◌, inl, inr, refl, true, false, none, some, get_elem?, [], ◌∷◌, ap, sym, ◌∙◌,
  arith, length, set, ok, get_elem?-set_self, get_elem?-set_ne, ℕ_discrete,
}
use cevent_loop.Prelude.Int.{ℤ, pos, is_negative}
use cevent_loop.Prelude.Maps.{put_cases, put_self, put_ne, store_self, store_ne}
use cevent_loop.Prelude.Elements.{
  get_elem?-push_cases, get_elem?-lt-length, get_elem?-append_left, get_elem?-push_last,
}
use cevent_loop.Channel.{set_index}
use cevent_loop.Poller.{Poller, PollFd, entry, update_channel, add_channel}
use cevent_loop.Poller.Valid.{one_channel, some-injective, Registered, IsValid}

-- A channel that is new to the poller, for a descriptor that has no channel yet.
pub record IsFresh (s : Poller) (c : ℕ) : Type 0 where
  pub unindexed : is_negative (s.heap c).index ≡ true
  pub opened : is_negative (s.heap c).fd ≡ false
  pub unmapped : s.channels (s.heap c).fd ≡ none

module _ {s : Poller} (v : IsValid s) (c : ℕ) (f : IsFresh s c) where
  -- A registered channel is another one, on another descriptor.
  other_channel : (d i : ℕ) (p : PollFd) → Registered s d i p → c ≢ d
  other_channel d i p r e =
      let indexed : is_negative (s.heap d).index ≡ false = ap is_negative r.index_of in
      cc (f.unindexed, indexed, e)

  other_fd : (d i : ℕ) (p : PollFd) → Registered s d i p → (s.heap c).fd ≢ p.fd
  other_fd d i p r e = let m : s.channels p.fd ≡ none = rw (← e) f.unmapped in cc (m, r.mapped)

  -- What was registered still is.
  kept : (d i : ℕ) (p : PollFd) → Registered s d i p → Registered (add_channel c s) d i p
  unfolding add_channel
  kept d i p r = record {
    opened = r.opened;
    entry_at =
        rw
          (get_elem?-append_left s.pollfds (entry (s.heap c) ∷ []) i
            (get_elem?-lt-length s.pollfds i r.entry_at))
          r.entry_at;
    mapped = rw (put_ne s.channels (s.heap c).fd p.fd (some c) (other_fd d i p r)) r.mapped;
    index_of =
        rw
          (store_ne s.heap c d (set_index (pos (length s.pollfds)) (s.heap c))
            (other_channel d i p r))
          r.index_of;
    fd_of =
        rw
          (store_ne s.heap c d (set_index (pos (length s.pollfds)) (s.heap c))
            (other_channel d i p r))
          r.fd_of;
  }

  pub added : Registered (add_channel c s) c (length s.pollfds) (entry (s.heap c))
  unfolding add_channel
  added = record {
    entry_at = get_elem?-push_last s.pollfds (entry (s.heap c));
    mapped = put_self s.channels (s.heap c).fd (some c);
    index_of = rw (store_self s.heap c (set_index (pos (length s.pollfds)) (s.heap c))) refl;
    fd_of = rw (store_self s.heap c (set_index (pos (length s.pollfds)) (s.heap c))) refl;
    opened = f.opened;
  }

  added_at :
      (i : ℕ) (p : PollFd)
      → i ≡ length s.pollfds
      → p ≡ entry (s.heap c)
      → Registered (add_channel c s) c i p
  added_at i p e q = rw (e, q) added

  owner_of :
      (fd : ℤ) (d : ℕ)
      → (add_channel c s).channels fd ≡ some d
      → (i : ℕ) × (p : PollFd) × Registered (add_channel c s) d i p × (p.fd ≡ fd)
  unfolding add_channel
  owner_of fd d e = elim (put_cases s.channels (s.heap c).fd fd (some c)) [
    | inl (here, w) ↦
        let one : c ≡ d = some-injective (sym w ∙ e) in
        rw (← one) (length s.pollfds, entry (s.heap c), added, here)
    | inr (there, w) ↦ let (i, p, r, q) = v.owners fd d (sym w ∙ e) in (i, p, kept d i p r, q)
  ]

  pub add_channel-IsValid : IsValid (add_channel c s)
  unfolding add_channel
  add_channel-IsValid = record {
    entries = λ i p e. elim (get_elem?-push_cases s.pollfds (entry (s.heap c)) p i e) [
      | inl old ↦ let (d, r) = v.entries i p old in (d, kept d i p r)
      | inr (last, new) ↦ (c, added_at i p last new)
    ];
    owners = owner_of;
  }

-- An update of a channel that is registered rewrites its entry in place.
module _ {s : Poller} (v : IsValid s) (c i : ℕ) (p : PollFd) (r : Registered s c i p) where
  rewritten : Poller
  rewritten = record s { pollfds = set s.pollfds i (entry (s.heap c)) }

  self_rewritten : Registered rewritten c i (entry (s.heap c))
  unfolding rewritten
  self_rewritten = record {
    entry_at =
        get_elem?-set_self s.pollfds i (entry (s.heap c))
          (get_elem?-lt-length s.pollfds i r.entry_at);
    mapped = rw r.fd_of r.mapped;
    index_of = r.index_of;
    fd_of = refl;
    opened = rw r.fd_of r.opened;
  }

  others_rewritten :
      (d j : ℕ) (q : PollFd) → i ≢ j → Registered s d j q → Registered rewritten d j q
  unfolding rewritten
  others_rewritten d j q n t = record {
    entry_at = rw (get_elem?-set_ne s.pollfds (entry (s.heap c)) n) t.entry_at;
    mapped = t.mapped;
    index_of = t.index_of;
    fd_of = t.fd_of;
    opened = t.opened;
  }

  entry_rewritten :
      (j : ℕ) (q : PollFd)
      → get_elem? rewritten.pollfds j ≡ some q
      → (d : ℕ) × Registered rewritten d j q
  unfolding rewritten
  entry_rewritten j q e = elim (ℕ_discrete i j) [
    | yes here ↦
        let found =
          get_elem?-set_self s.pollfds i (entry (s.heap c))
            (get_elem?-lt-length s.pollfds i r.entry_at) in
        let new : entry (s.heap c) ≡ q =
          some-injective (sym found ∙ (ap (get_elem? rewritten.pollfds) here ∙ e)) in
        rw (← here, ← new) (c, self_rewritten)
    | no there ↦
        let (d, t) =
          v.entries j q (sym (get_elem?-set_ne s.pollfds (entry (s.heap c)) there) ∙ e) in
        (d, others_rewritten d j q there t)
  ]

  owner_rewritten :
      (fd : ℤ) (d : ℕ)
      → s.channels fd ≡ some d
      → (j : ℕ) × (q : PollFd) × Registered rewritten d j q × (q.fd ≡ fd)
  unfolding rewritten
  owner_rewritten fd d e =
      let (j, q, t, k) = v.owners fd d e in
      elim (ℕ_discrete i j) [
        | yes here ↦
            let same : p ≡ q =
              some-injective (sym r.entry_at ∙ (ap (get_elem? s.pollfds) here ∙ t.entry_at)) in
            let one : c ≡ d = one_channel c d i j p q r t here in
            rw (← one)
              (i, entry (s.heap c), self_rewritten, r.fd_of ∙ (ap (λ (x : PollFd). x.fd) same ∙ k))
        | no there ↦ (j, q, others_rewritten d j q there t, k)
      ]

  rewritten-IsValid : IsValid rewritten
  unfolding rewritten
  rewritten-IsValid = record { entries = entry_rewritten; owners = owner_rewritten }

  update_registered : update_channel c s ≡ ok rewritten
  unfolding rewritten update_channel
  update_registered = let l = get_elem?-lt-length s.pollfds i r.entry_at in ground arith

  pub update_registered_lem :
      (s' : Poller) × (update_channel c s ≡ ok s')
      × IsValid s'
      × Registered s' c i (entry (s.heap c))
  update_registered_lem = (rewritten, update_registered, rewritten-IsValid, self_rewritten)

update_fresh : (s : Poller) (c : ℕ) → IsFresh s c → update_channel c s ≡ ok (add_channel c s)
unfolding update_channel
update_fresh s c f = rw f.unindexed

-- A channel that the poller knows, or that is new to it.
abbrev pub Known : Poller → ℕ → Type 0
Known s c = IsFresh s c ⊎ ((i : ℕ) × (p : PollFd) × Registered s c i p)

-- `updateChannel` of a channel that is registered, or that is new and on a descriptor without a
-- channel, goes through, keeps the array and the map in agreement, and leaves the channel registered
-- with the events that it asks for.
pub update_channel-IsValid :
    {s : Poller} (c : ℕ)
    → IsValid s
    → Known s c
    → (s' : Poller) × (update_channel c s ≡ ok s')
      × IsValid s'
      × ((i : ℕ) × Registered s' c i (entry (s.heap c)))
update_channel-IsValid {s} c v (inl f) = (
  add_channel c s,
  update_fresh s c f,
  add_channel-IsValid v c f,
  (length s.pollfds, added v c f),
)
update_channel-IsValid {s} c v (inr (i, p, r)) =
    let (s', e, v', r') = update_registered_lem v c i p r in (s', e, v', (i, r'))
