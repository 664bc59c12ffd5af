-- ===== src/Poller/Poll.antt =====
-- `poll`: which channels come back, and that the poller stays consistent.
use cevent_loop.Prelude.{
  dec_lt, ℕ, zero, suc, ◌<◌, ◌≡◌, refl, true, Option, some, get_elem?, List, [], ◌∷◌, map, ap, sym,
  ◌∙◌, arith, length, ok, ◌>>=◌, ltb,
}
use cevent_loop.Prelude.Int.{ℤ}
use cevent_loop.Poller.{Poller, PollFd, poll, happened, with_revents}
use cevent_loop.Poller.Valid.{Registered, IsValid, some-injective}
use cevent_loop.Poller.Active.{none_hot, hot, SameEntries, AllMapped, Filled, fill_active-Filled}

SameEntries-IsValid : {s s' : Poller} → SameEntries s s' → IsValid s → IsValid s'
SameEntries-IsValid {s} {s'} e v = record {
  entries = λ i p at.
      let (c, r) = v.entries i p (ap (λ l. get_elem? l i) (sym e.pollfds_eq) ∙ at) in
      (c, carry c i p r);
  owners = λ fd c m.
      let (i, p, r, k) = v.owners fd c (ap (λ (f : ℤ → Option ℕ). f fd) (sym e.channels_eq) ∙ m) in
      (i, p, carry c i p r, k);
}
  where
    carry : (c i : ℕ) (p : PollFd) → Registered s c i p → Registered s' c i p
    carry c i p r = record {
      entry_at = rw e.pollfds_eq r.entry_at;
      mapped = rw e.channels_eq r.mapped;
      index_of = e.index_eq c ∙ r.index_of;
      fd_of = e.fd_eq c ∙ r.fd_of;
      opened = r.opened;
    }

-- Storing `revents` moves no descriptor.
stored_entry :
    (rs : List ℕ) (ps : List PollFd) (i : ℕ) (p : PollFd)
    → get_elem? (with_revents rs ps) i ≡ some p
    → (q : PollFd) × (get_elem? ps i ≡ some q) × (p.fd ≡ q.fd)
stored_entry [] ps i p e = (p, e, refl)
stored_entry (r ∷ rs) [] i p e = absurd (cc)
stored_entry (r ∷ rs) (q ∷ ps) zero p e =
    (q, refl, ap (λ (x : PollFd). x.fd) (some-injective (sym e)))
stored_entry (r ∷ rs) (q ∷ ps) (suc i) p e = stored_entry rs ps i p e

entry_stored :
    (rs : List ℕ) (ps : List PollFd) (i : ℕ) (q : PollFd)
    → get_elem? ps i ≡ some q
    → (p : PollFd) × (get_elem? (with_revents rs ps) i ≡ some p) × (p.fd ≡ q.fd)
entry_stored [] ps i q e = (q, e, refl)
entry_stored (r ∷ rs) [] i q e = absurd (cc)
entry_stored (r ∷ rs) (x ∷ ps) zero q e =
    (record x { revents = r }, refl, ap (λ (y : PollFd). y.fd) (some-injective e))
entry_stored (r ∷ rs) (x ∷ ps) (suc i) q e = entry_stored rs ps i q e

abbrev pub polled : List ℕ → Poller → Poller
polled rs s = record s { pollfds = with_revents rs s.pollfds }

pub polled-IsValid : (rs : List ℕ) {s : Poller} → IsValid s → IsValid (polled rs s)
polled-IsValid rs {s} v = record {
  entries = λ i p e.
      let (q, e', k) = stored_entry rs s.pollfds i p e in
      let (c, r) = v.entries i q e' in (c, moved c i q p r e k);
  owners = λ fd c m.
      let (i, q, r, k) = v.owners fd c m in
      let (p, e, k') = entry_stored rs s.pollfds i q r.entry_at in
      (i, p, moved c i q p r e k', k' ∙ k);
}
  where
    moved :
        (c i : ℕ) (q p : PollFd)
        → Registered s c i q
        → get_elem? (with_revents rs s.pollfds) i ≡ some p
        → p.fd ≡ q.fd
        → Registered (polled rs s) c i p
    moved c i q p r e k = record {
      entry_at = e;
      mapped = rw k r.mapped;
      index_of = r.index_of;
      fd_of = r.fd_of ∙ sym k;
      opened = rw k r.opened;
    }

pub all_mapped :
    (channels : ℤ → Option ℕ) (ps : List PollFd)
    → ((i : ℕ) (p : PollFd) → get_elem? ps i ≡ some p → (c : ℕ) × (channels p.fd ≡ some c))
    → AllMapped channels ps
all_mapped channels [] h = tt
all_mapped channels (p ∷ ps) h = (h zero p refl, all_mapped channels ps (λ i q e. h (suc i) q e))

poll_runs :
    (n : ℕ) (rs : List ℕ) (s : Poller)
    → 0 < n
    → (f : Filled (with_revents rs s.pollfds) n (polled rs s))
    → poll (happened n rs) s ≡ ok (0, f.after, f.active)
unfolding poll
poll_runs n rs s h f = let t : ltb 0 n ≡ true = ground arith in rw t (rw (f.runs, ◌>>=◌) refl)

poll_idle : (rs : List ℕ) (s : Poller) → poll (happened 0 rs) s ≡ ok (0, polled rs s, [])
unfolding poll
poll_idle rs s = refl

-- Where `::poll` returns the number of entries that have events, `poll` goes through, gives back the
-- channels of exactly those entries in the order of the array, and the poller stays consistent.
poll_lem :
    (n : ℕ) (rs : List ℕ) {s : Poller}
    → IsValid s
    → n ≡ length (hot (with_revents rs s.pollfds))
    → (s' : Poller) × (active : List ℕ) × (poll (happened n rs) s ≡ ok (0, s', active))
      × (map some active ≡ map (λ p. s.channels p.fd) (hot (with_revents rs s.pollfds)))
      × IsValid s'
poll_lem n rs {s} v e = elim (dec_lt 0 n) [
  | yes some_event ↦
      (f.after, f.active, poll_runs n rs s some_event f, f.found, SameEntries-IsValid f.same after)
  | no nothing ↦
      let zero_events : n ≡ 0 = omega arith in
      (
        polled rs s,
        [],
        rw zero_events (poll_idle rs s),
        rw (none_hot (with_revents rs s.pollfds) (omega (arith, e))) refl,
        after,
      )
]
  where
    after : IsValid (polled rs s)
    after = polled-IsValid rs v

    mapped : AllMapped s.channels (with_revents rs s.pollfds)
    mapped =
        all_mapped s.channels (with_revents rs s.pollfds)
          (λ i p at. let (c, r) = after.entries i p at in (c, r.mapped))

    f : Filled (with_revents rs s.pollfds) n (polled rs s)
    f = fill_active-Filled (with_revents rs s.pollfds) n (polled rs s) mapped (omega (arith, e))
