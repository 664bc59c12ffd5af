-- ===== src/Connector/Channels.antt =====
-- The channel of an attempt: how it gets into the poller, and out of it.
use cevent_loop.Prelude.{ℕ, ◌≡◌, ◌≢◌, inr, sym, ap, ◌∙◌, none, some, ok}
use cevent_loop.Prelude.Int.{ℤ}
use cevent_loop.Prelude.Maps.{store, store_ne, put_self}
use cevent_loop.Channel.{Channel, ask_nothing}
use cevent_loop.Poller.{Poller, PollFd, disable_all, remove_channel}
use cevent_loop.Poller.Valid.{IsValid, Registered}
use cevent_loop.Poller.Interest.{interest-Reaches}
use cevent_loop.Poller.Remove.{Removed, remove_channel-Removed}

-- A new object at an address that no entry of the map leads to.
abbrev pub placed : Poller → ℕ → Channel → Poller
placed p address c = record p { heap = store p.heap address c }

abbrev pub Unused : Poller → ℕ → Type 0
Unused p address = (fd : ℤ) → p.channels fd ≢ some address

module _ {p : Poller} (v : IsValid p) (address : ℕ) (unused : Unused p address) (c : Channel) where
  other_heap : (d i : ℕ) (e : PollFd) → Registered p d i e → store p.heap address c d ≡ p.heap d
  other_heap d i e r =
      store_ne p.heap address d c (λ same. unused e.fd (r.mapped ∙ ap some (sym same)))

  kept : (d i : ℕ) (e : PollFd) → Registered p d i e → Registered (placed p address c) d i e
  kept d i e r = record {
    entry_at = r.entry_at;
    mapped = r.mapped;
    index_of = ap (λ (x : Channel). x.index) (other_heap d i e r) ∙ r.index_of;
    fd_of = ap (λ (x : Channel). x.fd) (other_heap d i e r) ∙ r.fd_of;
    opened = r.opened;
  }

  pub placed-IsValid : IsValid (placed p address c)
  placed-IsValid = record {
    entries = λ i e g. let (d, r) = v.entries i e g in (d, kept d i e r);
    owners = λ fd d g. let (i, e, r, q) = v.owners fd d g in (i, e, kept d i e r, q);
  }

-- A registered channel is on its descriptor, and goes from the poller.
pub retire :
    (p : Poller) (c i : ℕ) (e : PollFd)
    → IsValid p
    → Registered p c i e
    → (q s : Poller) × (disable_all c p ≡ ok q)
      × (remove_channel c q ≡ ok s)
      × ((s.heap c).fd ≡ e.fd)
      × (s.channels e.fd ≡ none)
      × Removed q c s
unfolding ask_nothing
retire p c i e v r =
    let (q, silenced, v', (j, t)) = (interest-Reaches p c v (inr (i, e, r))).2 in
    let (s, removed, k) = remove_channel-Removed c j _ v' t in
    let on_it : (q.heap c).fd ≡ e.fd = t.fd_of ∙ r.fd_of in
    (
      q,
      s,
      silenced,
      removed,
      ap (λ (x : Channel). x.fd) k.heap_of ∙ on_it,
      ap s.channels (sym on_it)
          ∙ k.channels_of (q.heap c).fd
          ∙ put_self q.channels (q.heap c).fd none,
      k,
    )
