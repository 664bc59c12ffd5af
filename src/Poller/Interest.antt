-- ===== src/Poller/Interest.antt =====
-- `enableReading`, `enableWriting` and `disableAll` reach the array that the system polls.
use cevent_loop.Prelude.{ℕ, ◌≡◌, refl, inl, inr, ap, ◌∙◌, Exec, ok}
use cevent_loop.Prelude.Int.{is_negative}
use cevent_loop.Prelude.Maps.{store_cases, store_self}
use cevent_loop.Channel.{Channel, ask_writing, ask_reading, ask_nothing}
use cevent_loop.Poller.{
  Poller, PollFd, entry, modify, update_channel, enable_writing, enable_reading, disable_all,
}
use cevent_loop.Poller.Valid.{Registered, IsValid}
use cevent_loop.Poller.Update.{Known, update_channel-IsValid}

-- A change of a channel that leaves its descriptor and its index alone.
record Keeps (f : Channel → Channel) : Type 0 where
  fd_kept : (c : Channel) → (f c).fd ≡ c.fd
  index_kept : (c : Channel) → (f c).index ≡ c.index

module _ (f : Channel → Channel) (k : Keeps f) (s : Poller) (c : ℕ) where
  heap_fd : (d : ℕ) → ((modify f c s).heap d).fd ≡ (s.heap d).fd
  unfolding modify
  heap_fd d = elim (store_cases s.heap c d (f (s.heap c))) [
    | inl (e, w) ↦ rw (w, ← e) (k.fd_kept (s.heap c))
    | inr (n, w) ↦ rw w refl
  ]

  heap_index : (d : ℕ) → ((modify f c s).heap d).index ≡ (s.heap d).index
  unfolding modify
  heap_index d = elim (store_cases s.heap c d (f (s.heap c))) [
    | inl (e, w) ↦ rw (w, ← e) (k.index_kept (s.heap c))
    | inr (n, w) ↦ rw w refl
  ]

  modify-Registered : (d i : ℕ) (p : PollFd) → Registered s d i p → Registered (modify f c s) d i p
  unfolding modify
  modify-Registered d i p r = record {
    entry_at = r.entry_at;
    mapped = r.mapped;
    index_of = heap_index d ∙ r.index_of;
    fd_of = heap_fd d ∙ r.fd_of;
    opened = r.opened;
  }

  modify-IsValid : IsValid s → IsValid (modify f c s)
  unfolding modify
  modify-IsValid v = record {
    entries = λ i p e. let (d, r) = v.entries i p e in (d, modify-Registered d i p r);
    owners = λ fd d e. let (i, p, r, q) = v.owners fd d e in (i, p, modify-Registered d i p r, q);
  }

  modify-Known : Known s c → Known (modify f c s) c
  unfolding modify
  modify-Known (inl h) = inl (record {
    unindexed = ap is_negative (heap_index c) ∙ h.unindexed;
    opened = ap is_negative (heap_fd c) ∙ h.opened;
    unmapped = ap s.channels (heap_fd c) ∙ h.unmapped;
  })
  modify-Known (inr (i, p, r)) = inr (i, p, modify-Registered c i p r)

  interest_after :
      IsValid s
      → Known s c
      → (s' : Poller) × (update_channel c (modify f c s) ≡ ok s')
        × IsValid s'
        × ((i : ℕ) × Registered s' c i (entry (f (s.heap c))))
  unfolding modify
  interest_after v h =
      let (s', e, v', (i, r)) = update_channel-IsValid c (modify-IsValid v) (modify-Known h) in
      (s', e, v', (i, rw (ap entry (store_self s.heap c (f (s.heap c)))) at r))

-- What an operation that goes through leaves: a consistent poller, and an entry of the array for the
-- channel with the events that it then asks for.
abbrev pub Reaches : ℕ → Channel → Exec Poller → Type 0
Reaches c channel r =
    (s' : Poller) × (r ≡ ok s') × IsValid s' × ((i : ℕ) × Registered s' c i (entry channel))

-- `enableReading`, `enableWriting` and `disableAll` of a channel that is registered, or that is new on
-- a free descriptor, go through, keep the poller consistent, and leave an entry in the array with the
-- events that the channel then asks for.
pub interest-Reaches :
    (s : Poller) (c : ℕ)
    → IsValid s
    → Known s c
    → Reaches c (ask_reading (s.heap c)) (enable_reading c s)
      × Reaches c (ask_writing (s.heap c)) (enable_writing c s)
      × Reaches c (ask_nothing (s.heap c)) (disable_all c s)
unfolding enable_reading enable_writing disable_all ask_reading ask_writing ask_nothing
interest-Reaches s c v h = (
  interest_after ask_reading (record { fd_kept = λ d. refl; index_kept = λ d. refl }) s c v h,
  interest_after ask_writing (record { fd_kept = λ d. refl; index_kept = λ d. refl }) s c v h,
  interest_after ask_nothing (record { fd_kept = λ d. refl; index_kept = λ d. refl }) s c v h,
)
