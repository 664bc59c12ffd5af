-- ===== src/Poller/Remove.antt =====
-- `removeChannel` takes one descriptor out and keeps the array and the map in agreement.
use cevent_loop.Prelude.{
  ℕ, ◌+◌, ◌-◌, ◌<◌, ◌≡◌, ◌≢◌, inl, inr, refl, false, none, some, get_elem?, List, ap, sym, ◌∙◌,
  arith, length, set, ok, get_elem?-set_self, get_elem?-set_ne, ℕ_discrete, length-set, length-take,
}
use cevent_loop.Prelude.Int.{ℤ, pos, negsuc, is_negative, same}
use cevent_loop.Prelude.Maps.{put, store, put_cases, put_ne, store_self, store_ne}
use cevent_loop.Prelude.Elements.{
  get_elem?-lt-length, get_elem?-of_lt, get_elem?-take, get_elem?-take_lt,
}
use cevent_loop.Channel.{set_index}
use cevent_loop.Poller.{Poller, PollFd, remove_channel, restored, swap_last, pop_back}
use cevent_loop.Poller.Valid.{Registered, IsValid, one_entry, one_channel, some-injective}

restored_lem : (fd : ℤ) → is_negative fd ≡ false → restored fd ≡ fd
restored_lem (pos n) h = refl
restored_lem (negsuc n) h = absurd (cc)

-- What one removal comes to, whichever entry goes.
pub record Removed (s : Poller) (c : ℕ) (s' : Poller) : Type 0 where
  pub valid : IsValid s'
  pub channels_of : (fd : ℤ) → s'.channels fd ≡ put s.channels (s.heap c).fd none fd
  pub shorter : length s'.pollfds + 1 ≡ length s.pollfds
  pub heap_of : s'.heap c ≡ s.heap c

module _ {s : Poller} (v : IsValid s) (c i : ℕ) (p : PollFd) (r : Registered s c i p) where
  -- A registered channel at another position is on another descriptor, and another channel.
  fd_differs : (d j : ℕ) (q : PollFd) → i ≢ j → Registered s d j q → p.fd ≢ q.fd
  fd_differs d j q n t e = n (one_entry v i j p q r.entry_at t.entry_at e)

  -- A registration survives where its entry and its channel do.
  survives :
      (s' : Poller) (d j : ℕ) (q : PollFd)
      → i ≢ j
      → get_elem? s'.pollfds j ≡ some q
      → s'.channels ≡ put s.channels p.fd none
      → s'.heap d ≡ s.heap d
      → Registered s d j q
      → Registered s' d j q
  survives s' d j q n e m h t = record {
    entry_at = e;
    mapped = rw m (rw (put_ne s.channels p.fd q.fd none (fd_differs d j q n t)) t.mapped);
    index_of = rw h t.index_of;
    fd_of = rw h t.fd_of;
    opened = t.opened;
  }

  -- What is still in the map was registered at another position.
  remaining :
      (fd : ℤ) (d : ℕ)
      → put s.channels p.fd none fd ≡ some d
      → (j : ℕ) × (q : PollFd) × Registered s d j q × (q.fd ≡ fd) × (i ≢ j)
  remaining fd d e = elim (put_cases s.channels p.fd fd none) [
    | inl (here, w) ↦ let no_entry : none ≡ some d = sym w ∙ e in cc no_entry
    | inr (there, w) ↦
        let (j, q, t, k) = v.owners fd d (sym w ∙ e) in
        (
          j,
          q,
          t,
          k,
          λ at. there (
              ap (λ (x : PollFd). x.fd)
                (some-injective (sym r.entry_at ∙ (ap (get_elem? s.pollfds) at ∙ t.entry_at)))
              ∙ k),
        )
  ]

  -- The last entry goes.
  module _ (last : i ≡ length s.pollfds - 1) where
    popped : Poller
    popped = record s { pollfds = pop_back s.pollfds; channels = put s.channels p.fd none }

    entry_popped :
        (j : ℕ) (q : PollFd)
        → get_elem? popped.pollfds j ≡ some q
        → (d : ℕ) × Registered popped d j q
    unfolding popped
    entry_popped j q e =
        let l = get_elem?-take_lt (length s.pollfds - 1) s.pollfds j e in
        let e' : get_elem? s.pollfds j ≡ some q =
          sym (get_elem?-take (length s.pollfds - 1) s.pollfds j l) ∙ e in
        let (d, t) = v.entries j q e' in (d, survives popped d j q (omega arith) e refl refl t)

    owner_popped :
        (fd : ℤ) (d : ℕ)
        → popped.channels fd ≡ some d
        → (j : ℕ) × (q : PollFd) × Registered popped d j q × (q.fd ≡ fd)
    unfolding popped
    owner_popped fd d e =
        let (j, q, t, k, n) = remaining fd d e in
        let l = get_elem?-lt-length s.pollfds j t.entry_at in
        let e' = get_elem?-take (length s.pollfds - 1) s.pollfds j (omega arith) ∙ t.entry_at in
        (j, q, survives popped d j q n e' refl refl t, k)

    popped-Removed : Removed s c popped
    unfolding popped
    popped-Removed = record {
      heap_of = refl;
      valid = record { entries = entry_popped; owners = owner_popped };
      channels_of = λ fd. rw r.fd_of refl;
      shorter =
          let l = get_elem?-lt-length s.pollfds i r.entry_at in
          omega (arith, length-take (length s.pollfds - 1) s.pollfds);
    }

    remove_last : remove_channel c s ≡ ok popped
    unfolding popped remove_channel
    remove_last =
        let l = get_elem?-lt-length s.pollfds i r.entry_at in
        ground (arith, r.entry_at, r.mapped, r.index_of, r.fd_of)

  -- The last entry, of channel `d`, moves to where the other one was.
  module _ (d : ℕ) (q : PollFd) (t : Registered s d (length s.pollfds - 1) q)
      (inner : i ≢ length s.pollfds - 1) where
    swapped : List PollFd
    swapped = swap_last s.pollfds i p q

    length-swapped : length swapped ≡ length s.pollfds
    unfolding swapped
    length-swapped =
        length-set (set s.pollfds i q) (length s.pollfds - 1) p ∙ length-set s.pollfds i q

    filled : Poller
    filled = record s {
      pollfds = pop_back swapped;
      channels = put s.channels p.fd none;
      heap = store s.heap d (set_index (pos i) (s.heap d));
    }

    -- What stands before the end, apart from the hole, is as before.
    get-filled :
        (j : ℕ)
        → i ≢ j
        → j < length s.pollfds - 1
        → get_elem? filled.pollfds j ≡ get_elem? s.pollfds j
    unfolding filled swapped
    get-filled j n l =
        get_elem?-take (length swapped - 1) swapped j (omega (arith, length-swapped))
        ∙ (get_elem?-set_ne (set s.pollfds i q) p (λ e. absurd (omega arith))
            ∙ get_elem?-set_ne s.pollfds q n)

    get-filled_hole : get_elem? filled.pollfds i ≡ some q
    unfolding filled swapped
    get-filled_hole =
        let l = get_elem?-lt-length s.pollfds i r.entry_at in
        get_elem?-take (length swapped - 1) swapped i (omega (arith, length-swapped))
        ∙ (get_elem?-set_ne (set s.pollfds i q) p (λ e. absurd (omega arith))
            ∙ get_elem?-set_self s.pollfds i q l)

    before_end :
        (j : ℕ) (x : PollFd) → get_elem? filled.pollfds j ≡ some x → j < length s.pollfds - 1
    unfolding filled
    before_end j x e =
        omega (arith, get_elem?-take_lt (length swapped - 1) swapped j e, length-swapped)

    moved : Registered filled d i q
    unfolding filled set_index
    moved = record {
      entry_at = get-filled_hole;
      mapped =
          rw (put_ne s.channels p.fd q.fd none (fd_differs d (length s.pollfds - 1) q inner t))
            t.mapped;
      index_of = rw (store_self s.heap d (set_index (pos i) (s.heap d))) refl;
      fd_of = rw (store_self s.heap d (set_index (pos i) (s.heap d))) t.fd_of;
      opened = t.opened;
    }

    kept :
        (e j : ℕ) (x : PollFd)
        → i ≢ j
        → j < length s.pollfds - 1
        → Registered s e j x
        → Registered filled e j x
    unfolding filled
    kept e j x n l u =
        survives filled e j x n (get-filled j n l ∙ u.entry_at) refl
          (store_ne s.heap d e (set_index (pos i) (s.heap d)) other) u
      where
        other : d ≢ e
        other same =
            let index : pos (length s.pollfds - 1) ≡ pos j = cc (t.index_of, u.index_of, same) in
            let position : length s.pollfds - 1 ≡ j = cc index in absurd (omega arith)

    entry_filled :
        (j : ℕ) (x : PollFd)
        → get_elem? filled.pollfds j ≡ some x
        → (e : ℕ) × Registered filled e j x
    entry_filled j x h = elim (ℕ_discrete i j) [
      | yes here ↦
          let new : q ≡ x =
            some-injective (sym get-filled_hole ∙ (ap (get_elem? filled.pollfds) here ∙ h)) in
          rw (← here, ← new) (d, moved)
      | no there ↦
          let l = before_end j x h in
          let (e, u) = v.entries j x (sym (get-filled j there l) ∙ h) in (e, kept e j x there l u)
    ]

    owner_filled :
        (fd : ℤ) (e : ℕ)
        → filled.channels fd ≡ some e
        → (j : ℕ) × (x : PollFd) × Registered filled e j x × (x.fd ≡ fd)
    unfolding filled
    owner_filled fd e h =
        let (j, x, u, k, n) = remaining fd e h in
        elim (ℕ_discrete j (length s.pollfds - 1)) [
          | yes at_end ↦
              let one : d ≡ e = one_channel d e (length s.pollfds - 1) j q x t u (sym at_end) in
              let same : q ≡ x =
                some-injective
                  (sym t.entry_at ∙ (ap (get_elem? s.pollfds) (sym at_end) ∙ u.entry_at)) in
              rw (← one) (i, q, moved, ap (λ (y : PollFd). y.fd) same ∙ k)
          | no inside ↦
              let l = get_elem?-lt-length s.pollfds j u.entry_at in
              (j, x, kept e j x n (omega arith) u, k)
        ]

    filled-Removed : Removed s c filled
    unfolding filled
    filled-Removed = record {
      heap_of = store_ne s.heap d c (set_index (pos i) (s.heap d)) another;
      valid = record { entries = entry_filled; owners = owner_filled };
      channels_of = λ fd. rw r.fd_of refl;
      shorter =
          let l = get_elem?-lt-length s.pollfds i r.entry_at in
          omega (arith, length-take (length swapped - 1) swapped, length-swapped);
    }
      where
        another : d ≢ c
        another same =
            let index : pos (length s.pollfds - 1) ≡ pos i = cc (t.index_of, r.index_of, same) in
            let position : length s.pollfds - 1 ≡ i = cc index in inner (sym position)

    remove_inner : remove_channel c s ≡ ok filled
    unfolding filled swapped remove_channel
    remove_inner =
        let l = get_elem?-lt-length s.pollfds i r.entry_at in
        let m = put_ne s.channels p.fd q.fd none (fd_differs d (length s.pollfds - 1) q inner t) in
        ground (
          arith,
          r.entry_at,
          r.mapped,
          r.index_of,
          r.fd_of,
          t.entry_at,
          t.mapped,
          restored_lem q.fd t.opened,
          m,
        )

-- `removeChannel` of a registered channel goes through, takes exactly its descriptor out of the map and
-- one entry out of the array, and keeps the two in agreement, also where it moves the last entry.
pub remove_channel-Removed :
    {s : Poller} (c i : ℕ) (p : PollFd)
    → IsValid s
    → Registered s c i p
    → (s' : Poller) × (remove_channel c s ≡ ok s') × Removed s c s'
remove_channel-Removed {s} c i p v r = elim (ℕ_discrete i (length s.pollfds - 1)) [
  | yes last ↦ (popped v c i p r last, remove_last v c i p r last, popped-Removed v c i p r last)
  | no inner ↦
      let l = get_elem?-lt-length s.pollfds i r.entry_at in
      let (q, e) = get_elem?-of_lt s.pollfds (length s.pollfds - 1) (omega arith) in
      let (d, t) = v.entries (length s.pollfds - 1) q e in
      (
        filled v c i p r d q t inner,
        remove_inner v c i p r d q t inner,
        filled-Removed v c i p r d q t inner,
      )
]
