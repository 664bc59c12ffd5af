-- ===== src/Poller/Stale.antt =====
-- A removed channel keeps its old index: what an update of it does to the array.
use cevent_loop.Prelude.{
  ℕ, ◌-◌, ◌<◌, ◌≡◌, ◌≢◌, none, some, sym, ap, get_elem?, ◌∙◌, arith, length, set, ok,
  get_elem?-set_self,
}
use cevent_loop.Prelude.Int.{pos}
use cevent_loop.Channel.{Channel}
use cevent_loop.Prelude.Maps.{put_self}
use cevent_loop.Prelude.Elements.{get_elem?-lt-length, get_elem?-of_lt}
use cevent_loop.Poller.{Poller, PollFd, entry, update_channel, remove_channel}
use cevent_loop.Poller.Valid.{Registered, IsValid}
use cevent_loop.Poller.Remove.{Removed, remove_channel-Removed}

module _ {s s' : Poller} (c i : ℕ) (p : PollFd) (r : Registered s c i p) (m : Removed s c s')
    (inner : i ≢ length s.pollfds - 1) where
  overwritten : Poller
  overwritten = record s' { pollfds = set s'.pollfds i (entry (s.heap c)) }

  in_range : i < length s'.pollfds
  in_range = omega (arith, m.shorter, get_elem?-lt-length s.pollfds i r.entry_at)

  update_overwrites : update_channel c s' ≡ ok overwritten
  unfolding update_channel overwritten
  update_overwrites = let l = in_range in ground (arith, m.heap_of, r.index_of)

  overwritten-not-IsValid : ¬ IsValid overwritten
  unfolding overwritten
  overwritten-not-IsValid v =
      let (d, t) =
        v.entries i (entry (s.heap c))
          (get_elem?-set_self s'.pollfds i (entry (s.heap c)) in_range) in
      let gone = m.channels_of (s.heap c).fd ∙ put_self s.channels (s.heap c).fd none in
      let both : none ≡ some d = sym gone ∙ t.mapped in cc both

  -- Another channel had moved to the position of the one that was removed.
  moved_in : (d : ℕ) × (q : PollFd) × Registered s' d i q
  moved_in =
      let (q, e) = get_elem?-of_lt s'.pollfds i in_range in
      let (d, t) = m.valid.entries i q e in (d, q, t)

  not_itself : (d : ℕ) (q : PollFd) → Registered s' d i q → c ≢ d
  not_itself d q t e =
      let fd : (s.heap c).fd ≡ q.fd =
        ap (λ (x : Channel). x.fd) (sym m.heap_of) ∙ ap (λ x. (s'.heap x).fd) e ∙ t.fd_of in
      let gone : s'.channels q.fd ≡ none =
        ap s'.channels (sym fd)
        ∙ m.channels_of (s.heap c).fd
        ∙ put_self s.channels (s.heap c).fd none in
      let both : none ≡ some d = sym gone ∙ t.mapped in cc both

-- What the update does to the channel `d` whose entry it takes: the entry is for the descriptor of `c`
-- now, while `d` is in the map and knows that position as before.
pub record TakenOver (c d i : ℕ) (q : PollFd) (s' s'' : Poller) : Type 0 where
  pub other : c ≢ d
  pub before : Registered s' d i q
  pub overwritten_by : get_elem? s''.pollfds i ≡ some (entry (s'.heap c))
  pub still_mapped : s''.channels q.fd ≡ some d
  pub still_indexed : (s''.heap d).index ≡ pos i

-- A channel that is removed from before the end of the array and then passed to `updateChannel` once
-- more: both calls go through, and the second one puts the entry of the channel in the place of the
-- entry of another channel, which is still in the map and still has that index, so that the array and
-- the map disagree.
pub stale_update :
    {s : Poller} (c i : ℕ) (p : PollFd)
    → IsValid s
    → Registered s c i p
    → i ≢ length s.pollfds - 1
    → (s' s'' : Poller) × (remove_channel c s ≡ ok s')
      × (update_channel c s' ≡ ok s'')
      × ((d : ℕ) × (q : PollFd) × TakenOver c d i q s' s'')
      × (¬ IsValid s'')
unfolding overwritten
stale_update {s} c i p v r inner =
    let (s', e, m) = remove_channel-Removed c i p v r in
    let (d, q, t) = moved_in c i p r m inner in
    (
      s',
      overwritten c i p r m inner,
      e,
      update_overwrites c i p r m inner,
      (
        d,
        q,
        record {
          other = not_itself c i p r m inner d q t;
          before = t;
          overwritten_by =
              get_elem?-set_self s'.pollfds i (entry (s.heap c)) (in_range c i p r m inner)
              ∙ ap (λ x. some (entry x)) (sym m.heap_of);
          still_mapped = t.mapped;
          still_indexed = t.index_of;
        },
      ),
      overwritten-not-IsValid c i p r m inner,
    )
