-- ===== src/Poller/Valid.antt =====
-- When the array and the map of the poller agree.
use cevent_loop.Prelude.{false, ℕ, ◌≡◌, some, get_elem?, sym, ◌∙◌}
use cevent_loop.Prelude.Int.{is_negative, ℤ, pos}
use cevent_loop.Poller.{Poller, PollFd}

-- Channel `c` is registered: entry `i` of the array is for its descriptor, which is no -1, and it
-- knows that position.
pub record Registered (s : Poller) (c : ℕ) (i : ℕ) (p : PollFd) : Type 0 where
  pub entry_at : get_elem? s.pollfds i ≡ some p
  pub mapped : s.channels p.fd ≡ some c
  pub index_of : (s.heap c).index ≡ pos i
  pub fd_of : (s.heap c).fd ≡ p.fd
  pub opened : is_negative p.fd ≡ false

-- Every entry of the array and every entry of the map belongs to a registered channel.
pub record IsValid (s : Poller) : Type 0 where
  pub entries : (i : ℕ) (p : PollFd) → get_elem? s.pollfds i ≡ some p → (c : ℕ) × Registered s c i p
  pub owners :
      (fd : ℤ) (c : ℕ)
      → s.channels fd ≡ some c
      → (i : ℕ) × (p : PollFd) × Registered s c i p × (p.fd ≡ fd)

pub some-injective : {A : Type 0} {a b : A} → some a ≡ some b → a ≡ b
some-injective e = cc

-- A descriptor has one entry.
pub one_entry :
    {s : Poller}
    → IsValid s
    → (i j : ℕ) (p q : PollFd) → get_elem? s.pollfds i ≡ some p
    → get_elem? s.pollfds j ≡ some q
    → p.fd ≡ q.fd
    → i ≡ j
one_entry v i j p q e f same =
    let (c, r) = v.entries i p e in
    let (d, t) = v.entries j q f in
    let one : c ≡ d = cc (r.mapped, t.mapped, same) in
    let index : pos i ≡ pos j = cc (r.index_of, t.index_of, one) in cc index

-- A position has one entry, and an entry one channel.
pub one_channel :
    {s : Poller} (c d i j : ℕ) (p q : PollFd)
    → Registered s c i p
    → Registered s d j q
    → i ≡ j
    → c ≡ d
one_channel {s} c d i j p q r t e =
    let here : get_elem? s.pollfds i ≡ some q = rw e t.entry_at in
    let same : p ≡ q = some-injective (sym r.entry_at ∙ here) in cc (r.mapped, t.mapped, same)
