-- ===== src/SocketsOps/Addresses.antt =====
-- When the two ends of a socket are the same.
use cevent_loop.Prelude.{
  ℕ, ◌≡◌, ◌⊎◌, inl, inr, ◌↔◌, refl, Bool, Bool-cases, true, false, ◌&&◌, Option, ◌==◌,
  if◌then◌else◌, ==_iff,
}
use cevent_loop.Prelude.Text.{Text, same_text, same_text_iff}
use cevent_loop.SocketsOps.{
  af_inet, af_inet6, family, port_bytes, address4, address6, get_addr, is_self_connect,
}

-- The family of the one end decides which bytes of both are the address.
abbrev SameEnd : Text → Text → Type 0
SameEnd a b =
    ((family a ≡ af_inet) × (port_bytes a ≡ port_bytes b) × (address4 a ≡ address4 b))
    ⊎ ((family a ≡ af_inet6) × (port_bytes a ≡ port_bytes b) × (address6 a ≡ address6 b))

both_true : (x y : Bool) → x && y ≡ true → (x ≡ true) × (y ≡ true)
both_true true y h = (refl, h)
both_true false y h = cc h

-- The conditional of `IsSelfConnect`, on the outcomes of its comparisons.
decided : ℕ → Bool → Bool → Bool → Bool
decided f p q r = if f == af_inet then p && q else if f == af_inet6 then p && r else false

decided_iff :
    (f : ℕ) (p q r : Bool)
    → (decided f p q r ≡ true)
      ↔ (((f ≡ af_inet) × (p ≡ true) × (q ≡ true)) ⊎ ((f ≡ af_inet6) × (p ≡ true) × (r ≡ true)))
unfolding decided
decided_iff f p q r = (
  λ h. elim (Bool-cases (f == af_inet)) [
    | inl e ↦ let (x, y) = both_true p q (rw e at h) in inl ((==_iff f af_inet).0 e, x, y)
    | inr n ↦ elim (Bool-cases (f == af_inet6)) [
      | inl e ↦ let (x, y) = both_true p r (rw (n, e) at h) in inr ((==_iff f af_inet6).0 e, x, y)
      | inr m ↦ let no : false ≡ true = rw (n, m) at h in cc no
    ]
  ],
  λ h. elim h [ inl (e, x, y) ↦ rw (e, x, y) refl | inr (e, x, y) ↦ rw (e, x, y) refl ],
)

-- `IsSelfConnect` holds exactly if the local end is of one of the two families and has the port and the
-- address of the other end, which need not be of the same family.
is_self_connect_iff :
    (local peer : Option Text)
    → (is_self_connect local peer ≡ true) ↔ SameEnd (get_addr local) (get_addr peer)
unfolding is_self_connect decided
is_self_connect_iff local peer =
    let a = get_addr local in
    let b = get_addr peer in
    let (p, p') = same_text_iff (port_bytes a) (port_bytes b) in
    let (q, q') = same_text_iff (address4 a) (address4 b) in
    let (r, r') = same_text_iff (address6 a) (address6 b) in
    let (to, from) =
      decided_iff (family a) (same_text (port_bytes a) (port_bytes b))
        (same_text (address4 a) (address4 b)) (same_text (address6 a) (address6 b)) in
    (
      λ h. elim (to h) [ inl (f, x, y) ↦ inl (f, p x, q y) | inr (f, x, y) ↦ inr (f, p x, r y) ],
      λ h.
          from
            (elim h [ inl (f, x, y) ↦ inl (f, p' x, q' y) | inr (f, x, y) ↦ inr (f, p' x, r' y) ]),
    )
