-- ===== src/InetAddress/Printing.antt =====
-- The text of an address that the code makes.
use cevent_loop.Prelude.{
  ℕ, ◌+◌, ◌-◌, ◌≤◌, ◌<◌, ◌≡◌, refl, ap, ◌∙◌, Bool, true, false, [], ◌∷◌, ◌++◌, arith, length,
  append-nil, drop,
}
use cevent_loop.Prelude.Segments.{take_of_length-le, drop-append-exact, drop-drop}
use cevent_loop.Prelude.Text.{Text, decimal, read_decimal}
use cevent_loop.Prelude.Decimal.{read_decimal-decimal, length-decimal}
use cevent_loop.SocketsOps.{Ntop, af_inet, af_inet6, port, to_ip, to_ip_port, address4, address6}
use cevent_loop.InetAddress.{InetAddress, new, to_ip_port_text}

-- The text of an address takes at most INET6_ADDRSTRLEN bytes, its zero byte included.
abbrev pub Short : Ntop → Type 0
Short ntop = (f : ℕ) (bytes : Text) → length (ntop f bytes) ≤ 45

to_ip-Short : (ntop : Ntop) (a : Text) → Short ntop → length (to_ip ntop [] 64 a) ≤ 45
unfolding to_ip
to_ip-Short ntop a short = ground (arith, short af_inet (address4 a), short af_inet6 (address6 a))

-- With room for 64 bytes nothing of a port below 2 ^ 16 is cut.
pub printed_text :
    (ntop : Ntop) (a : InetAddress)
    → Short ntop
    → port a.bytes < 65536
    → to_ip_port_text ntop a ≡ to_ip ntop [] 64 a.bytes ++ (b':' ∷ decimal (port a.bytes))
unfolding to_ip_port_text to_ip_port
printed_text ntop a short small =
    let ip = to_ip-Short ntop a.bytes short in
    let digits = length-decimal (port a.bytes) (omega arith) in
    ap (λ t. to_ip ntop [] 64 a.bytes ++ t)
      (take_of_length-le (64 - length (to_ip ntop [] 64 a.bytes) - 1)
        (b':' ∷ decimal (port a.bytes)) (omega arith))

port_of-new :
    (stale : Text) (n : ℕ) (loopback ipv6 : Bool)
    → n < 65536
    → port (new stale n loopback ipv6).bytes ≡ n
unfolding new
port_of-new stale n loopback true h = omega arith
port_of-new stale n loopback false h = omega arith

read_behind :
    (host : Text) (n : ℕ) {t : Text}
    → t ≡ host ++ (b':' ∷ decimal n)
    → read_decimal (drop (length host + 1) t) ≡ n
read_behind host n e =
    rw
      (
        e,
        ← drop-drop (length host) 1 (host ++ (b':' ∷ decimal n)),
        drop-append-exact (length host) host (b':' ∷ decimal n) refl,
        ← append-nil (decimal n),
      )
      (read_decimal-decimal n [] tt)

-- An address made for a port prints as a host, a colon and the digits of the port, whatever its family
-- and whatever its memory held: reading the number behind the colon gives the port back. `inet_ntop`
-- makes texts of at most 45 bytes.
pub port_roundtrip :
    (ntop : Ntop) (stale : Text) (n : ℕ) (loopback ipv6 : Bool)
    → Short ntop
    → n < 65536
    → (host : Text) × (to_ip_port_text ntop (new stale n loopback ipv6)
        ≡ host ++ (b':' ∷ decimal n))
      × (read_decimal (drop (length host + 1) (to_ip_port_text ntop (new stale n loopback ipv6)))
          ≡ n)
port_roundtrip ntop stale n loopback ipv6 short h =
    let a : InetAddress = new stale n loopback ipv6 in
    let host : Text = to_ip ntop [] 64 a.bytes in
    let same : port a.bytes ≡ n = port_of-new stale n loopback ipv6 h in
    let whole : to_ip_port_text ntop a ≡ host ++ (b':' ∷ decimal n) =
      printed_text ntop a short (omega (arith, same)) ∙ ap (λ k. host ++ (b':' ∷ decimal k)) same in
    (host, whole, read_behind host n whole)
