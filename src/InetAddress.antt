-- ===== src/InetAddress.antt =====
-- CEventLoop/InetAddress.h and InetAddress.cc: an address that the code makes or prints. What the
-- memory of the object held is an argument of the constructors that do not write all of it.
mod Tests
pub mod Printing
use cevent_loop.Prelude.{ℕ, ◌/◌, ◌%◌, Bool, List, [], ◌∷◌, if◌then◌else◌, replicate}
use cevent_loop.Prelude.Segments.{overwrite}
use cevent_loop.Prelude.Text.{Text}
use cevent_loop.SocketsOps
use cevent_loop.SocketsOps.{Ntop, to_ip_port, family, af_inet, af_inet6}

pub record InetAddress : Type 0 where
  pub bytes : Text

-- `htobe16`
abbrev pub big_endian16 : ℕ → Text
big_endian16 n = n / 256 % 256 ∷ n % 256 ∷ []

abbrev pub family_bytes : ℕ → Text
family_bytes n = n % 256 ∷ n / 256 % 256 ∷ []

-- `InetAddress(port, loopbackOnly, ipv6)`. The address is the one for any host: `loopbackOnly` is not
-- read, as in the source.
unfoldable pub new : Text → ℕ → Bool → Bool → InetAddress
new stale port loopback_only ipv6 = record {
  bytes =
      if ipv6
      then (let zeroed = overwrite stale 0 (replicate 28 0) in
          let a = overwrite zeroed 0 (family_bytes af_inet6) in
          overwrite (overwrite a 8 (replicate 16 0)) 2 (big_endian16 port))
      else (let zeroed = overwrite stale 0 (replicate 16 0) in
          let a = overwrite zeroed 0 (family_bytes af_inet) in
          overwrite (overwrite a 2 (big_endian16 port)) 4 (replicate 4 0));
}

-- `InetAddress(std::string_view)` does not read the text.
unfoldable pub from_text : Text → Text → InetAddress
from_text stale text = record { bytes = overwrite stale 0 (family_bytes af_inet) }

-- `InetAddress(struct sockaddr_in6)` and `setSockAddrInet6`.
unfoldable pub set_sock_addr_inet6 : Text → InetAddress → InetAddress
set_sock_addr_inet6 bytes a = record a { bytes = bytes }

abbrev pub len : ℕ
len = 28

unfoldable pub to_ip_port_text : Ntop → InetAddress → Text
unfolding to_ip_port
to_ip_port_text ntop a = to_ip_port ntop [] 64 a.bytes
