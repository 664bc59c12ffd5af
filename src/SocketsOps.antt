-- ===== src/SocketsOps.antt =====
-- CEventLoop/SocketsOps.h and SocketsOps.cc: addresses as the system stores them, and what the wrappers
-- of system calls do beyond the call. An address is the 28 bytes of a `sockaddr_in6`; a `sockaddr_in`
-- lies over its beginning. The host stores its numbers with the low byte first.
mod Tests
pub mod Addresses
pub mod Calls
pub mod Results
use cevent_loop.Prelude.{
  ℕ, ◌+◌, ◌-◌, ◌*◌, ◌/◌, ◌%◌, Bool, true, false, ◌&&◌, Option, none, some, List, [], ◌∷◌, ◌++◌, ltb,
  ◌==◌, if◌then◌else◌, length, take, get_or, replicate,
}
use cevent_loop.Prelude.Int.{ℤ, is_negative}
use cevent_loop.Prelude.Segments.{segment, overwrite}
use cevent_loop.Prelude.Text.{Text, same_text, decimal}

abbrev pub af_inet : ℕ
af_inet = 2

abbrev pub af_inet6 : ℕ
af_inet6 = 10

-- `sin_family` and `sin6_family`
abbrev pub family : Text → ℕ
family a = get_or a 0 0 + 256 * get_or a 1 0

-- `sin_port` and `sin6_port`, `sin_addr`, `sin6_addr`: the bytes, which two fields share if they are
-- equal.
abbrev pub port_bytes : Text → Text
port_bytes a = segment 2 4 a

abbrev pub address4 : Text → Text
address4 a = segment 4 8 a

abbrev pub address6 : Text → Text
address6 a = segment 8 24 a

-- `be16toh(sin_port)`
abbrev pub port : Text → ℕ
port a = get_or a 2 0 * 256 + get_or a 3 0

-- `GetLocalAddr` and `GetPeerAddr`, with the bytes that the system stores, or its failure.
unfoldable pub get_addr : Option Text → Text
get_addr none = replicate 28 0
get_addr (some stored) = overwrite (replicate 28 0) 0 stored

-- `IsSelfConnect`, with what the two calls store.
unfoldable pub is_self_connect : Option Text → Option Text → Bool
unfolding get_addr
is_self_connect local peer =
    let a = get_addr local in
    let b = get_addr peer in
    if family a == af_inet
    then same_text (port_bytes a) (port_bytes b) && same_text (address4 a) (address4 b)
    else if family a == af_inet6
    then same_text (port_bytes a) (port_bytes b) && same_text (address6 a) (address6 b)
    else false

-- `getSocketError`: the result of `getsockopt`, the error that it stores, and `errno`.
unfoldable pub get_socket_error : ℤ → ℕ → ℕ → ℕ
get_socket_error result stored errno = if is_negative result then errno else stored

-- `inet_ntop` makes a text of the bytes of an address of a family.
abbrev pub Ntop : Type 0
Ntop = ℕ → Text → Text

-- A call of it with room for `size` bytes; the last one is for the zero byte.
abbrev pub stored_text : ℕ → Text → Text → Text
stored_text size text old = if ltb (length text) size then text else old

-- `ToIp`, on a buffer that holds the text `old`.
unfoldable pub to_ip : Ntop → Text → ℕ → Text → Text
to_ip ntop old size a =
    if family a == af_inet
    then stored_text size (ntop af_inet (address4 a)) old
    else if family a == af_inet6
    then stored_text size (ntop af_inet6 (address6 a)) old
    else old

-- `snprintf(buf, size, ...)`: it cuts what does not fit.
abbrev pub snprintf : ℕ → Text → Text
snprintf size text = take (size - 1) text

-- `ToIpPort`
unfoldable pub to_ip_port : Ntop → Text → ℕ → Text → Text
unfolding to_ip
to_ip_port ntop old size a =
    let ip = to_ip ntop old size a in ip ++ snprintf (size - length ip) (b':' ∷ decimal (port a))
