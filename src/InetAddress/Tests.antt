-- ===== src/InetAddress/Tests.antt =====
-- The address that the echo server listens on.
use cevent_loop.Prelude.{◌+◌, ◌≡◌, refl, arith, true, false, ◌∷◌, ◌++◌, replicate, length, drop}
use cevent_loop.Prelude.Text.{Text, codes, decimal, read_decimal}
use cevent_loop.SocketsOps.{Ntop, to_ip_port}
use cevent_loop.InetAddress.{new, to_ip_port_text}
use cevent_loop.InetAddress.Printing.{Short, port_roundtrip}

abbrev any_host : Ntop
any_host f bytes = codes "0.0.0.0"

abbrev stale : Text
stale = replicate 28 7

printed : to_ip_port_text any_host (new stale 2007 false false) ≡ codes "0.0.0.0:2007"
unfolding to_ip_port_text new to_ip_port decimal
printed = refl

any_host-Short : Short any_host
any_host-Short f bytes = omega arith

port_roundtrip_example :
    (host : Text) × (to_ip_port_text any_host (new stale 2007 false true)
      ≡ host ++ (b':' ∷ decimal 2007))
    × (read_decimal (drop (length host + 1) (to_ip_port_text any_host (new stale 2007 false true)))
        ≡ 2007)
port_roundtrip_example = port_roundtrip any_host stale 2007 false true any_host-Short (omega arith)
