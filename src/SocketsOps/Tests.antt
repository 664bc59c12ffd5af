-- ===== src/SocketsOps/Tests.antt =====
-- Two ends on 127.0.0.1, and a run of calls of which some fail.
use cevent_loop.Logging.{Settings, info, enabled}
use cevent_loop.Logging.Lines.{Sink}
use cevent_loop.SocketsOps.Results.{
  Call, creates, connects, closes, writes, accepts, reads, perform_all, given, troubles,
  perform_all_lem,
}
use cevent_loop.Prelude.{
  List, [], ◌++◌, map, arith, ℕ, ◌≡◌, refl, true, false, some, none, ◌∷◌, replicate,
}
use cevent_loop.Prelude.Int.{pos, negsuc}
use cevent_loop.Prelude.Text.{Text, codes, print_int}
use cevent_loop.SocketsOps.{is_self_connect}

-- The first 16 bytes of an end on that port.
abbrev loopback : ℕ → ℕ → Text
loopback high low = 2 ∷ 0 ∷ high ∷ low ∷ 127 ∷ 0 ∷ 0 ∷ 1 ∷ replicate 8 0

one_end : is_self_connect (some (loopback 4 0)) (some (loopback 4 0)) ≡ true
unfolding is_self_connect
one_end = refl

two_ends : is_self_connect (some (loopback 4 0)) (some (loopback 4 1)) ≡ false
unfolding is_self_connect
two_ends = refl

unknown_end : is_self_connect none none ≡ false
unfolding is_self_connect
unknown_end = refl

abbrev to_sink : Settings Sink
to_sink = record {
  level = info;
  output = λ t w. record w { written = w.written ++ t };
  flush = λ w. record w { flushed = w.written };
}

abbrev empty : Sink
empty = record { written = []; flushed = [] }

abbrev run_of_calls : List Call
run_of_calls =
    creates (pos 5)
    ∷ connects (negsuc 0)
    ∷ writes (negsuc 0)
    ∷ reads (pos 5) (negsuc 0)
    ∷ reads (pos 5) (pos 8)
    ∷ accepts (pos 6)
    ∷ closes (negsuc 0)
    ∷ []

two_lines :
    troubles (codes "SocketsOps.cc") run_of_calls
    ≡ codes "SocketsOps.cc:Reading error, fd = 5"
      ++ (b'\n' ∷ (codes "SocketsOps.cc:SocketsOps::Close" ++ (b'\n' ∷ [])))
unfolding print_int
two_lines = refl

perform_all_lem_example :
    ((perform_all to_sink (codes "SocketsOps.cc") run_of_calls empty).0 ≡ map given run_of_calls)
    × ((perform_all to_sink (codes "SocketsOps.cc") run_of_calls empty).1.written
        ≡ empty.written ++ troubles (codes "SocketsOps.cc") run_of_calls)
unfolding enabled
perform_all_lem_example =
    perform_all_lem to_sink (codes "SocketsOps.cc") (λ t w. refl, λ w. refl) run_of_calls empty refl
      (tt, (tt, (refl, (refl, (omega arith, (tt, (tt, tt)))))))
