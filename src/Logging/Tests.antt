-- ===== src/Logging/Tests.antt =====
-- A logger at the level INFO whose sink is a text.
use cevent_loop.Prelude.{◌≡◌, refl, List, [], ◌∷◌, ◌++◌}
use cevent_loop.Prelude.Int.{negsuc}
use cevent_loop.Prelude.Text.{codes, print_int}
use cevent_loop.Logging.{
  Settings, info, log_debug, log_info, enabled, number, view, log, stream_all,
}
use cevent_loop.Logging.Lines.{Sink, Statement, run, lines, run_lem}

abbrev to_sink : Settings Sink
to_sink = record {
  level = info;
  output = λ t w. record w { written = w.written ++ t };
  flush = λ w. record w { flushed = w.written };
}

abbrev empty : Sink
empty = record { written = []; flushed = [] }

abbrev statements : List Statement
statements =
    record {
      macro = log_info;
      file = codes "a.cc";
      line = 3;
      items = view (codes "n = ") ∷ number (negsuc 11) ∷ [];
    }
    ∷ record { macro = log_debug; file = codes "a.cc"; line = 4; items = [] }
    ∷ []

one_line : (run to_sink statements empty).written ≡ codes "a.cc:n = -12" ++ (b'\n' ∷ [])
unfolding run log stream_all enabled print_int
one_line = refl

run_lem_example :
    ((run to_sink statements empty).written ≡ [] ++ lines to_sink statements)
    × (empty.flushed ≡ empty.written
        → (run to_sink statements empty).flushed ≡ (run to_sink statements empty).written)
run_lem_example = run_lem to_sink statements empty (λ t w. refl, λ w. refl)
