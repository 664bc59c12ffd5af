-- ===== src/HttpContext/Tests.antt =====
-- "GET /?a", one header "A:1", and a byte of the next request.
use cevent_loop.Prelude.{
  ℕ, ◌+◌, ◌-◌, ◌/◌, length, ◌≡◌, refl, true, false, none, some, List, [], ◌∷◌, ◌++◌, ok, fault,
  bad_function_call, arith, replicate,
}
use cevent_loop.Buffer.{Buffer, contents}
use cevent_loop.Buffer.Valid.{IsValid}
use cevent_loop.HttpContext.{
  HttpRequest, Scanned, expect_request_line, got_all, parse_request, unknown, invalid, with_path,
  split,
}
use cevent_loop.HttpContext.Parsing.{header_text, with_headers, described, parse_request_lem}
use cevent_loop.HttpContext.Cut.{parse_request_cut}
use cevent_loop.HttpContext.Execute.{
  Llhttp, Executing, start, set_request_callback, execute, complete, on_message_complete,
}

abbrev line : List ℕ
line = 71 ∷ 69 ∷ 84 ∷ 32 ∷ 47 ∷ 63 ∷ 97 ∷ []

abbrev headers : List (List ℕ × List ℕ)
headers = (65 ∷ [], 49 ∷ []) ∷ []

abbrev text : List ℕ
text = line ++ (13 ∷ 10 ∷ header_text headers (120 ∷ []))

abbrev full : Buffer
full = record {
  buf = replicate 8 0 ++ (text ++ replicate 7 0);
  reader_index = 8;
  writer_index = 25;
}

full-IsValid : IsValid full
full-IsValid = omega arith

abbrev seen : Scanned
seen = record {
  count = 3;
  method = 71 ∷ 69 ∷ 84 ∷ [];
  path = 47 ∷ 63 ∷ 97 ∷ [];
  near_10 = false;
  near_11 = true;
}

abbrev blank : HttpRequest
blank = record {
  version = unknown;
  method = invalid;
  path = [];
  query = [];
  receive_time = 0;
  headers = λ key. none;
}

abbrev scan : List ℕ → Scanned
scan _ = seen

path_and_query : (with_path (47 ∷ 63 ∷ 97 ∷ []) blank).query ≡ 97 ∷ []
unfolding with_path split
path_and_query = refl

parse_request_lem_example :
    (b' : Buffer) × (parse_request scan 3 5
        (record { request = blank; state = expect_request_line })
        full
      ≡ ok (
          some (
            true,
            record {
              request = with_headers headers (described scan 5 seen blank);
              state = got_all;
            },
            b',
          )))
    × IsValid b'
    × (contents b' ≡ 120 ∷ [])
unfolding contents
parse_request_lem_example =
    parse_request_lem scan 5 line headers (120 ∷ []) 3 blank full-IsValid refl
      (refl, (refl, (refl, (refl, (refl, (refl, (refl, tt)))))))
      ((refl, tt), (refl, (refl, (refl, tt))), tt) refl refl (omega arith)

-- The same request up to the carriage return of its header.
abbrev cut : Buffer
cut = record {
  buf = replicate 8 0 ++ (line ++ (13 ∷ 10 ∷ 65 ∷ 58 ∷ 49 ∷ 13 ∷ replicate 4 0));
  reader_index = 8;
  writer_index = 21;
}

cut-IsValid : IsValid cut
cut-IsValid = omega arith

parse_request_cut_example :
    parse_request scan 1000 5 (record { request = blank; state = expect_request_line }) cut
    ≡ ok none
unfolding contents
parse_request_cut_example =
    parse_request_cut scan 5 line headers (120 ∷ []) (10 ∷ 13 ∷ 10 ∷ 120 ∷ []) 1000 blank
      cut-IsValid refl (omega arith) (omega arith)
      (refl, (refl, (refl, (refl, (refl, (refl, (refl, tt)))))))
      ((refl, tt), (refl, (refl, (refl, tt))), tt) refl refl

-- A parser for which every message has two bytes; its state is the number of bytes so far.
abbrev pairs : Llhttp ℕ
pairs = record {
  init = 0;
  advance = λ text n. n + length text;
  completed = λ text n. (n + length text) / 2 - n / 2;
}

-- The callback counts.
abbrev counts : HttpRequest × ℕ → HttpRequest × ℕ
counts (r, n) = (r, n + 1)

abbrev counting : Executing ℕ ℕ
counting = record {
  context = record { request = blank; state = expect_request_line };
  parser = 0;
  request_callback = some (λ r n. ok (counts (r, n)));
}

made_so : set_request_callback (λ r n. ok (counts (r, n))) (start pairs blank) ≡ counting
unfolding start set_request_callback
made_so = refl

executed :
    execute pairs (65 ∷ 66 ∷ 67 ∷ 68 ∷ []) counting 0 ≡ ok (record counting { parser = 4 }, 2)
unfolding execute complete on_message_complete
executed = refl

not_set :
    execute pairs (65 ∷ 66 ∷ []) (record counting { request_callback = none }) 0
    ≡ fault bad_function_call
unfolding execute complete on_message_complete
not_set = refl
