-- ===== src/Buffer/Tests.antt =====
-- The buffer on small inputs.
use cevent_loop.Prelude.{
  ℕ, none, true, false, drop, ◌+◌, ◌<◌, ◌≤◌, ◌≡◌, ◌⊎◌, refl, List, [], ◌∷◌, ◌++◌, replicate, arith,
  ok, fault, After, some, out_of_bounds,
}
use cevent_loop.Buffer.{
  is_prefix, crlf, peek, retrieve_all_as_string, Buffer, append, retrieve, find_crlf, contents,
  read_fd, stored, offered, retrieve_as_string,
}
use cevent_loop.Buffer.Valid.{IsValid}
use cevent_loop.Buffer.Queue.{view, Call, appends, retrieves, takes, takes_all, step, spec_step}
use cevent_loop.Buffer.Run.{run, run_refines, seen_all}
use cevent_loop.Buffer.Search.{find_crlf_lem}
use cevent_loop.Buffer.Receive.{read_fd_lem}

-- A vector of sixteen bytes, with "ab" unread.
abbrev small : Buffer
small = record {
  buf = replicate 8 0 ++ (97 ∷ 98 ∷ replicate 6 0);
  reader_index = 8;
  writer_index = 10;
}

small-IsValid : IsValid small
small-IsValid = omega arith

abbrev calls : List Call
calls = appends (99 ∷ 13 ∷ 10 ∷ []) ∷ takes 2 ∷ retrieves 1 ∷ takes_all ∷ []

run-calls :
    seen_all (run step calls small)
    ≡ ok (
      (([] ∷ (97 ∷ 98 ∷ []) ∷ [] ∷ (13 ∷ 10 ∷ []) ∷ [])),
      record { bytes = []; room = 8; capacity = 8 },
    )
unfolding run step append retrieve retrieve_as_string retrieve_all_as_string contents
run-calls = refl

find_line_end :
    find_crlf (record small { buf = replicate 8 0 ++ (13 ∷ 10 ∷ replicate 6 0) }) ≡ some 8
unfolding find_crlf
find_line_end = refl

run_refines_example :
    (seen_all (run step calls small) ≡ run spec_step calls (view small))
    × After (λ o. IsValid o.1) (run step calls small)
run_refines_example = run_refines calls small-IsValid

abbrev seven : List ℕ
seven = replicate 7 1

read_fd_lem_example :
    ((7 ≤ 6)
      × ((b' : Buffer) × (read_fd (stored seven) small ≡ ok (stored seven, b'))
          × IsValid b'
          × (contents b' ≡ contents small ++ seven)))
    ⊎ ((6 < 7) × (read_fd (stored seven) small ≡ fault out_of_bounds))
unfolding offered
read_fd_lem_example = read_fd_lem seven small-IsValid (omega arith)

-- "a" and a line end, with "b" behind it.
abbrev one_line : Buffer
one_line = record {
  buf = replicate 8 0 ++ (97 ∷ 13 ∷ 10 ∷ 98 ∷ replicate 4 0);
  reader_index = 8;
  writer_index = 12;
}

one_line-IsValid : IsValid one_line
one_line-IsValid = omega arith

find_crlf_lem_example :
    (find_crlf one_line ≡ none → (j : ℕ) → is_prefix crlf (drop j (contents one_line)) ≡ false)
    × ((p : ℕ)
        → find_crlf one_line ≡ some p
        → (i : ℕ) × (p ≡ peek one_line + i)
          × (is_prefix crlf (drop i (contents one_line)) ≡ true)
          × ((j : ℕ) → j < i → is_prefix crlf (drop j (contents one_line)) ≡ false))
find_crlf_lem_example = find_crlf_lem one_line
