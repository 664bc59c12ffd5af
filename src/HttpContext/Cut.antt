-- ===== src/HttpContext/Cut.antt =====
-- A request that has come only in part, with some of its headers missing.
use mathlib.Core.Path.{ap₂}
use cevent_loop.Prelude.{
  ℕ, zero, suc, ◌+◌, ◌≤◌, ◌<◌, ◌≡◌, refl, sym, ap, ◌∙◌, Bool, true, none, inr, List, [], ◌∷◌, ◌++◌,
  length, length-append, append_assoc, arith, dec_lt, ok, ◌==◌,
}
use cevent_loop.Buffer.{Buffer, contents}
use cevent_loop.Buffer.Valid.{IsValid}
use cevent_loop.Buffer.Lines.{Absent, take_line}
use cevent_loop.Buffer.Partial.{cons-injective, find_crlf-short}
use cevent_loop.HttpContext.{
  HttpRequest, Scanned, expect_request_line, assign, fits, parse_loop, parse_request,
}
use cevent_loop.HttpContext.Parsing.{
  header_text, WellFormed, reading, described, header_turn, line_turn, goes_on,
}
use cevent_loop.HttpContext.Hanging.{still_running}

-- Of two ways to cut a list, the longer first part begins with the shorter one.
longer :
    (xs more ys zs : List ℕ)
    → xs ++ more ≡ ys ++ zs
    → length ys ≤ length xs
    → (ts : List ℕ) × (xs ≡ ys ++ ts) × (ts ++ more ≡ zs)
longer xs more [] zs e l = (xs, refl, e)
longer [] more (y ∷ ys) zs e l = absurd (omega arith)
longer (x ∷ xs) more (y ∷ ys) zs e l =
    let (same, tail) = cons-injective e in
    let (ts, f, g) = longer xs more ys zs tail (omega arith) in (ts, ap₂ ◌∷◌ same f, g)

-- What has come, where it holds a line and its end.
after_line :
    (text more line rest : List ℕ)
    → text ++ more ≡ line ++ (13 ∷ 10 ∷ rest)
    → length line + 2 ≤ length text
    → (ts : List ℕ) × (text ≡ line ++ (13 ∷ 10 ∷ ts)) × (ts ++ more ≡ rest)
after_line text more line rest e l =
    let end : List ℕ = 13 ∷ 10 ∷ [] in
    let (ts, f, g) =
      longer text more (line ++ end) rest (e ∙ sym (append_assoc line end rest))
        (omega (arith, l, length-append line end)) in
    (ts, f ∙ append_assoc line end ts, g)

module _ (scan : List ℕ → Scanned) (time : ℕ) where
  headers_cut :
      (hs : List (List ℕ × List ℕ)) (rest more : List ℕ) (fuel : ℕ) (good : Bool) (r : HttpRequest)
      {b : Buffer}
      → IsValid b
      → contents b ++ more ≡ header_text hs rest
      → WellFormed hs
      → length (contents b) < length (header_text hs [])
      → parse_loop scan fuel time good (reading r) b ≡ ok none
  unfolding parse_loop
  headers_cut hs rest more zero good r v e w l = refl
  headers_cut [] rest more (suc fuel) good r {b} v e w l =
      still_running scan time (suc fuel) good (reading r) b
        (inr (inr (refl, find_crlf-short more [] rest b e tt (omega arith))))
  headers_cut ((key, value) ∷ hs) rest more (suc fuel) good r {b} v e (no_colon, no_return, w) l =
      let line = key ++ (58 ∷ value) in
      elim (dec_lt (length (contents b)) (length line + 2)) [
        | yes short ↦ still_running scan time (suc fuel) good (reading r) b (
            inr (
              inr (
                refl,
                find_crlf-short more line (header_text hs rest) b e no_return (omega arith),
              )))
        | no long ↦
            let (ts, here, left) =
              after_line (contents b) more line (header_text hs rest) e (omega arith) in
            let (found, text, (b', taken, v', e')) = take_line line ts v here no_return in
            let sizes = ap length here ∙ length-append line (13 ∷ 10 ∷ ts) in
            let whole = length-append line (13 ∷ 10 ∷ header_text hs []) in
            goes_on scan time fuel good good (reading r) _ b b' _
              (header_turn scan time key value good r b b' _ found text taken no_colon)
              (headers_cut hs rest more fuel good
                (record r { headers = assign key value r.headers }) v'
                (ap (λ t. t ++ more) e' ∙ left) w (omega (arith, l, sizes, whole, ap length e')))
      ]

  -- A part of a complete request (the conditions of `parse_request_lem`) that ends after its first line
  -- and before the end of its empty line: with nothing else in the buffer, the loop of `parseRequest`
  -- has not ended after any number of turns.
  pub parse_request_cut :
      (line : List ℕ) (hs : List (List ℕ × List ℕ)) (rest more : List ℕ) (fuel : ℕ)
      (r : HttpRequest) {b : Buffer}
      → IsValid b
      → contents b ++ more ≡ line ++ (13 ∷ 10 ∷ header_text hs rest)
      → length line + 2 ≤ length (contents b)
      → length (contents b) < length line + 2 + length (header_text hs [])
      → Absent 13 line
      → WellFormed hs
      → fits (scan line) ≡ true
      → ((scan line).count == 3) ≡ true
      → parse_request scan fuel time (record { request = r; state = expect_request_line }) b
        ≡ ok none
  unfolding parse_request
  parse_request_cut line hs rest more zero r v e low high no_return w short three =
      unfold parse_loop in refl
  parse_request_cut line hs rest more (suc fuel) r {b} v e low high no_return w short three =
      let (ts, here, left) = after_line (contents b) more line (header_text hs rest) e low in
      let (found, text, (b', taken, v', e')) = take_line line ts v here no_return in
      let sizes = ap length here ∙ length-append line (13 ∷ 10 ∷ ts) in
      goes_on scan time fuel true true (record { request = r; state = expect_request_line }) _ b b'
        _ (line_turn scan time line true r b b' _ found text taken short three)
        (headers_cut hs rest more fuel true (described scan time (scan line) r) v'
          (ap (λ t. t ++ more) e' ∙ left) w (omega (arith, high, sizes, ap length e')))
