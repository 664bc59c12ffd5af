-- ===== src/HttpContext/Hanging.antt =====
-- The states in which the loop of `parseRequest` changes nothing and does not end.
use cevent_loop.Prelude.{ℕ, zero, suc, ◌≡◌, ◌⊎◌, inl, inr, refl, Bool, true, none, List, ok}
use cevent_loop.Buffer.{Buffer, find_crlf}
use cevent_loop.HttpContext.{
  HttpContext, Scanned, expect_headers, expect_body, got_all, parse_turn, parse_loop, parse_request,
}

-- No turn does anything: the request is complete, or the body is expected, or the end of a header line
-- has not come yet.
abbrev pub Idle : HttpContext → Buffer → Type 0
Idle c b =
    (c.state ≡ got_all)
    ⊎ ((c.state ≡ expect_body) ⊎ ((c.state ≡ expect_headers) × (find_crlf b ≡ none)))

module _ (scan : List ℕ → Scanned) (time : ℕ) where
  Idle-turn :
      (good : Bool) (c : HttpContext) (b : Buffer)
      → Idle c b
      → parse_turn scan time good c.state c b
        ≡ ok (record { good = good; has_more = true; context = c; buffer = b })
  unfolding parse_turn
  Idle-turn good c b (inl e) = rw e refl
  Idle-turn good c b (inr (inl e)) = rw e refl
  Idle-turn good c b (inr (inr (e, f))) = rw (e, parse_turn, f) refl

  pub still_running :
      (fuel : ℕ) (good : Bool) (c : HttpContext) (b : Buffer)
      → Idle c b
      → parse_loop scan fuel time good c b ≡ ok none
  unfolding parse_loop
  still_running zero good c b idle = refl
  still_running (suc fuel) good c b idle =
      rw (Idle-turn good c b idle) (still_running fuel good c b idle)

  -- When the request is complete already, when the body is expected, or when the headers are expected
  -- and the buffer holds no line end, the loop of `parseRequest` has not ended after any number of turns.
  pub parse_request_hangs :
      (fuel : ℕ) (c : HttpContext) (b : Buffer)
      → Idle c b
      → parse_request scan fuel time c b ≡ ok none
  unfolding parse_request
  parse_request_hangs fuel c b idle = still_running fuel true c b idle
