-- ===== src/SocketsOps/Results.antt =====
-- What the callers of the wrappers are given, and what is logged, over a run of calls.
use mathlib.Core.Path.{ap₂}
use cevent_loop.Prelude.{
  ℕ, ◌^◌, ◌%◌, ◌<◌, ◌≤◌, ◌≡◌, refl, sym, ap, ◌∙◌, true, false, Option, none, some, List, [], ◌∷◌,
  ◌++◌, map, ltb, if◌then◌else◌, append-nil, append_assoc, arith,
}
use cevent_loop.Prelude.Int.{ℤ, pos, negsuc, is_negative}
use cevent_loop.Prelude.Text.{Text, codes}
use cevent_loop.Logging.{Settings, Macro, enabled, log_syserr, log_fatal, Item, c_string, number}
use cevent_loop.Logging.Lines.{Sink, Appending, line_text, log_lem}
use cevent_loop.SocketsOps.Calls.{
  size_of, ssize_of, int_of, log_if_failed, create_nonblocking, connect, close, shutdown_write,
  write, read, accept, listen,
}

-- A call, with what the system returned for it; of a read, the descriptor too.
pub data Call : Type 0 where
  creates connects closes shuts writes accepts listens : ℤ → Call
  reads : ℤ → ℤ → Call

-- What the caller is given, who keeps the result of `Write` in a `ssize_t`, and the log.
unfoldable pub perform : {W : Type 0} → Settings W → Text → Call → W → Option ℤ × W
unfolding create_nonblocking connect close shutdown_write write read accept listen
perform s file (creates r) w = let (x, v) = create_nonblocking s file r w in (some x, v)
perform s file (connects r) w = let (x, v) = connect s file r w in (some x, v)
perform s file (closes r) w = (none, close s file r w)
perform s file (shuts r) w = (none, shutdown_write s file r w)
perform s file (writes r) w = let (n, v) = write s file r w in (some (ssize_of n), v)
perform s file (accepts r) w = let (x, v) = accept s file r w in (some x, v)
perform s file (listens r) w = (none, listen s file r w)
perform s file (reads fd r) w = let (x, v) = read s file fd r w in (some x, v)

unfoldable pub perform_all : {W : Type 0} → Settings W → Text → List Call → W → List (Option ℤ) × W
unfolding perform
perform_all s file [] w = ([], w)
perform_all s file (c ∷ cs) w =
    let (x, v) = perform s file c w in let (xs, u) = perform_all s file cs v in (x ∷ xs, u)

-- -1, or a number below a bound.
abbrev pub Within : ℕ → ℤ → Type 0
Within bound (pos n) = n < bound
Within bound (negsuc n) = n ≡ 0

-- An `int`; of a write, a `ssize_t`.
abbrev pub InRange : Call → Type 0
InRange (writes r) = Within (2 ^ 63) r
InRange (reads fd r) = Within (2 ^ 31) r
InRange (creates r) = Unit
InRange (connects r) = Unit
InRange (closes r) = Unit
InRange (shuts r) = Unit
InRange (accepts r) = Unit
InRange (listens r) = Unit

abbrev pub AllInRange : List Call → Type 0
AllInRange [] = Unit
AllInRange (c ∷ cs) = InRange c × AllInRange cs

-- The results of the system, for the calls that return one.
abbrev pub given : Call → Option ℤ
given (creates r) = some r
given (connects r) = some r
given (writes r) = some r
given (reads fd r) = some r
given (accepts r) = some r
given (closes r) = none
given (shuts r) = none
given (listens r) = none

-- The line of a call that failed.
abbrev pub failure : Text → ℤ → List Item → Text
failure file r items = if is_negative r then line_text file items else []

abbrev pub trouble : Text → Call → Text
trouble file (creates r) = failure file r (c_string (codes "sockets::createNonblockingOrDie") ∷ [])
trouble file (connects r) = []
trouble file (closes r) = failure file r (c_string (codes "SocketsOps::Close") ∷ [])
trouble file (shuts r) = failure file r (c_string (codes "SockOps::ShutdownWrite") ∷ [])
trouble file (writes r) = []
trouble file (reads fd r) =
    failure file r (c_string (codes "Reading error, fd = ") ∷ number fd ∷ [])
trouble file (accepts r) = failure file r (c_string (codes "SocketOps::Accept") ∷ [])
trouble file (listens r) = failure file r (c_string (codes "SocketsOps::Listen") ∷ [])

abbrev pub troubles : Text → List Call → Text
troubles file [] = []
troubles file (c ∷ cs) = trouble file c ++ troubles file cs

ssize_of-size_of : (r : ℤ) → Within (2 ^ 63) r → ssize_of (size_of r) ≡ r
unfolding ssize_of size_of
ssize_of-size_of (pos n) h = let whole : n % 2 ^ 64 ≡ n = omega arith in rw whole (ground arith)
ssize_of-size_of (negsuc n) h = rw h refl

int_of-kept : (r : ℤ) → Within (2 ^ 31) r → int_of r ≡ r
unfolding int_of
int_of-kept (pos n) h = let whole : n % 2 ^ 32 ≡ n = omega arith in rw whole (ground arith)
int_of-kept (negsuc n) h = rw h refl

module _ (s : Settings Sink) (file : Text) (a : Appending s) where
  log_if_failed-written :
      (m : Macro) (line : ℕ) (items : List Item) (r : ℤ) (w : Sink)
      → enabled m s.level ≡ true
      → (log_if_failed s file m line items r w).written ≡ w.written ++ failure file r items
  log_if_failed-written m line items (pos n) w on = sym (append-nil w.written)
  log_if_failed-written m line items (negsuc n) w on =
      rw (log_lem s (record { macro = m; file = file; line = line; items = items }) w a)
        (rw on refl)

  fatal_too : enabled log_syserr s.level ≡ true → enabled log_fatal s.level ≡ true
  unfolding enabled
  fatal_too h = ground arith

  perform_lem :
      (c : Call) (w : Sink)
      → enabled log_syserr s.level ≡ true
      → InRange c
      → ((perform s file c w).0 ≡ given c)
        × ((perform s file c w).1.written ≡ w.written ++ trouble file c)
  unfolding perform create_nonblocking connect close shutdown_write write read accept listen
  perform_lem (creates r) w on h = (
    refl,
    log_if_failed-written log_fatal 14 (c_string (codes "sockets::createNonblockingOrDie") ∷ []) r w
        (fatal_too on),
  )
  perform_lem (connects r) w on h = (refl, sym (append-nil w.written))
  perform_lem (closes r) w on h =
      (refl, log_if_failed-written log_syserr 29 (c_string (codes "SocketsOps::Close") ∷ []) r w on)
  perform_lem (shuts r) w on h = (
    refl,
    log_if_failed-written log_syserr 36 (c_string (codes "SockOps::ShutdownWrite") ∷ []) r w on,
  )
  perform_lem (writes r) w on h = (ap some (ssize_of-size_of r h), sym (append-nil w.written))
  perform_lem (accepts r) w on h =
      (refl, log_if_failed-written log_syserr 60 (c_string (codes "SocketOps::Accept") ∷ []) r w on)
  perform_lem (listens r) w on h = (
    refl,
    log_if_failed-written log_syserr 148 (c_string (codes "SocketsOps::Listen") ∷ []) r w on,
  )
  perform_lem (reads fd r) w on h = (
    ap some (int_of-kept r h),
    rw (int_of-kept r h) (
        log_if_failed-written log_syserr 49
          (c_string (codes "Reading error, fd = ") ∷ number fd ∷ []) r w on),
  )

  -- At a level where LOG_SYSERR logs, with an output that appends: over a run of calls, of which each
  -- failed with -1 or returned what an `int` holds (a write: what a `ssize_t` holds), every caller is
  -- given what the system returned, through all conversions on the way, and the log has gained one line
  -- for each failed call but `connect` and `write`, in order.
  pub perform_all_lem :
      (cs : List Call) (w : Sink)
      → enabled log_syserr s.level ≡ true
      → AllInRange cs
      → ((perform_all s file cs w).0 ≡ map given cs)
        × ((perform_all s file cs w).1.written ≡ w.written ++ troubles file cs)
  unfolding perform_all
  perform_all_lem [] w on h = (refl, sym (append-nil w.written))
  perform_all_lem (c ∷ cs) w on (h, hs) =
      let (x, e) = perform_lem c w on h in
      let (xs, es) = perform_all_lem cs (perform s file c w).1 on hs in
      (
        ap₂ ◌∷◌ x xs,
        es
            ∙ ap (λ t. t ++ troubles file cs) e
            ∙ append_assoc w.written (trouble file c) (troubles file cs),
      )

-- `Read` of 2 ^ 31 bytes or more that succeeds is taken for a failure.
read_long :
    {W : Type 0} (s : Settings W) (file : Text) (fd : ℤ) (n : ℕ) (w : W)
    → 2 ^ 31 ≤ n
    → n < 2 ^ 32
    → is_negative (read s file fd (pos n) w).0 ≡ true
unfolding read int_of
read_long s file fd n w low high =
    let whole : n % 2 ^ 32 ≡ n = omega arith in
    let over : ltb n (2 ^ 31) ≡ false = ground arith in rw (whole, over) refl
