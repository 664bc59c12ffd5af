-- ===== src/SocketsOps/Calls.antt =====
-- CEventLoop/SocketsOps.cc: the wrappers of system calls, with what each call came to. A failed call
-- returns -1. They log as Logging has it; the file is what `__FILE__` is.
use cevent_loop.Prelude.{ℕ, ◌+◌, ◌-◌, ◌^◌, ◌%◌, List, [], ◌∷◌, ltb, if◌then◌else◌}
use cevent_loop.Prelude.Int.{ℤ, pos, negsuc, is_negative}
use cevent_loop.Prelude.Text.{Text, codes}
use cevent_loop.Logging.{Settings, Macro, log_syserr, log_fatal, Item, c_string, number, log}

-- A `ssize_t` as a `size_t`, and the way back.
unfoldable pub size_of : ℤ → ℕ
size_of (pos n) = n % 2 ^ 64
size_of (negsuc n) = 2 ^ 64 - (n % 2 ^ 64 + 1)

unfoldable pub ssize_of : ℕ → ℤ
ssize_of n = if ltb n (2 ^ 63) then pos n else negsuc (2 ^ 64 - (n + 1))

-- A `ssize_t` as an `int`.
unfoldable pub int_of : ℤ → ℤ
int_of (pos n) = let r = n % 2 ^ 32 in if ltb r (2 ^ 31) then pos r else negsuc (2 ^ 32 - (r + 1))
int_of (negsuc n) =
    let r = n % 2 ^ 32 in if ltb r (2 ^ 31) then negsuc r else pos (2 ^ 32 - (r + 1))

module _ {W : Type 0} (s : Settings W) (file : Text) where
  -- `if (ret < 0) LOG_X << …;`
  abbrev pub log_if_failed : Macro → ℕ → List Item → ℤ → W → W
  log_if_failed m line items ret w = if is_negative ret then log s m file line items w else w

  unfoldable pub create_nonblocking : ℤ → W → ℤ × W
  unfolding log
  create_nonblocking ret w = (
    ret,
    log_if_failed log_fatal 14 (c_string (codes "sockets::createNonblockingOrDie") ∷ []) ret w,
  )

  unfoldable pub connect : ℤ → W → ℤ × W
  connect ret w = (ret, w)

  unfoldable pub close : ℤ → W → W
  unfolding log
  close ret w = log_if_failed log_syserr 29 (c_string (codes "SocketsOps::Close") ∷ []) ret w

  unfoldable pub shutdown_write : ℤ → W → W
  unfolding log
  shutdown_write ret w =
      log_if_failed log_syserr 36 (c_string (codes "SockOps::ShutdownWrite") ∷ []) ret w

  unfoldable pub write : ℤ → W → ℕ × W
  unfolding size_of
  write ret w = (size_of ret, w)

  -- The result is kept in an `int`.
  unfoldable pub read : ℤ → ℤ → W → ℤ × W
  unfolding int_of log
  read fd got w =
      let ret = int_of got in
      (
        ret,
        log_if_failed log_syserr 49 (c_string (codes "Reading error, fd = ") ∷ number fd ∷ []) ret
            w,
      )

  unfoldable pub accept : ℤ → W → ℤ × W
  unfolding log
  accept ret w =
      (ret, log_if_failed log_syserr 60 (c_string (codes "SocketOps::Accept") ∷ []) ret w)

  unfoldable pub listen : ℤ → W → W
  unfolding log
  listen ret w = log_if_failed log_syserr 148 (c_string (codes "SocketsOps::Listen") ∷ []) ret w
