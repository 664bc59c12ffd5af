-- ===== src/HttpServer/Pieces.antt =====
-- A request whose first line comes in several reads.
use cevent_loop.Prelude.{ℕ, List, [], ◌∷◌, ◌++◌}
use cevent_loop.Buffer.{Buffer, Received, find_crlf, read_fd}
use cevent_loop.Buffer
use cevent_loop.Buffer.Valid
use cevent_loop.Buffer.Valid.{extended}
use cevent_loop.HttpContext.{HttpContext}

-- All that comes, and that each read brings something.
abbrev pub texts : List (ℕ × List ℕ) → List ℕ
texts [] = []
texts ((time, text) ∷ more) = text ++ texts more

abbrev pub Incoming : List (ℕ × List ℕ) → Type 0
Incoming [] = Unit
Incoming ((time, []) ∷ more) = ⊥
Incoming ((time, x ∷ xs) ∷ more) = Incoming more
