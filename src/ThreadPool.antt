-- ===== src/ThreadPool.antt =====
-- CEventLoop/EventLoopThreadPool.h and EventLoopThreadPool.cc: the io loops and whose turn it is. A
-- loop is the address of an `EventLoop`; the loops that the threads start come from outside.
mod Tests
pub mod Turns
pub mod Next
use cevent_loop.Prelude.{
  ℕ, zero, suc, ◌+◌, Bool, true, false, Option, none, some, List, [], ◌∷◌, ◌++◌, leb, if◌then◌else◌,
  length, get_elem?, Exec, ok, fault, ◌>>=◌, assertion_failed, out_of_bounds, not_in_loop_thread,
}

pub record ThreadPool : Type 0 where
  pub base_loop : ℕ
  pub started : Bool
  pub num_threads : ℕ
  pub next : ℕ
  pub loops : List ℕ

unfoldable pub new : ℕ → ThreadPool
new base = record { base_loop = base; started = false; num_threads = 0; next = 0; loops = [] }

unfoldable pub set_thread_num : ℕ → ThreadPool → ThreadPool
set_thread_num n p = record p { num_threads = n }

-- The `for` loop of `start`: `start_loop i` is the loop of the thread that is started `i`-th.
unfoldable pub start_threads : (ℕ → ℕ) → ℕ → ℕ → List ℕ → List ℕ
start_threads start_loop i zero loops = loops
start_threads start_loop i (suc left) loops =
    start_threads start_loop (i + 1) left (loops ++ (start_loop i ∷ []))

-- `start`; `here` is whether the caller runs in the base loop's thread.
unfoldable pub start : Bool → (ℕ → ℕ) → ThreadPool → Exec ThreadPool
unfolding start_threads
start here start_loop p =
    if p.started
    then fault assertion_failed
    else (if here
        then ok
            (record p { started = true; loops = start_threads start_loop 0 p.num_threads p.loops })
        else fault not_in_loop_thread)

-- `loops_[next_++]`, and the wrap of the counter.
unfoldable pub take_turn : ThreadPool → Exec (ℕ × ThreadPool)
take_turn p = elim (get_elem? p.loops p.next) [
  | none ↦ fault out_of_bounds
  | some loop ↦
      ok (loop, record p { next = if leb (length p.loops) (p.next + 1) then 0 else p.next + 1 })
]

unfoldable pub get_next_loop : Bool → ThreadPool → Exec (ℕ × ThreadPool)
unfolding take_turn
get_next_loop here p =
    if here
    then (elim p.loops [ [] ↦ ok (p.base_loop, p) | l ∷ ls ↦ take_turn p ])
    else fault not_in_loop_thread

-- `quit`: the loops that are told to.
unfoldable pub quit : ThreadPool → List ℕ
quit p = p.loops

-- The loops of that many calls in a row.
unfoldable pub get_loops : ℕ → ThreadPool → Exec (List ℕ × ThreadPool)
get_loops zero p = ok ([], p)
get_loops (suc n) p = get_next_loop true p >>= λ r. get_loops n r.1 >>= λ t. ok (r.0 ∷ t.0, t.1)
