-- ===== src/Buffer/Run.antt =====
-- Whole sequences of calls: the buffer stays valid and cannot be told from its queue.
use cevent_loop.Prelude.{ℕ, ◌≡◌, refl, List, [], ◌∷◌, arith, Exec, ok, fault, ◌>>=◌, After}
use cevent_loop.Buffer.{Buffer, retrieve_all}
use cevent_loop.Buffer.Valid.{
  IsValid, append_lem, retrieve_lem, retrieve_as_string_lem, extended-IsValid, shortened-IsValid,
}
use cevent_loop.Buffer.Queue.{
  Queue, view, Call, appends, retrieves, takes, takes_all, clears, Reply, step, spec_step, seen,
  step_refines, retrieve_all_as_string_lem,
}

retrieve_all-IsValid : {b : Buffer} → IsValid b → IsValid (retrieve_all b)
unfolding retrieve_all
retrieve_all-IsValid v = omega arith

-- No call breaks the invariant.
pub step-IsValid : (c : Call) {b : Buffer} → IsValid b → After (λ r. IsValid r.1) (step c b)
unfolding step
step-IsValid (appends bytes) {b} v =
    rw (append_lem bytes v) (ground (arith, extended-IsValid bytes v))
step-IsValid (retrieves n) {b} v = rw (retrieve_lem n v) (ground (arith, shortened-IsValid n v))
step-IsValid (takes n) {b} v =
    rw (retrieve_as_string_lem n v) (ground (arith, shortened-IsValid n v))
step-IsValid takes_all {b} v = rw (retrieve_all_as_string_lem v) (retrieve_all-IsValid v)
step-IsValid clears v = retrieve_all-IsValid v

-- The texts that the calls give back, and the state that they end in.
abbrev pub Outcome {ℓ} : Type ℓ → Type ℓ
Outcome S = Exec (List (List ℕ) × S)

abbrev pub prepend {ℓ} : {S : Type ℓ} → List ℕ → Outcome S → Outcome S
prepend text (ok (texts, s)) = ok (text ∷ texts, s)
prepend text (fault e) = fault e

-- The calls in order; a fault ends the run.
unfoldable pub run {ℓ} : {S : Type ℓ} → (Call → S → Reply S) → List Call → S → Outcome S
run act [] s = ok ([], s)
run act (c ∷ cs) s = act c s >>= λ r. prepend r.0 (run act cs r.1)

abbrev pub seen_all : Outcome Buffer → Outcome Queue
seen_all (ok (texts, b)) = ok (texts, view b)
seen_all (fault e) = fault e

-- What a run on a buffer shares with the run on its queue.
abbrev Refines : Outcome Buffer → Outcome Queue → Type 0
Refines r q = (seen_all r ≡ q) × After (λ o. IsValid o.1) r

prepend-Refines :
    (text : List ℕ) (r : Outcome Buffer) (q : Outcome Queue)
    → Refines r q
    → Refines (prepend text r) (prepend text q)
prepend-Refines text (ok (texts, b)) q h = (rw (← h.0) refl, h.1)
prepend-Refines text (fault e) q h = (rw (← h.0) refl, h.1)

After-step :
    (cs : List Call) (r : Reply Buffer) (q : Reply Queue)
    → seen r ≡ q
    → After (λ o. IsValid o.1) r
    → ((b : Buffer) → IsValid b → Refines (run step cs b) (run spec_step cs (view b)))
    → Refines
        (r >>= λ o. prepend o.0 (run step cs o.1))
        (q >>= λ o. prepend o.0 (run spec_step cs o.1))
After-step cs (ok (text, b)) q e v rest =
    rw (← e) (prepend-Refines text (run step cs b) (run spec_step cs (view b)) (rest b v))
After-step cs (fault f) q e v rest = rw (← e) (refl, tt)

-- A run of any calls gives back the texts, or the fault, of the same calls of the queue, and where it
-- ends the buffer is valid and holds the queue's bytes and room.
pub run_refines :
    (cs : List Call) {b : Buffer}
    → IsValid b
    → (seen_all (run step cs b) ≡ run spec_step cs (view b))
      × After (λ o. IsValid o.1) (run step cs b)
unfolding run
run_refines [] v = (refl, v)
run_refines (c ∷ cs) {b} v =
    After-step cs (step c b) (spec_step c (view b)) (step_refines c v) (step-IsValid c v)
      (λ b' v'. run_refines cs v')
