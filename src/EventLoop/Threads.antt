-- ===== src/EventLoop/Threads.antt =====
-- The loop's thread and the others, as steps: what `loop`, `queueInLoop` and `quit` do, interleaved.
-- The mutex makes a `queueInLoop` and the `swap` of `doPendingFunctors` one step each; `quit` of
-- another thread is two, the flag and then the wakeup.
use cevent_loop.Prelude.{ℕ, suc, ◌+◌, ◌≡◌, true, false, List, [], ◌∷◌, ◌++◌}
use cevent_loop.EventLoop.{
  Request, Program, EventLoop, queue_in_loop, wakeup, handle_read, handle, handled, take_pending,
  end_pending, run_functor,
}
use cevent_loop.EventLoop.Pending.{queued}

-- Where the loop's thread is: at the test of `while`, in `poll`, among the active channels, in
-- `doPendingFunctors` with some functors left of the list that it took, or out of the loop.
pub data Phase (T : Type 0) : Type 0 where
  checking polling handling stopped : Phase T
  draining : List T → Phase T

module _ (P : Program) where
  open P use {T, W, perform}

  -- `quitting` counts the threads that have set the flag and are about to wake the loop. `posted` and
  -- `ran` record the functors that were queued and those that were run, oldest first.
  pub record System : Type 0 where
    pub loop : EventLoop P
    pub phase : Phase T
    pub quitting : ℕ
    pub posted : List T
    pub ran : List T

  pub data Step (s s' : System) : Type 0 where
    other_queues :
        (t : T)
        → s' ≡ record s { loop = queue_in_loop P false t s.loop; posted = s.posted ++ (t ∷ []) }
        → Step s s'
    other_quits :
        s' ≡ record s { loop = record (s.loop) { quit_flag = true }; quitting = s.quitting + 1 }
        → Step s s'
    other_wakes :
        (n : ℕ)
        → s.quitting ≡ suc n
        → s' ≡ record s { loop = wakeup P s.loop; quitting = n }
        → Step s s'
    enters :
        s.phase ≡ checking
        → s.loop.quit_flag ≡ false
        → s' ≡ record s { phase = polling }
        → Step s s'
    leaves :
        s.phase ≡ checking
        → s.loop.quit_flag ≡ true
        → s' ≡ record s { phase = stopped; loop = record (s.loop) { looping = false } }
        → Step s s'
    polls : s.phase ≡ polling → s' ≡ record s { phase = handling } → Step s s'
    wakes : s.phase ≡ handling → s' ≡ record s { loop = handle_read P s.loop } → Step s s'
    handles :
        (f : W → W × List (Request T))
        → s.phase ≡ handling
        → s' ≡ record s {
          loop = handle P (handled f) s.loop;
          posted = s.posted ++ queued (f s.loop.world).1;
        }
        → Step s s'
    swaps :
        s.phase ≡ handling
        → s' ≡ record s { phase = draining s.loop.pending; loop = take_pending P s.loop }
        → Step s s'
    runs :
        (t : T) (ts : List T)
        → s.phase ≡ draining (t ∷ ts)
        → s' ≡ record s {
          phase = draining ts;
          loop = run_functor P t s.loop;
          ran = s.ran ++ (t ∷ []);
          posted = s.posted ++ queued (perform t s.loop.world).1;
        }
        → Step s s'
    drained :
        s.phase ≡ draining []
        → s' ≡ record s { phase = checking; loop = end_pending P s.loop }
        → Step s s'

  pub data Reach (s : System) : System → Type 0 where
    here : Reach s s
    next : {t u : System} → Reach s t → Step t u → Reach s u

  -- A loop that is about to run, with nothing queued yet.
  pub record IsStart (s : System) : Type 0 where
    pub at_check : s.phase ≡ checking
    pub none_pending : s.loop.pending ≡ []
    pub not_calling : s.loop.calling ≡ false
    pub none_posted : s.posted ≡ []
    pub none_ran : s.ran ≡ []
