-- ===== src/EventLoopThread/Tests.antt =====
-- A run in which the caller waits and destroys the object at the end, and one from a pointer that was
-- never set.
use cevent_loop.Prelude.{ℕ, ◌≡◌, ◌≢◌, ◌∷◌, [], refl, arith, true, false}
use cevent_loop.EventLoopThread.{
  EventLoopThread, Reach, here, step, new, launch, finds_null, finds_loop, initialises, announces,
  finishes, joins, returned, waiting, destroyed, looping, preparing, over, notified,
}
use cevent_loop.EventLoopThread.Handshake.{handshake}

abbrev waits : EventLoopThread
waits = record { loop = 0; caller = waiting; worker = preparing; callback = true; inits = [] }

abbrev done : EventLoopThread
done = record { loop = 7; caller = returned 7; worker = looping; callback = true; inits = 7 ∷ [] }

waits-Reach : Reach 7 (new true 0) waits
waits-Reach = step (step here (launch refl)) (finds_null refl refl)

done-Reach : Reach 7 (new true 0) done
unfolding notified
done-Reach =
    step (step (step waits-Reach (initialises refl)) (announces refl))
      (finds_loop refl (omega arith))

gone-Reach :
    Reach 7
      (new true 0)
      (record { loop = 0; caller = destroyed; worker = over; callback = true; inits = 7 ∷ [] })
gone-Reach = step (step done-Reach (finishes refl)) (joins refl refl)

-- With a pointer that was not null, `startLoop` returns it before there is a loop.
stale_pointer :
    Reach 7
      (new false 99)
      (record { loop = 99; caller = returned 99; worker = preparing; callback = false; inits = [] })
stale_pointer = step (step here (launch refl)) (finds_loop refl (omega arith))

handshake_example :
    ((p : ℕ) → done.caller ≡ returned p → (p ≡ 7) × (done.inits ≡ 7 ∷ []))
    × (done.caller ≡ waiting → done.worker ≢ looping)
    × (done.caller ≡ destroyed → (done.worker ≡ over) × (done.loop ≡ 0))
handshake_example = handshake done-Reach (omega arith)
