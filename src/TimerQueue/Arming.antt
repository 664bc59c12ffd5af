-- ===== src/TimerQueue/Arming.antt =====
-- What the timer descriptor is set to.
use Prim.Native.Nat.{◌*◌, ◌/◌, max}
use cevent_loop.Prelude.{◌+◌, ◌-◌, ◌<◌, ◌≡◌, arith}
use cevent_loop.TimerQueue.{Timestamp, how_much_time_from_now, microseconds_per_second}

-- The descriptor is set to a proper `timespec` that is not zero, which would disarm it, and that stands
-- for the microseconds until the time, or for 100 where those are fewer or the time has passed.
how_much_time_from_now_lem :
    (when current : Timestamp)
    → let spec = how_much_time_from_now when current in
      (spec.tv_nsec < 1000 * 1000 * 1000)
      × (spec.tv_sec * microseconds_per_second + spec.tv_nsec / 1000
          ≡ max 100 (when.microseconds_since_epoch - current.microseconds_since_epoch))
      × (0 < spec.tv_sec + spec.tv_nsec)
unfolding how_much_time_from_now
how_much_time_from_now_lem when current = (ground arith, ground arith, ground arith)
