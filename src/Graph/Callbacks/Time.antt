-- ===== src/Graph/Callbacks/Time.antt =====
-- The engine time of the cycles of a historical run.
use wingfoil.Base.{
  ◌+◌, ◌<◌, ◌≤◌, ◌≡◌, true, false, ◌||◌, arith, u64_mod, if◌then◌else◌, Bool-cases, inl, inr,
}
use wingfoil.Graph.State.{GraphState, has_scheduled_callbacks, next_scheduled_time}
use wingfoil.Graph.Callbacks.{advance_time, nonempty}

-- After the first cycle, if a callback is scheduled or always on and the clock is below its
-- maximum, the engine time of a historical run rises, and reaches the time of the next scheduled
-- callback if there is one.
pub advance_time-Rises :
    (s : GraphState)
    → s.first_cycle ≡ false
    → (has_scheduled_callbacks s || nonempty s.always_callbacks) ≡ true
    → s.time + 1 < u64_mod
    → (s.time < (advance_time s).time)
      × (if has_scheduled_callbacks s then next_scheduled_time s ≤ (advance_time s).time else Unit)
unfolding advance_time
advance_time-Rises s later busy room = elim (Bool-cases (has_scheduled_callbacks s)) [
  | inl e ↦ rw e (rw later (omega arith, omega arith))
  | inr e ↦ rw e (rw (rw e at busy) (rw later (omega arith, tt)))
]
