-- ===== src/Nodes/Tick.antt =====
-- wingfoil/src/nodes/tick.rs: ticks at fixed intervals.
use wingfoil.Base.{ℕ, ◌+◌, ◌%◌, Bool, true, Option, none, some, u64_mod}
use wingfoil.Graph.State.{GraphState, add_callback}

pub record TickNode : Type 0 where
  pub interval : ℕ
  pub at_time : Option ℕ

-- The time of the next tick, anchored to the first one.
abbrev pub next_time : ℕ → TickNode → ℕ
next_time now s = elim s.at_time [
  | none ↦ (now + s.interval) % u64_mod
  | some t ↦ (t + s.interval) % u64_mod
]

-- `none` is the panic of `add_callback`.
unfoldable pub cycle : GraphState → TickNode → Option (Bool × TickNode × GraphState)
unfolding add_callback
cycle state s = elim (add_callback (next_time state.time s) state) [
  | none ↦ none
  | some state' ↦ some (true, record s { at_time = some (next_time state.time s) }, state')
]

unfoldable pub start : GraphState → TickNode → Option (TickNode × GraphState)
unfolding add_callback
start state s = elim (add_callback state.start_time state) [
  | none ↦ none
  | some state' ↦ some (s, state')
]
