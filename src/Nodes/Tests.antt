-- ===== src/Nodes/Tests.antt =====
-- The theorems on nodes at concrete streams.
use wingfoil.Base.{
  ℕ, ◌+◌, ◌%◌, ◌≤◌, ◌<◌, ◌≡◌, refl, Bool, true, false, List, [], ◌∷◌, ◌++◌, map, Option, none, some,
  arith, flatten, length, All, u64_mod,
}
use wingfoil.Queue.{TimeQueue, nat_eq}
use wingfoil.Queue.Events.{IsValid}
use wingfoil.Graph.State.{GraphState, node_index_ticked, RunMode, RunFor, add_callback_for_node}
use wingfoil.Nodes.{emitted}
use wingfoil.Nodes.Throttle
use wingfoil.Nodes.Buffer
use wingfoil.Nodes.Window
use wingfoil.Nodes.Delay
use wingfoil.Nodes.Demux
use wingfoil.Nodes.Feedback

abbrev three_values : List ℕ
three_values = 5 ∷ 5 ∷ 7 ∷ []

abbrev throttled : Throttle.ThrottleStream ℕ
throttled = record { interval = 10; last_emit_time = some 100; value = 0 }

abbrev timed_values : List (ℕ × ℕ)
timed_values = (105, 1) ∷ (110, 2) ∷ (125, 3) ∷ []

emitted-Spaced_example : Throttle.Spaced 10 100 (Throttle.tick_times throttled timed_values)
emitted-Spaced_example =
    Throttle.emitted-Spaced throttled 100 100 timed_values refl (omega arith)
      (omega arith, omega arith, (omega arith, omega arith, (omega arith, omega arith, tt)))

abbrev pairs : Buffer.BufferStream ℕ
pairs = record { capacity = 2; buffer = []; value = [] }

abbrev flagged_values : List (ℕ × Bool)
flagged_values = (5, false) ∷ (6, false) ∷ (7, true) ∷ []

emitted-flatten_example :
    (flatten (emitted Buffer.cycle (λ s. s.value) pairs flagged_values)
        ++ Buffer.remaining pairs flagged_values
      ≡ [] ++ map (λ a. a.0) flagged_values)
    × (length (Buffer.remaining pairs flagged_values) < 2)
    × All (λ batch. length batch ≤ 2) (emitted Buffer.cycle (λ s. s.value) pairs flagged_values)
emitted-flatten_example = Buffer.emitted-flatten pairs flagged_values (omega arith)

abbrev window : Window.WindowStream ℕ
window = record { interval = 10; next_window = 20; buffer = 1 ∷ 2 ∷ []; value = [] }

cycle-Windowed_example : Window.Windowed 45 3 window (Window.cycle 45 false 3 window)
cycle-Windowed_example =
    Window.cycle-Windowed 45 false 3 window (omega arith) (omega arith) (omega arith)

-- Node 1 is being cycled, and node 0, at address 5, has ticked.
abbrev busy : GraphState
busy = record {
  time = 100;
  wall_time = 0;
  first_cycle = false;
  is_last_cycle = false;
  current_node_index = some 1;
  scheduled_callbacks = record { heap = []; next_seq = 0 };
  always_callbacks = [];
  node_to_index = (6, 1) ∷ (5, 0) ∷ [];
  node_ticked = true ∷ false ∷ [];
  run_mode = RunMode.historical_from 0;
  run_for = RunFor.forever;
  ready_callbacks = [];
  start_time = 0;
  nodes = [];
  dirty_nodes_by_layer = [];
  node_dirty = [];
  wiring_error = none;
  pending_additions = [];
  pending_removals = [];
}

-- One value is due now, and one later.
abbrev waiting : TimeQueue ℕ
waiting = record {
  heap = record { time = 103; seq = 1; value = 8 } ∷ record { time = 100; seq = 0; value = 9 } ∷ [];
  next_seq = 2;
}

waiting-IsValid : IsValid waiting
waiting-IsValid = ((((λ e. omega arith), tt), (tt, tt)), (omega arith, (omega arith, tt)))

abbrev delayed : Delay.DelayStream ℕ
delayed = record {
  value = 1;
  queue = waiting;
  initialized = true;
  upstream_index = some 0;
  upstream = 5;
  delay = 7;
}

cycle-Emits_example :
    (r : Bool × Delay.DelayStream ℕ) × (Delay.cycle 4 busy delayed
      ≡ some (r.0, r.1, add_callback_for_node 1 ((100 + 7) % u64_mod) busy))
    × Delay.Emits 100 1 (Delay.queued 4 ((100 + 7) % u64_mod) delayed) r
unfolding node_index_ticked
cycle-Emits_example =
    Delay.cycle-Emits 4 busy delayed 0 1 refl waiting-IsValid (omega arith) refl refl refl

abbrev first_free : List ℕ → Option ℕ
first_free [] = none
first_free (ix ∷ l) = some ix

abbrev two_slots : Demux.DemuxMap ℕ
two_slots = record { available = 1 ∷ []; in_use = (40, some 0) ∷ []; size = 2 }

feedback_cycle-send_example :
    (q : TimeQueue ℕ) × (Feedback.send 4 (some 1) busy waiting
      ≡ some (q, add_callback_for_node 1 ((100 + 1) % u64_mod) busy))
    × ((Feedback.feedback_cycle 101 0 q).1 ≡ true)
feedback_cycle-send_example =
    Feedback.feedback_cycle-send 4 0 1 101 busy waiting waiting-IsValid (omega arith) (omega arith)
      (omega arith)
