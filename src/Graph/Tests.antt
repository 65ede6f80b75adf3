-- ===== src/Graph/Tests.antt =====
-- The theorems on the engine at a graph of two nodes.
mod Wiring
mod Run
use wingfoil.Base.{
  ℕ, zero, suc, ◌≤◌, ◌<◌, ◌≡◌, refl, true, false, [], ◌∷◌, none, some, arith, ◌==◌, get_elem?,
  get_or, count, All, if◌then◌else◌,
}
use mathlib.Core.Option.{some-injective}
use wingfoil.Queue.Order.{sort, insert}
use wingfoil.Queue.Events
use wingfoil.Graph.Run.{first_error, errors_of}
use wingfoil.Graph.Run.Outcome.{Carries, first_error-append}
use wingfoil.Graph.Effects.{Error, err, ok, for_each}
use wingfoil.Graph.State.{
  Edge, NodeData, RunMode, RunFor, GraphState, set_ticked, mark_dirty, has_scheduled_callbacks,
  next_scheduled_time,
}
use wingfoil.Graph.Env.{Env, World}
use wingfoil.Graph.Cycle.{cycle_node, cycle, cycle_layers}
use wingfoil.Graph.Callbacks.{advance_time, nonempty, process_scheduled_callbacks}
use wingfoil.Graph.Callbacks.Marks.{IsDirty}
use wingfoil.Graph.Callbacks.Due.{Scheduled, process_scheduled_callbacks-Scheduled}
use wingfoil.Graph.Callbacks.Time.{advance_time-Rises}
use wingfoil.Graph.Cycle.Invariant.{IsValid, Above, marked}
use wingfoil.Graph.Cycle.Calls.{Behaved, NoPanic, here}
use wingfoil.Graph.Cycle.Node.{Triggers, Cycled, cycle_node-Cycled}
use wingfoil.Graph.Cycle.Order.{Ordered, order_of, all_layers, all_layers-Ordered}
use wingfoil.Graph.Cycle.Wakes.{all_layers-triggers}
use wingfoil.Graph.Cycle.Whole.{NoTicks, NoTicks-Triggers, AfterCycle, cycle-AfterCycle}

-- Node 5 feeds node 6; both tick whenever they are cycled.
abbrev pub two_env : Env
two_env = record {
  Store = Unit;
  upstreams = λ _ node. record { active = (if node == 6 then 5 ∷ [] else []); passive = [] };
  setup = λ _ w. (ok tt, w);
  start = λ _ w. (ok tt, w);
  cycle = λ _ w. (ok true, w);
  stop = λ _ w. (ok tt, w);
  teardown = λ _ w. (ok tt, w);
  now = λ k. k;
  arrived = λ _. [];
  fuel = 10;
  dynamic_graph = false;
}

two-Behaved : Behaved two_env
two-Behaved = record { returns = λ k n w v at cur. (tt, here) }

abbrev feeder : NodeData
feeder = record {
  node = 5;
  upstreams = [];
  downstreams = record { node_index = 1; active = true } ∷ [];
  layer = 0;
  active = true;
}

abbrev fed : NodeData
fed = record {
  node = 6;
  upstreams = record { node_index = 0; active = true } ∷ [];
  downstreams = [];
  layer = 1;
  active = true;
}

-- The first node is dirty.
abbrev pub two_state : GraphState
two_state = record {
  time = 100;
  wall_time = 0;
  first_cycle = false;
  is_last_cycle = false;
  current_node_index = none;
  scheduled_callbacks = record {
    heap = record { time = 90; seq = 0; value = 0 } ∷ [];
    next_seq = 1;
  };
  always_callbacks = 1 ∷ [];
  node_to_index = (6, 1) ∷ (5, 0) ∷ [];
  node_ticked = false ∷ false ∷ [];
  run_mode = RunMode.historical_from 100;
  run_for = RunFor.forever;
  ready_callbacks = [];
  start_time = 100;
  nodes = feeder ∷ fed ∷ [];
  dirty_nodes_by_layer = (0 ∷ []) ∷ [] ∷ [];
  node_dirty = true ∷ false ∷ [];
  wiring_error = none;
  pending_additions = [];
  pending_removals = [];
}

abbrev pub two_world : World Unit
two_world = record { state = two_state; store = tt; asked = 0 }

two_layered : (ix : ℕ) (n : NodeData) → get_elem? two_state.nodes ix ≡ some n → n.layer < 2
two_layered zero n e = ground arith
two_layered (suc zero) n e = ground arith
two_layered (suc (suc ix)) n e = cc

two_rising :
    (ix : ℕ) (n : NodeData)
    → get_elem? two_state.nodes ix ≡ some n
    → All (Above two_state.nodes n.layer) n.downstreams
two_rising zero n e = rw (← some-injective feeder n e) ((fed, refl, omega arith), tt)
two_rising (suc zero) n e = rw (← some-injective fed n e) tt
two_rising (suc (suc ix)) n e = cc

two_rows :
    (ix l : ℕ)
    → count ix (get_or two_state.dirty_nodes_by_layer l [])
      ≡ marked two_state.nodes two_state.node_dirty ix l
two_rows zero zero = refl
two_rows zero (suc zero) = refl
two_rows zero (suc (suc l)) = ground arith
two_rows (suc zero) zero = refl
two_rows (suc zero) (suc zero) = refl
two_rows (suc zero) (suc (suc l)) = ground arith
two_rows (suc (suc ix)) zero = ground arith
two_rows (suc (suc ix)) (suc zero) = refl
two_rows (suc (suc ix)) (suc (suc l)) = refl

two-IsValid : IsValid two_state
two-IsValid = record {
  flags = refl;
  ticks = refl;
  wired = record { layered = two_layered; rising = two_rising };
  rows = two_rows;
}

two-NoTicks : NoTicks two_state
two-NoTicks zero = refl
two-NoTicks (suc zero) = refl
two-NoTicks (suc (suc ix)) = refl

two-Triggers : Triggers two_state
two-Triggers = NoTicks-Triggers two_state two-NoTicks

all_layers-Ordered_example :
    (all_layers two_env two_world
      ≡ for_each (cycle_node two_env) (order_of (all_layers two_env two_world)) two_world)
    × NoPanic (all_layers two_env two_world).0
    × Ordered two_state.nodes (order_of (all_layers two_env two_world))
    × ((ix : ℕ) → count ix (order_of (all_layers two_env two_world)) ≤ 1)
all_layers-Ordered_example =
    all_layers-Ordered two_env two_world two-Behaved two-IsValid two-Triggers

two_order : order_of (all_layers two_env two_world) ≡ 0 ∷ 1 ∷ []
unfolding cycle_layers set_ticked mark_dirty
two_order = refl

all_layers-triggers_example :
    (all_layers two_env two_world ≡ for_each (cycle_node two_env) (0 ∷ 1 ∷ []) two_world)
    × All
        (λ (e : Edge). if e.active then count e.node_index (1 ∷ []) ≡ 1 else Unit)
        feeder.downstreams
unfolding cycle_layers set_ticked mark_dirty
all_layers-triggers_example =
    all_layers-triggers two_env two_world two-Behaved two-IsValid two-Triggers [] (1 ∷ []) 0 feeder
      refl refl refl (refl, refl)

cycle-AfterCycle_example : AfterCycle (cycle two_env two_world)
cycle-AfterCycle_example =
    cycle-AfterCycle two_env two_world two-Behaved refl two-IsValid two-NoTicks

cycle_node-Cycled_example : Cycled 0 two_world (cycle_node two_env 0 two_world)
cycle_node-Cycled_example =
    cycle_node-Cycled two_env 0 feeder two_world two-Behaved two-IsValid two-Triggers refl

two_events : Events.events two_state.scheduled_callbacks ≡ (0, 90) ∷ []
unfolding Events.events sort insert
two_events = refl

process_scheduled_callbacks-Scheduled_example :
    Scheduled 100
      (nonempty two_state.always_callbacks)
      (Events.events two_state.scheduled_callbacks)
      two_world
      (process_scheduled_callbacks two_world)
    × All (IsDirty (process_scheduled_callbacks two_world).1.state) two_state.always_callbacks
process_scheduled_callbacks-Scheduled_example =
    process_scheduled_callbacks-Scheduled two_world two-IsValid ((tt, tt), (omega arith, tt))
      (omega arith, tt) (rw two_events (omega arith, tt))

advance_time-Rises_example :
    (two_state.time < (advance_time two_state).time)
    × (if has_scheduled_callbacks two_state
        then next_scheduled_time two_state ≤ (advance_time two_state).time
        else Unit)
unfolding has_scheduled_callbacks
advance_time-Rises_example = advance_time-Rises two_state refl refl (omega arith)

abbrev stop_failed : Error
stop_failed = Error.node_failed 1

abbrev teardown_failed : Error
teardown_failed = Error.node_failed 2

first_error-append_example :
    (first_error (ok tt ∷ ok tt ∷ []) ≡ ok tt)
    × Carries stop_failed
        (teardown_failed ∷ [])
        (first_error (ok tt ∷ ok tt ∷ err stop_failed ∷ err teardown_failed ∷ []))
first_error-append_example =
    first_error-append (ok tt ∷ ok tt ∷ []) (err teardown_failed ∷ []) stop_failed (tt, (tt, tt))
