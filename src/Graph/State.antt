-- ===== src/Graph/State.antt =====
-- GraphState, the part of the engine that nodes can reach, and its methods.
use wingfoil.Base.{
  ℕ, ◌-◌, Bool, true, false, not, List, [], ◌∷◌, ◌++◌, Option, none, some, map, ltb, ◌==◌,
  if◌then◌else◌, any, get_elem?, set, length, u64_mod,
}
use wingfoil.Queue.{TimeQueue, nat_eq}
use wingfoil.Queue
use wingfoil.Graph.Effects.{Error}

pub record Edge : Type 0 where
  pub node_index : ℕ
  pub active : Bool

-- A node is known by the address of its cell: `Rc<dyn Node>` under `ByThinAddress`.
pub record NodeData : Type 0 where
  pub node : ℕ
  pub upstreams : List Edge
  pub downstreams : List Edge
  pub layer : ℕ
  pub active : Bool

pub data RunMode : Type 0 where
  real_time : RunMode
  historical_from : ℕ → RunMode

-- A duration in nanoseconds.
pub data RunFor : Type 0 where
  duration : ℕ → RunFor
  cycles : ℕ → RunFor
  forever : RunFor

pub record PendingAddition : Type 0 where
  pub node : ℕ
  pub caller_index : ℕ
  pub is_active : Bool
  pub recycle : Bool

pub record GraphState : Type 0 where
  pub time : ℕ
  pub wall_time : ℕ
  pub first_cycle : Bool
  pub is_last_cycle : Bool
  pub current_node_index : Option ℕ
  pub scheduled_callbacks : TimeQueue ℕ
  pub always_callbacks : List ℕ
  pub node_to_index : List (ℕ × ℕ)
  pub node_ticked : List Bool
  pub run_mode : RunMode
  pub run_for : RunFor
  pub ready_callbacks : List ℕ
  pub start_time : ℕ
  pub nodes : List NodeData
  pub dirty_nodes_by_layer : List (List ℕ)
  pub node_dirty : List Bool
  pub wiring_error : Option Error
  pub pending_additions : List PendingAddition
  pub pending_removals : List ℕ

unfoldable pub done : RunFor → ℕ → ℕ → Bool
done (cycles n) cycle elapsed = ltb n cycle
done (duration d) cycle elapsed = ltb d elapsed
done forever cycle elapsed = false

unfoldable pub new_state : RunMode → RunFor → ℕ → GraphState
unfolding Queue.new
new_state run_mode run_for start_time = record {
  time = 0;
  wall_time = 0;
  first_cycle = true;
  is_last_cycle = false;
  current_node_index = none;
  scheduled_callbacks = Queue.new;
  always_callbacks = [];
  node_to_index = [];
  node_ticked = [];
  run_mode = run_mode;
  run_for = run_for;
  ready_callbacks = [];
  start_time = start_time;
  nodes = [];
  dirty_nodes_by_layer = [];
  node_dirty = [];
  wiring_error = none;
  pending_additions = [];
  pending_removals = [];
}

-- `saturating_sub`
unfoldable pub elapsed : GraphState → ℕ
elapsed s = s.time - s.start_time

unfoldable pub add_callback_for_node : ℕ → ℕ → GraphState → GraphState
unfolding Queue.push
add_callback_for_node node_index time s = record s {
  scheduled_callbacks = Queue.push node_index time s.scheduled_callbacks;
}

-- `none` is the panic of `expect`.
unfoldable pub add_callback : ℕ → GraphState → Option GraphState
unfolding add_callback_for_node
add_callback time s = elim s.current_node_index [
  | none ↦ none
  | some ix ↦ some (add_callback_for_node ix time s)
]

unfoldable pub always_callback : GraphState → Option GraphState
always_callback s = elim s.current_node_index [
  | none ↦ none
  | some ix ↦ some (
      if any (λ i. i == ix) s.always_callbacks
      then s
      else record s { always_callbacks = s.always_callbacks ++ ix ∷ [] })
]

unfoldable pub add_upstream : ℕ → Bool → Bool → GraphState → Option GraphState
add_upstream upstream is_active recycle s = elim s.current_node_index [
  | none ↦ none
  | some caller ↦ some (record s {
    pending_additions =
        s.pending_additions
        ++ record {
          node = upstream;
          caller_index = caller;
          is_active = is_active;
          recycle = recycle;
        }
          ∷ [];
  })
]

unfoldable pub remove_node : ℕ → GraphState → GraphState
remove_node node s = record s { pending_removals = s.pending_removals ++ node ∷ [] }

unfoldable pub has_scheduled_callbacks : GraphState → Bool
unfolding Queue.is_empty
has_scheduled_callbacks s = not (Queue.is_empty s.scheduled_callbacks)

-- `NanoTime::MAX` on an empty queue.
unfoldable pub next_scheduled_time : GraphState → ℕ
unfolding Queue.next_time
next_scheduled_time s = elim (Queue.next_time s.scheduled_callbacks) [
  | none ↦ u64_mod - 1
  | some t ↦ t
]

-- The `HashMap` from a node's address to its index; a later insert of one key hides an earlier one.
abbrev pub lookup : ℕ → List (ℕ × ℕ) → Option ℕ
lookup k [] = none
lookup k ((j, v) ∷ m) = if j == k then some v else lookup k m

unfoldable pub node_index : ℕ → GraphState → Option ℕ
node_index node s = lookup node s.node_to_index

abbrev pub is_some {ℓ} : {A : Type ℓ} → Option A → Bool
is_some none = false
is_some (some a) = true

unfoldable pub seen : ℕ → GraphState → Bool
seen node s = is_some (lookup node s.node_to_index)

unfoldable pub node_index_ticked : ℕ → GraphState → Option Bool
node_index_ticked i s = get_elem? s.node_ticked i

-- A node that is not in the graph has not ticked; an index out of range panics.
unfoldable pub ticked : ℕ → GraphState → Option Bool
ticked node s = elim (lookup node s.node_to_index) [
  | none ↦ some false
  | some i ↦ get_elem? s.node_ticked i
]

unfoldable pub push_node : ℕ → GraphState → GraphState
push_node node s = record s {
  node_ticked = s.node_ticked ++ false ∷ [];
  node_to_index = (node, length s.node_ticked) ∷ s.node_to_index;
}

unfoldable pub set_ticked : ℕ → GraphState → Option GraphState
set_ticked index s = elim (get_elem? s.node_ticked index) [
  | none ↦ none
  | some _ ↦ some (record s { node_ticked = set s.node_ticked index true })
]

unfoldable pub mark_dirty : ℕ → GraphState → Option GraphState
mark_dirty index s = elim (get_elem? s.node_dirty index) [
  | none ↦ none
  | some true ↦ some s
  | some false ↦ elim (get_elem? s.nodes index) [
    | none ↦ none
    | some data_ ↦ elim (get_elem? s.dirty_nodes_by_layer data_.layer) [
      | none ↦ none
      | some row ↦ some (record s {
        dirty_nodes_by_layer = set s.dirty_nodes_by_layer data_.layer (row ++ index ∷ []);
        node_dirty = set s.node_dirty index true;
      })
    ]
  ]
]

abbrev pub clear_flags : List Bool → List Bool
clear_flags l = map (λ _. false) l

abbrev pub clear_rows : List (List ℕ) → List (List ℕ)
clear_rows l = map (λ _. []) l

-- `Graph::reset` with `GraphState::reset`.
unfoldable pub reset : GraphState → GraphState
reset s = record s {
  node_ticked = clear_flags s.node_ticked;
  dirty_nodes_by_layer = clear_rows s.dirty_nodes_by_layer;
  node_dirty = clear_flags s.node_dirty;
}
