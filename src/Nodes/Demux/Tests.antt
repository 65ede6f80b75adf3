-- ===== src/Nodes/Demux/Tests.antt =====
-- A demux with one child, in a graph of the parent, the child and the overflow.
use wingfoil.Base.{
  ℕ, zero, suc, ◌≤◌, ◌<◌, ◌≡◌, refl, Bool, true, false, List, [], ◌∷◌, Option, none, some, arith,
  get_elem?, get_or, count, All,
}
use mathlib.Core.Option.{some-injective}
use wingfoil.Queue.{nat_eq}
use wingfoil.Graph.State.{GraphState, NodeData, RunMode, RunFor, mark_dirty, node_index}
use wingfoil.Graph.Cycle.Invariant.{IsValid, Above, marked}
use wingfoil.Nodes.Demux.{new, get_or_insert}
use wingfoil.Nodes.Demux.Parent.{
  DemuxEvent, no_event, DemuxVecParent, new_vec_parent, vec_setup, vec_parent_cycle, route_items,
  route_item, demuxed,
}
use wingfoil.Nodes.Demux.Rows.{Ready}
use wingfoil.Nodes.Demux.Routes.{Demuxed, vec_parent_cycle-Demuxed}
use wingfoil.Nodes.Demux.Setup.{SetUp, vec_setup-SetUp}

abbrev lone : ℕ → ℕ → NodeData
lone node_ layer_ = record {
  node = node_;
  upstreams = [];
  downstreams = [];
  layer = layer_;
  active = true;
}

abbrev family : GraphState
family = record {
  time = 100;
  wall_time = 0;
  first_cycle = false;
  is_last_cycle = false;
  current_node_index = some 0;
  scheduled_callbacks = record { heap = []; next_seq = 0 };
  always_callbacks = [];
  node_to_index = (7, 2) ∷ (6, 1) ∷ (5, 0) ∷ [];
  node_ticked = false ∷ false ∷ false ∷ [];
  run_mode = RunMode.historical_from 100;
  run_for = RunFor.forever;
  ready_callbacks = [];
  start_time = 100;
  nodes = lone 5 0 ∷ lone 6 1 ∷ lone 7 1 ∷ [];
  dirty_nodes_by_layer = [] ∷ [] ∷ [];
  node_dirty = false ∷ false ∷ false ∷ [];
  wiring_error = none;
  pending_additions = [];
  pending_removals = [];
}

family_layered : (ix : ℕ) (n : NodeData) → get_elem? family.nodes ix ≡ some n → n.layer < 2
family_layered zero n e = ground arith
family_layered (suc zero) n e = ground arith
family_layered (suc (suc zero)) n e = ground arith
family_layered (suc (suc (suc ix))) n e = cc

family_rising :
    (ix : ℕ) (n : NodeData)
    → get_elem? family.nodes ix ≡ some n
    → All (Above family.nodes n.layer) n.downstreams
family_rising zero n e = rw (← some-injective (lone 5 0) n e) tt
family_rising (suc zero) n e = rw (← some-injective (lone 6 1) n e) tt
family_rising (suc (suc zero)) n e = rw (← some-injective (lone 7 1) n e) tt
family_rising (suc (suc (suc ix))) n e = cc

no_rows : (ix l : ℕ) → count ix (get_or family.dirty_nodes_by_layer l []) ≡ 0
no_rows ix zero = refl
no_rows ix (suc zero) = refl
no_rows ix (suc (suc l)) = refl

no_flags : (ix l : ℕ) → marked family.nodes family.node_dirty ix l ≡ 0
no_flags zero l = refl
no_flags (suc zero) l = refl
no_flags (suc (suc zero)) l = refl
no_flags (suc (suc (suc ix))) l = refl

family-IsValid : IsValid family
family-IsValid = record {
  flags = refl;
  ticks = refl;
  wired = record { layered = family_layered; rising = family_rising };
  rows = λ ix l. rw (no_rows ix l, no_flags ix l) refl;
}

abbrev first_free : List ℕ → Option ℕ
first_free [] = none
first_free (ix ∷ l) = some ix

first_free_member : (l : List ℕ) (ix : ℕ) → first_free l ≡ some ix → 1 ≤ count ix l
first_free_member [] ix e = cc
first_free_member (j ∷ l) ix e = let same : j ≡ ix = some-injective j ix e in ground arith

-- An item is its key.
abbrev by_key : ℕ → ℕ × DemuxEvent
by_key x = (x, no_event)

vec_setup-SetUp_example :
    SetUp family 2 (6 ∷ []) (vec_setup (new_vec_parent by_key (new 1) (6 ∷ []) (some 7)) family)
unfolding node_index
vec_setup-SetUp_example =
    vec_setup-SetUp by_key family (6 ∷ []) 7 2 ((1, refl, omega arith), tt) (omega arith) refl
      (omega arith)

abbrev parent : DemuxVecParent ℕ ℕ
parent = record {
  func = by_key;
  map = record { available = 0 ∷ []; in_use = []; size = 1 };
  outputs = record { children = []; overflow_child = none; index_map = 1 ∷ [] };
  value = (3 ∷ []) ∷ [] ∷ [];
  overflow_graph_index = some 2;
}

parent-Ready : Ready 3 2 parent
parent-Ready = record {
  in_range = record { free = (omega arith, tt); held = tt };
  indexed = refl;
  children = (omega arith, tt);
  rows = refl;
  overflow_index = refl;
  overflow_node = omega arith;
}

abbrev three_items : List ℕ
three_items = 40 ∷ 41 ∷ 40 ∷ []

vec_parent_cycle-Demuxed_example :
    Demuxed first_free first_free_member 2 parent family three_items
      (vec_parent_cycle first_free parent three_items family)
vec_parent_cycle-Demuxed_example =
    vec_parent_cycle-Demuxed first_free first_free_member 2 parent family three_items family-IsValid
      parent-Ready

abbrev rows_of : Option (Bool × DemuxVecParent ℕ ℕ × GraphState) → List (List ℕ)
rows_of none = []
rows_of (some (ticked, s, state)) = s.value

-- The second key has no slot.
burst_rows :
    rows_of (vec_parent_cycle first_free parent three_items family)
    ≡ (40 ∷ 40 ∷ []) ∷ (41 ∷ []) ∷ []
unfolding vec_parent_cycle route_items route_item demuxed get_or_insert mark_dirty
burst_rows = refl
