-- ===== src/Graph/Cycle.antt =====
-- One engine cycle: `cycle` and `cycle_node`.
pub mod Invariant
pub mod Calls
pub mod Node
pub mod Row
pub mod Trace
pub mod Order
pub mod Wakes
pub mod Whole
pub mod Ends
use wingfoil.Base.{
  ℕ, zero, suc, ◌+◌, Bool, List, [], ◌∷◌, none, some, not, if◌then◌else◌, get_elem?, length,
}
use wingfoil.Graph.Effects.{
  Phase, Action, Result, pure, expect, attempt, with_context, propagate, ◌>>=◌, ◌>>◌,
}
use wingfoil.Graph.State.{Edge, NodeData, mark_dirty, set_ticked, reset}
use wingfoil.Graph.Env.{World, Env, get, modify, update, read_clock}
use wingfoil.Graph.Dynamic.{process_pending_removals, process_pending_additions, set_current}

module _ {S : Type 0} where
  mark_downstreams : List Edge → Action (World S) (Unit {0})
  mark_downstreams [] = pure tt
  mark_downstreams (edge ∷ edges) =
      (if edge.active then update (mark_dirty edge.node_index) else pure tt)
      >> mark_downstreams edges

  -- A node that ticked is flagged, and so are those that it triggers.
  pub report_tick : ℕ → Action (World S) (Unit {0})
  unfolding mark_downstreams
  report_tick index = do
    update (set_ticked index)
    s ← get
    node_data ← expect (get_elem? s.nodes index)
    mark_downstreams node_data.downstreams

module _ (env : Env) where
  open env use {Store, cycle as node_cycle, dynamic_graph}

  -- After the node's own `cycle` returned.
  after_cycle : ℕ → Result Bool → Action (World Store) (Unit {0})
  unfolding report_tick
  after_cycle index result = do
    set_current none
    ticked ← propagate (with_context Phase.cycle index result)
    if ticked then report_tick index else pure tt

  -- The node at an index of the graph, which is taken from it.
  cycle_active : ℕ → NodeData → Action (World Store) (Unit {0})
  unfolding after_cycle
  cycle_active index node_data = do
    set_current (some index)
    attempt (node_cycle node_data.node) (after_cycle index)

  pub cycle_node : ℕ → Action (World Store) (Unit {0})
  unfolding cycle_active
  cycle_node index = do
    s ← get
    node_data ← expect (get_elem? s.nodes index)
    if not node_data.active then pure tt else cycle_active index node_data

  -- `for i in 0..len` over the row of one layer; the bound was read before the loop.
  pub cycle_row : ℕ → ℕ → ℕ → Action (World Store) (Unit {0})
  unfolding cycle_node
  cycle_row zero lyr i = pure tt
  cycle_row (suc n) lyr i = do
    s ← get
    row ← expect (get_elem? s.dirty_nodes_by_layer lyr)
    ix ← expect (get_elem? row i)
    cycle_node ix
    cycle_row n lyr (i + 1)

  -- `for lyr in 0..len` over the layers.
  unfoldable pub cycle_layers : ℕ → ℕ → Action (World Store) (Unit {0})
  unfolding cycle_row
  cycle_layers zero lyr = pure tt
  cycle_layers (suc n) lyr = do
    s ← get
    row ← expect (get_elem? s.dirty_nodes_by_layer lyr)
    cycle_row (length row) lyr 0
    cycle_layers n (lyr + 1)

  unfoldable pub cycle : Action (World Store) (Unit {0})
  unfolding cycle_layers reset process_pending_removals process_pending_additions read_clock
  cycle = do
    now ← read_clock env
    modify (λ s. record s { wall_time = now })
    s ← get
    cycle_layers (length s.dirty_nodes_by_layer) 0
    modify reset
    if dynamic_graph then process_pending_removals env >> process_pending_additions env else pure tt
