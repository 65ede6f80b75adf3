-- ===== src/Graph/Cycle/Ends.antt =====
-- A cycle of a static graph ends if the cycles of its nodes do.
use wingfoil.Base.{
  ℕ, zero, suc, ◌+◌, ◌≡◌, Bool, false, not, List, [], ◌∷◌, none, some, get_elem?, length,
  if◌then◌else◌,
}
use wingfoil.Graph.Effects.{
  Phase, Result, ok, err, panic, diverged, Action, with_context, pure, expect, ◌>>=◌, ◌>>◌,
}
use wingfoil.Graph.Ends.{
  NotDiverged, Ends, Ends-then, Ends-attempt, Ends-updated, Ends-expect, Ends-if,
}
use wingfoil.Graph.State.{Edge, NodeData, mark_dirty, set_ticked, reset}
use wingfoil.Graph.Env.{World, Env, update, updated, modify, read_clock}
use wingfoil.Graph.Dynamic.{process_pending_removals, process_pending_additions}
use wingfoil.Graph.Cycle.{
  mark_downstreams, report_tick, after_cycle, cycle_active, cycle_node, cycle_row, cycle_layers,
  cycle,
}

module _ {S : Type 0} where
  mark_downstreams-Ends : (edges : List Edge) → Ends (mark_downstreams {S = S} edges)
  unfolding mark_downstreams
  mark_downstreams-Ends [] w = tt
  mark_downstreams-Ends (edge ∷ edges) w =
      let mark : Action (World S) (Unit {0}) =
        if edge.active then update (mark_dirty edge.node_index) else pure tt in
      Ends-then (mark w) (λ _. mark_downstreams edges)
        (Ends-if edge.active (update (mark_dirty edge.node_index)) (pure tt)
          (λ w. Ends-updated (mark_dirty edge.node_index w.state) w) (λ w. tt) w)
        (λ _. mark_downstreams-Ends edges)

  report_tick-Ends : (ix : ℕ) → Ends (report_tick {S = S} ix)
  unfolding report_tick
  report_tick-Ends ix w =
      let marked : NodeData → Action (World S) (Unit {0}) = λ n. mark_downstreams n.downstreams in
      let rest : Action (World S) (Unit {0}) =
        λ w. (expect (get_elem? w.state.nodes ix) >>= marked) w in
      Ends-then (updated (set_ticked ix w.state) w) (λ _. rest)
        (Ends-updated (set_ticked ix w.state) w)
        (λ _ w'.
          Ends-then (expect (get_elem? w'.state.nodes ix) w') marked
            (Ends-expect (get_elem? w'.state.nodes ix) w')
            (λ n. mark_downstreams-Ends n.downstreams))

module _ (env : Env) (nodes_end : (a : ℕ) → Ends (env.cycle a)) where
  open env use {Store}

  with_context-NotDiverged :
      (ix : ℕ) (r : Result Bool) → NotDiverged r → NotDiverged (with_context Phase.cycle ix r)
  with_context-NotDiverged ix (ok b) h = tt
  with_context-NotDiverged ix (err e) h = tt
  with_context-NotDiverged ix panic h = tt
  with_context-NotDiverged ix diverged h = h

  after_cycle-Ends : (ix : ℕ) (r : Result Bool) → NotDiverged r → Ends (after_cycle env ix r)
  unfolding after_cycle
  after_cycle-Ends ix r h w =
      let report : Bool → Action (World Store) (Unit {0}) =
        λ ticked. if ticked then report_tick ix else pure tt in
      let w' : World Store = record w { state = record (w.state) { current_node_index = none } } in
      Ends-then (with_context Phase.cycle ix r, w') report (with_context-NotDiverged ix r h)
        (λ ticked. Ends-if ticked (report_tick ix) (pure tt) (report_tick-Ends ix) (λ w. tt))

  cycle_active-Ends : (ix : ℕ) (n : NodeData) → Ends (cycle_active env ix n)
  unfolding cycle_active
  cycle_active-Ends ix n w =
      let w' : World Store = record w {
        state = record (w.state) { current_node_index = some ix };
      } in
      Ends-attempt (env.cycle n.node w') (after_cycle env ix) (nodes_end n.node w')
        (after_cycle-Ends ix)

  cycle_node-Ends : (ix : ℕ) → Ends (cycle_node env ix)
  unfolding cycle_node
  cycle_node-Ends ix w =
      let run_one : NodeData → Action (World Store) (Unit {0}) =
        λ n. if not n.active then pure tt else cycle_active env ix n in
      Ends-then (expect (get_elem? w.state.nodes ix) w) run_one
        (Ends-expect (get_elem? w.state.nodes ix) w)
        (λ n.
          Ends-if (not n.active) (pure tt) (cycle_active env ix n) (λ w. tt)
            (cycle_active-Ends ix n))

  cycle_row-Ends : (n lyr i : ℕ) → Ends (cycle_row env n lyr i)
  unfolding cycle_row
  cycle_row-Ends zero lyr i w = tt
  cycle_row-Ends (suc n) lyr i w =
      let rest : Action (World Store) (Unit {0}) = cycle_row env n lyr (i + 1) in
      let one : ℕ → Action (World Store) (Unit {0}) = λ ix. cycle_node env ix >> rest in
      let pick : List ℕ → Action (World Store) (Unit {0}) =
        λ row. expect (get_elem? row i) >>= one in
      Ends-then (expect (get_elem? w.state.dirty_nodes_by_layer lyr) w) pick
        (Ends-expect (get_elem? w.state.dirty_nodes_by_layer lyr) w)
        (λ row w'.
          Ends-then (expect (get_elem? row i) w') one (Ends-expect (get_elem? row i) w') (λ ix w''.
            Ends-then (cycle_node env ix w'') (λ _. rest) (cycle_node-Ends ix w'')
              (λ _. cycle_row-Ends n lyr (i + 1))))

  cycle_layers-Ends : (n lyr : ℕ) → Ends (cycle_layers env n lyr)
  unfolding cycle_layers
  cycle_layers-Ends zero lyr w = tt
  cycle_layers-Ends (suc n) lyr w =
      let rest : Action (World Store) (Unit {0}) = cycle_layers env n (lyr + 1) in
      let layer : List ℕ → Action (World Store) (Unit {0}) =
        λ row. cycle_row env (length row) lyr 0 >> rest in
      Ends-then (expect (get_elem? w.state.dirty_nodes_by_layer lyr) w) layer
        (Ends-expect (get_elem? w.state.dirty_nodes_by_layer lyr) w)
        (λ row w'.
          Ends-then (cycle_row env (length row) lyr 0 w') (λ _. rest)
            (cycle_row-Ends (length row) lyr 0 w') (λ _. cycle_layers-Ends n (lyr + 1)))

  -- Also where a node's cycle fails or panics.
  pub cycle-Ends : env.dynamic_graph ≡ false → Ends (cycle env)
  unfolding cycle read_clock
  cycle-Ends off w =
      let now : World Store = (read_clock env w).1 in
      let w' : World Store = record now {
        state = record (now.state) { wall_time = env.now w.asked };
      } in
      let changes : Action (World Store) (Unit {0}) =
        if env.dynamic_graph
        then process_pending_removals env >> process_pending_additions env
        else pure tt in
      let layers = cycle_layers env (length w.state.dirty_nodes_by_layer) 0 in
      Ends-then (layers w') (λ _. modify reset >> changes)
        (cycle_layers-Ends (length w.state.dirty_nodes_by_layer) 0 w') (λ _ w''. rw off tt)
