-- ===== src/Graph/Cycle/Trace.antt =====
-- A cycle of the engine as one run over the dirty nodes, in the order of their layers.
use wingfoil.Base.{
  ℕ, zero, suc, ◌+◌, ◌<◌, ◌≡◌, refl, sym, subst, ◌∙◌, List, [], some, arith, length, get_elem?,
  drop, drop_get, drop-length, flatten, lt_get_elem?,
}
use wingfoil.Graph.Effects.{Result, ok, err, panic, diverged, for_each, and_then}
use wingfoil.Graph.State.{GraphState}
use wingfoil.Graph.Env.{Env, World}
use wingfoil.Graph.Cycle.{cycle_node, cycle_row, cycle_layers}
use wingfoil.Graph.Cycle.Invariant.{IsValid}
use wingfoil.Graph.Cycle.Calls.{Behaved, NoPanic}
use wingfoil.Graph.Cycle.Node.{Triggers, Cycled}
use wingfoil.Graph.Cycle.Row.{row-OnLayer, for_each-append, cycle_row-RunsRow}

-- The rows of layers before `l` stay.
pub record Upto (l : ℕ) (s t : GraphState) : Type 0 where
  pub same_nodes : t.nodes ≡ s.nodes
  pub same_length : length t.dirty_nodes_by_layer ≡ length s.dirty_nodes_by_layer
  pub before :
      (j : ℕ) → j < l → get_elem? t.dirty_nodes_by_layer j ≡ get_elem? s.dirty_nodes_by_layer j

module _ (env : Env) (law : Behaved env) where
  abbrev pub RunsLayers : ℕ → World env.Store → Result (Unit {0}) × World env.Store → Type 0
  RunsLayers l w r =
      (r ≡ for_each (cycle_node env) (flatten (drop l r.1.state.dirty_nodes_by_layer)) w)
      × NoPanic r.0
      × IsValid r.1.state
      × Upto l w.state r.1.state
      × Triggers r.1.state

  run_split :
      (l : ℕ) (row : List ℕ) (rows : List (List ℕ)) (w : World env.Store)
      (r : Result (Unit {0}) × World env.Store)
      → r ≡ for_each (cycle_node env) row w
      → get_elem? rows l ≡ some row
      → for_each (cycle_node env) (flatten (drop l rows)) w
        ≡ and_then r.0 (λ _. for_each (cycle_node env) (flatten (drop (suc l) rows))) r.1
  run_split l row rows w r e at =
      rw (drop_get rows l row at, e)
        (for_each-append (cycle_node env) row (flatten (drop (suc l) rows)) w)

  -- The row of layer `l` is run, then the later ones.
  after_row :
      (l : ℕ) (row : List ℕ) (next : World env.Store → Result (Unit {0}) × World env.Store)
      (r : Result (Unit {0})) (w w' : World env.Store)
      → (r, w') ≡ for_each (cycle_node env) row w
      → get_elem? w.state.dirty_nodes_by_layer l ≡ some row
      → Cycled l w (r, w')
      → (r ≡ ok tt → RunsLayers (suc l) w' (next w'))
      → RunsLayers l w (and_then r (λ _. next) w')
  after_row l row next (ok a) w w' e here (fine, v, later, trig) ih =
      let (run, fine', v', upto, trig') = ih refl in
      let last = (next w').1.state in
      let kept : get_elem? last.dirty_nodes_by_layer l ≡ some row =
        upto.before l (omega arith) ∙ later.below l (omega arith) ∙ here in
      let upto' : Upto l w.state last = record {
        same_nodes = upto.same_nodes ∙ later.same_nodes;
        same_length = upto.same_length ∙ later.same_length;
        before = λ j h. upto.before j (omega arith) ∙ later.below j (omega arith);
      } in
      let split = run_split l row last.dirty_nodes_by_layer w (ok a, w') e kept in
      (run ∙ sym split, fine', v', upto', trig')
  after_row l row next (err x) w w' e here (fine, v, later, trig) ih =
      let kept : get_elem? w'.state.dirty_nodes_by_layer l ≡ some row =
        later.below l (omega arith) ∙ here in
      let upto : Upto l w.state w'.state = record {
        same_nodes = later.same_nodes;
        same_length = later.same_length;
        before = λ j h. later.below j (omega arith);
      } in
      (
        sym (run_split l row w'.state.dirty_nodes_by_layer w (err x, w') e kept),
        fine,
        v,
        upto,
        trig,
      )
  after_row l row next panic w w' e here c ih = absurd c.0
  after_row l row next diverged w w' e here c ih = absurd c.0

  pub cycle_layers-RunsLayers :
      (n l : ℕ) (w : World env.Store)
      → l + n ≡ length w.state.dirty_nodes_by_layer
      → IsValid w.state
      → Triggers w.state
      → RunsLayers l w (cycle_layers env n l w)
  unfolding cycle_layers
  cycle_layers-RunsLayers zero l w e v trig =
      let done : l ≡ length w.state.dirty_nodes_by_layer = omega arith in
      let upto : Upto l w.state w.state = record {
        same_nodes = refl;
        same_length = refl;
        before = λ j h. refl;
      } in
      (rw done (rw (drop-length w.state.dirty_nodes_by_layer)), tt, v, upto, trig)
  cycle_layers-RunsLayers (suc n) l w e v trig =
      let (row, at) = lt_get_elem? w.state.dirty_nodes_by_layer l (omega arith) in
      let (run, c) =
        cycle_row-RunsRow env law l [] row w v trig at (row-OnLayer w.state l row v at) in
      let r = cycle_row env (length row) l 0 w in
      let (fine, v', later, trig') = c in
      let next = λ (w : World env.Store). cycle_layers env n (l + 1) w in
      let step : cycle_layers env (suc n) l w ≡ and_then r.0 (λ _. next) r.1 = rw at in
      let more : l + 1 ≡ suc l = omega arith in
      let ih = cycle_layers-RunsLayers n (l + 1) r.1 (omega (arith, later.same_length)) v' trig' in
      subst (RunsLayers l w) (sym step) (
        after_row l row next r.0 w r.1 run at c
          (λ _. subst (λ k. RunsLayers k r.1 (next r.1)) more ih))
