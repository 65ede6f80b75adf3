-- ===== src/Graph/Cycle/Whole.antt =====
-- A whole cycle, without the changes of a dynamic graph: the layers, then a clean slate.
use wingfoil.Base.{
  ℕ, zero, suc, ◌≡◌, refl, sym, ap, subst, ◌∙◌, Bool, false, List, [], ◌∷◌, arith, length, get_or,
}
use wingfoil.Graph.Effects.{Result, ok, err, panic, diverged, and_then}
use wingfoil.Graph.State.{GraphState, reset, clear_flags, clear_rows}
use wingfoil.Graph.Env.{Env, World, read_clock}
use wingfoil.Graph.Cycle.{cycle}
use wingfoil.Graph.Cycle.Invariant.{IsValid, SameGraph, SameGraph-IsValid}
use wingfoil.Graph.Cycle.Calls.{Behaved, NoPanic}
use wingfoil.Graph.Cycle.Node.{Triggers}
use wingfoil.Graph.Cycle.Trace.{cycle_layers-RunsLayers}
use wingfoil.Graph.Cycle.Order.{all_layers}

length-clear_flags : (l : List Bool) → length (clear_flags l) ≡ length l
length-clear_flags [] = refl
length-clear_flags (b ∷ l) = ap suc (length-clear_flags l)

length-clear_rows : (l : List (List ℕ)) → length (clear_rows l) ≡ length l
length-clear_rows [] = refl
length-clear_rows (b ∷ l) = ap suc (length-clear_rows l)

get_or-clear_flags : (l : List Bool) (i : ℕ) → get_or (clear_flags l) i false ≡ false
get_or-clear_flags [] i = refl
get_or-clear_flags (b ∷ l) zero = refl
get_or-clear_flags (b ∷ l) (suc i) = get_or-clear_flags l i

get_or-clear_rows : (l : List (List ℕ)) (i : ℕ) → get_or (clear_rows l) i [] ≡ []
get_or-clear_rows [] i = refl
get_or-clear_rows (b ∷ l) zero = refl
get_or-clear_rows (b ∷ l) (suc i) = get_or-clear_rows l i

-- No node is dirty, none has ticked, and the rows are empty.
pub record IsClean (s : GraphState) : Type 0 where
  pub no_tick : (ix : ℕ) → get_or s.node_ticked ix false ≡ false
  pub no_dirty : (ix : ℕ) → get_or s.node_dirty ix false ≡ false
  pub no_row : (l : ℕ) → get_or s.dirty_nodes_by_layer l [] ≡ []

pub reset-IsClean : (s : GraphState) → IsClean (reset s)
unfolding reset
reset-IsClean s = record {
  no_tick = get_or-clear_flags s.node_ticked;
  no_dirty = get_or-clear_flags s.node_dirty;
  no_row = get_or-clear_rows s.dirty_nodes_by_layer;
}

pub reset-IsValid : (s : GraphState) → IsValid s → IsValid (reset s)
unfolding reset
reset-IsValid s v = record {
  flags = length-clear_flags s.node_dirty ∙ v.flags;
  ticks = length-clear_flags s.node_ticked ∙ v.ticks;
  wired = rw (length-clear_rows s.dirty_nodes_by_layer) v.wired;
  rows = λ ix l.
      rw (get_or-clear_rows s.dirty_nodes_by_layer l, get_or-clear_flags s.node_dirty ix) refl;
}

-- No node has ticked yet.
abbrev pub NoTicks : GraphState → Type 0
NoTicks s = (ix : ℕ) → get_or s.node_ticked ix false ≡ false

pub NoTicks-Triggers : (s : GraphState) → NoTicks s → Triggers s
NoTicks-Triggers s none_yet ix n ticked at = cc (none_yet ix)

abbrev CleanIfOk : Result (Unit {0}) × GraphState → Type 0
CleanIfOk (ok a, s) = IsClean s
CleanIfOk (err e, s) = Unit
CleanIfOk (panic, s) = ⊥
CleanIfOk (diverged, s) = ⊥

-- What a cycle leaves: a valid state, a clean one if it returns, and never a panic.
abbrev pub AfterCycle : {S : Type 0} → Result (Unit {0}) × World S → Type 0
AfterCycle r = CleanIfOk (r.0, r.1.state) × IsValid r.1.state

module _ (env : Env) where
  snapped : World env.Store → World env.Store
  unfolding read_clock
  snapped w =
      let w' = (read_clock env w).1 in
      record w' { state = record (w'.state) { wall_time = env.now w.asked } }

  snapped-SameGraph : (w : World env.Store) → SameGraph w.state (snapped w).state
  unfolding snapped
  snapped-SameGraph w = record { nodes = refl; ticked = refl; dirty = refl; rows = refl }

  finish : (r : Result (Unit {0})) (w : World env.Store) → Result (Unit {0}) × World env.Store
  finish r w = and_then r (λ _ w. (ok tt, record w { state = reset w.state })) w

  finish-AfterCycle :
      (r : Result (Unit {0})) (w : World env.Store)
      → NoPanic r
      → IsValid w.state
      → AfterCycle (finish r w)
  unfolding finish
  finish-AfterCycle (ok a) w h v = (reset-IsClean w.state, reset-IsValid w.state v)
  finish-AfterCycle (err e) w h v = (tt, v)
  finish-AfterCycle panic w h v = absurd h
  finish-AfterCycle diverged w h v = absurd h

  cycle_static :
      (w : World env.Store)
      → env.dynamic_graph ≡ false
      → cycle env w ≡ finish (all_layers env (snapped w)).0 (all_layers env (snapped w)).1
  unfolding cycle snapped finish read_clock
  cycle_static w off = rw off

  -- If node cycles behave, a cycle of a static graph, from a valid state in which no node has
  -- ticked, does not panic or diverge and leaves a valid state; if no node failed, nothing is
  -- dirty, ticked or queued in a row any more.
  pub cycle-AfterCycle :
      (w : World env.Store)
      → Behaved env
      → env.dynamic_graph ≡ false
      → IsValid w.state
      → NoTicks w.state
      → AfterCycle (cycle env w)
  cycle-AfterCycle w law off v none_yet =
      let w' = snapped w in
      let same = snapped-SameGraph w in
      let v' = SameGraph-IsValid same v in
      let trig = NoTicks-Triggers w'.state (λ ix. rw same.ticked (none_yet ix)) in
      let (run, fine, v'', upto, trig') =
        cycle_layers-RunsLayers env law (length w'.state.dirty_nodes_by_layer) 0 w' (omega arith) v'
          trig in
      subst AfterCycle (sym (cycle_static w off))
        (finish-AfterCycle (all_layers env w').0 (all_layers env w').1 fine v'')
