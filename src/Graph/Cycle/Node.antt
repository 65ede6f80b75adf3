-- ===== src/Graph/Cycle/Node.antt =====
-- `cycle_node` keeps the invariant, never panics, and marks dirty what a ticking node triggers.
use wingfoil.Base.{
  ℕ, ◌<◌, ◌≡◌, refl, sym, subst, ◌∙◌, Bool, true, false, List, [], ◌∷◌, Option, none, some, arith,
  Bool-cases, inl, inr, ◌==◌, length, get_elem?, get_or, set, All, All-imp, length-set, get_or-set,
  get_elem?_lt, lt_get_elem?,
}
use wingfoil.Graph.Effects.{Result, ok, err, panic, diverged, attempted}
use wingfoil.Graph.State.{GraphState, NodeData, Edge, set_ticked}
use wingfoil.Graph.Env.{Env, World, updated}
use wingfoil.Graph.Cycle.{mark_downstreams, report_tick, after_cycle, cycle_active, cycle_node}
use wingfoil.Graph.Cycle.Invariant.{
  IsValid, Later, Later-refl, Later-trans, Above, mark_dirty_marks, SameGraph, SameGraph-IsValid,
  SameGraph-Later,
}
use wingfoil.Graph.Cycle.Calls.{Behaved, NoPanic, Kept, Calls-Kept}

abbrev pub Triggered : List Bool → Edge → Type 0
Triggered dirty e = e.active ≡ true → get_or dirty e.node_index false ≡ true

-- Every node that a ticked node triggers is dirty.
abbrev pub Triggers : GraphState → Type 0
Triggers s =
    (ix : ℕ) (n : NodeData)
    → get_or s.node_ticked ix false ≡ true
    → get_elem? s.nodes ix ≡ some n
    → All (Triggered s.node_dirty) n.downstreams

Triggered-Later :
    {l : ℕ} {s t : GraphState}
    → Later l s t
    → (es : List Edge) → All (Triggered s.node_dirty) es
    → All (Triggered t.node_dirty) es
Triggered-Later later es = All-imp (λ e h a. later.kept e.node_index (h a)) es

abbrev ticked_state : ℕ → GraphState → GraphState
ticked_state k s = record s { node_ticked = set s.node_ticked k true }

set_ticked-some :
    (k : ℕ) (s : GraphState) → k < length s.node_ticked → set_ticked k s ≡ some (ticked_state k s)
unfolding set_ticked
set_ticked-some k s h = let (b, e) = lt_get_elem? s.node_ticked k h in rw (e, set_ticked)

ticked-IsValid : (k : ℕ) (s : GraphState) → IsValid s → IsValid (ticked_state k s)
ticked-IsValid k s v = record {
  flags = v.flags;
  ticks = length-set s.node_ticked k true ∙ v.ticks;
  wired = v.wired;
  rows = v.rows;
}

Triggers-set :
    (k : ℕ) (n : NodeData) (s t : GraphState)
    → Triggers s
    → get_elem? s.nodes k ≡ some n
    → Later n.layer s t
    → t.node_ticked ≡ set s.node_ticked k true
    → All (Triggered t.node_dirty) n.downstreams
    → Triggers t
Triggers-set k n s t trig at later ticks on ix m tk here = elim (Bool-cases (k == ix)) [
  | inl same ↦ let e : m ≡ n = ground (arith, at, here, later.same_nodes) in rw e on
  | inr other ↦
      let was : get_or s.node_ticked ix false ≡ true =
        ground (arith, ticks, tk, get_or-set s.node_ticked k ix true false) in
      let at' : get_elem? s.nodes ix ≡ some m = rw later.same_nodes at here in
      Triggered-Later later m.downstreams (trig ix m was at')
]

module _ {S : Type 0} where
  -- What `mark_downstreams` leaves.
  abbrev Marks : ℕ → List Edge → World S → Result (Unit {0}) × World S → Type 0
  Marks l es w r =
      (r.0 ≡ ok tt) × Kept l w.state r.1.state × All (Triggered r.1.state.node_dirty) es

  Marks-here : (l : ℕ) (w : World S) → IsValid w.state → Marks l [] w (ok tt, w)
  Marks-here l w v = (refl, (v, Later-refl l w.state, refl), tt)

  mark_downstreams-Marks :
      (l : ℕ) (es : List Edge) (w : World S)
      → IsValid w.state
      → All (Above w.state.nodes l) es
      → Marks l es w (mark_downstreams es w)
  unfolding mark_downstreams
  mark_downstreams-Marks l [] w v a = Marks-here l w v
  mark_downstreams-Marks l (e ∷ es) w v a = elim (Bool-cases e.active) [
    | inr passive ↦
        let (fine, kept, rest) = mark_downstreams-Marks l es w v a.1 in
        let step : mark_downstreams (e ∷ es) w ≡ mark_downstreams es w = rw passive in
        subst (Marks l (e ∷ es) w) (sym step) (fine, kept, ((λ on. cc), rest))
    | inl active ↦
        let ((m, at, lt), _) = a in
        let (t, marks, (v', later, dirty, same)) =
          mark_dirty_marks l e.node_index w.state m v at lt in
        let w' : World S = record w { state = t } in
        let (fine, (v'', later', same'), rest) =
          mark_downstreams-Marks l es w' v' (rw later.same_nodes a.1) in
        let step : mark_downstreams (e ∷ es) w ≡ mark_downstreams es w' =
          rw active (rw (marks, updated)) in
        subst (Marks l (e ∷ es) w) (sym step) (
          fine,
          (v'', Later-trans later later', same' ∙ same),
          ((λ on. later'.kept e.node_index dirty), rest),
        )
  ]

  -- What a call on node `k` of layer `l` leaves: no panic, the invariant, rows up to `l` as they were,
  -- and triggered nodes dirty.
  abbrev pub Cycled : ℕ → World S → Result (Unit {0}) × World S → Type 0
  Cycled l w r = NoPanic r.0 × IsValid r.1.state × Later l w.state r.1.state × Triggers r.1.state

  report_tick-Cycled :
      (k : ℕ) (n : NodeData) (w : World S)
      → IsValid w.state
      → Triggers w.state
      → get_elem? w.state.nodes k ≡ some n
      → Cycled n.layer w (report_tick k w)
  unfolding report_tick
  report_tick-Cycled k n w v trig at =
      let t = ticked_state k w.state in
      let w' : World S = record w { state = t } in
      let above = v.wired.rising k n at in
      let (fine, (v', later, same), on) =
        mark_downstreams-Marks n.layer n.downstreams w' (ticked-IsValid k w.state v) above in
      let set_it =
        set_ticked-some k w.state (omega (arith, v.ticks, get_elem?_lt w.state.nodes k n at)) in
      let step : report_tick k w ≡ mark_downstreams n.downstreams w' =
        rw (set_it, updated) (rw at) in
      let later' : Later n.layer w.state (mark_downstreams n.downstreams w').1.state = record {
        same_nodes = later.same_nodes;
        same_length = later.same_length;
        below = later.below;
        kept = later.kept;
      } in
      subst (Cycled n.layer w) (sym step)
        (rw fine tt, v', later', Triggers-set k n w.state _ trig at later' same on)

  -- The nodes that a ticking node triggers are dirty.
  pub report_tick-Triggered :
      (k : ℕ) (n : NodeData) (w : World S)
      → IsValid w.state
      → get_elem? w.state.nodes k ≡ some n
      → All (Triggered (report_tick k w).1.state.node_dirty) n.downstreams
  unfolding report_tick
  report_tick-Triggered k n w v at =
      let t = ticked_state k w.state in
      let w' : World S = record w { state = t } in
      let (fine, kept, on) =
        mark_downstreams-Marks n.layer n.downstreams w' (ticked-IsValid k w.state v)
          (v.wired.rising k n at) in
      let set_it =
        set_ticked-some k w.state (omega (arith, v.ticks, get_elem?_lt w.state.nodes k n at)) in
      let step : report_tick k w ≡ mark_downstreams n.downstreams w' =
        rw (set_it, updated) (rw at) in
      subst
        (λ (r : Result (Unit {0}) × World S). All (Triggered r.1.state.node_dirty) n.downstreams)
        (sym step) on

Triggers-same :
    {l : ℕ} (s t : GraphState)
    → Triggers s
    → Later l s t
    → t.node_ticked ≡ s.node_ticked
    → Triggers t
Triggers-same s t trig later ticks ix m tk at =
    Triggered-Later later m.downstreams (trig ix m (rw ticks at tk) (rw later.same_nodes at at))

module _ {S : Type 0} where
  pub Cycled-after :
      {l : ℕ} (w w' : World S) (r : Result (Unit {0}) × World S)
      → Later l w.state w'.state
      → Cycled l w' r
      → Cycled l w r
  Cycled-after w w' r before (fine, v, later, trig) = (fine, v, Later-trans before later, trig)

  abbrev pub at_node : Option ℕ → World S → World S
  at_node c w = record w { state = record (w.state) { current_node_index = c } }

  pub at_node-SameGraph : (c : Option ℕ) (w : World S) → SameGraph w.state (at_node c w).state
  at_node-SameGraph c w = record { nodes = refl; ticked = refl; dirty = refl; rows = refl }

pub attempted_lem :
    {W A B : Type 0} (r : Result A) (f : Result A → W → Result B × W) (w : W)
    → NoPanic r
    → attempted r f w ≡ f r w
attempted_lem (ok a) f w h = refl
attempted_lem (err e) f w h = refl
attempted_lem panic f w h = absurd h
attempted_lem diverged f w h = absurd h

module _ (env : Env) where
  after_cycle-Cycled :
      (k : ℕ) (n : NodeData) (r : Result Bool) (w : World env.Store)
      → NoPanic r
      → IsValid w.state
      → Triggers w.state
      → get_elem? w.state.nodes k ≡ some n
      → Cycled n.layer w (after_cycle env k r w)
  unfolding after_cycle
  after_cycle-Cycled k n (ok true) w h v trig at =
      let idle = at_node-SameGraph none w in
      Cycled-after w (at_node none w) (report_tick k (at_node none w))
        (SameGraph-Later n.layer idle)
        (report_tick-Cycled k n (at_node none w) (SameGraph-IsValid idle v)
          (Triggers-same w.state _ trig (SameGraph-Later n.layer idle) refl) at)
  after_cycle-Cycled k n (ok false) w h v trig at =
      let idle = at_node-SameGraph none w in
      (tt, SameGraph-IsValid idle v, SameGraph-Later n.layer idle, trig)
  after_cycle-Cycled k n (err e) w h v trig at =
      let idle = at_node-SameGraph none w in
      (tt, SameGraph-IsValid idle v, SameGraph-Later n.layer idle, trig)
  after_cycle-Cycled k n panic w h v trig at = absurd h
  after_cycle-Cycled k n diverged w h v trig at = absurd h

  cycle_active-Cycled :
      (k : ℕ) (n : NodeData) (w : World env.Store)
      → Behaved env
      → IsValid w.state
      → Triggers w.state
      → get_elem? w.state.nodes k ≡ some n
      → Cycled n.layer w (cycle_active env k n w)
  unfolding cycle_active
  cycle_active-Cycled k n w law v trig at =
      let w₁ = at_node (some k) w in
      let busy = at_node-SameGraph (some k) w in
      let v₁ = SameGraph-IsValid busy v in
      let later₁ = SameGraph-Later n.layer busy in
      let (fine, calls) = law.returns k n w₁ v₁ at refl in
      let (v₂, later₂, ticks) = Calls-Kept n.layer w₁.state v₁ calls in
      let w₂ = (env.cycle n.node w₁).1 in
      let trig₂ = Triggers-same w₁.state w₂.state trig later₂ ticks in
      let at₂ : get_elem? w₂.state.nodes k ≡ some n = rw later₂.same_nodes at in
      let done = after_cycle-Cycled k n (env.cycle n.node w₁).0 w₂ fine v₂ trig₂ at₂ in
      let step : cycle_active env k n w ≡ after_cycle env k (env.cycle n.node w₁).0 w₂ =
        attempted_lem (env.cycle n.node w₁).0 (after_cycle env k) w₂ fine in
      subst (Cycled n.layer w) (sym step) (
        Cycled-after w w₂ (after_cycle env k (env.cycle n.node w₁).0 w₂) (Later-trans later₁ later₂)
          done)

  -- If node cycles behave, `cycle_node` on a node of a valid graph does not panic, keeps the
  -- state valid and the rows up to the node's layer as they were, and afterwards every node that
  -- a ticked node triggers is dirty, if this held before.
  pub cycle_node-Cycled :
      (k : ℕ) (n : NodeData) (w : World env.Store)
      → Behaved env
      → IsValid w.state
      → Triggers w.state
      → get_elem? w.state.nodes k ≡ some n
      → Cycled n.layer w (cycle_node env k w)
  unfolding cycle_node
  cycle_node-Cycled k n w law v trig at = elim (Bool-cases n.active) [
    | inl on ↦
        let step : cycle_node env k w ≡ cycle_active env k n w = rw at (rw on) in
        subst (Cycled n.layer w) (sym step) (cycle_active-Cycled k n w law v trig at)
    | inr off ↦
        let step : cycle_node env k w ≡ (ok tt, w) = rw at (rw off) in
        subst (Cycled n.layer w) (sym step) (tt, v, Later-refl n.layer w.state, trig)
  ]
