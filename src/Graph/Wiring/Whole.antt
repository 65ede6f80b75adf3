-- ===== src/Graph/Wiring/Whole.antt =====
-- `initialise` as a whole: all roots are wired, and the graph is ready for its first cycle.
use wingfoil.Base.{ℕ, ◌≤◌, ◌≡◌, Bool, true, false, List, [], All}
use wingfoil.Graph.Effects.{Result, ok, err, panic, diverged}
use wingfoil.Graph.State.{is_some}
use wingfoil.Graph.Env.{Env, World}
use wingfoil.Graph.Wiring.{declared}
use wingfoil.Graph.Wiring.Invariant.{Registered}
use wingfoil.Graph.Wiring.Links.{Links}
use wingfoil.Graph.Wiring.Fuel.{Closed, In, weight}

module _ (env : Env) where
  -- Nodes are registered, and neither flags nor rows are laid out.
  abbrev pub Fresh : World env.Store → Type 0
  Fresh w =
      (w.state.node_dirty ≡ [])
      × (w.state.dirty_nodes_by_layer ≡ [])
      × Registered (declared env w.store) w.state

  abbrev Roots : Result Bool × World env.Store → Type 0
  Roots (ok true, w) = Fresh w
  Roots (ok false, w) = is_some w.state.wiring_error ≡ true
  Roots (err e, w) = ⊥
  Roots (panic, w) = ⊥
  Roots (diverged, w) = ⊥

  -- Nodes of a finite set that has their upstreams, with enough fuel to wire them all.
  abbrev pub Finite : List ℕ → List ℕ → World env.Store → Type 0
  Finite universe roots w =
      Closed (declared env w.store) universe
      × All (In universe) roots
      × (weight (declared env w.store) universe ≤ env.fuel)
