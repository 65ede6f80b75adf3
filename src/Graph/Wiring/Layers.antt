-- ===== src/Graph/Wiring/Layers.antt =====
-- The layers of wired nodes are bounded by their number.
use wingfoil.Base.{
  ℕ, zero, suc, ◌≤◌, ◌<◌, ◌≡◌, Bool, List, [], ◌∷◌, some, arith, get_elem?, Option-cases, inl, inr,
}
use wingfoil.Graph.State.{GraphState, NodeData, Edge}
use wingfoil.Graph.Wiring.Invariant.{Below, level, layer_at, Registered}

level_le :
    (nodes : List NodeData) (k : ℕ) (es : List Edge)
    → Below k es
    → ((j : ℕ) → j < k → layer_at nodes j ≤ j)
    → level nodes es ≤ k
level_le nodes k [] below all_ = omega arith
level_le nodes k (e ∷ es) below all_ =
    omega (arith, below.0, all_ e.node_index below.0, level_le nodes k es below.1 all_)

module _ {spec : ℕ → List (ℕ × Bool)} (s : GraphState) (reg : Registered spec s) where
  layer_at_le : (k j : ℕ) → j < k → layer_at s.nodes j ≤ j
  layer_at_le zero j h = absurd (omega (arith, h))
  layer_at_le (suc k) j h = elim (Option-cases (get_elem? s.nodes j)) [
    | inl e ↦ rw (e, layer_at) (omega arith)
    | inr (n, at) ↦
        let wired = reg.wired j n at in
        let le =
          level_le s.nodes j n.upstreams wired.earlier
            (λ i lt. layer_at_le k i (omega (arith, lt, h))) in
        rw (at, layer_at) (omega (arith, le, wired.least))
  ]

  -- A node stands on a layer that its index is not below.
  pub layer_le : (i : ℕ) (n : NodeData) → get_elem? s.nodes i ≡ some n → n.layer ≤ i
  layer_le i n at =
      let here : layer_at s.nodes i ≡ n.layer = rw (at, layer_at) in
      omega (arith, here, layer_at_le (suc i) i (omega arith))
