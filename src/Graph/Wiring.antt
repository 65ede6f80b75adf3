-- ===== src/Graph/Wiring.antt =====
-- Construction of the graph: `initialise_node` and `initialise`.
pub mod Invariant
pub mod Loop
pub mod Progress
pub mod Links
pub mod Layers
pub mod Fuel
pub mod Termination
pub mod Layout
pub mod Whole
use wingfoil.Base.{
  ℕ, zero, suc, ◌+◌, max, ltb, Bool, true, false, not, List, [], ◌∷◌, ◌++◌, Option, none, some, map,
  ◌==◌, if◌then◌else◌, any, filter_by, get_elem?, modify_elem,
}
use wingfoil.Graph.Effects.{
  Error, Action, Result, pure, fail, expect, diverge, attempt, err, ◌>>=◌, ◌>>◌, for_each,
}
use wingfoil.Graph.State.{GraphState, Edge, NodeData, node_index, push_node}
use wingfoil.Graph.Env.{World, Env, get, get_store, modify, update}

-- The top of the work stack is the head of the list.
pub record WiringFrame : Type 0 where
  pub node : ℕ
  pub upstreams : List (ℕ × Bool)
  pub next : ℕ
  pub layer : ℕ
  pub edges : List Edge

-- `try_into` an i32 that is not negative.
abbrev pub fits_i32 : ℕ → Option (Unit {0})
fits_i32 layer = if ltb layer 2147483648 then some tt else none

-- The rounds of `0..max_layer + 1` over i32, for one more than the greatest layer: the largest i32 and one
-- wraps to a negative number, in a build without overflow checks.
abbrev pub row_count : ℕ → ℕ
row_count layers = if layers == 2147483648 then 0 else layers

-- Pushes to the downstreams of a node; an index out of range panics.
unfoldable pub push_downstream : ℕ → Edge → GraphState → Option GraphState
push_downstream ix edge s = elim (get_elem? s.nodes ix) [
  | none ↦ none
  | some _ ↦ some (record s {
    nodes =
        modify_elem (λ (n : NodeData). record n { downstreams = n.downstreams ++ edge ∷ [] })
          s.nodes ix;
  })
]

-- For each upstream edge of node `i`, an edge back from the upstream to `i`.
unfoldable pub link_downstreams : {S : Type 0} → ℕ → List Edge → Action (World S) (Unit {0})
link_downstreams i edges =
    for_each
      (λ (edge : Edge).
        update (push_downstream edge.node_index (record { node_index = i; active = edge.active })))
      edges

-- All upstreams of the frame are processed: the node is registered.
unfoldable pub finalise : WiringFrame → GraphState → GraphState
unfolding push_node
finalise frame s = record (push_node frame.node s) {
  nodes =
      s.nodes
      ++ record {
        node = frame.node;
        upstreams = frame.edges;
        downstreams = [];
        layer = frame.layer;
        active = true;
      }
        ∷ [];
}

-- The frame with the edge to a registered upstream.
unfoldable pub advance : WiringFrame → ℕ → ℕ → Bool → WiringFrame
advance frame idx up_layer is_active = record frame {
  next = frame.next + 1;
  layer = max frame.layer (up_layer + 1);
  edges = frame.edges ++ record { node_index = idx; active = is_active } ∷ [];
}

module _ (env : Env) where
  open env use {Store, upstreams, fuel}

  -- `(upstream, is_active)`, the active ones first.
  abbrev pub declared : Store → ℕ → List (ℕ × Bool)
  declared store node =
      map (λ u. (u, true)) (upstreams store node).active
      ++ map (λ u. (u, false)) (upstreams store node).passive

  unfoldable pub new_frame : Store → ℕ → WiringFrame
  new_frame store node = record {
    node = node;
    upstreams = declared store node;
    next = 0;
    layer = 0;
    edges = [];
  }

  -- The `while` loop of `initialise_node` over the work stack and the set of nodes in progress.
  unfoldable pub wire : ℕ → List WiringFrame → List ℕ → Action (World Store) (Unit {0})
  wire rounds [] in_progress w = pure tt w
  wire zero (frame ∷ stack) in_progress w = diverge w
  wire (suc rounds) (frame ∷ stack) in_progress w = elim (get_elem? frame.upstreams frame.next) [
    | none ↦
        wire rounds stack (filter_by (λ n. not (n == frame.node)) in_progress)
          (record w { state = finalise frame w.state })
    | some (up, is_active) ↦ elim (node_index up w.state) [
      | some idx ↦ elim (get_elem? w.state.nodes idx) [
        | none ↦ (Result.panic, w)
        | some up_data ↦
            wire rounds (advance frame idx up_data.layer is_active ∷ stack) in_progress w
      ]
      | none ↦
          if any (λ n. n == up) in_progress
          then fail (Error.cycle_detected up) w
          else wire rounds (new_frame w.store up ∷ frame ∷ stack) (up ∷ in_progress) w
    ]
  ]

  unfoldable pub initialise_node : ℕ → Action (World Store) ℕ
  unfolding wire node_index new_frame finalise advance
  initialise_node root = do
    s ← get
    elim (node_index root s) [
      | some idx ↦ pure idx
      | none ↦ do
        store ← get_store
        wire fuel (new_frame store root ∷ []) (root ∷ [])
        wired ← get
        expect (node_index root wired)
    ]

  -- The roots in turn; a wiring error is stashed, and tells that wiring stops.
  unfoldable pub wire_roots : List ℕ → Action (World Store) Bool
  unfolding initialise_node
  wire_roots [] = pure true
  wire_roots (node ∷ nodes) = attempt (initialise_node node) λ r. elim r [
    | err e ↦ do
      modify (λ s. record s {
        wiring_error = elim s.wiring_error [ none ↦ some e | some e' ↦ some e' ];
      })
      pure false
    | _ ↦ wire_roots nodes
  ]

  -- The loop over all nodes: edges back, clean flags, and the number of layers.
  unfoldable pub link_nodes : ℕ → List NodeData → Action (World Store) (Unit {0})
  unfolding link_downstreams push_downstream
  link_nodes i [] = pure tt
  link_nodes i (node ∷ nodes) = do
    expect (fits_i32 node.layer)
    modify (λ s. record s { node_dirty = s.node_dirty ++ false ∷ [] })
    link_downstreams i node.upstreams
    link_nodes (i + 1) nodes

  -- One more than the greatest layer.
  unfoldable pub layer_count : List NodeData → ℕ
  layer_count [] = 0
  layer_count (n ∷ ns) = max (n.layer + 1) (layer_count ns)

  unfoldable pub empty_rows : ℕ → List (List ℕ)
  empty_rows zero = []
  empty_rows (suc n) = [] ∷ empty_rows n

  unfoldable pub initialise : List ℕ → Action (World Store) (Unit {0})
  unfolding wire_roots link_nodes layer_count empty_rows
  initialise roots = do
    wired ← wire_roots roots
    if not wired then pure tt else do
      s ← get
      link_nodes 0 s.nodes
      modify (λ s. record s {
        dirty_nodes_by_layer =
            s.dirty_nodes_by_layer ++ empty_rows (row_count (layer_count s.nodes));
      })
