-- ===== src/Nodes/Demux/Setup.antt =====
-- The setup of DemuxVecParent of wingfoil/src/nodes/demux.rs in a graph that holds its children.
use wingfoil.Base.{
  ℕ, zero, suc, ◌+◌, ◌<◌, ◌≡◌, refl, sym, ap, subst, ◌∙◌, List, [], ◌∷◌, Option, none, some, arith,
  All, All-imp, length, get_elem?,
}
use mathlib.Core.Option.{some-injective}
use wingfoil.Graph.State.{GraphState, node_index}
use wingfoil.Nodes.Demux
use wingfoil.Nodes.Demux.{below_size}
use wingfoil.Nodes.Demux.Parent.{
  DemuxEvent, Outputs, SetupError, DemuxVecParent, cons_index, node_indexes, checked_indices,
  fill_index_map, setup_demux_children, vec_setup, vec_setup_result, new_vec_parent, empty_bursts,
  resolved,
}
use wingfoil.Nodes.Demux.Rows.{Ready}

-- The graph holds the node.
abbrev pub Registered : GraphState → ℕ → Type 0
Registered state child = (ix : ℕ) × (node_index child state ≡ some ix) × (ix < length state.nodes)

at_head :
    (state : GraphState) (ix : ℕ) (indices : List ℕ) (child : ℕ) (children : List ℕ)
    → node_index child state ≡ some ix
    → ((i c : ℕ)
        → get_elem? children i ≡ some c
        → (jx : ℕ) × (get_elem? indices i ≡ some jx) × (node_index c state ≡ some jx))
    → (i c : ℕ) → get_elem? (child ∷ children) i ≡ some c
    → (jx : ℕ) × (get_elem? (ix ∷ indices) i ≡ some jx) × (node_index c state ≡ some jx)
at_head state ix indices child children at rest zero c e =
    (ix, refl, ap (λ x. node_index x state) (sym (some-injective child c e)) ∙ at)
at_head state ix indices child children at rest (suc i) c e = rest i c e

record Found (state : GraphState) (children : List ℕ) : Type 0 where
  indices : List ℕ
  found : node_indexes state children ≡ some indices
  in_graph : All (λ ix. ix < length state.nodes) indices
  as_many : length indices ≡ length children
  in_order :
      (i child : ℕ)
      → get_elem? children i ≡ some child
      → (ix : ℕ) × (get_elem? indices i ≡ some ix) × (node_index child state ≡ some ix)

node_indexes-Found :
    (state : GraphState) (children : List ℕ)
    → All (Registered state) children
    → Found state children
node_indexes-Found state [] h = record {
  indices = [];
  found = refl;
  in_graph = tt;
  as_many = refl;
  in_order = λ i c e. cc;
}
node_indexes-Found state (child ∷ children) ((ix, at, below), h) =
    let rest = node_indexes-Found state children h in
    record {
      indices = ix ∷ rest.indices;
      found =
          ap (λ i. cons_index i (node_indexes state children)) at
          ∙ ap (cons_index (some ix)) rest.found;
      in_graph = (below, rest.in_graph);
      as_many = ap suc rest.as_many;
      in_order = at_head state ix rest.indices child children at rest.in_order;
    }

below_size_lt : (n : ℕ) → All (λ ix. ix < n) (below_size n)
unfolding below_size
below_size_lt zero = tt
below_size_lt (suc n) =
    (omega arith, All-imp (λ ix h. omega (arith, h)) (below_size n) (below_size_lt n))

length-empty_bursts : (T : Type 0) (n : ℕ) → length (empty_bursts {T = T} n) ≡ n
length-empty_bursts T zero = refl
length-empty_bursts T (suc n) = ap suc (length-empty_bursts T n)

-- The checks at the end pass.
checked-resolved :
    (o : ℕ) (ixs : List ℕ) → 0 < length ixs → checked_indices (some o) ixs ≡ resolved (some o)
checked-resolved o [] h = elim h [ ]
checked-resolved o (ix ∷ ixs) h = refl

module _ {K T : Type 0} where
  -- What a setup without errors leaves.
  pub record SetUp (state : GraphState) (o : ℕ) (children : List ℕ)
      (r : Option SetupError × DemuxVecParent K T) : Type 0 where
    pub no_error : r.0 ≡ none
    pub ready : Ready (length state.nodes) o r.1
    pub resolved_children :
        (i child : ℕ)
        → get_elem? children i ≡ some child
        → (ix : ℕ) × (get_elem? r.1.outputs.index_map i ≡ some ix)
          × (node_index child state ≡ some ix)
    pub taken : r.1.outputs.children ≡ []

  -- The setup of a new DemuxVecParent with a new map of as many slots as it has children, of
  -- which there is one, in a graph that holds the children and the overflow, gives no error: it
  -- takes the children, maps the row of each child by its position to that child's node, and
  -- leaves the parent in the state in which its cycles start.
  pub vec_setup-SetUp :
      (func : T → K × DemuxEvent) (state : GraphState) (children : List ℕ) (overflow_child o : ℕ)
      → All (Registered state) children
      → 0 < length children
      → node_index overflow_child state ≡ some o
      → o < length state.nodes
      → SetUp state o children (
          vec_setup
            (new_vec_parent func (Demux.new (length children)) children (some overflow_child))
            state)
  unfolding vec_setup setup_demux_children Demux.new
  vec_setup-SetUp func state children overflow_child o there more at below =
      let f = node_indexes-Found state children there in
      let start : DemuxVecParent K T =
        new_vec_parent func (Demux.new (length children)) children (some overflow_child) in
      let filled : Outputs = record {
        children = [];
        overflow_child = none;
        index_map = f.indices;
      } in
      let same : vec_setup start state
          ≡ (none, record start { outputs = filled; overflow_graph_index = some o }) =
        ap (λ r. vec_setup_result start (fill_index_map state start.outputs r)) f.found
        ∙ ap (λ i. vec_setup_result start (checked_indices i f.indices, filled)) at
        ∙ ap (λ r. vec_setup_result start (r, filled))
            (checked-resolved o f.indices (omega (arith, f.as_many, more))) in
      subst (SetUp state o children) (sym same) (record {
        no_error = refl;
        ready = record {
          in_range = record { free = below_size_lt (length children); held = tt };
          indexed = f.as_many;
          children = f.in_graph;
          rows = length-empty_bursts T (length children + 1);
          overflow_index = refl;
          overflow_node = below;
        };
        resolved_children = f.in_order;
        taken = refl;
      })
