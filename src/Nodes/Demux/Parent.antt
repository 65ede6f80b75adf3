-- ===== src/Nodes/Demux/Parent.antt =====
-- wingfoil/src/nodes/demux.rs: DemuxParent and DemuxVecParent, which route the values of a source to the
-- nodes of their children, the children, and the setup that finds these in the graph.
use wingfoil.Base.{
  ℕ, zero, suc, ◌+◌, Bool, true, false, List, [], ◌∷◌, ◌++◌, Option, none, some, get_elem?, set,
}
use wingfoil.Queue.{PartialEq}
use wingfoil.Graph.State.{GraphState, node_index, mark_dirty}
use wingfoil.Nodes.Demux.{DemuxMap, DemuxEntry, slot, overflow, get_or_insert, release}

pub data DemuxEvent : Type 0 where
  no_event close : DemuxEvent

-- What a setup reads and fills: the nodes of the children and of the overflow, by address, and the
-- graph's indices of the children.
pub record Outputs : Type 0 where
  pub children : List ℕ
  pub overflow_child : Option ℕ
  pub index_map : List ℕ

pub data SetupError : Type 0 where
  unresolved_child overflow_taken unresolved_overflow no_children : SetupError

pub data SetupResult : Type 0 where
  failed : SetupError → SetupResult
  resolved : Option ℕ → SetupResult

abbrev pub cons_index : Option ℕ → Option (List ℕ) → Option (List ℕ)
cons_index none rest = none
cons_index (some ix) none = none
cons_index (some ix) (some ixs) = some (ix ∷ ixs)

-- The indices of all children, unless one is not in the graph.
abbrev pub node_indexes : GraphState → List ℕ → Option (List ℕ)
node_indexes state [] = some []
node_indexes state (child ∷ children) =
    cons_index (node_index child state) (node_indexes state children)

-- The checks at the end.
abbrev pub checked_indices : Option ℕ → List ℕ → SetupResult
checked_indices none index_map = failed unresolved_overflow
checked_indices (some ix) [] = failed no_children
checked_indices (some ix) (i ∷ index_map) = resolved (some ix)

abbrev pub take_overflow : GraphState → Outputs → SetupResult × Outputs
take_overflow state o = elim o.overflow_child [
  | none ↦ (failed overflow_taken, o)
  | some child ↦
      (checked_indices (node_index child state) o.index_map, record o { overflow_child = none })
]

abbrev pub fill_index_map : GraphState → Outputs → Option (List ℕ) → SetupResult × Outputs
fill_index_map state o none = (failed unresolved_child, record o { children = [] })
fill_index_map state o (some ixs) =
    take_overflow state (record o { children = []; index_map = o.index_map ++ ixs })

unfoldable pub setup_demux_children : GraphState → Outputs → SetupResult × Outputs
setup_demux_children state o = fill_index_map state o (node_indexes state o.children)

-- The child of an entry in the graph. `none` is a panic, here and below.
abbrev pub graph_index_of : DemuxEntry → List ℕ → Option ℕ → Option ℕ
graph_index_of overflow index_map overflow_graph_index = overflow_graph_index
graph_index_of (slot ix) index_map overflow_graph_index = get_elem? index_map ix

pub record DemuxParent (K T : Type 0) : Type 0 where
  pub func : T → K × DemuxEvent
  pub map : DemuxMap K
  pub outputs : Outputs
  pub value : T
  pub overflow_graph_index : Option ℕ

pub record DemuxChild (T : Type 0) : Type 0 where
  pub value : T

pub record DemuxVecParent (K T : Type 0) : Type 0 where
  pub func : T → K × DemuxEvent
  pub map : DemuxMap K
  pub outputs : Outputs
  pub value : List (List T)
  pub overflow_graph_index : Option ℕ

abbrev pub Routing : Type 0 → Type 0 → Type 0
Routing K T = Option (DemuxVecParent K T × GraphState)

-- The row of an entry.
abbrev pub row_of : ℕ → DemuxEntry → ℕ
row_of size overflow = size
row_of size (slot ix) = ix

pub record DemuxVecChild (T : Type 0) : Type 0 where
  pub index : ℕ
  pub value : List T

module _ {T : Type 0} where
  -- A new parent has a row for each child and one for the overflow.
  abbrev pub empty_bursts : ℕ → List (List T)
  empty_bursts zero = []
  empty_bursts (suc n) = [] ∷ empty_bursts n

  abbrev pub cleared : List (List T) → List (List T)
  cleared [] = []
  cleared (row ∷ rows) = [] ∷ cleared rows

  -- `source` is what the parent shows.
  unfoldable pub child_cycle : DemuxChild T → T → Bool × DemuxChild T
  child_cycle c source = (true, record c { value = source })

  abbrev pub shown : DemuxVecChild T → Option (List T) → Option (Bool × DemuxVecChild T)
  shown c none = none
  shown c (some row) = some (true, record c { value = row })

  -- `source` is what the parent shows.
  unfoldable pub vec_child_cycle : DemuxVecChild T → List (List T) → Option (Bool × DemuxVecChild T)
  vec_child_cycle c source = shown c (get_elem? source c.index)

module _ {K : Type 0} ⦃p : PartialEq K⦄ (pick : List ℕ → Option ℕ) where
  unfoldable pub demuxed : K × DemuxEvent → DemuxMap K → DemuxEntry × DemuxMap K
  demuxed (key, close) m = release pick key m
  demuxed (key, no_event) m = get_or_insert pick key m

module _ {K T : Type 0} where
  abbrev unticked :
      DemuxParent K T → Option GraphState → Option (Bool × DemuxParent K T × GraphState)
  unticked s none = none
  unticked s (some state) = some (false, s, state)

  abbrev mark :
      DemuxParent K T → GraphState → Option ℕ → Option (Bool × DemuxParent K T × GraphState)
  mark s state none = none
  mark s state (some ix) = unticked s (mark_dirty ix state)

  abbrev setup_result :
      DemuxParent K T → SetupResult × Outputs → Option SetupError × DemuxParent K T
  setup_result s (failed e, o) = (some e, record s { outputs = o })
  setup_result s (resolved ix, o) = (none, record s { outputs = o; overflow_graph_index = ix })

  unfoldable pub parent_setup : DemuxParent K T → GraphState → Option SetupError × DemuxParent K T
  unfolding setup_demux_children
  parent_setup s state = setup_result s (setup_demux_children state s.outputs)

  abbrev pub new_vec_parent :
      (T → K × DemuxEvent) → DemuxMap K → List ℕ → Option ℕ → DemuxVecParent K T
  new_vec_parent func_ map_ children_ overflow_child_ = record {
    func = func_;
    map = map_;
    outputs = record { children = children_; overflow_child = overflow_child_; index_map = [] };
    value = empty_bursts (map_.size + 1);
    overflow_graph_index = none;
  }

  abbrev pub vec_setup_result :
      DemuxVecParent K T → SetupResult × Outputs → Option SetupError × DemuxVecParent K T
  vec_setup_result s (failed e, o) = (some e, record s { outputs = o })
  vec_setup_result s (resolved ix, o) = (none, record s { outputs = o; overflow_graph_index = ix })

  unfoldable pub vec_setup :
      DemuxVecParent K T → GraphState → Option SetupError × DemuxVecParent K T
  unfolding setup_demux_children
  vec_setup s state = vec_setup_result s (setup_demux_children state s.outputs)

  abbrev pub with_state : DemuxVecParent K T → Option GraphState → Routing K T
  with_state s none = none
  with_state s (some state) = some (s, state)

  -- `value[index].push(item)`, before the node is marked.
  abbrev pub push_item : T → ℕ → ℕ → DemuxVecParent K T → GraphState → Option (List T) → Routing K T
  push_item item index graph_index s state none = none
  push_item item index graph_index s state (some row) =
      with_state (record s { value = set s.value index (row ++ item ∷ []) })
        (mark_dirty graph_index state)

  abbrev pub push_routed : T → ℕ → DemuxVecParent K T → GraphState → Option ℕ → Routing K T
  push_routed item index s state none = none
  push_routed item index s state (some graph_index) =
      push_item item index graph_index s state (get_elem? s.value index)

  abbrev pub then_route :
      (DemuxVecParent K T → GraphState → Routing K T) → Routing K T → Routing K T
  then_route rest none = none
  then_route rest (some (s, state)) = rest s state

  abbrev pub unticked_vec : Routing K T → Option (Bool × DemuxVecParent K T × GraphState)
  unticked_vec none = none
  unticked_vec (some (s, state)) = some (false, s, state)

module _ {K T : Type 0} ⦃p : PartialEq K⦄ (pick : List ℕ → Option ℕ) where
  unfoldable pub parent_cycle :
      DemuxParent K T → T → GraphState → Option (Bool × DemuxParent K T × GraphState)
  unfolding demuxed
  parent_cycle s source state =
      let (entry, m) = demuxed pick (s.func source) s.map in
      mark (record s { value = source; map = m }) state
        (graph_index_of entry s.outputs.index_map s.overflow_graph_index)

  unfoldable pub route_item : T → DemuxVecParent K T → GraphState → Routing K T
  unfolding demuxed
  route_item item s state =
      let (entry, m) = demuxed pick (s.func item) s.map in
      push_routed item (row_of m.size entry) (record s { map = m }) state
        (graph_index_of entry s.outputs.index_map s.overflow_graph_index)

  unfoldable pub route_items : List T → DemuxVecParent K T → GraphState → Routing K T
  unfolding route_item
  route_items [] s state = some (s, state)
  route_items (item ∷ items) s state = then_route (route_items items) (route_item item s state)

  unfoldable pub vec_parent_cycle :
      DemuxVecParent K T → List T → GraphState → Option (Bool × DemuxVecParent K T × GraphState)
  unfolding route_items
  vec_parent_cycle s source state =
      unticked_vec (route_items source (record s { value = cleared s.value }) state)
