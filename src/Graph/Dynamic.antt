-- ===== src/Graph/Dynamic.antt =====
-- Changes to a running graph at the end of a cycle: removals, additions and the layers after them.
use wingfoil.Base.{
  ℕ, zero, suc, ◌+◌, ◌-◌, ◌%◌, max, Bool, true, false, not, ◌&&◌, List, [], ◌∷◌, ◌++◌, Option, none,
  some, map, ltb, ◌==◌, if◌then◌else◌, any, filter_by, get_elem?, length, modify_elem, u64_mod,
}
use wingfoil.Graph.Effects.{
  Phase, Action, Result, pure, expect, diverge, attempt, propagate, with_context, ◌>>=◌, ◌>>◌,
  for_each,
}
use wingfoil.Graph.State.{
  GraphState, Edge, NodeData, PendingAddition, node_index, add_callback_for_node,
}
use wingfoil.Graph.Env.{World, Env, get, modify, update}
use wingfoil.Graph.Wiring.{push_downstream, link_downstreams, initialise_node}

abbrev pub set_current : {S : Type 0} → Option ℕ → Action (World S) (Unit {0})
set_current ix = modify (λ s. record s { current_node_index = ix })

-- A change of one node; an index out of range panics.
unfoldable pub change_node : ℕ → (NodeData → NodeData) → GraphState → Option GraphState
change_node ix f s = elim (get_elem? s.nodes ix) [
  | none ↦ none
  | some _ ↦ some (record s { nodes = modify_elem f s.nodes ix })
]

-- `retain(|e| e.node_index != index)`
abbrev without : ℕ → List Edge → List Edge
without index edges = filter_by (λ (e : Edge). not (e.node_index == index)) edges

abbrev pub drop_downstream : ℕ → NodeData → NodeData
drop_downstream index n = record n { downstreams = without index n.downstreams }

abbrev pub drop_upstream : ℕ → NodeData → NodeData
drop_upstream index n = record n { upstreams = without index n.upstreams }

abbrev pub push_upstream : Edge → NodeData → NodeData
push_upstream edge n = record n { upstreams = n.upstreams ++ edge ∷ [] }

module _ {S : Type 0} where
  -- Both directions of every edge of node `index` go.
  unfoldable pub unlink : ℕ → NodeData → Action (World S) (Unit {0})
  unfolding change_node
  unlink index data_ = do
    for_each (λ (e : Edge). update (change_node e.node_index (drop_downstream index)))
        data_.upstreams
    s ← get
    again ← expect (get_elem? s.nodes index)
    for_each (λ (e : Edge). update (change_node e.node_index (drop_upstream index)))
        again.downstreams

-- One more than the greatest layer of an upstream, and 0 with no upstream; `none` is a panic.
unfoldable pub required_layer : List NodeData → List Edge → Option ℕ
required_layer nodes [] = some 0
required_layer nodes (e ∷ es) = elim (get_elem? nodes e.node_index) [
  | none ↦ none
  | some up ↦ elim (required_layer nodes es) [ none ↦ none | some m ↦ some (max (up.layer + 1) m) ]
]

unfoldable pub grow_rows : ℕ → List (List ℕ) → List (List ℕ)
grow_rows zero rows = rows
grow_rows (suc n) rows = grow_rows n (rows ++ [] ∷ [])

-- One round of `fix_layers`: the new state, and the indices to append to the queue.
unfoldable pub fix_layer : ℕ → GraphState → Option (GraphState × List ℕ)
unfolding required_layer grow_rows
fix_layer ix s = elim (get_elem? s.nodes ix) [
  | none ↦ none
  | some n ↦ elim (required_layer s.nodes n.upstreams) [
    | none ↦ none
    | some required ↦
        let raised = ltb n.layer required in
        let layer = if raised then required else n.layer in
        some (
          record s {
            nodes =
                if raised
                then modify_elem (λ (m : NodeData). record m { layer = required }) s.nodes ix
                else s.nodes;
            dirty_nodes_by_layer =
                grow_rows (layer + 1 - length s.dirty_nodes_by_layer) s.dirty_nodes_by_layer;
          },
          if raised then map (λ (e : Edge). e.node_index) n.downstreams else [],
        )
  ]
]

-- The `while` loop of `fix_layers` over its queue.
unfoldable pub fix_layers : {S : Type 0} → ℕ → List ℕ → Action (World S) (Unit {0})
unfolding fix_layer
fix_layers rounds [] w = pure tt w
fix_layers zero (ix ∷ queue) w = diverge w
fix_layers (suc rounds) (ix ∷ queue) w = elim (fix_layer ix w.state) [
  | none ↦ (Result.panic, w)
  | some (s, more) ↦ fix_layers rounds (queue ++ more) (record w { state = s })
]

abbrev range : ℕ → ℕ → List ℕ
range start zero = []
range start (suc n) = start ∷ range (start + 1) n

abbrev member : ℕ → List ℕ → Bool
member i l = any (λ j. j == i) l

push_new : List ℕ → List Edge → List ℕ → List ℕ
push_new news [] stack = stack
push_new news (e ∷ es) stack =
    push_new news es (if member e.node_index news then e.node_index ∷ stack else stack)

-- A source, or a node with an upstream that was there before.
attaches : List ℕ → List Edge → Bool
attaches news [] = true
attaches news (e ∷ es) = any (λ (e : Edge). not (member e.node_index news)) (e ∷ es)

-- The walk upward from an added leaf: it schedules the new nodes that are sources or attach to an old
-- node.
unfoldable pub recycle_walk :
    {S : Type 0} → ℕ → ℕ → List ℕ → List ℕ → List ℕ → Action (World S) (Unit {0})
unfolding add_callback_for_node push_new attaches
recycle_walk rounds time news [] visited w = pure tt w
recycle_walk zero time news (ix ∷ stack) visited w = diverge w
recycle_walk (suc rounds) time news (ix ∷ stack) visited w =
    let skip = recycle_walk rounds time news stack visited w in
    if member ix visited then skip else elim (get_elem? w.state.nodes ix) [
      | none ↦ (Result.panic, w)
      | some n ↦ recycle_walk rounds time news (push_new news n.upstreams stack) (ix ∷ visited) (
          if attaches news n.upstreams
          then record w { state = add_callback_for_node ix time w.state }
          else w)
    ]

module _ (env : Env) where
  open env use {Store, setup, start, stop, teardown, fuel}

  -- A lifecycle call on a node, as the current node, with its error in context.
  call_node :
      Phase → (ℕ → Action (World Store) (Unit {0})) → ℕ → ℕ → Action (World Store) (Unit {0})
  call_node phase f ix node = do
    set_current (some ix)
    attempt (f node) λ r. propagate (with_context phase ix r)

  remove_one : ℕ → Action (World Store) (Unit {0})
  unfolding unlink node_index call_node change_node
  remove_one node = do
    s ← get
    elim (node_index node s) [
      | none ↦ pure tt
      | some index ↦ do
        data_ ← expect (get_elem? s.nodes index)
        if not data_.active then pure tt else do
          unlink index data_
          call_node Phase.stop_removed stop index node
          call_node Phase.teardown_removed teardown index node
          set_current none
          update (change_node index (λ n. record n { active = false }))
    ]

  unfoldable pub process_pending_removals : Action (World Store) (Unit {0})
  unfolding remove_one
  process_pending_removals = do
    s ← get
    modify (λ s. record s { pending_removals = [] })
    for_each remove_one s.pending_removals

  -- The edge from the caller to the added node, unless this pair was wired before in this round.
  attach : List ℕ → PendingAddition → List (ℕ × ℕ) → Action (World Store) (List (ℕ × ℕ))
  unfolding node_index change_node push_downstream fix_layers recycle_walk
  attach news addition wired = do
    s ← get
    ix ← expect (node_index addition.node s)
    let known = any (λ (p : ℕ × ℕ). p.0 == addition.caller_index && p.1 == ix) wired
    (if known then pure tt else do
      update (
          change_node addition.caller_index
            (push_upstream (record { node_index = ix; active = addition.is_active })))
      update (
          push_downstream ix
            (record { node_index = addition.caller_index; active = addition.is_active })))
    fix_layers fuel (addition.caller_index ∷ [])
    now ← get
    (if addition.recycle
        then recycle_walk fuel ((now.time + 1) % u64_mod) news (ix ∷ []) []
        else pure tt)
    pure (if known then wired else (addition.caller_index, ix) ∷ wired)

  attach_all : List ℕ → List PendingAddition → List (ℕ × ℕ) → Action (World Store) (Unit {0})
  unfolding attach
  attach_all news [] wired = pure tt
  attach_all news (a ∷ as_) wired = do wired' ← attach news a wired; attach_all news as_ wired'

  -- A lifecycle call on the node at an index of the graph.
  call_at : Phase → (ℕ → Action (World Store) (Unit {0})) → ℕ → Action (World Store) (Unit {0})
  unfolding call_node
  call_at phase f ix = do
    s ← get
    data_ ← expect (get_elem? s.nodes ix)
    call_node phase f ix data_.node
    set_current none

  link_new : ℕ → Action (World Store) (Unit {0})
  unfolding link_downstreams
  link_new ix = do
    s ← get
    data_ ← expect (get_elem? s.nodes ix)
    link_downstreams ix data_.upstreams

  unfoldable pub process_pending_additions : Action (World Store) (Unit {0})
  unfolding attach_all call_at initialise_node link_new
  process_pending_additions = do
    before ← get
    modify (λ s. record s { pending_additions = [] })
    (elim before.pending_additions [
      | [] ↦ pure tt
      | a ∷ as_ ↦ do
        for_each (λ (x : PendingAddition). initialise_node env x.node >>= λ _. pure tt) (a ∷ as_)
        after ← get
        let news = range (length before.nodes) (length after.nodes - length before.nodes)
        modify (λ s. record s { node_dirty = s.node_dirty ++ map (λ _. false) news })
        for_each link_new news
        attach_all news (a ∷ as_) []
        for_each (call_at Phase.setup_added setup) news
        for_each (call_at Phase.start_added start) news
    ])
