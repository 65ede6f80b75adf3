-- ===== src/Nodes/Demux/Routes.antt =====
-- Where DemuxVecParent of wingfoil/src/nodes/demux.rs puts the items of a burst, and whom it wakes.
use wingfoil.Base.{
  ℕ, ◌+◌, ◌≤◌, ◌≡◌, refl, sym, ap, subst, ◌∙◌, Bool, true, false, List, [], ◌∷◌, ◌++◌, Option, some,
  ◌⊎◌, arith, count, All, length, set, lt_get_elem?,
}
use wingfoil.Queue.{PartialEq}
use wingfoil.Graph.State.{GraphState}
use wingfoil.Graph.Cycle.Invariant.{IsValid}
use wingfoil.Graph.Callbacks.Marks.{IsDirty, Marked, mark_dirty-Marked, mark_dirty-Only}
use wingfoil.Nodes.Demux.Parent.{
  demuxed, DemuxVecParent, Routing, row_of, push_item, push_routed, with_state, then_route,
  route_item, route_items, cleared, unticked_vec, vec_parent_cycle, DemuxVecChild, vec_child_cycle,
  shown,
}
use wingfoil.Nodes.Demux.Slots.{demuxed-Entered}
use wingfoil.Nodes.Demux.Rows.{
  routes, routed_to, Ready, node_of, Woken, Routed, entry-Placed, length-cleared, get_elem?-cleared,
  Routed-refl, Routed-cons, push-Routed,
}

-- `pick` gives a member of a set.
module _ {K T : Type 0} ⦃p : PartialEq K⦄ (pick : List ℕ → Option ℕ)
    (member : (l : List ℕ) (ix : ℕ) → pick l ≡ some ix → 1 ≤ count ix l) where
  -- One item takes the row of its entry.
  record Stepped (o : ℕ) (x : T) (s : DemuxVecParent K T) (state : GraphState)
      (result : Routing K T) : Type 0 where
    next : DemuxVecParent K T
    next_state : GraphState
    returns : result ≡ some (next, next_state)
    routed :
        let d = demuxed pick (s.func x) s.map in
        Routed o s state ((row_of d.1.size d.0, x) ∷ []) next next_state
    next_map : next.map ≡ (demuxed pick (s.func x) s.map).1
    next_func : next.func ≡ s.func

  route_item-Stepped :
      (o : ℕ) (x : T) (s : DemuxVecParent K T) (state : GraphState)
      → IsValid state
      → Ready (length state.nodes) o s
      → Stepped o x s state (route_item pick x s state)
  unfolding route_item
  route_item-Stepped o x s state v ready_ =
      let d = demuxed pick (s.func x) s.map in
      let entered = demuxed-Entered pick member (s.func x) s.map ready_.in_range in
      let s1 : DemuxVecParent K T = record s { map = d.1 } in
      let ready1 : Ready (length state.nodes) o s1 = record {
        in_range = entered.in_range;
        indexed = ready_.indexed ∙ sym entered.same_size;
        children = ready_.children;
        rows = ready_.rows ∙ ap (λ n. n + 1) (sym entered.same_size);
        overflow_index = ready_.overflow_index;
        overflow_node = ready_.overflow_node;
      } in
      let place =
        entry-Placed (length state.nodes) o d.1.size d.0 s.outputs.index_map s.overflow_graph_index
          entered.entry_ok ready1.indexed ready_.children ready_.overflow_index
          ready_.overflow_node in
      let r : ℕ = row_of d.1.size d.0 in
      let (row, at) =
        lt_get_elem? s.value r (omega (arith, place.in_rows, ready1.rows, ready1.indexed)) in
      let (state1, marks, m, dirty) = mark_dirty-Marked place.node state v place.in_graph in
      let pushed =
        push-Routed o r place.node x row s1 state state1 v ready1 at place.same_node m dirty
          (mark_dirty-Only place.node state state1 v place.in_graph marks) in
      record {
        next = record s1 { value = set s.value r (row ++ x ∷ []) };
        next_state = state1;
        returns =
            ap (push_routed x r s1 state) place.found_node
            ∙ ap (push_item x r place.node s1 state) at
            ∙ ap (with_state (record s1 { value = set s.value r (row ++ x ∷ []) })) marks;
        routed = record {
          rows = pushed.rows;
          marked = pushed.marked;
          dirty = pushed.dirty;
          frame = pushed.frame;
          only = pushed.only;
          same_outputs = pushed.same_outputs;
          ready = pushed.ready;
        };
        next_map = refl;
        next_func = refl;
      }

  -- The items of a burst take the rows that the map gives them.
  record Burst (o : ℕ) (items : List T) (s : DemuxVecParent K T) (state : GraphState)
      (result : Routing K T) : Type 0 where
    next : DemuxVecParent K T
    next_state : GraphState
    returns : result ≡ some (next, next_state)
    routed : Routed o s state (routes pick s.func s.map items) next next_state

  route_items-Burst :
      (o : ℕ) (items : List T) (s : DemuxVecParent K T) (state : GraphState)
      → IsValid state
      → Ready (length state.nodes) o s
      → Burst o items s state (route_items pick items s state)
  unfolding route_items
  route_items-Burst o [] s state v ready_ = record {
    next = s;
    next_state = state;
    returns = refl;
    routed = Routed-refl o s state v ready_;
  }
  route_items-Burst o (x ∷ items) s state v ready_ =
      let d = demuxed pick (s.func x) s.map in
      let step = route_item-Stepped o x s state v ready_ in
      let a = step.routed in
      let rest =
        route_items-Burst o items step.next step.next_state a.marked.valid
          (subst (λ nodes. Ready (length nodes) o step.next) (sym a.marked.nodes) a.ready) in
      let same : routes pick step.next.func step.next.map items ≡ routes pick s.func d.1 items =
        ap (λ f. routes pick f step.next.map items) step.next_func
        ∙ ap (λ m. routes pick s.func m items) step.next_map in
      record {
        next = rest.next;
        next_state = rest.next_state;
        returns = ap (then_route (route_items pick items)) step.returns ∙ rest.returns;
        routed = Routed-cons a (
            subst (λ taken. Routed o step.next step.next_state taken rest.next rest.next_state) same
              rest.routed);
      }

  -- What a cycle of the parent leaves.
  pub record Demuxed (o : ℕ) (s : DemuxVecParent K T) (state : GraphState) (items : List T)
      (result : Option (Bool × DemuxVecParent K T × GraphState)) : Type 0 where
    pub next : DemuxVecParent K T
    pub next_state : GraphState
    pub returns : result ≡ some (false, next, next_state)
    pub shows :
        (c : DemuxVecChild T)
        → c.index ≤ s.map.size
        → vec_child_cycle c next.value
          ≡ some (true, record c { value = routed_to c.index (routes pick s.func s.map items) })
    pub marked : Marked state next_state
    pub dirty :
        All (λ (r : ℕ × T). IsDirty next_state (node_of o s r.0)) (routes pick s.func s.map items)
    pub frame : next_state ≡ record state {
      dirty_nodes_by_layer = next_state.dirty_nodes_by_layer;
      node_dirty = next_state.node_dirty;
    }
    pub only :
        (jx : ℕ)
        → IsDirty next_state jx
        → IsDirty state jx ⊎ Woken o s.outputs.index_map (routes pick s.func s.map items) jx
    pub ready : Ready (length next_state.nodes) o next

  -- If the graph is valid, the parent was set up in it and `pick` gives a member of a set, then a
  -- cycle of DemuxVecParent on any burst returns without a panic: the child of each row, and the
  -- overflow, shows in its next cycle exactly the items that the map gave this row, in order; the
  -- node of every row that got an item is dirty, no other node got dirty and none got clean, and
  -- nothing of the graph changed but the flags and rows of dirty nodes; and the parent stays set
  -- up.
  pub vec_parent_cycle-Demuxed :
      (o : ℕ) (s : DemuxVecParent K T) (state : GraphState) (source : List T)
      → IsValid state
      → Ready (length state.nodes) o s
      → Demuxed o s state source (vec_parent_cycle pick s source state)
  unfolding vec_parent_cycle vec_child_cycle
  vec_parent_cycle-Demuxed o s state source v ready_ =
      let s0 : DemuxVecParent K T = record s { value = cleared s.value } in
      let ready0 : Ready (length state.nodes) o s0 = record {
        in_range = ready_.in_range;
        indexed = ready_.indexed;
        children = ready_.children;
        rows = length-cleared s.value ∙ ready_.rows;
        overflow_index = ready_.overflow_index;
        overflow_node = ready_.overflow_node;
      } in
      let all_ = route_items-Burst o source s0 state v ready0 in
      let r = all_.routed in
      record {
        next = all_.next;
        next_state = all_.next_state;
        returns = ap unticked_vec all_.returns;
        shows = λ c h.
            ap (shown c) (
              r.rows c.index []
                (get_elem?-cleared s.value c.index (omega (arith, h, ready_.rows))));
        marked = r.marked;
        dirty = r.dirty;
        frame = r.frame;
        only = r.only;
        ready = subst (λ nodes. Ready (length nodes) o all_.next) (sym r.marked.nodes) r.ready;
      }
