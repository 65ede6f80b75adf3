-- ===== src/Nodes/Demux/Rows.antt =====
-- The rows of DemuxVecParent of wingfoil/src/nodes/demux.rs, and what putting items in them leaves.
use wingfoil.Base.{
  ℕ, zero, suc, ◌+◌, ◌<◌, ◌≡◌, refl, sym, ap, subst, ◌∙◌, List, [], ◌∷◌, ◌++◌, Option, some, arith,
  ◌==◌, if◌then◌else◌, All-get, All, length, get_elem?, set, get_or, get_or-some, get_or_out,
  lt_get_elem?, get_elem?_lt, get_elem?-set_self, get_elem?-set_ne, length-set, Bool-cases, inl,
  inr, ◌⊎◌,
}
use mathlib.Core.List.{append_assoc, append-nil}
use mathlib.Core.Option.{some-injective}
use wingfoil.Queue.{PartialEq}
use wingfoil.Graph.State.{GraphState}
use wingfoil.Graph.Cycle.Invariant.{IsValid}
use wingfoil.Graph.Callbacks.Marks.{IsDirty, Marked, Marked-refl, Marked-trans, Only}
use wingfoil.Nodes.Demux.{DemuxMap, DemuxEntry, slot, overflow}
use wingfoil.Nodes.Demux.Parent.{
  DemuxEvent, demuxed, DemuxVecParent, row_of, graph_index_of, cleared,
}
use wingfoil.Nodes.Demux.Slots.{EntryOk, InRange}

module _ {K T : Type 0} ⦃p : PartialEq K⦄ (pick : List ℕ → Option ℕ) where
  -- The rows that the map gives to items that come one after the other.
  abbrev pub routes : (T → K × DemuxEvent) → DemuxMap K → List T → List (ℕ × T)
  routes func m [] = []
  routes func m (x ∷ xs) =
      let d = demuxed pick (func x) m in (row_of d.1.size d.0, x) ∷ routes func d.1 xs

abbrev pub routed_to : {T : Type 0} → ℕ → List (ℕ × T) → List T
routed_to i [] = []
routed_to i ((r, x) ∷ rs) = if r == i then x ∷ routed_to i rs else routed_to i rs

-- A parent that was set up in a graph of so many nodes, with the node of the overflow.
pub record Ready {K T : Type 0} (nodes o : ℕ) (s : DemuxVecParent K T) : Type 0 where
  pub in_range : InRange s.map
  pub indexed : length s.outputs.index_map ≡ s.map.size
  pub children : All (λ ix. ix < nodes) s.outputs.index_map
  pub rows : length s.value ≡ s.map.size + 1
  pub overflow_index : s.overflow_graph_index ≡ some o
  pub overflow_node : o < nodes

-- The node of a row.
abbrev pub node_of : {K T : Type 0} → ℕ → DemuxVecParent K T → ℕ → ℕ
node_of o s r = get_or s.outputs.index_map r o

-- Some of the items took a row of this node.
abbrev pub Woken : {T : Type 0} → ℕ → List ℕ → List (ℕ × T) → ℕ → Type 0
Woken o index_map [] jx = ⊥
Woken o index_map ((r, x) ∷ taken) jx = (get_or index_map r o ≡ jx) ⊎ Woken o index_map taken jx

-- What the parent leaves when items took these rows.
pub record Routed {K T : Type 0} (o : ℕ) (s : DemuxVecParent K T) (state : GraphState)
    (taken : List (ℕ × T)) (s' : DemuxVecParent K T) (state' : GraphState) : Type 0 where
  pub rows :
      (i : ℕ) (row : List T)
      → get_elem? s.value i ≡ some row
      → get_elem? s'.value i ≡ some (row ++ routed_to i taken)
  pub marked : Marked state state'
  pub dirty : All (λ (r : ℕ × T). IsDirty state' (node_of o s r.0)) taken
  pub frame : state' ≡ record state {
    dirty_nodes_by_layer = state'.dirty_nodes_by_layer;
    node_dirty = state'.node_dirty;
  }
  pub only : (jx : ℕ) → IsDirty state' jx → IsDirty state jx ⊎ Woken o s.outputs.index_map taken jx
  pub same_outputs : s'.outputs ≡ s.outputs
  pub ready : Ready (length state.nodes) o s'

-- The node and the row of an entry are there.
pub record Placed (nodes o : ℕ) (index_map : List ℕ) (r : ℕ) (found : Option ℕ) : Type 0 where
  pub node : ℕ
  pub found_node : found ≡ some node
  pub in_graph : node < nodes
  pub same_node : get_or index_map r o ≡ node
  pub in_rows : r < length index_map + 1

pub entry-Placed :
    (nodes o size : ℕ) (e : DemuxEntry) (index_map : List ℕ) (index : Option ℕ)
    → EntryOk size e
    → length index_map ≡ size
    → All (λ ix. ix < nodes) index_map
    → index ≡ some o
    → o < nodes
    → Placed nodes o index_map (row_of size e) (graph_index_of e index_map index)
entry-Placed nodes o size overflow index_map index ok len all_ there below = record {
  node = o;
  found_node = there;
  in_graph = below;
  same_node = get_or_out index_map size o (omega (arith, len));
  in_rows = omega (arith, len);
}
entry-Placed nodes o size (slot ix) index_map index ok len all_ there below =
    let (g, at) = lt_get_elem? index_map ix (omega (arith, len, ok)) in
    record {
      node = g;
      found_node = at;
      in_graph = All-get (λ i. i < nodes) index_map ix g all_ at;
      same_node = get_or-some index_map ix g o at;
      in_rows = omega (arith, len, ok);
    }

pub length-cleared : {T : Type 0} → (rows : List (List T)) → length (cleared rows) ≡ length rows
length-cleared [] = refl
length-cleared (row ∷ rows) = ap suc (length-cleared rows)

pub get_elem?-cleared :
    {T : Type 0}
    → (rows : List (List T)) (i : ℕ) → i < length rows
    → get_elem? (cleared rows) i ≡ some []
get_elem?-cleared [] i h = elim h [ ]
get_elem?-cleared (row ∷ rows) zero h = refl
get_elem?-cleared (row ∷ rows) (suc i) h = get_elem?-cleared rows i (omega arith)

module _ {K T : Type 0} where
  pub Routed-refl :
      (o : ℕ) (s : DemuxVecParent K T) (state : GraphState)
      → IsValid state
      → Ready (length state.nodes) o s
      → Routed o s state [] s state
  Routed-refl o s state v ready_ = record {
    rows = λ i row at. at ∙ ap some (sym (append-nil row));
    marked = Marked-refl state v;
    dirty = tt;
    frame = refl;
    only = λ jx h. inl h;
    same_outputs = refl;
    ready = ready_;
  }

  pub Routed-cons :
      {o r : ℕ} {x : T} {taken : List (ℕ × T)} {s s1 s' : DemuxVecParent K T}
      {state state1 state' : GraphState}
      → Routed o s state ((r, x) ∷ []) s1 state1
      → Routed o s1 state1 taken s' state'
      → Routed o s state ((r, x) ∷ taken) s' state'
  Routed-cons {o = o} {r = r} {x = x} {taken = taken} {s = s} {s1 = s1} {s' = s'} {state' = state'}
        a b =
      record {
        rows = λ i row at. elim (Bool-cases (r == i)) [
          | inl here ↦
              b.rows i (row ++ x ∷ []) (a.rows i row at ∙ rw here refl)
              ∙ rw here (ap some (append_assoc row (x ∷ []) (routed_to i taken)))
          | inr there ↦
              rw there (b.rows i row (a.rows i row at ∙ rw there (ap some (append-nil row))))
        ];
        marked = Marked-trans a.marked b.marked;
        dirty = (
          b.marked.kept (node_of o s r) a.dirty.0,
          subst (λ out. All (λ (q : ℕ × T). IsDirty state' (get_or out.index_map q.0 o)) taken)
              a.same_outputs b.dirty,
        );
        frame =
            b.frame
            ∙ ap
                (λ (g : GraphState). record g {
                  dirty_nodes_by_layer = state'.dirty_nodes_by_layer;
                  node_dirty = state'.node_dirty;
                })
                a.frame;
        only = λ jx h. elim (b.only jx h) [
          | inl before ↦ elim (a.only jx before) [
            | inl earlier ↦ inl earlier
            | inr w ↦ elim w [ inl here ↦ inr (inl here) | inr never ↦ absurd never ]
          ]
          | inr w ↦ inr (inr (subst (λ out. Woken o out.index_map taken jx) a.same_outputs w))
        ];
        same_outputs = b.same_outputs ∙ a.same_outputs;
        ready = rw (sym a.marked.nodes) b.ready;
      }

  pub push-Routed :
      (o r g : ℕ) (x : T) (row : List T) (s : DemuxVecParent K T) (state state' : GraphState)
      → IsValid state
      → Ready (length state.nodes) o s
      → get_elem? s.value r ≡ some row
      → node_of o s r ≡ g
      → Marked state state'
      → IsDirty state' g
      → Only g state state'
      → Routed o s state ((r, x) ∷ []) (record s { value = set s.value r (row ++ x ∷ []) }) state'
  push-Routed o r g x row s state state' v ready_ at same m d only_ = record {
    rows = λ i old here. elim (Bool-cases (r == i)) [
      | inl e ↦
          let q : r ≡ i = ground (arith, e) in
          rw e (
            subst (λ j. get_elem? (set s.value r (row ++ x ∷ [])) j ≡ some (old ++ x ∷ [])) q
              (get_elem?-set_self s.value r (row ++ x ∷ []) (get_elem?_lt s.value r row at)
                ∙ ap (λ l. some (l ++ x ∷ []))
                    (some-injective row old (sym at ∙ ap (get_elem? s.value) q ∙ here))))
      | inr e ↦ rw e (
          get_elem?-set_ne s.value r i (row ++ x ∷ []) (λ q. ground (arith, e, q))
          ∙ here
          ∙ ap some (sym (append-nil old)))
    ];
    marked = m;
    dirty = (rw same d, tt);
    frame = only_.frame;
    only =
        λ jx h. elim (only_.only jx h) [ inl before ↦ inl before | inr q ↦ inr (inl (same ∙ q)) ];
    same_outputs = refl;
    ready = record {
      in_range = ready_.in_range;
      indexed = ready_.indexed;
      children = ready_.children;
      rows = length-set s.value r (row ++ x ∷ []) ∙ ready_.rows;
      overflow_index = ready_.overflow_index;
      overflow_node = ready_.overflow_node;
    };
  }
