-- ===== src/Graph/Cycle/Invariant.antt =====
-- What holds of the graph's state during a cycle: the layers, and the rows of dirty nodes.
use wingfoil.Base.{
  ℕ, ◌≤◌, ◌<◌, ◌≡◌, refl, ap, ◌∙◌, Bool, true, false, ◌&&◌, List, [], ◌∷◌, ◌++◌, Option, none, some,
  arith, ◌==◌, if◌then◌else◌, length, get_elem?, set, get_or, count, All, length-set, get_or-set,
  get_or-some, count-append, get_elem?_lt, lt_get_elem?, get_elem?-set_ne,
}
use wingfoil.Graph.State.{GraphState, NodeData, Edge, mark_dirty}

abbrev pub on_layer : List NodeData → ℕ → ℕ → Bool
on_layer nodes ix l = elim (get_elem? nodes ix) [ none ↦ false | some n ↦ n.layer == l ]

-- How often a node stands in the row of a layer.
abbrev pub marked : List NodeData → List Bool → ℕ → ℕ → ℕ
marked nodes dirty ix l = if get_or dirty ix false && on_layer nodes ix l then 1 else 0

-- The edge leads to a node on a later layer.
abbrev pub Above : List NodeData → ℕ → Edge → Type 0
Above nodes l e = (m : NodeData) × (get_elem? nodes e.node_index ≡ some m) × (l < m.layer)

pub record Wired (nodes : List NodeData) (layers : ℕ) : Type 0 where
  pub layered : (ix : ℕ) (n : NodeData) → get_elem? nodes ix ≡ some n → n.layer < layers
  pub rising :
      (ix : ℕ) (n : NodeData)
      → get_elem? nodes ix ≡ some n
      → All (Above nodes n.layer) n.downstreams

pub record IsValid (s : GraphState) : Type 0 where
  pub flags : length s.node_dirty ≡ length s.nodes
  pub ticks : length s.node_ticked ≡ length s.nodes
  pub wired : Wired s.nodes (length s.dirty_nodes_by_layer)
  pub rows :
      (ix l : ℕ) → count ix (get_or s.dirty_nodes_by_layer l []) ≡ marked s.nodes s.node_dirty ix l

-- From `s` to `t` only rows of layers beyond `l` grow, and the graph stays.
pub record Later (l : ℕ) (s t : GraphState) : Type 0 where
  pub same_nodes : t.nodes ≡ s.nodes
  pub same_length : length t.dirty_nodes_by_layer ≡ length s.dirty_nodes_by_layer
  pub below :
      (j : ℕ) → j ≤ l → get_elem? t.dirty_nodes_by_layer j ≡ get_elem? s.dirty_nodes_by_layer j
  pub kept : (ix : ℕ) → get_or s.node_dirty ix false ≡ true → get_or t.node_dirty ix false ≡ true

pub Later-refl : (l : ℕ) (s : GraphState) → Later l s s
Later-refl l s = record {
  same_nodes = refl;
  same_length = refl;
  below = λ j h. refl;
  kept = λ ix h. h;
}

pub Later-trans : {l : ℕ} {s t u : GraphState} → Later l s t → Later l t u → Later l s u
Later-trans a b = record {
  same_nodes = b.same_nodes ∙ a.same_nodes;
  same_length = b.same_length ∙ a.same_length;
  below = λ j h. b.below j h ∙ a.below j h;
  kept = λ ix h. b.kept ix (a.kept ix h);
}

pub Later-weaken : {l k : ℕ} {s t : GraphState} → k ≤ l → Later l s t → Later k s t
Later-weaken le a = record {
  same_nodes = a.same_nodes;
  same_length = a.same_length;
  below = λ j h. a.below j (omega arith);
  kept = a.kept;
}

-- The state of `mark_dirty` when it marks.
abbrev pub marked_state : ℕ → ℕ → List ℕ → GraphState → GraphState
marked_state ix l row s = record s {
  dirty_nodes_by_layer = set s.dirty_nodes_by_layer l (row ++ ix ∷ []);
  node_dirty = set s.node_dirty ix true;
}

count_one : (a b : ℕ) → count a (b ∷ []) ≡ (if b == a then 1 else 0)
count_one a b = ground arith

module _ (s : GraphState) (v : IsValid s) (ix : ℕ) (n : NodeData) (row : List ℕ)
    (at : get_elem? s.nodes ix ≡ some n) (clean : get_elem? s.node_dirty ix ≡ some false)
    (here : get_elem? s.dirty_nodes_by_layer n.layer ≡ some row) where
  abbrev pub t : GraphState
  t = marked_state ix n.layer row s

  rows_marked :
      (jx l : ℕ) → count jx (get_or t.dirty_nodes_by_layer l []) ≡ marked t.nodes t.node_dirty jx l
  rows_marked jx l =
      rw
        (
          get_or-set s.dirty_nodes_by_layer n.layer l (row ++ ix ∷ []) [],
          get_or-set s.node_dirty ix jx true false,
        )
        (ground (
          arith,
          v.rows jx l,
          get_or-some s.dirty_nodes_by_layer n.layer row [] here,
          get_elem?_lt s.dirty_nodes_by_layer n.layer row here,
          get_or-some s.node_dirty ix false false clean,
          get_elem?_lt s.node_dirty ix false clean,
          count-append jx row (ix ∷ []),
          at,
        ))

  pub marked-IsValid : IsValid t
  marked-IsValid = record {
    flags = length-set s.node_dirty ix true ∙ v.flags;
    ticks = v.ticks;
    wired = rw (length-set s.dirty_nodes_by_layer n.layer (row ++ ix ∷ [])) v.wired;
    rows = rows_marked;
  }

  marked-Later : (k : ℕ) → k < n.layer → Later k s t
  marked-Later k lt = record {
    same_nodes = refl;
    same_length = length-set s.dirty_nodes_by_layer n.layer (row ++ ix ∷ []);
    below = λ j h.
        get_elem?-set_ne s.dirty_nodes_by_layer n.layer j (row ++ ix ∷ []) (λ e. omega arith);
    kept = λ jx h. rw (get_or-set s.node_dirty ix jx true false) (ground (arith, h));
  }

  pub marked_dirty : get_or t.node_dirty ix false ≡ true
  marked_dirty =
      rw (get_or-set s.node_dirty ix ix true false)
        (ground (arith, get_elem?_lt s.node_dirty ix false clean))

-- `mark_dirty` on a node of a layer beyond `k` does not panic, keeps the invariant, and leaves the
-- node dirty.
abbrev pub MarkDirty : ℕ → ℕ → GraphState → Option GraphState → Type 0
MarkDirty k ix s none = ⊥
MarkDirty k ix s (some t) =
    IsValid t
    × Later k s t
    × (get_or t.node_dirty ix false ≡ true)
    × (t.node_ticked ≡ s.node_ticked)

pub mark_dirty-MarkDirty :
    (k ix : ℕ) (s : GraphState) (n : NodeData)
    → IsValid s
    → get_elem? s.nodes ix ≡ some n
    → k < n.layer
    → MarkDirty k ix s (mark_dirty ix s)
unfolding mark_dirty
mark_dirty-MarkDirty k ix s n v at lt =
    let (flag, fl) =
      lt_get_elem? s.node_dirty ix (omega (arith, v.flags, get_elem?_lt s.nodes ix n at)) in
    by_flag flag fl
  where
    by_flag : (b : Bool) → get_elem? s.node_dirty ix ≡ some b → MarkDirty k ix s (mark_dirty ix s)
    by_flag true e =
        rw (e, mark_dirty) (v, Later-refl k s, get_or-some s.node_dirty ix true false e, refl)
    by_flag false e =
        let (row, here) = lt_get_elem? s.dirty_nodes_by_layer n.layer (v.wired.layered ix n at) in
        rw (e, mark_dirty)
          (rw at (
            rw here (
              marked-IsValid s v ix n row at e here,
              marked-Later s v ix n row at e here k lt,
              marked_dirty s v ix n row at e here,
              refl,
            )))

-- The same with the new state named.
pub mark_dirty_marks :
    (k ix : ℕ) (s : GraphState) (n : NodeData)
    → IsValid s
    → get_elem? s.nodes ix ≡ some n
    → k < n.layer
    → (t : GraphState) × (mark_dirty ix s ≡ some t) × MarkDirty k ix s (some t)
mark_dirty_marks k ix s n v at lt =
    go (mark_dirty ix s) refl (mark_dirty-MarkDirty k ix s n v at lt)
  where
    go :
        (o : Option GraphState)
        → mark_dirty ix s ≡ o
        → MarkDirty k ix s o
        → (t : GraphState) × (mark_dirty ix s ≡ some t) × MarkDirty k ix s (some t)
    go none e m = absurd m
    go (some t) e m = (t, e, m)

-- The fields that the invariant reads are the same.
pub record SameGraph (s t : GraphState) : Type 0 where
  pub nodes : t.nodes ≡ s.nodes
  pub ticked : t.node_ticked ≡ s.node_ticked
  pub dirty : t.node_dirty ≡ s.node_dirty
  pub rows : t.dirty_nodes_by_layer ≡ s.dirty_nodes_by_layer

pub SameGraph-IsValid : {s t : GraphState} → SameGraph s t → IsValid s → IsValid t
SameGraph-IsValid same v = record {
  flags = rw (same.dirty, same.nodes) v.flags;
  ticks = rw (same.ticked, same.nodes) v.ticks;
  wired = rw (same.nodes, same.rows) v.wired;
  rows = λ ix l. rw (same.rows, same.nodes, same.dirty) (v.rows ix l);
}

pub SameGraph-Later : {s t : GraphState} (l : ℕ) → SameGraph s t → Later l s t
SameGraph-Later l same = record {
  same_nodes = same.nodes;
  same_length = ap length same.rows;
  below = λ j h. ap (λ rows. get_elem? rows j) same.rows;
  kept = λ ix h. rw same.dirty h;
}
