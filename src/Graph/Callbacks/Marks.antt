-- ===== src/Graph/Callbacks/Marks.antt =====
-- `mark_dirty` from outside a cycle: any node of the graph may be marked.
use wingfoil.Base.{
  ℕ, ◌<◌, ◌≡◌, refl, sym, subst, ◌∙◌, Bool, true, false, List, [], ◌∷◌, Option, some, arith, length,
  get_elem?, get_or, set, All, get_or-some, get_or-set, lt_get_elem?, ◌⊎◌, inl, inr, Bool-cases,
  ◌==◌,
}
use mathlib.Core.Option.{some-injective}
use wingfoil.Graph.Effects.{Result, ok, for_each}
use wingfoil.Graph.State.{GraphState, NodeData, mark_dirty}
use wingfoil.Graph.Env.{World, update, updated}
use wingfoil.Graph.Cycle.Invariant.{IsValid, marked_state, marked-IsValid, marked_dirty}

abbrev pub IsDirty : GraphState → ℕ → Type 0
IsDirty s ix = get_or s.node_dirty ix false ≡ true

-- From `s` to `t` only the rows and flags of dirty nodes change, and no node gets clean.
pub record Marked (s t : GraphState) : Type 0 where
  pub valid : IsValid t
  pub nodes : t.nodes ≡ s.nodes
  pub queue : t.scheduled_callbacks ≡ s.scheduled_callbacks
  pub always : t.always_callbacks ≡ s.always_callbacks
  pub time : t.time ≡ s.time
  pub ticked : t.node_ticked ≡ s.node_ticked
  pub kept : (ix : ℕ) → IsDirty s ix → IsDirty t ix

pub Marked-refl : (s : GraphState) → IsValid s → Marked s s
Marked-refl s v = record {
  valid = v;
  nodes = refl;
  queue = refl;
  always = refl;
  time = refl;
  ticked = refl;
  kept = λ ix h. h;
}

pub Marked-trans : {s t u : GraphState} → Marked s t → Marked t u → Marked s u
Marked-trans a b = record {
  valid = b.valid;
  nodes = b.nodes ∙ a.nodes;
  queue = b.queue ∙ a.queue;
  always = b.always ∙ a.always;
  time = b.time ∙ a.time;
  ticked = b.ticked ∙ a.ticked;
  kept = λ ix h. b.kept ix (a.kept ix h);
}

-- Only the rows and flags of dirty nodes may differ, and no node but one got dirty.
pub record Only (ix : ℕ) (s t : GraphState) : Type 0 where
  pub frame :
      t ≡ record s { dirty_nodes_by_layer = t.dirty_nodes_by_layer; node_dirty = t.node_dirty }
  pub only : (jx : ℕ) → IsDirty t jx → IsDirty s jx ⊎ (ix ≡ jx)

pub mark_dirty-Only :
    (ix : ℕ) (s t : GraphState)
    → IsValid s
    → ix < length s.nodes
    → mark_dirty ix s ≡ some t
    → Only ix s t
unfolding mark_dirty
mark_dirty-Only ix s t v lt e =
    let (n, at) = lt_get_elem? s.nodes ix lt in
    let (flag, fl) = lt_get_elem? s.node_dirty ix (omega (arith, v.flags)) in by_flag n at flag fl
  where
    other_flag :
        (jx : ℕ)
        → (ix == jx) ≡ false
        → get_or (set s.node_dirty ix true) jx false ≡ true
        → IsDirty s jx
    other_flag jx q h = ground (arith, q, h, get_or-set s.node_dirty ix jx true false)

    by_flag :
        (n : NodeData)
        → get_elem? s.nodes ix ≡ some n
        → (b : Bool) → get_elem? s.node_dirty ix ≡ some b
        → Only ix s t
    by_flag n at true f =
        let same : mark_dirty ix s ≡ some s = rw (f, mark_dirty) refl in
        subst (Only ix s) (some-injective s t (sym same ∙ e))
          (record { frame = refl; only = λ jx h. inl h })
    by_flag n at false f =
        let (row, here) = lt_get_elem? s.dirty_nodes_by_layer n.layer (v.wired.layered ix n at) in
        let same : mark_dirty ix s ≡ some (marked_state ix n.layer row s) =
          rw (f, mark_dirty) (rw at (rw here refl)) in
        subst (Only ix s) (some-injective (marked_state ix n.layer row s) t (sym same ∙ e))
          (record {
            frame = refl;
            only = λ jx h. elim (Bool-cases (ix == jx)) [
              | inl q ↦ inr (ground (arith, q))
              | inr q ↦ inl (other_flag jx q h)
            ];
          })

abbrev Marking : ℕ → GraphState → Option GraphState → Type 0
Marking ix s o = (t : GraphState) × (o ≡ some t) × Marked s t × IsDirty t ix

pub mark_dirty-Marked :
    (ix : ℕ) (s : GraphState)
    → IsValid s
    → ix < length s.nodes
    → (t : GraphState) × (mark_dirty ix s ≡ some t) × Marked s t × IsDirty t ix
unfolding mark_dirty
mark_dirty-Marked ix s v lt =
    let (n, at) = lt_get_elem? s.nodes ix lt in
    let (flag, fl) = lt_get_elem? s.node_dirty ix (omega (arith, v.flags)) in by_flag n at flag fl
  where
    by_flag :
        (n : NodeData)
        → get_elem? s.nodes ix ≡ some n
        → (b : Bool) → get_elem? s.node_dirty ix ≡ some b
        → Marking ix s (mark_dirty ix s)
    by_flag n at true e =
        (s, rw (e, mark_dirty) refl, Marked-refl s v, get_or-some s.node_dirty ix true false e)
    by_flag n at false e =
        let (row, here) = lt_get_elem? s.dirty_nodes_by_layer n.layer (v.wired.layered ix n at) in
        let mark : Marked s (marked_state ix n.layer row s) = record {
          valid = marked-IsValid s v ix n row at e here;
          nodes = refl;
          queue = refl;
          always = refl;
          time = refl;
          ticked = refl;
          kept = λ jx h. rw (get_or-set s.node_dirty ix jx true false) (ground (arith, h));
        } in
        (
          marked_state ix n.layer row s,
          rw (e, mark_dirty) (rw at (rw here refl)),
          mark,
          marked_dirty s v ix n row at e here,
        )

module _ {S : Type 0} where
  -- What marking a list of nodes leaves.
  abbrev pub MarkedAll : List ℕ → World S → Result (Unit {0}) × World S → Type 0
  MarkedAll ixs w r = (r.0 ≡ ok tt) × Marked w.state r.1.state × All (IsDirty r.1.state) ixs

  pub mark_each-MarkedAll :
      (ixs : List ℕ) (w : World S)
      → IsValid w.state
      → All (λ ix. ix < length w.state.nodes) ixs
      → MarkedAll ixs w (for_each (λ ix. update (mark_dirty ix)) ixs w)
  mark_each-MarkedAll [] w v h = (refl, Marked-refl w.state v, tt)
  mark_each-MarkedAll (ix ∷ ixs) w v h =
      let (t, e, m, dirty) = mark_dirty-Marked ix w.state v h.0 in
      let w' : World S = record w { state = t } in
      let (fine, more, rest) = mark_each-MarkedAll ixs w' m.valid (rw m.nodes h.1) in
      let step : for_each (λ ix. update (mark_dirty ix)) (ix ∷ ixs) w
          ≡ for_each (λ ix. update (mark_dirty ix)) ixs w' =
        rw (e, updated) in
      subst (MarkedAll (ix ∷ ixs) w) (sym step)
        (fine, Marked-trans m more, (more.kept ix dirty, rest))
