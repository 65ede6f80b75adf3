-- ===== src/Graph/Cycle/Calls.antt =====
-- What a node may do to the engine while it is cycled: the methods of GraphState that it can call.
use wingfoil.Base.{ℕ, ◌<◌, ◌≡◌, refl, sym, subst, ◌∙◌, Bool, List, ◌++◌, some, arith, get_elem?}
use wingfoil.Graph.Effects.{Result, ok, err, panic, diverged}
use wingfoil.Graph.State.{
  GraphState, NodeData, mark_dirty, add_callback_for_node, always_callback, add_upstream,
  remove_node,
}
use wingfoil.Graph.Env.{Env, World}
use wingfoil.Graph.Cycle.Invariant.{
  IsValid, Later, Later-refl, Later-trans, MarkDirty, mark_dirty-MarkDirty, SameGraph,
  SameGraph-IsValid, SameGraph-Later,
}

-- One call by a node of layer `l`. A node marks dirty only nodes of later layers; demux does so with
-- its children. `receives` is another thread that sends to the ready channel meanwhile.
pub data Call (l : ℕ) (s t : GraphState) : Type 0 where
  calls_back : (ix time : ℕ) → t ≡ add_callback_for_node ix time s → Call l s t
  always : some t ≡ always_callback s → Call l s t
  adds : (u : ℕ) (a r : Bool) → some t ≡ add_upstream u a r s → Call l s t
  removes : (n : ℕ) → t ≡ remove_node n s → Call l s t
  marks :
      (ix : ℕ) (n : NodeData)
      → get_elem? s.nodes ix ≡ some n
      → l < n.layer
      → some t ≡ mark_dirty ix s
      → Call l s t
  receives :
      (ixs : List ℕ) → t ≡ record s { ready_callbacks = s.ready_callbacks ++ ixs } → Call l s t

pub data Calls (l : ℕ) (s : GraphState) : GraphState → Type 0 where
  here : Calls l s s
  next : {t u : GraphState} → Calls l s t → Call l t u → Calls l s u

abbrev pub NoPanic {ℓ} : {A : Type ℓ} → Result A → Type 0
NoPanic (ok a) = Unit
NoPanic (err e) = Unit
NoPanic panic = ⊥
NoPanic diverged = ⊥

-- A node that is cycled as the current node returns or fails, and reaches the engine by calls alone.
pub record Behaved (env : Env) : Type 0 where
  pub returns :
      (k : ℕ) (n : NodeData) (w : World env.Store)
      → IsValid w.state
      → get_elem? w.state.nodes k ≡ some n
      → w.state.current_node_index ≡ some k
      → NoPanic (env.cycle n.node w).0 × Calls n.layer w.state (env.cycle n.node w).1.state

abbrev pub Kept : ℕ → GraphState → GraphState → Type 0
Kept l s t = IsValid t × Later l s t × (t.node_ticked ≡ s.node_ticked)

same-Kept : (l : ℕ) {s t : GraphState} → IsValid s → SameGraph s t → Kept l s t
same-Kept l v same = (SameGraph-IsValid same v, SameGraph-Later l same, same.ticked)

always-SameGraph : (s t : GraphState) → some t ≡ always_callback s → SameGraph s t
unfolding always_callback
always-SameGraph s t e = ground arith

adds-SameGraph :
    (u : ℕ) (a r : Bool) (s t : GraphState) → some t ≡ add_upstream u a r s → SameGraph s t
unfolding add_upstream
adds-SameGraph u a r s t e = ground arith

Call-Kept : (l : ℕ) (s t : GraphState) → IsValid s → Call l s t → Kept l s t
unfolding add_callback_for_node remove_node
Call-Kept l s t v (Call.calls_back ix time e) =
    same-Kept l v (record { nodes = cc; ticked = cc; dirty = cc; rows = cc })
Call-Kept l s t v (Call.always e) = same-Kept l v (always-SameGraph s t e)
Call-Kept l s t v (Call.adds u a r e) = same-Kept l v (adds-SameGraph u a r s t e)
Call-Kept l s t v (Call.removes n e) = same-Kept l v (ground arith)
Call-Kept l s t v (Call.marks ix n at lt e) =
    let (v', later, dirty, same) =
      subst (MarkDirty l ix s) (sym e) (mark_dirty-MarkDirty l ix s n v at lt) in
    (v', later, same)
Call-Kept l s t v (Call.receives ixs e) = same-Kept l v (ground arith)

pub Calls-Kept : (l : ℕ) (s : GraphState) {t : GraphState} → IsValid s → Calls l s t → Kept l s t
Calls-Kept l s v here = (v, Later-refl l s, refl)
Calls-Kept l s v (next {t} {u} cs c) =
    let (v', later, same) = Calls-Kept l s v cs in
    let (v'', later', same') = Call-Kept l t u v' c in (v'', Later-trans later later', same' ∙ same)
