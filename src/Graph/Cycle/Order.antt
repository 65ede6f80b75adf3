-- ===== src/Graph/Cycle/Order.antt =====
-- The order of a cycle: each node at most once, layer after layer.
use wingfoil.Base.{
  ℕ, suc, ◌+◌, ◌≤◌, ◌≡◌, refl, subst, Bool, false, ◌&&◌, List, [], ◌∷◌, ◌++◌, some, arith, ◌==◌,
  ltb, leb, if◌then◌else◌, length, get_elem?, get_or, count, All, All-append, All-imp, flatten,
  count-append, Option-cases, inl, inr, none_le, get_or_out,
}
use wingfoil.Graph.Effects.{Result, for_each}
use wingfoil.Graph.State.{GraphState, NodeData}
use wingfoil.Graph.Env.{Env, World}
use wingfoil.Graph.Wiring.Invariant.{layer_at}
use wingfoil.Graph.Cycle.{cycle_node, cycle_layers}
use wingfoil.Graph.Cycle.Invariant.{IsValid}
use wingfoil.Graph.Cycle.Calls.{Behaved, NoPanic}
use wingfoil.Graph.Cycle.Node.{Triggers}
use wingfoil.Graph.Cycle.Row.{OnLayer, row-OnLayer}
use wingfoil.Graph.Cycle.Trace.{RunsLayers, cycle_layers-RunsLayers}

-- Layers do not fall along the list.
abbrev pub Ordered : List NodeData → List ℕ → Type 0
Ordered nodes [] = Unit
Ordered nodes (x ∷ xs) = All (λ y. layer_at nodes x ≤ layer_at nodes y) xs × Ordered nodes xs

abbrev pub Layered : List NodeData → ℕ → List (List ℕ) → Type 0
Layered nodes l [] = Unit
Layered nodes l (row ∷ rows) = All (OnLayer nodes l) row × Layered nodes (suc l) rows

pub Layered-intro :
    (nodes : List NodeData) (l : ℕ) (rows : List (List ℕ))
    → ((k : ℕ) (row : List ℕ) → get_elem? rows k ≡ some row → All (OnLayer nodes (l + k)) row)
    → Layered nodes l rows
Layered-intro nodes l [] h = tt
Layered-intro nodes l (row ∷ rows) h = (
  let e : l + 0 ≡ l = omega arith in subst (λ k. All (OnLayer nodes k) row) e (h 0 row refl),
  Layered-intro nodes (suc l) rows λ k r at.
      let e : l + suc k ≡ suc l + k = omega arith in
      subst (λ j. All (OnLayer nodes j) r) e (h (suc k) r at),
)

Ordered-append :
    (nodes : List NodeData) (xs ys : List ℕ)
    → Ordered nodes xs
    → Ordered nodes ys
    → All (λ x. All (λ y. layer_at nodes x ≤ layer_at nodes y) ys) xs
    → Ordered nodes (xs ++ ys)
Ordered-append nodes [] ys hx hy h = hy
Ordered-append nodes (x ∷ xs) ys hx hy h = (
  All-append (λ y. layer_at nodes x ≤ layer_at nodes y) xs ys hx.0 h.0,
  Ordered-append nodes xs ys hx.1 hy h.1,
)

layer_at-eq : (nodes : List NodeData) (l x : ℕ) → OnLayer nodes l x → layer_at nodes x ≡ l
layer_at-eq nodes l x (m, at, e) = rw (at, layer_at) e

row-Ordered :
    (nodes : List NodeData) (l : ℕ) (row : List ℕ) → All (OnLayer nodes l) row → Ordered nodes row
row-Ordered nodes l [] h = tt
row-Ordered nodes l (x ∷ row) h = (
  All-imp (λ y on. omega (arith, layer_at-eq nodes l x h.0, layer_at-eq nodes l y on)) row h.1,
  row-Ordered nodes l row h.1,
)

flatten_least :
    (nodes : List NodeData) (l : ℕ) (rows : List (List ℕ))
    → Layered nodes l rows
    → All (λ y. l ≤ layer_at nodes y) (flatten rows)
flatten_least nodes l [] h = tt
flatten_least nodes l (row ∷ rows) h =
    All-append (λ y. l ≤ layer_at nodes y) row (flatten rows)
      (All-imp (λ x on. omega (arith, layer_at-eq nodes l x on)) row h.0)
      (All-imp (λ x least. omega arith) (flatten rows) (flatten_least nodes (suc l) rows h.1))

flatten-Ordered :
    (nodes : List NodeData) (l : ℕ) (rows : List (List ℕ))
    → Layered nodes l rows
    → Ordered nodes (flatten rows)
flatten-Ordered nodes l [] h = tt
flatten-Ordered nodes l (row ∷ rows) h =
    let later = flatten_least nodes (suc l) rows h.1 in
    Ordered-append nodes row (flatten rows) (row-Ordered nodes l row h.0)
      (flatten-Ordered nodes (suc l) rows h.1)
      (All-imp
        (λ x on. All-imp (λ y least. omega (arith, layer_at-eq nodes l x on)) (flatten rows) later)
        row h.0)

-- An index that stands in one row only, if at all.
count_rows :
    (ix home : ℕ) (here : Bool) (b : ℕ) (rows : List (List ℕ))
    → ((k : ℕ) → count ix (get_or rows k []) ≡ (if here && home == b + k then 1 else 0))
    → count ix (flatten rows)
      ≡ (if here && (leb b home && ltb home (b + length rows)) then 1 else 0)
count_rows ix home here b [] h = ground arith
count_rows ix home here b (row ∷ rows) h = ground (
  arith,
  count-append ix row (flatten rows),
  h 0,
  count_rows ix home here (suc b) rows λ k.
      let e : b + suc k ≡ suc b + k = omega arith in
      subst (λ j. count ix (get_or rows k []) ≡ (if here && home == j then 1 else 0)) e (h (suc k)),
)

-- On a valid state each dirty node stands in the rows once, and no other index at all.
pub count-rows :
    (s : GraphState) (ix : ℕ)
    → IsValid s
    → count ix (flatten s.dirty_nodes_by_layer) ≡ (if get_or s.node_dirty ix false then 1 else 0)
count-rows s ix v = elim (Option-cases (get_elem? s.nodes ix)) [
  | inl e ↦
      let out : length s.node_dirty ≤ ix = omega (arith, v.flags, none_le s.nodes ix e) in
      let rows =
        count_rows ix 0 false 0 s.dirty_nodes_by_layer (λ k. ground (arith, v.rows ix k, e)) in
      rw (get_or_out s.node_dirty ix false out) rows
  | inr (n, e) ↦
      let rows =
        count_rows ix n.layer (get_or s.node_dirty ix false) 0 s.dirty_nodes_by_layer
          (λ k. ground (arith, v.rows ix k, e)) in
      ground (arith, rows, v.wired.layered ix n e)
]

-- The nodes that a run of the layers cycles, in order.
abbrev pub order_of : {S : Type 0} → Result (Unit {0}) × World S → List ℕ
order_of r = flatten r.1.state.dirty_nodes_by_layer

abbrev pub all_layers : (env : Env) → World env.Store → Result (Unit {0}) × World env.Store
all_layers env w = cycle_layers env (length w.state.dirty_nodes_by_layer) 0 w

module _ (env : Env) (w : World env.Store) (law : Behaved env) (v : IsValid w.state)
    (trig : Triggers w.state) where
  pub layers : RunsLayers env law 0 w (all_layers env w)
  layers =
      cycle_layers-RunsLayers env law (length w.state.dirty_nodes_by_layer) 0 w (omega arith) v trig

  -- If node cycles behave (they return or fail, and reach the engine through its methods alone),
  -- from a valid state in which every node that a ticked node triggers is dirty, the loops of
  -- `cycle` over the layers do exactly what `cycle_node` does over one list of node indices, do
  -- not panic, and that list has each node at most once, with layers that never fall.
  pub all_layers-Ordered :
      (all_layers env w ≡ for_each (cycle_node env) (order_of (all_layers env w)) w)
      × NoPanic (all_layers env w).0
      × Ordered w.state.nodes (order_of (all_layers env w))
      × ((ix : ℕ) → count ix (order_of (all_layers env w)) ≤ 1)
  all_layers-Ordered =
      let (run, fine, v', upto, trig') = layers in
      let end_state = (all_layers env w).1.state in
      let rows = Layered-intro end_state.nodes 0 end_state.dirty_nodes_by_layer λ k row at.
        let e : k ≡ 0 + k = omega arith in
        subst (λ j. All (OnLayer end_state.nodes j) row) e (row-OnLayer end_state k row v' at) in
      (
        run,
        fine,
        subst (λ nodes. Ordered nodes (order_of (all_layers env w))) upto.same_nodes
            (flatten-Ordered end_state.nodes 0 end_state.dirty_nodes_by_layer rows),
        λ ix. ground (arith, count-rows end_state ix v'),
      )
