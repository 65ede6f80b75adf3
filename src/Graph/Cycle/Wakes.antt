-- ===== src/Graph/Cycle/Wakes.antt =====
-- What a node that ticks triggers is cycled in the same engine cycle, and later than the node.
use wingfoil.Base.{
  ℕ, suc, ◌+◌, ◌≤◌, ◌<◌, ◌≡◌, refl, sym, ap, subst, ◌∙◌, Bool, true, List, [], ◌∷◌, ◌++◌, some,
  none, arith, ◌==◌, if◌then◌else◌, length, get_elem?, count, All, All-imp, All-append, flatten,
  count-append, Bool-cases, inl, inr, get_elem?_lt, lt_get_elem?,
}
use wingfoil.Graph.Effects.{Result, ok, err, panic, diverged, and_then, for_each}
use wingfoil.Graph.State.{NodeData, Edge}
use wingfoil.Graph.Env.{Env, World}
use wingfoil.Graph.Wiring.Invariant.{layer_at}
use wingfoil.Graph.Cycle.{report_tick, after_cycle, cycle_active, cycle_node}
use wingfoil.Graph.Cycle.Invariant.{IsValid, Above, Later-refl, Later-weaken, SameGraph-IsValid}
use wingfoil.Graph.Cycle.Calls.{Behaved, Calls-Kept}
use wingfoil.Graph.Cycle.Node.{
  Triggered, Triggers, Cycled, Cycled-after, cycle_node-Cycled, at_node, at_node-SameGraph,
  attempted_lem, report_tick-Triggered,
}
use wingfoil.Graph.Cycle.Row.{OnLayer, row-OnLayer, for_each-append}
use wingfoil.Graph.Cycle.Order.{
  Ordered, Layered, Layered-intro, count-rows, order_of, all_layers, layers, all_layers-Ordered,
}

flatten_below :
    (nodes : List NodeData) (l : ℕ) (rows : List (List ℕ))
    → Layered nodes l rows
    → All (λ x. x < length nodes) (flatten rows)
flatten_below nodes l [] h = tt
flatten_below nodes l (row ∷ rows) h =
    All-append (λ x. x < length nodes) row (flatten rows)
      (All-imp (λ x on. get_elem?_lt nodes x on.0 on.1) row h.0)
      (flatten_below nodes (suc l) rows h.1)

All-split : (P : ℕ → Type 0) (xs ys : List ℕ) → All P (xs ++ ys) → All P xs × All P ys
All-split P [] ys h = (tt, h)
All-split P (x ∷ xs) ys h = let (hx, hy) = All-split P xs ys h.1 in ((h.0, hx), hy)

Ordered-before :
    (nodes : List NodeData) (before : List ℕ) (ix : ℕ) (rest : List ℕ)
    → Ordered nodes (before ++ ix ∷ rest)
    → All (λ y. layer_at nodes y ≤ layer_at nodes ix) before
Ordered-before nodes [] ix rest h = tt
Ordered-before nodes (y ∷ before) ix rest h = (
  (All-split (λ z. layer_at nodes y ≤ layer_at nodes z) before (ix ∷ rest) h.0).1.0,
  Ordered-before nodes before ix rest h.1,
)

count_none :
    (nodes : List NodeData) (l e : ℕ) (ys : List ℕ)
    → All (λ y. layer_at nodes y ≤ l) ys
    → l < layer_at nodes e
    → count e ys ≡ 0
count_none nodes l e [] h lt = refl
count_none nodes l e (y ∷ ys) h lt = elim (Bool-cases (y == e)) [
  | inl same ↦
      let q : y ≡ e = ground (arith, same) in absurd (omega (arith, h.0, ap (layer_at nodes) q, lt))
  | inr other ↦ rw other (omega (arith, count_none nodes l e ys h.1 lt))
]

-- A node on a later layer stands behind the node in the order.
count-behind :
    (nodes : List NodeData) (before : List ℕ) (ix : ℕ) (rest : List ℕ) (n : NodeData) (e : ℕ)
    → Ordered nodes (before ++ ix ∷ rest)
    → get_elem? nodes ix ≡ some n
    → n.layer < layer_at nodes e
    → count e (before ++ ix ∷ rest) ≡ count e rest
count-behind nodes before ix rest n e order at lt =
    let here : layer_at nodes ix ≡ n.layer = rw (at, layer_at) in
    let none_before =
      count_none nodes (layer_at nodes ix) e before (Ordered-before nodes before ix rest order)
        (omega (arith, here, lt)) in
    let not_it = count_none nodes n.layer e (ix ∷ []) (omega (arith, here), tt) lt in
    omega
      (arith, count-append e before (ix ∷ rest), count-append e (ix ∷ []) rest, none_before, not_it)

module _ (env : Env) (law : Behaved env) where
  -- The node is cycled in this world, and its cycle ticks.
  abbrev pub Ticks : NodeData → ℕ → World env.Store → Type 0
  Ticks n ix w = (n.active ≡ true) × ((env.cycle n.node (at_node (some ix) w)).0 ≡ ok true)

  run_on :
      (r : Result (Unit {0})) (xs : List ℕ) (w w' : World env.Store)
      → Cycled 0 w (r, w')
      → (IsValid w'.state → Triggers w'.state → Cycled 0 w' (for_each (cycle_node env) xs w'))
      → Cycled 0 w (and_then r (λ _. for_each (cycle_node env) xs) w')
  run_on (ok _) xs w w' c rest =
      Cycled-after w w' (for_each (cycle_node env) xs w') c.2 (rest c.1 c.3)
  run_on (err e) xs w w' c rest = c
  run_on panic xs w w' c rest = absurd c.0
  run_on diverged xs w w' c rest = absurd c.0

  -- Node cycles one after the other.
  run-Cycled :
      (xs : List ℕ) (w : World env.Store)
      → IsValid w.state
      → Triggers w.state
      → All (λ x. x < length w.state.nodes) xs
      → Cycled 0 w (for_each (cycle_node env) xs w)
  run-Cycled [] w v trig below = (tt, v, Later-refl 0 w.state, trig)
  run-Cycled (x ∷ xs) w v trig below =
      let (n, at) = lt_get_elem? w.state.nodes x below.0 in
      let (fine, v', later, trig') = cycle_node-Cycled env x n w law v trig at in
      let w' = (cycle_node env x w).1 in
      run_on (cycle_node env x w).0 xs w w' (fine, v', Later-weaken (omega arith) later, trig')
        (λ valid_ triggers_.
          run-Cycled xs w' valid_ triggers_
            (subst (λ nodes. All (λ y. y < length nodes) xs) (sym later.same_nodes) below.1))

  cycle_node-Triggered :
      (k : ℕ) (n : NodeData) (w : World env.Store)
      → IsValid w.state
      → get_elem? w.state.nodes k ≡ some n
      → Ticks n k w
      → All (Triggered (cycle_node env k w).1.state.node_dirty) n.downstreams
  unfolding cycle_node cycle_active after_cycle
  cycle_node-Triggered k n w v at (on, ticks) =
      let w₁ = at_node (some k) w in
      let v₁ = SameGraph-IsValid (at_node-SameGraph (some k) w) v in
      let (fine, calls) = law.returns k n w₁ v₁ at refl in
      let (v₂, later₂, same) = Calls-Kept n.layer w₁.state v₁ calls in
      let w₂ = (env.cycle n.node w₁).1 in
      let at₂ : get_elem? w₂.state.nodes k ≡ some n = rw later₂.same_nodes at in
      let first : cycle_node env k w ≡ cycle_active env k n w = rw at (rw on) in
      let second : cycle_active env k n w ≡ after_cycle env k (env.cycle n.node w₁).0 w₂ =
        attempted_lem (env.cycle n.node w₁).0 (after_cycle env k) w₂ fine in
      let third : after_cycle env k (env.cycle n.node w₁).0 w₂ ≡ report_tick k (at_node none w₂) =
        ap (λ r. after_cycle env k r w₂) ticks in
      subst
        (λ (r : Result (Unit {0}) × World env.Store).
          All (Triggered r.1.state.node_dirty) n.downstreams)
        (sym (first ∙ second ∙ third))
        (report_tick-Triggered k n (at_node none w₂)
          (SameGraph-IsValid (at_node-SameGraph none w₂) v₂) at₂)

  and_then-ok :
      (r : Result (Unit {0})) (next : World env.Store → Result (Unit {0}) × World env.Store)
      (w : World env.Store)
      → (and_then r (λ _. next) w).0 ≡ ok tt
      → r ≡ ok tt
  and_then-ok (ok tt) next w h = refl
  and_then-ok (err e) next w h = cc
  and_then-ok panic next w h = cc
  and_then-ok diverged next w h = cc

  -- What a node in a run of node cycles triggered is dirty at the end.
  run-Triggered :
      (before rest : List ℕ) (ix : ℕ) (n : NodeData) (w : World env.Store)
      → IsValid w.state
      → Triggers w.state
      → All (λ x. x < length w.state.nodes) (before ++ ix ∷ rest)
      → get_elem? w.state.nodes ix ≡ some n
      → (for_each (cycle_node env) (before ++ ix ∷ rest) w).0 ≡ ok tt
      → Ticks n ix (for_each (cycle_node env) before w).1
      → All
          (Triggered (for_each (cycle_node env) (before ++ ix ∷ rest) w).1.state.node_dirty)
          n.downstreams
  run-Triggered before rest ix n w v trig below at fine ticks =
      let (below_before, below_rest) =
        All-split (λ x. x < length w.state.nodes) before (ix ∷ rest) below in
      let first = for_each (cycle_node env) before w in
      let (_, v', later, trig') = run-Cycled before w v trig below_before in
      let at' : get_elem? first.1.state.nodes ix ≡ some n = rw later.same_nodes at in
      let split = for_each-append (cycle_node env) before (ix ∷ rest) w in
      let first_ok =
        and_then-ok first.0 (for_each (cycle_node env) (ix ∷ rest)) first.1
          (sym (ap (λ (r : Result (Unit {0}) × World env.Store). r.0) split) ∙ fine) in
      let joined : for_each (cycle_node env) (before ++ ix ∷ rest) w
          ≡ for_each (cycle_node env) (ix ∷ rest) first.1 =
        split
        ∙ ap (λ r. and_then r (λ _. for_each (cycle_node env) (ix ∷ rest)) first.1) first_ok in
      let second = cycle_node env ix first.1 in
      let second_ok =
        and_then-ok second.0 (for_each (cycle_node env) rest) second.1
          (sym (ap (λ (r : Result (Unit {0}) × World env.Store). r.0) joined) ∙ fine) in
      let last_ : for_each (cycle_node env) (before ++ ix ∷ rest) w
          ≡ for_each (cycle_node env) rest second.1 =
        joined ∙ ap (λ r. and_then r (λ _. for_each (cycle_node env) rest) second.1) second_ok in
      let (_, v'', later', trig'') = cycle_node-Cycled env ix n first.1 law v' trig' at' in
      let below' =
        subst (λ nodes. All (λ y. y < length nodes) rest)
          (sym (later'.same_nodes ∙ later.same_nodes)) below_rest.1 in
      let (_, _, kept, _) = run-Cycled rest second.1 v'' trig'' below' in
      let on = cycle_node-Triggered ix n first.1 v' at' ticks in
      subst
        (λ (r : Result (Unit {0}) × World env.Store).
          All (Triggered r.1.state.node_dirty) n.downstreams)
        (sym last_) (All-imp (λ e h a. kept.kept e.node_index (h a)) n.downstreams on)

module _ (env : Env) (w : World env.Store) (law : Behaved env) (v : IsValid w.state)
    (trig : Triggers w.state) where
  -- If node cycles behave, from a valid state in which every node that a ticked node triggers is
  -- dirty, if the loops of `cycle` over the layers succeed and a node that they cycle is active
  -- and its cycle ticks in the world that the nodes before it left, then the loops do what
  -- `cycle_node` does over their list of node indices, and each active downstream of the node
  -- stands behind the node in this list, exactly once.
  pub all_layers-triggers :
      (before rest : List ℕ) (ix : ℕ) (n : NodeData)
      → (all_layers env w).0 ≡ ok tt
      → order_of (all_layers env w) ≡ before ++ ix ∷ rest
      → get_elem? w.state.nodes ix ≡ some n
      → Ticks env law n ix (for_each (cycle_node env) before w).1
      → (all_layers env w ≡ for_each (cycle_node env) (before ++ ix ∷ rest) w)
        × All (λ (e : Edge). if e.active then count e.node_index rest ≡ 1 else Unit) n.downstreams
  all_layers-triggers before rest ix n fine order at ticks =
      let (run, calm, v', upto, trig') = layers env w law v trig in
      let end_state = (all_layers env w).1.state in
      let rows = Layered-intro end_state.nodes 0 end_state.dirty_nodes_by_layer λ k row here.
        let e : k ≡ 0 + k = omega arith in
        subst (λ j. All (OnLayer end_state.nodes j) row) e (row-OnLayer end_state k row v' here) in
      let below : All (λ x. x < length w.state.nodes) (before ++ ix ∷ rest) =
        subst (λ l. All (λ x. x < length w.state.nodes) l) order
          (subst (λ nodes. All (λ x. x < length nodes) (order_of (all_layers env w)))
            upto.same_nodes
            (flatten_below end_state.nodes 0 end_state.dirty_nodes_by_layer rows)) in
      let whole : all_layers env w ≡ for_each (cycle_node env) (before ++ ix ∷ rest) w =
        run ∙ ap (λ l. for_each (cycle_node env) l w) order in
      let on =
        run-Triggered env law before rest ix n w v trig below at
          (sym (ap (λ (r : Result (Unit {0}) × World env.Store). r.0) whole) ∙ fine) ticks in
      let marked : All (Triggered end_state.node_dirty) n.downstreams =
        subst
          (λ (r : Result (Unit {0}) × World env.Store).
            All (Triggered r.1.state.node_dirty) n.downstreams)
          (sym whole) on in
      (whole, once n.downstreams marked (v.wired.rising ix n at))
    where
      once :
          (es : List Edge)
          → All (Triggered (all_layers env w).1.state.node_dirty) es
          → All (Above w.state.nodes n.layer) es
          → All (λ (e : Edge). if e.active then count e.node_index rest ≡ 1 else Unit) es
      once [] on above = tt
      once (e ∷ es) on above = (
        elim (Bool-cases e.active) [
          | inl active ↦ rw active (behind e active on.0 above.0)
          | inr passive ↦ rw passive tt
        ],
        once es on.1 above.1,
      )
        where
          behind :
              (e : Edge)
              → e.active ≡ true
              → Triggered (all_layers env w).1.state.node_dirty e
              → Above w.state.nodes n.layer e
              → count e.node_index rest ≡ 1
          behind e active on (m, there, lt) =
              let (_, _, v', _, _) = layers env w law v trig in
              let (_, _, sorted, _) = all_layers-Ordered env w law v trig in
              let here : layer_at w.state.nodes e.node_index ≡ m.layer = rw (there, layer_at) in
              sym (
                count-behind w.state.nodes before ix rest n e.node_index
                  (subst (Ordered w.state.nodes) order sorted) at (omega (arith, here, lt)))
              ∙ ap (λ l. count e.node_index l) (sym order)
              ∙ count-rows (all_layers env w).1.state e.node_index v'
              ∙ ap (λ (b : Bool). if b then 1 else 0) (on active)
