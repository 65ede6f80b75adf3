-- ===== src/Graph/Wiring/Layout.antt =====
-- The state that `initialise` lays out over wired nodes: edges back, clean flags and one row for each
-- layer.
use wingfoil.Base.{
  ℕ, zero, suc, ◌+◌, ◌≤◌, ◌<◌, ltb, Bool-cases, inl, inr, ◌≡◌, refl, sym, ap, subst, ◌∙◌, Bool,
  true, false, List, [], ◌∷◌, ◌++◌, some, arith, length, get_elem?, get_or, All-imp, map_some, ◌⊎◌,
  lt_get_elem?, get_elem?_lt,
}
use mathlib.Core.Option.{some-injective}
use mathlib.Core.List.{append_assoc}
use wingfoil.Graph.Effects.{Result, ok, err, panic, diverged, and_then}
use wingfoil.Graph.State.{GraphState, NodeData, Edge, is_some}
use wingfoil.Graph.Env.{Env, World}
use wingfoil.Graph.Wiring.{row_count, link_downstreams, link_nodes, layer_count, empty_rows}
use wingfoil.Graph.Wiring.Invariant.{Registered}
use wingfoil.Graph.Wiring.Links.{LinkedState, Many, Links, link-Links, EdgesOk-From, falses}
use wingfoil.Graph.Cycle.Invariant.{Above, IsValid}
use wingfoil.Graph.Wiring.Layers.{layer_le}
use wingfoil.Graph.Cycle.Whole.{NoTicks}

module _ (env : Env) (spec : ℕ → List (ℕ × Bool)) (s₀ : GraphState) (reg : Registered spec s₀) where
  link_nodes_step :
      (flags flags' : List Bool) (out : Result (Unit {0}) × World env.Store) (i : ℕ)
      (ns : List NodeData)
      → Links s₀ flags out
      → ((w : World env.Store)
          → LinkedState s₀ flags w.state
          → Links s₀ flags' (link_nodes env (i + 1) ns w))
      → Links s₀ flags' (and_then out.0 (λ _. link_nodes env (i + 1) ns) out.1)
  link_nodes_step flags flags' (ok _, w) i ns h rest = rest w h
  link_nodes_step flags flags' (err e, w) i ns h rest = absurd h
  link_nodes_step flags flags' (panic, w) i ns h rest = h
  link_nodes_step flags flags' (diverged, w) i ns h rest = absurd h

  pub link_nodes-Links :
      (ns : List NodeData) (i : ℕ) (flags : List Bool) (w : World env.Store)
      → ((j : ℕ) (n : NodeData) → get_elem? ns j ≡ some n → get_elem? s₀.nodes (i + j) ≡ some n)
      → LinkedState s₀ flags w.state
      → Links s₀ (flags ++ falses ns) (link_nodes env i ns w)
  unfolding link_nodes
  link_nodes-Links [] i flags w sub good = rw (mathlib.Core.List.append-nil flags) good
  link_nodes-Links (n ∷ ns) i flags w sub good =
      let at : get_elem? s₀.nodes i ≡ some n =
        ap (get_elem? s₀.nodes) (omega arith) ∙ sub 0 n refl in
      elim (Bool-cases (ltb n.layer 2147483648)) [
        | inr e ↦
            let many : 2147483648 ≤ n.layer = ground (arith, e) in
            rw (e, link_nodes)
              (omega
                (arith, many, layer_le s₀ reg i n at, get_elem?_lt s₀.nodes i n at, good.sized))
        | inl e ↦
            rw (e, link_nodes)
              (let more = flags ++ false ∷ [] in
                let w' : World env.Store = record w {
                  state = record (w.state) { node_dirty = w.state.node_dirty ++ false ∷ [] };
                } in
                let good' : LinkedState s₀ more w'.state = record {
                  sized = good.sized;
                  layers = good.layers;
                  rising = good.rising;
                  ticks = good.ticks;
                  rows = good.rows;
                  dirty = ap (λ l. l ++ false ∷ []) good.dirty;
                } in
                link_nodes_step more (flags ++ falses (n ∷ ns)) (link_downstreams i n.upstreams w')
                  i ns
                  (link-Links s₀ more i n at n.upstreams
                    (EdgesOk-From (reg.wired i n at) (omega (arith, get_elem?_lt s₀.nodes i n at)))
                    w' good')
                  (λ w'' h.
                    subst (λ l. Links s₀ l (link_nodes env (i + 1) ns w''))
                      (append_assoc flags (false ∷ []) (falses ns))
                      (link_nodes-Links ns (i + 1) more w''
                        (λ j m e. ap (get_elem? s₀.nodes) (omega arith) ∙ sub (suc j) m e) h)))
      ]

length-falses : (ns : List NodeData) → length (falses ns) ≡ length ns
length-falses [] = refl
length-falses (n ∷ ns) = ap suc (length-falses ns)

get_or-falses : (ns : List NodeData) (i : ℕ) → get_or (falses ns) i false ≡ false
get_or-falses [] i = refl
get_or-falses (n ∷ ns) zero = refl
get_or-falses (n ∷ ns) (suc i) = get_or-falses ns i

layer_count_lt :
    (env : Env) (ns : List NodeData) (i : ℕ) (n : NodeData)
    → get_elem? ns i ≡ some n
    → n.layer < layer_count env ns
unfolding layer_count
layer_count_lt env [] i n h = cc
layer_count_lt env (m ∷ ns) zero n h =
    let e : m.layer ≡ n.layer = ap (λ (x : NodeData). x.layer) (some-injective m n h) in
    omega (arith, e)
layer_count_lt env (m ∷ ns) (suc i) n h = omega (arith, layer_count_lt env ns i n h)

layer_count_le :
    (env : Env) (ns : List NodeData) (b : ℕ)
    → ((i : ℕ) (n : NodeData) → get_elem? ns i ≡ some n → n.layer < b)
    → layer_count env ns ≤ b
unfolding layer_count
layer_count_le env [] b h = omega arith
layer_count_le env (n ∷ ns) b h =
    omega (arith, h 0 n refl, layer_count_le env ns b (λ i m at. h (suc i) m at))

length-empty_rows : (env : Env) (n : ℕ) → length (empty_rows env n) ≡ n
unfolding empty_rows
length-empty_rows env zero = refl
length-empty_rows env (suc n) = ap suc (length-empty_rows env n)

get_or-empty_rows : (env : Env) (n l : ℕ) → get_or (empty_rows env n) l [] ≡ []
unfolding empty_rows
get_or-empty_rows env zero l = refl
get_or-empty_rows env (suc n) zero = refl
get_or-empty_rows env (suc n) (suc l) = get_or-empty_rows env n l

-- What `initialise` leaves: a wiring error, or a graph that is ready to run its first cycle.
abbrev pub Ready : GraphState → Type 0
Ready s = (is_some s.wiring_error ≡ true) ⊎ (IsValid s × NoTicks s)

abbrev pub Prepared : {S : Type 0} → Result (Unit {0}) × World S → Type 0
Prepared (ok _, w) = Ready w.state ⊎ Many w.state
Prepared (err e, w) = ⊥
Prepared (panic, w) = Many w.state
Prepared (diverged, w) = ⊥

abbrev pub laid_out : Env → GraphState → GraphState
laid_out env s = record s {
  dirty_nodes_by_layer =
      s.dirty_nodes_by_layer ++ empty_rows env (row_count (layer_count env s.nodes));
}

module _ (env : Env) (spec : ℕ → List (ℕ × Bool)) (s₀ : GraphState) (reg : Registered spec s₀)
    (clear : s₀.dirty_nodes_by_layer ≡ []) (s : GraphState)
    (good : LinkedState s₀ (falses s₀.nodes) s) (few : length s.nodes < 2147483648) where
  Above-linked : (l : ℕ) (e : Edge) → Above s₀.nodes l e → Above s.nodes l e
  Above-linked l e (m₀, there, lt) =
      let (m, here) =
        lt_get_elem? s.nodes e.node_index
          (omega (arith, good.sized, get_elem?_lt s₀.nodes e.node_index m₀ there)) in
      let same : some m.layer ≡ some m₀.layer =
        ap (map_some (λ (n : NodeData). n.layer)) (sym here)
        ∙ good.layers e.node_index
        ∙ ap (map_some (λ (n : NodeData). n.layer)) there in
      (m, here, omega (arith, lt, some-injective _ _ same))

  no_rows : s.dirty_nodes_by_layer ≡ []
  no_rows = good.rows ∙ clear

  layers_few : layer_count env s.nodes ≤ length s.nodes
  layers_few = layer_count_le env s.nodes (length s.nodes) λ i n at.
      let (n₀, there) =
        lt_get_elem? s₀.nodes i (omega (arith, good.sized, get_elem?_lt s.nodes i n at)) in
      let same : some n.layer ≡ some n₀.layer =
        ap (map_some (λ (x : NodeData). x.layer)) (sym at)
        ∙ good.layers i
        ∙ ap (map_some (λ (x : NodeData). x.layer)) there in
      omega (
        arith,
        some-injective _ _ same,
        layer_le s₀ reg i n₀ there,
        get_elem?_lt s₀.nodes i n₀ there,
        good.sized,
      )

  all_rows : row_count (layer_count env s.nodes) ≡ layer_count env s.nodes
  all_rows = small (layer_count env s.nodes) (omega (arith, layers_few, few))
    where
      small : (n : ℕ) → n < 2147483648 → row_count n ≡ n
      small n h = ground (arith, h)

  pub laid_out-IsValid : IsValid (laid_out env s)
  laid_out-IsValid = record {
    flags = ap length good.dirty ∙ length-falses s₀.nodes ∙ sym good.sized;
    ticks = ap length good.ticks ∙ reg.sized ∙ sym good.sized;
    wired = record {
      layered = λ ix n at.
          let rows : length
                (s.dirty_nodes_by_layer ++ empty_rows env (row_count (layer_count env s.nodes)))
              ≡ layer_count env s.nodes =
            rw no_rows (length-empty_rows env (row_count (layer_count env s.nodes)) ∙ all_rows) in
          omega (arith, layer_count_lt env s.nodes ix n at, rows);
      rising = λ ix n at. All-imp (Above-linked n.layer) n.downstreams (good.rising ix n at);
    };
    rows = λ ix l.
        rw (no_rows, good.dirty)
          (rw
            (
              get_or-empty_rows env (row_count (layer_count env s.nodes)) l,
              get_or-falses s₀.nodes ix,
            )
            refl);
  }

  pub laid_out-NoTicks : NoTicks (laid_out env s)
  laid_out-NoTicks ix = rw good.ticks (reg.quiet ix)
