-- ===== src/Graph/Wiring/Links.antt =====
-- The second half of `initialise`: the edges from upstreams back to the nodes that they feed.
use wingfoil.Base.{
  ℕ, ◌≤◌, ◌<◌, ◌≡◌, refl, sym, ap, subst, ◌∙◌, Bool, false, List, [], ◌∷◌, ◌++◌, Option, none, some,
  arith, ◌==◌, length, get_elem?, modify_elem, map_some, All, All-append, length-modify_elem,
  get_elem?-modify_elem, get_elem?_lt, lt_get_elem?, Bool-cases, Option-cases, inl, inr, ==_iff,
}
use mathlib.Core.Option.{some-injective}
use wingfoil.Graph.Effects.{Result, ok, err, panic, diverged, and_then}
use wingfoil.Graph.State.{GraphState, NodeData, Edge}
use wingfoil.Graph.Env.{World, updated}
use wingfoil.Graph.Wiring.{push_downstream, link_downstreams}
use wingfoil.Graph.Wiring.Invariant.{EdgesOk, Below, level, layer_at}
use wingfoil.Graph.Cycle.Invariant.{Above}

abbrev layer_of : Option NodeData → Option ℕ
layer_of o = map_some (λ (n : NodeData). n.layer) o

-- The edge comes from a node on an earlier layer.
abbrev From : List NodeData → ℕ → Edge → Type 0
From nodes l e = (m : NodeData) × (get_elem? nodes e.node_index ≡ some m) × (m.layer < l)

edges-From :
    (nodes : List NodeData) (bound l : ℕ) (es : List Edge)
    → Below bound es
    → bound ≤ length nodes
    → level nodes es ≤ l
    → All (From nodes l) es
edges-From nodes bound l [] h le up = tt
edges-From nodes bound l (e ∷ es) h le up =
    let (m, at) = lt_get_elem? nodes e.node_index (omega (arith, h.0)) in
    let here : layer_at nodes e.node_index ≡ m.layer = rw (at, layer_at) in
    ((m, at, omega (arith, here)), edges-From nodes bound l es h.1 le (omega arith))

-- The state `s` is `s₀` with some edges back and with other clean flags.
pub record LinkedState (s₀ : GraphState) (flags : List Bool) (s : GraphState) : Type 0 where
  pub sized : length s.nodes ≡ length s₀.nodes
  pub layers : (i : ℕ) → layer_of (get_elem? s.nodes i) ≡ layer_of (get_elem? s₀.nodes i)
  pub rising :
      (i : ℕ) (n : NodeData)
      → get_elem? s.nodes i ≡ some n
      → All (Above s₀.nodes n.layer) n.downstreams
  pub ticks : s.node_ticked ≡ s₀.node_ticked
  pub rows : s.dirty_nodes_by_layer ≡ s₀.dirty_nodes_by_layer
  pub dirty : s.node_dirty ≡ flags

abbrev with_edge : Edge → NodeData → NodeData
with_edge e n = record n { downstreams = n.downstreams ++ e ∷ [] }

layer_of-with_edge :
    (e : Edge) (o : Option NodeData) → layer_of (map_some (with_edge e) o) ≡ layer_of o
layer_of-with_edge e none = refl
layer_of-with_edge e (some n) = refl

abbrev OptLinked : GraphState → List Bool → Option GraphState → Type 0
OptLinked s₀ flags none = ⊥
OptLinked s₀ flags (some t) = LinkedState s₀ flags t

-- As many nodes as no layer count of 32 bits can hold.
abbrev pub Many : GraphState → Type 0
Many s = 2147483648 ≤ length s.nodes

abbrev pub Links : {S : Type 0} → GraphState → List Bool → Result (Unit {0}) × World S → Type 0
Links s₀ flags (ok _, w) = LinkedState s₀ flags w.state
Links s₀ flags (err e, w) = ⊥
Links s₀ flags (panic, w) = Many w.state
Links s₀ flags (diverged, w) = ⊥

module _ (s₀ : GraphState) (flags : List Bool) (s : GraphState) (good : LinkedState s₀ flags s)
    (i : ℕ) (n : NodeData) (edge : Edge) (at : get_elem? s₀.nodes i ≡ some n)
    (from : From s₀.nodes n.layer edge) where
  abbrev back : Edge
  back = record { node_index = i; active = edge.active }

  pushed_layers :
      (k : ℕ)
      → layer_of (get_elem? (modify_elem (with_edge back) s.nodes edge.node_index) k)
        ≡ layer_of (get_elem? s₀.nodes k)
  pushed_layers k = elim (Bool-cases (edge.node_index == k)) [
    | inl e ↦
        rw (get_elem?-modify_elem (with_edge back) s.nodes edge.node_index k, e)
          (layer_of-with_edge back (get_elem? s.nodes k) ∙ good.layers k)
    | inr e ↦
        rw (get_elem?-modify_elem (with_edge back) s.nodes edge.node_index k, e) (good.layers k)
  ]

  -- The node that gets the edge has kept its layer.
  pushed_rises :
      (m : NodeData)
      → get_elem? s.nodes edge.node_index ≡ some m
      → All (Above s₀.nodes m.layer) (with_edge back m).downstreams
  pushed_rises m here =
      let (m₀, there, lt) = from in
      let same : some m.layer ≡ some m₀.layer =
        ap layer_of (sym here) ∙ good.layers edge.node_index ∙ ap layer_of there in
      let e : m.layer ≡ m₀.layer = some-injective _ _ same in
      All-append (Above s₀.nodes m.layer) m.downstreams (back ∷ [])
        (good.rising edge.node_index m here) ((n, at, omega (arith, e, lt)), tt)

  pushed_rising :
      (k : ℕ) (m : NodeData)
      → get_elem? (modify_elem (with_edge back) s.nodes edge.node_index) k ≡ some m
      → All (Above s₀.nodes m.layer) m.downstreams
  pushed_rising k m h = elim (Bool-cases (edge.node_index == k)) [
    | inl e ↦ elim (Option-cases (get_elem? s.nodes k)) [
      | inl gone ↦
          let bad : none ≡ some m =
            rw (get_elem?-modify_elem (with_edge back) s.nodes edge.node_index k, e, gone) at h in
          absurd (cc)
      | inr (m', here) ↦
          let hit : some (with_edge back m') ≡ some m =
            rw (get_elem?-modify_elem (with_edge back) s.nodes edge.node_index k, e, here) at h in
          let same : edge.node_index ≡ k = (==_iff edge.node_index k).0 e in
          subst (λ (x : NodeData). All (Above s₀.nodes x.layer) x.downstreams)
            (some-injective _ _ hit) (pushed_rises m' (ap (get_elem? s.nodes) same ∙ here))
    ]
    | inr e ↦
        good.rising k m
          (rw (get_elem?-modify_elem (with_edge back) s.nodes edge.node_index k, e) at h)
  ]

  push-LinkedState : OptLinked s₀ flags (push_downstream edge.node_index back s)
  unfolding push_downstream
  push-LinkedState =
      let (m₀, there, lt) = from in
      let (m, here) =
        lt_get_elem? s.nodes edge.node_index
          (omega (arith, good.sized, get_elem?_lt s₀.nodes edge.node_index m₀ there)) in
      rw (here, OptLinked)
        (record {
          sized = length-modify_elem (with_edge back) s.nodes edge.node_index ∙ good.sized;
          layers = pushed_layers;
          rising = pushed_rising;
          ticks = good.ticks;
          rows = good.rows;
          dirty = good.dirty;
        })

link-Links_step :
    {S : Type 0} (s₀ : GraphState) (flags : List Bool) (i : ℕ) (es : List Edge) (w : World S)
    → ((w : World S) → LinkedState s₀ flags w.state → Links s₀ flags (link_downstreams i es w))
    → (o : Option GraphState) → OptLinked s₀ flags o
    → Links s₀ flags (and_then (updated o w).0 (λ _. link_downstreams i es) (updated o w).1)
link-Links_step s₀ flags i es w rest none h = absurd h
link-Links_step s₀ flags i es w rest (some t) h = rest (record w { state = t }) h

module _ {S : Type 0} (s₀ : GraphState) (flags : List Bool) (i : ℕ) (n : NodeData)
    (at : get_elem? s₀.nodes i ≡ some n) where
  pub link-Links :
      (es : List Edge)
      → All (From s₀.nodes n.layer) es
      → (w : World S) → LinkedState s₀ flags w.state
      → Links s₀ flags (link_downstreams i es w)
  unfolding link_downstreams
  link-Links [] from w good = good
  link-Links (e ∷ es) from w good =
      link-Links_step s₀ flags i es w (link-Links es from.1)
        (push_downstream e.node_index (record { node_index = i; active = e.active }) w.state)
        (push-LinkedState s₀ flags w.state good i n e at from.0)

-- The flags that `link_nodes` adds.
abbrev pub falses : List NodeData → List Bool
falses [] = []
falses (n ∷ ns) = false ∷ falses ns

-- Wired nodes come from earlier layers.
pub EdgesOk-From :
    {nodes : List NodeData} {i l : ℕ} {es : List Edge} {ups : List (ℕ × Bool)}
    → EdgesOk nodes i l es ups
    → i ≤ length nodes
    → All (From nodes l) es
EdgesOk-From {nodes = nodes} {i = i} {l = l} {es = es} ok_ le =
    edges-From nodes i l es ok_.earlier le (omega (arith, ok_.least))
