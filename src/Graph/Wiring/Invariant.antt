-- ===== src/Graph/Wiring/Invariant.antt =====
-- What holds of the registered nodes and of the frames on the work stack of `initialise_node`, and that
-- the steps `finalise` and `advance` keep it.
use mathlib.Core.List.{map-append}
use mathlib.Core.Path.{ap₂}
use wingfoil.Base.{
  ℕ, suc, ◌+◌, ◌≤◌, ◌<◌, max, ◌≡◌, refl, sym, ap, ◌∙◌, Bool, true, false, List, [], ◌∷◌, ◌++◌, none,
  some, map, arith, ◌==◌, length, get_elem?, All, All-append, All-imp, take, take-suc, take_all,
  length-append, get_elem?-append_lt, get_elem?-append_length, get_elem?-snoc, get_elem?_lt, get_or,
  get_or-snoc, Bool-cases, inl, inr, ==_iff,
}
use wingfoil.Graph.State.{GraphState, NodeData, Edge, lookup}
use wingfoil.Graph.Wiring.{WiringFrame, finalise, advance}

-- One more than the layers of all nodes that the edges lead to.
abbrev pub layer_at : List NodeData → ℕ → ℕ
layer_at nodes x = elim (get_elem? nodes x) [ none ↦ 0 | some n ↦ n.layer ]

abbrev pub level : List NodeData → List Edge → ℕ
level nodes [] = 0
level nodes (e ∷ es) = max (layer_at nodes e.node_index + 1) (level nodes es)

-- The nodes that the edges lead to, by address, with the kind of the edge.
abbrev pub target : List NodeData → Edge → ℕ × Bool
target nodes e = (elim (get_elem? nodes e.node_index) [ none ↦ 0 | some n ↦ n.node ], e.active)

abbrev pub Below : ℕ → List Edge → Type 0
Below n es = All (λ e. e.node_index < n) es

-- Edges to nodes before `bound` that are the upstreams `ups`, and the least layer behind them.
pub record EdgesOk (nodes : List NodeData) (bound layer : ℕ) (es : List Edge)
    (ups : List (ℕ × Bool)) : Type 0 where
  pub earlier : Below bound es
  pub least : layer ≡ level nodes es
  pub agree : map (target nodes) es ≡ ups

level-append :
    (nodes more : List NodeData) (es : List Edge)
    → Below (length nodes) es
    → level (nodes ++ more) es ≡ level nodes es
level-append nodes more [] h = refl
level-append nodes more (e ∷ es) h =
    rw (get_elem?-append_lt nodes more e.node_index h.0, layer_at)
      (rw (level-append nodes more es h.1))

targets-append :
    (nodes more : List NodeData) (es : List Edge)
    → Below (length nodes) es
    → map (target (nodes ++ more)) es ≡ map (target nodes) es
targets-append nodes more [] h = refl
targets-append nodes more (e ∷ es) h =
    rw (get_elem?-append_lt nodes more e.node_index h.0, target)
      (rw (targets-append nodes more es h.1))

EdgesOk-append :
    {bound layer : ℕ} {es : List Edge} {ups : List (ℕ × Bool)} (nodes more : List NodeData)
    → bound ≤ length nodes
    → EdgesOk nodes bound layer es ups
    → EdgesOk (nodes ++ more) bound layer es ups
EdgesOk-append {es = es} nodes more le good =
    let below = All-imp (λ (e : Edge) h. omega arith) es good.earlier in
    record {
      earlier = good.earlier;
      least = good.least ∙ sym (level-append nodes more es below);
      agree = targets-append nodes more es below ∙ good.agree;
    }

level-snoc :
    (nodes : List NodeData) (es : List Edge) (e : Edge)
    → level nodes (es ++ e ∷ []) ≡ max (level nodes es) (layer_at nodes e.node_index + 1)
level-snoc nodes [] e = omega arith
level-snoc nodes (x ∷ es) e = omega (arith, level-snoc nodes es e)

-- `spec` gives the upstreams of a node by its address.
module _ (spec : ℕ → List (ℕ × Bool)) where
  pub record Registered (s : GraphState) : Type 0 where
    pub sized : length s.node_ticked ≡ length s.nodes
    pub found :
        (a i : ℕ)
        → lookup a s.node_to_index ≡ some i
        → (n : NodeData) × (get_elem? s.nodes i ≡ some n) × (n.node ≡ a)
    pub wired :
        (i : ℕ) (n : NodeData)
        → get_elem? s.nodes i ≡ some n
        → EdgesOk s.nodes i n.layer n.upstreams (spec n.node)
    pub unlinked : (i : ℕ) (n : NodeData) → get_elem? s.nodes i ≡ some n → n.downstreams ≡ []
    pub quiet : (i : ℕ) → get_or s.node_ticked i false ≡ false

  pub record FrameOk (nodes : List NodeData) (f : WiringFrame) : Type 0 where
    pub source : f.upstreams ≡ spec f.node
    pub sofar : EdgesOk nodes (length nodes) f.layer f.edges (take f.next f.upstreams)

  pub FrameOk-append :
      (nodes : List NodeData) (n : NodeData) (f : WiringFrame)
      → FrameOk nodes f
      → FrameOk (nodes ++ n ∷ []) f
  FrameOk-append nodes n f good =
      let more = EdgesOk-append nodes (n ∷ []) (omega arith) good.sofar in
      record {
        source = good.source;
        sofar = record {
          earlier =
              All-imp (λ (e : Edge) h. omega (arith, length-append nodes (n ∷ []))) f.edges
                more.earlier;
          least = more.least;
          agree = more.agree;
        };
      }

  pub advance-FrameOk :
      (nodes : List NodeData) (f : WiringFrame) (idx : ℕ) (n : NodeData) (up : ℕ) (active : Bool)
      → FrameOk nodes f
      → get_elem? nodes idx ≡ some n
      → n.node ≡ up
      → get_elem? f.upstreams f.next ≡ some (up, active)
      → FrameOk nodes (advance f idx n.layer active)
  unfolding advance
  advance-FrameOk nodes f idx n up active good at same here =
      let edge : Edge = record { node_index = idx; active = active } in
      let to : layer_at nodes idx ≡ n.layer = rw (at, layer_at) in
      let hit : target nodes edge ≡ (up, active) = rw (at, target) (ap (λ k. (k, active)) same) in
      let next : suc f.next ≡ f.next + 1 = omega arith in
      record {
        source = good.source;
        sofar = record {
          earlier =
              All-append (λ (e : Edge). e.node_index < length nodes) f.edges (edge ∷ [])
                good.sofar.earlier (get_elem?_lt nodes idx n at, tt);
          least = omega (arith, level-snoc nodes f.edges edge, good.sofar.least, to);
          agree =
              map-append (target nodes) f.edges (edge ∷ [])
              ∙ ap₂ (λ xs (x : ℕ × Bool). xs ++ x ∷ []) good.sofar.agree hit
              ∙ sym (take-suc f.upstreams f.next (up, active) here)
              ∙ ap (λ k. take k f.upstreams) next;
        };
      }

  -- The node that `finalise` appends.
  abbrev pub wired_node : WiringFrame → NodeData
  wired_node f = record {
    node = f.node;
    upstreams = f.edges;
    downstreams = [];
    layer = f.layer;
    active = true;
  }

  finalise_found :
      (f : WiringFrame) (s : GraphState)
      → Registered s
      → (a i : ℕ) → lookup a (finalise f s).node_to_index ≡ some i
      → (n : NodeData) × (get_elem? (finalise f s).nodes i ≡ some n) × (n.node ≡ a)
  unfolding finalise
  finalise_found f s good a i h = elim (Bool-cases (f.node == a)) [
    | inl same ↦
        let last : length s.nodes ≡ i = ground (arith, h, same, good.sized) in
        (
          wired_node f,
          rw (← last) (get_elem?-append_length s.nodes [] (wired_node f)),
          (==_iff f.node a).0 same,
        )
    | inr other ↦
        let old : lookup a s.node_to_index ≡ some i = ground (arith, h, other) in
        let (n, at, e) = good.found a i old in
        (n, get_elem?-append_lt s.nodes (wired_node f ∷ []) i (get_elem?_lt s.nodes i n at) ∙ at, e)
  ]

  finalise_wired :
      (f : WiringFrame) (s : GraphState)
      → Registered s
      → FrameOk s.nodes f
      → get_elem? f.upstreams f.next ≡ none
      → (i : ℕ) (n : NodeData) → get_elem? (finalise f s).nodes i ≡ some n
      → EdgesOk (finalise f s).nodes i n.layer n.upstreams (spec n.node) × (n.downstreams ≡ [])
  unfolding finalise
  finalise_wired f s good frame done i n h = elim (get_elem?-snoc s.nodes (wired_node f) i n h) [
    | inl old ↦ (
      EdgesOk-append s.nodes (wired_node f ∷ []) (omega (arith, get_elem?_lt s.nodes i n old))
          (good.wired i n old),
      good.unlinked i n old,
    )
    | inr (e, last) ↦
        let mine = EdgesOk-append s.nodes (wired_node f ∷ []) (omega arith) frame.sofar in
        let here : EdgesOk (s.nodes ++ wired_node f ∷ []) (length s.nodes) f.layer f.edges
            (spec f.node) =
          record {
            earlier = mine.earlier;
            least = mine.least;
            agree = mine.agree ∙ take_all f.upstreams f.next done ∙ frame.source;
          } in
        rw (last, e) (here, refl)
  ]

  pub finalise-Registered :
      (f : WiringFrame) (s : GraphState)
      → Registered s
      → FrameOk s.nodes f
      → get_elem? f.upstreams f.next ≡ none
      → Registered (finalise f s)
  unfolding finalise
  finalise-Registered f s good frame done = record {
    sized = omega (
      arith,
      good.sized,
      length-append s.node_ticked (false ∷ []),
      length-append s.nodes (wired_node f ∷ []),
    );
    found = finalise_found f s good;
    wired = λ i n h. (finalise_wired f s good frame done i n h).0;
    unlinked = λ i n h. (finalise_wired f s good frame done i n h).1;
    quiet = λ i. get_or-snoc s.node_ticked i false good.quiet;
  }

  abbrev pub Frames : GraphState → List WiringFrame → Type 0
  Frames s stack = All (FrameOk s.nodes) stack

  pub new_frame-FrameOk :
      (nodes : List NodeData) (f : WiringFrame)
      → f.upstreams ≡ spec f.node
      → f.next ≡ 0
      → f.layer ≡ 0
      → f.edges ≡ []
      → FrameOk nodes f
  new_frame-FrameOk nodes f source next layer edges = record {
    source = source;
    sofar = record { earlier = rw edges tt; least = rw edges layer; agree = rw (edges, next) refl };
  }
