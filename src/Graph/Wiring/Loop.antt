-- ===== src/Graph/Wiring/Loop.antt =====
-- `initialise_node` and its loop over the work stack of frames.
use wingfoil.Base.{
  ℕ, zero, suc, ◌≡◌, refl, sym, subst, Bool, true, false, not, List, [], ◌∷◌, none, some, any,
  filter_by, ◌==◌, get_elem?, All-imp, Option-cases, Bool-cases, inl, inr,
}
use wingfoil.Graph.Effects.{Error, Result, ok, err, panic, diverged, and_then, ◌>>=◌, expect}
use wingfoil.Graph.State.{NodeData, lookup, node_index}
use wingfoil.Graph.Env.{Env, World, get}
use wingfoil.Graph.Wiring.{
  WiringFrame, declared, new_frame, finalise, advance, wire, initialise_node,
}
use wingfoil.Graph.Wiring.Invariant.{
  Registered, Frames, wired_node, finalise-Registered, FrameOk-append, new_frame-FrameOk,
  advance-FrameOk,
}

module _ (env : Env) where
  open env use {Store, upstreams, fuel}

  -- What wiring leaves behind, however it ends: the store and the rows of dirty nodes are untouched,
  -- and the nodes are registered.
  abbrev pub StillRegistered : {A : Type 0} → World Store → Result A × World Store → Type 0
  StillRegistered w out =
      (out.1.store ≡ w.store)
      × (out.1.state.node_dirty ≡ w.state.node_dirty)
      × (out.1.state.dirty_nodes_by_layer ≡ w.state.dirty_nodes_by_layer)
      × (out.1.state.wiring_error ≡ w.state.wiring_error)
      × Registered (declared env w.store) out.1.state

  module _ (rounds : ℕ) (f : WiringFrame) (stack : List WiringFrame) (in_progress : List ℕ)
      (w : World Store) where
    pub wire-finalise :
        get_elem? f.upstreams f.next ≡ none
        → wire env (suc rounds) (f ∷ stack) in_progress w
          ≡ wire env rounds stack
              (filter_by (λ n. not (n == f.node)) in_progress)
              (record w { state = finalise f w.state })
    unfolding wire
    wire-finalise e = rw (e, wire)

    pub wire-advance :
        (up : ℕ) (active : Bool) (idx : ℕ) (n : NodeData)
        → get_elem? f.upstreams f.next ≡ some (up, active)
        → lookup up w.state.node_to_index ≡ some idx
        → get_elem? w.state.nodes idx ≡ some n
        → wire env (suc rounds) (f ∷ stack) in_progress w
          ≡ wire env rounds (advance f idx n.layer active ∷ stack) in_progress w
    unfolding wire node_index
    wire-advance up active idx n e at here = rw (e, wire, at, here)

    pub wire_push :
        (up : ℕ) (active : Bool)
        → get_elem? f.upstreams f.next ≡ some (up, active)
        → lookup up w.state.node_to_index ≡ none
        → any (λ n. n == up) in_progress ≡ false
        → wire env (suc rounds) (f ∷ stack) in_progress w
          ≡ wire env rounds (new_frame env w.store up ∷ f ∷ stack) (up ∷ in_progress) w
    unfolding wire node_index
    wire_push up active e at fresh = rw (e, wire, at, fresh)

    pub wire_cycle :
        (up : ℕ) (active : Bool)
        → get_elem? f.upstreams f.next ≡ some (up, active)
        → lookup up w.state.node_to_index ≡ none
        → any (λ n. n == up) in_progress ≡ true
        → wire env (suc rounds) (f ∷ stack) in_progress w ≡ (err (Error.cycle_detected up), w)
    unfolding wire node_index
    wire_cycle up active e at again = rw (e, wire, at, again)

  wire-Registered :
      (rounds : ℕ) (stack : List WiringFrame) (in_progress : List ℕ) (w : World Store)
      → Registered (declared env w.store) w.state
      → Frames (declared env w.store) w.state stack
      → StillRegistered w (wire env rounds stack in_progress w)
  unfolding wire new_frame finalise
  wire-Registered rounds [] in_progress w good frames = (refl, refl, refl, refl, good)
  wire-Registered zero (f ∷ stack) in_progress w good frames = (refl, refl, refl, refl, good)
  wire-Registered (suc rounds) (f ∷ stack) in_progress w good frames =
      let spec = declared env w.store in
      elim (Option-cases (get_elem? f.upstreams f.next)) [
        | inl e ↦ subst (StillRegistered w) (sym (wire-finalise rounds f stack in_progress w e)) (
            wire-Registered rounds stack _ (record w { state = finalise f w.state })
              (finalise-Registered spec f w.state good frames.0 e)
              (All-imp (FrameOk-append spec w.state.nodes (wired_node spec f)) stack frames.1))
        | inr ((up, active), e) ↦ elim (Option-cases (lookup up w.state.node_to_index)) [
          | inl fresh ↦ elim (Bool-cases (any (λ n. n == up) in_progress)) [
            | inl again ↦
                subst (StillRegistered w)
                  (sym (wire_cycle rounds f stack in_progress w up active e fresh again))
                  (refl, refl, refl, refl, good)
            | inr new ↦
                subst (StillRegistered w)
                  (sym (wire_push rounds f stack in_progress w up active e fresh new))
                  (wire-Registered rounds (new_frame env w.store up ∷ f ∷ stack) (up ∷ in_progress)
                    w good
                    (
                      new_frame-FrameOk spec w.state.nodes (new_frame env w.store up) refl refl refl
                          refl,
                      frames,
                    ))
          ]
          | inr (idx, at) ↦
              let (n, here, same) = good.found up idx at in
              subst (StillRegistered w)
                (sym (wire-advance rounds f stack in_progress w up active idx n e at here))
                (wire-Registered rounds (advance f idx n.layer active ∷ stack) in_progress w good (
                  advance-FrameOk spec w.state.nodes f idx n up active frames.0 here same e,
                  frames.1,
                ))
        ]
      ]

  found-Registered :
      (w₀ : World Store) (root : ℕ) (out : Result (Unit {0}) × World Store)
      → StillRegistered w₀ out
      → StillRegistered w₀
          (and_then out.0 (λ _. get >>= λ wired. expect (lookup root wired.node_to_index)) out.1)
  found-Registered w₀ root (ok _, w) good =
      elim (Option-cases (lookup root w.state.node_to_index)) [
        | inl e ↦ rw e good
        | inr (idx, e) ↦ rw e good
      ]
  found-Registered w₀ root (err e, w) good = good
  found-Registered w₀ root (panic, w) good = good
  found-Registered w₀ root (diverged, w) good = good

  -- Whether wiring from a root succeeds, finds a cycle or runs out of fuel, it leaves the store,
  -- the rows and flags of dirty nodes and the wiring error alone, and every registered node
  -- stands after all its upstreams, on the least layer behind them, with exactly the upstream
  -- edges that it declares, without downstreams and not ticked, if this held of the nodes that
  -- were registered before.
  pub initialise_node-Registered :
      (root : ℕ) (w : World Store)
      → Registered (declared env w.store) w.state
      → StillRegistered w (initialise_node env root w)
  unfolding initialise_node node_index new_frame
  initialise_node-Registered root w good = elim (Option-cases (lookup root w.state.node_to_index)) [
    | inr (idx, e) ↦
        let step : initialise_node env root w ≡ (ok idx, w) = rw (e, and_then) in
        subst (StillRegistered w) (sym step) (refl, refl, refl, refl, good)
    | inl e ↦
        let out = wire env fuel (new_frame env w.store root ∷ []) (root ∷ []) w in
        let step : initialise_node env root w
            ≡ and_then out.0 (λ _. get >>= λ wired. expect (lookup root wired.node_to_index))
                out.1 =
          rw (e, and_then) in
        subst (StillRegistered w) (sym step) (
          found-Registered w root out (
            wire-Registered fuel (new_frame env w.store root ∷ []) (root ∷ []) w good (
              new_frame-FrameOk (declared env w.store) w.state.nodes (new_frame env w.store root)
                  refl refl refl refl,
              tt,
            )))
  ]
