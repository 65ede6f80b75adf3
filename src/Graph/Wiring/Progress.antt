-- ===== src/Graph/Wiring/Progress.antt =====
-- Wiring never panics, and registers every node that it was asked for.
use wingfoil.Base.{
  ℕ, zero, suc, ◌≡◌, refl, sym, subst, true, false, not, List, [], ◌∷◌, any, filter_by, ◌==◌,
  get_elem?, All, All-imp, Option-cases, Bool-cases, inl, inr, arith,
}
use wingfoil.Graph.Effects.{Result, ok, err, panic, diverged, and_then, ◌>>=◌, expect}
use wingfoil.Graph.State.{GraphState, lookup, is_some, node_index}
use wingfoil.Graph.Env.{Env, World, get}
use wingfoil.Graph.Wiring.{
  WiringFrame, declared, new_frame, finalise, advance, wire, initialise_node,
}
use wingfoil.Graph.Wiring.Invariant.{
  Registered, Frames, wired_node, finalise-Registered, FrameOk-append, new_frame-FrameOk,
  advance-FrameOk,
}
use wingfoil.Graph.Wiring.Loop.{wire-finalise, wire-advance, wire_push, wire_cycle}

abbrev pub Known : GraphState → ℕ → Type 0
Known s a = is_some (lookup a s.node_to_index) ≡ true

finalise-Known : (f : WiringFrame) (s : GraphState) (a : ℕ) → Known s a → Known (finalise f s) a
unfolding finalise
finalise-Known f s a h = ground (arith, h)

finalise_knows : (f : WiringFrame) (s : GraphState) → Known (finalise f s) f.node
unfolding finalise
finalise_knows f s = ground arith

abbrev pub NotPanic {ℓ} : {A : Type ℓ} → Result A → Type 0
NotPanic panic = ⊥
NotPanic r = Unit

module _ (env : Env) where
  open env use {Store, upstreams, fuel}

  -- No panic, and if wiring succeeds the nodes of the stack are known, with those known before.
  abbrev pub Reaches : List ℕ → World Store → Result (Unit {0}) × World Store → Type 0
  Reaches asked w (ok _, w') =
      All (Known w'.state) asked × ((a : ℕ) → Known w.state a → Known w'.state a)
  Reaches asked w (err e, w') = Unit
  Reaches asked w (panic, w') = ⊥
  Reaches asked w (diverged, w') = Unit

  abbrev nodes_of : List WiringFrame → List ℕ
  nodes_of [] = []
  nodes_of (f ∷ stack) = f.node ∷ nodes_of stack

  Reaches-fewer :
      (a : ℕ) (asked : List ℕ) (w : World Store) (out : Result (Unit {0}) × World Store)
      → Reaches (a ∷ asked) w out
      → Reaches asked w out
  Reaches-fewer a asked w (ok _, w') h = (h.0.1, h.1)
  Reaches-fewer a asked w (err e, w') h = tt
  Reaches-fewer a asked w (panic, w') h = h
  Reaches-fewer a asked w (diverged, w') h = tt

  Reaches-finalise :
      (f : WiringFrame) (asked : List ℕ) (w : World Store) (out : Result (Unit {0}) × World Store)
      → Reaches asked (record w { state = finalise f w.state }) out
      → Reaches (f.node ∷ asked) w out
  Reaches-finalise f asked w (ok _, w') h = (
    (h.1 f.node (finalise_knows f w.state), h.0),
    λ a known. h.1 a (finalise-Known f w.state a known),
  )
  Reaches-finalise f asked w (err e, w') h = tt
  Reaches-finalise f asked w (panic, w') h = h
  Reaches-finalise f asked w (diverged, w') h = tt

  wire-Reaches :
      (rounds : ℕ) (stack : List WiringFrame) (in_progress : List ℕ) (w : World Store)
      → Registered (declared env w.store) w.state
      → Frames (declared env w.store) w.state stack
      → Reaches (nodes_of stack) w (wire env rounds stack in_progress w)
  unfolding wire new_frame finalise advance
  wire-Reaches rounds [] in_progress w good frames = (tt, λ a h. h)
  wire-Reaches zero (f ∷ stack) in_progress w good frames = tt
  wire-Reaches (suc rounds) (f ∷ stack) in_progress w good frames =
      let spec = declared env w.store in
      let asked = nodes_of (f ∷ stack) in
      elim (Option-cases (get_elem? f.upstreams f.next)) [
        | inl e ↦
            let w' : World Store = record w { state = finalise f w.state } in
            subst (Reaches asked w) (sym (wire-finalise env rounds f stack in_progress w e)) (
              Reaches-finalise f (nodes_of stack) w _ (
                wire-Reaches rounds stack (filter_by (λ n. not (n == f.node)) in_progress) w'
                  (finalise-Registered spec f w.state good frames.0 e)
                  (All-imp (FrameOk-append spec w.state.nodes (wired_node spec f)) stack frames.1)))
        | inr ((up, active), e) ↦ elim (Option-cases (lookup up w.state.node_to_index)) [
          | inl fresh ↦ elim (Bool-cases (any (λ n. n == up) in_progress)) [
            | inl again ↦
                subst (Reaches asked w)
                  (sym (wire_cycle env rounds f stack in_progress w up active e fresh again)) tt
            | inr new ↦
                subst (Reaches asked w)
                  (sym (wire_push env rounds f stack in_progress w up active e fresh new))
                  (Reaches-fewer up asked w _ (
                    wire-Reaches rounds (new_frame env w.store up ∷ f ∷ stack) (up ∷ in_progress) w
                      good
                      (
                        new_frame-FrameOk spec w.state.nodes (new_frame env w.store up) refl refl
                            refl refl,
                        frames,
                      )))
          ]
          | inr (idx, at) ↦
              let (n, here, same) = good.found up idx at in
              subst (Reaches asked w)
                (sym (wire-advance env rounds f stack in_progress w up active idx n e at here))
                (wire-Reaches rounds (advance f idx n.layer active ∷ stack) in_progress w good (
                  advance-FrameOk spec w.state.nodes f idx n up active frames.0 here same e,
                  frames.1,
                ))
        ]
      ]

  found-NotPanic :
      (root : ℕ) (w : World Store) (out : Result (Unit {0}) × World Store)
      → Reaches (root ∷ []) w out
      → NotPanic
          (and_then out.0 (λ _. get >>= λ wired. expect (lookup root wired.node_to_index)) out.1).0
  found-NotPanic root w (ok _, w') h = elim (Option-cases (lookup root w'.state.node_to_index)) [
    | inl e ↦ let bad : false ≡ true = rw e at h.0.0 in absurd (cc)
    | inr (idx, e) ↦ rw e tt
  ]
  found-NotPanic root w (err e, w') h = tt
  found-NotPanic root w (panic, w') h = h
  found-NotPanic root w (diverged, w') h = tt

  -- Wiring from a root never panics if the nodes that are registered are well wired.
  pub initialise_node-NotPanic :
      (root : ℕ) (w : World Store)
      → Registered (declared env w.store) w.state
      → NotPanic (initialise_node env root w).0
  unfolding initialise_node node_index new_frame
  initialise_node-NotPanic root w good = elim (Option-cases (lookup root w.state.node_to_index)) [
    | inr (idx, e) ↦
        let step : initialise_node env root w ≡ (ok idx, w) = rw (e, and_then) in
        subst (λ (out : Result ℕ × World Store). NotPanic out.0) (sym step) tt
    | inl e ↦
        let out = wire env fuel (new_frame env w.store root ∷ []) (root ∷ []) w in
        let step : initialise_node env root w
            ≡ and_then out.0 (λ _. get >>= λ wired. expect (lookup root wired.node_to_index))
                out.1 =
          rw (e, and_then) in
        subst (λ (out : Result ℕ × World Store). NotPanic out.0) (sym step)
          (found-NotPanic root w out (
            wire-Reaches fuel (new_frame env w.store root ∷ []) (root ∷ []) w good (
              new_frame-FrameOk (declared env w.store) w.state.nodes (new_frame env w.store root)
                  refl refl refl refl,
              tt,
            )))
  ]
