-- ===== src/Graph/Wiring/Termination.antt =====
-- The loop of `initialise_node` ends on a finite set of nodes.
use wingfoil.Base.{
  ℕ, zero, suc, ◌+◌, ◌≤◌, ◌≡◌, refl, sym, subst, Bool, false, not, List, [], ◌∷◌, arith, any,
  filter_by, ◌==◌, length, get_elem?, get_elem?_lt, All, All-get, Option-cases, Bool-cases, inl,
  inr,
}
use wingfoil.Graph.Effects.{Result, ok, err, panic, diverged, and_then, ◌>>=◌, expect}
use wingfoil.Graph.State.{lookup, node_index}
use wingfoil.Graph.Env.{Env, World, get}
use wingfoil.Graph.Ends.{NotDiverged}
use wingfoil.Graph.Wiring.{
  WiringFrame, declared, new_frame, finalise, advance, wire, initialise_node,
}
use wingfoil.Graph.Wiring.Loop.{wire-finalise, wire-advance, wire_push, wire_cycle}
use wingfoil.Graph.Wiring.Fuel.{
  In, Closed, begun, weight, waiting, left, FrameIn, waiting_le, Closed_at, waiting-finalise,
  waiting_push,
}

module _ (env : Env) (universe : List ℕ) where
  open env use {Store, upstreams, fuel}

  abbrev Enough : ℕ → List WiringFrame → List ℕ → World Store → Type 0
  Enough rounds stack in_progress w =
      waiting (declared env w.store) w.state.node_to_index in_progress universe + left stack
      ≤ rounds

  wire-NotDiverged :
      (rounds : ℕ) (stack : List WiringFrame) (in_progress : List ℕ) (w : World Store)
      → Closed (declared env w.store) universe
      → All (FrameIn universe) stack
      → Enough rounds stack in_progress w
      → NotDiverged (wire env rounds stack in_progress w).0
  unfolding wire new_frame finalise advance node_index
  wire-NotDiverged rounds [] in_progress w closed inside enough = tt
  wire-NotDiverged zero (f ∷ stack) in_progress w closed inside enough =
      absurd (omega (arith, inside.0.1, enough))
  wire-NotDiverged (suc rounds) (f ∷ stack) in_progress w closed inside enough =
      let spec = declared env w.store in
      let fine : Result (Unit {0}) × World Store → Type 0 = λ out. NotDiverged out.0 in
      elim (Option-cases (get_elem? f.upstreams f.next)) [
        | inl e ↦
            let w' : World Store = record w { state = finalise f w.state } in
            let ip = filter_by (λ n. not (n == f.node)) in_progress in
            subst fine (sym (wire-finalise env rounds f stack in_progress w e)) (
              wire-NotDiverged rounds stack ip w' closed inside.1 (
                omega (
                  arith,
                  enough,
                  inside.0.1,
                  waiting-finalise spec w.state.node_to_index in_progress f.node
                      (length w.state.node_ticked) universe,
                )))
        | inr ((up, active), e) ↦
            let more = get_elem?_lt f.upstreams f.next (up, active) e in
            elim (Option-cases (lookup up w.state.node_to_index)) [
              | inl fresh ↦ elim (Bool-cases (any (λ n. n == up) in_progress)) [
                | inl again ↦
                    subst fine
                      (sym (wire_cycle env rounds f stack in_progress w up active e fresh again)) tt
                | inr new ↦
                    let member : In universe up =
                      All-get (λ (u : ℕ × Bool). In universe u.0) f.upstreams f.next (up, active)
                        inside.0.0 e in
                    let unbegun : begun w.state.node_to_index in_progress up ≡ false =
                      rw (fresh, new) refl in
                    subst fine
                      (sym (wire_push env rounds f stack in_progress w up active e fresh new))
                      (wire-NotDiverged rounds (new_frame env w.store up ∷ f ∷ stack)
                        (up ∷ in_progress) w closed
                        ((Closed_at spec universe universe up closed member, omega arith), inside)
                        (omega (
                          arith,
                          enough,
                          inside.0.1,
                          waiting_push spec w.state.node_to_index in_progress up universe member
                              unbegun,
                        )))
              ]
              | inr (idx, at) ↦ elim (Option-cases (get_elem? w.state.nodes idx)) [
                | inl gone ↦ rw (e, wire) (rw (at, gone) tt)
                | inr (n, here) ↦
                    subst fine
                      (sym
                        (wire-advance env rounds f stack in_progress w up active idx n e at here))
                      (wire-NotDiverged rounds (advance f idx n.layer active ∷ stack) in_progress w
                        closed ((inside.0.0, omega (arith, more)), inside.1)
                        (omega (arith, enough, more, inside.0.1)))
              ]
            ]
      ]

  found-NotDiverged :
      (root : ℕ) (out : Result (Unit {0}) × World Store)
      → NotDiverged out.0
      → NotDiverged
          (and_then out.0 (λ _. get >>= λ wired. expect (lookup root wired.node_to_index)) out.1).0
  found-NotDiverged root (ok _, w) h = elim (Option-cases (lookup root w.state.node_to_index)) [
    | inl e ↦ rw e tt
    | inr (idx, e) ↦ rw e tt
  ]
  found-NotDiverged root (err e, w) h = tt
  found-NotDiverged root (panic, w) h = tt
  found-NotDiverged root (diverged, w) h = h

  -- With two rounds of fuel for each node and one for each upstream edge of a finite set of nodes
  -- that is closed under upstreams, wiring from a root of the set does not run out of fuel.
  pub initialise_node-NotDiverged :
      (root : ℕ) (w : World Store)
      → Closed (declared env w.store) universe
      → In universe root
      → weight (declared env w.store) universe ≤ fuel
      → NotDiverged (initialise_node env root w).0
  unfolding initialise_node node_index new_frame
  initialise_node-NotDiverged root w closed member enough =
      let spec = declared env w.store in
      let index = w.state.node_to_index in
      let fine : Result ℕ × World Store → Type 0 = λ out. NotDiverged out.0 in
      elim (Option-cases (lookup root index)) [
        | inr (idx, e) ↦
            let step : initialise_node env root w ≡ (ok idx, w) = rw (e, and_then) in
            subst fine (sym step) tt
        | inl e ↦
            let out = wire env fuel (new_frame env w.store root ∷ []) (root ∷ []) w in
            let step : initialise_node env root w
                ≡ and_then out.0 (λ _. get >>= λ wired. expect (lookup root wired.node_to_index))
                    out.1 =
              rw (e, and_then) in
            subst fine (sym step) (
              found-NotDiverged root out (
                wire-NotDiverged fuel (new_frame env w.store root ∷ []) (root ∷ []) w closed
                  ((Closed_at spec universe universe root closed member, omega arith), tt)
                  (omega (
                    arith,
                    enough,
                    waiting_push spec index [] root universe member (rw e refl),
                    waiting_le spec index universe,
                  ))))
      ]
