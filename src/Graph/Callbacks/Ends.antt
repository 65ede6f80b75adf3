-- ===== src/Graph/Callbacks/Ends.antt =====
-- The callbacks of a historical round are processed within the fuel, whatever the queue holds.
use wingfoil.Base.{
  ℕ, zero, suc, ◌<◌, ◌≡◌, refl, sym, subst, Bool, true, false, List, [], ◌∷◌, Option, none, some,
  arith, length, get_elem?, Option-cases, inl, inr,
}
use wingfoil.Queue.{TimeQueue, pop_if_pending}
use wingfoil.Queue.Size.{Shrinks, pop_if_pending-Shrinks}
use wingfoil.Graph.Effects.{Action, Result, ok, and_then, for_each, ◌>>◌}
use wingfoil.Graph.Ends.{NotDiverged, Ends, Ends-then, Ends-updated, Ends-for_each}
use wingfoil.Graph.State.{GraphState, mark_dirty}
use wingfoil.Graph.Env.{World, update, updated}
use wingfoil.Graph.Callbacks.{
  mark_scheduled, process_scheduled_callbacks, process_callbacks_historical, advance_time, nonempty,
}

-- `mark_dirty` leaves the queue alone.
abbrev SameQueue : GraphState → Option GraphState → Type 0
SameQueue s none = Unit
SameQueue s (some t) = t.scheduled_callbacks ≡ s.scheduled_callbacks

mark_dirty-SameQueue : (ix : ℕ) (s : GraphState) → SameQueue s (mark_dirty ix s)
unfolding mark_dirty
mark_dirty-SameQueue ix s = go (get_elem? s.node_dirty ix) refl
  where
    go : (o : Option Bool) → get_elem? s.node_dirty ix ≡ o → SameQueue s (mark_dirty ix s)
    go none e = rw (e, mark_dirty) tt
    go (some true) e = rw (e, mark_dirty) refl
    go (some false) e = elim (Option-cases (get_elem? s.nodes ix)) [
      | inl e' ↦ rw (e, mark_dirty) (rw e' tt)
      | inr (n, e') ↦ elim (Option-cases (get_elem? s.dirty_nodes_by_layer n.layer)) [
        | inl e'' ↦ rw (e, mark_dirty) (rw e' (rw e'' tt))
        | inr (row, e'') ↦ rw (e, mark_dirty) (rw e' (rw e'' refl))
      ]
    ]

module _ {S : Type 0} where
  -- The world with what is left of the queue.
  abbrev popped_world : TimeQueue ℕ → World S → World S
  popped_world q w = record w { state = record (w.state) { scheduled_callbacks = q } }

  nothing_due :
      (rounds now : ℕ) (progressed : Bool) (w : World S) (q : TimeQueue ℕ)
      → pop_if_pending now w.state.scheduled_callbacks ≡ (none, q)
      → mark_scheduled (suc rounds) now progressed w ≡ (ok progressed, popped_world q w)
  unfolding mark_scheduled
  nothing_due rounds now progressed w q e = rw (e, mark_scheduled) refl

  one_due :
      (rounds now : ℕ) (progressed : Bool) (w : World S) (ix : ℕ) (q : TimeQueue ℕ)
      → pop_if_pending now w.state.scheduled_callbacks ≡ (some ix, q)
      → mark_scheduled (suc rounds) now progressed w
        ≡ (update (mark_dirty ix) >> mark_scheduled rounds now true) (popped_world q w)
  unfolding mark_scheduled
  one_due rounds now progressed w ix q e = rw (e, mark_scheduled) refl

  marked-Ends :
      (rounds now n : ℕ) (w : World S) (o : Option GraphState)
      → SameQueue w.state o
      → length w.state.scheduled_callbacks.heap < n
      → ((w' : World S)
          → length w'.state.scheduled_callbacks.heap < n
          → NotDiverged (mark_scheduled rounds now true w').0)
      → NotDiverged
          (and_then (updated o w).0 (λ _. mark_scheduled rounds now true) (updated o w).1).0
  marked-Ends rounds now n w none same h rest = tt
  marked-Ends rounds now n w (some t) same h rest = rest (record w { state = t }) (rw same h)

  mark_scheduled-Ends :
      (rounds now : ℕ) (progressed : Bool) (w : World S)
      → length w.state.scheduled_callbacks.heap < rounds
      → NotDiverged (mark_scheduled rounds now progressed w).0
  mark_scheduled-Ends zero now progressed w h = absurd (omega (arith, h))
  mark_scheduled-Ends (suc rounds) now progressed w h =
      by_pop rounds now progressed w h (mark_scheduled-Ends rounds now true)
        (pop_if_pending now w.state.scheduled_callbacks) refl
        (pop_if_pending-Shrinks now w.state.scheduled_callbacks)
    where
      by_pop :
          (rounds now : ℕ) (progressed : Bool) (w : World S)
          → length w.state.scheduled_callbacks.heap < suc rounds
          → ((w' : World S)
              → length w'.state.scheduled_callbacks.heap < rounds
              → NotDiverged (mark_scheduled rounds now true w').0)
          → (out : Option ℕ × TimeQueue ℕ) → pop_if_pending now w.state.scheduled_callbacks ≡ out
          → Shrinks w.state.scheduled_callbacks out
          → NotDiverged (mark_scheduled (suc rounds) now progressed w).0
      by_pop rounds now progressed w h rest (none, q) e less =
          subst (λ (o : Result Bool × World S). NotDiverged o.0)
            (sym (nothing_due rounds now progressed w q e)) tt
      by_pop rounds now progressed w h rest (some ix, q) e less =
          subst (λ (o : Result Bool × World S). NotDiverged o.0)
            (sym (one_due rounds now progressed w ix q e))
            (marked-Ends rounds now rounds (popped_world q w)
              (mark_dirty ix (popped_world q w).state)
              (mark_dirty-SameQueue ix (popped_world q w).state) (omega (arith, h, less)) rest)

  process_scheduled_callbacks-Ends : Ends (process_scheduled_callbacks {S = S})
  unfolding process_scheduled_callbacks
  process_scheduled_callbacks-Ends w =
      let mark : ℕ → Action (World S) (Unit {0}) = λ ix. update (mark_dirty ix) in
      let rest : Action (World S) Bool = λ w'.
        mark_scheduled (suc (length w'.state.scheduled_callbacks.heap)) w'.state.time
          (nonempty w.state.always_callbacks) w' in
      Ends-then (for_each mark w.state.always_callbacks w) (λ _. rest)
        (Ends-for_each mark w.state.always_callbacks
          (λ ix w'. Ends-updated (mark_dirty ix w'.state) w') w)
        (λ _ w'.
          mark_scheduled-Ends (suc (length w'.state.scheduled_callbacks.heap)) w'.state.time
            (nonempty w.state.always_callbacks) w' (omega arith))

  pub process_callbacks_historical-Ends : Ends (process_callbacks_historical {S = S})
  unfolding process_callbacks_historical
  process_callbacks_historical-Ends w = by_ready w.state.ready_callbacks refl
    where
      by_ready :
          (l : List ℕ)
          → w.state.ready_callbacks ≡ l
          → NotDiverged (process_callbacks_historical w).0
      by_ready [] e =
          rw (e, process_callbacks_historical)
            (process_scheduled_callbacks-Ends
              (record w { state = advance_time (record (w.state) { ready_callbacks = [] }) }))
      by_ready (x ∷ l) e = rw (e, process_callbacks_historical) tt
