-- ===== src/Graph/Callbacks/Due.antt =====
-- `process_scheduled_callbacks`: the always callbacks, then the loop over the due entries of the queue.
use wingfoil.Base.{
  ℕ, zero, suc, ◌<◌, ◌≡◌, refl, sym, subst, ap, ◌∙◌, Bool, true, ◌||◌, List, [], ◌∷◌, none, some,
  arith, leb, if◌then◌else◌, length, All, All-imp, Bool-cases, inl, inr,
}
use wingfoil.Queue.{TimeQueue, pop_if_pending}
use wingfoil.Queue.Events.{events, length-events, pop_if_pending-PopsDue}
use wingfoil.Queue.Events as Events
use wingfoil.Queue.Drain.{any_due, not_due}
use wingfoil.Graph.Effects.{Result, ok, and_then, for_each}
use wingfoil.Graph.State.{GraphState, mark_dirty}
use wingfoil.Graph.Env.{World, update, updated}
use wingfoil.Graph.Cycle.Invariant.{IsValid, SameGraph-IsValid}
use wingfoil.Graph.Callbacks.{mark_scheduled, process_scheduled_callbacks, nonempty}
use wingfoil.Graph.Callbacks.Marks.{IsDirty, mark_dirty-Marked, mark_each-MarkedAll}

-- The nodes of the events that are due at the head of the list.
pub due : ℕ → List (ℕ × ℕ) → List ℕ
due now [] = []
due now ((ix, t) ∷ l) = if leb t now then ix ∷ due now l else []

module _ {S : Type 0} where
  -- What the loop leaves of the events `l`.
  pub record Scheduled (now : ℕ) (progressed : Bool) (l : List (ℕ × ℕ)) (w : World S)
      (r : Result Bool × World S) : Type 0 where
    pub returned : r.0 ≡ ok (progressed || any_due now l)
    pub valid : IsValid r.1.state
    pub nodes : r.1.state.nodes ≡ w.state.nodes
    pub left : events r.1.state.scheduled_callbacks ≡ not_due now l
    pub queue : Events.IsValid r.1.state.scheduled_callbacks
    pub dirty : All (IsDirty r.1.state) (due now l)
    pub kept : (ix : ℕ) → IsDirty w.state ix → IsDirty r.1.state ix

  abbrev with_queue : TimeQueue ℕ → World S → World S
  with_queue q w = record w { state = record (w.state) { scheduled_callbacks = q } }

  with_queue-IsValid :
      (q : TimeQueue ℕ) (w : World S) → IsValid w.state → IsValid (with_queue q w).state
  with_queue-IsValid q w v =
      SameGraph-IsValid (record { nodes = refl; ticked = refl; dirty = refl; rows = refl }) v

  stops :
      (rounds now : ℕ) (progressed : Bool) (w : World S)
      → pop_if_pending now w.state.scheduled_callbacks ≡ (none, w.state.scheduled_callbacks)
      → mark_scheduled (suc rounds) now progressed w ≡ (ok progressed, w)
  unfolding mark_scheduled
  stops rounds now progressed w e = rw (ap (λ r. r.0) e) (rw (ap (λ r. r.1) e) refl)

  goes_on :
      (rounds now : ℕ) (progressed : Bool) (w : World S) (ix : ℕ) (t : GraphState)
      → (pop_if_pending now w.state.scheduled_callbacks).0 ≡ some ix
      → mark_dirty ix (with_queue (pop_if_pending now w.state.scheduled_callbacks).1 w).state
        ≡ some t
      → mark_scheduled (suc rounds) now progressed w
        ≡ mark_scheduled rounds now true (record w { state = t })
  unfolding mark_scheduled
  goes_on rounds now progressed w ix t e marks = rw (e, mark_scheduled) (rw (marks, updated) refl)

  mark_scheduled-Scheduled :
      (rounds now : ℕ) (progressed : Bool) (w : World S) (l : List (ℕ × ℕ))
      → events w.state.scheduled_callbacks ≡ l
      → length l < rounds
      → Events.IsValid w.state.scheduled_callbacks
      → IsValid w.state
      → All (λ (e : ℕ × ℕ). e.0 < length w.state.nodes) l
      → Scheduled now progressed l w (mark_scheduled rounds now progressed w)
  unfolding any_due not_due due
  mark_scheduled-Scheduled zero now progressed w l e room q v h = elim room [ ]
  mark_scheduled-Scheduled (suc rounds) now progressed w [] e room q v h =
      let stop = rw e at (pop_if_pending-PopsDue now w.state.scheduled_callbacks q) in
      subst (Scheduled now progressed [] w) (sym (stops rounds now progressed w stop)) (record {
        returned = ground arith;
        valid = v;
        nodes = refl;
        left = e;
        queue = q;
        dirty = tt;
        kept = λ ix h. h;
      })
  mark_scheduled-Scheduled (suc rounds) now progressed w ((ix, t) ∷ l) e room q v h =
      let popped = rw e at (pop_if_pending-PopsDue now w.state.scheduled_callbacks q) in
      elim (Bool-cases (leb t now)) [
        | inl is_due ↦
            let (value, left, valid) = rw is_due at popped in
            let w₁ = with_queue (pop_if_pending now w.state.scheduled_callbacks).1 w in
            let (s, e₁, m, dirty) = mark_dirty-Marked ix w₁.state (with_queue-IsValid _ w v) h.0 in
            let w₂ : World S = record w { state = s } in
            let rest =
              mark_scheduled-Scheduled rounds now true w₂ l (rw m.queue left) (omega arith)
                (rw m.queue valid) m.valid (rw m.nodes h.1) in
            subst (Scheduled now progressed ((ix, t) ∷ l) w)
              (sym (goes_on rounds now progressed w ix s value e₁))
              (record {
                returned = ground (arith, rest.returned, is_due);
                valid = rest.valid;
                nodes = rest.nodes ∙ m.nodes;
                left = rw is_due rest.left;
                queue = rest.queue;
                dirty = rw is_due (rest.kept ix dirty, rest.dirty);
                kept = λ jx d. rest.kept jx (m.kept jx d);
              })
        | inr later ↦
            let stop = rw later at popped in
            subst (Scheduled now progressed ((ix, t) ∷ l) w)
              (sym (stops rounds now progressed w stop))
              (record {
                returned = ground (arith, later);
                valid = v;
                nodes = refl;
                left = rw later e;
                queue = q;
                dirty = rw later tt;
                kept = λ jx d. d;
              })
      ]

  -- If the always callbacks and the queue name nodes of a valid graph and the queue is valid, the
  -- scheduled callbacks are processed without panic and within the fuel: progress is reported if
  -- and only if there is an always callback or a due event, every node with either is dirty, and
  -- what is not due stays in the queue.
  pub process_scheduled_callbacks-Scheduled :
      (w : World S)
      → IsValid w.state
      → Events.IsValid w.state.scheduled_callbacks
      → All (λ ix. ix < length w.state.nodes) w.state.always_callbacks
      → All (λ (e : ℕ × ℕ). e.0 < length w.state.nodes) (events w.state.scheduled_callbacks)
      → Scheduled w.state.time
          (nonempty w.state.always_callbacks)
          (events w.state.scheduled_callbacks)
          w
          (process_scheduled_callbacks w)
        × All (IsDirty (process_scheduled_callbacks w).1.state) w.state.always_callbacks
  unfolding process_scheduled_callbacks
  process_scheduled_callbacks-Scheduled w v q always h =
      let l = events w.state.scheduled_callbacks in
      let on = nonempty w.state.always_callbacks in
      let out = for_each (λ ix. update {S = S} (mark_dirty ix)) w.state.always_callbacks w in
      let (fine, m, dirty) = mark_each-MarkedAll w.state.always_callbacks w v always in
      let rounds = suc (length out.1.state.scheduled_callbacks.heap) in
      let same : events out.1.state.scheduled_callbacks ≡ l = ap events m.queue in
      let room : length l < rounds =
        omega (arith, ap length same, length-events out.1.state.scheduled_callbacks) in
      let step : process_scheduled_callbacks w ≡ mark_scheduled rounds out.1.state.time on out.1 =
        rw (fine, and_then) refl in
      let run : Scheduled w.state.time on l out.1
          (mark_scheduled rounds out.1.state.time on out.1) =
        subst (λ now. Scheduled now on l out.1 (mark_scheduled rounds out.1.state.time on out.1))
          m.time
          (mark_scheduled-Scheduled rounds out.1.state.time on out.1 l same room (rw m.queue q)
            m.valid (rw m.nodes h)) in
      subst
        (λ r. Scheduled w.state.time on l w r × All (IsDirty r.1.state) w.state.always_callbacks)
        (sym step)
        (
          record {
            returned = run.returned;
            valid = run.valid;
            nodes = run.nodes ∙ m.nodes;
            left = run.left;
            queue = run.queue;
            dirty = run.dirty;
            kept = λ ix d. run.kept ix (m.kept ix d);
          },
          All-imp (λ ix d. run.kept ix d) w.state.always_callbacks dirty,
        )
