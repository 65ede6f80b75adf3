-- ===== src/Nodes/Feedback.antt =====
-- wingfoil/src/nodes/callback.rs and feedback.rs: streams that emit queued values.
use wingfoil.Base.{
  ℕ, suc, ◌+◌, ◌%◌, ◌≤◌, ◌<◌, ◌≡◌, refl, ap, ◌∙◌, Bool, true, false, ◌||◌, List, [], ◌∷◌, Option,
  none, some, arith, length, All, Bool-cases, inl, inr, u64_mod,
}
use wingfoil.Queue.{PartialEq, TimeQueue, push, next_time}
use wingfoil.Queue.Events.{
  events, enqueue, contains, IsValid, events-push, push-IsValid, Rising, events-Rising,
}
use wingfoil.Queue.Drain.{drain, any_due, drain-Drained}
use wingfoil.Graph.State.{GraphState, add_callback, add_callback_for_node}

-- The source's setup, which makes its index known to the sink; `none` is a panic.
unfoldable pub feedback_setup : GraphState → Option ℕ
feedback_setup state = state.current_node_index

module _ {T : Type 0} ⦃p : PartialEq T⦄ where
  -- The value and the queue of a CallBackStream.
  unfoldable pub callback_cycle :
      GraphState → T → TimeQueue T → Option (Bool × T × TimeQueue T × GraphState)
  callback_cycle state value queue =
      let (value', ticked, queue') = drain (suc (length queue.heap)) state.time value false queue in
      elim (next_time queue') [
        | none ↦ some (ticked, value', queue', state)
        | some t ↦ elim (add_callback t state) [
          | none ↦ none
          | some state' ↦ some (ticked, value', queue', state')
        ]
      ]

  unfoldable pub callback_start : GraphState → TimeQueue T → Option GraphState
  callback_start state queue = elim (next_time queue) [
    | none ↦ some state
    | some t ↦ add_callback t state
  ]

  -- The source end of a feedback channel; the queue is shared with the sink.
  unfoldable pub feedback_cycle : ℕ → T → TimeQueue T → T × Bool × TimeQueue T
  feedback_cycle now value queue = drain (suc (length queue.heap)) now value false queue

  -- `FeedbackSink::send`; `node_id` is set by the source's setup, and `none` is the panic without it.
  unfoldable pub send : T → Option ℕ → GraphState → TimeQueue T → Option (TimeQueue T × GraphState)
  send value node_id state queue =
      let time = (state.time + 1) % u64_mod in
      elim node_id [
        | none ↦ none
        | some ix ↦ some (push value time queue, add_callback_for_node ix time state)
      ]

  -- The node that passes its upstream's values on and sends them.
  unfoldable pub feedback_send_cycle :
      T → Option ℕ → GraphState → TimeQueue T → Option (Bool × T × TimeQueue T × GraphState)
  unfolding send
  feedback_send_cycle upstream node_id state queue = elim (send upstream node_id state queue) [
    | none ↦ none
    | some (queue', state') ↦ some (true, upstream, queue', state')
  ]

  enqueue_due :
      (v : T) (t now : ℕ) (l : List (T × ℕ)) → t ≤ now → any_due now (enqueue v t l) ≡ true
  unfolding enqueue any_due
  enqueue_due v t now [] h = ground arith
  enqueue_due v t now ((w, s) ∷ l) h = ground arith

  rising_due :
      (v : T) (t : ℕ) (s : ℕ) (l : List (T × ℕ))
      → All (λ (y : T × ℕ). s ≤ y.1) l
      → contains v t l ≡ true
      → s ≤ t
  rising_due v t s [] h c = cc
  rising_due v t s ((w, u) ∷ l) h c = ground (arith, c, h.0, rising_due v t s l h.1)

  contains_due :
      (v : T) (t now : ℕ) (l : List (T × ℕ))
      → t ≤ now
      → Rising l
      → contains v t l ≡ true
      → any_due now l ≡ true
  unfolding any_due
  contains_due v t now [] h r c = cc
  contains_due v t now ((w, s) ∷ l) h r c = ground (arith, c, rising_due v t s l r.0)

  -- A value that is sent on a feedback channel makes the source tick in any cycle at a later
  -- time, whether the pair was queued before or not, if the queue is valid and neither the clock
  -- nor the counter wraps around.
  pub feedback_cycle-send :
      (value shown : T) (ix now : ℕ) (state : GraphState) (queue : TimeQueue T)
      → IsValid queue
      → queue.next_seq + 1 < u64_mod
      → state.time + 1 < u64_mod
      → state.time < now
      → (q : TimeQueue T) × (send value (some ix) state queue
          ≡ some (q, add_callback_for_node ix ((state.time + 1) % u64_mod) state))
        × ((feedback_cycle now shown q).1 ≡ true)
  unfolding send feedback_cycle
  feedback_cycle-send value shown ix now state queue ok room clock later =
      let time = (state.time + 1) % u64_mod in
      let q = push value time queue in
      let le : time ≤ now = omega arith in
      let out = drain-Drained now shown false q (push-IsValid value time queue room ok) in
      let due : any_due now (events q) ≡ true =
        elim (Bool-cases (contains value time (events queue))) [
          | inl old ↦
              rw (events-push value time queue ok, old)
                (contains_due value time now (events queue) le (events-Rising queue) old)
          | inr new ↦
              rw (events-push value time queue ok, new)
                (enqueue_due value time now (events queue) le)
        ] in
      (q, refl, out.1 ∙ ap (λ b. false || b) due)
