-- ===== src/Nodes/Delay.antt =====
-- wingfoil/src/nodes/delay.rs and delay_with_reset.rs: values that are emitted a fixed time later.
use wingfoil.Base.{
  ℕ, suc, ◌+◌, ◌%◌, ◌<◌, ◌≡◌, refl, ap, Bool, true, false, List, Option, none, some, ◌==◌,
  if◌then◌else◌, length, u64_mod,
}
use wingfoil.Queue.{PartialEq, TimeQueue, push, clear}
use wingfoil.Queue.Events.{events, enqueue, contains, IsValid, events-push, push-IsValid}
use wingfoil.Queue.Drain.{drain, last_due, any_due, not_due, drain-Drained}
use wingfoil.Graph.State.{
  GraphState, node_index, node_index_ticked, add_callback, add_callback_for_node,
}

pub record DelayStream (T : Type 0) : Type 0 where
  pub value : T
  pub queue : TimeQueue T
  pub initialized : Bool
  pub upstream_index : Option ℕ
  pub upstream : ℕ
  pub delay : ℕ

-- `get_or_insert_with`: a node's index, resolved once.
abbrev pub resolve : Option ℕ → ℕ → GraphState → Option ℕ
resolve (some ix) node state = some ix
resolve none node state = node_index node state

called :
    (time node : ℕ) (state : GraphState)
    → state.current_node_index ≡ some node
    → add_callback time state ≡ some (add_callback_for_node node time state)
unfolding add_callback
called time node state me =
    ap
      (λ i. elim i as (λ _. Option GraphState) [
        | none ↦ none
        | some ix ↦ some (add_callback_for_node ix time state)
      ])
      me

module _ {T : Type 0} ⦃p : PartialEq T⦄ where
  -- The upstream ticked: its value is queued, and is the output until the first value is due.
  unfoldable pub accept : ℕ → T → DelayStream T → DelayStream T
  accept now upstream s = record s {
    value = if s.initialized then s.value else upstream;
    initialized = true;
    queue = push upstream ((now + s.delay) % u64_mod) s.queue;
  }

  -- The loop over the due values.
  unfoldable pub emit : ℕ → DelayStream T → Bool × DelayStream T
  emit now s =
      let (value, ticked, queue) = drain (suc (length s.queue.heap)) now s.value false s.queue in
      (ticked, record s { value = value; queue = queue })

  -- A cycle with a positive delay. `none` is a panic.
  unfoldable pub cycle_delayed :
      T → GraphState → DelayStream T → Option (Bool × DelayStream T × GraphState)
  cycle_delayed upstream state s = elim (resolve s.upstream_index s.upstream state) [
    | none ↦ none
    | some ix ↦ elim (node_index_ticked ix state) [
      | none ↦ none
      | some false ↦
          let (ticked, s') = emit state.time (record s { upstream_index = some ix }) in
          some (ticked, s', state)
      | some true ↦ elim (add_callback ((state.time + s.delay) % u64_mod) state) [
        | none ↦ none
        | some state' ↦
            let (ticked, s') =
              emit state.time
                (accept state.time upstream (record s { upstream_index = some ix })) in
            some (ticked, s', state')
      ]
    ]
  ]

  -- `upstream` is the value that the upstream shows.
  unfoldable pub cycle : T → GraphState → DelayStream T → Option (Bool × DelayStream T × GraphState)
  unfolding cycle_delayed accept emit
  cycle upstream state s =
      if s.delay == 0
      then some (true, record s { value = upstream }, state)
      else cycle_delayed upstream state s

  -- `trigger` is the node that resets, with its index; the other fields are as those of a delay.
  unfoldable pub cycle_with_reset :
      T
      → Option ℕ
      → ℕ
      → GraphState
      → DelayStream T
      → Option (Bool × Option ℕ × DelayStream T × GraphState)
  unfolding cycle
  cycle_with_reset upstream trigger_index trigger state s =
      elim (resolve trigger_index trigger state) [
        | none ↦ none
        | some ix ↦ elim (node_index_ticked ix state) [
          | none ↦ none
          | some true ↦ some (
            true,
            some ix,
            record s { value = upstream; queue = clear s.queue; initialized = true },
            state,
          )
          | some false ↦ elim (cycle upstream state s) [
            | none ↦ none
            | some (ticked, s', state') ↦ some (ticked, some ix, s', state')
          ]
        ]
      ]

  -- The queued events with one more.
  abbrev pub queued : T → ℕ → DelayStream T → List (T × ℕ)
  queued upstream time s =
      if contains upstream time (events s.queue)
      then events s.queue
      else enqueue upstream time (events s.queue)

  abbrev pub Emits : ℕ → T → List (T × ℕ) → Bool × DelayStream T → Type 0
  Emits now old l r =
      (r.1.value ≡ last_due now old l)
      × (r.0 ≡ any_due now l)
      × (events r.1.queue ≡ not_due now l)
      × IsValid r.1.queue

  emit-Emits :
      (now : ℕ) (s : DelayStream T)
      → IsValid s.queue
      → Emits now s.value (events s.queue) (emit now s)
  unfolding emit
  emit-Emits now s ok = drain-Drained now s.value false s.queue ok

  -- When its upstream ticks, a delay node with a positive delay, a valid queue whose counter is
  -- not about to wrap around, a wired upstream and a current node does not panic: it queues the
  -- value at `now + delay` (unless the pair is queued already), shows the last value that is due,
  -- ticks if and only if there is one, keeps exactly what is not due, and asks for a callback at
  -- `now + delay`.
  pub cycle-Emits :
      (upstream : T) (state : GraphState) (s : DelayStream T) (ix node : ℕ)
      → (s.delay == 0) ≡ false
      → IsValid s.queue
      → s.queue.next_seq + 1 < u64_mod
      → resolve s.upstream_index s.upstream state ≡ some ix
      → node_index_ticked ix state ≡ some true
      → state.current_node_index ≡ some node
      → (r : Bool × DelayStream T) × (cycle upstream state s
          ≡ some (r.0, r.1, add_callback_for_node node ((state.time + s.delay) % u64_mod) state))
        × Emits state.time
            (if s.initialized then s.value else upstream)
            (queued upstream ((state.time + s.delay) % u64_mod) s)
            r
  unfolding cycle cycle_delayed accept
  cycle-Emits upstream state s ix node pos ok room at on me =
      let s' = accept state.time upstream (record s { upstream_index = some ix }) in
      let out = emit-Emits state.time s' (push-IsValid upstream _ s.queue room ok) in
      (
        emit state.time s',
        rw pos (
            rw (at, cycle_delayed, resolve)
              (rw (on, called ((state.time + s.delay) % u64_mod) node state me) refl)),
        rw (← events-push upstream ((state.time + s.delay) % u64_mod) s.queue ok) out,
      )
