-- ===== src/Graph/Callbacks.antt =====
-- What starts a cycle: scheduled, always and ready callbacks, and the clock of the engine.
pub mod Marks
pub mod Due
pub mod Time
pub mod Ends
use wingfoil.Base.{
  ℕ, zero, suc, ◌+◌, ◌%◌, max, min, Bool, true, false, ◌||◌, List, [], ◌∷◌, Option, none, some, ltb,
  if◌then◌else◌, length, u64_mod,
}
use wingfoil.Queue
use wingfoil.Graph.Effects.{Error, Action, pure, fail, diverge, ◌>>=◌, ◌>>◌, for_each}
use wingfoil.Graph.State.{GraphState, mark_dirty, has_scheduled_callbacks, next_scheduled_time}
use wingfoil.Graph.Env.{World, Env, get, modify, update, read_clock}

abbrev pub nonempty {ℓ} : {A : Type ℓ} → List A → Bool
nonempty [] = false
nonempty (x ∷ xs) = true

-- The engine time of the next historical cycle, and the state with it.
unfoldable pub advance_time : GraphState → GraphState
unfolding has_scheduled_callbacks next_scheduled_time
advance_time s =
    let has_scheduled = has_scheduled_callbacks s in
    let next_tick = (s.time + 1) % u64_mod in
    let next = if has_scheduled then next_scheduled_time s else next_tick in
    if has_scheduled || nonempty s.always_callbacks
    then (if s.first_cycle
        then record s { first_cycle = false; time = if has_scheduled then next else s.time }
        else record s { time = max next next_tick })
    else s

module _ {S : Type 0} where
  -- `while let Some(ix) = scheduled_callbacks.pop_if_pending(now)`
  mark_scheduled : ℕ → ℕ → Bool → Action (World S) Bool
  unfolding Queue.pop_if_pending mark_dirty
  mark_scheduled zero now progressed = diverge
  mark_scheduled (suc rounds) now progressed = do
    s ← get
    let popped = Queue.pop_if_pending now s.scheduled_callbacks
    modify (λ s. record s { scheduled_callbacks = popped.1 })
    elim popped.0 [
      | none ↦ pure progressed
      | some ix ↦ do update (mark_dirty ix); mark_scheduled rounds now true
    ]

  -- Each round takes an entry of the queue, so the fuel is its length and one.
  unfoldable pub process_scheduled_callbacks : Action (World S) Bool
  unfolding mark_scheduled mark_dirty
  process_scheduled_callbacks = do
    s ← get
    for_each (λ ix. update (mark_dirty ix)) s.always_callbacks
    marked ← get
    mark_scheduled (suc (length marked.scheduled_callbacks.heap)) marked.time
        (nonempty s.always_callbacks)

  unfoldable pub process_callbacks_historical : Action (World S) Bool
  unfolding process_scheduled_callbacks advance_time
  process_callbacks_historical = do
    s ← get
    elim s.ready_callbacks [
      | _ ∷ _ ↦ fail Error.ready_in_historical
      | [] ↦ do modify advance_time; process_scheduled_callbacks
    ]

  -- `while let Ok(ix) = ready_callbacks.try_recv()` over what has arrived.
  mark_ready : List ℕ → Bool → Action (World S) Bool
  unfolding mark_dirty
  mark_ready [] progressed = pure progressed
  mark_ready (ix ∷ ixs) progressed = do
    modify (λ s. record s { ready_callbacks = ixs })
    update (mark_dirty ix)
    mark_ready ixs true

  unfoldable pub process_ready_callbacks : Action (World S) Bool
  unfolding mark_ready
  process_ready_callbacks = do s ← get; mark_ready s.ready_callbacks false

module _ (env : Env) where
  open env use {Store}

  -- Blocks until a message arrives or the time is over. What arrives meanwhile is what the host
  -- delivers with the clock reading.
  unfoldable pub wait_ready_callback : ℕ → Action (World Store) (Option ℕ)
  unfolding read_clock
  wait_ready_callback end_time = do
    now ← read_clock env
    s ← get
    if ltb end_time now then pure none else elim s.ready_callbacks [
      | [] ↦ pure none
      | ix ∷ ixs ↦ do modify (λ s. record s { ready_callbacks = ixs }); pure (some ix)
    ]

  -- With nothing to do the engine waits for a message until the next scheduled time.
  wait_and_mark : ℕ → Action (World Store) Bool
  unfolding wait_ready_callback mark_dirty next_scheduled_time
  wait_and_mark end_time = do
    s ← get
    got ← wait_ready_callback (min end_time (next_scheduled_time s))
    elim got [ none ↦ pure false | some ix ↦ do update (mark_dirty ix); pure true ]

  unfoldable pub process_callbacks_realtime : ℕ → Action (World Store) Bool
  unfolding process_ready_callbacks process_scheduled_callbacks wait_and_mark read_clock
  process_callbacks_realtime end_time = do
    ready ← process_ready_callbacks
    scheduled ← process_scheduled_callbacks
    progressed ← (if ready || scheduled then pure true else wait_and_mark end_time)
    now ← read_clock env
    modify (λ s. record s { time = max now ((s.time + 1) % u64_mod) })
    pure progressed
