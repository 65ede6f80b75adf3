-- ===== src/Graph/Run.antt =====
-- The life of a graph: setup, start, the run loop, stop and teardown.
pub mod Outcome
pub mod Ends
use wingfoil.Base.{
  ℕ, zero, suc, ◌+◌, ◌-◌, ◌%◌, Bool, true, false, not, ◌&&◌, ◌||◌, List, [], ◌∷◌, none, some, leb,
  if◌then◌else◌, get_elem?, length, u64_mod, u32_mod,
}
use wingfoil.Graph.Effects.{
  Phase, Error, Errors, Action, Result, ok, err, pure, fail, expect, diverge, attempt, propagate,
  with_context, ◌>>=◌, ◌>>◌,
}
use wingfoil.Graph.State.{RunMode, RunFor, new_state}
use wingfoil.Graph.Env.{World, Env, get, modify, read_clock}
use wingfoil.Graph.Dynamic.{set_current}
use wingfoil.Graph.Wiring.{initialise}
use wingfoil.Graph.Cycle.{cycle}
use wingfoil.Graph.Callbacks.{process_callbacks_historical, process_callbacks_realtime}

pub record RunBounds : Type 0 where
  pub start_time : ℕ
  pub end_time : ℕ
  pub end_cycle : ℕ

pub errors_of : List (Result (Unit {0})) → List Error
errors_of [] = []
errors_of (err e ∷ rs) = e ∷ errors_of rs
errors_of (_ ∷ rs) = errors_of rs

abbrev pub chain : Error → List Error → Errors
chain e [] = Errors.last e
chain e (e' ∷ es) = Errors.more e (chain e' es)

-- The first error, with the later ones in its context.
unfoldable pub first_error : List (Result (Unit {0})) → Result (Unit {0})
unfolding errors_of
first_error results = elim (errors_of results) [
  | [] ↦ ok tt
  | primary ∷ extra ↦ elim extra [
    | [] ↦ err primary
    | e ∷ es ↦ err (Error.during_shutdown primary (chain e es))
  ]
]

-- What one round of the loop of `run_nodes` does next.
pub data Round : Type 0 where
  break : Round
  continue : Round
  next_cycle : Round

module _ (env : Env) where
  open env use {Store, setup, start, stop, teardown, fuel}

  -- `for ix in 0..nodes.len()`; an error leaves the loop, and the current index set.
  apply_from :
      Phase → (ℕ → Action (World Store) (Unit {0})) → ℕ → ℕ → Action (World Store) (Unit {0})
  apply_from phase func zero ix = pure tt
  apply_from phase func (suc n) ix = do
    s ← get
    node_data ← expect (get_elem? s.nodes ix)
    (if not node_data.active then pure tt else do
      set_current (some ix)
      attempt (func node_data.node) λ r. propagate (with_context phase ix r)
      set_current none)
    apply_from phase func n (ix + 1)

  unfoldable pub apply_nodes :
      Phase → (ℕ → Action (World Store) (Unit {0})) → Action (World Store) (Unit {0})
  unfolding apply_from
  apply_nodes phase func = do s ← get; apply_from phase func (length s.nodes) 0

  unfoldable pub resolve_start_end : Action (World Store) RunBounds
  unfolding read_clock
  resolve_start_end = do
    s ← get
    start_time ← elim s.run_mode [
      | RunMode.real_time ↦ read_clock env
      | RunMode.historical_from t ↦ pure t
    ]
    pure (elim s.run_for [
      | RunFor.duration d ↦ record {
        start_time = start_time;
        end_time = (start_time + d) % u64_mod;
        end_cycle = u32_mod - 1;
      }
      | RunFor.cycles n ↦ record { start_time = start_time; end_time = u64_mod - 1; end_cycle = n }
      | RunFor.forever ↦ record {
        start_time = start_time;
        end_time = u64_mod - 1;
        end_cycle = u32_mod - 1;
      }
    ])

  abbrev is_realtime : RunMode → Bool
  is_realtime RunMode.real_time = true
  is_realtime (RunMode.historical_from t) = false

  -- One round: the bounds, the lookahead, the callbacks, and the cycle if there was any.
  pub round : Bool → RunBounds → ℕ → Action (World Store) Round
  unfolding cycle process_callbacks_historical process_callbacks_realtime
  round realtime bounds cycles = do
    s ← get
    let cycles_done = leb bounds.end_cycle cycles
    let time_done = leb bounds.end_time s.time
    if cycles_done || (s.is_last_cycle && time_done) then pure break else do
      (if not s.is_last_cycle && (leb bounds.end_cycle ((cycles + 1) % u32_mod) || time_done)
          then modify (λ s. record s { is_last_cycle = true })
          else pure tt)
      progressed ←
          (if realtime
            then process_callbacks_realtime env bounds.end_time
            else process_callbacks_historical)
      if progressed
          then (cycle env >> pure next_cycle)
          else pure (if realtime then continue else break)

  run_loop : ℕ → Bool → RunBounds → ℕ → Action (World Store) (Unit {0})
  unfolding round
  run_loop zero realtime bounds cycles = diverge
  run_loop (suc rounds) realtime bounds cycles = do
    r ← round realtime bounds cycles
    elim r [
      | break ↦ pure tt
      | continue ↦ run_loop rounds realtime bounds cycles
      | next_cycle ↦ run_loop rounds realtime bounds ((cycles + 1) % u32_mod)
    ]

  unfoldable pub run_nodes : Action (World Store) (Unit {0})
  unfolding run_loop resolve_start_end
  run_nodes = do
    bounds ← resolve_start_end
    s ← get
    modify (λ s. record s { start_time = bounds.start_time })
    run_loop fuel (is_realtime s.run_mode) bounds 0

  -- `run` after a setup that succeeded.
  run_started : Action (World Store) (Unit {0})
  unfolding apply_nodes run_nodes first_error
  run_started = attempt (apply_nodes Phase.start start) λ start_result.
      attempt (elim start_result [ ok _ ↦ run_nodes | _ ↦ pure tt ])
        λ run_result. attempt (apply_nodes Phase.stop stop) λ stop_result.
          attempt (apply_nodes Phase.teardown teardown) λ teardown_result.
            propagate (first_error (start_result ∷ run_result ∷ stop_result ∷ teardown_result ∷ []))

  unfoldable pub run : Action (World Store) (Unit {0})
  unfolding run_started
  run = do
    s ← get
    elim s.wiring_error [
      | some e ↦ do modify (λ s. record s { wiring_error = none }); fail e
      | none ↦ do apply_nodes Phase.setup setup; run_started
    ]

  start_world : RunMode → RunFor → Store → World Store
  unfolding new_state
  start_world RunMode.real_time run_for store = record {
    state = record (new_state RunMode.real_time run_for (env.now 0)) {
      ready_callbacks = env.arrived 0;
    };
    store = store;
    asked = 1;
  }
  start_world (RunMode.historical_from t) run_for store = record {
    state = new_state (RunMode.historical_from t) run_for t;
    store = store;
    asked = 0;
  }

  -- `Graph::new`: the graph is wired at once, and a wiring error waits for `run`.
  unfoldable pub new_graph : List ℕ → RunMode → RunFor → Store → Result (Unit {0}) × World Store
  unfolding start_world initialise
  new_graph roots run_mode run_for store = initialise env roots (start_world run_mode run_for store)
