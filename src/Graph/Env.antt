-- ===== src/Graph/Env.antt =====
-- What the engine is run with: the node objects, the wall clock and other threads.
use wingfoil.Base.{ℕ, ◌+◌, ◌++◌, Bool, List, Option, none, some}
use wingfoil.Graph.Effects.{Action, Result, ok, panic}
use wingfoil.Graph.State.{GraphState}

pub record UpStreams : Type 0 where
  pub active : List ℕ
  pub passive : List ℕ

-- The engine's state, the contents of all node cells, and how often the host was asked.
pub record World (S : Type 0) : Type 0 where
  pub state : GraphState
  pub store : S
  pub asked : ℕ

-- `dyn Node` by its address, and the host: `now k` is the clock's k-th reading, `arrived k` what other
-- threads sent to the ready channel before that reading. `fuel` bounds the loops that the state does
-- not bound; `dynamic_graph` is the cargo feature.
pub record Env : Type 1 where
  pub Store : Type 0
  pub upstreams : Store → ℕ → UpStreams
  pub setup : ℕ → Action (World Store) (Unit {0})
  pub start : ℕ → Action (World Store) (Unit {0})
  pub cycle : ℕ → Action (World Store) Bool
  pub stop : ℕ → Action (World Store) (Unit {0})
  pub teardown : ℕ → Action (World Store) (Unit {0})
  pub now : ℕ → ℕ
  pub arrived : ℕ → List ℕ
  pub fuel : ℕ
  pub dynamic_graph : Bool

module _ {S : Type 0} where
  abbrev pub get : Action (World S) GraphState
  get w = (ok w.state, w)

  abbrev pub modify : (GraphState → GraphState) → Action (World S) (Unit {0})
  modify f w = (ok tt, record w { state = f w.state })

  abbrev pub updated : Option GraphState → World S → Result (Unit {0}) × World S
  updated none w = (panic, w)
  updated (some s) w = (ok tt, record w { state = s })

  abbrev pub get_store : Action (World S) S
  get_store w = (ok w.store, w)

  -- A method that may panic.
  abbrev pub update : (GraphState → Option GraphState) → Action (World S) (Unit {0})
  update f w = updated (f w.state) w

-- `NanoTime::now()`
unfoldable pub read_clock : (env : Env) → Action (World env.Store) ℕ
read_clock env w = (
  ok (env.now w.asked),
  record w {
    state = record (w.state) { ready_callbacks = w.state.ready_callbacks ++ env.arrived w.asked };
    asked = w.asked + 1;
  },
)
