-- ===== src/Graph/Tests/Run.antt =====
-- A historical run of two nodes for three cycles.
use wingfoil.Base.{refl, arith}
use wingfoil.Graph.State.{RunFor}
use wingfoil.Graph.Env.{World}
use wingfoil.Graph.Ends.{NotDiverged}
use wingfoil.Graph.Run.{run_nodes}
use wingfoil.Graph.Run.Ends.{run_nodes-Ends}
use wingfoil.Graph.Tests.{two_env, two_state}

abbrev three_cycles : World Unit
three_cycles = record {
  state = record two_state { run_for = RunFor.cycles 3 };
  store = tt;
  asked = 0;
}

run_nodes-Ends_example : NotDiverged (run_nodes two_env three_cycles).0
run_nodes-Ends_example =
    run_nodes-Ends two_env three_cycles 100 3 (λ a w. tt) refl refl refl (omega arith) (omega arith)
