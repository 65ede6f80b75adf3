-- ===== src/Graph/Tests/Wiring.antt =====
-- The theorems on the construction of the graph, for two nodes of which one feeds the other.
use wingfoil.Base.{refl, [], ◌∷◌, arith}
use wingfoil.Graph.Env.{World}
use wingfoil.Graph.Tests.{two_env, two_state}
use wingfoil.Graph.Ends.{NotDiverged}
use wingfoil.Graph.Wiring.{declared, initialise_node}
use wingfoil.Graph.Wiring.Invariant.{Registered}
use wingfoil.Graph.Wiring.Loop.{StillRegistered, initialise_node-Registered}
use wingfoil.Graph.Wiring.Termination.{initialise_node-NotDiverged}

-- Before any node is wired.
abbrev empty_world : World Unit
empty_world = record {
  state = record two_state {
    node_to_index = [];
    node_ticked = [];
    nodes = [];
    dirty_nodes_by_layer = [];
    node_dirty = [];
  };
  store = tt;
  asked = 0;
}

empty-Registered : Registered (declared two_env tt) empty_world.state
empty-Registered = record {
  sized = refl;
  found = λ a i h. cc;
  wired = λ i n h. cc;
  unlinked = λ i n h. cc;
  quiet = λ i. refl;
}

initialise_node-Registered_example :
    StillRegistered two_env empty_world (initialise_node two_env 6 empty_world)
initialise_node-Registered_example =
    initialise_node-Registered two_env 6 empty_world empty-Registered

initialise_node-NotDiverged_example : NotDiverged (initialise_node two_env 6 empty_world).0
initialise_node-NotDiverged_example =
    initialise_node-NotDiverged two_env (5 ∷ 6 ∷ []) 6 empty_world (tt, ((refl, tt), tt)) refl
      (omega arith)
