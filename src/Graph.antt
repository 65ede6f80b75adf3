-- ===== src/Graph.antt =====
-- wingfoil/src/graph.rs: the engine that wires a graph of nodes and runs its cycles.
pub mod Effects
pub mod Ends
pub mod State
pub mod Env
pub mod Wiring
pub mod Dynamic
pub mod Cycle
pub mod Callbacks
pub mod Run
mod Tests
