-- ===== src/Nodes.antt =====
-- wingfoil/src/nodes: what the nodes that transform streams keep, and one cycle of each. A cycle takes
-- the values that the node reads from its upstreams.
pub mod Limit
pub mod Distinct
pub mod Throttle
pub mod Buffer
pub mod Window
pub mod Tick
pub mod Delay
pub mod Demux
pub mod Sources
pub mod Feedback
pub mod Values
pub mod Group
mod Tests
use wingfoil.Base.{Bool, true, false, List, [], ◌∷◌, if◌then◌else◌}

-- The values that a node shows in the cycles in which it ticks.
abbrev pub emitted {ℓ κ μ} :
    {S : Type ℓ} {A : Type κ} {B : Type μ} → (S → A → Bool × S) → (S → B) → S → List A → List B
emitted cycle value s [] = []
emitted cycle value s (a ∷ inputs) =
    let (ticked, s') = cycle s a in
    let rest = emitted cycle value s' inputs in if ticked then value s' ∷ rest else rest
