-- ===== src/Adapters.antt =====
-- Input and output adapters, as far as they compute.
pub mod Fix
pub mod Statistics
pub mod Slices
pub mod Kdb
pub mod Cache
