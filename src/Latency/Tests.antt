-- ===== src/Latency/Tests.antt =====
-- The statistics of two deltas, of 5 and of 100 nanoseconds.
use wingfoil.Base.{ℕ, ◌≤◌, ◌≡◌, [], ◌∷◌, some, List, arith, All}
use wingfoil.Latency.{StageStats, empty_stats, quantile_ns}
use wingfoil.Latency.Buckets.{Fits}
use wingfoil.Latency.Stats.{Recorded, record_all, reversed, record_all-Summary}
use wingfoil.Latency.Quantile.{below, quantile_ns-bound}

abbrev deltas : List ℕ
deltas = 5 ∷ 100 ∷ []

deltas-Fits : All Fits deltas
deltas-Fits = (omega arith, (omega arith, tt))

record_all-Summary_example :
    (t : StageStats) × (record_all deltas empty_stats ≡ some t) × Recorded (reversed deltas []) t
record_all-Summary_example = record_all-Summary deltas deltas-Fits (omega arith)

-- The statistics that they leave.
abbrev recorded :
    (t : StageStats) × (record_all deltas empty_stats ≡ some t) × Recorded (100 ∷ 5 ∷ []) t
recorded = record_all-Summary deltas deltas-Fits (omega arith)

-- The higher of the two.
quantile_ns-bound_example : 2 ≤ below (quantile_ns (λ n. n) recorded.0) (100 ∷ 5 ∷ [])
quantile_ns-bound_example =
    quantile_ns-bound (λ n. n) (100 ∷ 5 ∷ []) recorded.0 recorded.2.summary (omega arith)
      (omega arith) (omega arith, (omega arith, tt))
