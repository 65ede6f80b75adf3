-- ===== src/Latency.antt =====
-- wingfoil/src/latency.rs: stamps of the stages that a message passes, and their statistics.
pub mod Buckets
pub mod Stats
pub mod Quantile
mod Tests
use wingfoil.Base.{
  ℕ, zero, suc, ◌+◌, ◌-◌, ◌/◌, ◌%◌, ◌^◌, min, Bool, true, false, ◌||◌, List, [], ◌∷◌, Option, none,
  some, ltb, leb, ◌==◌, if◌then◌else◌, length, get_elem?, set, modify_elem, u64_mod,
}

-- A record of stamps is their list, in the order of the stages.
pub record Traced (T : Type 0) : Type 0 where
  pub payload : T
  pub latency : List ℕ

-- `Stage::stamp`; an index out of range panics.
unfoldable pub stamp : ℕ → ℕ → List ℕ → Option (List ℕ)
stamp index t stamps = elim (get_elem? stamps index) [
  | none ↦ none
  | some _ ↦ some (set stamps index t)
]

abbrev carrying : {T : Type 0} → T → Option (List ℕ) → Option (Traced T)
carrying payload none = none
carrying payload (some l) = some (record { payload = payload; latency = l })

-- The cycle of a stamp node: the upstream's value with the cycle's wall time in one stage.
unfoldable pub stamp_cycle : {T : Type 0} → ℕ → ℕ → Traced T → Option (Traced T)
unfolding stamp
stamp_cycle index wall_time upstream =
    carrying upstream.payload (stamp index wall_time upstream.latency)

abbrev pub histogram_buckets : ℕ
histogram_buckets = 64

pub record StageStats : Type 0 where
  pub count : ℕ
  pub sum_ns : ℕ
  pub min_ns : ℕ
  pub max_ns : ℕ
  pub histogram : List ℕ

unfoldable pub zeros : ℕ → List ℕ
zeros zero = []
zeros (suc n) = 0 ∷ zeros n

unfoldable pub empty_stats : StageStats
unfolding zeros
empty_stats = record {
  count = 0;
  sum_ns = 0;
  min_ns = u64_mod - 1;
  max_ns = 0;
  histogram = zeros histogram_buckets;
}

-- The floor of the logarithm of a number below `2 ^ fuel`.
unfoldable pub log2 : ℕ → ℕ → ℕ
log2 zero n = 0
log2 (suc fuel) n = elim (ltb n 2) [ true ↦ 0 | false ↦ suc (log2 fuel (n / 2)) ]

-- `u64::ilog2`, which panics on zero.
unfoldable pub ilog2 : ℕ → Option ℕ
unfolding log2
ilog2 n = if n == 0 then none else some (log2 64 n)

abbrev pub saturating_add : ℕ → ℕ → ℕ
saturating_add a b = min (a + b) (u64_mod - 1)

abbrev pub counted : StageStats → ℕ → ℕ → StageStats
counted s delta_ns bucket = record {
  count = (s.count + 1) % u64_mod;
  sum_ns = saturating_add s.sum_ns delta_ns;
  min_ns = if ltb delta_ns s.min_ns then delta_ns else s.min_ns;
  max_ns = if ltb s.max_ns delta_ns then delta_ns else s.max_ns;
  histogram = modify_elem (λ n. n + 1) s.histogram (min bucket (histogram_buckets - 1));
}

-- `StageStats::record`
unfoldable pub record_delta : ℕ → StageStats → Option StageStats
record_delta delta_ns s = elim (ilog2 ((delta_ns + 1) % u64_mod)) [
  | none ↦ none
  | some bucket ↦ some (counted s delta_ns bucket)
]

unfoldable pub mean_ns : StageStats → ℕ
mean_ns s = if s.count == 0 then 0 else s.sum_ns / s.count

-- The loop of `quantile_ns` over the buckets from `i` on, with the count `cum` before them.
unfoldable pub quantile_from : ℕ → ℕ → ℕ → List ℕ → ℕ → ℕ
quantile_from target i cum [] otherwise_ = otherwise_
quantile_from target i cum (n ∷ ns) otherwise_ = elim (leb target (cum + n)) [
  | true ↦ 2 ^ min (i + 1) 63
  | false ↦ quantile_from target (i + 1) (cum + n) ns otherwise_
]

-- `rank` is `((count as f64) * q).ceil() as u64`.
unfoldable pub quantile_ns : (ℕ → ℕ) → StageStats → ℕ
unfolding quantile_from
quantile_ns rank s =
    if s.count == 0 then 0 else quantile_from (rank s.count) 0 0 s.histogram s.max_ns

abbrev pub kept : List StageStats → ℕ → Option StageStats → Option (List StageStats)
kept stages i none = none
kept stages i (some s) = some (set stages i s)

-- One stage of `LatencyStats::observe`; an index out of range panics.
unfoldable pub observe_stage : ℕ → ℕ → ℕ → List StageStats → Option (List StageStats)
unfolding record_delta
observe_stage i prev cur stages =
    if prev == 0 || cur == 0 || ltb cur prev then some stages else elim (get_elem? stages i) [
      | none ↦ none
      | some s ↦ kept stages i (record_delta (cur - prev) s)
    ]

-- The stages from `i` on, by the stamp before them.
unfoldable pub observe_from : ℕ → ℕ → List ℕ → List StageStats → Option (List StageStats)
unfolding observe_stage
observe_from i prev [] stages = some stages
observe_from i prev (cur ∷ stamps) stages = elim (observe_stage i prev cur stages) [
  | none ↦ none
  | some stages' ↦ observe_from (i + 1) cur stamps stages'
]

-- `LatencyStats::observe`
unfoldable pub observe : List ℕ → List StageStats → Option (List StageStats)
unfolding observe_from
observe [] stages = some stages
observe (first ∷ stamps) stages = observe_from 1 first stamps stages
