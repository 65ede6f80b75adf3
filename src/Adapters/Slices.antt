-- ===== src/Adapters/Slices.antt =====
-- wingfoil/src/adapters/common.rs: the time window of a replay, its filter, and the slices of the run
-- that time-partitioned readers ask for. An i64 is its bit pattern, as in Time.
pub mod Shift
pub mod Day
pub mod Whole
mod Tests
use wingfoil.Base.{
  ℕ, zero, suc, ◌+◌, ◌-◌, ◌*◌, ◌/◌, ◌%◌, max, min, Bool, true, false, ◌&&◌, List, [], ◌∷◌, ◌++◌,
  Option, none, some, ltb, leb, ◌==◌, if◌then◌else◌, u64_mod, u32_mod,
}
use wingfoil.Time.{from_kdb_timestamp, to_kdb_timestamp, Duration, nanos_per_second}

-- The half-open window from `lo` to `hi`.
pub record TimeWindow : Type 0 where
  pub lo : ℕ
  pub hi : ℕ

unfoldable pub clamp : ℕ → ℕ → ℕ → ℕ → TimeWindow
clamp t0 t1 start end_ = record { lo = max t0 start; hi = min t1 end_ }

unfoldable pub contains : TimeWindow → ℕ → Bool
contains w time = leb w.lo time && ltb time w.hi

pub record WindowFilter : Type 0 where
  pub window : TimeWindow
  pub dropped : ℕ

abbrev pub new_filter : TimeWindow → WindowFilter
new_filter w = record { window = w; dropped = 0 }

unfoldable pub keep : ℕ → WindowFilter → Bool × WindowFilter
unfolding contains
keep time f =
    if contains f.window time
    then (true, f)
    else (false, record f { dropped = (f.dropped + 1) % u64_mod })

-- 2 ^ 63: a bit pattern from here on stands for a negative number.
abbrev pub sign : ℕ
sign = 9223372036854775808

abbrev pub day_nanos : ℕ
day_nanos = 86400000000000

-- `a <= b` on i64.
unfoldable pub leb_i64 : ℕ → ℕ → Bool
leb_i64 a b = leb ((a + sign) % u64_mod) ((b + sign) % u64_mod)

abbrev pub sub_i64 : ℕ → ℕ → ℕ
sub_i64 a b = (a + (u64_mod - b)) % u64_mod

-- `div_euclid` by a positive number, which rounds down.
unfoldable pub div_euclid : ℕ → ℕ → ℕ
div_euclid a d = if ltb a sign then a / d else u64_mod - 1 - (u64_mod - 1 - a) / d

abbrev magnitude : ℕ → ℕ
magnitude a = if ltb a sign then a else u64_mod - a

-- `/`, which rounds towards zero; the divisor is not zero.
unfoldable pub div_i64 : ℕ → ℕ → ℕ
div_i64 a b =
    let q = magnitude a / magnitude b in
    if ltb a sign
    then (if ltb b sign then q else (u64_mod - q) % u64_mod)
    else (if ltb b sign then (u64_mod - q) % u64_mod else q % u64_mod)

-- `min` on i64.
unfoldable pub min_i64 : ℕ → ℕ → ℕ
unfolding leb_i64
min_i64 a b = if leb_i64 a b then a else b

-- A slice, as times of the graph, with the day since 2000 as an i32 and its number in the day.
pub record Slice : Type 0 where
  pub t0 : ℕ
  pub t1 : ℕ
  pub kdb_date : ℕ
  pub iteration : ℕ

-- What the loop of a day reads: the day, the last day and the end of the run, and the period.
pub record Plan : Type 0 where
  pub end_day : ℕ
  pub end_kdb : ℕ
  pub period_nanos : ℕ

-- The slices of a round, and whether there is a further one.
pub data Round : Type 0 where
  past_end : Round
  final_slice : Slice → Round
  slice_and_on : Slice → Round

-- The round with the bounds that it computes.
unfoldable pub round_from : Plan → ℕ → ℕ → ℕ → ℕ → ℕ → Round
unfolding leb_i64 min_i64
round_from p day iteration next_midnight_kdb t0 natural_t1 =
    let slice : Slice = record {
      t0 = from_kdb_timestamp t0;
      t1 = from_kdb_timestamp (min_i64 natural_t1 next_midnight_kdb);
      kdb_date = day % u32_mod;
      iteration = iteration;
    } in
    if day == p.end_day && leb_i64 p.end_kdb t0
    then past_end
    else if leb_i64 next_midnight_kdb natural_t1
    then final_slice slice
    else slice_and_on slice

unfoldable pub slice_round : Plan → ℕ → ℕ → Round
unfolding round_from
slice_round p day iteration =
    let midnight_kdb = day * day_nanos % u64_mod in
    let next_midnight_kdb = (midnight_kdb + day_nanos) % u64_mod in
    let t0 = (midnight_kdb + iteration * p.period_nanos) % u64_mod in
    round_from p day iteration next_midnight_kdb t0 ((t0 + p.period_nanos) % u64_mod)

abbrev pub cons_all : List Slice → Option (List Slice) → Option (List Slice)
cons_all front none = none
cons_all front (some slices) = some (front ++ slices)

-- The rounds of a day. `none`: the fuel ran out.
unfoldable pub day_slices : ℕ → Plan → ℕ → ℕ → Option (List Slice)
unfolding slice_round
day_slices zero p day iteration = none
day_slices (suc fuel) p day iteration = elim (slice_round p day iteration) [
  | past_end ↦ some []
  | final_slice s ↦ some (s ∷ [])
  | slice_and_on s ↦ cons_all (s ∷ []) (day_slices fuel p day ((iteration + 1) % u64_mod))
]

-- A day has at most as many rounds as nanoseconds.
abbrev pub day_fuel : ℕ
day_fuel = suc day_nanos

abbrev pub joined_days : Option (List Slice) → Option (List Slice) → Option (List Slice)
joined_days none rest = none
joined_days (some slices) rest = cons_all slices rest

-- The days after the first, given how many are left.
unfoldable pub later_days : ℕ → Plan → ℕ → Option (List Slice)
later_days zero p day = some []
later_days (suc left) p day =
    joined_days (day_slices day_fuel p day 0) (later_days left p ((day + 1) % u64_mod))

-- The loop over the days; without a result where the period, cut to 64 bits, is zero and the division
-- panics.
unfoldable pub slices_from : Plan → ℕ → ℕ → Option (List Slice)
slices_from p start_kdb start_day =
    let first = div_i64 (sub_i64 start_kdb (start_day * day_nanos % u64_mod)) p.period_nanos in
    if leb_i64 start_day p.end_day
    then (if p.period_nanos == 0
        then none
        else joined_days (day_slices day_fuel p start_day first)
            (later_days (sub_i64 p.end_day start_day) p ((start_day + 1) % u64_mod)))
    else some []

-- `as_nanos() as i64`
abbrev pub period_nanos_of : Duration → ℕ
period_nanos_of period = (period.secs * nanos_per_second + period.nanos) % u64_mod

abbrev pub plan_of : ℕ → ℕ → Plan
plan_of end_kdb period_nanos = record {
  end_day = div_euclid (sub_i64 end_kdb 1) day_nanos;
  end_kdb = end_kdb;
  period_nanos = period_nanos;
}

unfoldable pub compute_time_slices : ℕ → ℕ → Duration → Option (List Slice)
compute_time_slices start_time end_time period =
    let start_kdb = to_kdb_timestamp start_time in
    slices_from (plan_of (to_kdb_timestamp end_time) (period_nanos_of period)) start_kdb
      (div_euclid start_kdb day_nanos)

pub data SliceError : Type 0 where
  zero_period zero_start unbounded no_end_time : SliceError

pub data Checked : Type 0 where
  refused : SliceError → Checked
  sliced : Option (List Slice) → Checked

-- `none` for the end: the run does not give one.
unfoldable pub compute_validated_time_slices : ℕ → Option ℕ → Duration → Checked
unfolding compute_time_slices
compute_validated_time_slices start_time end_time period =
    if period.secs == 0 && period.nanos == 0
    then refused zero_period
    else if start_time == 0
    then refused zero_start
    else elim end_time [
      | none ↦ refused no_end_time
      | some t ↦
          if t == u64_mod - 1
          then refused unbounded
          else sliced (compute_time_slices start_time t period)
    ]
