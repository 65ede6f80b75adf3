-- ===== src/Adapters/Slices/Tests.antt =====
-- The slices of a run over a midnight.
use wingfoil.Base.{ℕ, ◌+◌, ◌<◌, ◌≡◌, refl, [], ◌∷◌, some, arith}
use wingfoil.Time.{Duration, from_kdb_timestamp, to_kdb_timestamp}
use wingfoil.Adapters.Slices.{
  sign, day_nanos, leb_i64, min_i64, div_euclid, div_i64, round_from, slice_round, day_slices,
  later_days, slices_from, compute_time_slices,
}
use wingfoil.Adapters.Slices.Whole.{Sliced, compute_time_slices-Sliced}

-- From 2000-01-01 at 18 to the next day at 1, in slices of 5 hours.
abbrev evening : ℕ
evening = 946749600000000000

abbrev next_day : ℕ
next_day = 946774800000000000

abbrev five_hours : Duration
five_hours = record { secs = 18000; nanos = 0 }

small : next_day + day_nanos + 18000000000000 < sign
small = omega arith

-- From 15 to 20, from 20 to midnight, and from midnight to 5.
evening_slices :
    compute_time_slices evening next_day five_hours
    ≡ some (
        record { t0 = 946738800000000000; t1 = 946756800000000000; kdb_date = 0; iteration = 3 }
        ∷ record { t0 = 946756800000000000; t1 = 946771200000000000; kdb_date = 0; iteration = 4 }
        ∷ record { t0 = 946771200000000000; t1 = 946789200000000000; kdb_date = 1; iteration = 0 }
        ∷ [])
unfolding compute_time_slices slices_from later_days day_slices slice_round round_from leb_i64
    min_i64 div_euclid div_i64 from_kdb_timestamp to_kdb_timestamp
evening_slices = refl

compute_time_slices-Sliced_example :
    Sliced next_day 18000000000000 small evening (compute_time_slices evening next_day five_hours)
compute_time_slices-Sliced_example =
    compute_time_slices-Sliced next_day 18000000000000 small evening five_hours (omega arith) refl
      (omega arith)
