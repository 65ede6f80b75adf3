-- ===== src/Adapters/Slices/Shift.antt =====
-- What the arithmetic of `compute_time_slices` on i64 means for times of the graph.
use wingfoil.Base.{
  ℕ, ◌+◌, ◌-◌, ◌*◌, ◌/◌, ◌%◌, ◌≤◌, ◌<◌, ◌≡◌, leb, ◌==◌, if◌then◌else◌, u64_mod, arith, Bool-cases,
  inl, inr,
}
use wingfoil.Time.{from_kdb_timestamp, to_kdb_timestamp, kdb_epoch_offset_nanos}
use wingfoil.Adapters.Slices.{sign, day_nanos, leb_i64, min_i64, sub_i64, div_euclid, div_i64}

-- The KDB timestamp of a time as a bit pattern, and the day since 2000 of a day since 1970.
abbrev pub shift : ℕ → ℕ
shift t = (t + (u64_mod - kdb_epoch_offset_nanos)) % u64_mod

abbrev pub shift_day : ℕ → ℕ
shift_day d = (d + (u64_mod - 10957)) % u64_mod

pub to_kdb_timestamp-shift : (t : ℕ) → t < sign → to_kdb_timestamp t ≡ shift t
unfolding to_kdb_timestamp
to_kdb_timestamp-shift t h = ground arith

pub from_kdb_timestamp-shift : (t : ℕ) → t < sign → from_kdb_timestamp (shift t) ≡ t
unfolding from_kdb_timestamp
from_kdb_timestamp-shift t h = omega arith

pub shift_add : (t k : ℕ) → t + k < sign → (shift t + k) % u64_mod ≡ shift (t + k)
shift_add t k h = omega arith

pub leb_i64-shift : (a b : ℕ) → a < sign → b < sign → leb_i64 (shift a) (shift b) ≡ leb a b
unfolding leb_i64
leb_i64-shift a b ha hb = ground arith

pub min_i64-shift :
    (a b : ℕ)
    → a < sign
    → b < sign
    → from_kdb_timestamp (min_i64 (shift a) (shift b)) ≡ (if leb a b then a else b)
unfolding min_i64
min_i64-shift a b ha hb = elim (Bool-cases (leb a b)) [
  | inl e ↦ rw (leb_i64-shift a b ha hb) (rw e (from_kdb_timestamp-shift a ha))
  | inr e ↦ rw (leb_i64-shift a b ha hb) (rw e (from_kdb_timestamp-shift b hb))
]

pub shift_before : (t : ℕ) → 0 < t → t < sign → sub_i64 (shift t) 1 ≡ shift (t - 1)
shift_before t h k = omega arith

pub div_euclid-shift :
    (t : ℕ) → t < sign → div_euclid (shift t) day_nanos ≡ shift_day (t / day_nanos)
unfolding div_euclid
div_euclid-shift t h = ground arith

pub shift_day-midnight :
    (d : ℕ) → d * day_nanos < sign → shift_day d * day_nanos % u64_mod ≡ shift (d * day_nanos)
shift_day-midnight d h = omega arith

pub shift_day-eq : (a b : ℕ) → a < sign → b < sign → (shift_day a == shift_day b) ≡ (a == b)
shift_day-eq a b ha hb = ground arith

pub sub_i64-shift : (a b : ℕ) → b ≤ a → a < sign → sub_i64 (shift a) (shift b) ≡ a - b
sub_i64-shift a b h k = omega arith

pub sub_i64-shift_day : (a b : ℕ) → b ≤ a → a < sign → sub_i64 (shift_day a) (shift_day b) ≡ a - b
sub_i64-shift_day a b h k = omega arith

pub shift_day_next : (d : ℕ) → d < sign → (shift_day d + 1) % u64_mod ≡ shift_day (d + 1)
shift_day_next d h = omega arith

pub leb_i64-shift_day :
    (a b : ℕ) → a < sign → b < sign → leb_i64 (shift_day a) (shift_day b) ≡ leb a b
unfolding leb_i64
leb_i64-shift_day a b ha hb = ground arith

pub div_i64-positive : (a b : ℕ) → a < sign → b < sign → div_i64 a b ≡ a / b
unfolding div_i64
div_i64-positive a b ha hb = ground arith
