-- ===== src/Time.antt =====
-- wingfoil/src/time.rs: NanoTime, nanoseconds since the unix epoch as a 64-bit number. A signed 64-bit
-- number is its bit pattern, which is what the casts of the source keep.
use wingfoil.Base.{ℕ, ◌+◌, ◌-◌, ◌*◌, ◌/◌, ◌%◌, ◌<◌, ◌≡◌, arith, u64_mod, if◌then◌else◌, ◌==◌}

abbrev pub nanos_per_second : ℕ
nanos_per_second = 1000000000

abbrev pub kdb_epoch_offset_nanos : ℕ
kdb_epoch_offset_nanos = 946684800000000000

-- `i64::MAX`
abbrev i64_max : ℕ
i64_max = 9223372036854775807

unfoldable pub from_kdb_timestamp : ℕ → ℕ
from_kdb_timestamp kdb_nanos = (kdb_nanos + kdb_epoch_offset_nanos) % u64_mod

unfoldable pub to_kdb_timestamp : ℕ → ℕ
to_kdb_timestamp t =
    if t == u64_mod - 1 then i64_max else (t + (u64_mod - kdb_epoch_offset_nanos)) % u64_mod

-- A Duration is whole seconds and nanoseconds below a second; `as_nanos() as u64` truncates.
pub record Duration : Type 0 where
  pub secs : ℕ
  pub nanos : ℕ

unfoldable pub from_duration : Duration → ℕ
from_duration d = (d.secs * nanos_per_second % u64_mod + d.nanos) % u64_mod

-- `Duration::from_nanos`
unfoldable pub to_duration : ℕ → Duration
to_duration t = record { secs = t / nanos_per_second; nanos = t % nanos_per_second }

-- Every NanoTime below the maximum survives the conversion to a KDB timestamp and back, also
-- before the KDB epoch.
from_kdb_timestamp-to_kdb_timestamp :
    (t : ℕ) → t + 1 < u64_mod → from_kdb_timestamp (to_kdb_timestamp t) ≡ t
unfolding from_kdb_timestamp to_kdb_timestamp
from_kdb_timestamp-to_kdb_timestamp t h = ground arith

-- Every NanoTime survives the conversion to a Duration and back.
pub from_duration-to_duration : (t : ℕ) → t < u64_mod → from_duration (to_duration t) ≡ t
unfolding from_duration to_duration
from_duration-to_duration t h = omega arith
