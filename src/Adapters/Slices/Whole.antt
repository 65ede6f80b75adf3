-- ===== src/Adapters/Slices/Whole.antt =====
-- The slices of a run cover it without gap or overlap.
use wingfoil.Base.{
  true, false, ℕ, zero, suc, ◌+◌, ◌-◌, ◌*◌, ◌/◌, ◌%◌, ◌≤◌, ◌<◌, ◌≡◌, refl, ap, subst, ◌∙◌, sym, inl,
  inr, ◌==◌, u64_mod, arith, List, [], ◌∷◌, ◌++◌, Option, some,
}
use wingfoil.Time.{to_kdb_timestamp, Duration}
use wingfoil.Adapters.Slices.{
  sign, day_nanos, sub_i64, div_i64, div_euclid, slices_from, plan_of, period_nanos_of, leb_i64,
  Slice, day_slices, later_days, day_fuel, cons_all, joined_days, compute_time_slices,
}
use wingfoil.Adapters.Slices.Shift.{
  shift, shift_day, to_kdb_timestamp-shift, div_euclid-shift, shift_before, shift_day-midnight,
  sub_i64-shift, sub_i64-shift_day, shift_day_next, leb_i64-shift_day, div_i64-positive,
}
use wingfoil.Adapters.Slices.Day.{start_of, last_day, plan, Tiles, Tiled, day_slices-Tiled}

module _ (end_ period : ℕ) (fits : end_ + day_nanos + period < sign) where
  Tiles-append :
      (lo mid hi : ℕ) (front back : List Slice)
      → Tiles end_ period fits lo front mid
      → Tiles end_ period fits mid back hi
      → Tiles end_ period fits lo (front ++ back) hi
  Tiles-append lo mid hi [] back a b = subst (λ m. Tiles end_ period fits m back hi) (sym a) b
  Tiles-append lo mid hi (s ∷ front) back a b =
      (a.0, a.1, Tiles-append s.t1 mid hi front back a.2 b)

  -- The slices that are left from `lo` on reach the end.
  record Covers (lo : ℕ) (r : Option (List Slice)) : Type 0 where
    slices : List Slice
    returns : r ≡ some slices
    hi : ℕ
    tiles : Tiles end_ period fits lo slices hi
    reaches : end_ ≤ hi

  joined-Covers :
      (lo : ℕ) (front : List Slice) (mid : ℕ) {r rest : Option (List Slice)}
      → r ≡ some front
      → Tiles end_ period fits lo front mid
      → Covers mid rest
      → Covers lo (joined_days r rest)
  joined-Covers lo front mid {r} {rest} e tiles later = record {
    slices = front ++ later.slices;
    returns = ap (λ x. joined_days x rest) e ∙ ap (cons_all front) later.returns;
    hi = later.hi;
    tiles = Tiles-append lo mid later.hi front later.slices tiles later.tiles;
    reaches = later.reaches;
  }

  joined_days-Covers :
      (lo d left : ℕ) (r rest : Option (List Slice))
      → d + left ≡ last_day end_
      → Tiled end_ period fits lo d r
      → (left ≡ 0 → rest ≡ some [])
      → Covers ((d + 1) * day_nanos) rest
      → Covers lo (joined_days r rest)
  joined_days-Covers lo d left r rest last today none_left later = elim today.ends [
    | inl at ↦
        joined-Covers lo today.slices today.hi today.returns today.tiles
          (subst (λ m. Covers m rest) (omega (arith, at)) later)
    | inr (at, reached) ↦ joined-Covers lo today.slices today.hi today.returns today.tiles (record {
      slices = [];
      returns = none_left (omega (arith, at));
      hi = today.hi;
      tiles = refl;
      reaches = reached;
    })
  ]

  later_days-step :
      (left d : ℕ)
      → d < sign
      → later_days (suc left) (plan end_ period) (shift_day d)
        ≡ joined_days
            (day_slices day_fuel (plan end_ period) (shift_day d) 0)
            (later_days left (plan end_ period) (shift_day (d + 1)))
  unfolding later_days
  later_days-step left d h =
      ap
        (λ x.
          joined_days (day_slices day_fuel (plan end_ period) (shift_day d) 0)
            (later_days left (plan end_ period) x))
        (shift_day_next d h)

  no_days : (left d : ℕ) → left ≡ 0 → later_days left (plan end_ period) d ≡ some []
  unfolding later_days
  no_days left d e = ap (λ x. later_days x (plan end_ period) d) e

  later_days-Covers :
      (left d : ℕ)
      → 0 < end_
      → 0 < period
      → d + left ≡ last_day end_ + 1
      → Covers (d * day_nanos) (later_days left (plan end_ period) (shift_day d))
  unfolding later_days
  later_days-Covers zero d more pos last = record {
    slices = [];
    returns = refl;
    hi = d * day_nanos;
    tiles = refl;
    reaches = omega arith;
  }
  later_days-Covers (suc left) d more pos last =
      let at : start_of period d 0 ≡ d * day_nanos = omega arith in
      let today =
        day_slices-Tiled end_ period fits day_fuel d 0 more pos (omega arith) (omega arith)
          (omega arith) in
      subst (Covers (d * day_nanos)) (sym (later_days-step left d (omega arith))) (
        joined_days-Covers (d * day_nanos) d left _ _ (omega arith)
          (subst
            (λ m.
              Tiled end_ period fits m d (day_slices day_fuel (plan end_ period) (shift_day d) 0))
            at today)
          (no_days left (shift_day (d + 1)))
          (later_days-Covers left (d + 1) more pos (omega arith)))

  plan_of-plan : 0 < end_ → plan_of (shift end_) period ≡ plan end_ period
  plan_of-plan more =
      ap (λ d. record { end_day = d; end_kdb = shift end_; period_nanos = period })
        (ap (λ t. div_euclid t day_nanos) (shift_before end_ more (omega arith))
          ∙ div_euclid-shift (end_ - 1) (omega arith))

  -- The number of the slice of a day in which the run starts.
  abbrev first_of : ℕ → ℕ
  first_of start = (start - start / day_nanos * day_nanos) / period

  slices_from-plan :
      (start : ℕ)
      → start < end_
      → 0 < period
      → slices_from (plan end_ period) (shift start) (shift_day (start / day_nanos))
        ≡ joined_days
            (day_slices day_fuel
              (plan end_ period)
              (shift_day (start / day_nanos))
              (first_of start))
            (later_days
              (last_day end_ - start / day_nanos)
              (plan end_ period)
              (shift_day (start / day_nanos + 1)))
  unfolding slices_from
  slices_from-plan start before pos =
      let d : ℕ = start / day_nanos in
      let in_order : leb_i64 (shift_day d) (shift_day (last_day end_)) ≡ true =
        leb_i64-shift_day d (last_day end_) (omega arith) (omega arith) ∙ ground arith in
      let not_zero : (period == 0) ≡ false = ground arith in
      let into_day : sub_i64 (shift start) (shift_day d * day_nanos % u64_mod)
          ≡ start - d * day_nanos =
        ap (λ m. sub_i64 (shift start) m) (shift_day-midnight d (omega arith))
        ∙ sub_i64-shift start (d * day_nanos) (omega arith) (omega arith) in
      let first_is : div_i64 (sub_i64 (shift start) (shift_day d * day_nanos % u64_mod)) period
          ≡ first_of start =
        ap (λ m. div_i64 m period) into_day
        ∙ div_i64-positive (start - d * day_nanos) period (omega arith) (omega arith) in
      rw in_order (
        rw not_zero (
          ap
            (λ i. joined_days (day_slices day_fuel (plan end_ period) (shift_day d) i) (
              later_days (sub_i64 (shift_day (last_day end_)) (shift_day d)) (plan end_ period)
                ((shift_day d + 1) % u64_mod)))
            first_is
          ∙ ap
              (λ n.
                joined_days (day_slices day_fuel (plan end_ period) (shift_day d) (first_of start))
                  (later_days n (plan end_ period) ((shift_day d + 1) % u64_mod)))
              (sub_i64-shift_day (last_day end_) d (omega arith) (omega arith))
          ∙ ap
              (λ n.
                joined_days (day_slices day_fuel (plan end_ period) (shift_day d) (first_of start))
                  (later_days (last_day end_ - d) (plan end_ period) n))
              (shift_day_next d (omega arith))))

  first_bounds :
      (start : ℕ)
      → 0 < period
      → (start_of period (start / day_nanos) (first_of start) ≤ start)
        × (start < start_of period (start / day_nanos) (first_of start) + period)
        × (start / day_nanos * day_nanos ≤ start_of period (start / day_nanos) (first_of start))
  first_bounds start pos =
      let r : ℕ = start - start / day_nanos * day_nanos in
      let below : r / period * period ≤ r = grind arith in
      let above : r < r / period * period + period = grind arith in
      (omega (arith, below), omega (arith, above), omega arith)

  -- What `compute_time_slices` returns for a run from `start`.
  pub record Sliced (start : ℕ) (r : Option (List Slice)) : Type 0 where
    pub slices : List Slice
    pub returns : r ≡ some slices
    pub lo : ℕ
    pub hi : ℕ
    pub tiles : Tiles end_ period fits lo slices hi
    pub from_start : lo ≤ start
    pub near_start : start < lo + period
    pub same_day : lo / day_nanos ≡ start / day_nanos
    pub to_end : end_ ≤ hi

  -- For a run from a start before its end, with a positive period that the 64 bits hold, and an
  -- end that leaves room for a day and a period below 2^63, `compute_time_slices` returns slices
  -- that lie end to end without a gap, from a period boundary of the start's day, at or less than
  -- a period before the start, up to the end or behind it; each is not empty, no longer than the
  -- period, within a day, and carries that day and its number in the day.
  pub compute_time_slices-Sliced :
      (start : ℕ) (length_ : Duration)
      → start < end_
      → period_nanos_of length_ ≡ period
      → 0 < period
      → Sliced start (compute_time_slices start end_ length_)
  unfolding compute_time_slices
  compute_time_slices-Sliced start length_ before same pos =
      let d : ℕ = start / day_nanos in
      let (low, high, in_day) = first_bounds start pos in
      let as_planned : compute_time_slices start end_ length_
          ≡ slices_from (plan end_ period) (shift start) (shift_day d) =
        ap
          (λ t.
            slices_from (plan_of (to_kdb_timestamp end_) (period_nanos_of length_)) t
              (div_euclid t day_nanos))
          (to_kdb_timestamp-shift start (omega arith))
        ∙ ap
            (λ t.
              slices_from (plan_of t (period_nanos_of length_)) (shift start)
                (div_euclid (shift start) day_nanos))
            (to_kdb_timestamp-shift end_ (omega arith))
        ∙ ap
            (λ n.
              slices_from (plan_of (shift end_) n) (shift start)
                (div_euclid (shift start) day_nanos))
            same
        ∙ ap (λ p. slices_from p (shift start) (div_euclid (shift start) day_nanos))
            (plan_of-plan (omega arith))
        ∙ ap (λ x. slices_from (plan end_ period) (shift start) x)
            (div_euclid-shift start (omega arith)) in
      let all_ =
        joined_days-Covers (start_of period d (first_of start)) d (last_day end_ - d) _ _
          (omega arith)
          (day_slices-Tiled end_ period fits day_fuel d (first_of start) (omega arith) pos
            (omega arith) (omega (arith, low)) (omega (arith, in_day)))
          (no_days (last_day end_ - d) (shift_day (d + 1)))
          (later_days-Covers (last_day end_ - d) (d + 1) (omega arith) pos (omega arith)) in
      record {
        slices = all_.slices;
        returns = as_planned ∙ slices_from-plan start before pos ∙ all_.returns;
        lo = start_of period d (first_of start);
        hi = all_.hi;
        tiles = all_.tiles;
        from_start = low;
        near_start = high;
        same_day = omega (arith, low, in_day);
        to_end = all_.reaches;
      }
