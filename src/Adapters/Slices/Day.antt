-- ===== src/Adapters/Slices/Day.antt =====
-- The slices of one day follow one another up to midnight or the end of the run.
use wingfoil.Base.{
  ℕ, zero, suc, ◌+◌, ◌-◌, ◌*◌, ◌/◌, ◌%◌, ◌≤◌, ◌<◌, ◌≡◌, refl, ap, subst, ◌∙◌, sym, ◌⊎◌, true, false,
  leb, ◌==◌, ◌&&◌, if◌then◌else◌, u64_mod, u32_mod, arith, Bool-cases, inl, inr, List, [], ◌∷◌,
  Option, some,
}
use wingfoil.Adapters.Slices.{
  sign, day_nanos, Plan, Slice, Round, past_end, final_slice, slice_and_on, slice_round, round_from,
  day_slices, cons_all,
}
use wingfoil.Adapters.Slices.Shift.{
  shift, shift_day, from_kdb_timestamp-shift, shift_add, leb_i64-shift, shift_day-midnight,
  shift_day-eq, min_i64-shift,
}

-- The first moment of a slice, and the slice, as times of the graph.
abbrev pub start_of : ℕ → ℕ → ℕ → ℕ
start_of period d i = d * day_nanos + i * period

abbrev earlier : ℕ → ℕ → ℕ
earlier a b = if leb a b then a else b

abbrev pub slice_at : ℕ → ℕ → ℕ → Slice
slice_at period d i = record {
  t0 = start_of period d i;
  t1 = earlier (start_of period d i + period) (d * day_nanos + day_nanos);
  kdb_date = shift_day d % u32_mod;
  iteration = i;
}

abbrev pub last_day : ℕ → ℕ
last_day end_ = (end_ - 1) / day_nanos

abbrev pub plan : ℕ → ℕ → Plan
plan end_ period = record {
  end_day = shift_day (last_day end_);
  end_kdb = shift end_;
  period_nanos = period;
}

module _ (end_ period : ℕ) (fits : end_ + day_nanos + period < sign) where
  abbrev round_at : ℕ → ℕ → Round
  round_at d i =
      if d == last_day end_ && leb end_ (start_of period d i)
      then past_end
      else if leb (d * day_nanos + day_nanos) (start_of period d i + period)
      then final_slice (slice_at period d i)
      else slice_and_on (slice_at period d i)

  round_from-round_at :
      (d i : ℕ)
      → d ≤ last_day end_
      → start_of period d i < d * day_nanos + day_nanos
      → round_from
          (plan end_ period)
          (shift_day d)
          i
          (shift (d * day_nanos + day_nanos))
          (shift (start_of period d i))
          (shift (start_of period d i + period))
        ≡ round_at d i
  unfolding round_from
  round_from-round_at d i le within =
      let t0 : ℕ = start_of period d i in
      let next : ℕ = d * day_nanos + day_nanos in
      rw
        (
          shift_day-eq d (last_day end_) (omega arith) (omega arith),
          leb_i64-shift end_ (start_of period d i) (omega arith) (omega arith),
          leb_i64-shift (d * day_nanos + day_nanos) (start_of period d i + period) (omega arith)
              (omega arith),
          from_kdb_timestamp-shift (start_of period d i) (omega arith),
          min_i64-shift (start_of period d i + period) (d * day_nanos + day_nanos) (omega arith)
              (omega arith),
        )
        refl

  slice_round_lem :
      (d i : ℕ)
      → d ≤ last_day end_
      → start_of period d i < d * day_nanos + day_nanos
      → slice_round (plan end_ period) (shift_day d) i ≡ round_at d i
  unfolding slice_round
  slice_round_lem d i le within =
      let midnight : ℕ = d * day_nanos in
      let k : ℕ = i * period in
      ap
        (λ m.
          round_from (plan end_ period) (shift_day d) i ((m + day_nanos) % u64_mod)
            ((m + k) % u64_mod) (((m + k) % u64_mod + period) % u64_mod))
        (shift_day-midnight d (omega arith))
      ∙ ap
          (λ n.
            round_from (plan end_ period) (shift_day d) i n ((shift midnight + k) % u64_mod)
              (((shift midnight + k) % u64_mod + period) % u64_mod))
          (shift_add midnight day_nanos (omega arith))
      ∙ ap
          (λ t.
            round_from (plan end_ period) (shift_day d) i (shift (midnight + day_nanos)) t
              ((t + period) % u64_mod))
          (shift_add midnight k (omega arith))
      ∙ ap
          (λ n.
            round_from (plan end_ period) (shift_day d) i (shift (midnight + day_nanos))
              (shift (midnight + k)) n)
          (shift_add (midnight + k) period (omega arith))
      ∙ round_from-round_at d i le within

  -- The slice lies in one day and before the end, is not empty and no longer than the period, and
  -- starts where its number says.
  pub record Fits (s : Slice) : Type 0 where
    pub day : ℕ
    pub date : s.kdb_date ≡ shift_day day % u32_mod
    pub at : s.t0 ≡ start_of period day s.iteration
    pub midnight : s.t1 ≤ day * day_nanos + day_nanos
    pub some_time : s.t0 < s.t1
    pub short : s.t1 ≤ s.t0 + period
    pub before_end : s.t0 < end_

  -- The slices follow one another without a gap from `lo` to `hi`.
  abbrev pub Tiles : ℕ → List Slice → ℕ → Type 0
  Tiles lo [] hi = lo ≡ hi
  Tiles lo (s ∷ slices) hi = (s.t0 ≡ lo) × Fits s × Tiles s.t1 slices hi

  -- Where the slices of a day end: at midnight, or on the last day behind the end of the run.
  abbrev pub Ends : ℕ → ℕ → Type 0
  Ends d hi = (hi ≡ d * day_nanos + day_nanos) ⊎ ((d ≡ last_day end_) × (end_ ≤ hi))

  pub record Tiled (lo d : ℕ) (r : Option (List Slice)) : Type 0 where
    pub slices : List Slice
    pub returns : r ≡ some slices
    pub hi : ℕ
    pub tiles : Tiles lo slices hi
    pub ends : Ends d hi

  slice_at-Fits :
      (d i : ℕ)
      → 0 < period
      → d ≤ last_day end_
      → start_of period d i < d * day_nanos + day_nanos
      → ((d == last_day end_) && leb end_ (start_of period d i)) ≡ false
      → 0 < end_
      → Fits (slice_at period d i)
  slice_at-Fits d i pos le within open_ more = record {
    day = d;
    date = refl;
    at = refl;
    midnight = ground arith;
    some_time = ground arith;
    short = ground arith;
    before_end = ground arith;
  }

  -- The end of a day's last slice, and of any other.
  t1-final :
      (d i : ℕ)
      → leb (d * day_nanos + day_nanos) (start_of period d i + period) ≡ true
      → (slice_at period d i).t1 ≡ d * day_nanos + day_nanos
  t1-final d i h = ground arith

  t1-next :
      (d i : ℕ)
      → leb (d * day_nanos + day_nanos) (start_of period d i + period) ≡ false
      → ((slice_at period d i).t1 ≡ start_of period d (i + 1))
        × (start_of period d (i + 1) < d * day_nanos + day_nanos)
        × (start_of period d (i + 1) ≡ start_of period d i + period)
  t1-next d i h =
      let step : (i + 1) * period ≡ i * period + period = grind arith in
      let below : start_of period d i + period < d * day_nanos + day_nanos = ground arith in
      let t1_is : (slice_at period d i).t1 ≡ start_of period d i + period = ground arith in
      (omega (arith, t1_is, step), omega (arith, below, step), omega (arith, step))

  le-product : (i : ℕ) → 0 < period → i ≤ i * period
  le-product i pos = grind arith

  -- A round, given what it finds and what the others return.
  abbrev after_round : Round → Option (List Slice) → Option (List Slice)
  after_round past_end rest = some []
  after_round (final_slice s) rest = some (s ∷ [])
  after_round (slice_and_on s) rest = cons_all (s ∷ []) rest

  by_round :
      (r : Round) (rest : Option (List Slice))
      → (elim r as (λ _. Option (List Slice)) [
        | past_end ↦ some []
        | final_slice s ↦ some (s ∷ [])
        | slice_and_on s ↦ cons_all (s ∷ []) rest
      ])
        ≡ after_round r rest
  by_round past_end rest = refl
  by_round (final_slice s) rest = refl
  by_round (slice_and_on s) rest = refl

  day_slices-step :
      (fuel d i : ℕ)
      → d ≤ last_day end_
      → start_of period d i < d * day_nanos + day_nanos
      → 0 < period
      → day_slices (suc fuel) (plan end_ period) (shift_day d) i
        ≡ after_round (round_at d i) (day_slices fuel (plan end_ period) (shift_day d) (i + 1))
  unfolding day_slices
  day_slices-step fuel d i le within pos =
      let no_wrap : (i + 1) % u64_mod ≡ i + 1 = omega (arith, le-product i pos) in
      by_round (slice_round (plan end_ period) (shift_day d) i)
        (day_slices fuel (plan end_ period) (shift_day d) ((i + 1) % u64_mod))
      ∙ ap
          (λ r.
            after_round r (day_slices fuel (plan end_ period) (shift_day d) ((i + 1) % u64_mod)))
          (slice_round_lem d i le within)
      ∙ ap (λ j. after_round (round_at d i) (day_slices fuel (plan end_ period) (shift_day d) j))
          no_wrap

  no_slice :
      (d i : ℕ)
      → ((d == last_day end_) && leb end_ (start_of period d i)) ≡ true
      → Tiled (start_of period d i) d (some [])
  no_slice d i e = record {
    slices = [];
    returns = refl;
    hi = start_of period d i;
    tiles = refl;
    ends = inr (ground arith, ground arith);
  }

  -- One round, given what the others make.
  round-Tiled :
      (d i : ℕ) (rest : Option (List Slice))
      → 0 < end_
      → 0 < period
      → d ≤ last_day end_
      → start_of period d i < d * day_nanos + day_nanos
      → ((start_of period d (i + 1) < d * day_nanos + day_nanos)
          → (start_of period d (i + 1) ≡ start_of period d i + period)
          → Tiled (start_of period d (i + 1)) d rest)
      → Tiled (start_of period d i) d (after_round (round_at d i) rest)
  round-Tiled d i rest more pos le within ih =
      elim (Bool-cases ((d == last_day end_) && leb end_ (start_of period d i))) [
        | inl e ↦ rw e (no_slice d i e)
        | inr e ↦
            elim (Bool-cases (leb (d * day_nanos + day_nanos) (start_of period d i + period))) [
              | inl e' ↦ rw e (
                  rw e' (record {
                    slices = slice_at period d i ∷ [];
                    returns = refl;
                    hi = (slice_at period d i).t1;
                    tiles = (refl, slice_at-Fits d i pos le within e more, refl);
                    ends = inl (t1-final d i e');
                  }))
              | inr e' ↦
                  let (t1_is, below, next) = t1-next d i e' in
                  let later = ih below next in
                  rw e (
                    rw e' (record {
                      slices = slice_at period d i ∷ later.slices;
                      returns = ap (cons_all (slice_at period d i ∷ [])) later.returns;
                      hi = later.hi;
                      tiles = (
                        refl,
                        slice_at-Fits d i pos le within e more,
                        subst (λ t. Tiles t later.slices later.hi) (sym t1_is) later.tiles,
                      );
                      ends = later.ends;
                    }))
            ]
      ]

  pub day_slices-Tiled :
      (fuel d i : ℕ)
      → 0 < end_
      → 0 < period
      → d ≤ last_day end_
      → start_of period d i < d * day_nanos + day_nanos
      → d * day_nanos + day_nanos < start_of period d i + fuel
      → Tiled (start_of period d i) d (day_slices fuel (plan end_ period) (shift_day d) i)
  day_slices-Tiled zero d i more pos le within enough = absurd (omega arith)
  day_slices-Tiled (suc fuel) d i more pos le within enough =
      subst (Tiled (start_of period d i) d) (sym (day_slices-step fuel d i le within pos)) (
        round-Tiled d i (day_slices fuel (plan end_ period) (shift_day d) (i + 1)) more pos le
          within
          (λ below next. day_slices-Tiled fuel d (i + 1) more pos le below (omega (arith, next))))
