-- ===== src/Latency/Stats.antt =====
-- What the statistics of a stage say of the deltas that were recorded.
use wingfoil.Base.{
  ℕ, zero, suc, ◌+◌, ◌-◌, ◌%◌, ◌^◌, ◌≤◌, ◌<◌, min, ◌≡◌, refl, ap, ◌∙◌, ◌⊎◌, false, List, [], ◌∷◌,
  Option, none, some, get_elem?, Bool-cases, arith, ltb, leb, ◌==◌, if◌then◌else◌, length,
  modify_elem, take, All, All-imp, length-modify_elem, inl, inr, u64_mod,
}
use wingfoil.Latency.Buckets.{bucket_of, Fits, up_to, smaller, up_to-smaller, up_to_last}
use wingfoil.Latency.{StageStats, zeros, empty_stats, log2, ilog2, counted, record_delta}

abbrev pub sum_of : List ℕ → ℕ
sum_of [] = 0
sum_of (x ∷ xs) = x + sum_of xs

ilog2-log2 : (n : ℕ) → 0 < n → ilog2 n ≡ some (log2 64 n)
unfolding ilog2
ilog2-log2 n pos = let positive : (n == 0) ≡ false = ground (arith, pos) in rw positive refl

record_delta-counted :
    (d : ℕ) (s : StageStats) → Fits d → record_delta d s ≡ some (counted s d (log2 64 (d + 1)))
unfolding record_delta
record_delta-counted d s fits =
    let whole : (d + 1) % u64_mod ≡ d + 1 = omega (arith, fits) in
    let log : ilog2 ((d + 1) % u64_mod) ≡ some (log2 64 (d + 1)) =
      ap ilog2 whole ∙ ilog2-log2 (d + 1) (omega arith) in
    rw (log, record_delta) refl

-- The deltas one after the other.
abbrev pub record_all : List ℕ → StageStats → Option StageStats
record_all [] s = some s
record_all (d ∷ ds) s = elim (record_delta d s) [ none ↦ none | some t ↦ record_all ds t ]

-- The statistics of a list of deltas.
pub record Summary (ds : List ℕ) (s : StageStats) : Type 0 where
  pub counts : s.count ≡ length ds
  pub adds : s.sum_ns ≡ min (sum_of ds) (u64_mod - 1)
  pub least : All (λ d. s.min_ns ≤ d) ds
  pub greatest : All (λ d. d ≤ s.max_ns) ds
  pub buckets : length s.histogram ≡ 64
  pub spread : (j : ℕ) → sum_of (take (suc j) s.histogram) ≡ up_to j ds

sum-take-modify_elem :
    (xs : List ℕ) (i j : ℕ)
    → i < length xs
    → sum_of (take j (modify_elem (λ n. n + 1) xs i))
      ≡ sum_of (take j xs) + (if ltb i j then 1 else 0)
sum-take-modify_elem [] i j h = absurd (omega arith)
sum-take-modify_elem (x ∷ xs) zero zero h = ground arith
sum-take-modify_elem (x ∷ xs) (suc i) zero h = ground arith
sum-take-modify_elem (x ∷ xs) zero (suc j) h = ground arith
sum-take-modify_elem (x ∷ xs) (suc i) (suc j) h =
    let rest = sum-take-modify_elem xs i j (omega (arith, h)) in ground (arith, rest)

counted-Summary :
    (d : ℕ) (ds : List ℕ) (s : StageStats)
    → length ds + 1 < u64_mod
    → Summary ds s
    → Summary (d ∷ ds) (counted s d (log2 64 (d + 1)))
counted-Summary d ds s fits good = record {
  counts = omega (arith, good.counts, fits);
  adds = omega (arith, good.adds);
  least = (ground arith, All-imp (λ x h. ground (arith, h)) ds good.least);
  greatest = (ground arith, All-imp (λ x h. ground (arith, h)) ds good.greatest);
  buckets = length-modify_elem (λ n. n + 1) s.histogram (bucket_of d) ∙ good.buckets;
  spread = λ j.
      let here : bucket_of d < length s.histogram = omega (arith, good.buckets) in
      let grown = sum-take-modify_elem s.histogram (bucket_of d) (suc j) here in
      let same : ltb (bucket_of d) (suc j) ≡ leb (bucket_of d) j = ltb_leb (bucket_of d) j in
      grown
      ∙ ap (λ b. sum_of (take (suc j) s.histogram) + (if b then 1 else 0)) same
      ∙ omega (arith, good.spread j);
}
  where
    ltb_leb : (a b : ℕ) → ltb a (suc b) ≡ leb a b
    ltb_leb a b = ground arith

sum-take-zeros : (n j : ℕ) → sum_of (take j (zeros n)) ≡ 0
unfolding zeros
sum-take-zeros zero zero = refl
sum-take-zeros zero (suc j) = refl
sum-take-zeros (suc n) zero = refl
sum-take-zeros (suc n) (suc j) = omega (arith, sum-take-zeros n j)

empty-Summary : Summary [] empty_stats
unfolding empty_stats zeros
empty-Summary = record {
  counts = refl;
  adds = refl;
  least = tt;
  greatest = tt;
  buckets = refl;
  spread = λ j. sum-take-zeros 64 (suc j);
}

abbrev pub reversed : List ℕ → List ℕ → List ℕ
reversed [] acc = acc
reversed (d ∷ ds) acc = reversed ds (d ∷ acc)

-- One of the deltas, or the initial value if there is none.
abbrev pub OneOf : ℕ → List ℕ → ℕ → Type 0
OneOf initial ds m = ((ds ≡ []) × (m ≡ initial)) ⊎ ((i : ℕ) × (get_elem? ds i ≡ some m))

record Attained (ds : List ℕ) (s : StageStats) : Type 0 where
  all_fit : All Fits ds
  least_one : OneOf (u64_mod - 1) ds s.min_ns
  greatest_one : OneOf 0 ds s.max_ns

counted-Attained :
    (d : ℕ) (ds : List ℕ) (s : StageStats) (bucket : ℕ)
    → Fits d
    → Attained ds s
    → Attained (d ∷ ds) (counted s d bucket)
counted-Attained d ds s bucket fits good = record {
  all_fit = (fits, good.all_fit);
  least_one = inr (elim (Bool-cases (ltb d s.min_ns)) [
    | inl e ↦ rw e (0, refl)
    | inr e ↦ rw e (elim good.least_one [
      | inl (none_yet, at_top) ↦ absurd (impossible s.min_ns e at_top)
      | inr (i, at) ↦ (suc i, at)
    ])
  ]);
  greatest_one = inr (elim (Bool-cases (ltb s.max_ns d)) [
    | inl e ↦ rw e (0, refl)
    | inr e ↦ rw e (elim good.greatest_one [
      | inl (none_yet, at_zero) ↦ (0, ap some (zero_too s.max_ns e at_zero))
      | inr (i, at) ↦ (suc i, at)
    ])
  ]);
}
  where
    impossible : (m : ℕ) → ltb d m ≡ false → m ≡ u64_mod - 1 → ⊥
    impossible m e h = ground (arith, fits, e, h)

    zero_too : (m : ℕ) → ltb m d ≡ false → m ≡ 0 → d ≡ m
    zero_too m e h = ground (arith, e, h)

record_all-from :
    (ds before : List ℕ) (s : StageStats)
    → Summary before s
    → Attained before s
    → All Fits ds
    → length ds + length before < u64_mod
    → (t : StageStats) × (record_all ds s ≡ some t)
      × Summary (reversed ds before) t
      × Attained (reversed ds before) t
record_all-from [] before s good at_ fits few = (s, refl, good, at_)
record_all-from (d ∷ ds) before s good at_ fits few =
    let s' = counted s d (log2 64 (d + 1)) in
    let (t, e, all_, attained) =
      record_all-from ds (d ∷ before) s' (counted-Summary d before s (omega (arith, few)) good)
        (counted-Attained d before s (log2 64 (d + 1)) fits.0 at_) fits.1 (omega (arith, few)) in
    (t, rw (record_delta-counted d s fits.0, record_all) e, all_, attained)

-- The statistics of deltas, whose minimum and maximum are among them, and whose histogram has in
-- its first buckets the deltas below a power of two, less one.
pub record Recorded (ds : List ℕ) (s : StageStats) : Type 0 where
  pub summary : Summary ds s
  pub least_one : OneOf (u64_mod - 1) ds s.min_ns
  pub greatest_one : OneOf 0 ds s.max_ns
  pub cumulative : (j : ℕ) → j < 63 → sum_of (take (suc j) s.histogram) ≡ smaller (2 ^ suc j) ds
  pub total : sum_of (take 64 s.histogram) ≡ length ds

empty-Attained : Attained [] empty_stats
unfolding empty_stats
empty-Attained = record {
  all_fit = tt;
  least_one = inl (refl, refl);
  greatest_one = inl (refl, refl);
}

-- After fewer than 2^64 deltas below the largest 64-bit number the statistics of a stage have not
-- panicked: they count the deltas and hold their sum up to saturation; the minimum is at most
-- each and is one of them, the maximum is at least each and is one of them, or both are the
-- initial values where there is no delta; and the first j + 1 buckets of the histogram, of 64,
-- hold for j below 63 as many as there are deltas below 2^(j+1) - 1, and all 64 as many as there
-- are deltas.
pub record_all-Summary :
    (ds : List ℕ)
    → All Fits ds
    → length ds < u64_mod
    → (t : StageStats) × (record_all ds empty_stats ≡ some t) × Recorded (reversed ds []) t
record_all-Summary ds fits few =
    let start : Attained [] empty_stats = empty-Attained in
    let (t, e, good, at_) =
      record_all-from ds [] empty_stats empty-Summary start fits (omega (arith, few)) in
    (
      t,
      e,
      record {
        summary = good;
        least_one = at_.least_one;
        greatest_one = at_.greatest_one;
        cumulative = λ j low. good.spread j ∙ up_to-smaller j (reversed ds []) at_.all_fit low;
        total = good.spread 63 ∙ up_to_last (reversed ds []);
      },
    )
