-- ===== src/Latency/Quantile.antt =====
-- `quantile_ns` is an upper bound of as many deltas as it is asked for.
use native.Mathlib.Nat.{pow-le-pow_right}
use wingfoil.Base.{
  ℕ, zero, suc, ◌+◌, ◌-◌, ◌^◌, ◌≤◌, ◌<◌, min, ◌≡◌, refl, sym, ap, subst, ◌∙◌, ◌⊎◌, Bool, true,
  false, List, [], ◌∷◌, arith, ltb, leb, ◌==◌, if◌then◌else◌, length, take, All, Bool-cases, inl,
  inr, u64_mod,
}
use wingfoil.Latency.{StageStats, log2, quantile_from, quantile_ns}
use wingfoil.Latency.Buckets.{up_to, bucket_of, log2_lt, up_to_last}
use wingfoil.Latency.Stats.{Summary, sum_of}

-- How many deltas are below a value.
abbrev pub below : ℕ → List ℕ → ℕ
below v [] = 0
below v (d ∷ ds) = (if ltb d v then 1 else 0) + below v ds

-- Where `quantile_from` stops.
abbrev Stops : ℕ → ℕ → List ℕ → Type 0
Stops target v ds = (i : ℕ) × (v ≡ 2 ^ min (i + 1) 63) × (target ≤ up_to i ds)

stop_here :
    (target i cum n : ℕ) (ns : List ℕ) (otherwise_ : ℕ)
    → target ≤ cum + n
    → quantile_from target i cum (n ∷ ns) otherwise_ ≡ 2 ^ min (i + 1) 63
unfolding quantile_from
stop_here target i cum n ns otherwise_ h = ground (arith, h)

go_on :
    (target i cum n : ℕ) (ns : List ℕ) (otherwise_ : ℕ)
    → cum + n < target
    → quantile_from target i cum (n ∷ ns) otherwise_
      ≡ quantile_from target (i + 1) (cum + n) ns otherwise_
unfolding quantile_from
go_on target i cum n ns otherwise_ h = ground (arith, h)

le_or_gt : (a b : ℕ) → (a ≤ b) ⊎ (b < a)
le_or_gt a b = ground arith

plus_zero : (i : ℕ) → i + 0 ≡ i
plus_zero i = omega arith

Stops-now :
    (ns : List ℕ) (target i cum n otherwise_ : ℕ) (ds : List ℕ)
    → ((j : ℕ) → cum + sum_of (take (suc j) (n ∷ ns)) ≡ up_to (i + j) ds)
    → target ≤ cum + n
    → Stops target (quantile_from target i cum (n ∷ ns) otherwise_) ds
Stops-now ns target i cum n otherwise_ ds spread here =
    let all_ : up_to (i + 0) ds ≡ up_to i ds = ap (λ k. up_to k ds) (plus_zero i) in
    (i, stop_here target i cum n ns otherwise_ here, omega (arith, all_, here, spread 0))

quantile_from-Stops :
    (ns : List ℕ) (target i cum n otherwise_ : ℕ) (ds : List ℕ)
    → ((j : ℕ) → cum + sum_of (take (suc j) (n ∷ ns)) ≡ up_to (i + j) ds)
    → target ≤ up_to (i + length ns) ds
    → Stops target (quantile_from target i cum (n ∷ ns) otherwise_) ds
quantile_from-Stops [] target i cum n otherwise_ ds spread enough =
    Stops-now [] target i cum n otherwise_ ds spread
      (omega (arith, spread 0, enough, ap (λ k. up_to k ds) (plus_zero i)))
quantile_from-Stops (m ∷ ms) target i cum n otherwise_ ds spread enough =
    elim (le_or_gt target (cum + n)) [
      | inl here ↦ Stops-now (m ∷ ms) target i cum n otherwise_ ds spread here
      | inr more ↦
          let later : (j : ℕ) → cum + n + sum_of (take (suc j) (m ∷ ms)) ≡ up_to (i + 1 + j) ds =
            λ j. omega arith ∙ spread (suc j) ∙ ap (λ k. up_to k ds) (omega arith) in
          let same : up_to (i + length (m ∷ ms)) ds ≡ up_to (i + 1 + length ms) ds =
            ap (λ k. up_to k ds) (omega arith) in
          let (k, v, reached) =
            quantile_from-Stops ms target (i + 1) (cum + n) m otherwise_ ds later
              (omega (arith, enough, same)) in
          (k, go_on target i cum n (m ∷ ms) otherwise_ more ∙ v, reached)
    ]

bucket_lt : (d i : ℕ) → d + 1 < u64_mod → bucket_of d ≤ i → d + 2 ≤ 2 ^ 63 → d < 2 ^ min (i + 1) 63
bucket_lt d i fits small bound = elim (le_or_gt 62 i) [
  | inl top ↦
      let last : min (i + 1) 63 ≡ 63 = omega (arith, top) in
      subst (λ k. d < 2 ^ k) (sym last) (omega (arith, bound))
  | inr low ↦
      let power =
        pow-le-pow_right {n = 2} (omega arith) {i = suc (log2 64 (d + 1))} {j = min (i + 1) 63}
          (omega (arith, small, low)) in
      omega (arith, power, log2_lt 64 (d + 1) (omega (arith, fits)))
]

up_to-below :
    (i : ℕ) (ds : List ℕ)
    → All (λ d. d + 2 ≤ 2 ^ 63) ds
    → up_to i ds ≤ below (2 ^ min (i + 1) 63) ds
up_to-below i [] small = omega arith
up_to-below i (d ∷ ds) small =
    let rest = up_to-below i ds small.1 in
    elim (Bool-cases (leb (bucket_of d) i)) [
      | inl e ↦
          let lt =
            bucket_lt d i (omega (arith, small.0)) (wingfoil.Base.leb→le (bucket_of d) i e)
              small.0 in
          let t : ltb d (2 ^ min (i + 1) 63) ≡ true = ground (arith, lt) in
          rw (e, t) (omega (arith, rest))
      | inr e ↦ rw e (omega (arith, rest))
    ]

-- If the statistics summarise some deltas below 2^63 - 1, at least as many deltas as the rank
-- asks for are below what `quantile_ns` returns, if the rank is at most their number and there is
-- one.
pub quantile_ns-bound :
    (rank : ℕ → ℕ) (ds : List ℕ) (s : StageStats)
    → Summary ds s
    → 0 < length ds
    → rank (length ds) ≤ length ds
    → All (λ d. d + 2 ≤ 2 ^ 63) ds
    → rank (length ds) ≤ below (quantile_ns rank s) ds
unfolding quantile_ns
quantile_ns-bound rank ds s good some_ds few small = go s.histogram good.buckets good.spread
  where
    go :
        (hist : List ℕ)
        → length hist ≡ 64
        → ((j : ℕ) → sum_of (take (suc j) hist) ≡ up_to j ds)
        → rank (length ds)
          ≤ below (if s.count == 0 then 0 else quantile_from (rank s.count) 0 0 hist s.max_ns) ds
    go [] size spread = absurd (omega (arith, size))
    go (n ∷ ns) size spread =
        let positive : (s.count == 0) ≡ false = ground (arith, good.counts, some_ds) in
        let last : up_to (0 + length ns) ds ≡ length ds =
          ap (λ k. up_to k ds) (omega (arith, size)) ∙ up_to_last ds in
        let (i, v, reached) =
          quantile_from-Stops ns (rank (length ds)) 0 0 n s.max_ns ds
            (λ j. omega arith ∙ spread j ∙ ap (λ k. up_to k ds) (omega arith))
            (omega (arith, last, few)) in
        rw (positive, good.counts) (rw v (omega (arith, reached, up_to-below i ds small)))
