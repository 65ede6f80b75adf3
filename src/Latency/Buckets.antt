-- ===== src/Latency/Buckets.antt =====
-- The buckets of the histogram of StageStats: a delta is in the bucket of the logarithm of one more.
use native.Mathlib.Nat.{pow-le-pow_right}
use wingfoil.Base.{
  ℕ, zero, suc, ◌+◌, ◌/◌, ◌^◌, ◌≤◌, ◌<◌, min, ◌≡◌, refl, sym, ap, subst, ◌∙◌, ◌⊎◌, List, [], ◌∷◌,
  true, arith, ltb, leb, if◌then◌else◌, length, All, inl, inr, u64_mod,
}
use wingfoil.Latency.{log2}

log2_small : (fuel n : ℕ) → n < 2 → log2 (suc fuel) n ≡ 0
unfolding log2
log2_small fuel n h = ground (arith, h)

log2_large : (fuel n : ℕ) → 2 ≤ n → log2 (suc fuel) n ≡ suc (log2 fuel (n / 2))
unfolding log2
log2_large fuel n h = ground (arith, h)

small_or_large : (n : ℕ) → (n < 2) ⊎ (2 ≤ n)
small_or_large n = ground arith

-- A number is below the power of two behind its logarithm.
pub log2_lt : (fuel n : ℕ) → n < 2 ^ fuel → n < 2 ^ suc (log2 fuel n)
unfolding log2
log2_lt zero n fits = omega (arith, fits)
log2_lt (suc fuel) n fits = elim (small_or_large n) [
  | inl small ↦ subst (λ k. n < 2 ^ suc k) (sym (log2_small fuel n small)) (omega (arith, small))
  | inr large ↦
      let half = log2_lt fuel (n / 2) (omega (arith, fits)) in
      subst (λ k. n < 2 ^ suc k) (sym (log2_large fuel n large)) (omega (arith, half))
]

-- The bucket of a delta.
abbrev pub bucket_of : ℕ → ℕ
bucket_of d = min (log2 64 (d + 1)) 63

abbrev pub Fits : ℕ → Type 0
Fits d = d + 1 < u64_mod

-- How many deltas lie in the buckets up to `j`.
abbrev pub up_to : ℕ → List ℕ → ℕ
up_to j [] = 0
up_to j (d ∷ ds) = (if leb (bucket_of d) j then 1 else 0) + up_to j ds

-- A power of two is at most the numbers with its logarithm.
pow-log2 : (fuel n : ℕ) → 1 ≤ n → 2 ^ log2 fuel n ≤ n
unfolding log2
pow-log2 zero n pos = omega (arith, pos)
pow-log2 (suc fuel) n pos = elim (small_or_large n) [
  | inl small ↦ subst (λ k. 2 ^ k ≤ n) (sym (log2_small fuel n small)) (omega (arith, pos))
  | inr large ↦
      let half = pow-log2 fuel (n / 2) (omega (arith, large)) in
      subst (λ k. 2 ^ k ≤ n) (sym (log2_large fuel n large)) (omega (arith, half))
]

-- How many deltas are below a bound by more than one.
abbrev pub smaller : ℕ → List ℕ → ℕ
smaller b [] = 0
smaller b (d ∷ ds) = (if ltb (d + 1) b then 1 else 0) + smaller b ds

bucket-ltb : (d j : ℕ) → Fits d → j < 63 → leb (bucket_of d) j ≡ ltb (d + 1) (2 ^ suc j)
bucket-ltb d j fits low = elim (le_or_gt (log2 64 (d + 1)) j) [
  | inl in_ ↦
      let power =
        pow-le-pow_right {n = 2} (omega arith) {i = suc (log2 64 (d + 1))} {j = suc j}
          (omega (arith, in_)) in
      let above = log2_lt 64 (d + 1) (omega (arith, fits)) in
      both_true (bucket_of d) j (d + 1) (2 ^ suc j) (omega (arith, in_))
        (omega (arith, above, power))
  | inr out ↦
      let power =
        pow-le-pow_right {n = 2} (omega arith) {i = suc j} {j = log2 64 (d + 1)}
          (omega (arith, out)) in
      let below_ = pow-log2 64 (d + 1) (omega arith) in
      both_false (bucket_of d) j (d + 1) (2 ^ suc j) (omega (arith, out, low))
        (omega (arith, below_, power))
]
  where
    le_or_gt : (a b : ℕ) → (a ≤ b) ⊎ (b < a)
    le_or_gt a b = ground arith

    both_true : (a b c e : ℕ) → a ≤ b → c < e → leb a b ≡ ltb c e
    both_true a b c e h k = ground (arith, h, k)

    both_false : (a b c e : ℕ) → b < a → e ≤ c → leb a b ≡ ltb c e
    both_false a b c e h k = ground (arith, h, k)

pub up_to-smaller :
    (j : ℕ) (ds : List ℕ) → All Fits ds → j < 63 → up_to j ds ≡ smaller (2 ^ suc j) ds
up_to-smaller j [] fits low = refl
up_to-smaller j (d ∷ ds) fits low =
    ap (λ b. (if b then 1 else 0) + up_to j ds) (bucket-ltb d j fits.0 low)
    ∙ ap (λ n. (if ltb (d + 1) (2 ^ suc j) then 1 else 0) + n) (up_to-smaller j ds fits.1 low)

pub up_to_last : (ds : List ℕ) → up_to 63 ds ≡ length ds
up_to_last [] = refl
up_to_last (d ∷ ds) =
    let in_range : leb (bucket_of d) 63 ≡ true = ground arith in
    rw in_range (omega (arith, up_to_last ds))
