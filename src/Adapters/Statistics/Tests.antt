-- ===== src/Adapters/Statistics/Tests.antt =====
-- A rolling maximum of numbers, over the last two samples.
use wingfoil.Base.{ℕ, ◌+◌, ◌-◌, max, min, ◌≡◌, [], ◌∷◌, ◌++◌, some, arith, leb}
use wingfoil.Adapters.Statistics.{Floats, Extreme, RollingExtremeStream, new}
use wingfoil.Adapters.Statistics.Rolling.{last_n}
use wingfoil.Adapters.Statistics.Extremes.{run, Total, IsExtreme, run-Best}

abbrev naturals : Floats
naturals = record {
  F = ℕ;
  le = leb;
  add = λ a b. a + b;
  sub = λ a b. a - b;
  zero_value = 0;
  minimum = λ a b. min a b;
  maximum = λ a b. max a b;
  nan = 0;
}

naturals-Total : Total naturals
naturals-Total = record {
  total = λ a b h. ground (arith, h);
  transitive = λ a b c h k. ground (arith, h, k);
}

run-Best_example :
    (t : RollingExtremeStream naturals) × (run naturals
        ((5 ∷ 3 ∷ []) ++ 4 ∷ [])
        (new naturals Extreme.max_of 2)
      ≡ some t)
    × IsExtreme naturals Extreme.max_of (last_n (max 2 1) ((5 ∷ 3 ∷ []) ++ 4 ∷ [])) t.value
run-Best_example = run-Best naturals Extreme.max_of 2 (5 ∷ 3 ∷ []) 4 naturals-Total (omega arith)
