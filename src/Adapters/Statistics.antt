-- ===== src/Adapters/Statistics.antt =====
-- wingfoil/src/adapters/statistics.rs: the incremental nodes over the last samples of a stream. A
-- `f64` is a parameter with its comparison and its arithmetic.
pub mod Window
pub mod Rolling
pub mod Extremes
mod Tests
use wingfoil.Base.{
  ℕ, suc, ◌+◌, ◌-◌, ◌%◌, max, Bool, true, false, List, [], ◌∷◌, ◌++◌, Option, none, some, ltb, leb,
  if◌then◌else◌, length, u64_mod,
}

-- `le a b` is `a <= b`; both it and `le b a` are false where one is not a number.
pub record Floats : Type 1 where
  pub F : Type 0
  pub le : F → F → Bool
  pub add : F → F → F
  pub sub : F → F → F
  pub zero_value : F
  pub minimum : F → F → F
  pub maximum : F → F → F
  pub nan : F

pub data Extreme : Type 0 where
  min_of max_of : Extreme

pub data CumulativeStat : Type 0 where
  sum_stat min_stat max_stat : CumulativeStat

module _ (floats : Floats) where
  open floats use {F, le}

  pub record RollingExtremeStream : Type 0 where
    pub extreme : Extreme
    pub window : ℕ
    pub deque : List (ℕ × F)
    pub index : ℕ
    pub value : F

  unfoldable pub new : Extreme → ℕ → RollingExtremeStream
  new extreme_ window_ = record {
    extreme = extreme_;
    window = max window_ 1;
    deque = [];
    index = 0;
    value = floats.nan;
  }

  -- The value at the back is no better than the sample.
  abbrev pub dominated : Extreme → F → F → Bool
  dominated Extreme.min_of back sample = le sample back
  dominated Extreme.max_of back sample = le back sample

  -- `pop_back` as long as the test holds of the back.
  unfoldable pub pop_back_while : (ℕ × F → Bool) → List (ℕ × F) → List (ℕ × F)
  pop_back_while p [] = []
  pop_back_while p (x ∷ xs) = elim (pop_back_while p xs) [
    | [] ↦ if p x then [] else x ∷ []
    | y ∷ ys ↦ x ∷ y ∷ ys
  ]

  -- `pop_front` as long as the test holds of the front.
  unfoldable pub pop_front_while : (ℕ × F → Bool) → List (ℕ × F) → List (ℕ × F)
  pop_front_while p [] = []
  pop_front_while p (x ∷ xs) = if p x then pop_front_while p xs else x ∷ xs

  -- The deque behind a sample.
  unfoldable pub pushed : Extreme → ℕ → List (ℕ × F) → ℕ → F → List (ℕ × F)
  unfolding pop_back_while pop_front_while
  pushed extreme_ window_ deque_ i sample =
      pop_front_while (λ c. leb window_ (i - c.0))
        (pop_back_while (λ c. dominated extreme_ c.1 sample) deque_ ++ (i, sample) ∷ [])

  abbrev pub front : List (ℕ × F) → Option (ℕ × F)
  front [] = none
  front (c ∷ deque_) = some c

  -- `none` is the panic of `expect` on an empty deque.
  unfoldable pub cycle : F → RollingExtremeStream → Option RollingExtremeStream
  cycle sample s =
      let deque_ = pushed s.extreme s.window s.deque s.index sample in
      elim (front deque_) [
        | none ↦ none
        | some (j, v) ↦
            some (record s { deque = deque_; index = (s.index + 1) % u64_mod; value = v })
      ]

  -- Incremental rolling sum.
  pub record RollingSumStream : Type 0 where
    pub window : ℕ
    pub buffer : List F
    pub sum : F
    pub value : F

  unfoldable pub new_sum : ℕ → RollingSumStream
  new_sum window_ = record {
    window = max window_ 1;
    buffer = [];
    sum = floats.zero_value;
    value = floats.nan;
  }

  -- `none` is the panic of `expect` on an empty buffer.
  unfoldable pub sum_cycle : F → RollingSumStream → Option RollingSumStream
  sum_cycle sample s =
      let buffer_ = s.buffer ++ sample ∷ [] in
      let sum_ = floats.add s.sum sample in
      if ltb s.window (length buffer_)
      then elim buffer_ [
        | [] ↦ none
        | oldest ∷ rest ↦ some (record s {
          buffer = rest;
          sum = floats.sub sum_ oldest;
          value = floats.sub sum_ oldest;
        })
      ]
      else some (record s { buffer = buffer_; sum = sum_; value = sum_ })

  pub record CumulativeStream : Type 0 where
    pub stat : CumulativeStat
    pub acc : F
    pub seeded : Bool
    pub value : F

  unfoldable pub new_cumulative : CumulativeStat → CumulativeStream
  new_cumulative stat_ = record {
    stat = stat_;
    acc = floats.zero_value;
    seeded = false;
    value = floats.nan;
  }

  abbrev accumulate : CumulativeStat → F → F → F
  accumulate sum_stat acc_ sample = floats.add acc_ sample
  accumulate min_stat acc_ sample = floats.minimum acc_ sample
  accumulate max_stat acc_ sample = floats.maximum acc_ sample

  unfoldable pub cumulative_cycle : F → CumulativeStream → CumulativeStream
  cumulative_cycle sample s =
      let acc_ = if s.seeded then accumulate s.stat s.acc sample else sample in
      record s { acc = acc_; seeded = true; value = acc_ }
