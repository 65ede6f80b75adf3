-- ===== src/Nodes/Limit.antt =====
-- wingfoil/src/nodes/limit.rs: the first `limit` values of a stream.
use wingfoil.Base.{
  ℕ, zero, suc, ◌+◌, ◌≡◌, refl, ap, Bool, true, false, List, [], ◌∷◌, arith, leb, if◌then◌else◌,
  take,
}
use wingfoil.Nodes.{emitted}

pub record LimitStream (T : Type 0) : Type 0 where
  pub limit : ℕ
  pub tick_count : ℕ
  pub value : T

module _ {T : Type 0} where
  unfoldable pub cycle : LimitStream T → T → Bool × LimitStream T
  cycle s source =
      if leb s.limit s.tick_count
      then (false, s)
      else (true, record s { tick_count = s.tick_count + 1; value = source })

  emitted-cycle :
      (n : ℕ) (s : LimitStream T) (inputs : List T)
      → s.tick_count + n ≡ s.limit
      → emitted cycle (λ s. s.value) s inputs ≡ take n inputs
  unfolding cycle
  emitted-cycle zero s [] h = refl
  emitted-cycle (suc n) s [] h = refl
  emitted-cycle zero s (x ∷ inputs) h =
      let full : leb s.limit s.tick_count ≡ true = ground arith in
      rw full (emitted-cycle zero s inputs h)
  emitted-cycle (suc n) s (x ∷ inputs) h =
      let room : leb s.limit s.tick_count ≡ false = ground arith in
      rw room (
        ap (λ l. x ∷ l)
          (emitted-cycle n (record s { tick_count = s.tick_count + 1; value = x }) inputs
            (omega arith)))

  -- From a fresh limit node the values of the cycles in which it ticks are the first `limit`
  -- values of its source.
  emitted-limit :
      (limit : ℕ) (value : T) (inputs : List T)
      → emitted cycle
          (λ s. s.value)
          (record { limit = limit; tick_count = 0; value = value })
          inputs
        ≡ take limit inputs
  emitted-limit limit value inputs =
      emitted-cycle limit (record { limit = limit; tick_count = 0; value = value }) inputs
        (omega arith)
