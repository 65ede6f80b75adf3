-- ===== src/Nodes/Throttle.antt =====
-- wingfoil/src/nodes/throttle.rs: at most one value per interval.
use wingfoil.Base.{
  ℕ, ◌+◌, ◌-◌, ◌%◌, ◌≤◌, ◌<◌, ◌≡◌, refl, Bool, true, false, List, [], ◌∷◌, Option, none, some,
  arith, leb, if◌then◌else◌, u64_mod, Bool-cases, inl, inr,
}

pub record ThrottleStream (T : Type 0) : Type 0 where
  pub interval : ℕ
  pub last_emit_time : Option ℕ
  pub value : T

-- Neighbours are at least an interval apart.
abbrev pub Spaced : ℕ → ℕ → List ℕ → Type 0
Spaced interval t [] = Unit
Spaced interval t (u ∷ l) = (t + interval ≤ u) × Spaced interval u l

module _ {T : Type 0} where
  -- `now - last` wraps around below zero.
  abbrev pub should_emit : ThrottleStream T → ℕ → Bool
  should_emit s now = elim s.last_emit_time [
    | none ↦ true
    | some last ↦ leb s.interval ((now + (u64_mod - last)) % u64_mod)
  ]

  -- The input is the engine time with the upstream's value.
  unfoldable pub cycle : ThrottleStream T → ℕ × T → Bool × ThrottleStream T
  cycle s (now, upstream) =
      if should_emit s now
      then (true, record s { value = upstream; last_emit_time = some now })
      else (false, s)

  -- The engine time rises from one cycle to the next.
  abbrev pub Rises : ℕ → List (ℕ × T) → Type 0
  Rises t [] = Unit
  Rises t (i ∷ l) = (t ≤ i.0) × (i.0 < u64_mod) × Rises i.0 l

  -- The engine times of the cycles in which the node ticks.
  abbrev pub tick_times : ThrottleStream T → List (ℕ × T) → List ℕ
  tick_times s [] = []
  tick_times s (i ∷ inputs) =
      let (ticked, s') = cycle s i in
      let rest = tick_times s' inputs in if ticked then i.0 ∷ rest else rest

  -- After an emission, while the engine time does not fall, any two successive emissions of a
  -- throttle are at least an interval apart.
  pub emitted-Spaced :
      (s : ThrottleStream T) (last now : ℕ) (inputs : List (ℕ × T))
      → s.last_emit_time ≡ some last
      → last ≤ now
      → Rises now inputs
      → Spaced s.interval last (tick_times s inputs)
  unfolding cycle
  emitted-Spaced s last now [] e le h = tt
  emitted-Spaced s last now ((t, x) ∷ inputs) e le h = elim (Bool-cases (should_emit s t)) [
    | inl due ↦
        let far : last + s.interval ≤ t = ground (arith, e, due, h.0, h.1) in
        rw due (
          far,
          emitted-Spaced (record s { value = x; last_emit_time = some t }) t t inputs refl
              (omega arith) h.2,
        )
    | inr early ↦ rw early (emitted-Spaced s last t inputs e (omega arith) h.2)
  ]
