-- ===== src/Nodes/Distinct.antt =====
-- wingfoil/src/nodes/distinct.rs: a stream without immediate repetitions.
use wingfoil.Base.{
  ◌≡◌, Bool, true, false, List, [], ◌∷◌, Option, none, some, if◌then◌else◌, Bool-cases, inl, inr,
}
use wingfoil.Queue.{PartialEq}
use wingfoil.Nodes.{emitted}

pub record DistinctStream (T : Type 0) : Type 0 where
  pub value : T
  pub last : Option T

module _ {T : Type 0} ⦃p : PartialEq T⦄ where
  -- `self.last.as_ref() == Some(&curr)`
  abbrev pub is_last : Option T → T → Bool
  is_last none curr = false
  is_last (some l) curr = p.eq l curr

  unfoldable pub cycle : DistinctStream T → T → Bool × DistinctStream T
  cycle s curr =
      if is_last s.last curr then (false, s) else (true, record { value = curr; last = some curr })

  -- No value equals the one before it, and the first does not equal `last`.
  abbrev pub Changing : Option T → List T → Type 0
  Changing last [] = Unit
  Changing last (x ∷ l) = (is_last last x ≡ false) × Changing (some x) l

  -- Each value that a distinct node shows when it ticks differs from the value of the tick
  -- before, and the first one from the value seen last.
  emitted-Changing :
      (s : DistinctStream T) (inputs : List T)
      → Changing s.last (emitted cycle (λ s. s.value) s inputs)
  unfolding cycle
  emitted-Changing s [] = tt
  emitted-Changing s (x ∷ inputs) = elim (Bool-cases (is_last s.last x)) [
    | inl same ↦ rw same (emitted-Changing s inputs)
    | inr new ↦ rw new (new, emitted-Changing (record { value = x; last = some x }) inputs)
  ]
