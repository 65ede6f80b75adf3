-- ===== src/Queue/Size.antt =====
-- `pop_if_pending` takes an entry where it returns a value.
use wingfoil.Base.{
  ℕ, suc, ◌<◌, ◌≡◌, refl, ap, List, [], ◌∷◌, Option, none, some, arith, leb, length, Bool-cases,
  inl, inr, if◌then◌else◌,
}
use wingfoil.Queue.{
  Entry, TimeQueue, entry_lt, select, heap_pop, heap_peek, next_time, pop, pop_if_pending,
}

module _ {T : Type 0} where
  length-select : (ys : List (Entry T)) (x : Entry T) → length (select x ys).1 ≡ length ys
  unfolding select
  length-select [] x = refl
  length-select (y ∷ ys) x = ap suc (length-select ys (if entry_lt y x then y else x))

  abbrev pub Shrinks : TimeQueue T → Option T × TimeQueue T → Type 0
  Shrinks q (none, q') = Unit
  Shrinks q (some v, q') = length q'.heap < length q.heap

  pub pop_if_pending-Shrinks : (now : ℕ) (q : TimeQueue T) → Shrinks q (pop_if_pending now q)
  unfolding pop_if_pending next_time pop heap_pop heap_peek
  pop_if_pending-Shrinks now q = by_heap q.heap
    where
      by_heap :
          (h : List (Entry T))
          → Shrinks (record q { heap = h }) (pop_if_pending now (record q { heap = h }))
      by_heap [] = tt
      by_heap (x ∷ ys) = elim (Bool-cases (leb (select x ys).0.time now)) [
        | inl e ↦ rw e (omega (arith, length-select ys x))
        | inr e ↦ rw e tt
      ]
