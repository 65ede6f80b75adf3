-- ===== src/Queue.antt =====
-- wingfoil/src/queue/time_queue.rs: the time-ordered queue behind the scheduler, delays and feedback.
-- `BinaryHeap<Reverse<Entry>>` is a list of entries from which an entry of least key is taken.
pub mod Order
pub mod Events
pub mod Once
pub mod Drain
pub mod Size
mod Tests
use wingfoil.Base.{
  ℕ, ◌+◌, ◌%◌, Bool, true, false, ◌&&◌, ◌||◌, List, [], ◌∷◌, Option, none, some, ltb, leb, ◌==◌,
  if◌then◌else◌, any, u64_mod,
}

-- Rust's `PartialEq`, with no law: a float that is not a number differs from itself.
pub record PartialEq {ℓ} (T : Type ℓ) : Type ℓ where
  pub eq : T → T → Bool

instance abbrev pub nat_eq : PartialEq ℕ
nat_eq = record { eq = ◌==◌ }

pub record Entry {ℓ} (T : Type ℓ) : Type ℓ where
  pub time : ℕ
  pub seq : ℕ
  pub value : T

pub record TimeQueue {ℓ} (T : Type ℓ) : Type ℓ where
  pub heap : List (Entry T)
  pub next_seq : ℕ

module _ {ℓ} {T : Type ℓ} where
  -- `Entry::cmp` on the keys `(time, seq)`.
  abbrev pub entry_lt : Entry T → Entry T → Bool
  entry_lt a b = ltb a.time b.time || (a.time == b.time && ltb a.seq b.seq)

  -- The least entry of a heap that holds `x` and `ys`, and the others.
  pub select : Entry T → List (Entry T) → Entry T × List (Entry T)
  select x [] = (x, [])
  select x (y ∷ ys) =
      let (least, rest) = select (if entry_lt y x then y else x) ys in
      (least, (if entry_lt y x then x else y) ∷ rest)

  pub heap_pop : List (Entry T) → Option (Entry T × List (Entry T))
  unfolding select
  heap_pop [] = none
  heap_pop (x ∷ ys) = some (select x ys)

  pub heap_peek : List (Entry T) → Option (Entry T)
  unfolding select
  heap_peek [] = none
  heap_peek (x ∷ ys) = some (select x ys).0

  unfoldable pub new : TimeQueue T
  new = record { heap = []; next_seq = 0 }

  unfoldable pub next_time : TimeQueue T → Option ℕ
  unfolding heap_peek
  next_time q = elim (heap_peek q.heap) [ none ↦ none | some e ↦ some e.time ]

  unfoldable pub is_empty : TimeQueue T → Bool
  is_empty q = elim q.heap [ [] ↦ true | _ ∷ _ ↦ false ]

  unfoldable pub pop : TimeQueue T → Option T × TimeQueue T
  unfolding heap_pop
  pop q = elim (heap_pop q.heap) [
    | none ↦ (none, q)
    | some (e, rest) ↦ (some e.value, record q { heap = rest })
  ]

  unfoldable pub pop_if_pending : ℕ → TimeQueue T → Option T × TimeQueue T
  pop_if_pending current_time q = elim (next_time q) [
    | none ↦ (none, q)
    | some t ↦ if leb t current_time then pop q else (none, q)
  ]

  unfoldable pub clear : TimeQueue T → TimeQueue T
  clear q = record q { heap = [] }

  abbrev pub new_entry : T → ℕ → TimeQueue T → Entry T
  new_entry value time q = record { time = time; seq = q.next_seq; value = value }

  unfoldable pub push : ⦃p : PartialEq T⦄ → T → ℕ → TimeQueue T → TimeQueue T
  push ⦃p⦄ value time q =
      if any (λ e. e.time == time && p.eq e.value value) q.heap
      then q
      else record { heap = new_entry value time q ∷ q.heap; next_seq = (q.next_seq + 1) % u64_mod }
