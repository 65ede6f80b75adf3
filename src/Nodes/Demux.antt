-- ===== src/Nodes/Demux.antt =====
-- wingfoil/src/nodes/demux.rs: DemuxMap, which gives each key an output slot of its own.
pub mod Parent
pub mod Slots
pub mod Rows
pub mod Routes
pub mod Setup
mod Tests
use wingfoil.Base.{
  ℕ, zero, suc, ◌+◌, ◌≤◌, not, List, [], ◌∷◌, Option, none, some, ◌==◌, if◌then◌else◌, any,
  filter_by, count,
}
use wingfoil.Queue.{PartialEq}

pub data DemuxEntry : Type 0 where
  slot : ℕ → DemuxEntry
  overflow : DemuxEntry

-- A key that overflowed is in use without a slot.
pub record DemuxMap (K : Type 0) : Type 0 where
  pub available : List ℕ
  pub in_use : List (K × Option ℕ)
  pub size : ℕ

unfoldable pub below_size : ℕ → List ℕ
below_size zero = []
below_size (suc n) = n ∷ below_size n

unfoldable pub new : {K : Type 0} → ℕ → DemuxMap K
unfolding below_size
new size = record { available = below_size size; in_use = []; size = size }

abbrev pub entry : Option ℕ → DemuxEntry
entry none = overflow
entry (some ix) = slot ix

-- `HashSet::insert`
abbrev pub insert_slot : ℕ → List ℕ → List ℕ
insert_slot ix l = if any (λ j. j == ix) l then l else ix ∷ l

-- How many keys hold a slot.
abbrev pub holders : {K : Type 0} → ℕ → List (K × Option ℕ) → ℕ
holders ix [] = 0
holders ix ((k, none) ∷ m) = holders ix m
holders ix ((k, some j) ∷ m) = (if j == ix then 1 else 0) + holders ix m

-- Each slot is free or held by one key, never both or twice.
abbrev pub Exclusive : {K : Type 0} → DemuxMap K → Type 0
Exclusive m = (ix : ℕ) → count ix m.available + holders ix m.in_use ≤ 1

-- `pick` is `HashSet::iter().next()`, some member of a set.
module _ {K : Type 0} ⦃p : PartialEq K⦄ (pick : List ℕ → Option ℕ) where
  abbrev pub find : K → List (K × Option ℕ) → Option (Option ℕ)
  find key [] = none
  find key ((k, v) ∷ m) = if p.eq k key then some v else find key m

  abbrev pub remove : K → List (K × Option ℕ) → List (K × Option ℕ)
  remove key [] = []
  remove key ((k, v) ∷ m) = if p.eq k key then remove key m else (k, v) ∷ remove key m

  unfoldable pub get_or_insert : K → DemuxMap K → DemuxEntry × DemuxMap K
  get_or_insert key m = elim (find key m.in_use) [
    | some v ↦ (entry v, m)
    | none ↦ elim (pick m.available) [
      | some ix ↦ (
        slot ix,
        record m {
          available = filter_by (λ j. not (j == ix)) m.available;
          in_use = (key, some ix) ∷ m.in_use;
        },
      )
      | none ↦ (overflow, record m { in_use = (key, none) ∷ m.in_use })
    ]
  ]

  unfoldable pub release : K → DemuxMap K → DemuxEntry × DemuxMap K
  release key m = elim (find key m.in_use) [
    | some v ↦ elim v [
      | some ix ↦ (
        slot ix,
        record m { available = insert_slot ix m.available; in_use = remove key m.in_use },
      )
      | none ↦ (overflow, record m { in_use = remove key m.in_use })
    ]
    | none ↦ elim (pick m.available) [ some ix ↦ (slot ix, m) | none ↦ (overflow, m) ]
  ]
