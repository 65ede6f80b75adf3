-- ===== src/Adapters/Kdb/Rising.antt =====
-- Lists of items whose times rise inside a window.
use wingfoil.Base.{
  ℕ, ◌≤◌, ◌<◌, ◌≡◌, refl, true, List, [], ◌∷◌, ◌++◌, arith, Bool-cases, inl, inr, ◌⊎◌,
}
use wingfoil.Adapters.Slices.{contains, WindowFilter, keep}
use wingfoil.Adapters.Kdb.{KdbError, Outcome, ok, err}
use wingfoil.Adapters.Kdb.Read.{Item, row, error, io_error, unsorted}

-- The times of the rows do not fall, are at least `lo` and below `hi`.
abbrev pub Rising : {T : Type 0} → ℕ → ℕ → List (Item T) → Type 0
Rising hi lo [] = Unit
Rising hi lo (row time record_ ∷ items) = (lo ≤ time) × (time < hi) × Rising hi time items
Rising hi lo (error e ∷ items) = Rising hi lo items
Rising hi lo (io_error ∷ items) = Rising hi lo items
Rising hi lo (unsorted t p ∷ items) = Rising hi lo items

pub Rising-le :
    {T : Type 0} (hi lo lo' : ℕ) (items : List (Item T))
    → lo ≤ lo'
    → Rising hi lo' items
    → Rising hi lo items
Rising-le hi lo lo' [] le h = tt
Rising-le hi lo lo' (row time r ∷ items) le h = (omega (arith, h.0), h.1, h.2)
Rising-le hi lo lo' (error e ∷ items) le h = Rising-le hi lo lo' items le h
Rising-le hi lo lo' (io_error ∷ items) le h = Rising-le hi lo lo' items le h
Rising-le hi lo lo' (unsorted t p ∷ items) le h = Rising-le hi lo lo' items le h

pub Rising-append :
    {T : Type 0} (hi end_ lo mid : ℕ) (front back : List (Item T))
    → lo ≤ mid
    → hi ≤ mid
    → hi ≤ end_
    → Rising hi lo front
    → Rising end_ mid back
    → Rising end_ lo (front ++ back)
Rising-append hi end_ lo mid [] back le le' top h k = Rising-le end_ lo mid back le k
Rising-append hi end_ lo mid (row time r ∷ front) back le le' top h k = (
  h.0,
  omega (arith, h.1),
  Rising-append hi end_ time mid front back (omega (arith, h.1)) le' top h.2 k,
)
Rising-append hi end_ lo mid (error e ∷ front) back le le' top h k =
    Rising-append hi end_ lo mid front back le le' top h k
Rising-append hi end_ lo mid (io_error ∷ front) back le le' top h k =
    Rising-append hi end_ lo mid front back le le' top h k
Rising-append hi end_ lo mid (unsorted t p ∷ front) back le le' top h k =
    Rising-append hi end_ lo mid front back le le' top h k

pub keep-window : (time : ℕ) (f : WindowFilter) → (keep time f).1.window ≡ f.window
unfolding keep
keep-window time f = elim (Bool-cases (contains f.window time)) [
  | inl e ↦ rw e refl
  | inr e ↦ rw e refl
]

pub keep_lem :
    (time : ℕ) (f : WindowFilter)
    → (keep time f).0 ≡ true
    → (f.window.lo ≤ time) × (time < f.window.hi)
unfolding keep contains
keep_lem time f h = ground arith

pub Outcome-cases :
    {A : Type 0} (o : Outcome A) → ((a : A) × (o ≡ ok a)) ⊎ ((e : KdbError) × (o ≡ err e))
Outcome-cases (ok a) = inl (a, refl)
Outcome-cases (err e) = inr (e, refl)
