-- ===== src/Base/Lists.antt =====
-- Vectors as lists that are measured and indexed by native numbers.
use Prim.Native.Nat.{ℕ, zero, suc, ◌+◌, ◌<◌, ◌≤◌}
use mathlib.Core.Path.{◌≡◌, refl, sym, ap, subst}
use mathlib.Core.Logic.{◌≢◌, ◌⊎◌, inl, inr}
use mathlib.Core.Bool.{Bool, true, false, ◌||◌, ◌&&◌}
use mathlib.Core.List.{List, [], ◌∷◌, ◌++◌}
use mathlib.Core.Option.{Option, none, some, some-injective}
use wingfoil.Base.Tests.{◌==◌, ltb, if◌then◌else◌, Bool-cases}
use native.Mathlib.Omega.{arith}

module _ {ℓ} {A : Type ℓ} where
  abbrev pub length : List A → ℕ
  length [] = 0
  length (x ∷ xs) = suc (length xs)

  abbrev pub get_elem? : List A → ℕ → Option A
  get_elem? [] i = none
  get_elem? (x ∷ xs) zero = some x
  get_elem? (x ∷ xs) (suc i) = get_elem? xs i

  -- A write out of bounds changes nothing.
  abbrev pub set : List A → ℕ → A → List A
  set [] i v = []
  set (x ∷ xs) zero v = v ∷ xs
  set (x ∷ xs) (suc i) v = x ∷ set xs i v

  -- The library's `any` cannot be unfolded.
  abbrev pub any : (A → Bool) → List A → Bool
  any p [] = false
  any p (x ∷ xs) = p x || any p xs

  abbrev pub All {κ} : (A → Type κ) → List A → Type κ
  All P [] = Unit
  All P (x ∷ xs) = P x × All P xs

abbrev pub count : ℕ → List ℕ → ℕ
count a [] = 0
count a (x ∷ xs) = (if x == a then 1 else 0) + count a xs

-- Occurrences add up.
pub count-append :
    (ix : ℕ) (front back : List ℕ) → count ix (front ++ back) ≡ count ix front + count ix back
count-append ix [] back = omega arith
count-append ix (jx ∷ front) back = let rest = count-append ix front back in omega (arith, rest)

module _ {ℓ} {A : Type ℓ} where
  abbrev pub get_or : List A → ℕ → A → A
  get_or [] i d = d
  get_or (x ∷ xs) zero d = x
  get_or (x ∷ xs) (suc i) d = get_or xs i d

  abbrev pub take : ℕ → List A → List A
  take zero xs = []
  take (suc n) [] = []
  take (suc n) (x ∷ xs) = x ∷ take n xs

  abbrev pub drop : ℕ → List A → List A
  drop zero xs = xs
  drop (suc n) [] = []
  drop (suc n) (x ∷ xs) = drop n xs

  abbrev pub flatten : List (List A) → List A
  flatten [] = []
  flatten (xs ∷ xss) = xs ++ flatten xss

  -- The library's `filter` wants a decision; this one takes a test, as `retain` does.
  abbrev pub filter_by : (A → Bool) → List A → List A
  filter_by p [] = []
  filter_by p (x ∷ xs) = if p x then x ∷ filter_by p xs else filter_by p xs

  abbrev pub modify_elem : (A → A) → List A → ℕ → List A
  modify_elem f [] i = []
  modify_elem f (x ∷ xs) zero = f x ∷ xs
  modify_elem f (x ∷ xs) (suc i) = x ∷ modify_elem f xs i

lt-zero : (i : ℕ) → ltb i 0 ≡ false
lt-zero i = ground arith

zero-ltb : (i : ℕ) → ltb 0 (suc i) ≡ true
zero-ltb i = ground arith

==-zero-suc : (i : ℕ) → (0 == suc i) ≡ false
==-zero-suc i = ground arith

==-suc-zero : (i : ℕ) → (suc i == 0) ≡ false
==-suc-zero i = ground arith

==-suc : (i j : ℕ) → (suc i == suc j) ≡ (i == j)
==-suc i j = ground arith

ltb-suc : (i j : ℕ) → ltb (suc i) (suc j) ≡ ltb i j
ltb-suc i j = ground arith

module _ {ℓ} {A : Type ℓ} where
  pub length-append : (xs ys : List A) → length (xs ++ ys) ≡ length xs + length ys
  length-append [] ys = omega arith
  length-append (x ∷ xs) ys = omega (arith, length-append xs ys)

  pub length-set : (xs : List A) (i : ℕ) (v : A) → length (set xs i v) ≡ length xs
  length-set [] i v = refl
  length-set (x ∷ xs) zero v = refl
  length-set (x ∷ xs) (suc i) v = ap suc (length-set xs i v)

  pub get_elem?-set_self :
      (xs : List A) (i : ℕ) (v : A) → i < length xs → get_elem? (set xs i v) i ≡ some v
  get_elem?-set_self [] i v h = elim h [ ]
  get_elem?-set_self (x ∷ xs) zero v h = refl
  get_elem?-set_self (x ∷ xs) (suc i) v h = get_elem?-set_self xs i v (omega arith)

  pub get_elem?-set_ne :
      (xs : List A) (i j : ℕ) (v : A) → i ≢ j → get_elem? (set xs i v) j ≡ get_elem? xs j
  get_elem?-set_ne [] i j v h = refl
  get_elem?-set_ne (x ∷ xs) zero zero v h = absurd (h refl)
  get_elem?-set_ne (x ∷ xs) zero (suc j) v h = refl
  get_elem?-set_ne (x ∷ xs) (suc i) zero v h = refl
  get_elem?-set_ne (x ∷ xs) (suc i) (suc j) v h = get_elem?-set_ne xs i j v (λ e. h (ap suc e))

  pub get_elem?_lt : (xs : List A) (i : ℕ) (x : A) → get_elem? xs i ≡ some x → i < length xs
  get_elem?_lt [] i x h = cc
  get_elem?_lt (y ∷ xs) zero x h = omega arith
  get_elem?_lt (y ∷ xs) (suc i) x h = omega (arith, get_elem?_lt xs i x h)

  pub lt_get_elem? : (xs : List A) (i : ℕ) → i < length xs → (x : A) × (get_elem? xs i ≡ some x)
  lt_get_elem? [] i h = elim h [ ]
  lt_get_elem? (y ∷ xs) zero h = (y, refl)
  lt_get_elem? (y ∷ xs) (suc i) h = lt_get_elem? xs i (omega arith)

  pub All-append {κ} : (P : A → Type κ) (xs ys : List A) → All P xs → All P ys → All P (xs ++ ys)
  All-append P [] ys hx hy = hy
  All-append P (x ∷ xs) ys hx hy = (hx.0, All-append P xs ys hx.1 hy)

  pub All-imp {κ μ} :
      {P : A → Type κ} {Q : A → Type μ}
      → ((a : A) → P a → Q a)
      → (xs : List A) → All P xs
      → All Q xs
  All-imp f [] h = tt
  All-imp f (x ∷ xs) h = (f x h.0, All-imp f xs h.1)

  pub All-get {κ} :
      (P : A → Type κ) (xs : List A) (i : ℕ) (x : A) → All P xs → get_elem? xs i ≡ some x → P x
  All-get P [] i x h e = cc
  All-get P (y ∷ xs) zero x h e = subst P (some-injective y x e) h.0
  All-get P (y ∷ xs) (suc i) x h e = All-get P xs i x h.1 e

  pub get_or-set :
      (xs : List A) (i j : ℕ) (v d : A)
      → get_or (set xs i v) j d ≡ (if i == j && ltb i (length xs) then v else get_or xs j d)
  get_or-set [] i j v d = elim (Bool-cases (i == j)) [ inl e ↦ rw (e, lt-zero i) | inr n ↦ rw n ]
  get_or-set (x ∷ xs) zero zero v d = rw (zero-ltb (length xs))
  get_or-set (x ∷ xs) zero (suc j) v d = rw (==-zero-suc j)
  get_or-set (x ∷ xs) (suc i) zero v d = rw (==-suc-zero i)
  get_or-set (x ∷ xs) (suc i) (suc j) v d =
      rw (==-suc i j, ltb-suc i (length xs)) (get_or-set xs i j v d)

  pub get_or-some : (xs : List A) (i : ℕ) (x d : A) → get_elem? xs i ≡ some x → get_or xs i d ≡ x
  get_or-some [] i x d h = cc
  get_or-some (y ∷ xs) zero x d h = some-injective y x h
  get_or-some (y ∷ xs) (suc i) x d h = get_or-some xs i x d h

  pub drop_get :
      (xs : List A) (i : ℕ) (x : A) → get_elem? xs i ≡ some x → drop i xs ≡ x ∷ drop (suc i) xs
  drop_get [] i x h = cc
  drop_get (y ∷ xs) zero x h = ap (λ z. z ∷ xs) (some-injective y x h)
  drop_get (y ∷ xs) (suc i) x h = drop_get xs i x h

  pub drop-length : (xs : List A) → drop (length xs) xs ≡ []
  drop-length [] = refl
  drop-length (x ∷ xs) = drop-length xs

  pub get_elem?-append_length :
      (xs ys : List A) (y : A) → get_elem? (xs ++ y ∷ ys) (length xs) ≡ some y
  get_elem?-append_length [] ys y = refl
  get_elem?-append_length (x ∷ xs) ys y = get_elem?-append_length xs ys y

  pub none_le : (xs : List A) (i : ℕ) → get_elem? xs i ≡ none → length xs ≤ i
  none_le [] i h = omega arith
  none_le (y ∷ xs) zero h = cc
  none_le (y ∷ xs) (suc i) h = omega (arith, none_le xs i h)

  pub get_or_out : (xs : List A) (i : ℕ) (d : A) → length xs ≤ i → get_or xs i d ≡ d
  get_or_out [] i d h = refl
  get_or_out (y ∷ xs) zero d h = absurd (omega arith)
  get_or_out (y ∷ xs) (suc i) d h = get_or_out xs i d (omega arith)

  pub get_elem?-append_lt :
      (xs ys : List A) (i : ℕ) → i < length xs → get_elem? (xs ++ ys) i ≡ get_elem? xs i
  get_elem?-append_lt [] ys i h = elim h [ ]
  get_elem?-append_lt (x ∷ xs) ys zero h = refl
  get_elem?-append_lt (x ∷ xs) ys (suc i) h = get_elem?-append_lt xs ys i (omega arith)

  pub take-suc :
      (xs : List A) (i : ℕ) (x : A)
      → get_elem? xs i ≡ some x
      → take (suc i) xs ≡ take i xs ++ x ∷ []
  take-suc [] i x h = cc
  take-suc (y ∷ xs) zero x h = ap (λ z. z ∷ []) (some-injective y x h)
  take-suc (y ∷ xs) (suc i) x h = ap (λ l. y ∷ l) (take-suc xs i x h)

  pub take_all : (xs : List A) (i : ℕ) → get_elem? xs i ≡ none → take i xs ≡ xs
  take_all [] zero h = refl
  take_all [] (suc i) h = refl
  take_all (y ∷ xs) zero h = cc
  take_all (y ∷ xs) (suc i) h = ap (λ l. y ∷ l) (take_all xs i h)

  -- What a list with one more element holds.
  pub get_elem?-snoc :
      (xs : List A) (y : A) (i : ℕ) (x : A)
      → get_elem? (xs ++ y ∷ []) i ≡ some x
      → (get_elem? xs i ≡ some x) ⊎ ((i ≡ length xs) × (x ≡ y))
  get_elem?-snoc [] y zero x h = inr (refl, sym (some-injective y x h))
  get_elem?-snoc [] y (suc i) x h = cc
  get_elem?-snoc (z ∷ xs) y zero x h = inl h
  get_elem?-snoc (z ∷ xs) y (suc i) x h = elim (get_elem?-snoc xs y i x h) [
    | inl old ↦ inl old
    | inr (e, last) ↦ inr (ap suc e, last)
  ]

  -- A list of one value stays one when the value is put behind it.
  pub get_or-snoc :
      (xs : List A) (i : ℕ) (v : A) → ((j : ℕ) → get_or xs j v ≡ v) → get_or (xs ++ v ∷ []) i v ≡ v
  get_or-snoc [] zero v h = refl
  get_or-snoc [] (suc i) v h = refl
  get_or-snoc (x ∷ xs) zero v h = h 0
  get_or-snoc (x ∷ xs) (suc i) v h = get_or-snoc xs i v (λ j. h (suc j))

  abbrev pub map_some {κ} : {B : Type κ} → (A → B) → Option A → Option B
  map_some f none = none
  map_some f (some a) = some (f a)

  pub length-modify_elem :
      (f : A → A) (xs : List A) (i : ℕ) → length (modify_elem f xs i) ≡ length xs
  length-modify_elem f [] i = refl
  length-modify_elem f (x ∷ xs) zero = refl
  length-modify_elem f (x ∷ xs) (suc i) = ap suc (length-modify_elem f xs i)

  pub get_elem?-modify_elem :
      (f : A → A) (xs : List A) (i j : ℕ)
      → get_elem? (modify_elem f xs i) j
        ≡ (if i == j then map_some f (get_elem? xs j) else get_elem? xs j)
  get_elem?-modify_elem f [] i j = ground arith
  get_elem?-modify_elem f (x ∷ xs) zero zero = refl
  get_elem?-modify_elem f (x ∷ xs) zero (suc j) = rw (==-zero-suc j)
  get_elem?-modify_elem f (x ∷ xs) (suc i) zero = rw (==-suc-zero i)
  get_elem?-modify_elem f (x ∷ xs) (suc i) (suc j) =
      rw (==-suc i j) (get_elem?-modify_elem f xs i j)
