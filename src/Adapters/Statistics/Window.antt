-- ===== src/Adapters/Statistics/Window.antt =====
-- The deque of a rolling extreme, as a function of the samples in the window.
use wingfoil.Base.{
  ℕ, ◌≡◌, refl, sym, ap, ◌∙◌, ◌⊎◌, Bool, true, false, List, [], ◌∷◌, ◌++◌, if◌then◌else◌,
  Bool-cases, inl, inr,
}
use wingfoil.Adapters.Statistics.{Floats, Extreme, dominated, pop_back_while}

module _ (floats : Floats) (extreme : Extreme) where
  open floats use {F, le}

  abbrev pub Sample : Type 0
  Sample = ℕ × F

  -- `a` need not be kept when `b` comes later.
  abbrev pub no_better : F → F → Bool
  no_better a b = dominated floats extreme a b

  -- What holds of the numbers that are compared.
  pub record Ordered : Type 0 where
    pub total : (a b : F) → no_better a b ≡ false → no_better b a ≡ true
    pub transitive :
        (a b c : F) → no_better a b ≡ true → no_better b c ≡ true → no_better a c ≡ true

  -- The samples that nothing later in the window beats or equals.
  abbrev pub keep : Sample → List Sample → List Sample
  keep x [] = x ∷ []
  keep x (y ∷ ys) = if no_better x.1 y.1 then y ∷ ys else x ∷ y ∷ ys

  abbrev pub candidates : List Sample → List Sample
  candidates [] = []
  candidates (x ∷ xs) = keep x (candidates xs)

  abbrev pub beaten : Sample → Sample → Bool
  beaten s c = no_better c.1 s.1

  abbrev pub put : Sample → List Sample → List Sample
  put s xs = pop_back_while floats (beaten s) xs ++ s ∷ []

  pop_back_cons :
      (p : Sample → Bool) (x y : Sample) (xs ys : List Sample)
      → pop_back_while floats p xs ≡ y ∷ ys
      → pop_back_while floats p (x ∷ xs) ≡ x ∷ y ∷ ys
  unfolding pop_back_while
  pop_back_cons p x y xs ys e = rw (e, pop_back_while) refl

  pop_back_last :
      (p : Sample → Bool) (x : Sample) (xs : List Sample)
      → pop_back_while floats p xs ≡ []
      → pop_back_while floats p (x ∷ xs) ≡ (if p x then [] else x ∷ [])
  unfolding pop_back_while
  pop_back_last p x xs e = rw (e, pop_back_while) refl

  -- What is left of a list by `pop_back` starts as the list does.
  pop_back_head :
      (p : Sample → Bool) (y : Sample) (ys : List Sample)
      → ((pop_back_while floats p (y ∷ ys) ≡ []) × (p y ≡ true))
        ⊎ ((zs : List Sample) × (pop_back_while floats p (y ∷ ys) ≡ y ∷ zs))
  pop_back_head p y ys = go (pop_back_while floats p ys) refl
    where
      go :
          (o : List Sample)
          → pop_back_while floats p ys ≡ o
          → ((pop_back_while floats p (y ∷ ys) ≡ []) × (p y ≡ true))
            ⊎ ((zs : List Sample) × (pop_back_while floats p (y ∷ ys) ≡ y ∷ zs))
      go [] e = elim (Bool-cases (p y)) [
        | inl h ↦ inl (pop_back_last p y ys e ∙ rw h refl, h)
        | inr h ↦ inr ([], pop_back_last p y ys e ∙ rw h refl)
      ]
      go (z ∷ zs) e = inr (z ∷ zs, pop_back_cons p y z ys zs e)

  pop_nothing : (s : Sample) → put s [] ≡ s ∷ []
  unfolding pop_back_while
  pop_nothing s = refl

  put_one : (s x : Sample) → put s (x ∷ []) ≡ (if no_better x.1 s.1 then [] else x ∷ []) ++ s ∷ []
  unfolding pop_back_while
  put_one s x = refl

  module _ (order : Ordered) (s : Sample) where
    -- A kept sample, and the new one behind it.
    put-keep : (x : Sample) (ys : List Sample) → put s (keep x ys) ≡ keep x (put s ys)
    put-keep x [] = put_one s x ∙ last (no_better x.1 s.1) refl ∙ ap (keep x) (sym put_none)
      where
        put_none : put s [] ≡ s ∷ []
        put_none = pop_nothing s

        last :
            (b : Bool)
            → no_better x.1 s.1 ≡ b
            → (if b then [] else x ∷ []) ++ s ∷ [] ≡ keep x (s ∷ [])
        last true e = rw e refl
        last false e = rw e refl
    put-keep x (y ∷ ys) = elim (Bool-cases (no_better x.1 y.1)) [
      | inl e ↦ elim (pop_back_head (beaten s) y ys) [
        | inl (none_left, worse) ↦
            let over = order.transitive x.1 y.1 s.1 e worse in rw (e, none_left) (rw over refl)
        | inr (zs, left) ↦ rw (e, left) (rw e refl)
      ]
      | inr e ↦ elim (pop_back_head (beaten s) y ys) [
        | inl (none_left, worse) ↦ elim (Bool-cases (no_better x.1 s.1)) [
          | inl h ↦ rw (e, pop_back_last (beaten s) x (y ∷ ys) none_left, none_left) (rw h refl)
          | inr h ↦ rw (e, pop_back_last (beaten s) x (y ∷ ys) none_left, none_left) (rw h refl)
        ]
        | inr (zs, left) ↦ rw (e, pop_back_cons (beaten s) x y (y ∷ ys) zs left, left) (rw e refl)
      ]
    ]

    -- The candidates behind a new sample are what `pop_back` leaves, and the sample.
    pub put-candidates : (xs : List Sample) → put s (candidates xs) ≡ candidates (xs ++ s ∷ [])
    put-candidates [] = pop_nothing s
    put-candidates (x ∷ xs) = put-keep x (candidates xs) ∙ ap (keep x) (put-candidates xs)
