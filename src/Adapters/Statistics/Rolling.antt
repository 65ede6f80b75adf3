-- ===== src/Adapters/Statistics/Rolling.antt =====
-- The rolling extreme against the samples in its window.
use wingfoil.Base.{
  ℕ, zero, suc, ◌+◌, ◌-◌, ◌≤◌, ◌<◌, ◌≡◌, refl, ap, ◌∙◌, Bool, true, false, List, [], ◌∷◌, ◌++◌,
  some, arith, leb, length, get_elem?, drop, All, All-imp, Bool-cases, inl, inr,
}
use wingfoil.Adapters.Statistics.{Floats, Extreme, pop_front_while}
use wingfoil.Adapters.Statistics.Window.{no_better, Ordered, keep, candidates}

-- The last `w` values of a list.
abbrev pub last_n {ℓ} : {A : Type ℓ} → ℕ → List A → List A
last_n w xs = drop (length xs - w) xs

module _ {A : Type 0} where
  pub drop_add : (xs : List A) (k : ℕ) → k ≤ length xs → k + length (drop k xs) ≡ length xs
  drop_add xs zero h = omega arith
  drop_add [] (suc k) h = absurd (omega arith)
  drop_add (x ∷ xs) (suc k) h = omega (arith, drop_add xs k (omega arith))

  pub drop-snoc :
      (xs : List A) (k : ℕ) (x : A) → k ≤ length xs → drop k (xs ++ x ∷ []) ≡ drop k xs ++ x ∷ []
  drop-snoc xs zero x h = refl
  drop-snoc [] (suc k) x h = absurd (omega arith)
  drop-snoc (y ∷ xs) (suc k) x h = drop-snoc xs k x (omega arith)

module _ (floats : Floats) (extreme : Extreme) (order : Ordered floats extreme) where
  open floats use {F}

  abbrev pub indexed : ℕ → List F → List (ℕ × F)
  indexed k [] = []
  indexed k (x ∷ xs) = (k, x) ∷ indexed (suc k) xs

  pub indexed-snoc :
      (k : ℕ) (xs : List F) (x : F)
      → indexed k (xs ++ x ∷ []) ≡ indexed k xs ++ (k + length xs, x) ∷ []
  indexed-snoc k [] x = ap (λ i. (i, x) ∷ []) (omega arith)
  indexed-snoc k (y ∷ xs) x =
      ap (λ l. (k, y) ∷ l)
        (indexed-snoc (suc k) xs x ∙ ap (λ i. indexed (suc k) xs ++ (i, x) ∷ []) (omega arith))

  pub pop_front_none :
      (p : ℕ × F → Bool) (xs : List (ℕ × F))
      → All (λ c. p c ≡ false) xs
      → pop_front_while floats p xs ≡ xs
  unfolding pop_front_while
  pop_front_none p [] h = refl
  pop_front_none p (x ∷ xs) h = rw h.0 refl

  pop_front_one :
      (p : ℕ × F → Bool) (x : ℕ × F) (xs : List (ℕ × F))
      → p x ≡ true
      → pop_front_while floats p (x ∷ xs) ≡ pop_front_while floats p xs
  unfolding pop_front_while
  pop_front_one p x xs h = rw h refl

  All-keep :
      (P : ℕ × F → Type 0) (x : ℕ × F) (ys : List (ℕ × F))
      → P x
      → All P ys
      → All P (keep floats extreme x ys)
  All-keep P x [] h hs = (h, tt)
  All-keep P x (y ∷ ys) h hs = elim (Bool-cases (no_better floats extreme x.1 y.1)) [
    | inl e ↦ rw e hs
    | inr e ↦ rw e (h, hs)
  ]

  pub All-candidates :
      (P : ℕ × F → Type 0) (xs : List (ℕ × F)) → All P xs → All P (candidates floats extreme xs)
  All-candidates P [] h = tt
  All-candidates P (x ∷ xs) h =
      All-keep P x (candidates floats extreme xs) h.0 (All-candidates P xs h.1)

  -- A stale sample in front goes; fresh ones behind it stay.
  pub pop_front-keep :
      (p : ℕ × F → Bool) (x : ℕ × F) (ys : List (ℕ × F))
      → p x ≡ true
      → All (λ c. p c ≡ false) ys
      → pop_front_while floats p (keep floats extreme x ys) ≡ ys
  pop_front-keep p x [] h fresh = pop_front_one p x [] h ∙ pop_front_none p [] tt
  pop_front-keep p x (y ∷ ys) h fresh = elim (Bool-cases (no_better floats extreme x.1 y.1)) [
    | inl e ↦ rw e (pop_front_none p (y ∷ ys) fresh)
    | inr e ↦ rw e (pop_front_one p x (y ∷ ys) h ∙ pop_front_none p (y ∷ ys) fresh)
  ]

  abbrev pub stale : ℕ → ℕ → ℕ × F → Bool
  stale w i c = leb w (i - c.0)

  pub indexed_fresh :
      (w i k : ℕ) (xs : List F) → i < k + w → 0 < w → All (λ c. stale w i c ≡ false) (indexed k xs)
  indexed_fresh w i k [] h pos = tt
  indexed_fresh w i k (x ∷ xs) h pos = (fresh, indexed_fresh w i (suc k) xs (omega arith) pos)
    where
      fresh : leb w (i - k) ≡ false
      fresh = ground (arith, h, pos)

  -- The best of a window is in it, and nothing in it is better.
  pub record Best (window : List F) (v : F) : Type 0 where
    pub member : (i : ℕ) × (get_elem? window i ≡ some v)
    pub bound : All (λ a. no_better floats extreme a v ≡ true) window

  reflexive : (a : F) → no_better floats extreme a a ≡ true
  reflexive a = elim (Bool-cases (no_better floats extreme a a)) [
    | inl e ↦ e
    | inr e ↦ order.total a a e
  ]

  abbrev pub Front : List F → List (ℕ × F) → Type 0
  Front window [] = ⊥
  Front window (c ∷ deque) = Best window c.1

  Front-keep :
      (k : ℕ) (x : F) (xs : List F) (ys : List (ℕ × F))
      → Front xs ys
      → Front (x ∷ xs) (keep floats extreme (k, x) ys)
  Front-keep k x xs [] best = absurd best
  Front-keep k x xs (y ∷ ys) best = elim (Bool-cases (no_better floats extreme x y.1)) [
    | inl e ↦ rw e (record { member = (suc best.member.0, best.member.1); bound = (e, best.bound) })
    | inr e ↦ rw e (record {
      member = (0, refl);
      bound = (
        reflexive x,
        All-imp (λ a h. order.transitive a y.1 x h (order.total x y.1 e)) xs best.bound,
      );
    })
  ]

  pub Front-candidates :
      (k : ℕ) (x : F) (xs : List F)
      → Front (x ∷ xs) (candidates floats extreme (indexed k (x ∷ xs)))
  Front-candidates k x [] = record { member = (0, refl); bound = (reflexive x, tt) }
  Front-candidates k x (y ∷ xs) =
      Front-keep k x (y ∷ xs) (candidates floats extreme (indexed (suc k) (y ∷ xs)))
        (Front-candidates (suc k) y xs)
