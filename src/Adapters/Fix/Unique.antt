-- ===== src/Adapters/Fix/Unique.antt =====
-- Lists of symbols in which none stands twice, for `FixSubNode`.
use mathlib.Core.Path.{ap₂}
use wingfoil.Base.{
  ◌≡◌, refl, sym, ap, ◌∙◌, ◌⊎◌, Bool, true, false, ◌||◌, List, [], ◌∷◌, ◌++◌, ◌==◌, All, arith,
  Bool-cases, inl, inr, ==_iff,
}
use wingfoil.Adapters.Fix.Decimal.{Text}
use wingfoil.Adapters.Fix.Session.{text_eq}
use wingfoil.Adapters.Fix.Subscribe.{contains}

pub text_eq_refl : (s : Text) → text_eq s s ≡ true
text_eq_refl [] = refl
text_eq_refl (a ∷ s) = let e : (a == a) ≡ true = ground arith in rw (e, text_eq_refl s) refl

pub text_eq→≡ : (s t : Text) → text_eq s t ≡ true → s ≡ t
text_eq→≡ [] [] h = refl
text_eq→≡ [] (b ∷ t) h = cc
text_eq→≡ (a ∷ s) [] h = cc
text_eq→≡ (a ∷ s) (b ∷ t) h = elim (Bool-cases (a == b)) [
  | inl e ↦ ap₂ (λ x xs. x ∷ xs) ((==_iff a b).0 e) (text_eq→≡ s t (rw e at h))
  | inr e ↦ let bad : false ≡ true = rw e at h in absurd (cc)
]

text_eq_sym : (s t : Text) → text_eq s t ≡ false → text_eq t s ≡ false
text_eq_sym s t h = elim (Bool-cases (text_eq t s)) [
  | inr e ↦ e
  | inl e ↦
      let same : text_eq s t ≡ true =
        ap (λ x. text_eq x t) (sym (text_eq→≡ t s e)) ∙ text_eq_refl t in
      absurd (cc)
]

-- No text stands twice.
abbrev pub Unique : List Text → Type 0
Unique [] = Unit
Unique (x ∷ l) = (contains x l ≡ false) × Unique l

contains-snoc :
    (l : List Text) (x y : Text) → contains y (l ++ x ∷ []) ≡ (contains y l || text_eq x y)
contains-snoc [] x y = go (text_eq x y)
  where
    go : (b : Bool) → (b || false) ≡ b
    go true = refl
    go false = refl
contains-snoc (z ∷ l) x y = elim (Bool-cases (text_eq z y)) [
  | inl e ↦ rw e refl
  | inr e ↦ rw (e, contains-snoc l x y) refl
]

pub Unique-snoc :
    (l : List Text) (x : Text) → Unique l → contains x l ≡ false → Unique (l ++ x ∷ [])
Unique-snoc [] x h new = (refl, tt)
Unique-snoc (y ∷ l) x h new = elim (Bool-cases (text_eq y x)) [
  | inl e ↦ let bad : true ≡ false = rw e at new in absurd (cc)
  | inr e ↦
      (contains-snoc l x y ∙ rw (h.0, text_eq_sym y x e) refl, Unique-snoc l x h.1 (rw e at new))
]

pub contains-old :
    (l : List Text) (x y : Text) → contains y l ≡ true → contains y (l ++ x ∷ []) ≡ true
contains-old l x y h = contains-snoc l x y ∙ rw h refl

pub contains-new : (l : List Text) (x : Text) → contains x (l ++ x ∷ []) ≡ true
contains-new l x = contains-snoc l x x ∙ rw (text_eq_refl x) (or_true (contains x l))
  where
    or_true : (b : Bool) → (b || true) ≡ true
    or_true true = refl
    or_true false = refl

pub or_left : (a b : Bool) → a ≡ true → (a || b) ≡ true
or_left a b h = rw h refl

pub or_right : (a b : Bool) → b ≡ true → (a || b) ≡ true
or_right true b h = refl
or_right false b h = h

pub or_cases : (a b : Bool) → (a || b) ≡ true → (a ≡ true) ⊎ (b ≡ true)
or_cases true b h = inl refl
or_cases false b h = inr h

pub every :
    {P : Text → Type 0} → (l : List Text) → ((x : Text) → contains x l ≡ true → P x) → All P l
every [] f = tt
every (x ∷ l) f = (
  f x (or_left _ (contains x l) (text_eq_refl x)),
  every l (λ y h. f y (or_right (text_eq x y) _ h)),
)
