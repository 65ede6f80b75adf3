-- ===== src/Adapters/Fix/Decimal.antt =====
-- Numbers as decimal text, `to_string` and `parse` of the standard library; a text is its UTF-8 bytes.
use wingfoil.Base.{
  ℕ, zero, suc, ◌+◌, ◌-◌, ◌*◌, ◌/◌, ◌%◌, ◌≤◌, ◌<◌, ◌≡◌, ◌≢◌, refl, sym, ap, subst, ◌∙◌, ◌⊎◌, Bool,
  true, false, ◌&&◌, List, [], ◌∷◌, ◌++◌, Option, none, some, arith, ltb, leb, ◌==◌, if◌then◌else◌,
  All, All-append, Bool-cases, inl, inr,
}

abbrev pub Text : Type 0
Text = List ℕ

-- `n` is below `10 ^ fuel`.
unfoldable pub digits : ℕ → ℕ → Text
digits zero n = []
digits (suc fuel) n = elim (ltb n 10) [
  | true ↦ (b'0' + n) ∷ []
  | false ↦ digits fuel (n / 10) ++ (b'0' + n % 10) ∷ []
]

unfoldable pub decimal : ℕ → Text
unfolding digits
decimal n = digits (suc n) n

abbrev pub is_digit : ℕ → Bool
is_digit b = leb b'0' b && leb b b'9'

-- Digits behind `acc`; a value that does not fit the type is refused.
unfoldable pub parse_digits : ℕ → ℕ → Text → Option ℕ
parse_digits modulus acc [] = some acc
parse_digits modulus acc (b ∷ bs) =
    if is_digit b && ltb (acc * 10 + (b - b'0')) modulus
    then parse_digits modulus (acc * 10 + (b - b'0')) bs
    else none

-- `str::parse` to an unsigned type: a leading plus is allowed, an empty text is not.
unfoldable pub parse_uint : ℕ → Text → Option ℕ
unfolding parse_digits
parse_uint modulus [] = none
parse_uint modulus (b ∷ []) = parse_digits modulus 0 (b ∷ [])
parse_uint modulus (b ∷ c ∷ bs) =
    if b == b'+' then parse_digits modulus 0 (c ∷ bs) else parse_digits modulus 0 (b ∷ c ∷ bs)

abbrev pub Digit : ℕ → Type 0
Digit b = (b'0' ≤ b) × (b ≤ b'9')

small_or_large : (n : ℕ) → (n < 10) ⊎ (10 ≤ n)
small_or_large n = ground arith

digits_small : (fuel n : ℕ) → n < 10 → digits (suc fuel) n ≡ (b'0' + n) ∷ []
unfolding digits
digits_small fuel n h = ground (arith, h)

digits_large :
    (fuel n : ℕ) → 10 ≤ n → digits (suc fuel) n ≡ digits fuel (n / 10) ++ (b'0' + n % 10) ∷ []
unfolding digits
digits_large fuel n h = ground (arith, h)

digits-Digit : (fuel n : ℕ) → All Digit (digits fuel n)
unfolding digits
digits-Digit zero n = tt
digits-Digit (suc fuel) n = elim (small_or_large n) [
  | inl small ↦ subst (All Digit) (sym (digits_small fuel n small)) ((omega arith, omega arith), tt)
  | inr large ↦ subst (All Digit) (sym (digits_large fuel n large)) (
      All-append Digit (digits fuel (n / 10)) ((b'0' + n % 10) ∷ []) (digits-Digit fuel (n / 10))
        ((omega arith, omega arith), tt))
]

pub decimal-Digit : (n : ℕ) → All Digit (decimal n)
unfolding decimal
decimal-Digit n = digits-Digit (suc n) n

parse_digits-append :
    (modulus acc v : ℕ) (s t : Text)
    → parse_digits modulus acc s ≡ some v
    → parse_digits modulus acc (s ++ t) ≡ parse_digits modulus v t
unfolding parse_digits
parse_digits-append modulus acc v [] t h =
    ap (λ x. parse_digits modulus x t) (mathlib.Core.Option.some-injective acc v h)
parse_digits-append modulus acc v (b ∷ s) t h =
    elim (Bool-cases (is_digit b && ltb (acc * 10 + (b - b'0')) modulus)) [
      | inl e ↦ rw e (parse_digits-append modulus (acc * 10 + (b - b'0')) v s t (rw e at h))
      | inr e ↦ let bad : none ≡ some v = rw e at h in absurd (cc)
    ]

parse_digits-digits :
    (modulus fuel n : ℕ) → n < fuel → n < modulus → parse_digits modulus 0 (digits fuel n) ≡ some n
unfolding digits parse_digits
parse_digits-digits modulus zero n h fits = absurd (omega arith)
parse_digits-digits modulus (suc fuel) n h fits = elim (small_or_large n) [
  | inl small ↦
      let here : parse_digits modulus 0 ((b'0' + n) ∷ []) ≡ some n = ground (arith, small) in
      ap (parse_digits modulus 0) (digits_small fuel n small) ∙ here
  | inr large ↦
      let rest = parse_digits-digits modulus fuel (n / 10) (omega arith) (omega arith) in
      let here : parse_digits modulus (n / 10) ((b'0' + n % 10) ∷ []) ≡ some n =
        ground (arith, fits) in
      ap (parse_digits modulus 0) (digits_large fuel n large)
      ∙ parse_digits-append modulus 0 (n / 10) (digits fuel (n / 10)) _ rest
      ∙ here
]

snoc_nonempty : (s : Text) (b : ℕ) → s ++ b ∷ [] ≢ []
snoc_nonempty [] b e = cc
snoc_nonempty (c ∷ s) b e = cc

digits_nonempty : (fuel n : ℕ) → digits (suc fuel) n ≢ []
digits_nonempty fuel n = elim (small_or_large n) [
  | inl small ↦ λ e. let bad = sym (digits_small fuel n small) ∙ e in cc
  | inr large ↦ λ e.
      snoc_nonempty (digits fuel (n / 10)) (b'0' + n % 10) (sym (digits_large fuel n large) ∙ e)
]

-- A text of digits has no leading plus.
parse_uint_digits :
    (modulus : ℕ) (s : Text)
    → All Digit s
    → s ≢ []
    → parse_uint modulus s ≡ parse_digits modulus 0 s
unfolding parse_uint
parse_uint_digits modulus [] all_digits h = absurd (h refl)
parse_uint_digits modulus (b ∷ []) all_digits h = refl
parse_uint_digits modulus (b ∷ c ∷ bs) all_digits h =
    let plain : (b == b'+') ≡ false = ground (arith, all_digits.0) in rw plain refl

-- Every number of an unsigned type is read back from its decimal text.
pub parse_uint-decimal : (modulus n : ℕ) → n < modulus → parse_uint modulus (decimal n) ≡ some n
unfolding decimal
parse_uint-decimal modulus n h =
    parse_uint_digits modulus (digits (suc n) n) (digits-Digit (suc n) n) (digits_nonempty n n)
    ∙ parse_digits-digits modulus (suc n) n (omega arith) h
