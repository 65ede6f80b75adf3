-- ===== src/Adapters/Fix/Rounds.antt =====
-- The loop of `decode_fields` ends of itself on any bytes.
use wingfoil.Base.{
  ℕ, zero, suc, ◌≤◌, ◌<◌, ◌≡◌, refl, ap, [], ◌∷◌, none, some, arith, ◌==◌, length, Option-cases,
  Bool-cases, inl, inr,
}
use mathlib.Core.Option.{some-injective}
use wingfoil.Adapters.Fix.Decimal.{Text}
use wingfoil.Adapters.Fix.Codec.{soh, cut, parse_tag, text_of, decode_on, decode_fields}

cut-shorter : (b : ℕ) (s front rest : Text) → cut b s ≡ some (front, rest) → length rest < length s
unfolding cut
cut-shorter b [] front rest h = cc
cut-shorter b (x ∷ s) front rest h = elim (Bool-cases (x == b)) [
  | inl e ↦
      let hit : some ([], s) ≡ some (front, rest) = rw e at h in
      let same : s ≡ rest = ap (λ (p : Text × Text). p.1) (some-injective _ _ hit) in
      omega (arith, ap length same)
  | inr e ↦ elim (Option-cases (cut b s)) [
    | inl gone ↦ let bad : none ≡ some (front, rest) = rw (e, gone) at h in absurd (cc)
    | inr ((f, r), at) ↦
        let hit : some (x ∷ f, r) ≡ some (front, rest) = rw (e, at) at h in
        let same : r ≡ rest = ap (λ (p : Text × Text). p.1) (some-injective _ _ hit) in
        omega (arith, ap length same, cut-shorter b s f r at)
  ]
]

-- What a round makes of the bytes behind a `=`.
round :
    (k j : ℕ) (data_ name rest : Text)
    → cut b'=' data_ ≡ some (name, rest)
    → ((s : Text) → length s ≤ length rest → decode_on k s ≡ decode_on j s)
    → decode_on (suc k) data_ ≡ decode_on (suc j) data_
unfolding decode_on
round k j data_ name rest e ih = elim (Option-cases (parse_tag name)) [
  | inl e' ↦ rw (e, decode_on) (rw e' (ih rest (omega arith)))
  | inr (tag, e') ↦ elim (Option-cases (cut soh rest)) [
    | inl e'' ↦ rw (e, decode_on) (rw e' (rw e'' refl))
    | inr ((value, rest'), e'') ↦
        rw (e, decode_on)
          (rw e' (
            rw e'' (
              ap (λ l. (tag, text_of value) ∷ l)
                (ih rest' (omega (arith, cut-shorter soh rest value rest' e''))))))
  ]
]

decode_on-any :
    (k j : ℕ) (data_ : Text)
    → length data_ ≤ k
    → length data_ ≤ j
    → decode_on k data_ ≡ decode_on j data_
unfolding decode_on cut
decode_on-any zero zero data_ hk hj = refl
decode_on-any zero (suc j) [] hk hj = refl
decode_on-any zero (suc j) (b ∷ s) hk hj = absurd (omega arith)
decode_on-any (suc k) zero [] hk hj = refl
decode_on-any (suc k) zero (b ∷ s) hk hj = absurd (omega arith)
decode_on-any (suc k) (suc j) data_ hk hj = elim (Option-cases (cut b'=' data_)) [
  | inl e ↦ no_more k j data_ e
  | inr ((name, rest), e) ↦
      let less = cut-shorter b'=' data_ name rest e in
      round k j data_ name rest e
        (λ s le. decode_on-any k j s (omega (arith, less, le, hk)) (omega (arith, less, le, hj)))
]
  where
    no_more :
        (k j : ℕ) (data_ : Text)
        → cut b'=' data_ ≡ none
        → decode_on (suc k) data_ ≡ decode_on (suc j) data_
    no_more k j data_ e = rw (e, decode_on) refl

-- On any bytes, more rounds than there are bytes change nothing of what `decode_fields` returns.
pub decode_on-decode_fields :
    (fuel : ℕ) (data_ : Text) → length data_ ≤ fuel → decode_on fuel data_ ≡ decode_fields data_
unfolding decode_fields
decode_on-decode_fields fuel data_ le = decode_on-any fuel (length data_) data_ le (omega arith)
