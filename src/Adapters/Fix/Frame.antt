-- ===== src/Adapters/Fix/Frame.antt =====
-- `find_message` takes exactly one encoded message from the front of the buffer.
use wingfoil.Base.{
  ℕ, suc, ◌+◌, ◌<◌, ◌≡◌, ◌≢◌, refl, sym, ap, ◌∙◌, true, false, List, [], ◌∷◌, ◌++◌, Option, none,
  some, arith, ◌==◌, length, take, drop, map_some, All, length-append, Bool-cases, inl, inr,
  u32_mod,
}
use mathlib.Core.List.{append_assoc}
use mathlib.Core.Option.{some-injective}
use wingfoil.Adapters.Fix.Decimal.{
  Text, Digit, digits, decimal, parse_uint, decimal-Digit, parse_uint-decimal,
}
use wingfoil.Adapters.Fix.Codec.{
  soh, begin_string, starts_trailer, trailer_at, position, find_message,
}
use wingfoil.Adapters.Fix.RoundTrip.{
  has, FieldOk, has_no, bytes_of, bytes_all, encode_message-bytes_all,
}
use wingfoil.Adapters.Fix.Message.{
  Parts, PartsOk, encoded, inner, before, last_field, last_field-Digit, before-FieldOk,
}

has-append : (b : ℕ) (s t : Text) → has b s ≡ false → has b t ≡ false → has b (s ++ t) ≡ false
has-append b [] t hs ht = ht
has-append b (x ∷ s) t hs ht = elim (Bool-cases (x == b)) [
  | inl e ↦ let bad : true ≡ false = rw e at hs in absurd (cc)
  | inr e ↦ rw e (has-append b s t (rw e at hs) ht)
]

starts_trailer_other : (b : ℕ) (s : Text) → (b == soh) ≡ false → starts_trailer (b ∷ s) ≡ false
unfolding starts_trailer
starts_trailer_other b [] h = refl
starts_trailer_other b (c ∷ []) h = refl
starts_trailer_other b (c ∷ d ∷ []) h = refl
starts_trailer_other b (c ∷ d ∷ e ∷ s) h = rw h refl

-- Bytes without SOH are passed over.
trailer_at_skip :
    (s t : Text)
    → has soh s ≡ false
    → trailer_at (s ++ t) ≡ map_some (λ n. length s + n) (trailer_at t)
unfolding trailer_at
trailer_at_skip [] t h = go (trailer_at t)
  where
    go : (o : Option ℕ) → o ≡ map_some (λ n. 0 + n) o
    go none = refl
    go (some n) = ap some (omega arith)
trailer_at_skip (b ∷ s) t h = elim (Bool-cases (b == soh)) [
  | inl e ↦ let bad : true ≡ false = rw e at h in absurd (cc)
  | inr e ↦
      rw (starts_trailer_other b (s ++ t) e, trailer_at_skip s t (rw e at h)) (go (trailer_at t))
]
  where
    go :
        (o : Option ℕ)
        → map_some suc (map_some (λ n. length s + n) o) ≡ map_some (λ n. suc (length s) + n) o
    go none = refl
    go (some n) = ap some (omega arith)

-- Behind an SOH only the digits of 10 start the trailer.
starts_ten :
    (s : Text) (t : Text)
    → All Digit s
    → starts_trailer (soh ∷ s ++ b'=' ∷ t) ≡ true
    → s ≡ b'1' ∷ b'0' ∷ []
unfolding starts_trailer
starts_ten [] [] h e = cc
starts_ten [] (a ∷ []) h e = cc
starts_ten [] (a ∷ b ∷ t) h e = cc
starts_ten (a ∷ []) [] h e = cc
starts_ten (a ∷ []) (b ∷ t) h e = ground (arith, e)
starts_ten (a ∷ b ∷ []) t h e = ground (arith, e)
starts_ten (a ∷ b ∷ c ∷ s) t h e = ground (arith, e, h)

not_ten :
    (tag : ℕ) (t : Text)
    → tag < u32_mod
    → tag ≢ 10
    → starts_trailer (soh ∷ decimal tag ++ b'=' ∷ t) ≡ false
unfolding decimal
not_ten tag t small differ = elim (Bool-cases (starts_trailer (soh ∷ decimal tag ++ b'=' ∷ t))) [
  | inr e ↦ e
  | inl e ↦
      let same = starts_ten (decimal tag) t (decimal-Digit tag) e in
      let read : some tag ≡ some 10 =
        sym (parse_uint-decimal u32_mod tag small) ∙ ap (parse_uint u32_mod) same ∙ ten in
      absurd (differ (some-injective tag 10 read))
]
  where
    ten : parse_uint u32_mod (b'1' ∷ b'0' ∷ []) ≡ some 10
    ten = parse_uint-decimal u32_mod 10 (omega arith)

-- What a field has in front of its SOH.
abbrev front : ℕ × Text → Text
front f = decimal f.0 ++ b'=' ∷ f.1

front-clean : (f : ℕ × Text) → FieldOk f → has soh (front f) ≡ false
front-clean f good =
    has-append soh (decimal f.0) (b'=' ∷ f.1)
      (has_no soh (decimal f.0) (decimal-Digit f.0) (inl (omega arith))) good.1.1

bytes_of-front : (f : ℕ × Text) (r : Text) → bytes_of f ++ r ≡ front f ++ soh ∷ r
bytes_of-front f r =
    append_assoc (decimal f.0) (b'=' ∷ (f.1 ++ soh ∷ [])) r
    ∙ ap (λ x. decimal f.0 ++ b'=' ∷ x) (append_assoc f.1 (soh ∷ []) r)
    ∙ sym (append_assoc (decimal f.0) (b'=' ∷ f.1) (soh ∷ r))

length-bytes_of :
    (f : ℕ × Text) (r : Text) → length (bytes_of f ++ r) ≡ suc (length (front f) + length r)
length-bytes_of f r =
    ap length (bytes_of-front f r) ∙ length-append (front f) (soh ∷ r) ∙ omega arith

passed :
    (f : ℕ × Text) (r : Text) (q : ℕ)
    → FieldOk f
    → trailer_at (soh ∷ r) ≡ some q
    → trailer_at (bytes_of f ++ r) ≡ some (length (front f) + q)
passed f r q good h =
    ap trailer_at (bytes_of-front f r)
    ∙ trailer_at_skip (front f) (soh ∷ r) (front-clean f good)
    ∙ ap (map_some (λ n. length (front f) + n)) h

trailer_at_next :
    (s : Text)
    → starts_trailer (soh ∷ s) ≡ false
    → trailer_at (soh ∷ s) ≡ map_some suc (trailer_at s)
unfolding trailer_at
trailer_at_next s h = rw h refl

past_soh :
    (g : ℕ × Text) (fields : List (ℕ × Text)) (r : Text) (q : ℕ)
    → FieldOk g
    → g.0 ≢ 10
    → trailer_at (bytes_all (g ∷ fields) ++ r) ≡ some q
    → trailer_at (soh ∷ (bytes_all (g ∷ fields) ++ r)) ≡ some (suc q)
past_soh g fields r q good other at =
    let t = g.1 ++ soh ∷ (bytes_all fields ++ r) in
    let whole : bytes_all (g ∷ fields) ++ r ≡ decimal g.0 ++ b'=' ∷ t =
      append_assoc (bytes_of g) (bytes_all fields) r
      ∙ bytes_of-front g (bytes_all fields ++ r)
      ∙ append_assoc (decimal g.0) (b'=' ∷ g.1) (soh ∷ (bytes_all fields ++ r)) in
    let plain : starts_trailer (soh ∷ (bytes_all (g ∷ fields) ++ r)) ≡ false =
      ap (λ x. starts_trailer (soh ∷ x)) whole ∙ not_ten g.0 t good.0 other in
    trailer_at_next (bytes_all (g ∷ fields) ++ r) plain ∙ ap (map_some suc) at

-- The trailer behind fields of which none has its tag stands at their last SOH.
trailer_behind :
    (fields : List (ℕ × Text)) (f : ℕ × Text) (r : Text)
    → All FieldOk (f ∷ fields)
    → All (λ (g : ℕ × Text). g.0 ≢ 10) fields
    → trailer_at (soh ∷ r) ≡ some 0
    → (q : ℕ) × (trailer_at (bytes_all (f ∷ fields) ++ r) ≡ some q)
      × (suc q ≡ length (bytes_all (f ∷ fields)))
trailer_behind [] f r good other h = (
  length (front f) + 0,
  ap (λ x. trailer_at (x ++ r)) (mathlib.Core.List.append-nil (bytes_of f)) ∙ passed f r 0 good.0 h,
  sym (length-bytes_of f []) ∙ refl,
)
trailer_behind (g ∷ fields) f r good other h =
    let (q, at, len) = trailer_behind fields g r good.1 other.1 h in
    (
      length (front f) + suc q,
      ap trailer_at (append_assoc (bytes_of f) (bytes_all (g ∷ fields)) r)
          ∙ passed f (bytes_all (g ∷ fields) ++ r) (suc q) good.0
              (past_soh g fields r q good.1.0 other.0 at),
      omega (arith, len, length-bytes_of f (bytes_all (g ∷ fields))),
    )

position_first : (b : ℕ) (s t : Text) → has b s ≡ false → position b (s ++ b ∷ t) ≡ some (length s)
unfolding position
position_first b [] t h = let e : (b == b) ≡ true = ground arith in rw e refl
position_first b (x ∷ s) t h = elim (Bool-cases (x == b)) [
  | inl e ↦ let bad : true ≡ false = rw e at h in absurd (cc)
  | inr e ↦ rw (e, position_first b s t (rw e at h)) refl
]

pub drop_past : (s t : Text) (n : ℕ) → drop (length s + n) (s ++ t) ≡ drop n t
drop_past [] t n = ap (λ k. drop k t) (omega arith)
drop_past (x ∷ s) t n = ap (λ k. drop k (x ∷ (s ++ t))) plus ∙ drop_past s t n
  where
    plus : suc (length s) + n ≡ suc (length s + n)
    plus = omega arith

take_front : (s t : Text) → take (length s) (s ++ t) ≡ s
take_front [] t = refl
take_front (x ∷ s) t = ap (λ y. x ∷ y) (take_front s t)

-- `find_message` where the pieces that it looks for are known.
found :
    (buf msg : Text) (pos off : ℕ)
    → trailer_at buf ≡ some pos
    → position soh (drop (pos + 4) buf) ≡ some off
    → pos + 4 + off + 1 ≡ length msg
    → take (length msg) buf ≡ msg
    → find_message buf ≡ some (msg, length msg)
unfolding find_message
found buf msg pos off at ends len taken =
    let step : find_message buf ≡ some (take (pos + 4 + off + 1) buf, pos + 4 + off + 1) =
      rw (at, find_message) (rw ends refl) in
    step ∙ ap (λ n. some (take n buf, n)) len ∙ ap (λ m. some (m, length msg)) taken

-- The trailer's bytes behind an SOH, and what comes behind its `10=`.
trailer_starts : (v r : Text) → trailer_at (soh ∷ (bytes_of (10, v) ++ r)) ≡ some 0
unfolding trailer_at starts_trailer decimal digits
trailer_starts v r = refl

trailer_value : (v r : Text) → drop 3 (bytes_of (10, v) ++ r) ≡ v ++ soh ∷ r
unfolding decimal digits
trailer_value v r = append_assoc v (soh ∷ []) r

length-trailer : (v : Text) → length (bytes_of (10, v)) ≡ length v + 4
unfolding decimal digits
length-trailer v = omega (arith, length-append v (soh ∷ []))

module _ (p : Parts) (good : PartsOk p) (other : All (λ (f : ℕ × Text). f.0 ≢ 10) p.extra)
    (rest : Text) where
  behind : Text
  behind = bytes_of (last_field p) ++ rest

  trailer_found :
      (q : ℕ) × (trailer_at (bytes_all (before p) ++ behind) ≡ some q)
      × (suc q ≡ length (bytes_all (before p)))
  unfolding behind
  trailer_found =
      trailer_behind ((9, decimal (length (bytes_all (inner p)))) ∷ inner p) (8, begin_string)
        behind (before-FieldOk p good)
        (
          (λ e. omega (arith, e)),
          (
            (λ e. omega (arith, e)),
            (
              (λ e. omega (arith, e)),
              (
                (λ e. omega (arith, e)),
                ((λ e. omega (arith, e)), ((λ e. omega (arith, e)), other)),
              ),
            ),
          ),
        )
        (trailer_starts (last_field p).1 rest)

  -- Whatever follows it in the buffer, `find_message` takes exactly the encoded message at the
  -- front, if its texts are UTF-8 without SOH, its numbers fit and none of its extra fields has
  -- the checksum's tag.
  pub find_message-encode_message :
      find_message (encoded p ++ rest) ≡ some (encoded p, length (encoded p))
  unfolding behind
  find_message-encode_message =
      let x = bytes_all (before p) in
      let v = (last_field p).1 in
      let (q, at, len) = trailer_found in
      let enc : encoded p ≡ x ++ bytes_of (last_field p) =
        encode_message-bytes_all p.msg_type p.sender p.target p.seq p.sending_time p.extra in
      let buf : encoded p ++ rest ≡ x ++ behind =
        ap (λ m. m ++ rest) enc ∙ append_assoc x (bytes_of (last_field p)) rest in
      let total : length (encoded p) ≡ length x + (length v + 4) =
        ap length enc
        ∙ length-append x (bytes_of (last_field p))
        ∙ ap (λ n. length x + n) (length-trailer v) in
      let off : q + 4 ≡ length x + 3 = omega (arith, len) in
      let tail : drop (q + 4) (encoded p ++ rest) ≡ v ++ soh ∷ rest =
        ap (drop (q + 4)) buf
        ∙ ap (λ n. drop n (x ++ behind)) off
        ∙ drop_past x behind 3
        ∙ trailer_value v rest in
      let clean = has_no soh v (last_field-Digit p good) (inl (omega arith)) in
      found (encoded p ++ rest) (encoded p) q (length v) (ap trailer_at buf ∙ at)
        (ap (position soh) tail ∙ position_first soh v rest clean) (omega (arith, len, total))
        (take_front (encoded p) rest)
