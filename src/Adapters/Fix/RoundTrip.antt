-- ===== src/Adapters/Fix/RoundTrip.antt =====
-- What `decode_fields` and `build_message` read of an encoded message.
use wingfoil.Base.{
  ℕ, zero, suc, ◌+◌, ◌%◌, ◌≤◌, ◌<◌, ◌≡◌, refl, sym, ap, ◌∙◌, Bool, true, false, ◌⊎◌, List, [], ◌∷◌,
  ◌++◌, some, arith, ltb, ◌==◌, length, any, All, length-append, Bool-cases, inl, inr, u32_mod,
}
use mathlib.Core.List.{append_assoc, append-nil}
use wingfoil.Adapters.Fix.Decimal.{Text, Digit, decimal, decimal-Digit, parse_uint-decimal}
use wingfoil.Adapters.Fix.Codec.{
  soh, follow, utf8_on, is_utf8, append_field, append_all, checksum, pad3, begin_string,
  body_fields, encode_message, cut, parse_tag, text_of, decode_on, decode_fields,
}

abbrev pub has : ℕ → Text → Bool
has b s = any (λ x. x == b) s

-- A value that a field can carry.
abbrev pub Value : Text → Type 0
Value s = (is_utf8 s ≡ true) × (has soh s ≡ false)

abbrev pub FieldOk : ℕ × Text → Type 0
FieldOk f = (f.0 < u32_mod) × Value f.1

is_utf8-Digit : (s : Text) → All Digit s → is_utf8 s ≡ true
unfolding is_utf8 utf8_on
is_utf8-Digit [] h = refl
is_utf8-Digit (b ∷ s) h =
    let plain : ltb b 128 ≡ true = ground (arith, h.0) in
    let step : utf8_on [] (b ∷ s) ≡ utf8_on [] s = rw (plain, utf8_on, follow) refl in
    step ∙ is_utf8-Digit s h.1

pub has_no : (b : ℕ) (s : Text) → All Digit s → (b < b'0') ⊎ (b'9' < b) → has b s ≡ false
has_no b [] h apart = refl
has_no b (x ∷ s) h apart =
    let differ : (x == b) ≡ false = ground (arith, h.0, apart) in rw differ (has_no b s h.1 apart)

pub Digit-Value : (s : Text) → All Digit s → Value s
Digit-Value s h = (is_utf8-Digit s h, has_no soh s h (inl (omega arith)))

cut-append : (b : ℕ) (s t : Text) → has b s ≡ false → cut b (s ++ b ∷ t) ≡ some (s, t)
unfolding cut
cut-append b [] t h = let e : (b == b) ≡ true = ground arith in rw e refl
cut-append b (x ∷ s) t h = elim (Bool-cases (x == b)) [
  | inl e ↦ let bad : true ≡ false = rw e at h in absurd (cc)
  | inr e ↦ rw (e, cut-append b s t (rw e at h)) refl
]

parse_tag-decimal : (tag : ℕ) → tag < u32_mod → parse_tag (decimal tag) ≡ some tag
unfolding parse_tag
parse_tag-decimal tag h =
    rw (is_utf8-Digit (decimal tag) (decimal-Digit tag)) (parse_uint-decimal u32_mod tag h)

-- The bytes of a field.
abbrev pub bytes_of : ℕ × Text → Text
bytes_of f = decimal f.0 ++ b'=' ∷ (f.1 ++ soh ∷ [])

abbrev pub bytes_all : List (ℕ × Text) → Text
bytes_all [] = []
bytes_all (f ∷ fields) = bytes_of f ++ bytes_all fields

decode_on-field :
    (fuel : ℕ) (f : ℕ × Text) (rest : Text)
    → FieldOk f
    → decode_on (suc fuel) (bytes_of f ++ rest) ≡ f ∷ decode_on fuel rest
unfolding decode_on text_of
decode_on-field fuel (tag, value) rest (small, good) =
    let parts : bytes_of (tag, value) ++ rest ≡ decimal tag ++ b'=' ∷ (value ++ soh ∷ rest) =
      append_assoc (decimal tag) (b'=' ∷ (value ++ soh ∷ [])) rest
      ∙ ap (λ x. decimal tag ++ b'=' ∷ x) (append_assoc value (soh ∷ []) rest) in
    let named =
      cut-append b'=' (decimal tag) (value ++ soh ∷ rest)
        (has_no b'=' (decimal tag) (decimal-Digit tag) (inr (omega arith))) in
    let step : decode_on (suc fuel) (decimal tag ++ b'=' ∷ (value ++ soh ∷ rest))
        ≡ (tag, value) ∷ decode_on fuel rest =
      rw (named, decode_on, parse_tag-decimal tag small, cut-append soh value rest good.1, good.0)
        refl in
    ap (decode_on (suc fuel)) parts ∙ step

decode_on-bytes_all :
    (fuel : ℕ) (fields : List (ℕ × Text))
    → All FieldOk fields
    → length fields ≤ fuel
    → decode_on fuel (bytes_all fields) ≡ fields
unfolding decode_on cut
decode_on-bytes_all zero [] h le = refl
decode_on-bytes_all (suc fuel) [] h le = refl
decode_on-bytes_all zero (f ∷ fields) h le = absurd (omega arith)
decode_on-bytes_all (suc fuel) (f ∷ fields) h le =
    decode_on-field fuel f (bytes_all fields) h.0
    ∙ ap (λ x. f ∷ x) (decode_on-bytes_all fuel fields h.1 (omega arith))

length-bytes_all : (fields : List (ℕ × Text)) → length fields ≤ length (bytes_all fields)
length-bytes_all [] = omega arith
length-bytes_all ((tag, value) ∷ fields) =
    let rest = length-bytes_all fields in
    let one : length (bytes_all ((tag, value) ∷ fields))
        ≡ length (bytes_of (tag, value)) + length (bytes_all fields) =
      length-append (bytes_of (tag, value)) (bytes_all fields) in
    let two : length (bytes_of (tag, value))
        ≡ length (decimal tag) + length (b'=' ∷ (value ++ soh ∷ [])) =
      length-append (decimal tag) (b'=' ∷ (value ++ soh ∷ [])) in
    omega (arith, rest, one, two)

pub append_all-bytes_all :
    (buf : Text) (fields : List (ℕ × Text)) → append_all buf fields ≡ buf ++ bytes_all fields
unfolding append_all append_field
append_all-bytes_all buf [] = sym (append-nil buf)
append_all-bytes_all buf ((tag, value) ∷ fields) =
    let split : append_field buf tag value ++ bytes_all fields
        ≡ buf ++ (bytes_of (tag, value) ++ bytes_all fields) =
      append_assoc buf (bytes_of (tag, value)) (bytes_all fields) in
    append_all-bytes_all (append_field buf tag value) fields ∙ split

pub bytes_all-append :
    (fields more : List (ℕ × Text))
    → bytes_all (fields ++ more) ≡ bytes_all fields ++ bytes_all more
bytes_all-append [] more = refl
bytes_all-append (f ∷ fields) more =
    ap (λ x. bytes_of f ++ x) (bytes_all-append fields more)
    ∙ sym (append_assoc (bytes_of f) (bytes_all fields) (bytes_all more))

-- Fields are read back from their bytes.
pub decode_fields-append_all :
    (fields : List (ℕ × Text)) → All FieldOk fields → decode_fields (append_all [] fields) ≡ fields
unfolding decode_fields
decode_fields-append_all fields h =
    ap (λ s. decode_on (length s) s) (append_all-bytes_all [] fields)
    ∙ decode_on-bytes_all (length (bytes_all fields)) fields h (length-bytes_all fields)

pub checksum_lt : (acc : ℕ) (s : Text) → acc < 256 → checksum acc s < 256
unfolding checksum
checksum_lt acc [] h = h
checksum_lt acc (b ∷ s) h = checksum_lt ((acc + b) % 256) s (omega arith)

pub pad3-Digit : (n : ℕ) → n < 1000 → All Digit (pad3 n)
unfolding pad3
pad3-Digit n h =
    ((omega arith, omega arith), ((omega arith, omega arith), ((omega arith, omega arith), tt)))

start_bytes_all :
    (inner : List (ℕ × Text))
    → append_field (append_field [] 8 begin_string) 9 (decimal (length (bytes_all inner)))
        ++ bytes_all inner
      ≡ bytes_all ((8, begin_string) ∷ (9, decimal (length (bytes_all inner))) ∷ inner)
unfolding append_field
start_bytes_all inner =
    append_assoc (bytes_of (8, begin_string)) (bytes_of (9, decimal (length (bytes_all inner))))
      (bytes_all inner)

closing :
    (x : Text) → append_field x 10 (pad3 (checksum 0 x)) ≡ x ++ bytes_of (10, pad3 (checksum 0 x))
unfolding append_field
closing x = refl

module _ (msg_type sender target : Text) (seq : ℕ) (sending_time : Text)
    (extra : List (ℕ × Text)) where
  -- The fields of a message but for its last one, which holds the checksum of their bytes.
  abbrev pub leading : List (ℕ × Text)
  leading =
      let inner = body_fields msg_type sender target seq sending_time ++ extra in
      (8, begin_string) ∷ (9, decimal (length (bytes_all inner))) ∷ inner

  abbrev pub trailer : ℕ × Text
  trailer = (10, pad3 (checksum 0 (bytes_all leading)))

  -- The bytes that are encoded, field by field.
  pub encode_message-bytes_all :
      encode_message msg_type sender target seq sending_time extra
      ≡ bytes_all leading ++ bytes_of trailer
  unfolding encode_message
  encode_message-bytes_all =
      let fixed = body_fields msg_type sender target seq sending_time in
      let body : append_all (append_all [] fixed) extra ≡ bytes_all (fixed ++ extra) =
        append_all-bytes_all (append_all [] fixed) extra
        ∙ ap (λ x. x ++ bytes_all extra) (append_all-bytes_all [] fixed)
        ∙ sym (bytes_all-append fixed extra) in
      let start : Text → Text =
        λ b. append_field (append_field [] 8 begin_string) 9 (decimal (length b)) ++ b in
      let out : start (append_all (append_all [] fixed) extra) ≡ bytes_all leading =
        ap start body ∙ start_bytes_all (fixed ++ extra) in
      ap (λ x. append_field x 10 (pad3 (checksum 0 x))) out ∙ closing (bytes_all leading)
