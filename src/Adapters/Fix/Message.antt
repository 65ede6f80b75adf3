-- ===== src/Adapters/Fix/Message.antt =====
-- `build_message` on the fields of an encoded message.
use wingfoil.Base.{
  ℕ, ◌<◌, ◌≡◌, refl, sym, ap, ◌∙◌, Bool, List, [], ◌∷◌, ◌++◌, some, arith, length, filter_by, All,
  All-append, Bool-cases, inl, inr, u64_mod,
}
use mathlib.Core.List.{append-nil}
use wingfoil.Adapters.Fix.Decimal.{Text, Digit, decimal-Digit, parse_uint-decimal}
use wingfoil.Adapters.Fix.Codec.{
  utf8_on, is_utf8, checksum, body_fields, encode_message, decode_fields, field, is_application,
  build_message,
}
use wingfoil.Adapters.Fix.RoundTrip.{
  Value, FieldOk, Digit-Value, bytes_of, bytes_all, append_all-bytes_all, bytes_all-append,
  decode_fields-append_all, checksum_lt, pad3-Digit, leading, trailer, encode_message-bytes_all,
}

filter_by-append :
    (p : ℕ × Text → Bool) (xs ys : List (ℕ × Text))
    → filter_by p (xs ++ ys) ≡ filter_by p xs ++ filter_by p ys
filter_by-append p [] ys = refl
filter_by-append p (x ∷ xs) ys = elim (Bool-cases (p x)) [
  | inl e ↦ rw (e, filter_by-append p xs ys) refl
  | inr e ↦ rw (e, filter_by-append p xs ys) refl
]

-- The caller's parts of a message.
pub record Parts : Type 0 where
  pub msg_type : Text
  pub sender : Text
  pub target : Text
  pub seq : ℕ
  pub sending_time : Text
  pub extra : List (ℕ × Text)

abbrev pub encoded : Parts → Text
encoded p = encode_message p.msg_type p.sender p.target p.seq p.sending_time p.extra

-- All texts can stand in a field, and the numbers fit their types.
pub record PartsOk (p : Parts) : Type 0 where
  pub type_ok : Value p.msg_type
  pub sender_ok : Value p.sender
  pub target_ok : Value p.target
  pub seq_ok : p.seq < u64_mod
  pub time_ok : Value p.sending_time
  pub extra_ok : All FieldOk p.extra

-- The fields in front of the checksum, and the checksum's.
abbrev pub inner : Parts → List (ℕ × Text)
inner p = body_fields p.msg_type p.sender p.target p.seq p.sending_time ++ p.extra

abbrev pub before : Parts → List (ℕ × Text)
before p = leading p.msg_type p.sender p.target p.seq p.sending_time p.extra

abbrev pub last_field : Parts → ℕ × Text
last_field p = trailer p.msg_type p.sender p.target p.seq p.sending_time p.extra

module _ (p : Parts) (good : PartsOk p) where
  pub last_field-Digit : All Digit (last_field p).1
  last_field-Digit =
      pad3-Digit (checksum 0 (bytes_all (before p)))
        (omega (arith, checksum_lt 0 (bytes_all (before p)) (omega arith)))

  pub before-FieldOk : All FieldOk (before p)
  unfolding is_utf8 utf8_on
  before-FieldOk = (
    (omega arith, (refl, refl)),
    (
      (omega arith, Digit-Value _ (decimal-Digit (length (bytes_all (inner p))))),
      All-append FieldOk (body_fields p.msg_type p.sender p.target p.seq p.sending_time) p.extra
          (
            (omega arith, good.type_ok),
            (
              (omega arith, good.sender_ok),
              (
                (omega arith, good.target_ok),
                (
                  (omega arith, Digit-Value _ (decimal-Digit p.seq)),
                  ((omega arith, good.time_ok), tt),
                ),
              ),
            ),
          )
          good.extra_ok,
    ),
  )

  fields_encoded : decode_fields (encoded p) ≡ (before p) ++ (last_field p) ∷ []
  fields_encoded =
      ap decode_fields (
        encode_message-bytes_all p.msg_type p.sender p.target p.seq p.sending_time p.extra
        ∙ ap (λ x. bytes_all (before p) ++ x) (sym (append-nil (bytes_of (last_field p))))
        ∙ sym (bytes_all-append (before p) ((last_field p) ∷ []))
        ∙ sym (append_all-bytes_all [] ((before p) ++ (last_field p) ∷ [])))
      ∙ decode_fields-append_all ((before p) ++ (last_field p) ∷ []) (
          All-append FieldOk (before p) ((last_field p) ∷ []) before-FieldOk
            ((omega arith, Digit-Value (last_field p).1 last_field-Digit), tt))

  kept_fields :
      filter_by is_application ((before p) ++ (last_field p) ∷ [])
      ≡ filter_by is_application p.extra
  kept_fields =
      filter_by-append is_application p.extra ((last_field p) ∷ [])
      ∙ append-nil (filter_by is_application p.extra)

  -- A message that is encoded from UTF-8 texts without SOH and numbers that fit is read back with
  -- its type, its sequence number and, in order, those of its extra fields whose tag is none of
  -- the header's or trailer's.
  pub build_message-encode_message :
      build_message (decode_fields (encoded p))
      ≡ some record {
        msg_type = p.msg_type;
        seq_num = p.seq;
        sending_time = 0;
        fields = filter_by is_application p.extra;
      }
  unfolding build_message field
  build_message-encode_message =
      rw fields_encoded (rw (parse_uint-decimal u64_mod p.seq good.seq_ok, kept_fields) refl)
