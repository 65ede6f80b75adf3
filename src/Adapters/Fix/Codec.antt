-- ===== src/Adapters/Fix/Codec.antt =====
-- `append_field`, `encode_message`, `decode_fields`, `build_message` and `find_message`.
use wingfoil.Base.{
  ℕ, zero, suc, ◌+◌, ◌-◌, ◌/◌, ◌%◌, Bool, true, false, not, ◌&&◌, List, [], ◌∷◌, ◌++◌, Option, none,
  some, ltb, leb, ◌==◌, if◌then◌else◌, length, any, filter_by, take, map_some, u32_mod, u64_mod,
}
use wingfoil.Adapters.Fix.Decimal.{Text, decimal, parse_uint}

abbrev pub soh : ℕ
soh = 1

abbrev cont : ℕ × ℕ
cont = (128, 191)

-- The ranges of the bytes that follow a first byte of UTF-8.
abbrev pub follow : ℕ → Option (List (ℕ × ℕ))
follow b =
    if ltb b 128
    then some []
    else if ltb b 194
    then none
    else if ltb b 224
    then some (cont ∷ [])
    else if b == 224
    then some ((160, 191) ∷ cont ∷ [])
    else if b == 237
    then some ((128, 159) ∷ cont ∷ [])
    else if ltb b 240
    then some (cont ∷ cont ∷ [])
    else if b == 240
    then some ((144, 191) ∷ cont ∷ cont ∷ [])
    else if ltb b 244
    then some (cont ∷ cont ∷ cont ∷ [])
    else if b == 244
    then some ((128, 143) ∷ cont ∷ cont ∷ [])
    else none

unfoldable pub utf8_on : List (ℕ × ℕ) → Text → Bool
utf8_on [] [] = true
utf8_on (r ∷ rs) [] = false
utf8_on [] (b ∷ bs) = elim (follow b) [ none ↦ false | some rs ↦ utf8_on rs bs ]
utf8_on ((lo, hi) ∷ rs) (b ∷ bs) = elim (leb lo b && leb b hi) [
  | true ↦ utf8_on rs bs
  | false ↦ false
]

-- `str::from_utf8` succeeds.
unfoldable pub is_utf8 : Text → Bool
unfolding utf8_on
is_utf8 s = utf8_on [] s

unfoldable pub append_field : Text → ℕ → Text → Text
unfolding decimal
append_field buf tag value = buf ++ (decimal tag ++ b'=' ∷ (value ++ soh ∷ []))

-- The fields of a list one after the other.
unfoldable pub append_all : Text → List (ℕ × Text) → Text
unfolding append_field
append_all buf [] = buf
append_all buf ((tag, value) ∷ fields) = append_all (append_field buf tag value) fields

-- Bytes added up in a `u8`.
unfoldable pub checksum : ℕ → Text → ℕ
checksum acc [] = acc
checksum acc (b ∷ bs) = checksum ((acc + b) % 256) bs

-- A number below 1000 in three digits.
unfoldable pub pad3 : ℕ → Text
pad3 n = (b'0' + n / 100) ∷ (b'0' + n / 10 % 10) ∷ (b'0' + n % 10) ∷ []

abbrev pub begin_string : Text
begin_string = b'F' ∷ b'I' ∷ b'X' ∷ b'.' ∷ b'4' ∷ b'.' ∷ b'4' ∷ []

-- The fields of the body that stand before the caller's.
abbrev pub body_fields : Text → Text → Text → ℕ → Text → List (ℕ × Text)
body_fields msg_type sender target seq sending_time =
    (35, msg_type) ∷ (49, sender) ∷ (56, target) ∷ (34, decimal seq) ∷ (52, sending_time) ∷ []

unfoldable pub encode_message : Text → Text → Text → ℕ → Text → List (ℕ × Text) → Text
unfolding append_all checksum pad3
encode_message msg_type sender target seq sending_time extra =
    let body =
      append_all (append_all [] (body_fields msg_type sender target seq sending_time)) extra in
    let out = append_field (append_field [] 8 begin_string) 9 (decimal (length body)) ++ body in
    append_field out 10 (pad3 (checksum 0 out))

-- The bytes before and behind the first of a kind.
unfoldable pub cut : ℕ → Text → Option (Text × Text)
cut b [] = none
cut b (x ∷ xs) =
    if x == b then some ([], xs) else map_some (λ (p : Text × Text). (x ∷ p.0, p.1)) (cut b xs)

unfoldable pub parse_tag : Text → Option ℕ
unfolding is_utf8 parse_uint
parse_tag name = if is_utf8 name then parse_uint u32_mod name else none

unfoldable pub text_of : Text → Text
unfolding is_utf8
text_of value = if is_utf8 value then value else []

-- The `while` loop over what is left of the data; an empty rest has no `=` in it.
unfoldable pub decode_on : ℕ → Text → List (ℕ × Text)
decode_on zero data_ = []
decode_on (suc fuel) data_ = elim (cut b'=' data_) [
  | none ↦ []
  | some (name, rest) ↦ elim (parse_tag name) [
    | none ↦ decode_on fuel rest
    | some tag ↦ elim (cut soh rest) [
      | none ↦ []
      | some (value, rest') ↦ (tag, text_of value) ∷ decode_on fuel rest'
    ]
  ]
]

-- Every round takes at least one byte.
unfoldable pub decode_fields : Text → List (ℕ × Text)
unfolding decode_on
decode_fields data_ = decode_on (length data_) data_

pub record FixMessage : Type 0 where
  pub msg_type : Text
  pub seq_num : ℕ
  pub sending_time : ℕ
  pub fields : List (ℕ × Text)

-- The first value of a tag; `FixMessage::field` on the fields of a message.
unfoldable pub field : ℕ → List (ℕ × Text) → Option Text
field tag [] = none
field tag ((t, v) ∷ fields) = if t == tag then some v else field tag fields

abbrev pub header_tags : List ℕ
header_tags = 8 ∷ 9 ∷ 35 ∷ 49 ∷ 56 ∷ 34 ∷ 52 ∷ 10 ∷ []

abbrev pub is_application : ℕ × Text → Bool
is_application f = not (any (λ t. t == f.0) header_tags)

unfoldable pub build_message : List (ℕ × Text) → Option FixMessage
unfolding field parse_uint
build_message fields_ = elim (field 35 fields_) [
  | none ↦ none
  | some type_ ↦ some record {
    msg_type = type_;
    seq_num = elim (field 34 fields_) [
      | none ↦ 0
      | some v ↦ elim (parse_uint u64_mod v) [ none ↦ 0 | some n ↦ n ]
    ];
    sending_time = 0;
    fields = filter_by is_application fields_;
  }
]

unfoldable pub starts_trailer : Text → Bool
starts_trailer (a ∷ b ∷ c ∷ d ∷ bs) = a == soh && b == b'1' && c == b'0' && d == b'='
starts_trailer _ = false

-- Where the checksum field's SOH stands, as a number of bytes before it.
unfoldable pub trailer_at : Text → Option ℕ
unfolding starts_trailer
trailer_at [] = none
trailer_at (b ∷ bs) = if starts_trailer (b ∷ bs) then some 0 else map_some suc (trailer_at bs)

unfoldable pub position : ℕ → Text → Option ℕ
position b [] = none
position b (x ∷ xs) = if x == b then some 0 else map_some suc (position b xs)

-- The first message with the number of bytes that it takes.
unfoldable pub find_message : Text → Option (Text × ℕ)
unfolding trailer_at position
find_message buf = elim (trailer_at buf) [
  | none ↦ none
  | some pos ↦ elim (position soh (wingfoil.Base.drop (pos + 4) buf)) [
    | none ↦ none
    | some soh_off ↦ some (take (pos + 4 + soh_off + 1) buf, pos + 4 + soh_off + 1)
  ]
]
