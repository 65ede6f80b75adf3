-- ===== src/Adapters/Kdb.antt =====
-- wingfoil/src/adapters/kdb/read.rs: the rows of a KDB table, and the reader that replays the slices of
-- a run. A value of q is the third-party type K, a parameter with the calls that the code makes of it.
pub mod Read
pub mod Rising
pub mod Replay
pub mod Between
pub mod Complete
pub mod ReadCached
mod Tests
use wingfoil.Time.{from_kdb_timestamp}
use wingfoil.Base.{
  ℕ, zero, suc, ◌+◌, ◌-◌, Bool, true, false, List, [], ◌∷◌, Option, none, some, ltb, ◌==◌,
  if◌then◌else◌, length, get_elem?, any,
}

-- A string as the bytes of its UTF-8 text.
abbrev pub Text : Type 0
Text = List ℕ

-- `K` with its type codes; a conversion is `none` where it fails.
pub record KApi : Type 1 where
  pub K : Type 0
  pub get_type : K → ℕ
  pub len : K → ℕ
  pub get_dictionary : K → Option K
  pub as_list : K → Option (List K)
  pub as_symbols : K → Option (List Text)
  pub table : ℕ
  pub compound_list : ℕ
  pub long_list : ℕ
  pub timestamp_list : ℕ
  pub timespan_list : ℕ
  pub float_list : ℕ
  pub symbol_list : ℕ
  pub string : ℕ
  pub int_list : ℕ
  pub date_list : ℕ
  pub time_list : ℕ
  pub short_list : ℕ
  pub bool_list : ℕ
  pub real_list : ℕ
  -- `as_vec` at a type of atoms, each made a K by the constructor of its type.
  pub as_longs : K → Option (List K)
  pub as_floats : K → Option (List K)
  pub as_symbol_atoms : K → Option (List K)
  pub as_bytes : K → Option (List K)
  pub as_ints : K → Option (List K)
  pub as_shorts : K → Option (List K)
  pub as_bools : K → Option (List K)
  pub as_reals : K → Option (List K)
  pub get_long : K → Option ℕ

pub data KdbError : Type 0 where
  invalid_operation : KdbError
  index_out_of_bounds : ℕ → ℕ → KdbError
  not_a_table : ℕ → KdbError
  no_keys no_values : KdbError
  no_conversion : KdbError

pub data Outcome (A : Type 0) : Type 0 where
  ok : A → Outcome A
  err : KdbError → Outcome A

abbrev pub ok_or : {A : Type 0} → KdbError → Option A → Outcome A
ok_or e none = err e
ok_or e (some a) = ok a

infixl 5 ◌>>=◌
abbrev pub ◌>>=◌ : {A B : Type 0} → Outcome A → (A → Outcome B) → Outcome B
ok a >>= f = f a
err e >>= f = err e

module _ (api : KApi) where
  open api use {K, get_type, len, get_dictionary, as_list, as_symbols, table}

  pub record Rows : Type 0 where
    pub columns : List K
    pub n_rows : ℕ

  pub record Row : Type 0 where
    pub columns : List K
    pub index : ℕ

  abbrev first_len : List K → ℕ
  first_len [] = 0
  first_len (c ∷ cs) = len c

  unfoldable pub from_column_list : List K → Rows
  from_column_list columns_ = record { columns = columns_; n_rows = first_len columns_ }

  unfoldable pub get_row : ℕ → Rows → Option Row
  get_row index_ rows =
      if ltb index_ rows.n_rows
      then some record { columns = rows.columns; index = index_ }
      else none

  -- What the iterator gives from a row on, for as many rows as are left.
  unfoldable pub rows_from : List K → ℕ → ℕ → List Row
  rows_from columns_ current zero = []
  rows_from columns_ current (suc left) =
      record { columns = columns_; index = current } ∷ rows_from columns_ (current + 1) left

  unfoldable pub iter : Rows → List Row
  unfolding rows_from
  iter rows = rows_from rows.columns 0 rows.n_rows

  abbrev is_one_of : ℕ → List ℕ → Bool
  is_one_of qtype qtypes = any (λ q. q == qtype) qtypes

  abbrev at_index : ℕ → K → Option (List K) → Outcome K
  at_index index_ k none = err (index_out_of_bounds index_ (len k))
  at_index index_ k (some v) = ok_or (index_out_of_bounds index_ (len k)) (get_elem? v index_)

  unfoldable pub element_at : K → ℕ → Outcome K
  element_at k index_ =
      let qtype = get_type k in
      if is_one_of qtype (api.long_list ∷ api.timestamp_list ∷ api.timespan_list ∷ [])
      then at_index index_ k (api.as_longs k)
      else if qtype == api.float_list
      then at_index index_ k (api.as_floats k)
      else if qtype == api.symbol_list
      then at_index index_ k (api.as_symbol_atoms k)
      else if qtype == api.string
      then at_index index_ k (api.as_bytes k)
      else if is_one_of qtype (api.int_list ∷ api.date_list ∷ api.time_list ∷ [])
      then at_index index_ k (api.as_ints k)
      else if qtype == api.short_list
      then at_index index_ k (api.as_shorts k)
      else if qtype == api.bool_list
      then at_index index_ k (api.as_bools k)
      else if qtype == api.real_list
      then at_index index_ k (api.as_reals k)
      else if qtype == api.compound_list
      then at_index index_ k (as_list k)
      else err invalid_operation

  unfoldable pub get : ℕ → Row → Outcome K
  unfolding element_at
  get col row = do
    column ← ok_or (index_out_of_bounds col (length row.columns)) (get_elem? row.columns col)
    element_at column row.index

  -- The time of a column of timestamps.
  unfoldable pub get_timestamp : ℕ → Row → Outcome ℕ
  unfolding get from_kdb_timestamp
  get_timestamp col row = do
    k ← get col row
    nanos ← ok_or no_conversion (api.get_long k)
    ok (from_kdb_timestamp nanos)

  -- The two parts of a table, its names and its columns.
  unfoldable pub dict_parts : K → Outcome (List K)
  dict_parts k = do
    dict ← ok_or no_conversion (get_dictionary k)
    ok_or no_conversion (as_list dict)

  abbrev when_table : {A : Type 0} → K → Outcome A → Outcome A
  when_table k found = if get_type k == table then found else err (not_a_table (get_type k))

  unfoldable pub column_names : K → Outcome (List Text)
  unfolding dict_parts
  column_names k = when_table k (do
    parts ← dict_parts k
    keys ← ok_or no_keys (get_elem? parts 0)
    ok_or no_conversion (as_symbols keys))

  unfoldable pub rows : K → Outcome Rows
  unfolding from_column_list dict_parts
  rows k = when_table k (do
    parts ← dict_parts k
    values ← ok_or no_values (get_elem? parts 1)
    columns ← ok_or no_conversion (as_list values)
    ok (from_column_list columns))

  -- A table, or the list of columns that a plain tickerplant publishes.
  unfoldable pub upd_payload_rows : K → Outcome Rows
  unfolding rows from_column_list
  upd_payload_rows k =
      if get_type k == table
      then rows k
      else (ok_or no_conversion (as_list k) >>= λ columns. ok (from_column_list columns))
