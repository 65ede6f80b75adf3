-- ===== src/Adapters/Kdb/Read.antt =====
-- wingfoil/src/adapters/kdb/read.rs: the stream of `kdb_read`, as the list of what it yields. The
-- connection is a parameter.
use wingfoil.Base.{ℕ, Bool, true, false, List, [], ◌∷◌, ◌++◌, Option, none, some, ltb}
use wingfoil.Time.{Duration}
use wingfoil.Adapters.Slices.{
  TimeWindow, clamp, WindowFilter, new_filter, keep, Slice, SliceError, Checked, refused, sliced,
  compute_validated_time_slices,
}
use wingfoil.Adapters.Kdb.{Text, KApi, KdbError, Outcome, ok, err, Row, rows, column_names, iter}

pub data Item (T : Type 0) : Type 0 where
  row : ℕ → T → Item T
  error : KdbError → Item T
  io_error : Item T
  unsorted : ℕ → ℕ → Item T

-- The user's deserialiser, with the interner that it fills, and the connection; `none` is an error of
-- the connection.
pub record Source (api : KApi) : Type 1 where
  pub T : Type 0
  pub Interner : Type 0
  pub Query : Type 0
  pub QueryState : Type 0
  pub Outside : Type 0
  pub from_kdb_row : Row api → List Text → Interner → Outcome (ℕ × T) × Interner
  pub query_fn : Slice → QueryState → Query × QueryState
  pub send_sync_message : Query → Outside → Option api.K × Outside
  pub connect : Outside → Bool × Outside

module _ (api : KApi) (source : Source api) where
  open source use {
    T, Interner, Query, QueryState, Outside, from_kdb_row, query_fn, send_sync_message,
  }

  -- What the loop over the rows of a slice leaves: its items, and whether the stream goes on.
  pub record Emitted : Type 0 where
    pub items : List (Item T)
    pub goes_on : Bool
    pub interner : Interner

  abbrev pub yielded : Item T → Emitted → Emitted
  yielded item e = record e { items = item ∷ e.items }

  abbrev pub stopped : Item T → Interner → Emitted
  stopped item interner_ = record { items = item ∷ []; goes_on = false; interner = interner_ }

  -- `time < prev`
  abbrev pub falls : Option ℕ → ℕ → Bool
  falls none time = false
  falls (some prev) time = ltb time prev

  abbrev pub previous : Option ℕ → ℕ
  previous none = 0
  previous (some prev) = prev

  -- The loop over the rows. A row outside the window is dropped before the order is checked.
  unfoldable pub row_loop :
      List Text → List (Row api) → WindowFilter → Option ℕ → Interner → Emitted
  row_loop columns [] filter prev interner_ = record {
    items = [];
    goes_on = true;
    interner = interner_;
  }
  row_loop columns (r ∷ rows_) filter prev interner_ = elim (from_kdb_row r columns interner_).0 [
    | err e ↦ stopped (error e) (from_kdb_row r columns interner_).1
    | ok (time, record_) ↦ elim (keep time filter).0 [
      | false ↦
          row_loop columns rows_ (keep time filter).1 prev (from_kdb_row r columns interner_).1
      | true ↦ elim (falls prev time) [
        | true ↦ stopped (unsorted time (previous prev)) (from_kdb_row r columns interner_).1
        | false ↦ yielded (row time record_) (
            row_loop columns rows_ (keep time filter).1 (some time)
              (from_kdb_row r columns interner_).1)
      ]
    ]
  ]

  pub record Reader : Type 0 where
    pub interner : Interner
    pub queries : QueryState
    pub outside : Outside

  abbrev pub emitted_error : Item T → Reader → Emitted
  emitted_error item reader = stopped item reader.interner

  -- The rows of an answer.
  abbrev pub answer_rows : TimeWindow → api.K → Reader → Emitted
  answer_rows window k reader = elim (column_names api k) [
    | err e ↦ emitted_error (error e) reader
    | ok columns ↦ elim (rows api k) [
      | err e ↦ emitted_error (error e) reader
      | ok rows_ ↦ row_loop columns (iter api rows_) (new_filter window) none reader.interner
    ]
  ]

  abbrev pub answered : TimeWindow → Option api.K → Reader → Emitted
  answered window none reader = emitted_error io_error reader
  answered window (some k) reader = answer_rows window k reader

  -- The query of a slice, its answer, and what else changes.
  unfoldable pub slice_items : ℕ → ℕ → Slice → Reader → Emitted × Reader
  unfolding row_loop
  slice_items start_time end_time s reader =
      let window = clamp s.t0 s.t1 start_time end_time in
      let (query, queries) = query_fn s reader.queries in
      let (answer, outside) = send_sync_message query reader.outside in
      (answered window answer reader, record reader { queries = queries; outside = outside })

  -- The items behind those of a slice, which the stream yields if it goes on.
  abbrev pub followed : Emitted → (Interner → List (Item T)) → List (Item T)
  followed e rest = e.items ++ elim e.goes_on [ true ↦ rest e.interner | false ↦ [] ]

  -- `chunk_stream` over the slices of `kdb_read`.
  unfoldable pub chunk_stream : ℕ → ℕ → List Slice → Reader → List (Item T)
  unfolding slice_items
  chunk_stream start_time end_time [] reader = []
  chunk_stream start_time end_time (s ∷ slices) reader =
      let (emitted, reader') = slice_items start_time end_time s reader in
      followed emitted (λ interner.
        chunk_stream start_time end_time slices (record reader' { interner = interner }))

  pub data Started : Type 0 where
    not_started : SliceError → Started
    panicked no_connection : Started
    streams : List (Item T) → Started

  abbrev pub connected : Bool × Outside → List Slice → ℕ → ℕ → Reader → Started
  connected (false, outside) slices start_time end_time reader = no_connection
  connected (true, outside) slices start_time end_time reader =
      streams (chunk_stream start_time end_time slices (record reader { outside = outside }))

  abbrev pub start_streams : ℕ → Option ℕ → Reader → Checked → Started
  start_streams start_time end_time reader (refused e) = not_started e
  start_streams start_time end_time reader (sliced none) = panicked
  start_streams start_time none reader (sliced (some slices)) = panicked
  start_streams start_time (some t) reader (sliced (some slices)) =
      connected (source.connect reader.outside) slices start_time t reader

  -- The closure of `kdb_read`; `end_time` is what the run gives for its end.
  unfoldable pub kdb_read : ℕ → Option ℕ → Duration → Reader → Started
  unfolding chunk_stream
  kdb_read start_time end_time period reader =
      start_streams start_time end_time reader
        (compute_validated_time_slices start_time end_time period)
