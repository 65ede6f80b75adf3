-- ===== src/Adapters/Kdb/ReadCached.antt =====
-- wingfoil/src/adapters/kdb/read_cached.rs: a slice of `kdb_read_cached`, which asks the cache before it
-- asks the server.
use wingfoil.Base.{
  Bool-cases, inl, inr, ℕ, ◌≡◌, refl, sym, ap, subst, ◌∙◌, Bool, true, false, List, [], ◌∷◌, ◌++◌,
  Option, none, some, ◌==◌, if◌then◌else◌, All,
}
use wingfoil.Adapters.Slices.{
  TimeWindow, clamp, WindowFilter, new_filter, keep, Slice, SliceError, Checked, refused, sliced,
  compute_validated_time_slices,
}
use wingfoil.Time.{Duration}
use wingfoil.Adapters.Cache.{
  Bytes, Files, Cached, miss, hit, unreadable_file, missing_header, corrupt, saved, get, put,
}
use wingfoil.Adapters.Cache.RoundTrip.{Lawful, put-get}
use wingfoil.Adapters.Kdb.{Text, KApi, ok, err, Row, rows, column_names, iter}
use wingfoil.Adapters.Kdb.Between.{inside, between, as_items}
use wingfoil.Adapters.Kdb.Rising.{keep-window}
use wingfoil.Adapters.Kdb.Complete.{keep-inside}
use wingfoil.Adapters.Kdb.Read.{Item, row, error, io_error, unsorted, Source, falls, previous}

module _ (api : KApi) (source : Source api) (files : Files source.T) where
  open source use {
    T, Interner, Query, QueryState, Outside, from_kdb_row, query_fn, send_sync_message,
  }

  -- What is kept between slices: whether there is a socket, and the two outsides.
  pub record CachedReader : Type 0 where
    pub interner : Interner
    pub queries : QueryState
    pub has_socket : Bool
    pub server : Outside
    pub folder : files.Outside

  pub record SliceResult : Type 0 where
    pub items : List (Item T)
    pub goes_on : Bool
    pub reader : CachedReader

  abbrev pub slice_failed : Item T → CachedReader → SliceResult
  slice_failed item reader_ = record { items = item ∷ []; goes_on = false; reader = reader_ }

  -- The records in the window.
  unfoldable pub emit_kept : List (ℕ × T) → WindowFilter → List (Item T)
  emit_kept [] filter = []
  emit_kept ((time, record_) ∷ found) filter =
      let later = emit_kept found (keep time filter).1 in
      if (keep time filter).0 then row time record_ ∷ later else later

  pub data Parsed : Type 0 where
    parsed : List (ℕ × T) → Interner → Parsed
    not_parsed : Item T → Interner → Parsed

  abbrev pub cons_parsed : ℕ × T → Parsed → Parsed
  cons_parsed r (parsed found i) = parsed (r ∷ found) i
  cons_parsed r (not_parsed item i) = not_parsed item i

  -- All rows, whose order is checked before any is dropped.
  unfoldable pub parse_rows : List Text → List (Row api) → Option ℕ → Interner → Parsed
  parse_rows columns [] prev interner_ = parsed [] interner_
  parse_rows columns (r ∷ rows_) prev interner_ = elim (from_kdb_row r columns interner_).0 [
    | err e ↦ not_parsed (error e) (from_kdb_row r columns interner_).1
    | ok (time, record_) ↦ elim (falls api source prev time) [
      | true ↦
          not_parsed (unsorted time (previous api source prev)) (from_kdb_row r columns interner_).1
      | false ↦
          cons_parsed (time, record_)
            (parse_rows columns rows_ (some time) (from_kdb_row r columns interner_).1)
    ]
  ]

  -- The rows are put into the cache; that this fails is ignored.
  abbrev pub store_rows : ℕ → Bytes → Bytes → TimeWindow → CachedReader → Parsed → SliceResult
  store_rows max_size key text window reader_ (not_parsed item i) =
      slice_failed item (record reader_ { interner = i })
  store_rows max_size key text window reader_ (parsed found i) = record {
    items = emit_kept found (new_filter window);
    goes_on = true;
    reader = record reader_ {
      interner = i;
      folder = (put files max_size key text found reader_.folder).1;
    };
  }

  abbrev pub read_answer :
      ℕ → Bytes → Bytes → TimeWindow → CachedReader → Option api.K → SliceResult
  read_answer max_size key text window reader_ none = slice_failed io_error reader_
  read_answer max_size key text window reader_ (some k) = elim (column_names api k) [
    | err e ↦ slice_failed (error e) reader_
    | ok columns ↦ elim (rows api k) [
      | err e ↦ slice_failed (error e) reader_
      | ok rows_ ↦
          store_rows max_size key text window reader_
            (parse_rows columns (iter api rows_) none reader_.interner)
    ]
  ]

  abbrev pub ask_server : ℕ → Query → Bytes → Bytes → TimeWindow → CachedReader → SliceResult
  ask_server max_size query key text window reader_ =
      let (answer, server) = send_sync_message query reader_.server in
      read_answer max_size key text window (record reader_ { server = server }) answer

  abbrev pub after_connect :
      (CachedReader → SliceResult) → CachedReader → Bool × Outside → SliceResult
  after_connect ask reader_ (false, server) =
      slice_failed io_error (record reader_ { server = server })
  after_connect ask reader_ (true, server) =
      ask (record reader_ { has_socket = true; server = server })

  -- The socket is opened when the cache has missed first.
  abbrev pub ensure_socket : (CachedReader → SliceResult) → CachedReader → SliceResult
  ensure_socket ask reader_ = elim reader_.has_socket [
    | true ↦ ask reader_
    | false ↦ after_connect ask reader_ (source.connect reader_.server)
  ]

  -- An error of the cache counts as a miss.
  abbrev pub from_cache : TimeWindow → CachedReader → SliceResult → Cached T → SliceResult
  from_cache window reader_ fetched (hit found) = record {
    items = emit_kept found (new_filter window);
    goes_on = true;
    reader = reader_;
  }
  from_cache window reader_ fetched miss = fetched
  from_cache window reader_ fetched unreadable_file = fetched
  from_cache window reader_ fetched missing_header = fetched
  from_cache window reader_ fetched corrupt = fetched

  -- The slice behind its query, given as text and key.
  unfoldable pub cached_slice : ℕ → Query → Bytes → Bytes → TimeWindow → CachedReader → SliceResult
  unfolding parse_rows emit_kept
  cached_slice max_size query key text window reader_ =
      let (cached, folder) = get files key reader_.folder in
      let looked : CachedReader = record reader_ { folder = folder } in
      from_cache window looked (ensure_socket (ask_server max_size query key text window) looked)
        cached

  -- The loop over the slices; `key_of` is the digest and `text_of` the text of a query.
  unfoldable pub cached_stream :
      ℕ → (Query → Bytes) → (Query → Bytes) → ℕ → ℕ → List Slice → CachedReader → List (Item T)
  unfolding cached_slice
  cached_stream max_size key_of text_of start_time end_time [] reader_ = []
  cached_stream max_size key_of text_of start_time end_time (s ∷ slices) reader_ =
      let (query, queries) = query_fn s reader_.queries in
      let r =
        cached_slice max_size query (key_of query) (text_of query)
          (clamp s.t0 s.t1 start_time end_time) (record reader_ { queries = queries }) in
      r.items ++ elim r.goes_on [
        | true ↦ cached_stream max_size key_of text_of start_time end_time slices r.reader
        | false ↦ []
      ]

  pub data CachedStarted : Type 0 where
    not_started : SliceError → CachedStarted
    panicked no_cache_folder : CachedStarted
    cached_streams : List (Item T) → CachedStarted

  -- `created` is whether the folder of the cache is there.
  abbrev pub start_cached :
      Bool → (ℕ → List Slice → List (Item T)) → Option ℕ → Checked → CachedStarted
  start_cached created stream end_time (refused e) = not_started e
  start_cached created stream end_time (sliced none) = panicked
  start_cached created stream none (sliced (some slices)) = panicked
  start_cached true stream (some t) (sliced (some slices)) = cached_streams (stream t slices)
  start_cached false stream (some t) (sliced (some slices)) = no_cache_folder

  -- The closure of `kdb_read_cached`.
  unfoldable pub kdb_read_cached :
      ℕ
      → (Query → Bytes)
      → (Query → Bytes)
      → Bool
      → ℕ
      → Option ℕ
      → Duration
      → CachedReader
      → CachedStarted
  unfolding cached_stream
  kdb_read_cached max_size key_of text_of created start_time end_time period reader_ =
      start_cached created
        (λ t slices. cached_stream max_size key_of text_of start_time t slices reader_) end_time
        (compute_validated_time_slices start_time end_time period)

  -- The records that pass a filter are those between the bounds of its window.
  emit_kept-between :
      (found : List (ℕ × T)) (f : WindowFilter)
      → emit_kept found f ≡ as_items (between f.window.lo f.window.hi found)
  unfolding emit_kept
  emit_kept-between [] f = refl
  emit_kept-between ((time, record_) ∷ found) f =
      let same : emit_kept found (keep time f).1
          ≡ as_items (between f.window.lo f.window.hi found) =
        emit_kept-between found (keep time f).1
        ∙ ap (λ (w : TimeWindow). as_items (between w.lo w.hi found)) (keep-window time f) in
      elim (Bool-cases (inside f.window.lo f.window.hi time)) [
        | inl on ↦ rw (keep-inside time f, on) (ap (λ items. row time record_ ∷ items) same)
        | inr off ↦ rw (keep-inside time f, off) same
      ]

  -- If the file system and bincode are lawful, a query has no newline, and the rows that were
  -- parsed for it were put into the cache with success, then in a later run from the folder that
  -- this left, in any window and with or without a socket, its slice yields exactly those of
  -- these rows that are in the window, goes on, and asks nothing of the server.
  pub cached_slice-put :
      (laws : Lawful files) (max_size : ℕ) (query : Query) (key text : Bytes)
      (window later : TimeWindow) (reader_ next : CachedReader) (found : List (ℕ × T))
      (i : Interner)
      → All (λ b. (b == 10) ≡ false) text
      → (put files max_size key text found reader_.folder).0 ≡ saved
      → next.folder ≡ (store_rows max_size key text window reader_ (parsed found i)).reader.folder
      → ((cached_slice max_size query key text later next).items
          ≡ as_items (between later.lo later.hi found))
        × ((cached_slice max_size query key text later next).goes_on ≡ true)
        × ((cached_slice max_size query key text later next).reader.server ≡ next.server)
  unfolding cached_slice
  cached_slice-put laws max_size query key text window later reader_ next found i plain stored
        same =
      let looked : CachedReader = record next { folder = (get files key next.folder).1 } in
      let hit_again : (get files key next.folder).0 ≡ hit found =
        ap (λ o. (get files key o).0) same
        ∙ put-get files laws max_size key text found reader_.folder plain stored in
      let step : cached_slice max_size query key text later next
          ≡ from_cache later looked
              (ensure_socket (ask_server max_size query key text later) looked) (hit found) =
        ap
          (from_cache later looked
            (ensure_socket (ask_server max_size query key text later) looked))
          hit_again in
      subst
        (λ r.
          (r.items ≡ as_items (between later.lo later.hi found))
          × (r.goes_on ≡ true)
          × (r.reader.server ≡ next.server))
        (sym step) (emit_kept-between found (new_filter later), refl, refl)
