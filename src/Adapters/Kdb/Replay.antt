-- ===== src/Adapters/Kdb/Replay.antt =====
-- What a reader yields rises in time and stays inside the run.
use wingfoil.Base.{
  u64_mod, ℕ, ◌+◌, ◌≤◌, ◌<◌, ◌≡◌, refl, sym, ap, subst, ◌∙◌, Bool, true, false, List, [], ◌∷◌, ◌++◌,
  Option, none, some, arith, Bool-cases, inl, inr, max, min,
}
use wingfoil.Time.{Duration}
use wingfoil.Adapters.Slices.{
  TimeWindow, sliced, clamp, WindowFilter, new_filter, keep, Slice, sign, day_nanos,
  period_nanos_of, compute_time_slices, compute_validated_time_slices,
}
use wingfoil.Adapters.Slices.Day.{Tiles}
use wingfoil.Adapters.Slices.Whole.{compute_time_slices-Sliced}
use wingfoil.Adapters.Kdb.{
  Text, KApi, KdbError, Outcome, ok, err, Row, Rows, column_names, rows, iter,
}
use wingfoil.Adapters.Kdb.Read.{
  Item, row, error, unsorted, Source, Emitted, yielded, stopped, falls, previous, row_loop, Reader,
  answered, slice_items, followed, chunk_stream, kdb_read, start_streams, connected, streams,
}
use wingfoil.Adapters.Kdb.Rising.{
  Rising, Rising-le, Rising-append, keep-window, keep_lem, Outcome-cases,
}

pub validated :
    (start_time end_time : ℕ) (length_ : Duration)
    → 0 < start_time
    → end_time + 1 < u64_mod
    → 0 < period_nanos_of length_
    → compute_validated_time_slices start_time (some end_time) length_
      ≡ sliced (compute_time_slices start_time end_time length_)
unfolding compute_validated_time_slices
validated start_time end_time length_ more small pos = ground arith

module _ (api : KApi) (source : Source api) where
  open source use {T, Interner, from_kdb_row}

  -- The least time that a further row may have.
  abbrev bound : TimeWindow → Option ℕ → ℕ
  bound w none = w.lo
  bound w (some prev) = prev

  row_loop-failed :
      (columns : List Text) (r : Row api) (rows_ : List (Row api)) (f : WindowFilter)
      (prev : Option ℕ) (i : Interner) (e : KdbError)
      → (from_kdb_row r columns i).0 ≡ err e
      → row_loop api source columns (r ∷ rows_) f prev i
        ≡ stopped api source (error e) (from_kdb_row r columns i).1
  unfolding row_loop
  row_loop-failed columns r rows_ f prev i e h = rw (h, row_loop) refl

  pub row_loop-dropped :
      (columns : List Text) (r : Row api) (rows_ : List (Row api)) (f : WindowFilter)
      (prev : Option ℕ) (i : Interner) (time : ℕ) (record_ : T)
      → (from_kdb_row r columns i).0 ≡ ok (time, record_)
      → (keep time f).0 ≡ false
      → row_loop api source columns (r ∷ rows_) f prev i
        ≡ row_loop api source columns rows_ (keep time f).1 prev (from_kdb_row r columns i).1
  unfolding row_loop
  row_loop-dropped columns r rows_ f prev i time record_ h k = rw (h, row_loop) (rw k refl)

  row_loop-unsorted :
      (columns : List Text) (r : Row api) (rows_ : List (Row api)) (f : WindowFilter)
      (prev : Option ℕ) (i : Interner) (time : ℕ) (record_ : T)
      → (from_kdb_row r columns i).0 ≡ ok (time, record_)
      → (keep time f).0 ≡ true
      → falls api source prev time ≡ true
      → row_loop api source columns (r ∷ rows_) f prev i
        ≡ stopped api source (unsorted time (previous api source prev)) (from_kdb_row r columns i).1
  unfolding row_loop
  row_loop-unsorted columns r rows_ f prev i time record_ h k l =
      rw (h, row_loop) (rw k (rw l refl))

  pub row_loop-yields :
      (columns : List Text) (r : Row api) (rows_ : List (Row api)) (f : WindowFilter)
      (prev : Option ℕ) (i : Interner) (time : ℕ) (record_ : T)
      → (from_kdb_row r columns i).0 ≡ ok (time, record_)
      → (keep time f).0 ≡ true
      → falls api source prev time ≡ false
      → row_loop api source columns (r ∷ rows_) f prev i
        ≡ yielded api source (row time record_) (
            row_loop api source columns rows_
              (keep time f).1
              (some time)
              (from_kdb_row r columns i).1)
  unfolding row_loop
  row_loop-yields columns r rows_ f prev i time record_ h k l = rw (h, row_loop) (rw k (rw l refl))

  not_falls :
      (w : TimeWindow) (prev : Option ℕ) (time : ℕ)
      → w.lo ≤ time
      → falls api source prev time ≡ false
      → bound w prev ≤ time
  not_falls w none time h l = h
  not_falls w (some prev) time h l = ground arith

  -- The rows of a slice rise inside its window.
  row_loop-Rising :
      (columns : List Text) (rows_ : List (Row api)) (w : TimeWindow) (f : WindowFilter)
      (prev : Option ℕ) (i : Interner)
      → f.window ≡ w
      → Rising w.hi (bound w prev) (row_loop api source columns rows_ f prev i).items
  unfolding row_loop
  row_loop-Rising columns [] w f prev i same = tt
  row_loop-Rising columns (r ∷ rows_) w f prev i same =
      elim (Outcome-cases (from_kdb_row r columns i).0) [
        | inr (e, h) ↦
            subst (λ x. Rising w.hi (bound w prev) x.items)
              (sym (row_loop-failed columns r rows_ f prev i e h)) tt
        | inl ((time, record_), h) ↦ elim (Bool-cases (keep time f).0) [
          | inr k ↦
              subst (λ x. Rising w.hi (bound w prev) x.items)
                (sym (row_loop-dropped columns r rows_ f prev i time record_ h k))
                (row_loop-Rising columns rows_ w (keep time f).1 prev (from_kdb_row r columns i).1
                  (keep-window time f ∙ same))
          | inl k ↦ elim (Bool-cases (falls api source prev time)) [
            | inl l ↦
                subst (λ x. Rising w.hi (bound w prev) x.items)
                  (sym (row_loop-unsorted columns r rows_ f prev i time record_ h k l)) tt
            | inr l ↦
                let inside : (w.lo ≤ time) × (time < w.hi) =
                  subst (λ v. (v.lo ≤ time) × (time < v.hi)) same (keep_lem time f k) in
                subst (λ x. Rising w.hi (bound w prev) x.items)
                  (sym (row_loop-yields columns r rows_ f prev i time record_ h k l))
                  (
                    not_falls w prev time inside.0 l,
                    inside.1,
                    row_loop-Rising columns rows_ w (keep time f).1 (some time)
                        (from_kdb_row r columns i).1 (keep-window time f ∙ same),
                  )
          ]
        ]
      ]

  answered-Rising :
      (w : TimeWindow) (answer : Option api.K) (reader : Reader api source)
      → Rising w.hi w.lo (answered api source w answer reader).items
  answered-Rising w none reader = tt
  answered-Rising w (some k) reader = by_columns (column_names api k) (rows api k)
    where
      by_columns :
          (c : Outcome (List Text)) (r : Outcome (Rows api))
          → Rising w.hi w.lo
              (elim c as (λ _. Emitted api source) [
                | err e ↦ stopped api source (error e) reader.interner
                | ok columns ↦ elim r as (λ _. Emitted api source) [
                  | err e ↦ stopped api source (error e) reader.interner
                  | ok rows_ ↦
                      row_loop api source columns
                        (iter api rows_)
                        (new_filter w)
                        none
                        reader.interner
                ]
              ]).items
      by_columns (err e) r = tt
      by_columns (ok columns) (err e) = tt
      by_columns (ok columns) (ok rows_) =
          row_loop-Rising columns (iter api rows_) w (new_filter w) none reader.interner refl

  followed-Rising :
      (hi end_ lo mid : ℕ) (e : Emitted api source) (rest : Interner → List (Item T))
      → lo ≤ mid
      → hi ≤ mid
      → hi ≤ end_
      → Rising hi lo e.items
      → ((i : Interner) → Rising end_ mid (rest i))
      → Rising end_ lo (followed api source e rest)
  followed-Rising hi end_ lo mid e rest le le' top h k = by_flag e.goes_on
    where
      by_flag :
          (b : Bool)
          → Rising end_ lo
              (e.items ++ elim b as (λ _. List (Item T)) [ true ↦ rest e.interner | false ↦ [] ])
      by_flag true =
          Rising-append hi end_ lo mid e.items (rest e.interner) le le' top h (k e.interner)
      by_flag false = Rising-append hi end_ lo mid e.items [] le le' top h tt

  -- The slices of a run, from any of them on.
  chunk_stream-Rising :
      (start_time end_time period : ℕ) (fits : end_time + day_nanos + period < sign)
      (slices : List Slice) (lo hi : ℕ) (reader : Reader api source)
      → start_time < end_time
      → Tiles end_time period fits lo slices hi
      → Rising end_time
          (max lo start_time)
          (chunk_stream api source start_time end_time slices reader)
  unfolding chunk_stream slice_items clamp
  chunk_stream-Rising start_time end_time period fits [] lo hi reader before tiles = tt
  chunk_stream-Rising start_time end_time period fits (s ∷ slices) lo hi reader before tiles =
      let after = slice_items api source start_time end_time s reader in
      let longer : s.t0 < s.t1 = tiles.1.some_time in
      let starts : s.t0 ≡ lo = tiles.0 in
      subst
        (λ l.
          Rising end_time (max l start_time)
            (chunk_stream api source start_time end_time (s ∷ slices) reader))
        starts
        (followed-Rising (min s.t1 end_time) end_time (max s.t0 start_time) (max s.t1 start_time)
          after.0
          (λ i.
            chunk_stream api source start_time end_time slices (record (after.1) { interner = i }))
          (omega (arith, longer)) (omega arith) (omega arith)
          (answered-Rising (clamp s.t0 s.t1 start_time end_time)
            (source.send_sync_message (source.query_fn s reader.queries).0 reader.outside).0 reader)
          (λ i.
            chunk_stream-Rising start_time end_time period fits slices s.t1 hi
              (record (after.1) { interner = i }) before tiles.2))

  -- If the start is positive and before the end, the period is positive and held by 64 bits, the
  -- end leaves room for a day and a period below 2^63 and the connection is made, then `kdb_read`
  -- starts, whatever the queries return: the times of the rows that it streams never fall, from
  -- slice to slice too, and all lie from the start on and before the end.
  pub kdb_read-Rising :
      (start_time end_time period : ℕ) (length_ : Duration) (reader : Reader api source)
      → 0 < start_time
      → start_time < end_time
      → end_time + day_nanos + period < sign
      → period_nanos_of length_ ≡ period
      → 0 < period
      → (source.connect reader.outside).0 ≡ true
      → (items : List (Item T)) × (kdb_read api source start_time (some end_time) length_ reader
          ≡ streams items)
        × Rising end_time start_time items
  unfolding kdb_read
  kdb_read-Rising start_time end_time period length_ reader more before fits same pos up =
      let cut =
        compute_time_slices-Sliced end_time period fits start_time length_ before same pos in
      let opened : Reader api source = record reader {
        outside = (source.connect reader.outside).1;
      } in
      (
        chunk_stream api source start_time end_time cut.slices opened,
        ap (start_streams api source start_time (some end_time) reader) (
              validated start_time end_time length_ more (omega arith) (omega (arith, same))
              ∙ ap sliced cut.returns)
            ∙ ap
                (λ b.
                  connected api source (b, (source.connect reader.outside).1) cut.slices start_time
                    end_time reader)
                up,
        Rising-le end_time start_time (max cut.lo start_time)
            (chunk_stream api source start_time end_time cut.slices opened) (omega arith)
            (chunk_stream-Rising start_time end_time period fits cut.slices cut.lo cut.hi opened
              before cut.tiles),
      )
