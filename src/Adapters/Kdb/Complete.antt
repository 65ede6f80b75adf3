-- ===== src/Adapters/Kdb/Complete.antt =====
-- A reader over a sorted table yields all rows of the run and nothing else.
use wingfoil.Base.{
  ℕ, ◌+◌, ◌≤◌, ◌<◌, ◌≡◌, refl, sym, ap, subst, ◌∙◌, true, false, List, [], ◌∷◌, ◌++◌, Option, none,
  some, arith, Bool-cases, inl, inr,
}
use wingfoil.Time.{Duration}
use wingfoil.Adapters.Slices.{
  TimeWindow, sliced, clamp, WindowFilter, new_filter, keep, contains, Slice, sign, day_nanos,
  period_nanos_of,
}
use wingfoil.Adapters.Slices.Day.{Tiles}
use wingfoil.Adapters.Slices.Whole.{compute_time_slices-Sliced}
use wingfoil.Adapters.Kdb.{Text, KApi, ok, err, Row, Rows, column_names, rows, iter}
use wingfoil.Adapters.Kdb.Read.{
  Item, row, error, Source, Emitted, stopped, falls, row_loop, Reader, answered, slice_items,
  followed, chunk_stream, kdb_read, start_streams, connected, streams,
}
use wingfoil.Adapters.Kdb.Rising.{keep-window}
use wingfoil.Adapters.Kdb.Replay.{row_loop-dropped, row_loop-yields, validated}
use wingfoil.Adapters.Kdb.Between.{
  inside, between, Sorted, as_items, as_items-append, Sorted-between, between-clamp, between-swap,
  between-join, between-around, between-empty,
}

pub keep-inside :
    (time : ℕ) (f : WindowFilter) → (keep time f).0 ≡ inside f.window.lo f.window.hi time
unfolding keep contains
keep-inside time f = elim (Bool-cases (inside f.window.lo f.window.hi time)) [
  | inl e ↦ rw e refl
  | inr e ↦ rw e refl
]

module _ (api : KApi) (source : Source api) where
  open source use {T, Interner, from_kdb_row}

  -- The deserialiser reads the rows as these records, whatever it has interned.
  abbrev pub Decodes : List Text → List (Row api) → List (ℕ × T) → Type 0
  Decodes columns [] found = found ≡ []
  Decodes columns (r ∷ rows_) found =
      (head : ℕ × T) × (tail : List (ℕ × T)) × (found ≡ head ∷ tail)
      × ((i : Interner) → (from_kdb_row r columns i).0 ≡ ok head)
      × Decodes columns rows_ tail

  -- An answer with the rows of a table in a slice, and maybe others outside it.
  pub record Answer (table : List (ℕ × T)) (s : Slice) (answer : Option api.K) : Type 0 where
    pub k : api.K
    pub given : answer ≡ some k
    pub columns : List Text
    pub named : column_names api k ≡ ok columns
    pub table_rows : Rows api
    pub read : rows api k ≡ ok table_rows
    pub found : List (ℕ × T)
    pub decodes : Decodes columns (iter api table_rows) found
    pub same : between s.t0 s.t1 found ≡ between s.t0 s.t1 table

  -- Every query is answered.
  abbrev pub Serves : List (ℕ × T) → Type 0
  Serves table =
      (s : Slice) (q : source.QueryState) (o : source.Outside)
      → Answer table s (source.send_sync_message (source.query_fn s q).0 o).0

  -- The loop yields exactly these rows and goes on.
  record Yields (l : List (ℕ × T)) (e : Emitted api source) : Type 0 where
    all_items : e.items ≡ as_items l
    goes : e.goes_on ≡ true

  abbrev least : Option ℕ → ℕ
  least none = 0
  least (some prev) = prev

  rises : (prev : Option ℕ) (time : ℕ) → least prev ≤ time → falls api source prev time ≡ false
  rises none time h = refl
  rises (some prev) time h = ground arith

  row_loop-Yields :
      (columns : List Text) (rows_ : List (Row api)) (found : List (ℕ × T)) (w : TimeWindow)
      (f : WindowFilter) (prev : Option ℕ) (i : Interner)
      → f.window ≡ w
      → Decodes columns rows_ found
      → Sorted (least prev) (between w.lo w.hi found)
      → Yields (between w.lo w.hi found) (row_loop api source columns rows_ f prev i)
  unfolding row_loop
  row_loop-Yields columns [] found w f prev i window d sorted =
      rw d (record { all_items = refl; goes = refl })
  row_loop-Yields columns (r ∷ rows_) found w f prev i window ((t, x), tail, e, read, d) sorted =
      let kept : (keep t f).0 ≡ inside w.lo w.hi t =
        keep-inside t f ∙ ap (λ (v : TimeWindow). inside v.lo v.hi t) window in
      let ih = row_loop-Yields columns rows_ tail w (keep t f).1 in
      let next : Interner = (from_kdb_row r columns i).1 in
      let same : (keep t f).1.window ≡ w = keep-window t f ∙ window in
      let sorted' : Sorted (least prev) (between w.lo w.hi ((t, x) ∷ tail)) =
        subst (λ l. Sorted (least prev) (between w.lo w.hi l)) e sorted in
      subst (λ l. Yields (between w.lo w.hi l) (row_loop api source columns (r ∷ rows_) f prev i))
        (sym e)
        (elim (Bool-cases (inside w.lo w.hi t)) [
          | inl on ↦
              let order : (least prev ≤ t) × Sorted t (between w.lo w.hi tail) = rw on at sorted' in
              let rest = ih (some t) next same d order.1 in
              rw on (
                subst (Yields ((t, x) ∷ between w.lo w.hi tail))
                  (sym (
                    row_loop-yields api source columns r rows_ f prev i t x (read i) (kept ∙ on)
                      (rises prev t order.0)))
                  (record {
                    all_items = ap (λ items. row t x ∷ items) rest.all_items;
                    goes = rest.goes;
                  }))
          | inr off ↦ rw off (
              subst (Yields (between w.lo w.hi tail))
                (sym
                  (row_loop-dropped api source columns r rows_ f prev i t x (read i) (kept ∙ off)))
                (ih prev next same d (rw off at sorted')))
        ])

  answered-Yields :
      (table : List (ℕ × T)) (start_time end_time : ℕ) (s : Slice) (answer : Option api.K)
      (reader : Reader api source)
      → Sorted 0 table
      → Answer table s answer
      → Yields
          (between s.t0 s.t1 (between start_time end_time table))
          (answered api source (clamp s.t0 s.t1 start_time end_time) answer reader)
  unfolding clamp
  answered-Yields table start_time end_time s answer reader sorted a =
      let w = clamp s.t0 s.t1 start_time end_time in
      let kept : between w.lo w.hi a.found ≡ between s.t0 s.t1 (between start_time end_time table) =
        between-clamp s.t0 s.t1 start_time end_time a.found
        ∙ ap (between start_time end_time) a.same
        ∙ between-swap start_time end_time s.t0 s.t1 table in
      let loop_sorted : Sorted 0 (between w.lo w.hi a.found) = subst (Sorted 0) (sym kept) (
        Sorted-between s.t0 s.t1 0 (between start_time end_time table)
          (Sorted-between start_time end_time 0 table sorted)) in
      let same : answered api source w answer reader
          ≡ row_loop api source a.columns (iter api a.table_rows) (new_filter w) none
              reader.interner =
        ap (λ o. answered api source w o reader) a.given
        ∙ ap
            (λ c. elim c as (λ _. Emitted api source) [
              | err e ↦ stopped api source (error e) reader.interner
              | ok columns ↦ elim (rows api a.k) as (λ _. Emitted api source) [
                | err e ↦ stopped api source (error e) reader.interner
                | ok rows_ ↦
                    row_loop api source columns (iter api rows_) (new_filter w) none reader.interner
              ]
            ])
            a.named
        ∙ ap
            (λ r. elim r as (λ _. Emitted api source) [
              | err e ↦ stopped api source (error e) reader.interner
              | ok rows_ ↦
                  row_loop api source a.columns (iter api rows_) (new_filter w) none reader.interner
            ])
            a.read in
      subst (λ l. Yields l (answered api source w answer reader)) kept
        (subst (Yields (between w.lo w.hi a.found)) (sym same) (
          row_loop-Yields a.columns (iter api a.table_rows) a.found w (new_filter w) none
            reader.interner refl a.decodes loop_sorted))

  Tiles-le :
      (end_time period : ℕ) (fits : end_time + day_nanos + period < sign) (slices : List Slice)
      (lo hi : ℕ)
      → Tiles end_time period fits lo slices hi
      → lo ≤ hi
  Tiles-le end_time period fits [] lo hi tiles = omega (arith, tiles)
  Tiles-le end_time period fits (s ∷ slices) lo hi tiles =
      let longer : s.t0 < s.t1 = tiles.1.some_time in
      let starts : s.t0 ≡ lo = tiles.0 in
      omega (arith, longer, starts, Tiles-le end_time period fits slices s.t1 hi tiles.2)

  followed-Yields :
      (l : List (ℕ × T)) (e : Emitted api source) (rest : Interner → List (Item T))
      → Yields l e
      → followed api source e rest ≡ as_items l ++ rest e.interner
  followed-Yields l e rest y =
      ap (λ b. e.items ++ elim b as (λ _. List (Item T)) [ true ↦ rest e.interner | false ↦ [] ])
        y.goes
      ∙ ap (λ items. items ++ rest e.interner) y.all_items

  -- The slices of a run, from any of them on.
  chunk_stream-Complete :
      (table : List (ℕ × T)) (start_time end_time period : ℕ)
      (fits : end_time + day_nanos + period < sign) (slices : List Slice) (lo hi : ℕ)
      (reader : Reader api source)
      → Sorted 0 table
      → Serves table
      → Tiles end_time period fits lo slices hi
      → chunk_stream api source start_time end_time slices reader
        ≡ as_items (between lo hi (between start_time end_time table))
  unfolding chunk_stream slice_items
  chunk_stream-Complete table start_time end_time period fits [] lo hi reader sorted serves tiles =
      rw tiles (ap as_items (sym (between-empty hi (between start_time end_time table))))
  chunk_stream-Complete table start_time end_time period fits (s ∷ slices) lo hi reader sorted
        serves tiles =
      let run : List (ℕ × T) = between start_time end_time table in
      let after = slice_items api source start_time end_time s reader in
      let rest : Interner → List (Item T) = λ i.
        chunk_stream api source start_time end_time slices (record (after.1) { interner = i }) in
      let longer : s.t0 < s.t1 = tiles.1.some_time in
      let starts : s.t0 ≡ lo = tiles.0 in
      let first =
        answered-Yields table start_time end_time s
          (source.send_sync_message (source.query_fn s reader.queries).0 reader.outside).0 reader
          sorted (serves s reader.queries reader.outside) in
      let more =
        chunk_stream-Complete table start_time end_time period fits slices s.t1 hi
          (record (after.1) { interner = after.0.interner }) sorted serves tiles.2 in
      followed-Yields (between s.t0 s.t1 run) after.0 rest first
      ∙ ap (λ items. as_items (between s.t0 s.t1 run) ++ items) more
      ∙ sym (as_items-append (between s.t0 s.t1 run) (between s.t1 hi run))
      ∙ ap as_items (
          between-join s.t0 s.t1 hi 0 run (omega (arith, longer))
            (Tiles-le end_time period fits slices s.t1 hi tiles.2)
            (Sorted-between start_time end_time 0 table sorted))
      ∙ ap (λ l. as_items (between l hi run)) starts

  -- If the queries are answered with tables whose rows deserialise and which have, in the slice
  -- that was asked for, the rows of one table sorted by time, and if the start is positive and
  -- before the end, the period is positive and held by 64 bits, the end leaves room for a day and
  -- a period below 2^63 and the connection is made, then `kdb_read` streams exactly the rows of
  -- that table from the start on and before the end, each once, in order and without an error.
  pub kdb_read-Complete :
      (table : List (ℕ × T)) (start_time end_time period : ℕ) (length_ : Duration)
      (reader : Reader api source)
      → Sorted 0 table
      → Serves table
      → 0 < start_time
      → start_time < end_time
      → end_time + day_nanos + period < sign
      → period_nanos_of length_ ≡ period
      → 0 < period
      → (source.connect reader.outside).0 ≡ true
      → kdb_read api source start_time (some end_time) length_ reader
        ≡ streams (as_items (between start_time end_time table))
  unfolding kdb_read
  kdb_read-Complete table start_time end_time period length_ reader sorted serves more before fits
        same pos up =
      let cut =
        compute_time_slices-Sliced end_time period fits start_time length_ before same pos in
      let opened : Reader api source = record reader {
        outside = (source.connect reader.outside).1;
      } in
      ap (start_streams api source start_time (some end_time) reader) (
        validated start_time end_time length_ more (omega arith) (omega (arith, same))
        ∙ ap sliced cut.returns)
      ∙ ap
          (λ b.
            connected api source (b, (source.connect reader.outside).1) cut.slices start_time
              end_time reader)
          up
      ∙ ap streams (
          chunk_stream-Complete table start_time end_time period fits cut.slices cut.lo cut.hi
            opened sorted serves cut.tiles
          ∙ ap as_items
              (between-around cut.lo cut.hi start_time end_time table cut.from_start cut.to_end))
