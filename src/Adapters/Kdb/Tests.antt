-- ===== src/Adapters/Kdb/Tests.antt =====
-- The theorems on the reader for a table of two times, of which one is outside the run.
use wingfoil.Base.{ℕ, ◌≡◌, refl, true, false, List, [], ◌∷◌, Option, none, some, arith}
use wingfoil.Adapters.Slices.{Slice}
use wingfoil.Time.{from_kdb_timestamp}
use wingfoil.Adapters.Kdb.{
  Text, KApi, Outcome, ok, err, get_timestamp, column_names, dict_parts, rows, iter, rows_from, get,
  element_at,
}
use wingfoil.Adapters.Kdb.Read.{Item, Source, Reader, kdb_read, streams}
use wingfoil.Adapters.Kdb.Rising.{Rising}
use wingfoil.Adapters.Slices.{TimeWindow}
use wingfoil.Adapters.Cache.{put, evict, evict_lru}
use wingfoil.Adapters.Cache.Tests.{folder, folder-Lawful, empty_folder, two_rows}
use wingfoil.Adapters.Kdb.Replay.{kdb_read-Rising}
use wingfoil.Adapters.Kdb.ReadCached.{
  CachedReader, cached_slice, store_rows, parsed, cached_slice-put,
}
use wingfoil.Adapters.Kdb.Between.{between, as_items}
use wingfoil.Adapters.Kdb.Complete.{Serves, kdb_read-Complete}

-- The values of q that the table consists of.
data Q : Type 0 where
  whole dict keys values times : Q
  atom : ℕ → Q

abbrev type_of : Q → ℕ
type_of whole = 98
type_of dict = 99
type_of keys = 11
type_of values = 0
type_of times = 12
type_of (atom n) = 112

abbrev parts : Q → Option (List Q)
parts dict = some (keys ∷ values ∷ [])
parts values = some (times ∷ [])
parts q = none

abbrev dict_of : Q → Option Q
dict_of whole = some dict
dict_of q = none

abbrev names : Q → Option (List Text)
names keys = some ((b't' ∷ []) ∷ [])
names q = none

-- One day and one second before 2000-01-02.
abbrev longs : Q → Option (List Q)
longs times = some (atom 0 ∷ atom 86399000000000 ∷ [])
longs q = none

abbrev long_of : Q → Option ℕ
long_of (atom n) = some n
long_of q = none

abbrev size : Q → ℕ
size times = 2
size q = 0

abbrev q_api : KApi
q_api = record {
  K = Q;
  get_type = type_of;
  len = size;
  get_dictionary = dict_of;
  as_list = parts;
  as_symbols = names;
  table = 98;
  compound_list = 0;
  long_list = 7;
  timestamp_list = 12;
  timespan_list = 16;
  float_list = 9;
  symbol_list = 11;
  string = 10;
  int_list = 6;
  date_list = 14;
  time_list = 19;
  short_list = 5;
  bool_list = 1;
  real_list = 8;
  as_longs = longs;
  as_floats = λ _. none;
  as_symbol_atoms = λ _. none;
  as_bytes = λ _. none;
  as_ints = λ _. none;
  as_shorts = λ _. none;
  as_bools = λ _. none;
  as_reals = λ _. none;
  get_long = long_of;
}

abbrev timed : Outcome ℕ → Outcome (ℕ × Unit {0})
timed (ok t) = ok (t, tt)
timed (err e) = err e

abbrev table_source : Source q_api
table_source = record {
  T = Unit;
  Interner = Unit;
  Query = Slice;
  QueryState = Unit;
  Outside = Unit;
  from_kdb_row = λ r _ i. (timed (get_timestamp q_api 0 r), i);
  query_fn = λ s u. (s, u);
  send_sync_message = λ _ o. (some whole, o);
  connect = λ o. (true, o);
}

abbrev fresh : Reader q_api table_source
fresh = record { interner = tt; queries = tt; outside = tt }

kdb_read-Rising_example :
    (items : List (Item (Unit {0}))) × (kdb_read q_api table_source 946749600000000000
        (some 946774800000000000)
        (record { secs = 18000; nanos = 0 })
        fresh
      ≡ streams items)
    × Rising 946774800000000000 946749600000000000 items
kdb_read-Rising_example =
    kdb_read-Rising q_api table_source 946749600000000000 946774800000000000 18000000000000
      (record { secs = 18000; nanos = 0 }) fresh (omega arith) (omega arith) (omega arith) refl
      (omega arith) refl

abbrev two_times : List (ℕ × Unit {0})
two_times = (946684800000000000, tt) ∷ (946771199000000000, tt) ∷ []

two_times-Serves : Serves q_api table_source two_times
unfolding column_names rows dict_parts iter rows_from get_timestamp get element_at
    from_kdb_timestamp
two_times-Serves s q o = record {
  k = whole;
  given = refl;
  columns = (b't' ∷ []) ∷ [];
  named = refl;
  table_rows = record { columns = times ∷ []; n_rows = 2 };
  read = refl;
  found = two_times;
  decodes = (
    (946684800000000000, tt),
    (946771199000000000, tt) ∷ [],
    refl,
    (λ i. refl),
    ((946771199000000000, tt), [], refl, (λ i. refl), refl),
  );
  same = refl;
}

kdb_read-Complete_example :
    kdb_read q_api table_source 946749600000000000
      (some 946774800000000000)
      (record { secs = 18000; nanos = 0 })
      fresh
    ≡ streams (as_items (between 946749600000000000 946774800000000000 two_times))
kdb_read-Complete_example =
    kdb_read-Complete q_api table_source two_times 946749600000000000 946774800000000000
      18000000000000 (record { secs = 18000; nanos = 0 }) fresh (omega arith, (omega arith, tt))
      two_times-Serves (omega arith) (omega arith) (omega arith) refl (omega arith) refl

abbrev first_slice : Slice
first_slice = record { t0 = 0; t1 = 15; kdb_date = 0; iteration = 0 }

abbrev first_window : TimeWindow
first_window = record { lo = 0; hi = 15 }

abbrev first_run : CachedReader q_api table_source folder
first_run = record {
  interner = tt;
  queries = tt;
  has_socket = false;
  server = tt;
  folder = empty_folder;
}

abbrev second_run : CachedReader q_api table_source folder
second_run = record first_run {
  folder =
      (store_rows q_api table_source folder 7 (1 ∷ []) (b's' ∷ []) first_window first_run
        (parsed two_rows tt)).reader.folder;
}

cached_slice-put_example :
    let r =
      cached_slice q_api table_source folder 7 first_slice
        (1 ∷ [])
        (b's' ∷ [])
        first_window
        second_run in
    (r.items ≡ as_items (between 0 15 two_rows))
    × (r.goes_on ≡ true)
    × (r.reader.server ≡ second_run.server)
unfolding put evict_lru evict
cached_slice-put_example =
    cached_slice-put q_api table_source folder folder-Lawful 7 first_slice (1 ∷ []) (b's' ∷ [])
      first_window first_window first_run second_run two_rows tt (refl, tt) refl refl
