-- ===== src/Adapters/Cache/Tests.antt =====
-- The theorem on the cache for a folder in memory, of which one old file is evicted.
use wingfoil.Base.{
  ℕ, ◌≡◌, refl, sym, ap, ◌∙◌, Bool, true, false, List, [], ◌∷◌, Option, none, some, arith, ◌==◌,
  if◌then◌else◌, length,
}
use mathlib.Core.Option.{some-injective}
use wingfoil.Adapters.Cache.{
  Bytes, FileRead, not_found, contents, Files, entries, hit, get, put, evict, evict_lru,
}
use wingfoil.Adapters.Cache.RoundTrip.{Lawful, put-get}

-- A path is the flag of the cache's extension, and a number.
abbrev pub Name : Type 0
Name = Bool × ℕ

abbrev same_name : Name → Name → Bool
same_name (true, n) (true, m) = n == m
same_name (false, n) (false, m) = n == m
same_name (true, n) (false, m) = false
same_name (false, n) (true, m) = false

same_name_refl : (p : Name) → same_name p p ≡ true
same_name_refl (true, n) = ground arith
same_name_refl (false, n) = ground arith

abbrev pub Folder : Type 0
Folder = Name → Option Bytes

abbrev read_of : Option Bytes → FileRead
read_of none = not_found
read_of (some b) = contents b

abbrev put_file : Name → Bytes → Folder → Folder
put_file p b o x = if same_name x p then some b else o x

abbrev rename_from : Name → Folder → Option Bytes → Bool × Folder
rename_from q o none = (false, o)
rename_from q o (some b) = (true, put_file q b o)

abbrev timed : List ℕ → List (ℕ × Unit {0})
timed [] = []
timed (t ∷ l) = (t, tt) ∷ timed l

abbrev times : List (ℕ × Unit {0}) → List ℕ
times [] = []
times ((t, u) ∷ l) = t ∷ times l

abbrev pub folder : Files (Unit {0})
folder = record {
  PathBuf = Name;
  Outside = Folder;
  cache_path = λ key. (true, length key);
  tmp_path = λ p. (false, p.1);
  is_cache = λ p. p.0;
  same = same_name;
  read = λ p o. read_of (o p);
  write = λ p b o. (true, put_file p b o);
  rename = λ p q o. rename_from q o (o p);
  remove_file = λ q o. (true, λ x. if same_name x q then none else o x);
  read_dir = λ o. entries (record { path = (true, 9); metadata = some (5, 1) } ∷ []);
  read_dir_flat = λ o. entries (record { path = (true, 9); metadata = some (5, 1) } ∷ []);
  serialize = λ d. some (times d);
  deserialize = λ b. some (timed b);
}

timed-times : (d : List (ℕ × Unit {0})) → timed (times d) ≡ d
timed-times [] = refl
timed-times ((t, u) ∷ d) = ap (λ l. (t, tt) ∷ l) (timed-times d)

rename-reads :
    (q : Name) (b : Bytes) (o : Folder) (r : Option Bytes)
    → (rename_from q o r).0 ≡ true
    → read_of r ≡ contents b
    → read_of ((rename_from q o r).1 q) ≡ contents b
rename-reads q b o none h e = cc
rename-reads q b o (some c) h e = rw (same_name_refl q) e

remove-reads :
    (p q : Name) (o : Folder)
    → p.0 ≡ false
    → q.0 ≡ true
    → read_of (if same_name p q then none else o p) ≡ read_of (o p)
remove-reads (false, n) (true, m) o h k = refl
remove-reads (true, n) q o h k = cc
remove-reads (false, n) (false, m) o h k = cc

pub folder-Lawful : Lawful folder
folder-Lawful = record {
  read-write = λ p b o h. rw (same_name_refl p) refl;
  read-rename = λ p q b o h e. rename-reads q b o (o p) h e;
  read-remove = remove-reads;
  tmp_no_cache = λ p. refl;
  deserialize-serialize =
      λ d b e. ap some (ap timed (sym (some-injective (times d) b e)) ∙ timed-times d);
}

abbrev pub empty_folder : Folder
empty_folder x = none

abbrev pub two_rows : List (ℕ × Unit {0})
two_rows = (10, tt) ∷ (20, tt) ∷ []

put-get_example :
    (get folder (1 ∷ []) (put folder 7 (1 ∷ []) (b's' ∷ []) two_rows empty_folder).1).0
    ≡ hit two_rows
unfolding put evict_lru evict
put-get_example =
    put-get folder folder-Lawful 7 (1 ∷ []) (b's' ∷ []) two_rows empty_folder (refl, tt) refl
