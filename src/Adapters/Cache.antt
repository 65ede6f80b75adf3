-- ===== src/Adapters/Cache.antt =====
-- wingfoil/src/adapters/cache: FileCache, which keeps the results of queries as files, and the `clear` of
-- CacheConfig. The file system and bincode are the parameter Files.
pub mod RoundTrip
pub mod Tests
use wingfoil.Base.{
  ℕ, ◌+◌, ◌-◌, ◌%◌, Bool, true, false, not, ◌&&◌, List, [], ◌∷◌, ◌++◌, Option, none, some, ltb, leb,
  ◌==◌, if◌then◌else◌, u64_mod, length,
}

abbrev pub Bytes : Type 0
Bytes = List ℕ

pub data FileRead : Type 0 where
  not_found read_failed : FileRead
  contents : Bytes → FileRead

-- The length and the time of the last modification, where they can be read.
pub record DirEntry (PathBuf : Type 0) : Type 0 where
  pub path : PathBuf
  pub metadata : Option (ℕ × ℕ)

pub data Listing (PathBuf : Type 0) : Type 0 where
  no_folder unreadable : Listing PathBuf
  entries : List (DirEntry PathBuf) → Listing PathBuf

-- The folder of the cache: the path of a key's file and of its temporary file, and what tokio's and
-- std's functions on files do. `read_dir` lists the entries up to the first that cannot be read, and
-- `read_dir_flat` leaves such entries out.
pub record Files (T : Type 0) : Type 1 where
  pub PathBuf : Type 0
  pub Outside : Type 0
  pub cache_path : Bytes → PathBuf
  pub tmp_path : PathBuf → PathBuf
  pub is_cache : PathBuf → Bool
  pub same : PathBuf → PathBuf → Bool
  pub read : PathBuf → Outside → FileRead
  pub write : PathBuf → Bytes → Outside → Bool × Outside
  pub rename : PathBuf → PathBuf → Outside → Bool × Outside
  pub remove_file : PathBuf → Outside → Bool × Outside
  pub read_dir : Outside → Listing PathBuf
  pub read_dir_flat : Outside → Listing PathBuf
  pub serialize : List (ℕ × T) → Option Bytes
  pub deserialize : Bytes → Option (List (ℕ × T))

pub data Cached (T : Type 0) : Type 0 where
  miss : Cached T
  hit : List (ℕ × T) → Cached T
  unreadable_file missing_header corrupt : Cached T

pub data Saved : Type 0 where
  saved not_serialized not_written not_renamed : Saved

-- What stands behind the first newline.
abbrev pub payload_of : Bytes → Option Bytes
payload_of [] = none
payload_of (b ∷ bytes) = if b == 10 then some bytes else payload_of bytes

module _ {T : Type 0} (files : Files T) where
  open files use {PathBuf, Outside}

  -- The file is written again, which makes it the one used last.
  abbrev pub decoded : Bytes → Bytes → Outside → Option (List (ℕ × T)) → Cached T × Outside
  decoded key bytes outside none = (corrupt, outside)
  decoded key bytes outside (some raw) =
      (hit raw, (files.write (files.cache_path key) bytes outside).1)

  abbrev pub with_payload : Bytes → Bytes → Outside → Option Bytes → Cached T × Outside
  with_payload key bytes outside none = (missing_header, outside)
  with_payload key bytes outside (some payload) =
      decoded key bytes outside (files.deserialize payload)

  abbrev pub got : Bytes → Outside → FileRead → Cached T × Outside
  got key outside not_found = (miss, outside)
  got key outside read_failed = (unreadable_file, outside)
  got key outside (contents bytes) = with_payload key bytes outside (payload_of bytes)

  unfoldable pub get : Bytes → Outside → Cached T × Outside
  get key outside = got key outside (files.read (files.cache_path key) outside)

  pub record CacheFile : Type 0 where
    pub path : PathBuf
    pub size : ℕ
    pub mtime : ℕ

  abbrev pub cache_file :
      PathBuf → DirEntry PathBuf → Option (ℕ × ℕ) → List CacheFile → List CacheFile
  cache_file exclude entry none rest = rest
  cache_file exclude entry (some (size_, mtime_)) rest =
      if files.is_cache entry.path && not (files.same entry.path exclude)
      then record { path = entry.path; size = size_; mtime = mtime_ } ∷ rest
      else rest

  abbrev pub cache_files : PathBuf → List (DirEntry PathBuf) → List CacheFile
  cache_files exclude [] = []
  cache_files exclude (entry ∷ rest) =
      cache_file exclude entry entry.metadata (cache_files exclude rest)

  -- `sort_by_key` keeps the order of equal keys.
  abbrev pub insert_file : CacheFile → List CacheFile → List CacheFile
  insert_file f [] = f ∷ []
  insert_file f (g ∷ rest) = if leb f.mtime g.mtime then f ∷ g ∷ rest else g ∷ insert_file f rest

  abbrev pub sort_files : List CacheFile → List CacheFile
  sort_files [] = []
  sort_files (f ∷ rest) = insert_file f (sort_files rest)

  abbrev pub total_size : List CacheFile → ℕ
  total_size [] = 0
  total_size (f ∷ rest) = (f.size + total_size rest) % u64_mod

  abbrev pub freed_by : ℕ → CacheFile → Bool → ℕ
  freed_by freed f true = (freed + f.size) % u64_mod
  freed_by freed f false = freed

  -- The loop over the files, oldest first.
  unfoldable pub evict : ℕ → ℕ → List CacheFile → Outside → Outside
  evict needed freed [] outside = outside
  evict needed freed (f ∷ rest) outside =
      let (removed, outside') = files.remove_file f.path outside in
      let later = evict needed (freed_by freed f removed) rest outside' in
      if leb needed freed then outside else later

  abbrev pub evict_files : ℕ → ℕ → List CacheFile → Outside → Outside
  evict_files max_size_bytes new_size found outside =
      let needed = (total_size found + new_size) % u64_mod - max_size_bytes in
      if needed == 0 then outside else evict needed 0 found outside

  abbrev pub evict_listed : ℕ → ℕ → PathBuf → Outside → Listing PathBuf → Outside
  evict_listed max_size_bytes new_size exclude outside no_folder = outside
  evict_listed max_size_bytes new_size exclude outside unreadable = outside
  evict_listed max_size_bytes new_size exclude outside (entries l) =
      evict_files max_size_bytes new_size (sort_files (cache_files exclude l)) outside

  unfoldable pub evict_lru : ℕ → ℕ → PathBuf → Outside → Outside
  unfolding evict
  evict_lru max_size_bytes new_size exclude outside =
      evict_listed max_size_bytes new_size exclude outside (files.read_dir outside)

  abbrev pub renamed : Bool × Outside → Saved × Outside
  renamed (true, outside) = (saved, outside)
  renamed (false, outside) = (not_renamed, outside)

  abbrev pub evicted : ℕ → ℕ → PathBuf → Outside → Outside
  evicted max_size_bytes new_size path_ outside =
      if ltb max_size_bytes (u64_mod - 1)
      then evict_lru max_size_bytes new_size path_ outside
      else outside

  abbrev pub written : ℕ → ℕ → PathBuf → Bool × Outside → Saved × Outside
  written max_size_bytes new_size path_ (false, outside) = (not_written, outside)
  written max_size_bytes new_size path_ (true, outside) =
      renamed
        (files.rename (files.tmp_path path_) path_ (evicted max_size_bytes new_size path_ outside))

  abbrev pub put_payload : ℕ → PathBuf → Bytes → Outside → Option Bytes → Saved × Outside
  put_payload max_size_bytes path_ query outside none = (not_serialized, outside)
  put_payload max_size_bytes path_ query outside (some payload) =
      let buf : Bytes = query ++ 10 ∷ payload in
      written max_size_bytes (length buf) path_ (files.write (files.tmp_path path_) buf outside)

  unfoldable pub put : ℕ → Bytes → Bytes → List (ℕ × T) → Outside → Saved × Outside
  unfolding evict_lru
  put max_size_bytes key query data_ outside =
      put_payload max_size_bytes (files.cache_path key) query outside (files.serialize data_)

  pub data Cleared : Type 0 where
    cleared folder_unreadable : Cleared
    not_removed : List PathBuf → Cleared

  -- The paths that could not be removed.
  abbrev pub clear_entries : List (DirEntry PathBuf) → Outside → List PathBuf × Outside
  clear_entries [] outside = ([], outside)
  clear_entries (entry ∷ rest) outside = elim (files.is_cache entry.path) [
    | false ↦ clear_entries rest outside
    | true ↦
        let (removed, outside') = files.remove_file entry.path outside in
        let (errors, outside'') = clear_entries rest outside' in
        (if removed then errors else entry.path ∷ errors, outside'')
  ]

  abbrev cleared_of : List PathBuf × Outside → Cleared × Outside
  cleared_of ([], outside) = (cleared, outside)
  cleared_of (p ∷ errors, outside) = (not_removed (p ∷ errors), outside)

  abbrev clear_listed : Outside → Listing PathBuf → Cleared × Outside
  clear_listed outside no_folder = (cleared, outside)
  clear_listed outside unreadable = (folder_unreadable, outside)
  clear_listed outside (entries l) = cleared_of (clear_entries l outside)

  unfoldable pub clear : Outside → Cleared × Outside
  clear outside = clear_listed outside (files.read_dir_flat outside)
