-- ===== src/Adapters/Cache/RoundTrip.antt =====
-- What is put into a FileCache of wingfoil/src/adapters/cache/file_cache.rs is got from it.
use wingfoil.Base.{
  ℕ, ◌+◌, ◌-◌, ◌%◌, ◌≡◌, refl, sym, ap, subst, ◌∙◌, Bool, true, false, List, [], ◌∷◌, ◌++◌, Option,
  none, some, ltb, leb, ◌==◌, u64_mod, length, All, Bool-cases, inl, inr,
}
use wingfoil.Adapters.Cache.{
  Bytes, contents, DirEntry, Listing, no_folder, unreadable, entries, Files, hit, Saved, saved,
  payload_of, decoded, with_payload, got, get, CacheFile, cache_file, cache_files, total_size,
  insert_file, sort_files, freed_by, evict, evict_files, evict_listed, evict_lru, renamed, evicted,
  written, put_payload, put,
}

-- What a file system does: a file has what was last written or renamed to it, removing another file
-- leaves it, and a temporary file is no file of the cache. And bincode reads what it wrote.
pub record Lawful {T : Type 0} (files : Files T) : Type 0 where
  pub read-write :
      (p : files.PathBuf) (b : Bytes) (o : files.Outside)
      → (files.write p b o).0 ≡ true
      → files.read p (files.write p b o).1 ≡ contents b
  pub read-rename :
      (p q : files.PathBuf) (b : Bytes) (o : files.Outside)
      → (files.rename p q o).0 ≡ true
      → files.read p o ≡ contents b
      → files.read q (files.rename p q o).1 ≡ contents b
  pub read-remove :
      (p q : files.PathBuf) (o : files.Outside)
      → files.is_cache p ≡ false
      → files.is_cache q ≡ true
      → files.read p (files.remove_file q o).1 ≡ files.read p o
  pub tmp_no_cache : (p : files.PathBuf) → files.is_cache (files.tmp_path p) ≡ false
  pub deserialize-serialize :
      (d : List (ℕ × T)) (b : Bytes) → files.serialize d ≡ some b → files.deserialize b ≡ some d

-- The newline behind the query is the first.
payload_of-append :
    (query payload : Bytes)
    → All (λ b. (b == 10) ≡ false) query
    → payload_of (query ++ 10 ∷ payload) ≡ some payload
payload_of-append [] payload h = refl
payload_of-append (b ∷ query) payload h = rw h.0 (payload_of-append query payload h.1)

module _ {T : Type 0} (files : Files T) (laws : Lawful files) where
  open files use {PathBuf, Outside}

  abbrev OfCache : List (CacheFile files) → Type 0
  OfCache l = All (λ (f : CacheFile files). files.is_cache f.path ≡ true) l

  cache_file-OfCache :
      (exclude : PathBuf) (e : DirEntry PathBuf) (m : Option (ℕ × ℕ)) (l : List (CacheFile files))
      → OfCache l
      → OfCache (cache_file files exclude e m l)
  cache_file-OfCache exclude e none l h = h
  cache_file-OfCache exclude e (some (size, mtime)) l h =
      elim (Bool-cases (files.is_cache e.path)) [
        | inr other ↦ rw other h
        | inl kept ↦ elim (Bool-cases (files.same e.path exclude)) [
          | inl new ↦ rw (kept, new) h
          | inr old ↦ rw (kept, old) (kept, h)
        ]
      ]

  cache_files-OfCache :
      (exclude : PathBuf) (l : List (DirEntry PathBuf)) → OfCache (cache_files files exclude l)
  cache_files-OfCache exclude [] = tt
  cache_files-OfCache exclude (e ∷ l) =
      cache_file-OfCache exclude e e.metadata (cache_files files exclude l)
        (cache_files-OfCache exclude l)

  insert_file-OfCache :
      (f : CacheFile files) (l : List (CacheFile files))
      → files.is_cache f.path ≡ true
      → OfCache l
      → OfCache (insert_file files f l)
  insert_file-OfCache f [] h k = (h, tt)
  insert_file-OfCache f (g ∷ l) h k = elim (Bool-cases (leb f.mtime g.mtime)) [
    | inl first ↦ rw first (h, k)
    | inr later ↦ rw later (k.0, insert_file-OfCache f l h k.1)
  ]

  sort_files-OfCache : (l : List (CacheFile files)) → OfCache l → OfCache (sort_files files l)
  sort_files-OfCache [] h = tt
  sort_files-OfCache (f ∷ l) h =
      insert_file-OfCache f (sort_files files l) h.0 (sort_files-OfCache l h.1)

  -- Eviction leaves a temporary file.
  evict-read :
      (p : PathBuf) (needed freed : ℕ) (l : List (CacheFile files)) (o : Outside)
      → files.is_cache p ≡ false
      → OfCache l
      → files.read p (evict files needed freed l o) ≡ files.read p o
  unfolding evict
  evict-read p needed freed [] o h k = refl
  evict-read p needed freed (f ∷ l) o h k = elim (Bool-cases (leb needed freed)) [
    | inl enough ↦ rw enough refl
    | inr more ↦
        let r = files.remove_file f.path o in
        rw more (
          evict-read p needed (freed_by files freed f r.0) l r.1 h k.1
          ∙ laws.read-remove p f.path o h k.0)
  ]

  evict_files-read :
      (p : PathBuf) (max_size_bytes new_size : ℕ) (l : List (CacheFile files)) (o : Outside)
      → files.is_cache p ≡ false
      → OfCache l
      → files.read p (evict_files files max_size_bytes new_size l o) ≡ files.read p o
  evict_files-read p max_size_bytes new_size l o h k =
      let needed = (total_size files l + new_size) % u64_mod - max_size_bytes in
      elim (Bool-cases (needed == 0)) [
        | inl fits ↦ rw fits refl
        | inr full ↦ rw full (evict-read p needed 0 l o h k)
      ]

  evict_listed-read :
      (p : PathBuf) (max_size_bytes new_size : ℕ) (exclude : PathBuf) (o : Outside)
      (l : Listing PathBuf)
      → files.is_cache p ≡ false
      → files.read p (evict_listed files max_size_bytes new_size exclude o l) ≡ files.read p o
  evict_listed-read p max_size_bytes new_size exclude o no_folder h = refl
  evict_listed-read p max_size_bytes new_size exclude o unreadable h = refl
  evict_listed-read p max_size_bytes new_size exclude o (entries l) h =
      evict_files-read p max_size_bytes new_size (sort_files files (cache_files files exclude l)) o
        h (sort_files-OfCache (cache_files files exclude l) (cache_files-OfCache exclude l))

  evicted-read :
      (p : PathBuf) (max_size_bytes new_size : ℕ) (exclude : PathBuf) (o : Outside)
      → files.is_cache p ≡ false
      → files.read p (evicted files max_size_bytes new_size exclude o) ≡ files.read p o
  unfolding evict_lru
  evicted-read p max_size_bytes new_size exclude o h =
      elim (Bool-cases (ltb max_size_bytes (u64_mod - 1))) [
        | inl bounded ↦
            rw bounded (evict_listed-read p max_size_bytes new_size exclude o (files.read_dir o) h)
        | inr unbounded ↦ rw unbounded refl
      ]

  renamed-saved :
      (r : Bool × Outside)
      → (renamed files r).0 ≡ saved
      → (r.0 ≡ true) × ((renamed files r).1 ≡ r.1)
  renamed-saved (true, o) h = (refl, refl)
  renamed-saved (false, o) h = cc

  abbrev Kept : Bytes → List (ℕ × T) → Saved × Outside → Type 0
  Kept key data_ r = r.0 ≡ saved → (get files key r.1).0 ≡ hit data_

  -- The file is there after a put, so that `get` reads it.
  file-hit :
      (key query payload : Bytes) (data_ : List (ℕ × T)) (o : Outside)
      → All (λ b. (b == 10) ≡ false) query
      → files.serialize data_ ≡ some payload
      → files.read (files.cache_path key) o ≡ contents (query ++ 10 ∷ payload)
      → (get files key o).0 ≡ hit data_
  unfolding get
  file-hit key query payload data_ o plain e there =
      let bytes : Bytes = query ++ 10 ∷ payload in
      ap (λ r. (got files key o r).0) there
      ∙ ap (λ r. (with_payload files key bytes o r).0) (payload_of-append query payload plain)
      ∙ ap (λ r. (decoded files key bytes o r).0) (laws.deserialize-serialize data_ payload e)

  -- If a file has what was last written or renamed to it, removing a file of the cache leaves a
  -- temporary file and bincode reads what it wrote, then after a `put` that succeeds, whatever it
  -- evicts, for a query without a newline, a `get` of the same key is a hit with exactly the rows
  -- that were put.
  pub put-get :
      (max_size_bytes : ℕ) (key query : Bytes) (data_ : List (ℕ × T)) (o : Outside)
      → All (λ b. (b == 10) ≡ false) query
      → (put files max_size_bytes key query data_ o).0 ≡ saved
      → (get files key (put files max_size_bytes key query data_ o).1).0 ≡ hit data_
  unfolding put
  put-get max_size_bytes key query data_ o plain = by_payload (files.serialize data_) refl
    where
      path : PathBuf
      path = files.cache_path key

      by_write :
          (payload : Bytes)
          → files.serialize data_ ≡ some payload
          → (w : Bool × Outside) → files.write (files.tmp_path path) (query ++ 10 ∷ payload) o ≡ w
          → Kept key data_ (written files max_size_bytes (length (query ++ 10 ∷ payload)) path w)
      by_write payload e (false, o1) at = λ h. cc
      by_write payload e (true, o1) at = λ h.
          let bytes : Bytes = query ++ 10 ∷ payload in
          let tmp : PathBuf = files.tmp_path path in
          let o2 : Outside = evicted files max_size_bytes (length bytes) path o1 in
          let (done, same) = renamed-saved (files.rename tmp path o2) h in
          let wrote : files.read tmp o1 ≡ contents bytes =
            ap (λ (w : Bool × Outside). files.read tmp w.1) (sym at)
            ∙ laws.read-write tmp bytes o (ap (λ (w : Bool × Outside). w.0) at) in
          let kept : files.read tmp o2 ≡ contents bytes =
            evicted-read tmp max_size_bytes (length bytes) path o1 (laws.tmp_no_cache path)
            ∙ wrote in
          subst (λ x. (get files key x).0 ≡ hit data_) (sym same)
            (file-hit key query payload data_ (files.rename tmp path o2).1 plain e
              (laws.read-rename tmp path bytes o2 done kept))

      by_payload :
          (s : Option Bytes)
          → files.serialize data_ ≡ s
          → Kept key data_ (put_payload files max_size_bytes path query o s)
      by_payload none e = λ h. cc
      by_payload (some payload) e =
          by_write payload e (files.write (files.tmp_path path) (query ++ 10 ∷ payload) o) refl
