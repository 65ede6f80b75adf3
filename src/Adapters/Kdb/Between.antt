-- ===== src/Adapters/Kdb/Between.antt =====
-- The rows of a table of times between two of them.
use wingfoil.Base.{
  ℕ, ◌≤◌, ◌≡◌, refl, sym, ap, ◌∙◌, Bool, true, false, ◌&&◌, List, [], ◌∷◌, ◌++◌, arith, ltb, leb,
  filter_by, max, min, Bool-cases, inl, inr,
}
use wingfoil.Adapters.Kdb.Read.{Item, row}

abbrev pub inside : ℕ → ℕ → ℕ → Bool
inside lo hi t = leb lo t && ltb t hi

inside-clamp :
    (t0 t1 start end_ t : ℕ)
    → inside (max t0 start) (min t1 end_) t ≡ inside start end_ t && inside t0 t1 t
inside-clamp t0 t1 start end_ t = ground arith

module _ {T : Type 0} where
  abbrev pub between : ℕ → ℕ → List (ℕ × T) → List (ℕ × T)
  between lo hi l = filter_by (λ (r : ℕ × T). inside lo hi r.0) l

  -- The times are at least `lo` and do not fall.
  abbrev pub Sorted : ℕ → List (ℕ × T) → Type 0
  Sorted lo [] = Unit
  Sorted lo ((t, x) ∷ l) = (lo ≤ t) × Sorted t l

  abbrev pub as_items : List (ℕ × T) → List (Item T)
  as_items [] = []
  as_items ((t, x) ∷ l) = row t x ∷ as_items l

  pub as_items-append : (l k : List (ℕ × T)) → as_items (l ++ k) ≡ as_items l ++ as_items k
  as_items-append [] k = refl
  as_items-append ((t, x) ∷ l) k = ap (λ items. row t x ∷ items) (as_items-append l k)

  Sorted-le : (lo lo' : ℕ) (l : List (ℕ × T)) → lo ≤ lo' → Sorted lo' l → Sorted lo l
  Sorted-le lo lo' [] le h = tt
  Sorted-le lo lo' ((t, x) ∷ l) le h = (omega (arith, h.0), h.1)

  pub Sorted-between : (lo hi b : ℕ) (l : List (ℕ × T)) → Sorted b l → Sorted b (between lo hi l)
  Sorted-between lo hi b [] h = tt
  Sorted-between lo hi b ((t, x) ∷ l) h = elim (Bool-cases (inside lo hi t)) [
    | inl on ↦ rw on (h.0, Sorted-between lo hi t l h.1)
    | inr off ↦ rw off (Sorted-le b t (between lo hi l) h.0 (Sorted-between lo hi t l h.1))
  ]

  -- A window that is cut to the run.
  pub between-clamp :
      (t0 t1 start end_ : ℕ) (l : List (ℕ × T))
      → between (max t0 start) (min t1 end_) l ≡ between start end_ (between t0 t1 l)
  between-clamp t0 t1 start end_ [] = refl
  between-clamp t0 t1 start end_ ((t, x) ∷ l) = elim (Bool-cases (inside t0 t1 t)) [
    | inl on ↦ elim (Bool-cases (inside start end_ t)) [
      | inl hit ↦
          rw (inside-clamp t0 t1 start end_ t, on, hit)
            (ap (λ k. (t, x) ∷ k) (between-clamp t0 t1 start end_ l))
      | inr miss ↦ rw (inside-clamp t0 t1 start end_ t, on, miss) (between-clamp t0 t1 start end_ l)
    ]
    | inr off ↦ elim (Bool-cases (inside start end_ t)) [
      | inl hit ↦ rw (inside-clamp t0 t1 start end_ t, off, hit) (between-clamp t0 t1 start end_ l)
      | inr miss ↦
          rw (inside-clamp t0 t1 start end_ t, off, miss) (between-clamp t0 t1 start end_ l)
    ]
  ]

  pub between-swap :
      (a b c d : ℕ) (l : List (ℕ × T)) → between a b (between c d l) ≡ between c d (between a b l)
  between-swap a b c d [] = refl
  between-swap a b c d ((t, x) ∷ l) = elim (Bool-cases (inside a b t)) [
    | inl on ↦ elim (Bool-cases (inside c d t)) [
      | inl hit ↦ rw (on, hit, on) (ap (λ k. (t, x) ∷ k) (between-swap a b c d l))
      | inr miss ↦ rw (on, miss) (between-swap a b c d l)
    ]
    | inr off ↦ elim (Bool-cases (inside c d t)) [
      | inl hit ↦ rw (off, hit, off) (between-swap a b c d l)
      | inr miss ↦ rw (off, miss) (between-swap a b c d l)
    ]
  ]

  between-none : (lo hi b : ℕ) (l : List (ℕ × T)) → hi ≤ b → Sorted b l → between lo hi l ≡ []
  between-none lo hi b [] le h = refl
  between-none lo hi b ((t, x) ∷ l) le h =
      let out : inside lo hi t ≡ false = ground (arith, h.0) in
      rw out (between-none lo hi t l (omega (arith, h.0)) h.1)

  -- Neighbouring windows of a sorted table.
  pub between-join :
      (lo mid hi b : ℕ) (l : List (ℕ × T))
      → lo ≤ mid
      → mid ≤ hi
      → Sorted b l
      → between lo mid l ++ between mid hi l ≡ between lo hi l
  between-join lo mid hi b [] le le' h = refl
  between-join lo mid hi b ((t, x) ∷ l) le le' h = elim (Bool-cases (ltb t mid)) [
    | inl early ↦
        let ih = between-join lo mid hi t l le le' h.1 in
        let second : inside mid hi t ≡ false = ground (arith, early) in
        elim (Bool-cases (leb lo t)) [
          | inl hit ↦
              let first : inside lo mid t ≡ true = ground (arith, early, hit) in
              let whole : inside lo hi t ≡ true = ground (arith, early, hit) in
              rw (first, second, whole) (ap (λ k. (t, x) ∷ k) ih)
          | inr miss ↦
              let first : inside lo mid t ≡ false = ground (arith, early, miss) in
              let whole : inside lo hi t ≡ false = ground (arith, early, miss) in
              rw (first, second, whole) ih
        ]
    | inr late ↦
        let same : inside mid hi t ≡ inside lo hi t = ground (arith, late) in
        let ih = between-join lo mid hi t l le le' h.1 in
        let none_ =
          between-none lo mid mid ((t, x) ∷ l) (omega arith) (ground (arith, late), h.1) in
        let rest = between-none lo mid t l (ground (arith, late)) h.1 in
        let tails : between mid hi l ≡ between lo hi l =
          ap (λ k. k ++ between mid hi l) (sym rest) ∙ ih in
        ap (λ k. k ++ between mid hi ((t, x) ∷ l)) none_ ∙ elim (Bool-cases (inside lo hi t)) [
          | inl hit ↦ rw (same, hit) (ap (λ k. (t, x) ∷ k) tails)
          | inr miss ↦ rw (same, miss) tails
        ]
  ]

  -- All rows of a run are in a window around it.
  pub between-around :
      (lo hi start end_ : ℕ) (l : List (ℕ × T))
      → lo ≤ start
      → end_ ≤ hi
      → between lo hi (between start end_ l) ≡ between start end_ l
  between-around lo hi start end_ [] le le' = refl
  between-around lo hi start end_ ((t, x) ∷ l) le le' = elim (Bool-cases (inside start end_ t)) [
    | inl on ↦
        let wide : inside lo hi t ≡ true = ground (arith, on) in
        rw on (rw wide (ap (λ k. (t, x) ∷ k) (between-around lo hi start end_ l le le')))
    | inr off ↦ rw off (between-around lo hi start end_ l le le')
  ]

  pub between-empty : (lo : ℕ) (l : List (ℕ × T)) → between lo lo l ≡ []
  between-empty lo [] = refl
  between-empty lo ((t, x) ∷ l) =
      let out : inside lo lo t ≡ false = ground arith in rw out (between-empty lo l)
