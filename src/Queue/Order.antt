-- ===== src/Queue/Order.antt =====
-- The order in which a heap is emptied: a heap of distinct keys is a sorted list of entries.
use wingfoil.Base.{
  ◌≤◌, ◌≡◌, refl, sym, ap, ◌∙◌, ◌≢◌, Bool, true, false, ◌||◌, List, [], ◌∷◌, arith, if◌then◌else◌,
  any, All, All-imp, Bool-cases, inl, inr,
}
use wingfoil.Queue.{Entry, entry_lt, select}

module _ {T : Type 0} where
  abbrev pub Fresh : Entry T → List (Entry T) → Type 0
  Fresh e [] = Unit
  Fresh e (x ∷ xs) = (e.seq ≢ x.seq) × Fresh e xs

  abbrev pub Distinct : List (Entry T) → Type 0
  Distinct [] = Unit
  Distinct (x ∷ xs) = Fresh x xs × Distinct xs

  unfoldable pub insert : Entry T → List (Entry T) → List (Entry T)
  insert e [] = e ∷ []
  insert e (x ∷ xs) = if entry_lt x e then x ∷ insert e xs else e ∷ x ∷ xs

  unfoldable pub sort : List (Entry T) → List (Entry T)
  sort [] = []
  sort (x ∷ xs) = insert x (sort xs)

  insert_comm :
      (e f : Entry T) (l : List (Entry T))
      → e.seq ≢ f.seq
      → insert e (insert f l) ≡ insert f (insert e l)
  unfolding insert
  insert_comm e f [] h = ground arith
  insert_comm e f (x ∷ l) h = ground (arith, insert_comm e f l h)

  -- An entry that precedes the head goes first.
  insert_least :
      (m x : Entry T) (l : List (Entry T)) → entry_lt m x ≡ true → insert x (m ∷ l) ≡ m ∷ insert x l
  unfolding insert
  insert_least m x l h = ground arith

  select-le : (x : Entry T) (ys : List (Entry T)) → entry_lt x (select x ys).0 ≡ false
  unfolding select
  select-le x [] = ground arith
  select-le x (y ∷ ys) = ground (arith, select-le x ys, select-le y ys)

  Fresh-select :
      (e x : Entry T) (ys : List (Entry T))
      → e.seq ≢ x.seq
      → Fresh e ys
      → (e.seq ≢ (select x ys).0.seq) × Fresh e (select x ys).1
  unfolding select
  Fresh-select e x [] h k = (h, tt)
  Fresh-select e x (y ∷ ys) h k = elim (Bool-cases (entry_lt y x)) [
    | inl lt ↦ let ih = Fresh-select e y ys k.0 k.1 in rw lt (ih.0, (h, ih.1))
    | inr ge ↦ let ih = Fresh-select e x ys h k.1 in rw ge (ih.0, (k.0, ih.1))
  ]

  -- `o` stays behind while the least of `c` and `ys` is taken.
  abbrev LeftDistinct : Entry T → Entry T → List (Entry T) → Type 0
  LeftDistinct c o ys = Fresh (select c ys).0 (o ∷ (select c ys).1) × Distinct (o ∷ (select c ys).1)

  LeftDistinct-intro :
      (c o : Entry T) (ys : List (Entry T))
      → o.seq ≢ c.seq
      → Fresh o ys
      → Fresh (select c ys).0 (select c ys).1 × Distinct (select c ys).1
      → LeftDistinct c o ys
  LeftDistinct-intro c o ys h k d =
      let far = Fresh-select o c ys h k in (((λ e. far.0 (sym e)), d.0), (far.1, d.1))

  pub Distinct-select :
      (x : Entry T) (ys : List (Entry T))
      → Distinct (x ∷ ys)
      → Fresh (select x ys).0 (select x ys).1 × Distinct (select x ys).1
  unfolding select
  Distinct-select x [] d = (tt, tt)
  Distinct-select x (y ∷ ys) d =
      elim (entry_lt y x) as (λ b. LeftDistinct (if b then y else x) (if b then x else y) ys) [
        | true ↦ LeftDistinct-intro y x ys d.0.0 d.0.1 (Distinct-select y ys d.1)
        | false ↦
            LeftDistinct-intro x y ys (λ e. d.0.0 (sym e)) d.1.0
              (Distinct-select x ys (d.0.1, d.1.1))
      ]

  le_lt_trans : (a b c : Entry T) → entry_lt b a ≡ false → entry_lt b c ≡ true → entry_lt a c ≡ true
  le_lt_trans a b c h k = ground arith

  le_le_ne :
      (a b c : Entry T)
      → entry_lt b a ≡ false
      → entry_lt c b ≡ false
      → c.seq ≢ a.seq
      → entry_lt a c ≡ true
  le_le_ne a b c h k n = ground arith

  -- Taking the least entry out of a heap takes the head off its sorted list.
  pub sort-select :
      (x : Entry T) (ys : List (Entry T))
      → Distinct (x ∷ ys)
      → sort (x ∷ ys) ≡ (select x ys).0 ∷ sort (select x ys).1
  unfolding sort select
  sort-select x [] d = unfold insert in refl
  sort-select x (y ∷ ys) d = elim (Bool-cases (entry_lt y x)) [
    | inl lt ↦
        let least = select y ys in
        let before = le_lt_trans least.0 y x (select-le y ys) lt in
        rw lt (ap (insert x) (sort-select y ys d.1) ∙ insert_least least.0 x (sort least.1) before)
    | inr ge ↦
        let least = select x ys in
        let apart = (Fresh-select y x ys (λ e. d.0.0 (sym e)) d.1.0).0 in
        let before = le_le_ne least.0 x y (select-le x ys) ge apart in
        rw ge (
          insert_comm x y (sort ys) d.0.0
          ∙ ap (insert y) (sort-select x ys (d.0.1, d.1.1))
          ∙ insert_least least.0 y (sort least.1) before)
  ]

  any-insert :
      (p : Entry T → Bool) (x : Entry T) (l : List (Entry T))
      → any p (insert x l) ≡ (p x || any p l)
  unfolding insert
  any-insert p x [] = refl
  any-insert p x (y ∷ l) = ground (arith, any-insert p x l)

  -- A test of the entries does not depend on their order.
  pub any-sort : (p : Entry T → Bool) (l : List (Entry T)) → any p (sort l) ≡ any p l
  unfolding sort
  any-sort p [] = refl
  any-sort p (x ∷ l) = ground (arith, any-insert p x (sort l), any-sort p l)

  pub All-insert {κ} :
      (P : Entry T → Type κ) (x : Entry T) (l : List (Entry T)) → P x → All P l → All P (insert x l)
  unfolding insert
  All-insert P x [] h k = (h, tt)
  All-insert P x (y ∷ l) h k =
      elim (entry_lt y x) as (λ b. All P (if b then y ∷ insert x l else x ∷ y ∷ l)) [
        | true ↦ (k.0, All-insert P x l h k.1)
        | false ↦ (h, k)
      ]

  pub All-sort {κ} : (P : Entry T → Type κ) (l : List (Entry T)) → All P l → All P (sort l)
  unfolding sort
  All-sort P [] h = tt
  All-sort P (x ∷ l) h = All-insert P x (sort l) h.0 (All-sort P l h.1)

  pub All-select {κ} :
      (P : Entry T → Type κ) (x : Entry T) (ys : List (Entry T))
      → P x
      → All P ys
      → P (select x ys).0 × All P (select x ys).1
  unfolding select
  All-select P x [] h k = (h, tt)
  All-select P x (y ∷ ys) h k =
      elim (entry_lt y x)
        as (λ b.
          P (select (if b then y else x) ys).0
          × All P ((if b then x else y) ∷ (select (if b then y else x) ys).1)) [
            | true ↦ let r = All-select P y ys k.0 k.1 in (r.0, (h, r.1))
            | false ↦ let r = All-select P x ys h k.1 in (r.0, (k.0, r.1))
          ]

  -- Keys rise along a sorted list.
  abbrev pub IsSorted : List (Entry T) → Type 0
  IsSorted [] = Unit
  IsSorted (x ∷ l) = All (λ y. x.time ≤ y.time) l × IsSorted l

  IsSorted-insert : (x : Entry T) (l : List (Entry T)) → IsSorted l → IsSorted (insert x l)
  unfolding insert
  IsSorted-insert x [] h = (tt, tt)
  IsSorted-insert x (y ∷ l) h = elim (Bool-cases (entry_lt y x)) [
    | inl lt ↦
        rw lt (All-insert (λ z. y.time ≤ z.time) x l (ground arith) h.0, IsSorted-insert x l h.1)
    | inr ge ↦
        let le : x.time ≤ y.time = ground arith in
        rw ge ((le, All-imp (λ z k. omega arith) l h.0), h)
  ]

  pub sort-IsSorted : (l : List (Entry T)) → IsSorted (sort l)
  unfolding sort
  sort-IsSorted [] = tt
  sort-IsSorted (x ∷ l) = IsSorted-insert x (sort l) (sort-IsSorted l)
