-- ===== src/Nodes/Demux/Slots.antt =====
-- The slots of a DemuxMap are below its size, and so is the entry of each item.
use wingfoil.Base.{
  ℕ, ◌<◌, ◌≤◌, ◌≡◌, refl, subst, Bool, any, not, List, [], ◌∷◌, Option, none, some, arith, ◌==◌,
  filter_by, count, All, Bool-cases, Option-cases, inl, inr,
}
use mathlib.Core.Option.{some-injective}
use wingfoil.Queue.{PartialEq}
use wingfoil.Nodes.Demux.{
  DemuxMap, DemuxEntry, slot, overflow, get_or_insert, release, find, remove, insert_slot,
}
use wingfoil.Nodes.Demux.Parent.{DemuxEvent, no_event, close, demuxed}

All-count : (P : ℕ → Type 0) (l : List ℕ) (ix : ℕ) → All P l → 1 ≤ count ix l → P ix
All-count P [] ix h c = absurd (omega arith)
All-count P (x ∷ l) ix h c = elim (Bool-cases (x == ix)) [
  | inl same ↦ subst P (ground (arith, same)) h.0
  | inr other ↦ All-count P l ix h.1 (ground (arith, other))
]

All-filter :
    {A : Type 0} → (P : A → Type 0) (p : A → Bool) (l : List A) → All P l → All P (filter_by p l)
All-filter P p [] h = tt
All-filter P p (x ∷ l) h = elim (Bool-cases (p x)) [
  | inl on ↦ rw on (h.0, All-filter P p l h.1)
  | inr off ↦ rw off (All-filter P p l h.1)
]

All-insert_slot : (P : ℕ → Type 0) (ix : ℕ) (l : List ℕ) → P ix → All P l → All P (insert_slot ix l)
All-insert_slot P ix l new h = elim (Bool-cases (any (λ j. j == ix) l)) [
  | inl there ↦ rw there h
  | inr absent ↦ rw absent (new, h)
]

abbrev pub EntryOk : ℕ → DemuxEntry → Type 0
EntryOk size overflow = Unit
EntryOk size (slot ix) = ix < size

module _ {K : Type 0} where
  abbrev pub Held : ℕ → K × Option ℕ → Type 0
  Held size (k, none) = Unit
  Held size (k, some ix) = ix < size

  pub record InRange (m : DemuxMap K) : Type 0 where
    pub free : All (λ ix. ix < m.size) m.available
    pub held : All (Held m.size) m.in_use

-- `pick` gives a member of a set.
module _ {K : Type 0} ⦃p : PartialEq K⦄ (pick : List ℕ → Option ℕ)
    (member : (l : List ℕ) (ix : ℕ) → pick l ≡ some ix → 1 ≤ count ix l) where
  find-Held :
      (size : ℕ) (key : K) (m : List (K × Option ℕ)) (ix : ℕ)
      → All (Held size) m
      → find pick key m ≡ some (some ix)
      → ix < size
  find-Held size key [] ix h e = cc
  find-Held size key ((k, v) ∷ m) ix h e = elim (Bool-cases (p.eq k key)) [
    | inl same ↦ subst (λ w. Held size (k, w)) (some-injective v (some ix) (rw same at e)) h.0
    | inr other ↦ find-Held size key m ix h.1 (rw other at e)
  ]

  remove-Held :
      (size : ℕ) (key : K) (m : List (K × Option ℕ))
      → All (Held size) m
      → All (Held size) (remove pick key m)
  remove-Held size key [] h = tt
  remove-Held size key ((k, v) ∷ m) h = elim (Bool-cases (p.eq k key)) [
    | inl same ↦ rw same (remove-Held size key m h.1)
    | inr other ↦ rw other (h.0, remove-Held size key m h.1)
  ]

  -- What an operation of the map returns and leaves.
  pub record Entered (m : DemuxMap K) (r : DemuxEntry × DemuxMap K) : Type 0 where
    pub entry_ok : EntryOk r.1.size r.0
    pub in_range : InRange r.1
    pub same_size : r.1.size ≡ m.size

  get_or_insert-Entered :
      (key : K) (m : DemuxMap K) → InRange m → Entered m (get_or_insert pick key m)
  unfolding get_or_insert
  get_or_insert-Entered key m ok = elim (Option-cases (find pick key m.in_use)) [
    | inr (none, e) ↦
        rw (e, get_or_insert) (record { entry_ok = tt; in_range = ok; same_size = refl })
    | inr (some ix, e) ↦
        rw (e, get_or_insert)
          (record {
            entry_ok = find-Held m.size key m.in_use ix ok.held e;
            in_range = ok;
            same_size = refl;
          })
    | inl e ↦ elim (Option-cases (pick m.available)) [
      | inl full ↦
          rw (e, get_or_insert, full)
            (record {
              entry_ok = tt;
              in_range = record { free = ok.free; held = (tt, ok.held) };
              same_size = refl;
            })
      | inr (ix, free) ↦
          let below =
            All-count (λ i. i < m.size) m.available ix ok.free (member m.available ix free) in
          rw (e, get_or_insert, free)
            (record {
              entry_ok = below;
              in_range = record {
                free = All-filter (λ i. i < m.size) (λ j. not (j == ix)) m.available ok.free;
                held = (below, ok.held);
              };
              same_size = refl;
            })
    ]
  ]

  release-Entered : (key : K) (m : DemuxMap K) → InRange m → Entered m (release pick key m)
  unfolding release
  release-Entered key m ok = elim (Option-cases (find pick key m.in_use)) [
    | inr (none, e) ↦
        rw (e, release)
          (record {
            entry_ok = tt;
            in_range = record { free = ok.free; held = remove-Held m.size key m.in_use ok.held };
            same_size = refl;
          })
    | inr (some ix, e) ↦
        let below = find-Held m.size key m.in_use ix ok.held e in
        rw (e, release)
          (record {
            entry_ok = below;
            in_range = record {
              free = All-insert_slot (λ i. i < m.size) ix m.available below ok.free;
              held = remove-Held m.size key m.in_use ok.held;
            };
            same_size = refl;
          })
    | inl e ↦ elim (Option-cases (pick m.available)) [
      | inl full ↦ rw (e, release, full) (record { entry_ok = tt; in_range = ok; same_size = refl })
      | inr (ix, free) ↦
          rw (e, release, free)
            (record {
              entry_ok =
                  All-count (λ i. i < m.size) m.available ix ok.free (member m.available ix free);
              in_range = ok;
              same_size = refl;
            })
    ]
  ]

  pub demuxed-Entered :
      (e : K × DemuxEvent) (m : DemuxMap K) → InRange m → Entered m (demuxed pick e m)
  unfolding demuxed
  demuxed-Entered (key, close) m ok = release-Entered key m ok
  demuxed-Entered (key, no_event) m ok = get_or_insert-Entered key m ok
