-- ===== src/Nodes/Window.antt =====
-- wingfoil/src/nodes/window.rs: the values of each time interval.
use mathlib.Core.List.{append-nil}
use wingfoil.Base.{
  ℕ, zero, suc, ◌+◌, ◌-◌, ◌%◌, ◌≤◌, ◌<◌, ◌≡◌, refl, Bool, true, ◌&&◌, not, List, [], ◌∷◌, ◌++◌,
  Option, none, some, arith, leb, if◌then◌else◌, Bool-cases, inl, inr, u64_mod,
}
use wingfoil.Graph.Callbacks.{nonempty}

pub record WindowStream (T : Type 0) : Type 0 where
  pub interval : ℕ
  pub next_window : ℕ
  pub buffer : List T
  pub value : List T

-- `while self.next_window <= state.time()`; `none` when the fuel is spent.
unfoldable pub next_boundary : ℕ → ℕ → ℕ → ℕ → Option ℕ
next_boundary zero interval now next = none
next_boundary (suc rounds) interval now next =
    let rest = next_boundary rounds interval now ((next + interval) % u64_mod) in
    if leb next now then rest else some next

next_boundary_found :
    (rounds interval now next : ℕ)
    → 0 < interval
    → now + interval < u64_mod
    → next ≤ now + interval
    → now + 2 ≤ next + rounds
    → 0 < rounds
    → (b : ℕ) × (next_boundary rounds interval now next ≡ some b) × (now < b) × (b ≤ now + interval)
unfolding next_boundary
next_boundary_found zero interval now next pos room le fuel h = absurd (omega arith)
next_boundary_found (suc rounds) interval now next pos room le fuel h =
    elim (Bool-cases (leb next now)) [
      | inr stop ↦ rw stop (next, refl, ground arith, le)
      | inl go ↦
          let le' : next ≤ now = ground arith in
          let sum : (next + interval) % u64_mod ≡ next + interval = omega arith in
          rw (go, sum)
            (next_boundary_found rounds interval now (next + interval) pos room (omega arith)
              (omega arith) (omega arith))
    ]

-- Each round raises the boundary, so the rounds are at most those from it to the present.
abbrev boundary_rounds : ℕ → ℕ → ℕ
boundary_rounds now next = suc (suc (now - next))

module _ {T : Type 0} where
  unfoldable pub start : ℕ → WindowStream T → WindowStream T
  start now s = record s { next_window = (now + s.interval) % u64_mod }

  -- The boundary of the window that a cycle at a time leaves.
  unfoldable pub moved : ℕ → WindowStream T → Option ℕ
  moved now s =
      if leb s.next_window now
      then next_boundary (boundary_rounds now s.next_window) s.interval now s.next_window
      else some s.next_window

  abbrev pub due : ℕ → WindowStream T → Bool
  due now s = leb s.next_window now && nonempty s.buffer

  -- A cycle at a time, in the last cycle or not, with the upstream's value; `none` if the loop over the
  -- boundaries does not end.
  unfoldable pub cycle : ℕ → Bool → T → WindowStream T → Option (Bool × WindowStream T)
  unfolding moved
  cycle now is_last_cycle upstream s = elim (moved now s) [
    | none ↦ none
    | some next ↦
        let flushed = due now s in
        let buffer = (if flushed then [] else s.buffer) ++ upstream ∷ [] in
        let value = if flushed then s.buffer else s.value in
        if not flushed && (is_last_cycle && nonempty buffer)
        then some (true, record s { next_window = next; buffer = []; value = buffer })
        else some (flushed, record s { next_window = next; buffer = buffer; value = value })
  ]

  -- What a cycle does with the values: those it emits and those it keeps are the old ones and the new.
  abbrev pub Windowed : ℕ → T → WindowStream T → Option (Bool × WindowStream T) → Type 0
  Windowed now upstream s none = ⊥
  Windowed now upstream s (some (ticked, s')) =
      (now < s'.next_window)
      × (s'.next_window ≤ now + s.interval)
      × ((if ticked then s'.value else []) ++ s'.buffer ≡ s.buffer ++ upstream ∷ [])

  moved-some :
      (now : ℕ) (s : WindowStream T)
      → 0 < s.interval
      → now + s.interval < u64_mod
      → s.next_window ≤ now + s.interval
      → (b : ℕ) × (moved now s ≡ some b) × (now < b) × (b ≤ now + s.interval)
  unfolding moved
  moved-some now s pos room le = elim (Bool-cases (leb s.next_window now)) [
    | inl passed ↦ rw passed (
        next_boundary_found (boundary_rounds now s.next_window) s.interval now s.next_window pos
          room le (omega arith) (omega arith))
    | inr open_ ↦ rw open_ (s.next_window, refl, ground arith, le)
  ]

  -- With a positive interval, a clock that leaves room for one more interval, and a window end at
  -- most an interval ahead, a cycle of a window node ends, the new window end is after the
  -- present and at most an interval later, and what is shown in a tick followed by what is kept
  -- is what was kept followed by the new value.
  pub cycle-Windowed :
      (now : ℕ) (is_last_cycle : Bool) (upstream : T) (s : WindowStream T)
      → 0 < s.interval
      → now + s.interval < u64_mod
      → s.next_window ≤ now + s.interval
      → Windowed now upstream s (cycle now is_last_cycle upstream s)
  unfolding cycle
  cycle-Windowed now is_last_cycle upstream s pos room le =
      let (b, e, after, near) = moved-some now s pos room le in
      rw (e, cycle)
        (elim (Bool-cases (due now s)) [
          | inl flush ↦ rw flush (after, near, refl)
          | inr keep ↦
              rw keep (elim (Bool-cases (is_last_cycle && nonempty (s.buffer ++ upstream ∷ []))) [
                | inl final ↦ rw final (after, near, append-nil (s.buffer ++ upstream ∷ []))
                | inr more ↦ rw more (after, near, refl)
              ])
        ])
