-- ===== src/Adapters/Statistics/Extremes.antt =====
-- The rolling extreme over a run: the deque is that of the window, so the front is its extreme.
use wingfoil.Base.{
  ℕ, zero, suc, ◌+◌, ◌-◌, ◌%◌, ◌≤◌, ◌<◌, max, ◌≡◌, refl, sym, ap, subst, ◌∙◌, ◌⊎◌, true, false,
  List, [], ◌∷◌, ◌++◌, Option, none, some, arith, leb, length, drop, drop_get, lt_get_elem?,
  get_elem?, All, length-append, inl, inr, u64_mod,
}
use mathlib.Core.List.{append_assoc, append-nil}
use wingfoil.Adapters.Statistics.{
  Floats, Extreme, RollingExtremeStream, pop_front_while, pushed, cycle, new,
}
use wingfoil.Adapters.Statistics.Window.{Ordered, candidates, put, put-candidates}
use wingfoil.Adapters.Statistics.Rolling.{
  last_n, drop_add, drop-snoc, indexed, indexed-snoc, stale, indexed_fresh, pop_front_none,
  All-candidates, pop_front-keep, Best, Front, Front-candidates,
}

module _ (floats : Floats) (extreme : Extreme) (order : Ordered floats extreme) (w : ℕ)
    (pos : 0 < w) where
  open floats use {F}

  -- The samples of the window with their numbers.
  abbrev pub window_of : List F → List (ℕ × F)
  window_of xs = indexed floats extreme order (length xs - w) (last_n w xs)

  abbrev best_of : List F → List (ℕ × F)
  best_of xs = candidates floats extreme (window_of xs)

  put_window :
      (xs : List F) (x : F)
      → put floats extreme (length xs, x) (best_of xs)
        ≡ candidates floats extreme
            (indexed floats extreme order (length xs - w) (drop (length xs - w) (xs ++ x ∷ [])))
  put_window xs x =
      let k = length xs - w in
      let old = drop k xs in
      let there : k + length old ≡ length xs = drop_add xs k (omega arith) in
      let grown : indexed floats extreme order k old ++ (length xs, x) ∷ []
          ≡ indexed floats extreme order k (drop k (xs ++ x ∷ [])) =
        ap (λ i. indexed floats extreme order k old ++ (i, x) ∷ []) (sym there)
        ∙ sym (indexed-snoc floats extreme order k old x)
        ∙ ap (indexed floats extreme order k) (sym (drop-snoc xs k x (omega arith))) in
      put-candidates floats extreme order (length xs, x) (window_of xs)
      ∙ ap (candidates floats extreme) grown

  -- While the window fills nothing is stale.
  fills :
      (xs : List F) (x : F)
      → length xs < w
      → pop_front_while floats (stale floats extreme order w (length xs)) (
          candidates floats extreme
            (indexed floats extreme order (length xs - w) (drop (length xs - w) (xs ++ x ∷ []))))
        ≡ best_of (xs ++ x ∷ [])
  fills xs x lt =
      let k = length xs - w in
      let zs = drop k (xs ++ x ∷ []) in
      let same : k ≡ length (xs ++ x ∷ []) - w = omega (arith, length-append xs (x ∷ [])) in
      pop_front_none floats extreme order (stale floats extreme order w (length xs))
        (candidates floats extreme (indexed floats extreme order k zs))
        (All-candidates floats extreme order
          (λ c. stale floats extreme order w (length xs) c ≡ false)
          (indexed floats extreme order k zs)
          (indexed_fresh floats extreme order w (length xs) k zs (omega arith) pos))
      ∙ ap (λ j. candidates floats extreme (indexed floats extreme order j (drop j (xs ++ x ∷ []))))
          same

  -- A full window loses its oldest sample.
  slides :
      (xs : List F) (x : F)
      → w ≤ length xs
      → pop_front_while floats (stale floats extreme order w (length xs)) (
          candidates floats extreme
            (indexed floats extreme order (length xs - w) (drop (length xs - w) (xs ++ x ∷ []))))
        ≡ best_of (xs ++ x ∷ [])
  slides xs x le =
      let k = length xs - w in
      let all_ = xs ++ x ∷ [] in
      let next : suc k ≡ length all_ - w = omega (arith, length-append xs (x ∷ [])) in
      let (z, at) = lt_get_elem? all_ k (omega (arith, length-append xs (x ∷ []))) in
      let rest = drop (suc k) all_ in
      let old : leb w (length xs - k) ≡ true = oldest (length xs) le in
      ap
        (λ zs.
          pop_front_while floats (stale floats extreme order w (length xs))
            (candidates floats extreme (indexed floats extreme order k zs)))
        (drop_get all_ k z at)
      ∙ pop_front-keep floats extreme order (stale floats extreme order w (length xs)) (k, z)
          (candidates floats extreme (indexed floats extreme order (suc k) rest)) old
          (All-candidates floats extreme order
            (λ c. stale floats extreme order w (length xs) c ≡ false)
            (indexed floats extreme order (suc k) rest)
            (indexed_fresh floats extreme order w (length xs) (suc k) rest (omega arith) pos))
      ∙ ap (λ j. candidates floats extreme (indexed floats extreme order j (drop j all_))) next
    where
      oldest : (n : ℕ) → w ≤ n → leb w (n - (n - w)) ≡ true
      oldest n h = ground (arith, h)

  pushed_window :
      (xs : List F) (x : F)
      → pushed floats extreme w (best_of xs) (length xs) x ≡ best_of (xs ++ x ∷ [])
  unfolding pushed
  pushed_window xs x =
      ap (pop_front_while floats (stale floats extreme order w (length xs))) (put_window xs x)
      ∙ (elim (below_or_above (length xs)) [ inl lt ↦ fills xs x lt | inr le ↦ slides xs x le ])
    where
      below_or_above : (n : ℕ) → (n < w) ⊎ (w ≤ n)
      below_or_above n = ground arith

  -- The node after the samples `xs`.
  pub record Rolled (xs : List F) (s : RollingExtremeStream floats) : Type 0 where
    pub same_extreme : s.extreme ≡ extreme
    pub same_window : s.window ≡ w
    pub counted : s.index ≡ length xs
    pub holds : s.deque ≡ best_of xs

  window-Front :
      (xs : List F) (x : F)
      → Front floats extreme order (last_n w (xs ++ x ∷ [])) (best_of (xs ++ x ∷ []))
  window-Front xs x =
      let all_ = xs ++ x ∷ [] in
      let k = length all_ - w in
      let (z, at) = lt_get_elem? all_ k (omega (arith, pos, length-append xs (x ∷ []))) in
      subst
        (λ zs.
          Front floats extreme order zs
            (candidates floats extreme (indexed floats extreme order k zs)))
        (sym (drop_get all_ k z at)) (Front-candidates floats extreme order k z (drop (suc k) all_))

  -- The state that a cycle leaves where the deque has a front.
  stepped :
      (x : F) (s : RollingExtremeStream floats) (deque : List (ℕ × F)) (window : List F)
      → pushed floats s.extreme s.window s.deque s.index x ≡ deque
      → Front floats extreme order window deque
      → (v : F) × (cycle floats x s
          ≡ some (record s { deque = deque; index = (s.index + 1) % u64_mod; value = v }))
        × Best floats extreme order window v
  unfolding cycle
  stepped x s [] window e best = absurd best
  stepped x s ((j, v) ∷ deque) window e best = (
    v,
    rw (e, cycle)
        (ap (λ d. some (record s { deque = d; index = (s.index + 1) % u64_mod; value = v })) e),
    best,
  )

  abbrev Stepped : List F → F → RollingExtremeStream floats → Type 0
  Stepped xs x s =
      (t : RollingExtremeStream floats) × (cycle floats x s ≡ some t)
      × Rolled (xs ++ x ∷ []) t
      × Best floats extreme order (last_n w (xs ++ x ∷ [])) t.value

  step :
      (xs : List F) (x : F) (s : RollingExtremeStream floats)
      → Rolled xs s
      → length xs + 1 < u64_mod
      → Stepped xs x s
  step xs x s good fits =
      let deque : pushed floats s.extreme s.window s.deque s.index x ≡ best_of (xs ++ x ∷ []) =
        rw (good.same_extreme, good.same_window, good.counted, good.holds) (pushed_window xs x) in
      let (v, e, best) =
        stepped x s (best_of (xs ++ x ∷ [])) (last_n w (xs ++ x ∷ [])) deque (window-Front xs x) in
      let count : (s.index + 1) % u64_mod ≡ length (xs ++ x ∷ []) =
        omega (arith, good.counted, length-append xs (x ∷ [])) in
      (
        record s { deque = best_of (xs ++ x ∷ []); index = (s.index + 1) % u64_mod; value = v },
        e,
        record {
          same_extreme = good.same_extreme;
          same_window = good.same_window;
          counted = count;
          holds = refl;
        },
        best,
      )

module _ (floats : Floats) where
  open floats use {F}

  -- A cycle for each sample.
  abbrev pub run : List F → RollingExtremeStream floats → Option (RollingExtremeStream floats)
  run [] s = some s
  run (x ∷ xs) s = elim (cycle floats x s) [ none ↦ none | some t ↦ run xs t ]

  run_step :
      (x : F) (xs : List F) (s t : RollingExtremeStream floats)
      → cycle floats x s ≡ some t
      → run (x ∷ xs) s ≡ run xs t
  run_step x xs s t e = rw (e, run) refl

  -- `≤` is total and transitive on the numbers that are compared.
  pub record Total : Type 0 where
    pub total : (a b : F) → floats.le a b ≡ false → floats.le b a ≡ true
    pub transitive :
        (a b c : F) → floats.le a b ≡ true → floats.le b c ≡ true → floats.le a c ≡ true

  Total-Ordered : (extreme : Extreme) → Total → Ordered floats extreme
  Total-Ordered Extreme.min_of order = record {
    total = λ a b h. order.total b a h;
    transitive = λ a b c h k. order.transitive c b a k h;
  }
  Total-Ordered Extreme.max_of order = record { total = order.total; transitive = order.transitive }

  -- The least of a list, or its greatest.
  abbrev pub IsExtreme : Extreme → List F → F → Type 0
  IsExtreme Extreme.min_of window v =
      ((i : ℕ) × (get_elem? window i ≡ some v)) × All (λ x. floats.le v x ≡ true) window
  IsExtreme Extreme.max_of window v =
      ((i : ℕ) × (get_elem? window i ≡ some v)) × All (λ x. floats.le x v ≡ true) window

  Best-IsExtreme :
      (extreme : Extreme) (order : Ordered floats extreme) (window : List F) (v : F)
      → Best floats extreme order window v
      → IsExtreme extreme window v
  Best-IsExtreme Extreme.min_of order window v best = (best.member, best.bound)
  Best-IsExtreme Extreme.max_of order window v best = (best.member, best.bound)

  module _ (extreme : Extreme) (order : Ordered floats extreme) where
    nothing :
        (j k : ℕ) → candidates floats extreme (indexed floats extreme order j (drop k [])) ≡ []
    nothing j zero = refl
    nothing j (suc k) = refl

    run_all :
        (w : ℕ) (pos : 0 < w) (xs : List F) (x : F) (ys : List F) (s : RollingExtremeStream floats)
        → Rolled floats extreme order w pos ys s
        → length ys + length xs + 1 < u64_mod
        → (t : RollingExtremeStream floats) × (run (xs ++ x ∷ []) s ≡ some t)
          × Best floats extreme order (last_n w (ys ++ xs ++ x ∷ [])) t.value
    run_all w pos [] x ys s good fits =
        let (t, e, good', best) =
          step floats extreme order w pos ys x s good (omega (arith, fits)) in
        (t, run_step x [] s t e, rw (append-nil ys) best)
    run_all w pos (y ∷ xs) x ys s good fits =
        let (t, e, good', best) =
          step floats extreme order w pos ys y s good (omega (arith, fits)) in
        let (u, e', best') =
          run_all w pos xs x (ys ++ y ∷ []) t good'
            (omega (arith, fits, length-append ys (y ∷ []))) in
        let shown : List F → Type 0 =
          λ zs. Best floats extreme order (last_n w (zs ++ x ∷ [])) u.value in
        (u, run_step y (xs ++ x ∷ []) s t e ∙ e', subst shown (append_assoc ys (y ∷ []) xs) best')

    fresh-Rolled :
        (window : ℕ) (pos : 0 < max window 1)
        → Rolled floats extreme order (max window 1) pos [] (new floats extreme window)
    unfolding new
    fresh-Rolled window pos = record {
      same_extreme = refl;
      same_window = refl;
      counted = refl;
      holds = sym (nothing (0 - max window 1) (0 - max window 1));
    }

  -- If `<=` is total and transitive on the samples and fewer samples than a 64-bit counter holds
  -- have come, a fresh rolling extreme never panics, and after each sample it shows a value of
  -- the window of the last samples: for a rolling minimum one that is `<=` each of them, for a
  -- rolling maximum one that each of them is `<=`.
  pub run-Best :
      (extreme : Extreme) (window : ℕ) (xs : List F) (x : F)
      → Total
      → length xs + 1 < u64_mod
      → (t : RollingExtremeStream floats) × (run (xs ++ x ∷ []) (new floats extreme window)
          ≡ some t)
        × IsExtreme extreme (last_n (max window 1) (xs ++ x ∷ [])) t.value
  run-Best extreme window xs x total fits =
      let pos : 0 < max window 1 = omega arith in
      let order = Total-Ordered extreme total in
      let (t, e, best) =
        run_all extreme order (max window 1) pos xs x [] (new floats extreme window)
          (fresh-Rolled extreme order window pos) (omega (arith, fits)) in
      (t, e, Best-IsExtreme extreme order (last_n (max window 1) (xs ++ x ∷ [])) t.value best)
