-- ===== src/Nodes/Sources.antt =====
-- wingfoil/src/nodes/iterator_stream.rs: streams over iterators. An iterator is the list of the values that it has left, each with its time.
use wingfoil.Base.{
  ℕ, ◌≡◌, refl, ap, ◌∙◌, Bool, false, List, [], ◌∷◌, ◌++◌, map, Option, none, some, arith, ◌==◌,
  ltb, if◌then◌else◌, Bool-cases, Option-cases, sym, subst, inl, inr,
}
use wingfoil.Graph.Callbacks.{nonempty}
use wingfoil.Graph.State.{GraphState, add_callback}

pub data SimpleError : Type 0 where
  descending : SimpleError
  same_time : SimpleError

pub record IteratorStream (T : Type 0) : Type 0 where
  pub peekable : List (T × ℕ)
  pub value : List T

pub data SimpleResult (T : Type 0) : Type 0 where
  ticks : T → List (T × ℕ) → GraphState → SimpleResult T
  fails : SimpleError → SimpleResult T
  panics : SimpleResult T

-- An item of a fallible iterator, with its time if it is a value.
pub data Item (T : Type 0) : Type 0 where
  value_at : T → ℕ → Item T
  failed : Item T

-- A cycle of a stream over a fallible iterator; a step that fails consumes the item that failed.
pub data TryResult (T : Type 0) : Type 0 where
  bursts : Bool → List T → List (Item T) → GraphState → TryResult T
  surfaces : List T → List (Item T) → TryResult T
  aborts : TryResult T

module _ {T : Type 0} where
  -- `add_callback` of iterator_stream.rs; the outer `none` is a panic.
  unfoldable pub schedule_next : List (T × ℕ) → GraphState → Option GraphState
  schedule_next [] state = some state
  schedule_next ((v, t) ∷ rest) state = add_callback t state

  -- The loop of `cycle`: the values of the burst, and what is left.
  unfoldable pub burst : ℕ → List (T × ℕ) → List T × List (T × ℕ)
  burst now [] = ([], [])
  burst now ((v, t) ∷ rest) =
      let (value, left) = burst now rest in
      if t == now then (v ∷ value, left) else ([], (v, t) ∷ rest)

  unfoldable pub iterator_cycle :
      GraphState → IteratorStream T → Option (Bool × IteratorStream T × GraphState)
  unfolding burst schedule_next
  iterator_cycle state s =
      let (value, left) = burst state.time s.peekable in
      elim (schedule_next left state) [
        | none ↦ none
        | some state' ↦ some (nonempty value, record { peekable = left; value = value }, state')
      ]

  -- What is left does not start at the time of the burst.
  abbrev pub Past : ℕ → List (T × ℕ) → Type 0
  Past now [] = Unit
  Past now (x ∷ l) = (x.1 == now) ≡ false

  -- A burst of an iterator stream is all the values at the head of the iterator with the present
  -- time: put back in front of what is left they are the iterator, and what is left does not
  -- start at the present time.
  burst-Past :
      (now : ℕ) (items : List (T × ℕ))
      → (map (λ v. (v, now)) (burst now items).0 ++ (burst now items).1 ≡ items)
        × Past now (burst now items).1
  unfolding burst
  burst-Past now [] = (refl, tt)
  burst-Past now ((v, t) ∷ rest) = elim (Bool-cases (t == now)) [
    | inl same ↦
        let (again, past) = burst-Past now rest in
        let e : now ≡ t = ground (arith, same) in
        rw same (ap (λ l. (v, now) ∷ l) again ∙ ap (λ u. (v, u) ∷ rest) e, past)
    | inr other ↦ rw other (refl, other)
  ]

  -- One value per cycle from a source that must ascend strictly.
  unfoldable pub simple_cycle : GraphState → List (T × ℕ) → SimpleResult T
  unfolding schedule_next
  simple_cycle state [] = panics
  simple_cycle state ((v, t) ∷ []) = ticks v [] state
  simple_cycle state ((v, t) ∷ (w, u) ∷ rest) =
      if ltb u t
      then fails descending
      else if t == u
      then fails same_time
      else elim (add_callback u state) [
        | none ↦ panics
        | some state' ↦ ticks v ((w, u) ∷ rest) state'
      ]

  -- The loop of `TryIteratorStream::cycle`: an item that failed is never due.
  unfoldable pub try_burst : ℕ → List (Item T) → List T × List (Item T)
  try_burst now [] = ([], [])
  try_burst now (failed ∷ rest) = ([], failed ∷ rest)
  try_burst now (value_at v t ∷ rest) =
      let (value, left) = try_burst now rest in
      if t == now then (v ∷ value, left) else ([], value_at v t ∷ rest)

  -- `try_add_callback` behind a burst.
  unfoldable pub try_schedule : List T → List (Item T) → GraphState → TryResult T
  try_schedule value [] state = bursts (nonempty value) value [] state
  try_schedule value (failed ∷ rest) state = surfaces value rest
  try_schedule value (value_at v t ∷ rest) state = elim (add_callback t state) [
    | none ↦ aborts
    | some state' ↦ bursts (nonempty value) value (value_at v t ∷ rest) state'
  ]

  unfoldable pub try_cycle : GraphState → List (Item T) → TryResult T
  unfolding try_burst try_schedule
  try_cycle state items =
      let (value, left) = try_burst state.time items in try_schedule value left state

  -- The values of an iterator that does not fail.
  abbrev pub all_good : List (T × ℕ) → List (Item T)
  all_good [] = []
  all_good ((v, t) ∷ items) = value_at v t ∷ all_good items

  -- What stays of a fallible step, if it returned.
  abbrev pub Agrees : List (T × ℕ) → GraphState → TryResult T → Type 0
  Agrees items state (bursts ticked value left state') =
      (value ≡ (burst state.time items).0)
      × (left ≡ all_good (burst state.time items).1)
      × (ticked ≡ nonempty (burst state.time items).0)
      × (schedule_next (burst state.time items).1 state ≡ some state')
  Agrees items state (surfaces value left) = ⊥
  Agrees items state aborts = schedule_next (burst state.time items).1 state ≡ none

  try_burst-all_good :
      (now : ℕ) (items : List (T × ℕ))
      → try_burst now (all_good items) ≡ ((burst now items).0, all_good (burst now items).1)
  unfolding try_burst burst
  try_burst-all_good now [] = refl
  try_burst-all_good now ((v, t) ∷ items) = elim (Bool-cases (t == now)) [
    | inl same ↦
        rw same (ap (λ (r : List T × List (Item T)). (v ∷ r.0, r.1)) (try_burst-all_good now items))
    | inr other ↦ rw other refl
  ]

  try_schedule-Agrees :
      (items : List (T × ℕ)) (state : GraphState) (left : List (T × ℕ))
      → (burst state.time items).1 ≡ left
      → Agrees items state (try_schedule (burst state.time items).0 (all_good left) state)
  unfolding try_schedule schedule_next
  try_schedule-Agrees items state [] e =
      (refl, ap all_good (sym e), refl, ap (λ l. schedule_next l state) e)
  try_schedule-Agrees items state ((v, t) ∷ left) e =
      let value = (burst state.time items).0 in
      let here = ap (λ l. schedule_next l state) e in
      elim (Option-cases (add_callback t state)) [
        | inl stuck ↦
            let step : try_schedule value (all_good ((v, t) ∷ left)) state ≡ aborts =
              rw (stuck, try_schedule) refl in
            subst (Agrees items state) (sym step) (here ∙ stuck)
        | inr (state', fine) ↦
            let step : try_schedule value (all_good ((v, t) ∷ left)) state
                ≡ bursts (nonempty value) value (all_good ((v, t) ∷ left)) state' =
              rw (fine, try_schedule) refl in
            subst (Agrees items state) (sym step) (refl, ap all_good (sym e), refl, here ∙ fine)
      ]

  -- On an iterator without failures a cycle of the fallible iterator stream does what a cycle of
  -- the plain one does: the same burst, the same items left, the same tick and the same callback,
  -- and it panics only where the other does.
  try_cycle-Agrees :
      (items : List (T × ℕ)) (state : GraphState)
      → Agrees items state (try_cycle state (all_good items))
  unfolding try_cycle
  try_cycle-Agrees items state =
      rw (try_burst-all_good state.time items)
        (try_schedule-Agrees items state (burst state.time items).1 refl)
