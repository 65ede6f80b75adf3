-- ===== src/Nodes/Values.antt =====
-- Nodes whose cycle reads its upstreams and sets its value: map.rs, map_filter.rs, filter.rs, sample.rs,
-- fold.rs, with_time.rs, difference.rs, merge.rs and constant.rs of wingfoil/src/nodes.
use wingfoil.Base.{
  ℕ, ◌≡◌, refl, ap, Bool, true, false, List, [], ◌∷◌, Option, none, some, if◌then◌else◌, Bool-cases,
  inl, inr, map, filter_by,
}
use wingfoil.Graph.State.{GraphState, node_index, node_index_ticked, add_callback}
use wingfoil.Nodes.{emitted}

pub record MapStream (A B : Type 0) : Type 0 where
  pub func : A → B
  pub value : B

pub record MapFilterStream (A B : Type 0) : Type 0 where
  pub func : A → B × Bool
  pub value : B

pub record FoldStream (A B : Type 0) : Type 0 where
  pub func : B → A → B
  pub value : B

module _ {A B : Type 0} where
  unfoldable pub map_cycle : MapStream A B → A → Bool × MapStream A B
  map_cycle s upstream = (true, record s { value = s.func upstream })

  unfoldable pub map_filter_cycle : MapFilterStream A B → A → Bool × MapFilterStream A B
  map_filter_cycle s upstream =
      let (val, ticked) = s.func upstream in
      (ticked, (if ticked then record s { value = val } else s))

  -- The closure updates the value in place.
  unfoldable pub fold_cycle : FoldStream A B → A → Bool × FoldStream A B
  fold_cycle s upstream = (true, record s { value = s.func s.value upstream })

  -- A map_filter node shows, in order, the mapped values of exactly those inputs that its closure
  -- lets through.
  emitted-map_filter :
      (s : MapFilterStream A B) (inputs : List A)
      → emitted map_filter_cycle (λ s. s.value) s inputs
        ≡ map (λ (r : B × Bool). r.0) (filter_by (λ (r : B × Bool). r.1) (map s.func inputs))
  unfolding map_filter_cycle
  emitted-map_filter s [] = refl
  emitted-map_filter s (x ∷ inputs) = elim (Bool-cases (s.func x).1) [
    | inl on ↦
        rw on (
          ap (λ l. (s.func x).0 ∷ l)
            (emitted-map_filter (record s { value = (s.func x).0 }) inputs))
    | inr off ↦ rw off (emitted-map_filter s inputs)
  ]

pub record DifferenceStream (T : Type 0) : Type 0 where
  pub sub : T → T → T
  pub diff : T
  pub prev_val : Option T

pub record MergeStream (T : Type 0) : Type 0 where
  pub upstreams : List (ℕ × T)
  pub upstream_indices : List ℕ
  pub value : T

module _ {T : Type 0} where
  -- `condition` is the value of the stream of conditions.
  unfoldable pub filter_cycle : T → T → Bool → Bool × T
  filter_cycle value source condition = (condition, (if condition then source else value))

  unfoldable pub sample_cycle : T → Bool × T
  sample_cycle upstream = (true, upstream)

  unfoldable pub with_time_cycle : GraphState → T → Bool × (ℕ × T)
  with_time_cycle state upstream = (true, (state.time, upstream))

  unfoldable pub difference_cycle : DifferenceStream T → T → Bool × DifferenceStream T
  difference_cycle s value = elim s.prev_val [
    | some prv ↦ (true, record s { diff = s.sub value prv; prev_val = some value })
    | none ↦ (false, record s { prev_val = some value })
  ]

  -- The differences of neighbours.
  abbrev pub deltas : (T → T → T) → List T → List T
  deltas sub [] = []
  deltas sub (x ∷ []) = []
  deltas sub (x ∷ y ∷ l) = sub y x ∷ deltas sub (y ∷ l)

  emitted-deltas :
      (s : DifferenceStream T) (prev : T) (inputs : List T)
      → s.prev_val ≡ some prev
      → emitted difference_cycle (λ s. s.diff) s inputs ≡ deltas s.sub (prev ∷ inputs)
  unfolding difference_cycle
  emitted-deltas s prev [] e = refl
  emitted-deltas s prev (x ∷ inputs) e = rw e (
      ap (λ l. s.sub x prev ∷ l)
        (emitted-deltas (record s { diff = s.sub x prev; prev_val = some x }) x inputs refl))

  -- A fresh difference node shows the differences of neighbouring inputs, in order.
  emitted-difference :
      (s : DifferenceStream T) (inputs : List T)
      → s.prev_val ≡ none
      → emitted difference_cycle (λ s. s.diff) s inputs ≡ deltas s.sub inputs
  unfolding difference_cycle
  emitted-difference s [] e = refl
  emitted-difference s (x ∷ inputs) e =
      rw e (emitted-deltas (record s { prev_val = some x }) x inputs refl)

  -- The upstreams of a merge by their addresses, with the values that they show.
  -- The indices of the upstreams; `none` is the panic of an upstream that is not wired.
  unfoldable pub indices : GraphState → List (ℕ × T) → Option (List ℕ)
  indices state [] = some []
  indices state (u ∷ us) = elim (node_index u.0 state) [
    | none ↦ none
    | some ix ↦ elim (indices state us) [ none ↦ none | some ixs ↦ some (ix ∷ ixs) ]
  ]

  -- The first upstream that ticked; the outer `none` is an index out of range.
  unfoldable pub first_ticked : GraphState → List (ℕ × T) → List ℕ → Option (Option T)
  first_ticked state [] ixs = some none
  first_ticked state (u ∷ us) [] = some none
  first_ticked state (u ∷ us) (ix ∷ ixs) =
      let rest = first_ticked state us ixs in
      elim (node_index_ticked ix state) [
        | none ↦ none
        | some true ↦ some (some u.1)
        | some false ↦ rest
      ]

  abbrev pub resolved : GraphState → MergeStream T → Option (List ℕ)
  resolved state s = elim s.upstream_indices [
    | [] ↦ indices state s.upstreams
    | ix ∷ ixs ↦ some (ix ∷ ixs)
  ]

  unfoldable pub merge_cycle : GraphState → MergeStream T → Option (Bool × MergeStream T)
  unfolding indices first_ticked
  merge_cycle state s = elim (resolved state s) [
    | none ↦ none
    | some ixs ↦ elim (first_ticked state s.upstreams ixs) [
      | none ↦ none
      | some none ↦ some (false, record s { upstream_indices = ixs })
      | some (some v) ↦ some (true, record s { upstream_indices = ixs; value = v })
    ]
  ]

-- The start of a constant, which asks for one callback and ticks whenever it is cycled.
unfoldable pub constant_start : GraphState → Option GraphState
unfolding add_callback
constant_start state = add_callback state.start_time state
