-- ===== src/Nodes/Group.antt =====
-- wingfoil/src/nodes/dynamic_group.rs: DynamicGroup and the stream over it. Nodes are known by their
-- addresses, and `none` is a panic. The closures of the stream, and what its members show, are
-- parameters.
use wingfoil.Base.{ℕ, Bool, true, false, List, [], ◌∷◌, Option, none, some}
use wingfoil.Graph.State.{GraphState, add_upstream, remove_node, ticked}

infixl 5 ◌>>=◌
abbrev ◌>>=◌ : {A B : Type 0} → Option A → (A → Option B) → Option B
none >>= f = none
some a >>= f = f a

-- The backing store: `Store`, and the operations on it.
pub record StreamStore (K : Type 0) : Type 1 where
  pub Store : Type 0
  pub store_insert : K → ℕ → Store → Store
  pub store_remove : K → Store → Option ℕ × Store
  pub store_entries : Store → List (K × ℕ)

-- What the stream is built with; `factory` makes a new node in the world outside.
pub record Closures (K T V Outside : Type 0) : Type 0 where
  pub factory : K → Outside → ℕ × Outside
  pub on_tick : V → K → T → V
  pub on_remove : V → K → V
  pub peek_value : ℕ → Outside → T

module _ {K : Type 0} (backing : StreamStore K) where
  open backing use {Store, store_insert, store_remove, store_entries}

  unfoldable pub insert : K → ℕ → GraphState → Store → Option (GraphState × Store)
  insert key stream state group = elim (add_upstream stream true true state) [
    | none ↦ none
    | some state' ↦ some (state', store_insert key stream group)
  ]

  abbrev removed : GraphState → Option ℕ × Store → GraphState × Store
  removed state (none, group) = (state, group)
  removed state (some stream, group) = (remove_node stream state, group)

  unfoldable pub remove : K → GraphState → Store → GraphState × Store
  remove key state group = removed state (store_remove key group)

  -- The entries of which the node ticked in this cycle.
  unfoldable pub ticked_entries : GraphState → List (K × ℕ) → Option (List (K × ℕ))
  ticked_entries state [] = some []
  ticked_entries state ((key, stream) ∷ entries) = do
    this ← ticked stream state
    rest ← ticked_entries state entries
    some (elim this [ true ↦ (key, stream) ∷ rest | false ↦ rest ])

  module _ {T V Outside : Type 0} (closures : Closures K T V Outside) where
    open closures use {factory, on_tick, on_remove, peek_value}

    pub record DynamicGroupStream : Type 0 where
      pub add : ℕ
      pub del : ℕ
      pub group : Store
      pub value : V

    abbrev World : Type 0
    World = DynamicGroupStream × GraphState × Outside

    unfoldable pub add_key : K → World → Option World
    unfolding insert
    add_key key (s, state, outside) =
        let (stream, outside') = factory key outside in
        elim (insert key stream state s.group) [
          | none ↦ none
          | some (state', group) ↦ some (record s { group = group }, state', outside')
        ]

    unfoldable pub del_key : K → World → World
    unfolding remove
    del_key key (s, state, outside) =
        let (state', group) = remove key state s.group in
        (record s { group = group; value = on_remove s.value key }, state', outside)

    -- The loop over the members that ticked.
    unfoldable pub tick_members : List (K × ℕ) → Outside → V → V
    tick_members [] outside value = value
    tick_members ((key, stream) ∷ entries) outside value =
        tick_members entries outside (on_tick value key (peek_value stream outside))

    abbrev any_of : List (K × ℕ) → Bool
    any_of [] = false
    any_of (e ∷ es) = true

    unfoldable pub show_members : World → Option (Bool × World)
    unfolding ticked_entries tick_members
    show_members (s, state, outside) = do
      members ← ticked_entries state (store_entries s.group)
      some (
        any_of members,
        (record s { value = tick_members members outside s.value }, state, outside),
      )

    abbrev when : Bool → (World → Option World) → World → Option World
    when true f w = f w
    when false f w = some w

    -- `added` and `deleted` are the values that the two streams show.
    unfoldable pub cycle : K → K → World → Option (Bool × World)
    unfolding add_key del_key show_members
    cycle added deleted (s, state, outside) = do
      add_ticked ← ticked s.add state
      w ← when add_ticked (add_key added) (s, state, outside)
      del_ticked ← ticked w.0.del w.1
      w' ← when del_ticked (λ x. some (del_key deleted x)) w
      show_members w'
