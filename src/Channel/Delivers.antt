-- ===== src/Channel/Delivers.antt =====
-- A receiver of a historical run shows each burst in the cycle of its time, loses none and keeps their
-- order.
use wingfoil.Base.{
  ℕ, ◌≤◌, ◌<◌, ◌≡◌, Bool, true, false, not, ◌&&◌, List, [], ◌∷◌, ◌++◌, if◌then◌else◌, All,
}
use wingfoil.Graph.State.{GraphState, add_callback_for_node}
use wingfoil.Channel.{Message, Channel}
use wingfoil.Channel.Receive.{
  Timed, ChannelReceiverStream, ReadEnd, concat_values, Reads, ticks, fails, After,
}
use wingfoil.Channel.Messages.{Gave, Acceptable, Cause, values_of, told, ended, UpToDate}

module _ {T E : Type 0} (channel : Channel T E) where
  open channel use {Outside}

  -- The head of a queue, if there is one, is behind the time.
  abbrev pub HeadAfter : ℕ → List (Timed T) → Type 0
  HeadAfter now [] = Unit
  HeadAfter now ((t, vs) ∷ queue) = now < t

  abbrev pub is_nonempty : List T → Bool
  is_nonempty [] = false
  is_nonempty (v ∷ vs) = true

  -- The node is called at its next value, or at once if it has to wait for one.
  abbrev pub Wakes : ℕ → GraphState → ChannelReceiverStream T → List (Timed T) → GraphState → Type 0
  Wakes ix state s [] state' = state' ≡ (
      if not s.finished && not s.has_trigger
      then add_callback_for_node ix state.time state
      else state)
  Wakes ix state s ((t, vs) ∷ queue) state' = state' ≡ add_callback_for_node ix t state

  -- What a cycle that does not fail shows and keeps.
  pub record Shows (ix : ℕ) (state : GraphState) (s : ChannelReceiverStream T) (o : Outside)
      (a : After channel) : Type 0 where
    pub taken : List (Message T E)
    pub gave : Gave channel taken o a.outside
    pub acceptable : All (Acceptable channel state.time) taken
    pub up_to_date :
        UpToDate channel state.time
          (ended channel s.finished taken)
          (told channel s.message_time taken)
    pub due : List (Timed T)
    pub all_ : s.queue ++ values_of channel taken ≡ due ++ a.node.queue
    pub in_time : All (λ (v : Timed T). v.0 ≤ state.time) due
    pub rest_later : HeadAfter state.time a.node.queue
    pub wakes : Wakes ix state a.node a.node.queue a.state
    pub result : a.result ≡ ticks (is_nonempty (concat_values due))
    pub shown :
        a.node.value ≡ (if is_nonempty (concat_values due) then concat_values due else s.value)

  -- A cycle fails with an error of the channel, or shows what is due.
  pub data Delivered (ix : ℕ) (state : GraphState) (s : ChannelReceiverStream T) (o : Outside)
      (a : After channel) : Type 0 where
    failed :
        (e : ReadEnd E) (taken : List (Message T E)) (m : Message T E)
        → a.result ≡ fails e
        → Gave channel (taken ++ m ∷ []) o a.outside
        → All (Acceptable channel state.time) taken
        → Cause channel state.time e (m ∷ [])
        → Delivered ix state s o a
    shows : Shows ix state s o a → Delivered ix state s o a
