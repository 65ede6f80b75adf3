-- ===== src/Channel/Receive.antt =====
-- `ChannelReceiverStream` of wingfoil/src/nodes/channel.rs: what arrives is shown in the cycle of its
-- time.
use wingfoil.Base.{
  ℕ, zero, suc, Bool, true, false, not, ◌&&◌, List, [], ◌∷◌, ◌++◌, Option, none, some, ltb, leb,
  ◌==◌, if◌then◌else◌,
}
use wingfoil.Graph.State.{GraphState, real_time, historical_from, add_callback}
use wingfoil.Channel.{
  Message, check_point, end_of_stream, historical_value, realtime_value, error, Channel,
}

-- A `ValueAt<Burst<T>>`.
abbrev pub Timed : Type 0 → Type 0
Timed T = ℕ × List T

pub record ChannelReceiverStream (T : Type 0) : Type 0 where
  pub has_trigger : Bool
  pub value : List T
  pub finished : Bool
  pub message_time : Option ℕ
  pub queue : List (Timed T)

-- How the reads of a cycle end; the last case is the end of their fuel.
pub data ReadEnd (E : Type 0) : Type 0 where
  drained : ReadEnd E
  sent_error : E → ReadEnd E
  realtime_in_history : ReadEnd E
  too_late : ℕ → ReadEnd E
  unfinished : ReadEnd E

-- How the next message is read, if at all.
pub data NextRead : Type 0 where
  stop_reading : NextRead
  non_blocking : NextRead
  blocking : NextRead

unfoldable pub next_read : {T : Type 0} → ℕ → ChannelReceiverStream T → NextRead
next_read now s = if s.finished then stop_reading else elim s.message_time [
  | none ↦ blocking
  | some t ↦
      if ltb now t
      then stop_reading
      else if t == now
      then (if s.has_trigger then stop_reading else non_blocking)
      else blocking
]

abbrev pub concat_values : {T : Type 0} → List (Timed T) → List T
concat_values [] = []
concat_values ((t, vs) ∷ due) = vs ++ concat_values due

-- The loop over the queue: what is due, and what is left.
unfoldable pub take_due : {T : Type 0} → ℕ → List (Timed T) → List (Timed T) × List (Timed T)
take_due now [] = ([], [])
take_due now ((t, vs) ∷ queue) =
    let (due, later) = take_due now queue in
    if leb t now then ((t, vs) ∷ due, later) else ([], (t, vs) ∷ queue)

module _ {T E : Type 0} (channel : Channel T E) where
  open channel use {Outside}

  abbrev pub Reads : Type 0
  Reads = ReadEnd E × ChannelReceiverStream T × Outside

  -- A message of a historical run, given what goes on with it.
  abbrev pub take_message :
      ℕ
      → ChannelReceiverStream T
      → (ChannelReceiverStream T → Outside → Reads)
      → Message T E × Outside
      → Reads
  take_message now s rest (realtime_value v, outside) = (realtime_in_history, s, outside)
  take_message now s rest (historical_value t vs, outside) =
      if ltb t now
      then (too_late t, s, outside)
      else rest (record s { message_time = some t; queue = s.queue ++ (t, vs) ∷ [] }) outside
  take_message now s rest (end_of_stream, outside) = rest (record s { finished = true }) outside
  take_message now s rest (check_point t, outside) =
      rest (record s { message_time = some t }) outside
  take_message now s rest (error e, outside) = (sent_error e, s, outside)

  abbrev pub take_if_any :
      ℕ
      → ChannelReceiverStream T
      → (ChannelReceiverStream T → Outside → Reads)
      → Option (Message T E) × Outside
      → Reads
  take_if_any now s rest (none, outside) = (drained, s, outside)
  take_if_any now s rest (some message, outside) = take_message now s rest (message, outside)

  unfoldable pub historical_reads : ℕ → ℕ → ChannelReceiverStream T → Outside → Reads
  unfolding next_read
  historical_reads zero now s outside = (unfinished, s, outside)
  historical_reads (suc fuel) now s outside = elim (next_read now s) [
    | stop_reading ↦ (drained, s, outside)
    | non_blocking ↦ take_if_any now s (historical_reads fuel now) (channel.try_recv outside)
    | blocking ↦ take_message now s (historical_reads fuel now) (channel.recv outside)
  ]

  -- A read of a real-time run, with the values so far.
  abbrev pub take_now :
      ChannelReceiverStream T
      → List T
      → (ChannelReceiverStream T
          → List T
          → Outside
          → ReadEnd E × List T × ChannelReceiverStream T × Outside)
      → Option (Message T E) × Outside
      → ReadEnd E × List T × ChannelReceiverStream T × Outside
  take_now s values rest (none, outside) = (drained, values, s, outside)
  take_now s values rest (some (realtime_value v), outside) = rest s (values ++ v ∷ []) outside
  take_now s values rest (some (historical_value t vs), outside) = rest s (values ++ vs) outside
  take_now s values rest (some end_of_stream, outside) =
      rest (record s { finished = true }) values outside
  take_now s values rest (some (check_point t), outside) = rest s values outside
  take_now s values rest (some (error e), outside) = (sent_error e, values, s, outside)

  unfoldable pub realtime_reads :
      ℕ
      → ChannelReceiverStream T
      → List T
      → Outside
      → ReadEnd E × List T × ChannelReceiverStream T × Outside
  realtime_reads zero s values outside = (unfinished, values, s, outside)
  realtime_reads (suc fuel) s values outside = elim s.finished [
    | true ↦ (drained, values, s, outside)
    | false ↦ take_now s values (realtime_reads fuel) (channel.try_recv outside)
  ]

  pub data Cycled : Type 0 where
    ticks : Bool → Cycled
    fails : ReadEnd E → Cycled
    panicked : Cycled

  pub record After : Type 0 where
    pub result : Cycled
    pub node : ChannelReceiverStream T
    pub state : GraphState
    pub outside : Outside

  abbrev pub after : Cycled → ChannelReceiverStream T → GraphState → Outside → After
  after result_ node_ state_ outside_ = record {
    result = result_;
    node = node_;
    state = state_;
    outside = outside_;
  }

  -- The new values are shown, if there are any.
  abbrev pub show : List T → ChannelReceiverStream T → GraphState → Outside → After
  show [] s state_ outside_ = after (ticks false) s state_ outside_
  show (v ∷ vs) s state_ outside_ = after (ticks true) (record s { value = v ∷ vs }) state_ outside_

  abbrev pub show_if :
      List T → ChannelReceiverStream T → GraphState → Outside → Option GraphState → After
  show_if values s state_ outside_ none = after panicked s state_ outside_
  show_if values s state_ outside_ (some state') = show values s state' outside_

  -- The next wakeup: at the next value, or at once if one has to wait for it.
  abbrev pub wake : GraphState → ChannelReceiverStream T → Option GraphState
  wake state_ s = elim s.queue [
    | [] ↦
        if not s.finished && not s.has_trigger then add_callback state_.time state_ else some state_
    | (t, vs) ∷ later ↦ add_callback t state_
  ]

  abbrev pub unwait : ChannelReceiverStream T → ChannelReceiverStream T
  unwait s = elim s.queue [ [] ↦ record s { message_time = none } | _ ∷ _ ↦ s ]

  -- What a cycle does behind the reads.
  unfoldable pub deliver : GraphState → Reads → After
  unfolding take_due
  deliver state_ (drained, s, outside_) =
      let (due, later) = take_due state_.time s.queue in
      let s' : ChannelReceiverStream T = record s { queue = later } in
      show_if (concat_values due) (unwait s') state_ outside_ (wake state_ s')
  deliver state_ (sent_error e, s, outside_) = after (fails (sent_error e)) s state_ outside_
  deliver state_ (realtime_in_history, s, outside_) =
      after (fails realtime_in_history) s state_ outside_
  deliver state_ (too_late t, s, outside_) = after (fails (too_late t)) s state_ outside_
  deliver state_ (unfinished, s, outside_) = after (fails unfinished) s state_ outside_

  abbrev pub show_now : GraphState → ReadEnd E × List T × ChannelReceiverStream T × Outside → After
  show_now state_ (drained, values, s, outside_) = show values s state_ outside_
  show_now state_ (e, values, s, outside_) = after (fails e) s state_ outside_

  -- A failure `unfinished` is the end of the fuel, not one of the code.
  unfoldable pub cycle : ℕ → GraphState → ChannelReceiverStream T → Outside → After
  unfolding historical_reads realtime_reads deliver
  cycle fuel state_ s outside_ = elim state_.run_mode [
    | real_time ↦ show_now state_ (realtime_reads fuel s [] outside_)
    | historical_from _ ↦ deliver state_ (historical_reads fuel state_.time s outside_)
  ]
