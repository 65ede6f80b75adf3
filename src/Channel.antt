-- ===== src/Channel.antt =====
-- wingfoil/src/channel and wingfoil/src/nodes/channel.rs: messages between threads, the sending node and
-- the stream that receives. The kanal channel is a parameter.
pub mod Receive
pub mod Messages
pub mod Reads
pub mod Delivers
pub mod Threads
mod Tests
use wingfoil.Base.{ℕ, Bool, true, false, List, [], ◌∷◌, Option, none, some}
use wingfoil.Graph.State.{
  GraphState, RunMode, real_time, historical_from, node_index, node_index_ticked,
}

pub data Message (T E : Type 0) : Type 0 where
  check_point : ℕ → Message T E
  end_of_stream : Message T E
  historical_value : ℕ → List T → Message T E
  realtime_value : T → Message T E
  error : E → Message T E

pub data SendNodeError : Type 0 where
  channel_closed notifier_closed : SendNodeError

pub data SendResult : Type 0 where
  sent : SendResult
  not_sent : SendNodeError → SendResult

-- The two ends of a channel: `send` tells whether the receiver is there, a notifier whether the graph
-- still listens, and a closed channel gives end_of_stream.
pub record Channel (T E : Type 0) : Type 1 where
  pub Outside : Type 0
  pub send : Message T E → Outside → Bool × Outside
  pub notify : Outside → Bool × Outside
  pub try_recv : Outside → Option (Message T E) × Outside
  pub recv : Outside → Message T E × Outside

module _ {T E : Type 0} (channel : Channel T E) where
  open channel use {Outside}

  pub record ChannelSender : Type 0 where
    pub is_open : Bool
    pub has_notifier : Bool

  abbrev notified : Bool × Outside → SendResult × Outside
  notified (true, outside) = (sent, outside)
  notified (false, outside) = (not_sent notifier_closed, outside)

  abbrev notify_if : Bool → Bool × Outside → SendResult × Outside
  notify_if has_notifier_ (false, outside) = (not_sent channel_closed, outside)
  notify_if true (true, outside) = notified (channel.notify outside)
  notify_if false (true, outside) = (sent, outside)

  unfoldable pub send_message : ChannelSender → Message T E → Outside → SendResult × Outside
  send_message s message outside = elim s.is_open [
    | false ↦ (not_sent channel_closed, outside)
    | true ↦ notify_if s.has_notifier (channel.send message outside)
  ]

  abbrev pub message_at : RunMode → ℕ → T → Message T E
  message_at (historical_from _) time value = historical_value time (value ∷ [])
  message_at real_time time value = realtime_value value

  unfoldable pub send : ChannelSender → GraphState → T → Outside → SendResult × Outside
  unfolding send_message
  send s state value outside = send_message s (message_at state.run_mode state.time value) outside

  unfoldable pub send_checkpoint : ChannelSender → GraphState → Outside → SendResult × Outside
  unfolding send_message
  send_checkpoint s state outside = send_message s (check_point state.time) outside

  abbrev ignored : SendResult × Outside → Outside
  ignored (r, outside) = outside

  unfoldable pub close : ChannelSender → Outside → ChannelSender × Outside
  unfolding send_message
  close s outside = elim s.is_open [
    | false ↦ (s, outside)
    | true ↦ (record s { is_open = false }, ignored (send_message s end_of_stream outside))
  ]

  pub record SenderNode : Type 0 where
    pub source : ℕ
    pub sender : ChannelSender
    pub has_trigger : Bool
    pub source_index : Option ℕ

  pub data SenderCycle : Type 0 where
    panicked no_trigger : SenderCycle
    cycled : Bool → SenderCycle
    send_failed : SendNodeError → SenderCycle

  abbrev result_of : Bool → SendResult × Outside → SenderCycle × Outside
  result_of ticked (sent, outside) = (cycled ticked, outside)
  result_of ticked (not_sent e, outside) = (send_failed e, outside)

  -- The index of the source, looked up in the first cycle.
  abbrev source_of : SenderNode → GraphState → Option ℕ
  source_of n state = elim n.source_index [ some ix ↦ some ix | none ↦ node_index n.source state ]

  abbrev send_or_checkpoint : SenderNode → GraphState → T → Bool → Outside → SenderCycle × Outside
  send_or_checkpoint n state value true outside = result_of true (send n.sender state value outside)
  send_or_checkpoint n state value false outside = elim n.has_trigger [
    | true ↦ result_of false (send_checkpoint n.sender state outside)
    | false ↦ (no_trigger, outside)
  ]

  -- `value` is what the source shows.
  unfoldable pub sender_cycle :
      SenderNode → GraphState → T → Outside → SenderCycle × SenderNode × Outside
  unfolding send send_checkpoint
  sender_cycle n state value outside = elim (source_of n state) [
    | none ↦ (panicked, n, outside)
    | some ix ↦ elim (node_index_ticked ix state) [
      | none ↦ (panicked, record n { source_index = some ix }, outside)
      | some ticked ↦
          let (r, outside') = send_or_checkpoint n state value ticked outside in
          (r, record n { source_index = some ix }, outside')
    ]
  ]

  unfoldable pub sender_stop : SenderNode → Outside → SendResult × Outside
  unfolding send_message
  sender_stop n outside = send_message n.sender end_of_stream outside
