-- ===== src/Channel/Tests.antt =====
-- The theorems on channels, for a channel that holds the messages that are still to come.
use wingfoil.Base.{ℕ, ◌≡◌, refl, true, false, List, [], ◌∷◌, ◌++◌, Option, none, some, length}
use wingfoil.Graph.State.{GraphState, new_state, historical_from, forever}
use wingfoil.Channel.{Message, Channel, end_of_stream, historical_value}
use wingfoil.Channel.Receive.{
  ChannelReceiverStream, cycle, ticks, historical_reads, take_due, next_read, deliver,
}

abbrev next_message : List (Message ℕ ℕ) → Message ℕ ℕ × List (Message ℕ ℕ)
next_message [] = (end_of_stream, [])
next_message (m ∷ ms) = (m, ms)

abbrev next_if_any : List (Message ℕ ℕ) → Option (Message ℕ ℕ) × List (Message ℕ ℕ)
next_if_any [] = (none, [])
next_if_any (m ∷ ms) = (some m, ms)

abbrev pipe : Channel ℕ ℕ
pipe = record {
  Outside = List (Message ℕ ℕ);
  send = λ m o. (true, o ++ m ∷ []);
  notify = λ o. (true, o);
  try_recv = next_if_any;
  recv = next_message;
}

abbrev size : List (Message ℕ ℕ) → ℕ
size o = length o

abbrev at_five : GraphState
at_five = record (new_state (historical_from 1) forever 1) { time = 5; current_node_index = some 0 }

abbrev receiver : ChannelReceiverStream ℕ
receiver = record {
  has_trigger = false;
  value = [];
  finished = false;
  message_time = none;
  queue = [];
}

-- Two bursts that are due and one that is not.
abbrev coming : List (Message ℕ ℕ)
coming =
    historical_value 5 (1 ∷ []) ∷ historical_value 5 (2 ∷ 3 ∷ []) ∷ historical_value 8 (4 ∷ []) ∷ []

coming_shown : (cycle pipe 6 at_five receiver coming).result ≡ ticks true
unfolding cycle historical_reads next_read deliver take_due new_state
    wingfoil.Graph.State.add_callback
coming_shown = refl
