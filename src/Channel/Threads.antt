-- ===== src/Channel/Threads.antt =====
-- wingfoil/src/nodes/receiver.rs: `ReceiverStream`, which reads what a thread of its own produces.
use wingfoil.Base.{ℕ, Bool, true, false, Option, none, some}
use wingfoil.Graph.State.{GraphState}
use wingfoil.Channel.{Channel}
use wingfoil.Channel.Receive.{ChannelReceiverStream, Cycled, ticks, After, cycle}

-- How a thread ended.
pub data Joined (E : Type 0) : Type 0 where
  thread_panicked : Joined E
  returned_err : E → Joined E
  returned_ok : Joined E

pub data ThreadError (E : Type 0) : Type 0 where
  panic_error : ThreadError E
  own_error : E → ThreadError E
  exited_unexpectedly : ThreadError E
  not_running : ThreadError E

-- The function that is not started yet, the running thread, or what is left of it.
pub data State : Type 0 where
  func join_handle done empty : State

-- What the graph sees of the thread: how it ended, if it has.
pub record Thread (T E : Type 0) (channel : Channel T E) : Type 1 where
  pub ended : channel.Outside → Option (Joined E)
  pub wait : channel.Outside → Joined E × channel.Outside
  pub spawn : channel.Outside → channel.Outside
  pub notify_self : channel.Outside → channel.Outside
  pub signal_stop : channel.Outside → channel.Outside

pub record ReceiverStream (T E : Type 0) : Type 0 where
  pub inner : ChannelReceiverStream T
  pub has_sender : Bool
  pub state : State
  pub assert_realtime : Bool
  pub pending_err : Option (ThreadError E)
  pub has_notifier : Bool

abbrev joined_check : {E : Type 0} → Bool → Joined E → Option (ThreadError E) × State
joined_check finished thread_panicked = (some panic_error, empty)
joined_check finished (returned_err e) = (some (own_error e), empty)
joined_check true returned_ok = (none, done)
joined_check false returned_ok = (some exited_unexpectedly, empty)

-- `none` for no error.
unfoldable pub check_running :
    {E : Type 0} → State → Bool → Option (Joined E) → Option (ThreadError E) × State
check_running join_handle finished (some j) = joined_check finished j
check_running join_handle finished none = (none, join_handle)
check_running done finished ended = (none, done)
check_running func finished ended = (some not_running, func)
check_running empty finished ended = (some not_running, empty)

module _ {T E : Type 0} (channel : Channel T E) (thread : Thread T E channel) where
  open channel use {Outside}

  pub data Outcome : Type 0 where
    inner_result : Cycled channel → Outcome
    thread_failed : ThreadError E → Outcome

  pub record Result : Type 0 where
    pub outcome : Outcome
    pub node : ReceiverStream T E
    pub state : GraphState
    pub outside : Outside

  -- The error is kept for the next cycle, which it asks for.
  abbrev deferred : ReceiverStream T E → After channel → Option (ThreadError E) × State → Result
  deferred n a (none, s) = record {
    outcome = inner_result a.result;
    node = record n { inner = a.node; state = s };
    state = a.state;
    outside = a.outside;
  }
  deferred n a (some e, s) = record {
    outcome = inner_result a.result;
    node = record n { inner = a.node; state = s; pending_err = some e };
    state = a.state;
    outside = elim n.has_notifier [ true ↦ thread.notify_self a.outside | false ↦ a.outside ];
  }

  abbrev checked : ReceiverStream T E → After channel → Cycled channel → Result
  checked n a (ticks b) =
      deferred n a (check_running n.state a.node.finished (thread.ended a.outside))
  checked n a failure = record {
    outcome = inner_result failure;
    node = record n { inner = a.node };
    state = a.state;
    outside = a.outside;
  }

  unfoldable pub receiver_cycle : ℕ → GraphState → ReceiverStream T E → Outside → Result
  unfolding cycle check_running
  receiver_cycle fuel state_ n outside_ = elim n.pending_err [
    | some e ↦ record {
      outcome = thread_failed e;
      node = record n { pending_err = none };
      state = state_;
      outside = outside_;
    }
    | none ↦ let a = cycle channel fuel state_ n.inner outside_ in checked n a a.result
  ]

  abbrev stop_result : Joined E → Option (ThreadError E)
  stop_result thread_panicked = some panic_error
  stop_result (returned_err e) = some (own_error e)
  stop_result returned_ok = none

  -- `stop`: the flag is raised, and the thread joined.
  unfoldable pub receiver_stop :
      ReceiverStream T E → Outside → Option (ThreadError E) × ReceiverStream T E × Outside
  receiver_stop n outside_ =
      let stopped : ReceiverStream T E = record n { state = empty } in
      let outside' = thread.signal_stop outside_ in
      elim n.state [
        | join_handle ↦
            let (j, outside'') = thread.wait outside' in (stop_result j, stopped, outside'')
        | func ↦ (none, stopped, outside')
        | done ↦ (none, stopped, outside')
        | empty ↦ (none, stopped, outside')
      ]
