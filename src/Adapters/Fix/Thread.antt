-- ===== src/Adapters/Fix/Thread.antt =====
-- `run_fix_session`, the loop of the session thread.
use wingfoil.Base.{ℕ, zero, suc, Bool, true, false, List, [], ◌∷◌, ◌++◌, none, some, if◌then◌else◌}
use wingfoil.Adapters.Fix.Codec.{FixMessage}
use wingfoil.Adapters.Fix.Session.{
  FixSession, FixSessionStatus, FixEvent, status_event, Io, good, bad, Net, Sent, send, send_logon,
}
use wingfoil.Adapters.Fix.Drain.{Inbound, drain_parse_buf}
use wingfoil.Adapters.Fix.Spin.{Read, got, would_block, failed, Wire, read_buf_size}

pub data Injected : Type 0 where
  injected : FixMessage → Injected
  queue_empty all_dropped : Injected

-- The channel to the graph, which tells whether it is still open, and the queue of outbound messages.
pub record Links (net : Net) : Type 1 where
  pub send_event : FixEvent → net.Outside → Bool × net.Outside
  pub try_recv : net.Outside → Injected × net.Outside

-- Whether the thread goes on, or what it returns; the last case is the end of the fuel.
pub data Next : Type 0 where
  stays : Next
  leaves : Bool → Next
  unfinished : Next

module _ (net : Net) (wire : Wire net) (links : Links net) where
  open net use {Socket, Outside}

  abbrev pub and_then : Next × Inbound net → (Inbound net → Next × Inbound net) → Next × Inbound net
  and_then (stays, s) rest = rest s
  and_then (leaves result, s) rest = (leaves result, s)
  and_then (unfinished, s) rest = (unfinished, s)

  abbrev pub announced : Inbound net → Bool × Outside → Next × Inbound net
  announced s (true, outside) = (stays, record s { outside = outside })
  announced s (false, outside) = (leaves false, record s { outside = outside })

  abbrev pub announce : FixEvent → Inbound net → Next × Inbound net
  announce event s = announced s (links.send_event event s.outside)

  -- The loop over the events of a round.
  unfoldable pub forward_events : List FixEvent → Inbound net → Next × Inbound net
  forward_events [] s = (stays, s)
  forward_events (event ∷ events) s = and_then (announce event s) (forward_events events)

  abbrev pub drained_round : Io Bool × Inbound net → Next × Inbound net
  drained_round (good _, s) = (stays, s)
  drained_round (bad e, s) = (leaves true, s)

  -- A read of the thread: a timeout counts as `would_block`, any other error ends the session.
  abbrev pub take_bytes : Bool → Inbound net → Read × Outside → Next × Inbound net
  take_bytes is_acceptor s (got [], outside) = (leaves true, record s { outside = outside })
  take_bytes is_acceptor s (got (b ∷ bs), outside) = drained_round (
      drain_parse_buf net is_acceptor
        (record s { parse_buf = s.parse_buf ++ b ∷ bs; events = []; outside = outside }))
  take_bytes is_acceptor s (would_block, outside) =
      (stays, record s { events = []; outside = outside })
  take_bytes is_acceptor s (failed e, outside) = (leaves true, record s { outside = outside })

  abbrev written : Inbound net → Sent net → (Inbound net → Next × Inbound net) → Next × Inbound net
  written s (good _, session, outside) rest =
      rest (record s { session = session; outside = outside })
  written s (bad e, session, outside) rest =
      (leaves true, record s { session = session; outside = outside })

  abbrev pub inject :
      Socket
      → Inbound net
      → (Inbound net → Next × Inbound net)
      → Injected × Outside
      → Next × Inbound net
  inject sock s rest (injected msg, outside) =
      written s (send net s.session sock msg.msg_type msg.fields outside) rest
  inject sock s rest (queue_empty, outside) = (stays, record s { outside = outside })
  inject sock s rest (all_dropped, outside) = (stays, record s { outside = outside })

  -- The loop over the queue of outbound messages.
  unfoldable pub flush_injected : ℕ → Socket → Inbound net → Next × Inbound net
  flush_injected zero sock s = (unfinished, s)
  flush_injected (suc fuel) sock s =
      inject sock s (flush_injected fuel sock) (links.try_recv s.outside)

  unfoldable pub flush_queue : ℕ → Inbound net → Next × Inbound net
  unfolding flush_injected
  flush_queue fuel s = elim s.socket [ none ↦ (stays, s) | some sock ↦ flush_injected fuel sock s ]

  unfoldable pub session_round : ℕ → Bool → Socket → Inbound net → Next × Inbound net
  unfolding flush_queue forward_events
  session_round fuel is_acceptor sock s =
      and_then (take_bytes is_acceptor s (wire.read sock read_buf_size s.outside))
        (λ s'. and_then (flush_queue fuel s') (λ s''. forward_events s''.events s''))

  -- The loop of the thread, with fuel for its rounds and for each run over the queue.
  unfoldable pub session_loop : ℕ → ℕ → Bool → Inbound net → Next × Inbound net
  unfolding session_round
  session_loop zero queue is_acceptor s = (unfinished, s)
  session_loop (suc fuel) queue is_acceptor s = elim s.socket [
    | none ↦ (leaves true, s)
    | some sock ↦
        and_then (session_round queue is_acceptor sock s) (session_loop fuel queue is_acceptor)
  ]

  abbrev ignored : Next × Inbound net → Next × Inbound net
  ignored (r, s) = (leaves true, s)

  -- The Logon of an initiator; its failure is announced, and ends the session.
  abbrev logon_sent :
      Inbound net → Sent net → (Inbound net → Next × Inbound net) → Next × Inbound net
  logon_sent s (good _, session, outside) rest =
      rest (record s { session = session; outside = outside })
  logon_sent s (bad e, session, outside) rest = ignored (
      announce (status_event (FixSessionStatus.failed e))
        (record s { session = session; outside = outside }))

  unfoldable pub run_fix_session : ℕ → ℕ → Bool → Socket → FixSession → Outside → Next × Inbound net
  unfolding session_loop
  run_fix_session fuel queue is_acceptor sock session outside =
      let start : Inbound net = record {
        parse_buf = [];
        socket = some sock;
        session = session;
        events = [];
        outside = outside;
      } in
      and_then (announce (status_event FixSessionStatus.logging_in) start) (λ s.
        if is_acceptor
        then session_loop fuel queue is_acceptor s
        else logon_sent s (send_logon net s.session sock s.outside)
            (session_loop fuel queue is_acceptor))
