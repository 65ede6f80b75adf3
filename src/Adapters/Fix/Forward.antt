-- ===== src/Adapters/Fix/Forward.antt =====
-- A round of the session thread forwards the messages that it read, in order.
use wingfoil.Base.{
  ℕ, zero, suc, ◌<◌, ◌≡◌, refl, ap, ◌∙◌, Bool, true, List, [], ◌∷◌, ◌++◌, none, some, All, length,
  arith,
}
use wingfoil.Adapters.Fix.Decimal.{Text}
use wingfoil.Adapters.Fix.Codec.{find_message}
use wingfoil.Adapters.Fix.Message.{Parts}
use wingfoil.Adapters.Fix.Session.{FixEvent, Net}
use wingfoil.Adapters.Fix.Drain.{Inbound}
use wingfoil.Adapters.Fix.Delivery.{IsApplication, stream_of, delivered, drain_parse_buf-delivers}
use wingfoil.Adapters.Fix.Spin.{got, Wire, read_buf_size}
use wingfoil.Adapters.Fix.Reads.{received, at_some}
use wingfoil.Adapters.Fix.Thread.{
  Links, Next, stays, queue_empty, and_then, announced, inject, drained_round, take_bytes,
  forward_events, flush_injected, flush_queue, session_round,
}

module _ (net : Net) (wire : Wire net) (links : Links net) where
  open net use {Socket, Outside}

  -- The world behind the events that the channel took.
  abbrev pub forwarded : List FixEvent → Outside → Outside
  forwarded [] outside = outside
  forwarded (event ∷ events) outside = forwarded events (links.send_event event outside).1

  -- The graph has not closed the channel.
  abbrev pub Open : Type 0
  Open =
      (event : FixEvent) (outside : Outside)
      → links.send_event event outside ≡ (true, (links.send_event event outside).1)

  forward_events-Open :
      (events : List FixEvent) (s : Inbound net)
      → Open
      → forward_events net wire links events s
        ≡ (stays, record s { outside = forwarded events s.outside })
  unfolding forward_events
  forward_events-Open [] s open_ = refl
  forward_events-Open (event ∷ events) s open_ =
      ap
        (λ r.
          and_then net wire links (announced net wire links s r)
            (forward_events net wire links events))
        (open_ event s.outside)
      ∙ forward_events-Open events (record s { outside = (links.send_event event s.outside).1 })
          open_

  take_bytes-delivers :
      (is_acceptor : Bool) (c : Text) (ps : List Parts) (tail : Text) (s : Inbound net)
      (sock : Socket) (last : Outside)
      → All IsApplication ps
      → find_message tail ≡ none
      → s.socket ≡ some sock
      → 0 < length c
      → s.parse_buf ++ c ≡ stream_of ps ++ tail
      → take_bytes net wire links is_acceptor s (got c, last)
        ≡ (stays, received net wire s tail ps last)
  take_bytes-delivers is_acceptor [] ps tail s sock last apps done here more buf =
      absurd (omega (arith, more))
  take_bytes-delivers is_acceptor (b ∷ c) ps tail s sock last apps done here more buf =
      ap (drained_round net wire links) (
        drain_parse_buf-delivers net is_acceptor ps tail
          (record s { parse_buf = s.parse_buf ++ b ∷ c; events = []; outside = last }) sock apps
          done here buf)

  flush_queue-empty :
      (queue : ℕ) (s : Inbound net) (sock : Socket) (last : Outside)
      → s.socket ≡ some sock
      → links.try_recv s.outside ≡ (queue_empty, last)
      → 0 < queue
      → flush_queue net wire links queue s ≡ (stays, record s { outside = last })
  unfolding flush_queue flush_injected
  flush_queue-empty zero s sock last here none_ more = absurd (omega (arith, more))
  flush_queue-empty (suc queue) s sock last here none_ more =
      at_some (stays, s) (λ x. flush_injected net wire links (suc queue) x s) here
      ∙ ap (inject net wire links sock s (flush_injected net wire links queue sock)) none_

  -- If the session thread reads a piece that completes, behind the parse buffer, encoded
  -- application messages (texts UTF-8 without SOH, numbers that fit, extra fields without the
  -- checksum's tag) followed by bytes without a complete message, no outbound message is queued
  -- and the channel to the graph takes every event, then a round of the session loop, in either
  -- role, goes on with the bytes behind the messages in its buffer, after it has put exactly
  -- these messages on the channel in order.
  pub session_round-forwards :
      (is_acceptor : Bool) (queue : ℕ) (c : Text) (ps : List Parts) (tail : Text) (s : Inbound net)
      (sock : Socket) (next last : Outside)
      → All IsApplication ps
      → find_message tail ≡ none
      → s.socket ≡ some sock
      → wire.read sock read_buf_size s.outside ≡ (got c, next)
      → 0 < length c
      → s.parse_buf ++ c ≡ stream_of ps ++ tail
      → links.try_recv next ≡ (queue_empty, last)
      → 0 < queue
      → Open
      → session_round net wire links queue is_acceptor sock s
        ≡ (stays, received net wire s tail ps (forwarded (delivered ps) last))
  unfolding session_round
  session_round-forwards is_acceptor queue c ps tail s sock next last apps done here reads more buf
        empty pos open_ =
      let rest : Inbound net → Next × Inbound net = λ s'.
        and_then net wire links (flush_queue net wire links queue s')
          (λ s''. forward_events net wire links s''.events s'') in
      ap (λ r. and_then net wire links (take_bytes net wire links is_acceptor s r) rest) reads
      ∙ ap (λ r. and_then net wire links r rest)
          (take_bytes-delivers is_acceptor c ps tail s sock next apps done here more buf)
      ∙ ap (λ r. and_then net wire links r (λ s''. forward_events net wire links s''.events s''))
          (flush_queue-empty queue (received net wire s tail ps next) sock last here empty pos)
      ∙ forward_events-Open (delivered ps) (received net wire s tail ps last) open_
