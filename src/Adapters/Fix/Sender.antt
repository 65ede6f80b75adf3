-- ===== src/Adapters/Fix/Sender.antt =====
-- `FixSenderNode`, a sink that writes the messages of its source in its cycle.
use wingfoil.Base.{ℕ, Bool, true, false, [], ◌∷◌, Option, none, some}
use wingfoil.Adapters.Fix.Decimal.{Text}
use wingfoil.Adapters.Fix.Codec.{FixMessage}
use wingfoil.Adapters.Fix.Session.{Io, good, bad, Net, Sent, send}
use wingfoil.Adapters.Fix.Drain.{Inbound, drain_parse_buf}
use wingfoil.Adapters.Fix.Spin.{Wire, Reading, paused, ended, broken, unfinished, read_loop}

abbrev connection_lost : Text
connection_lost = b'l' ∷ b'o' ∷ b's' ∷ b't' ∷ []

-- The events of a round are dropped; `Inbound` holds them until the next.
module _ (net : Net) (wire : Wire net) where
  open net use {Socket, Outside}

  -- An end of file and an error close the connection.
  abbrev kept_socket : Reading → Socket → Option Socket
  kept_socket paused sock = some sock
  kept_socket unfinished sock = some sock
  kept_socket ended sock = none
  kept_socket (broken e) sock = none

  abbrev replies_read : Inbound net → Socket → Reading × Text × Outside → Reading × Inbound net
  replies_read s sock (r, parse_buf, outside) =
      (r, record s { parse_buf = parse_buf; socket = kept_socket r sock; outside = outside })

  unfoldable pub read_replies : ℕ → Inbound net → Reading × Inbound net
  read_replies fuel s = elim s.socket [
    | none ↦ (paused, s)
    | some sock ↦ replies_read s sock (read_loop net wire fuel sock s.parse_buf s.outside)
  ]

  -- The socket is taken for the cycle, and put back behind a write that succeeds.
  abbrev sent_over : Inbound net → Socket → Sent net → Option (Io Bool) × Inbound net
  sent_over s sock (good _, session, outside) =
      (some (good true), record s { socket = some sock; session = session; outside = outside })
  sent_over s sock (bad e, session, outside) =
      (some (bad e), record s { socket = none; session = session; outside = outside })

  abbrev send_behind : FixMessage → Io Bool × Inbound net → Option (Io Bool) × Inbound net
  send_behind msg (bad e, s) = (some (bad e), record s { socket = none })
  send_behind msg (good _, s) = elim s.socket [
    | none ↦ (some (bad connection_lost), s)
    | some sock ↦ sent_over s sock (send net s.session sock msg.msg_type msg.fields s.outside)
  ]

  abbrev answer : FixMessage → Reading × Inbound net → Option (Io Bool) × Inbound net
  answer msg (unfinished, s) = (none, s)
  answer msg (paused, s) = send_behind msg (drain_parse_buf net false (record s { events = [] }))
  answer msg (ended, s) = send_behind msg (drain_parse_buf net false (record s { events = [] }))
  answer msg (broken e, s) = send_behind msg (drain_parse_buf net false (record s { events = [] }))

  -- Without a value where the fuel of the reads ran out.
  unfoldable pub sender_cycle : ℕ → FixMessage → Inbound net → Option (Io Bool) × Inbound net
  unfolding read_replies
  sender_cycle fuel msg s = answer msg (read_replies fuel s)
