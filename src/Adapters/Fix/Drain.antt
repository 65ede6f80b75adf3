-- ===== src/Adapters/Fix/Drain.antt =====
-- `drain_parse_buf`, the loop over the complete messages of the parse buffer, and `split_events`.
use wingfoil.Base.{
  ℕ, zero, suc, Bool, List, [], ◌∷◌, ◌++◌, Option, none, some, ltb, if◌then◌else◌, length, drop,
}
use wingfoil.Adapters.Fix.Decimal.{Text}
use wingfoil.Adapters.Fix.Codec.{FixMessage, build_message, decode_fields, find_message}
use wingfoil.Adapters.Fix.Session.{
  FixSession, FixEvent, FixSessionStatus, data_event, status_event, Io, good, bad, Net, Handled,
  handle_initiator, handle_acceptor,
}

module _ (net : Net) where
  open net use {Socket, Outside}

  pub record Inbound : Type 0 where
    pub parse_buf : Text
    pub socket : Option Socket
    pub session : FixSession
    pub events : List FixEvent
    pub outside : Outside

  unfoldable pub handle :
      Bool → FixSession → FixMessage → Socket → List FixEvent → Outside → Handled net
  handle is_acceptor session msg sock events outside =
      if is_acceptor
      then handle_acceptor net session msg sock events outside
      else handle_initiator net session msg sock events outside

  -- The socket is taken for the time of the handler, and put back unless that fails.
  abbrev pub dispatched : Inbound → FixMessage → Socket → Handled net → Io (Unit {0}) × Inbound
  dispatched s msg sock h = elim h.pass [
    | bad e ↦ (
      bad e,
      record s { socket = none; session = h.session; events = h.events; outside = h.outside },
    )
    | good pass ↦ (
      good tt,
      record s {
        socket = some sock;
        session = h.session;
        events = if pass then h.events ++ data_event msg ∷ [] else h.events;
        outside = h.outside;
      },
    )
  ]

  -- One message of the buffer; without a socket it is dropped.
  unfoldable pub dispatch : Bool → Inbound → Text → Io (Unit {0}) × Inbound
  dispatch is_acceptor s msg_bytes = elim (build_message (decode_fields msg_bytes)) [
    | none ↦ (good tt, s)
    | some msg ↦ elim s.socket [
      | none ↦ (good tt, s)
      | some sock ↦ dispatched s msg sock (handle is_acceptor s.session msg sock s.events s.outside)
    ]
  ]

  -- Goes on with the state of a round unless that failed.
  abbrev pub unless_bad :
      Io (Unit {0}) × Inbound → (Inbound → Io (Unit {0}) × Inbound) → Io (Unit {0}) × Inbound
  unless_bad (bad e, s) rest = (bad e, s)
  unless_bad (good _, s) rest = rest s

  unfoldable pub drain_on : ℕ → Bool → Inbound → Io (Unit {0}) × Inbound
  drain_on zero is_acceptor s = (good tt, s)
  drain_on (suc fuel) is_acceptor s = elim (find_message s.parse_buf) [
    | none ↦ (good tt, s)
    | some (msg_bytes, consumed) ↦
        unless_bad
          (dispatch is_acceptor (record s { parse_buf = drop consumed s.parse_buf }) msg_bytes)
          (drain_on fuel is_acceptor)
  ]

  abbrev pub pushed : ℕ → Io (Unit {0}) × Inbound → Io Bool × Inbound
  pushed before (bad e, s) = (bad e, s)
  pushed before (good _, s) = (good (ltb before (length s.events)), s)

  -- A message takes at least one byte of the buffer.
  unfoldable pub drain_parse_buf : Bool → Inbound → Io Bool × Inbound
  unfolding drain_on
  drain_parse_buf is_acceptor s =
      pushed (length s.events) (drain_on (length s.parse_buf) is_acceptor s)

-- The closures of `split_events`: the values and whether the stream ticks.
abbrev pub data_of : List FixEvent → List FixMessage
data_of [] = []
data_of (data_event m ∷ events) = m ∷ data_of events
data_of (status_event s ∷ events) = data_of events

abbrev pub status_of : List FixEvent → List FixSessionStatus
status_of [] = []
status_of (data_event m ∷ events) = status_of events
status_of (status_event s ∷ events) = s ∷ status_of events

unfoldable pub split_data : List FixEvent → List FixMessage × Bool
split_data burst = (data_of burst, ltb 0 (length (data_of burst)))

unfoldable pub split_status : List FixEvent → List FixSessionStatus × Bool
split_status burst = (status_of burst, ltb 0 (length (status_of burst)))
