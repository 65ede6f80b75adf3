-- ===== src/Adapters/Fix/Spin.antt =====
-- `FixSpinSource` and `FixAcceptorSpin`: sessions whose socket is read in every cycle of the graph.
use wingfoil.Base.{ℕ, zero, suc, Bool, true, false, ◌||◌, [], ◌∷◌, ◌++◌, Option, none, some}
use wingfoil.Adapters.Fix.Decimal.{Text}
use wingfoil.Adapters.Fix.Session.{FixSessionStatus, Io, good, bad, Net, Sent, send_logout, status}
use wingfoil.Adapters.Fix.Drain.{Inbound, drain_parse_buf}

pub data Read : Type 0 where
  got : Text → Read
  would_block : Read
  failed : Text → Read

pub data Accepted (Socket : Type 0) : Type 0 where
  connection : Socket → Accepted Socket
  no_connection : Accepted Socket
  accept_failed : Text → Accepted Socket

-- The `Read` half of a socket with its mode, and the listener.
pub record Wire (net : Net) : Type 1 where
  pub Listener : Type 0
  pub read : net.Socket → ℕ → net.Outside → Read × net.Outside
  pub set_nonblocking : net.Socket → net.Outside → Io (Unit {0}) × net.Outside
  pub accept : Listener → net.Outside → Accepted net.Socket × net.Outside

-- How the loop over the reads ends; the last case is the end of its fuel.
pub data Reading : Type 0 where
  paused ended : Reading
  broken : Text → Reading
  unfinished : Reading

abbrev pub read_buf_size : ℕ
read_buf_size = 4096

module _ (net : Net) (wire : Wire net) where
  open net use {Socket, Outside}

  -- A round of the loop, given what goes on with it.
  abbrev pub after_read :
      Text → (Text → Outside → Reading × Text × Outside) → Read × Outside → Reading × Text × Outside
  after_read parse_buf rest (got [], outside) = (ended, parse_buf, outside)
  after_read parse_buf rest (got (b ∷ bs), outside) = rest (parse_buf ++ b ∷ bs) outside
  after_read parse_buf rest (would_block, outside) = (paused, parse_buf, outside)
  after_read parse_buf rest (failed e, outside) = (broken e, parse_buf, outside)

  unfoldable pub read_loop : ℕ → Socket → Text → Outside → Reading × Text × Outside
  read_loop zero sock parse_buf outside = (unfinished, parse_buf, outside)
  read_loop (suc fuel) sock parse_buf outside =
      after_read parse_buf (read_loop fuel sock) (wire.read sock read_buf_size outside)

  abbrev pub bytes_read : Inbound net → Reading × Text × Outside → Reading × Inbound net
  bytes_read s (r, parse_buf, outside) = (r, record s { parse_buf = parse_buf; outside = outside })

  unfoldable pub read_phase : ℕ → Inbound net → Reading × Inbound net
  unfolding read_loop
  read_phase fuel s = elim s.socket [
    | none ↦ (paused, s)
    | some sock ↦ bytes_read s (read_loop fuel sock s.parse_buf s.outside)
  ]

  abbrev pub finished : Io Bool × Inbound net → Option (Io Bool) × Inbound net
  finished (r, s) = (some r, s)

  abbrev pub disconnect : Inbound net → Inbound net
  disconnect s = record s {
    socket = none;
    events = status net s.events FixSessionStatus.disconnected;
  }

  -- What the initiator does behind the reads.
  abbrev pub initiate : Reading × Inbound net → Option (Io Bool) × Inbound net
  initiate (paused, s) = finished (drain_parse_buf net false s)
  initiate (ended, s) = (some (good true), disconnect s)
  initiate (broken e, s) = (some (bad e), s)
  initiate (unfinished, s) = (none, s)

  -- Without a value where the fuel of the reads ran out.
  unfoldable pub initiator_cycle : ℕ → Inbound net → Option (Io Bool) × Inbound net
  unfolding read_phase
  initiator_cycle fuel s = initiate (read_phase fuel (record s { events = [] }))

  pub record FixAcceptorSpin : Type 0 where
    pub listener : Option wire.Listener
    pub inbound : Inbound net

  -- Whether a connection came, or why the cycle fails.
  unfoldable pub accept_phase : FixAcceptorSpin → Io Bool × Inbound net
  accept_phase node =
      let s = node.inbound in
      elim s.socket [
        | some _ ↦ (good false, s)
        | none ↦ elim node.listener [
          | none ↦ (good false, s)
          | some listener ↦
              let (r, outside) = wire.accept listener s.outside in
              elim r [
                | connection sock ↦
                    let (mode, outside') = wire.set_nonblocking sock outside in
                    elim mode [
                      | bad e ↦ (bad e, record s { outside = outside' })
                      | good _ ↦ (
                        good true,
                        record s {
                          socket = some sock;
                          events = status net s.events FixSessionStatus.logging_in;
                          outside = outside';
                        },
                      )
                    ]
                | no_connection ↦ (good false, record s { outside = outside })
                | accept_failed e ↦ (bad e, record s { outside = outside })
              ]
        ]
      ]

  abbrev pub ticked_too : Bool → Io Bool × Inbound net → Option (Io Bool) × Inbound net
  ticked_too ticked (bad e, s) = (some (bad e), s)
  ticked_too ticked (good msg_ticked, s) = (some (good (ticked || msg_ticked)), s)

  -- What the acceptor does behind the reads.
  abbrev pub accept_messages : Bool → Reading × Inbound net → Option (Io Bool) × Inbound net
  accept_messages ticked (paused, s) = ticked_too ticked (drain_parse_buf net true s)
  accept_messages ticked (ended, s) = ticked_too true (drain_parse_buf net true (disconnect s))
  accept_messages ticked (broken e, s) = (some (bad e), s)
  accept_messages ticked (unfinished, s) = (none, s)

  abbrev pub after_accept : ℕ → Io Bool × Inbound net → Option (Io Bool) × Inbound net
  after_accept fuel (bad e, s) = (some (bad e), s)
  after_accept fuel (good ticked, s) = accept_messages ticked (read_phase fuel s)

  abbrev pub with_inbound :
      FixAcceptorSpin → Option (Io Bool) × Inbound net → Option (Io Bool) × FixAcceptorSpin
  with_inbound node (r, s) = (r, record node { inbound = s })

  unfoldable pub acceptor_cycle : ℕ → FixAcceptorSpin → Option (Io Bool) × FixAcceptorSpin
  unfolding accept_phase read_phase
  acceptor_cycle fuel node =
      let cleared : Inbound net = record (node.inbound) { events = [] } in
      with_inbound node (after_accept fuel (accept_phase (record node { inbound = cleared })))

  abbrev logged_out_of : Inbound net → Sent net → Inbound net
  logged_out_of s (r, session, outside) = record s {
    socket = none;
    session = session;
    outside = outside;
  }

  -- `stop` of both: the result of the logout is dropped.
  unfoldable pub stop : Inbound net → Inbound net
  stop s = elim s.socket [
    | none ↦ s
    | some sock ↦ logged_out_of s (send_logout net s.session sock s.outside)
  ]
