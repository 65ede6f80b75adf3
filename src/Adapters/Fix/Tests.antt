-- ===== src/Adapters/Fix/Tests.antt =====
-- The theorems on FIX at two small messages.
use wingfoil.Base.{
  ℕ, ◌≡◌, ◌≢◌, refl, [], ◌∷◌, ◌++◌, none, some, true, false, ◌<◌, List, arith, length, All, ltb,
  take, drop, filter_by,
}
use wingfoil.Adapters.Fix.Decimal.{Text}
use wingfoil.Adapters.Fix.Codec.{
  FixMessage, utf8_on, is_utf8, append_all, decode_fields, is_application, build_message,
  encode_message, find_message, trailer_at, starts_trailer,
}
use wingfoil.Adapters.Fix.RoundTrip.{FieldOk, decode_fields-append_all}
use wingfoil.Adapters.Fix.Message.{Parts, PartsOk, encoded, build_message-encode_message}
use wingfoil.Adapters.Fix.Session.{FixLogon, FixSessionStatus, good, Net}
use wingfoil.Adapters.Fix.Drain.{Inbound, drain_parse_buf}
use wingfoil.Adapters.Fix.Stream.{Drained, drain_parse_buf-Drained}
use wingfoil.Adapters.Fix.Delivery.{
  IsApplication, stream_of, delivered, after, drain_parse_buf-delivers,
}
use wingfoil.Adapters.Fix.Spin.{
  Read, got, would_block, Accepted, Wire, FixAcceptorSpin, acceptor_cycle, initiator_cycle,
}
use wingfoil.Adapters.Fix.Thread.{Links, queue_empty, stays, session_round}
use wingfoil.Adapters.Fix.Forward.{forwarded, session_round-forwards}
use wingfoil.Adapters.Fix.Reads.{received, cycle-delivers}
use wingfoil.Adapters.Fix.Subscribe.{Node, contains, cycle}
use wingfoil.Adapters.Fix.Unique.{Unique}
use wingfoil.Adapters.Fix.Requested.{offers}
use wingfoil.Adapters.Fix.Subscribed.{cycle-Unique}

abbrev two_fields : List (ℕ × Text)
two_fields = (55, b'E' ∷ b'U' ∷ []) ∷ (262, b's' ∷ b'=' ∷ b'1' ∷ []) ∷ []

two-FieldOk : All FieldOk two_fields
unfolding is_utf8 utf8_on
two-FieldOk = ((omega arith, (refl, refl)), ((omega arith, (refl, refl)), tt))

two_fields_decode : decode_fields (append_all [] two_fields) ≡ two_fields
two_fields_decode = decode_fields-append_all two_fields two-FieldOk

-- An order from A to B.
abbrev order : Parts
order = record {
  msg_type = b'D' ∷ [];
  sender = b'A' ∷ [];
  target = b'B' ∷ [];
  seq = 7;
  sending_time = b'0' ∷ [];
  extra = two_fields;
}

order-PartsOk : PartsOk order
unfolding is_utf8 utf8_on
order-PartsOk = record {
  type_ok = (refl, refl);
  sender_ok = (refl, refl);
  target_ok = (refl, refl);
  seq_ok = omega arith;
  time_ok = (refl, refl);
  extra_ok = two-FieldOk;
}

two_tags : All (λ (f : ℕ × Text). f.0 ≢ 10) two_fields
two_tags = ((λ e. omega (arith, e)), ((λ e. omega (arith, e)), tt))

build_message-encode_message_example :
    build_message (decode_fields (encoded order))
    ≡ some record {
      msg_type = order.msg_type;
      seq_num = order.seq;
      sending_time = 0;
      fields = filter_by is_application order.extra;
    }
build_message-encode_message_example = build_message-encode_message order order-PartsOk

-- Sockets that take all, and a clock that stands still.
abbrev quiet_net : Net
quiet_net = record {
  Socket = Unit;
  Outside = Unit;
  now_sending_time = λ o. (b'0' ∷ [], o);
  write_all = λ _ _ o. (good tt, o);
  flush = λ _ o. (good tt, o);
}

-- Two orders and the first byte of a third.
abbrev arrived : Inbound quiet_net
arrived = record {
  parse_buf = stream_of (order ∷ order ∷ []) ++ b'8' ∷ [];
  socket = some tt;
  session = record {
    sender_comp_id = b'B' ∷ [];
    target_comp_id = b'A' ∷ [];
    out_seq = 0;
    logon = FixLogon.no_logon;
  };
  events = [];
  outside = tt;
}

order-IsApplication : IsApplication order
order-IsApplication = record {
  parts = order-PartsOk;
  tags = two_tags;
  no_logon = refl;
  no_heartbeat = refl;
  no_test_request = refl;
  no_logout = refl;
}

no_message : find_message [] ≡ none
unfolding find_message trailer_at starts_trailer
no_message = refl

partial_none : find_message (b'8' ∷ []) ≡ none
unfolding find_message trailer_at starts_trailer
partial_none = refl

drain_parse_buf-delivers_example :
    drain_parse_buf quiet_net true arrived
    ≡ (good (ltb 0 2), after quiet_net true arrived (b'8' ∷ []) (delivered (order ∷ order ∷ [])))
drain_parse_buf-delivers_example =
    drain_parse_buf-delivers quiet_net true (order ∷ order ∷ []) (b'8' ∷ []) arrived tt
      (order-IsApplication, (order-IsApplication, tt)) partial_none refl refl

drain_parse_buf-Drained_example : Drained quiet_net true (drain_parse_buf quiet_net true arrived)
drain_parse_buf-Drained_example = drain_parse_buf-Drained quiet_net true arrived

-- A socket that gives what is left of its input, at most a given number of bytes at once.
abbrev script_net : Net
script_net = record {
  Socket = Unit;
  Outside = List Text;
  now_sending_time = λ o. (b'0' ∷ [], o);
  write_all = λ _ _ o. (good tt, o);
  flush = λ _ o. (good tt, o);
}

abbrev next_piece : List Text → Read × List Text
next_piece [] = (would_block, [])
next_piece (c ∷ cs) = (got c, cs)

abbrev script_wire : Wire script_net
script_wire = record {
  Listener = Unit;
  read = λ _ _ o. next_piece o;
  set_nonblocking = λ _ o. (good tt, o);
  accept = λ _ o. (Accepted.no_connection, o);
}

-- An order that comes in two pieces.
abbrev pieces : List Text
pieces = take 3 (encoded order) ∷ drop 3 (encoded order) ∷ []

some_front : 0 < length (take 3 (encoded order))
unfolding encode_message
some_front = omega arith

some_back : 0 < length (drop 3 (encoded order))
unfolding encode_message
some_back = omega arith

abbrev acceptor : FixAcceptorSpin script_net script_wire
acceptor = record {
  listener = some tt;
  inbound = record {
    parse_buf = [];
    socket = some tt;
    session = arrived.session;
    events = [];
    outside = pieces;
  };
}

cycle-delivers_example :
    (acceptor_cycle script_net script_wire 3 acceptor ≡ (
      some (good (ltb 0 1)),
      record acceptor {
        inbound = received script_net script_wire acceptor.inbound [] (order ∷ []) [];
      },
    ))
    × (initiator_cycle script_net script_wire 3 acceptor.inbound ≡ (
      some (good (ltb 0 1)),
      received script_net script_wire acceptor.inbound [] (order ∷ []) [],
    ))
unfolding encode_message
cycle-delivers_example =
    cycle-delivers script_net script_wire pieces (order ∷ []) [] 3 acceptor tt []
      (order-IsApplication, tt) no_message refl (_, refl, some_front, (_, refl, some_back, refl))
      refl (omega arith)

-- A channel that the graph keeps open, and an empty queue of outbound messages.
abbrev open_links : Links script_net
open_links = record { send_event = λ _ o. (true, o); try_recv = λ o. (queue_empty, o) }

-- The first piece of the order was read before.
abbrev halfway : Inbound script_net
halfway = record (acceptor.inbound) {
  parse_buf = take 3 (encoded order);
  outside = drop 3 (encoded order) ∷ [];
}

session_round-forwards_example :
    session_round script_net script_wire open_links 1 false tt halfway ≡ (
      stays,
      received script_net script_wire halfway []
          (order ∷ [])
          (forwarded script_net script_wire open_links (delivered (order ∷ [])) []),
    )
unfolding encode_message
session_round-forwards_example =
    session_round-forwards script_net script_wire open_links false 1 (drop 3 (encoded order))
      (order ∷ []) [] halfway tt [] [] (order-IsApplication, tt) no_message refl refl some_back refl
      refl (omega arith) (λ _ _. refl)

-- The queue of the session thread as a list.
abbrev queued : FixMessage → List FixMessage → List FixMessage
queued m q = m ∷ q

abbrev subscriber : Node queued
subscriber = (record { pending = (b'A' ∷ []) ∷ []; sent = (b'B' ∷ []) ∷ []; logged_in = false }, [])

abbrev new_symbols : List Text
new_symbols = (b'A' ∷ []) ∷ (b'C' ∷ []) ∷ []

cycle-Unique_example :
    let (s, q) = cycle queued (FixSessionStatus.logged_in ∷ []) new_symbols subscriber in
    Unique s.sent
    × (s.pending ≡ [])
    × All (λ x. contains x s.sent ≡ true) (subscriber.0.sent ++ subscriber.0.pending ++ new_symbols)
    × ((new : List Text) × (s.sent ≡ subscriber.0.sent ++ new) × (q ≡ offers queued 1 new []))
cycle-Unique_example =
    cycle-Unique queued (FixSessionStatus.logged_in ∷ []) new_symbols subscriber (refl, tt) refl
