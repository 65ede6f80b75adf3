-- ===== src/Adapters/Fix/Delivery.antt =====
-- A stream of application messages reaches the application whole and in order.
use wingfoil.Base.{
  ℕ, zero, suc, ◌+◌, ◌≤◌, ◌≡◌, ◌≢◌, refl, sym, ap, ◌∙◌, Bool, true, false, List, [], ◌∷◌, ◌++◌,
  none, some, map, arith, ltb, if◌then◌else◌, length, drop, filter_by, All, length-append,
}
use mathlib.Core.List.{append_assoc, append-nil}
use wingfoil.Adapters.Fix.Decimal.{Text}
use wingfoil.Adapters.Fix.Codec.{FixMessage, is_application, find_message}
use wingfoil.Adapters.Fix.Message.{Parts, PartsOk, encoded, build_message-encode_message}
use wingfoil.Adapters.Fix.Frame.{find_message-encode_message, drop_past}
use wingfoil.Adapters.Fix.Session.{
  FixSession, FixEvent, data_event, good, Net, text_eq, msg_logon, msg_heartbeat, msg_test_request,
  msg_logout, handle_initiator, handle_acceptor,
}
use wingfoil.Adapters.Fix.Drain.{
  Inbound, handle, dispatch, unless_bad, drain_on, pushed, drain_parse_buf,
}
use wingfoil.Adapters.Fix.Stream.{found_takes, drain_stop, drain_round}

abbrev pub message_of : Parts → FixMessage
message_of p = record {
  msg_type = p.msg_type;
  seq_num = p.seq;
  sending_time = 0;
  fields = filter_by is_application p.extra;
}

-- A message that is none of the session's own, with the tag of the checksum only at its end.
pub record IsApplication (p : Parts) : Type 0 where
  pub parts : PartsOk p
  pub tags : All (λ (f : ℕ × Text). f.0 ≢ 10) p.extra
  pub no_logon : text_eq p.msg_type msg_logon ≡ false
  pub no_heartbeat : text_eq p.msg_type msg_heartbeat ≡ false
  pub no_test_request : text_eq p.msg_type msg_test_request ≡ false
  pub no_logout : text_eq p.msg_type msg_logout ≡ false

abbrev pub stream_of : List Parts → Text
stream_of [] = []
stream_of (p ∷ ps) = encoded p ++ stream_of ps

abbrev pub delivered : List Parts → List FixEvent
delivered ps = map (λ p. data_event (message_of p)) ps

drop_front : (s t : Text) → drop (length s) (s ++ t) ≡ t
drop_front s t = ap (λ n. drop n (s ++ t)) plus ∙ drop_past s t 0
  where
    plus : length s ≡ length s + 0
    plus = omega arith

module _ (net : Net) (is_acceptor : Bool) where
  handled_application :
      (p : Parts) (session : FixSession) (sock : net.Socket) (events : List FixEvent)
      (outside : net.Outside)
      → IsApplication p
      → handle net is_acceptor session (message_of p) sock events outside
        ≡ record { pass = good true; session = session; events = events; outside = outside }
  unfolding handle handle_initiator handle_acceptor
  handled_application p session sock events outside app = by_role is_acceptor
    where
      by_role :
          (role : Bool)
          → (if role
              then handle_acceptor net session (message_of p) sock events outside
              else handle_initiator net session (message_of p) sock events outside)
            ≡ record { pass = good true; session = session; events = events; outside = outside }
      by_role true = rw (app.no_logon, app.no_heartbeat, app.no_test_request, app.no_logout) refl
      by_role false = rw (app.no_logon, app.no_heartbeat, app.no_test_request, app.no_logout) refl

  dispatch_application :
      (p : Parts) (s : Inbound net) (sock : net.Socket)
      → IsApplication p
      → s.socket ≡ some sock
      → dispatch net is_acceptor s (encoded p)
        ≡ (good tt, record s { events = s.events ++ data_event (message_of p) ∷ [] })
  unfolding dispatch
  dispatch_application p s sock app here =
      rw (build_message-encode_message p app.parts, dispatch)
        (rw (here, handled_application p s.session sock s.events s.outside app) refl)

  -- The state behind the delivery.
  abbrev pub after : Inbound net → Text → List FixEvent → Inbound net
  after s tail events = record s { parse_buf = tail; events = events }

  drain_on-delivers :
      (ps : List Parts) (tail : Text) (fuel : ℕ) (s : Inbound net) (sock : net.Socket)
      → All IsApplication ps
      → find_message tail ≡ none
      → s.socket ≡ some sock
      → s.parse_buf ≡ stream_of ps ++ tail
      → length ps ≤ fuel
      → drain_on net fuel is_acceptor s ≡ (good tt, after s tail (s.events ++ delivered ps))
  drain_on-delivers [] tail fuel s sock apps done here buf le =
      drain_stop net is_acceptor fuel s (ap find_message buf ∙ done)
      ∙ ap (λ b. (good tt, after s b s.events)) buf
      ∙ ap (λ e. (good tt, after s tail e)) (sym (append-nil s.events))
  drain_on-delivers (p ∷ ps) tail zero s sock apps done here buf le = absurd (omega arith)
  drain_on-delivers (p ∷ ps) tail (suc fuel) s sock apps done here buf le =
      let rest = stream_of ps ++ tail in
      let n = length (encoded p) in
      let buf' : s.parse_buf ≡ encoded p ++ rest =
        buf ∙ append_assoc (encoded p) (stream_of ps) tail in
      let found =
        ap find_message buf' ∙ find_message-encode_message p apps.0.parts apps.0.tags rest in
      let t : Inbound net = record s { parse_buf = drop n s.parse_buf } in
      let u : Inbound net = record t { events = s.events ++ data_event (message_of p) ∷ [] } in
      let left : u.parse_buf ≡ rest = ap (drop n) buf' ∙ drop_front (encoded p) rest in
      drain_round net is_acceptor fuel s (encoded p) n found
      ∙ ap (λ out. unless_bad net out (drain_on net fuel is_acceptor))
          (dispatch_application p t sock apps.0 here)
      ∙ drain_on-delivers ps tail fuel u sock apps.1 done here left (omega arith)
      ∙ ap (λ e. (good tt, after s tail e))
          (append_assoc s.events (data_event (message_of p) ∷ []) (delivered ps))

  enough_bytes : (ps : List Parts) → All IsApplication ps → length ps ≤ length (stream_of ps)
  enough_bytes [] apps = omega arith
  enough_bytes (p ∷ ps) apps =
      let rest = enough_bytes ps apps.1 in
      let some_bytes =
        found_takes (encoded p ++ stream_of ps) (encoded p) (length (encoded p))
          (find_message-encode_message p apps.0.parts apps.0.tags (stream_of ps)) in
      let behind : length (drop (length (encoded p)) (encoded p ++ stream_of ps))
          ≡ length (stream_of ps) =
        ap length (drop_front (encoded p) (stream_of ps)) in
      omega (arith, rest, some_bytes, behind)

  length-delivered : (ps : List Parts) → length (delivered ps) ≡ length ps
  length-delivered [] = refl
  length-delivered (p ∷ ps) = ap suc (length-delivered ps)

  -- If the parse buffer holds encoded application messages, whose texts are UTF-8 without SOH,
  -- whose numbers fit and whose extra fields do not have the checksum's tag, followed by bytes
  -- without a complete message, and there is a socket, then `drain_parse_buf` in either role
  -- succeeds: it pushes exactly these messages, in order, as data events with the type, the
  -- sequence number and the application fields that were encoded, leaves the bytes behind them,
  -- and tells whether there was one.
  pub drain_parse_buf-delivers :
      (ps : List Parts) (tail : Text) (s : Inbound net) (sock : net.Socket)
      → All IsApplication ps
      → find_message tail ≡ none
      → s.socket ≡ some sock
      → s.parse_buf ≡ stream_of ps ++ tail
      → drain_parse_buf net is_acceptor s
        ≡ (good (ltb 0 (length ps)), after s tail (s.events ++ delivered ps))
  unfolding drain_parse_buf
  drain_parse_buf-delivers ps tail s sock apps done here buf =
      let fits : length ps ≤ length s.parse_buf =
        omega (arith, enough_bytes ps apps, ap length buf, length-append (stream_of ps) tail) in
      let more : length (s.events ++ delivered ps) ≡ length s.events + length ps =
        length-append s.events (delivered ps)
        ∙ ap (λ n. length s.events + n) (length-delivered ps) in
      let ticks : ltb (length s.events) (length (s.events ++ delivered ps)) ≡ ltb 0 (length ps) =
        ap (ltb (length s.events)) more ∙ grown (length s.events) (length ps) in
      ap (pushed net (length s.events))
        (drain_on-delivers ps tail (length s.parse_buf) s sock apps done here buf fits)
      ∙ ap (λ b. (good b, after s tail (s.events ++ delivered ps))) ticks
    where
      grown : (a k : ℕ) → ltb a (a + k) ≡ ltb 0 k
      grown a k = ground arith
