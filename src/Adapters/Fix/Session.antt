-- ===== src/Adapters/Fix/Session.antt =====
-- `FixSession` and the handlers of session-level messages. Sockets are handles, and what is written to
-- them and read of the clock changes the world outside.
use wingfoil.Base.{
  ℕ, ◌+◌, ◌%◌, Bool, true, false, ◌&&◌, List, [], ◌∷◌, ◌++◌, Option, none, some, ◌==◌,
  if◌then◌else◌, u64_mod,
}
use wingfoil.Adapters.Fix.Decimal.{Text, decimal}
use wingfoil.Adapters.Fix.Codec.{FixMessage, field, encode_message}

pub data FixSessionStatus : Type 0 where
  disconnected logging_in logged_in : FixSessionStatus
  logged_out : Option Text → FixSessionStatus
  failed : Text → FixSessionStatus

pub data FixEvent : Type 0 where
  data_event : FixMessage → FixEvent
  status_event : FixSessionStatus → FixEvent

pub record LogonContext : Type 0 where
  pub msg_type : Text
  pub sender_comp_id : Text
  pub target_comp_id : Text
  pub msg_seq_num : ℕ
  pub sending_time : Text

pub data FixLogon : Type 0 where
  no_logon : FixLogon
  password : Text → FixLogon
  custom : (LogonContext → List (ℕ × Text)) → FixLogon

pub record FixSession : Type 0 where
  pub sender_comp_id : Text
  pub target_comp_id : Text
  pub out_seq : ℕ
  pub logon : FixLogon

-- `anyhow::Result`, an error by its text.
pub data Io (A : Type 0) : Type 0 where
  good : A → Io A
  bad : Text → Io A

-- The `Write` half of a socket, and `chrono::Utc::now()` in the format of a SendingTime.
pub record Net : Type 1 where
  pub Socket : Type 0
  pub Outside : Type 0
  pub now_sending_time : Outside → Text × Outside
  pub write_all : Socket → Text → Outside → Io (Unit {0}) × Outside
  pub flush : Socket → Outside → Io (Unit {0}) × Outside

unfoldable pub new_with_logon : Text → Text → FixLogon → FixSession
new_with_logon sender target logon_ = record {
  sender_comp_id = sender;
  target_comp_id = target;
  out_seq = 0;
  logon = logon_;
}

abbrev pub text_eq : Text → Text → Bool
text_eq [] [] = true
text_eq (a ∷ s) (b ∷ t) = a == b && text_eq s t
text_eq s t = false

abbrev pub msg_logon : Text
msg_logon = b'A' ∷ []

abbrev pub msg_heartbeat : Text
msg_heartbeat = b'0' ∷ []

abbrev pub msg_test_request : Text
msg_test_request = b'1' ∷ []

abbrev pub msg_logout : Text
msg_logout = b'5' ∷ []

abbrev pub logon_fields : FixLogon → LogonContext → List (ℕ × Text)
logon_fields no_logon ctx = []
logon_fields (password pwd) ctx = (553, ctx.sender_comp_id) ∷ (554, pwd) ∷ []
logon_fields (custom builder) ctx = builder ctx

-- The closure of `send_logon`.
unfoldable pub logon_extra : FixSession → ℕ → Text → List (ℕ × Text)
logon_extra session seq sending_time =
    (98, b'0' ∷ [])
    ∷ (108, decimal 30)
    ∷ (141, b'Y' ∷ [])
    ∷ logon_fields session.logon (record {
      msg_type = msg_logon;
      sender_comp_id = session.sender_comp_id;
      target_comp_id = session.target_comp_id;
      msg_seq_num = seq;
      sending_time = sending_time;
    })

module _ (net : Net) where
  open net use {Socket, Outside, now_sending_time, write_all, flush}

  unfoldable pub write_encoded :
      FixSession → Socket → Text → Text → List (ℕ × Text) → Outside → Io (Unit {0}) × Outside
  write_encoded session sock msg_type sending_time extra outside =
      let bytes =
        encode_message msg_type session.sender_comp_id session.target_comp_id session.out_seq
          sending_time extra in
      let (r, outside') = write_all sock bytes outside in
      elim r [ bad e ↦ (bad e, outside') | good _ ↦ flush sock outside' ]

  -- What a call of a session leaves: its result, the session and the world.
  abbrev pub Sent : Type 0
  Sent = Io (Unit {0}) × FixSession × Outside

  unfoldable pub send_with :
      FixSession → Socket → Text → (ℕ → Text → List (ℕ × Text)) → Outside → Sent
  unfolding write_encoded
  send_with session sock msg_type build_extra outside =
      let session' : FixSession = record session { out_seq = (session.out_seq + 1) % u64_mod } in
      let (time, outside') = now_sending_time outside in
      let (r, outside'') =
        write_encoded session' sock msg_type time (build_extra session'.out_seq time) outside' in
      (r, session', outside'')

  unfoldable pub send : FixSession → Socket → Text → List (ℕ × Text) → Outside → Sent
  unfolding write_encoded
  send session sock msg_type extra outside =
      let session' : FixSession = record session { out_seq = (session.out_seq + 1) % u64_mod } in
      let (time, outside') = now_sending_time outside in
      let (r, outside'') = write_encoded session' sock msg_type time extra outside' in
      (r, session', outside'')

  unfoldable pub send_logon : FixSession → Socket → Outside → Sent
  unfolding send_with logon_extra
  send_logon session sock outside = send_with session sock msg_logon (logon_extra session) outside

  unfoldable pub send_logout : FixSession → Socket → Outside → Sent
  unfolding send
  send_logout session sock outside = send session sock msg_logout [] outside

  unfoldable pub send_heartbeat : FixSession → Socket → Option Text → Outside → Sent
  unfolding send
  send_heartbeat session sock test_req_id outside =
      send session sock msg_heartbeat (elim test_req_id [ none ↦ [] | some id ↦ (112, id) ∷ [] ])
        outside

  -- What a handler leaves: whether the message goes on to the application, and what it changed.
  pub record Handled : Type 0 where
    pub pass : Io Bool
    pub session : FixSession
    pub events : List FixEvent
    pub outside : Outside

  abbrev replied : Sent → List FixEvent → Handled
  replied (bad e, session, outside) events = record {
    pass = bad e;
    session = session;
    events = events;
    outside = outside;
  }
  replied (good _, session, outside) events = record {
    pass = good false;
    session = session;
    events = events;
    outside = outside;
  }

  abbrev answered : FixSession → FixMessage → Socket → List FixEvent → Outside → Handled
  answered session msg sock events outside =
      replied (send_heartbeat session sock (field 112 msg.fields) outside) events

  abbrev handled : Io Bool → FixSession → List FixEvent → Outside → Handled
  handled pass session events outside = record {
    pass = pass;
    session = session;
    events = events;
    outside = outside;
  }

  abbrev pub status : List FixEvent → FixSessionStatus → List FixEvent
  status events s = events ++ status_event s ∷ []

  unfoldable pub handle_initiator :
      FixSession → FixMessage → Socket → List FixEvent → Outside → Handled
  handle_initiator session msg sock events outside =
      if text_eq msg.msg_type msg_logon
      then handled (good false) session (status events logged_in) outside
      else if text_eq msg.msg_type msg_heartbeat
      then handled (good false) session events outside
      else if text_eq msg.msg_type msg_test_request
      then answered session msg sock events outside
      else if text_eq msg.msg_type msg_logout
      then handled (good false) session (status events (logged_out (field 58 msg.fields))) outside
      else handled (good true) session events outside

  abbrev logged_on : Sent → List FixEvent → Handled
  logged_on (bad e, session, outside) events = handled (bad e) session events outside
  logged_on (good _, session, outside) events =
      handled (good false) session (status events logged_in) outside

  unfoldable pub handle_acceptor :
      FixSession → FixMessage → Socket → List FixEvent → Outside → Handled
  handle_acceptor session msg sock events outside =
      if text_eq msg.msg_type msg_logon
      then logged_on (send_logon session sock outside) events
      else if text_eq msg.msg_type msg_heartbeat
      then handled (good false) session events outside
      else if text_eq msg.msg_type msg_test_request
      then answered session msg sock events outside
      else if text_eq msg.msg_type msg_logout
      then handled (good false) session (status events (logged_out (field 58 msg.fields))) outside
      else handled (good true) session events outside
