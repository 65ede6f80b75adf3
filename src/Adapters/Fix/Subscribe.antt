-- ===== src/Adapters/Fix/Subscribe.antt =====
-- `FixSubNode`: market data requests for the symbols of a stream, once the session is logged in.
use wingfoil.Base.{
  Bool, true, false, not, ◌&&◌, ◌||◌, List, [], ◌∷◌, ◌++◌, if◌then◌else◌, length, any,
}
use wingfoil.Adapters.Fix.Decimal.{Text, decimal}
use wingfoil.Adapters.Fix.Codec.{FixMessage}
use wingfoil.Adapters.Fix.Session.{FixSessionStatus, text_eq}

unfoldable pub market_data_request : Text → Text → FixMessage
market_data_request symbol req_id = record {
  msg_type = b'V' ∷ [];
  seq_num = 0;
  sending_time = 0;
  fields =
      (262, req_id)
      ∷ (263, b'1' ∷ [])
      ∷ (264, b'1' ∷ [])
      ∷ (265, b'0' ∷ [])
      ∷ (267, b'2' ∷ [])
      ∷ (269, b'0' ∷ [])
      ∷ (269, b'1' ∷ [])
      ∷ (146, b'1' ∷ [])
      ∷ (48, symbol)
      ∷ (22, b'8' ∷ [])
      ∷ [];
}

-- `Vec::contains`
abbrev pub contains : Text → List Text → Bool
contains s l = any (λ t. text_eq t s) l

abbrev pub is_logged_in : FixSessionStatus → Bool
is_logged_in FixSessionStatus.logged_in = true
is_logged_in _ = false

pub record FixSubNode : Type 0 where
  pub pending : List Text
  pub sent : List Text
  pub logged_in : Bool

-- `offer` is the channel's `try_send`, whose failure is only logged.
module _ {Queue : Type 0} (offer : FixMessage → Queue → Queue) where
  abbrev pub Node : Type 0
  Node = FixSubNode × Queue

  unfoldable pub subscribe : Text → Node → Node
  unfolding market_data_request
  subscribe symbol (s, q) =
      let req_id = b's' ∷ b'u' ∷ b'b' ∷ b'_' ∷ (decimal (length s.sent) ++ b'_' ∷ symbol) in
      (record s { sent = s.sent ++ symbol ∷ [] }, offer (market_data_request symbol req_id) q)

  unfoldable pub collect_one : Text → Node → Node
  unfolding subscribe
  collect_one symbol (s, q) =
      if not (contains symbol s.sent) && not (contains symbol s.pending)
      then (if s.logged_in
          then subscribe symbol (s, q)
          else (record s { pending = s.pending ++ symbol ∷ [] }, q))
      else (s, q)

  -- The loop over the new symbols.
  unfoldable pub collect : List Text → Node → Node
  unfolding collect_one
  collect [] n = n
  collect (symbol ∷ symbols) n = collect symbols (collect_one symbol n)

  unfoldable pub flush_one : Text → Node → Node
  unfolding subscribe
  flush_one symbol (s, q) = if contains symbol s.sent then (s, q) else subscribe symbol (s, q)

  -- The loop over what was pending.
  unfoldable pub flush_all : List Text → Node → Node
  unfolding flush_one
  flush_all [] n = n
  flush_all (symbol ∷ symbols) n = flush_all symbols (flush_one symbol n)

  unfoldable pub drain_pending : Node → Node
  unfolding flush_all
  drain_pending (s, q) =
      if s.logged_in then flush_all s.pending (record s { pending = [] }, q) else (s, q)

  unfoldable pub cycle : List FixSessionStatus → List Text → Node → Node
  unfolding collect drain_pending
  cycle burst symbols (s, q) =
      drain_pending
        (collect symbols (record s { logged_in = any is_logged_in burst || s.logged_in }, q))
