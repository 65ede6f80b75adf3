-- ===== src/Adapters/Fix/Reads.antt =====
-- A cycle of a spinning session delivers the messages whatever pieces the socket reads them in.
use wingfoil.Base.{
  ℕ, zero, suc, ◌<◌, ◌≡◌, sym, ap, ◌∙◌, Bool, true, false, List, [], ◌∷◌, ◌++◌, Option, none, some,
  All, length, ltb, arith,
}
use mathlib.Core.List.{append_assoc, append-nil}
use wingfoil.Adapters.Fix.Decimal.{Text}
use wingfoil.Adapters.Fix.Codec.{find_message}
use wingfoil.Adapters.Fix.Message.{Parts}
use wingfoil.Adapters.Fix.Session.{good, Net}
use wingfoil.Adapters.Fix.Drain.{Inbound, drain_parse_buf}
use wingfoil.Adapters.Fix.Delivery.{IsApplication, stream_of, delivered, drain_parse_buf-delivers}
use wingfoil.Adapters.Fix.Spin.{
  got, would_block, Wire, paused, read_buf_size, read_loop, read_phase, initiate, initiator_cycle,
  finished, after_read, bytes_read, ticked_too, with_inbound, FixAcceptorSpin, accept_phase,
  accept_messages, after_accept, acceptor_cycle,
}

abbrev pub joined : List Text → Text
joined [] = []
joined (c ∷ cs) = c ++ joined cs

pub at_some :
    {A : Type 0} {B : Type 0} {o : Option A} {a : A} (b : B) (f : A → B)
    → o ≡ some a
    → (elim o as (λ _. B) [ none ↦ b | some x ↦ f x ]) ≡ f a
at_some {A} {B} b f e = ap (λ o. elim o as (λ _. B) [ none ↦ b | some x ↦ f x ]) e

module _ (net : Net) (wire : Wire net) where
  open net use {Socket, Outside}

  -- The socket gives these pieces, none of them empty, and has no more for now.
  abbrev pub Gives : Socket → Outside → List Text → Outside → Type 0
  Gives sock outside [] last = wire.read sock read_buf_size outside ≡ (would_block, last)
  Gives sock outside (c ∷ cs) last =
      (next : Outside) × (wire.read sock read_buf_size outside ≡ (got c, next))
      × (0 < length c)
      × Gives sock next cs last

  read_loop-Gives :
      (cs : List Text) (fuel : ℕ) (sock : Socket) (buf : Text) (outside last : Outside)
      → Gives sock outside cs last
      → length cs < fuel
      → read_loop net wire fuel sock buf outside ≡ (paused, buf ++ joined cs, last)
  unfolding read_loop
  read_loop-Gives cs zero sock buf outside last gives le = absurd (omega arith)
  read_loop-Gives [] (suc fuel) sock buf outside last gives le =
      ap (after_read net wire buf (read_loop net wire fuel sock)) gives
      ∙ ap (λ x. (paused, x, last)) (sym (append-nil buf))
  read_loop-Gives ([] ∷ cs) (suc fuel) sock buf outside last (next, e, more, rest) le =
      absurd (omega (arith, more))
  read_loop-Gives ((b ∷ c) ∷ cs) (suc fuel) sock buf outside last (next, e, more, rest) le =
      ap (after_read net wire buf (read_loop net wire fuel sock)) e
      ∙ read_loop-Gives cs fuel sock (buf ++ b ∷ c) next last rest (omega arith)
      ∙ ap (λ x. (paused, x, last)) (append_assoc buf (b ∷ c) (joined cs))

  socketed :
      (fuel : ℕ) (s : Inbound net) (sock : Socket)
      → s.socket ≡ some sock
      → read_phase net wire fuel s
        ≡ bytes_read net wire s (read_loop net wire fuel sock s.parse_buf s.outside)
  unfolding read_phase
  socketed fuel s sock here =
      at_some (paused, s)
        (λ x. bytes_read net wire s (read_loop net wire fuel x s.parse_buf s.outside)) here

  connected :
      (node : FixAcceptorSpin net wire) (sock : Socket)
      → node.inbound.socket ≡ some sock
      → accept_phase net wire node ≡ (good false, node.inbound)
  unfolding accept_phase
  connected node sock here = at_some _ (λ _. (good false, node.inbound)) here

  read_phase-Gives :
      (cs : List Text) (fuel : ℕ) (s : Inbound net) (sock : Socket) (last : Outside)
      → s.socket ≡ some sock
      → Gives sock s.outside cs last
      → length cs < fuel
      → read_phase net wire fuel s
        ≡ (paused, record s { parse_buf = s.parse_buf ++ joined cs; outside = last })
  unfolding read_phase
  read_phase-Gives cs fuel s sock last here gives le =
      socketed fuel s sock here
      ∙ ap (bytes_read net wire s)
          (read_loop-Gives cs fuel sock s.parse_buf s.outside last gives le)

  -- What a cycle makes of the messages.
  abbrev pub received : Inbound net → Text → List Parts → Outside → Inbound net
  received s tail ps last = record s { parse_buf = tail; events = delivered ps; outside = last }

  drained_messages :
      (is_acceptor : Bool) (cs : List Text) (ps : List Parts) (tail : Text) (s : Inbound net)
      (sock : Socket) (last : Outside)
      → All IsApplication ps
      → find_message tail ≡ none
      → s.socket ≡ some sock
      → s.parse_buf ++ joined cs ≡ stream_of ps ++ tail
      → drain_parse_buf net is_acceptor
          (record s { parse_buf = s.parse_buf ++ joined cs; events = []; outside = last })
        ≡ (good (ltb 0 (length ps)), received s tail ps last)
  drained_messages is_acceptor cs ps tail s sock last apps done here buf =
      drain_parse_buf-delivers net is_acceptor ps tail
        (record s { parse_buf = s.parse_buf ++ joined cs; events = []; outside = last }) sock apps
        done here buf

  initiator_cycle-delivers :
      (cs : List Text) (ps : List Parts) (tail : Text) (fuel : ℕ) (s : Inbound net) (sock : Socket)
      (last : Outside)
      → All IsApplication ps
      → find_message tail ≡ none
      → s.socket ≡ some sock
      → Gives sock s.outside cs last
      → s.parse_buf ++ joined cs ≡ stream_of ps ++ tail
      → length cs < fuel
      → initiator_cycle net wire fuel s ≡ (some (good (ltb 0 (length ps))), received s tail ps last)
  unfolding initiator_cycle
  initiator_cycle-delivers cs ps tail fuel s sock last apps done here gives buf le =
      ap (initiate net wire)
        (read_phase-Gives cs fuel (record s { events = [] }) sock last here gives le)
      ∙ ap (finished net wire) (drained_messages false cs ps tail s sock last apps done here buf)

  acceptor_cycle-delivers :
      (cs : List Text) (ps : List Parts) (tail : Text) (fuel : ℕ) (node : FixAcceptorSpin net wire)
      (sock : Socket) (last : Outside)
      → All IsApplication ps
      → find_message tail ≡ none
      → node.inbound.socket ≡ some sock
      → Gives sock node.inbound.outside cs last
      → node.inbound.parse_buf ++ joined cs ≡ stream_of ps ++ tail
      → length cs < fuel
      → acceptor_cycle net wire fuel node ≡ (
        some (good (ltb 0 (length ps))),
        record node { inbound = received node.inbound tail ps last },
      )
  unfolding acceptor_cycle
  acceptor_cycle-delivers cs ps tail fuel node sock last apps done here gives buf le =
      let cleared : Inbound net = record (node.inbound) { events = [] } in
      ap (with_inbound net wire node) (
        ap (after_accept net wire fuel) (connected (record node { inbound = cleared }) sock here)
        ∙ ap (accept_messages net wire false)
            (read_phase-Gives cs fuel cleared sock last here gives le)
        ∙ ap (ticked_too net wire false)
            (drained_messages true cs ps tail node.inbound sock last apps done here buf))

  -- If the parse buffer and the non-empty pieces that the connected socket gives until it has no
  -- more are together encoded application messages (texts UTF-8 without SOH, numbers that fit,
  -- extra fields without the checksum's tag) followed by bytes without a complete message, then
  -- with more fuel than pieces a cycle of either spinning session ends without error, shows
  -- exactly these messages in order, keeps the bytes behind them and ticks if there is a message,
  -- however the bytes are cut into pieces.
  pub cycle-delivers :
      (cs : List Text) (ps : List Parts) (tail : Text) (fuel : ℕ) (node : FixAcceptorSpin net wire)
      (sock : Socket) (last : Outside)
      → All IsApplication ps
      → find_message tail ≡ none
      → node.inbound.socket ≡ some sock
      → Gives sock node.inbound.outside cs last
      → node.inbound.parse_buf ++ joined cs ≡ stream_of ps ++ tail
      → length cs < fuel
      → (acceptor_cycle net wire fuel node ≡ (
        some (good (ltb 0 (length ps))),
        record node { inbound = received node.inbound tail ps last },
      ))
        × (initiator_cycle net wire fuel node.inbound
            ≡ (some (good (ltb 0 (length ps))), received node.inbound tail ps last))
  cycle-delivers cs ps tail fuel node sock last apps done here gives buf le = (
    acceptor_cycle-delivers cs ps tail fuel node sock last apps done here gives buf le,
    initiator_cycle-delivers cs ps tail fuel node.inbound sock last apps done here gives buf le,
  )
