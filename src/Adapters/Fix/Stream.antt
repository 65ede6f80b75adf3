-- ===== src/Adapters/Fix/Stream.antt =====
-- What `drain_parse_buf` makes of a stream of messages.
use wingfoil.Base.{
  ℕ, zero, suc, ◌+◌, ◌≤◌, ◌<◌, ◌≡◌, ◌≢◌, refl, sym, ap, subst, ◌∙◌, Bool, [], ◌∷◌, none, some,
  arith, length, drop, take, Option-cases, inl, inr,
}
use mathlib.Core.Option.{some-injective}
use wingfoil.Adapters.Fix.Decimal.{Text}
use wingfoil.Adapters.Fix.Codec.{
  FixMessage, build_message, decode_fields, find_message, trailer_at, position, soh,
}
use wingfoil.Adapters.Fix.Session.{Io, good, bad, Net, Handled}
use wingfoil.Adapters.Fix.Drain.{
  Inbound, handle, dispatch, dispatched, unless_bad, drain_on, pushed, drain_parse_buf,
}

length-drop : (n : ℕ) (s : Text) → 0 < n → s ≢ [] → length (drop n s) < length s
length-drop n [] h ne = absurd (ne refl)
length-drop zero (b ∷ s) h ne = absurd (omega arith)
length-drop (suc n) (b ∷ s) h ne = shorter n s
  where
    shorter : (n : ℕ) (s : Text) → length (drop n s) < suc (length s)
    shorter zero s = omega arith
    shorter (suc n) [] = omega arith
    shorter (suc n) (b ∷ s) = omega (arith, shorter n s)

no_trailer : (buf : Text) → trailer_at buf ≡ none → find_message buf ≡ none
unfolding find_message
no_trailer buf e = rw (e, find_message) refl

no_end :
    (buf : Text) (pos : ℕ)
    → trailer_at buf ≡ some pos
    → position soh (drop (pos + 4) buf) ≡ none
    → find_message buf ≡ none
unfolding find_message
no_end buf pos e e' = rw (e, find_message) (rw e' refl)

ends :
    (buf : Text) (pos off : ℕ)
    → trailer_at buf ≡ some pos
    → position soh (drop (pos + 4) buf) ≡ some off
    → find_message buf ≡ some (take (pos + 4 + off + 1) buf, pos + 4 + off + 1)
unfolding find_message
ends buf pos off e e' = rw (e, find_message) (rw e' refl)

trailer_at-some : (buf : Text) (pos : ℕ) → trailer_at buf ≡ some pos → buf ≢ []
unfolding trailer_at
trailer_at-some [] pos e = cc
trailer_at-some (b ∷ buf) pos e = λ h. cc

-- A message that is found takes some of the buffer.
pub found_takes :
    (buf msg : Text) (n : ℕ) → find_message buf ≡ some (msg, n) → length (drop n buf) < length buf
found_takes buf msg n h = elim (Option-cases (trailer_at buf)) [
  | inl e ↦ let clash = sym (no_trailer buf e) ∙ h in absurd (cc)
  | inr (pos, e) ↦ elim (Option-cases (position soh (drop (pos + 4) buf))) [
    | inl e' ↦ let clash = sym (no_end buf pos e e') ∙ h in absurd (cc)
    | inr (off, e') ↦
        let size : pos + 4 + off + 1 ≡ n =
          ap (λ (x : Text × ℕ). x.1) (some-injective _ _ (sym (ends buf pos off e e') ∙ h)) in
        length-drop n buf (omega (arith, size)) (trailer_at-some buf pos e)
  ]
]

module _ (net : Net) (is_acceptor : Bool) where
  -- Nothing complete is left in the buffer, unless a handler failed.
  abbrev pub Drained : {A : Type 0} → Io A × Inbound net → Type 0
  Drained (bad e, s) = Unit
  Drained (good a, s) = find_message s.parse_buf ≡ none

  -- A round leaves the buffer alone once the message is out.
  abbrev KeepsBuf : Text → Io (Unit {0}) × Inbound net → Type 0
  KeepsBuf buf (r, s) = s.parse_buf ≡ buf

  dispatched-KeepsBuf :
      (s : Inbound net) (msg : FixMessage) (sock : net.Socket) (pass : Io Bool) (h : Handled net)
      → h.pass ≡ pass
      → KeepsBuf s.parse_buf (dispatched net s msg sock h)
  dispatched-KeepsBuf s msg sock (bad e) h same = rw same refl
  dispatched-KeepsBuf s msg sock (good pass) h same = rw same refl

  dispatch-KeepsBuf :
      (s : Inbound net) (bytes : Text) → KeepsBuf s.parse_buf (dispatch net is_acceptor s bytes)
  unfolding dispatch
  dispatch-KeepsBuf s bytes = elim (Option-cases (build_message (decode_fields bytes))) [
    | inl e ↦ rw (e, dispatch) refl
    | inr (msg, e) ↦ elim (Option-cases s.socket) [
      | inl e' ↦ rw (e, dispatch) (rw e' refl)
      | inr (sock, e') ↦
          let h = handle net is_acceptor s.session msg sock s.events s.outside in
          rw (e, dispatch) (rw e' (dispatched-KeepsBuf s msg sock h.pass h refl))
    ]
  ]

  pub drain_stop :
      (fuel : ℕ) (s : Inbound net)
      → find_message s.parse_buf ≡ none
      → drain_on net fuel is_acceptor s ≡ (good tt, s)
  unfolding drain_on
  drain_stop zero s e = refl
  drain_stop (suc fuel) s e = rw (e, drain_on) refl

  pub drain_round :
      (fuel : ℕ) (s : Inbound net) (bytes : Text) (n : ℕ)
      → find_message s.parse_buf ≡ some (bytes, n)
      → drain_on net (suc fuel) is_acceptor s
        ≡ unless_bad net
            (dispatch net is_acceptor (record s { parse_buf = drop n s.parse_buf }) bytes)
            (drain_on net fuel is_acceptor)
  unfolding drain_on
  drain_round fuel s bytes n e = rw (e, drain_on) refl

  round-Drained :
      (buf : Text) (out : Io (Unit {0}) × Inbound net)
      (rest : Inbound net → Io (Unit {0}) × Inbound net)
      → KeepsBuf buf out
      → ((s : Inbound net) → s.parse_buf ≡ buf → Drained (rest s))
      → Drained (unless_bad net out rest)
  round-Drained buf (bad e, s) rest kept h = tt
  round-Drained buf (good _, s) rest kept h = h s kept

  drain_on-Drained :
      (fuel : ℕ) (s : Inbound net)
      → length s.parse_buf ≤ fuel
      → Drained (drain_on net fuel is_acceptor s)
  drain_on-Drained zero s le = elim (Option-cases (find_message s.parse_buf)) [
    | inl e ↦ subst Drained (sym (drain_stop zero s e)) e
    | inr ((bytes, n), e) ↦ absurd (omega (arith, found_takes s.parse_buf bytes n e))
  ]
  drain_on-Drained (suc fuel) s le = elim (Option-cases (find_message s.parse_buf)) [
    | inl e ↦ subst Drained (sym (drain_stop (suc fuel) s e)) e
    | inr ((bytes, n), e) ↦
        let t : Inbound net = record s { parse_buf = drop n s.parse_buf } in
        subst Drained (sym (drain_round fuel s bytes n e)) (
          round-Drained t.parse_buf (dispatch net is_acceptor t bytes)
            (drain_on net fuel is_acceptor) (dispatch-KeepsBuf t bytes)
            (λ s' kept.
              drain_on-Drained fuel s'
                (omega (arith, found_takes s.parse_buf bytes n e, ap length kept))))
  ]

  pushed-Drained :
      (before : ℕ) (out : Io (Unit {0}) × Inbound net)
      → Drained out
      → Drained (pushed net before out)
  pushed-Drained before (bad e, s) h = tt
  pushed-Drained before (good _, s) h = h

  -- On any buffer, in either role, with or without a socket, the loop of `drain_parse_buf` ends
  -- by itself: unless a handler fails no complete message is left in the buffer.
  pub drain_parse_buf-Drained : (s : Inbound net) → Drained (drain_parse_buf net is_acceptor s)
  unfolding drain_parse_buf
  drain_parse_buf-Drained s =
      pushed-Drained (length s.events) (drain_on net (length s.parse_buf) is_acceptor s)
        (drain_on-Drained (length s.parse_buf) s (omega arith))
