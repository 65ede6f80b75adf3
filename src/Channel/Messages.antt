-- ===== src/Channel/Messages.antt =====
-- What the messages of a channel mean to a receiver of a historical run.
use wingfoil.Base.{ℕ, ◌≤◌, ◌<◌, ◌≡◌, ◌⊎◌, Bool, true, List, [], ◌∷◌, Option, none, some}
use wingfoil.Channel.{
  Message, check_point, end_of_stream, historical_value, realtime_value, error, Channel,
}
use wingfoil.Channel.Receive.{
  Timed, ReadEnd, drained, sent_error, realtime_in_history, too_late, unfinished,
}

module _ {T E : Type 0} (channel : Channel T E) where
  open channel use {Outside}

  -- The channel gives a message, to a blocking read or to another.
  abbrev pub Gives : Message T E → Outside → Outside → Type 0
  Gives m o o' =
      (((channel.recv o).0 ≡ m) × ((channel.recv o).1 ≡ o'))
      ⊎ (((channel.try_recv o).0 ≡ some m) × ((channel.try_recv o).1 ≡ o'))

  -- The messages that the channel gives one after the other; a last read may find none.
  abbrev pub Gave : List (Message T E) → Outside → Outside → Type 0
  Gave [] o o' = (o ≡ o') ⊎ (((channel.try_recv o).0 ≡ none) × ((channel.try_recv o).1 ≡ o'))
  Gave (m ∷ ms) o o'' = (o' : Outside) × Gives m o o' × Gave ms o' o''

  -- A historical run takes no error, no real-time value and no value of the past.
  abbrev pub Acceptable : ℕ → Message T E → Type 0
  Acceptable now (check_point t) = Unit
  Acceptable now end_of_stream = Unit
  Acceptable now (historical_value t vs) = now ≤ t
  Acceptable now (realtime_value v) = ⊥
  Acceptable now (error e) = ⊥

  -- The message that ends the reads of a historical run, if it is not acceptable.
  abbrev pub Cause : ℕ → ReadEnd E → List (Message T E) → Type 0
  Cause now drained last = last ≡ []
  Cause now (sent_error e) last = last ≡ error e ∷ []
  Cause now realtime_in_history last = (v : T) × (last ≡ realtime_value v ∷ [])
  Cause now (too_late t) last = (vs : List T) × (t < now) × (last ≡ historical_value t vs ∷ [])
  Cause now unfinished last = ⊥

  abbrev pub values_of : List (Message T E) → List (Timed T)
  values_of [] = []
  values_of (historical_value t vs ∷ ms) = (t, vs) ∷ values_of ms
  values_of (check_point t ∷ ms) = values_of ms
  values_of (end_of_stream ∷ ms) = values_of ms
  values_of (realtime_value v ∷ ms) = values_of ms
  values_of (error e ∷ ms) = values_of ms

  -- The time up to which messages tell what comes, and whether they end the stream.
  abbrev pub told : Option ℕ → List (Message T E) → Option ℕ
  told known [] = known
  told known (historical_value t vs ∷ ms) = told (some t) ms
  told known (check_point t ∷ ms) = told (some t) ms
  told known (end_of_stream ∷ ms) = told known ms
  told known (realtime_value v ∷ ms) = told known ms
  told known (error e ∷ ms) = told known ms

  abbrev pub ended : Bool → List (Message T E) → Bool
  ended before [] = before
  ended before (end_of_stream ∷ ms) = ended true ms
  ended before (historical_value t vs ∷ ms) = ended before ms
  ended before (check_point t ∷ ms) = ended before ms
  ended before (realtime_value v ∷ ms) = ended before ms
  ended before (error e ∷ ms) = ended before ms

  -- Nothing of the past can come any more.
  abbrev pub UpToDate : ℕ → Bool → Option ℕ → Type 0
  UpToDate now finished known = (finished ≡ true) ⊎ ((t : ℕ) × (known ≡ some t) × (now ≤ t))
