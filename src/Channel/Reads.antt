-- ===== src/Channel/Reads.antt =====
-- The reads of a cycle end, and keep all that they read in order.
use wingfoil.Base.{
  ℕ, zero, suc, ◌+◌, ◌<◌, ◌≡◌, ◌≢◌, ◌⊎◌, inl, inr, refl, sym, subst, ◌∙◌, true, List, [], ◌∷◌, ◌++◌,
  some, ltb, ◌==◌, All, arith, Bool-cases, Option-cases,
}
use mathlib.Core.List.{append_assoc, append-nil}
use wingfoil.Channel.{
  Message, check_point, end_of_stream, historical_value, realtime_value, error, Channel,
}
use wingfoil.Channel.Messages.{Gives, Gave, Acceptable, Cause, values_of, told, ended, UpToDate}
use wingfoil.Channel.Receive.{
  ChannelReceiverStream, ReadEnd, drained, sent_error, realtime_in_history, too_late, NextRead,
  stop_reading, non_blocking, blocking, next_read, Reads, take_message, take_if_any,
  historical_reads,
}

finished-stop :
    {T : Type 0} (now : ℕ) (s : ChannelReceiverStream T)
    → s.finished ≡ true
    → next_read now s ≡ stop_reading
unfolding next_read
finished-stop now s h = rw h refl

module _ {T E : Type 0} (channel : Channel T E) where
  open channel use {Outside}

  -- Every message but the end of the stream leaves the channel with less.
  abbrev pub Smaller : Message T E → ℕ → ℕ → Type 0
  Smaller end_of_stream before after_ = Unit
  Smaller m before after_ = after_ < before

  pub record IsFinite (size : Outside → ℕ) : Type 0 where
    pub recv_ends : (o : Outside) → Smaller (channel.recv o).0 (size o) (size (channel.recv o).1)
    pub try_ends :
        (o : Outside) (m : Message T E)
        → (channel.try_recv o).0 ≡ some m
        → Smaller m (size o) (size (channel.try_recv o).1)

  -- The messages that the reads take, what they add to the queue, and that their fuel lasts.
  pub record Took (now : ℕ) (s : ChannelReceiverStream T) (o : Outside) (r : Reads channel)
      : Type 0 where
    pub taken : List (Message T E)
    pub last : List (Message T E)
    pub gave : Gave channel (taken ++ last) o r.2
    pub acceptable : All (Acceptable channel now) taken
    pub cause : Cause channel now r.0 last
    pub queue : r.1.queue ≡ s.queue ++ values_of channel taken
    pub same_value : r.1.value ≡ s.value
    pub up_to_date :
        r.0 ≡ drained
        → UpToDate channel now (ended channel s.finished taken) (told channel s.message_time taken)

  next_read-UpToDate :
      (now : ℕ) (s : ChannelReceiverStream T)
      → next_read now s ≢ blocking
      → UpToDate channel now s.finished s.message_time
  unfolding next_read
  next_read-UpToDate now s h = elim (Bool-cases s.finished) [
    | inl e ↦ inl e
    | inr e ↦ elim (Option-cases s.message_time) [
      | inl q ↦ absurd (h (rw (e, next_read) (rw q refl)))
      | inr (t, q) ↦ inr (
        t,
        q,
        elim (Bool-cases (ltb now t)) [
          | inl l ↦ ground arith
          | inr l ↦ elim (Bool-cases (t == now)) [
            | inl k ↦ ground arith
            | inr k ↦ absurd (h (rw (e, next_read) (rw q (rw l (rw k refl)))))
          ]
        ],
      )
    ]
  ]

  Took-stopped :
      (now : ℕ) (s : ChannelReceiverStream T) (o o' : Outside)
      → Gave channel [] o o'
      → next_read now s ≢ blocking
      → Took now s o (drained, s, o')
  Took-stopped now s o o' gave_ h = record {
    taken = [];
    last = [];
    gave = gave_;
    acceptable = tt;
    cause = refl;
    queue = sym (append-nil s.queue);
    same_value = refl;
    up_to_date = λ _. next_read-UpToDate now s h;
  }

  Took-failed :
      (now : ℕ) (s : ChannelReceiverStream T) (o o' : Outside) (m : Message T E) (e : ReadEnd E)
      → Gives channel m o o'
      → Cause channel now e (m ∷ [])
      → e ≢ drained
      → Took now s o (e, s, o')
  Took-failed now s o o' m e gives cause_ h = record {
    taken = [];
    last = m ∷ [];
    gave = (o', gives, inl refl);
    acceptable = tt;
    cause = cause_;
    queue = sym (append-nil s.queue);
    same_value = refl;
    up_to_date = λ d. absurd (h d);
  }

  -- Enough fuel, if the channel is finite.
  abbrev pub Enough : (Outside → ℕ) → ℕ → ChannelReceiverStream T → Outside → Type 0
  Enough size fuel s o = ((s.finished ≡ true) × (0 < fuel)) ⊎ (size o + 1 < fuel)

  take_message-Took :
      (size : Outside → ℕ) (now fuel before : ℕ) (s : ChannelReceiverStream T)
      (rest : ChannelReceiverStream T → Outside → Reads channel) (m : Message T E)
      (start o : Outside)
      → Gives channel m start o
      → before + 1 < suc fuel
      → Smaller m before (size o)
      → ((s' : ChannelReceiverStream T) (o' : Outside)
          → Enough size fuel s' o'
          → Took now s' o' (rest s' o'))
      → Took now s start (take_message channel now s rest (m, o))
  take_message-Took size now fuel before s rest (check_point t) start o gives enough less ih =
      let h = ih (record s { message_time = some t }) o (inr (omega (arith, less))) in
      record {
        taken = check_point t ∷ h.taken;
        last = h.last;
        gave = (o, gives, h.gave);
        acceptable = (tt, h.acceptable);
        cause = h.cause;
        queue = h.queue;
        same_value = h.same_value;
        up_to_date = h.up_to_date;
      }
  take_message-Took size now fuel before s rest end_of_stream start o gives enough less ih =
      let h = ih (record s { finished = true }) o (inl (refl, omega arith)) in
      record {
        taken = end_of_stream ∷ h.taken;
        last = h.last;
        gave = (o, gives, h.gave);
        acceptable = (tt, h.acceptable);
        cause = h.cause;
        queue = h.queue;
        same_value = h.same_value;
        up_to_date = h.up_to_date;
      }
  take_message-Took size now fuel before s rest (historical_value t vs) start o gives enough less
        ih =
      elim (Bool-cases (ltb t now)) [
        | inl e ↦ rw e (
            Took-failed now s start o (historical_value t vs) (too_late t) gives
              (vs, ground arith, refl) (λ x. cc))
        | inr e ↦ rw e (
            let h =
              ih (record s { message_time = some t; queue = s.queue ++ (t, vs) ∷ [] }) o
                (inr (omega (arith, less))) in
            record {
              taken = historical_value t vs ∷ h.taken;
              last = h.last;
              gave = (o, gives, h.gave);
              acceptable = (ground arith, h.acceptable);
              cause = h.cause;
              queue = h.queue ∙ append_assoc s.queue ((t, vs) ∷ []) (values_of channel h.taken);
              same_value = h.same_value;
              up_to_date = h.up_to_date;
            })
      ]
  take_message-Took size now fuel before s rest (realtime_value v) start o gives enough less ih =
      Took-failed now s start o (realtime_value v) realtime_in_history gives (v, refl) (λ x. cc)
  take_message-Took size now fuel before s rest (error e) start o gives enough less ih =
      Took-failed now s start o (error e) (sent_error e) gives refl (λ x. cc)

  try-Took :
      (size : Outside → ℕ) (fin : IsFinite size) (now fuel : ℕ) (s : ChannelReceiverStream T)
      (rest : ChannelReceiverStream T → Outside → Reads channel) (o : Outside)
      → next_read now s ≢ blocking
      → size o + 1 < suc fuel
      → ((s' : ChannelReceiverStream T) (o' : Outside)
          → Enough size fuel s' o'
          → Took now s' o' (rest s' o'))
      → Took now s o (take_if_any channel now s rest (channel.try_recv o))
  try-Took size fin now fuel s rest o next enough ih = elim (Option-cases (channel.try_recv o).0) [
    | inl e ↦
        subst (λ x. Took now s o (take_if_any channel now s rest (x, (channel.try_recv o).1)))
          (sym e) (Took-stopped now s o (channel.try_recv o).1 (inr (e, refl)) next)
    | inr (m, e) ↦
        subst (λ x. Took now s o (take_if_any channel now s rest (x, (channel.try_recv o).1)))
          (sym e)
          (take_message-Took size now fuel (size o) s rest m o (channel.try_recv o).1
            (inr (e, refl)) enough (fin.try_ends o m e) ih)
  ]

  by_next :
      (size : Outside → ℕ) (fin : IsFinite size) (now fuel : ℕ) (s : ChannelReceiverStream T)
      (rest : ChannelReceiverStream T → Outside → Reads channel) (o : Outside) (n : NextRead)
      → next_read now s ≡ n
      → size o + 1 < suc fuel
      → ((s' : ChannelReceiverStream T) (o' : Outside)
          → Enough size fuel s' o'
          → Took now s' o' (rest s' o'))
      → Took now s o (elim n as (λ _. Reads channel) [
        | stop_reading ↦ (drained, s, o)
        | non_blocking ↦ take_if_any channel now s rest (channel.try_recv o)
        | blocking ↦ take_message channel now s rest (channel.recv o)
      ])
  by_next size fin now fuel s rest o stop_reading next enough ih =
      Took-stopped now s o o (inl refl) (λ x. cc)
  by_next size fin now fuel s rest o non_blocking next enough ih =
      try-Took size fin now fuel s rest o (λ x. cc) enough ih
  by_next size fin now fuel s rest o blocking next enough ih =
      take_message-Took size now fuel (size o) s rest (channel.recv o).0 o (channel.recv o).1
        (inl (refl, refl)) enough (fin.recv_ends o) ih

  pub historical_reads-Took :
      (size : Outside → ℕ) (fin : IsFinite size) (fuel now : ℕ) (s : ChannelReceiverStream T)
      (o : Outside)
      → Enough size fuel s o
      → Took now s o (historical_reads channel fuel now s o)
  unfolding historical_reads
  historical_reads-Took size fin zero now s o (inl e) = absurd (omega (arith, e.1))
  historical_reads-Took size fin zero now s o (inr e) = absurd (omega (arith, e))
  historical_reads-Took size fin (suc fuel) now s o (inl e) =
      let stop = finished-stop now s e.0 in
      rw (stop, historical_reads) (Took-stopped now s o o (inl refl) (λ x. cc))
  historical_reads-Took size fin (suc fuel) now s o (inr e) =
      by_next size fin now fuel s (historical_reads channel fuel now) o (next_read now s) refl e
        (historical_reads-Took size fin fuel now)
