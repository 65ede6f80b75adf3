-- ===== src/Queue/Drain.antt =====
-- The loop `while let Some(v) = queue.pop_if_pending(now) { self.value = v; ticked = true; }`, which
-- delay.rs, delay_with_reset.rs, feedback.rs and callback.rs share.
use wingfoil.Base.{
  ℕ, zero, suc, ◌<◌, ◌≡◌, refl, Bool, true, false, ◌||◌, List, [], ◌∷◌, none, some, arith, leb,
  if◌then◌else◌, length, Bool-cases, inl, inr, ap,
}
use wingfoil.Queue.{TimeQueue, pop_if_pending}
use wingfoil.Queue.Events.{events, length-events, IsValid, pop_if_pending-PopsDue}

module _ {T : Type 0} where
  -- The value and the flag of the loop stand before the queue.
  unfoldable pub drain : ℕ → ℕ → T → Bool → TimeQueue T → T × Bool × TimeQueue T
  drain zero now value ticked q = (value, ticked, q)
  drain (suc fuel) now value ticked q =
      let (popped, q') = pop_if_pending now q in
      elim popped [ none ↦ (value, ticked, q') | some v ↦ drain fuel now v true q' ]

  -- The value of the last event that is due, or else `v`.
  unfoldable pub last_due : ℕ → T → List (T × ℕ) → T
  last_due now v [] = v
  last_due now v ((w, t) ∷ l) = if leb t now then last_due now w l else v

  unfoldable pub any_due : ℕ → List (T × ℕ) → Bool
  any_due now [] = false
  any_due now ((w, t) ∷ l) = leb t now

  unfoldable pub not_due : ℕ → List (T × ℕ) → List (T × ℕ)
  not_due now [] = []
  not_due now ((w, t) ∷ l) = if leb t now then not_due now l else (w, t) ∷ l

  abbrev pub Drained : ℕ → T → Bool → List (T × ℕ) → T × Bool × TimeQueue T → Type 0
  Drained now v ticked l r =
      (r.0 ≡ last_due now v l)
      × (r.1 ≡ (ticked || any_due now l))
      × (events r.2 ≡ not_due now l)
      × IsValid r.2

  drain_at :
      (fuel now : ℕ) (v : T) (ticked : Bool) (q : TimeQueue T) (l : List (T × ℕ))
      → events q ≡ l
      → length l < fuel
      → IsValid q
      → Drained now v ticked l (drain fuel now v ticked q)
  unfolding drain last_due any_due not_due
  drain_at zero now v ticked q l e room ok = elim room [ ]
  drain_at (suc fuel) now v ticked q [] e room ok =
      let stop = rw e at (pop_if_pending-PopsDue now q ok) in
      rw (ap (λ r. r.0) stop, drain) (rw (ap (λ r. r.1) stop) (refl, ground arith, e, ok))
  drain_at (suc fuel) now v ticked q ((w, t) ∷ l) e room ok =
      let popped = rw e at (pop_if_pending-PopsDue now q ok) in
      elim (Bool-cases (leb t now)) [
        | inl due ↦
            let (value, left, valid) = rw due at popped in
            let rest =
              drain_at fuel now w true (pop_if_pending now q).1 l left (omega arith) valid in
            rw (value, drain) (rw due (rest.0, ground (arith, rest.1), rest.2, rest.3))
        | inr later ↦
            let stop = rw later at popped in
            rw (ap (λ r. r.0) stop, drain)
              (rw (ap (λ r. r.1) stop) (rw later (refl, ground arith, e, ok)))
      ]

  -- On a valid queue the loop over `pop_if_pending` stops within as many rounds as there are
  -- entries and one, with the value of the last due event (or the old value), tells whether there
  -- was any, and leaves in the queue exactly what is not due.
  pub drain-Drained :
      (now : ℕ) (v : T) (ticked : Bool) (q : TimeQueue T)
      → IsValid q
      → Drained now v ticked (events q) (drain (suc (length q.heap)) now v ticked q)
  drain-Drained now v ticked q ok =
      drain_at (suc (length q.heap)) now v ticked q (events q) refl (omega (arith, length-events q))
        ok
