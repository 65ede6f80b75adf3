-- ===== src/Queue/Events.antt =====
-- What a TimeQueue promises: a list of timed values, earliest first, first in first out at one time.
use wingfoil.Base.{
  ℕ, suc, ◌+◌, ◌%◌, ◌<◌, ◌≤◌, ◌≡◌, refl, ap, ◌∙◌, Bool, ◌&&◌, ◌||◌, List, [], ◌∷◌, Option, none,
  some, arith, leb, ◌==◌, if◌then◌else◌, any, map, length, All, All-imp, Bool-cases, inl, inr,
  u64_mod,
}
use wingfoil.Queue.{
  PartialEq, Entry, TimeQueue, new_entry, new, next_time, pop, pop_if_pending, push,
}
use wingfoil.Queue.Order.{
  Fresh, Distinct, insert, sort, sort-select, Distinct-select, any-sort, All-sort, All-select,
  IsSorted, sort-IsSorted,
}

module _ {T : Type 0} where
  abbrev event : Entry T → T × ℕ
  event e = (e.value, e.time)

  -- The abstract view of a queue.
  unfoldable pub events : TimeQueue T → List (T × ℕ)
  events q = map event (sort q.heap)

  -- Sequence numbers are distinct, and below the next one.
  abbrev pub IsValid : TimeQueue T → Type 0
  IsValid q = Distinct q.heap × All (λ e. e.seq < q.next_seq) q.heap

  -- Behind all values that are due no later.
  unfoldable pub enqueue : T → ℕ → List (T × ℕ) → List (T × ℕ)
  enqueue v t [] = (v, t) ∷ []
  enqueue v t ((w, s) ∷ l) = if leb s t then (w, s) ∷ enqueue v t l else (v, t) ∷ (w, s) ∷ l

  abbrev pub contains : ⦃p : PartialEq T⦄ → T → ℕ → List (T × ℕ) → Bool
  contains ⦃p⦄ v t l = any (λ e. e.1 == t && p.eq e.0 v) l

  Fresh-below : (e : Entry T) (l : List (Entry T)) → All (λ x. x.seq < e.seq) l → Fresh e l
  Fresh-below e [] h = tt
  Fresh-below e (x ∷ l) h = ((λ eq. omega arith), Fresh-below e l h.1)

  any-map : (f : T × ℕ → Bool) (l : List (Entry T)) → any f (map event l) ≡ any (λ e. f (event e)) l
  any-map f [] = refl
  any-map f (x ∷ l) = ap (λ b. f (event x) || b) (any-map f l)

  -- A new entry has the greatest sequence number, so it goes behind those of its time.
  map-insert :
      (e : Entry T) (l : List (Entry T))
      → All (λ x. x.seq < e.seq) l
      → map event (insert e l) ≡ enqueue e.value e.time (map event l)
  unfolding insert enqueue
  map-insert e [] h = refl
  map-insert e (x ∷ l) h = ground (arith, map-insert e l h.1)

  pub events-new : events (new {T = T}) ≡ []
  unfolding events new sort
  events-new = refl

  -- The membership test of `push` reads the abstract view.
  contains-events :
      ⦃p : PartialEq T⦄ (v : T) (t : ℕ) (q : TimeQueue T)
      → contains v t (events q) ≡ any (λ e. e.time == t && p.eq e.value v) q.heap
  unfolding events
  contains-events ⦃p⦄ v t q = any-map _ (sort q.heap) ∙ any-sort _ q.heap

  -- On a valid queue `push` leaves the abstract list of timed values alone if the pair is queued,
  -- and otherwise puts the pair behind all that is due no later and before all that is due later.
  pub events-push :
      ⦃p : PartialEq T⦄ (v : T) (t : ℕ) (q : TimeQueue T)
      → IsValid q
      → events (push v t q) ≡ (if contains v t (events q) then events q else enqueue v t (events q))
  events-push ⦃p⦄ v t q ok =
      rw (contains-events v t q)
        (elim (Bool-cases (any (λ e. e.time == t && p.eq e.value v) q.heap)) [
          | inl old ↦ unfold push events in rw old
          | inr young ↦
              unfold push events sort in
              rw young (map-insert (new_entry v t q) (sort q.heap) (All-sort _ q.heap ok.1))
        ])

  -- `push` keeps a queue valid, while the sequence counter is not about to wrap around.
  pub push-IsValid :
      ⦃p : PartialEq T⦄ (v : T) (t : ℕ) (q : TimeQueue T)
      → q.next_seq + 1 < u64_mod
      → IsValid q
      → IsValid (push v t q)
  unfolding push
  push-IsValid ⦃p⦄ v t q room ok =
      elim (Bool-cases (any (λ e. e.time == t && p.eq e.value v) q.heap)) [
        | inl old ↦ rw old ok
        | inr young ↦
            let next : (q.next_seq + 1) % u64_mod ≡ suc q.next_seq = omega arith in
            rw (young, next)
              (
                (Fresh-below (new_entry v t q) q.heap ok.1, ok.0),
                (omega arith, All-imp (λ x h. omega arith) q.heap ok.1),
              )
      ]

  -- The first event of a list, and what is left.
  abbrev pub Pops : List (T × ℕ) → Option T × TimeQueue T → Type 0
  Pops [] r = (r.0 ≡ none) × (events r.1 ≡ []) × IsValid r.1
  Pops (e ∷ l) r = (r.0 ≡ some e.0) × (events r.1 ≡ l) × IsValid r.1

  Pops-at :
      (h : List (Entry T)) (n : ℕ)
      → IsValid (record { heap = h; next_seq = n })
      → Pops (map event (sort h)) (pop (record { heap = h; next_seq = n }))
  unfolding pop events
  Pops-at [] n ok = unfold sort in (refl, refl, ok)
  Pops-at (x ∷ ys) n ok = rw (sort-select x ys ok.0) (
    refl,
    refl,
    ((Distinct-select x ys ok.0).1, (All-select (λ e. e.seq < n) x ys ok.1.0 ok.1.1).1),
  )

  -- On a valid queue `pop` returns the value of the first event of the abstract list, leaves the
  -- others in order and the queue valid; on an empty queue it returns nothing.
  pub pop-Pops : (q : TimeQueue T) → IsValid q → Pops (events q) (pop q)
  unfolding events
  pop-Pops q ok = Pops-at q.heap q.next_seq ok

  abbrev pub head_time : List (T × ℕ) → Option ℕ
  head_time [] = none
  head_time (e ∷ l) = some e.1

  next_time_at :
      (h : List (Entry T)) (n : ℕ)
      → Distinct h
      → next_time (record { heap = h; next_seq = n }) ≡ head_time (map event (sort h))
  unfolding next_time
  next_time_at [] n ok = unfold sort in refl
  next_time_at (x ∷ ys) n ok = rw (sort-select x ys ok) refl

  pub next_time-events : (q : TimeQueue T) → IsValid q → next_time q ≡ head_time (events q)
  unfolding events
  next_time-events q ok = next_time_at q.heap q.next_seq ok.0

  -- The first event, if it is due.
  abbrev pub PopsDue : ℕ → List (T × ℕ) → TimeQueue T → Option T × TimeQueue T → Type 0
  PopsDue now [] q r = r ≡ (none, q)
  PopsDue now (e ∷ l) q r = if leb e.1 now then Pops (e ∷ l) r else (r ≡ (none, q))

  due_at :
      (now : ℕ) (q : TimeQueue T) (l : List (T × ℕ))
      → events q ≡ l
      → IsValid q
      → PopsDue now l q (pop_if_pending now q)
  unfolding pop_if_pending
  due_at now q [] e ok = rw (next_time-events q ok ∙ ap head_time e, pop_if_pending)
  due_at now q (x ∷ l) e ok =
      let peeked = next_time-events q ok ∙ ap head_time e in
      elim (Bool-cases (leb x.1 now)) [
        | inl due ↦ rw (peeked, pop_if_pending) (rw due (rw e at (pop-Pops q ok)))
        | inr later ↦ rw (peeked, pop_if_pending) (rw later)
      ]

  -- On a valid queue `pop_if_pending` takes the first event if its time has come, and otherwise
  -- changes nothing.
  pub pop_if_pending-PopsDue :
      (now : ℕ) (q : TimeQueue T) → IsValid q → PopsDue now (events q) q (pop_if_pending now q)
  pop_if_pending-PopsDue now q ok = due_at now q (events q) refl ok

  length-map-event : (l : List (Entry T)) → length (map event l) ≡ length l
  length-map-event [] = refl
  length-map-event (z ∷ l) = ap suc (length-map-event l)

  length-insert : (x : Entry T) (l : List (Entry T)) → length (insert x l) ≡ suc (length l)
  unfolding insert
  length-insert x [] = refl
  length-insert x (y ∷ l) = ground (arith, length-insert x l)

  length-sort : (l : List (Entry T)) → length (sort l) ≡ length l
  unfolding sort
  length-sort [] = refl
  length-sort (x ∷ l) = omega (arith, length-insert x (sort l), length-sort l)

  pub length-events : (q : TimeQueue T) → length (events q) ≡ length q.heap
  unfolding events
  length-events q = length-map-event (sort q.heap) ∙ length-sort q.heap

  -- Times rise along the abstract view.
  abbrev pub Rising : List (T × ℕ) → Type 0
  Rising [] = Unit
  Rising (x ∷ l) = All (λ y. x.1 ≤ y.1) l × Rising l

  pub events-Rising : (q : TimeQueue T) → Rising (events q)
  unfolding events
  events-Rising q = rise (sort q.heap) (sort-IsSorted q.heap)
    where
      later :
          (x : Entry T) (l : List (Entry T))
          → All (λ y. x.time ≤ y.time) l
          → All (λ (y : T × ℕ). x.time ≤ y.1) (map event l)
      later x [] h = tt
      later x (y ∷ l) h = (h.0, later x l h.1)

      rise : (l : List (Entry T)) → IsSorted l → Rising (map event l)
      rise [] h = tt
      rise (x ∷ l) h = (later x l h.0, rise l h.1)

pub new-IsValid : (T : Type 0) → IsValid (new {T = T})
unfolding new
new-IsValid T = (tt, tt)
