-- ===== src/Queue/Once.antt =====
-- Suppression of duplicates, and the operations that empty or inspect a queue.
use wingfoil.Base.{
  ℕ, ◌≡◌, refl, false, ◌&&◌, ◌||◌, List, [], ◌∷◌, arith, leb, ◌==◌, Bool-cases, inl, inr,
}
use wingfoil.Queue.{PartialEq, TimeQueue, clear, push}
use wingfoil.Queue.Order.{sort}
use wingfoil.Queue.Events.{events, enqueue, contains, IsValid, events-push}

-- No value is listed twice at one time.
abbrev pub Once : {T : Type 0} ⦃p : PartialEq T⦄ → List (T × ℕ) → Type 0
Once [] = Unit
Once (x ∷ l) = (contains x.0 x.1 l ≡ false) × Once l

module _ {T : Type 0} ⦃p : PartialEq T⦄ where
  contains-enqueue :
      (w : T) (s : ℕ) (v : T) (t : ℕ) (l : List (T × ℕ))
      → contains w s (enqueue v t l) ≡ (t == s && p.eq v w || contains w s l)
  unfolding enqueue
  contains-enqueue w s v t [] = refl
  contains-enqueue w s v t (x ∷ l) = ground (arith, contains-enqueue w s v t l)

  enqueue-Once :
      ((a b : T) → p.eq a b ≡ p.eq b a)
      → (v : T) (t : ℕ) (l : List (T × ℕ)) → contains v t l ≡ false
      → Once l
      → Once (enqueue v t l)
  unfolding enqueue
  enqueue-Once symm v t [] h o = (refl, tt)
  enqueue-Once symm v t ((w, s) ∷ l) h o = elim (Bool-cases (leb s t)) [
    | inl le ↦ rw le (
      ground (arith, contains-enqueue w s v t l, symm v w, o.0),
      enqueue-Once symm v t l (ground arith) o.1,
    )
    | inr gt ↦ rw gt (h, o)
  ]

  -- A valid queue that lists no pair of value and time twice lists none twice after a `push`, if
  -- the payload's equality is symmetric.
  pub push-Once :
      ((a b : T) → p.eq a b ≡ p.eq b a)
      → (v : T) (t : ℕ) (q : TimeQueue T) → IsValid q
      → Once (events q)
      → Once (events (push v t q))
  push-Once symm v t q ok o = elim (Bool-cases (contains v t (events q))) [
    | inl old ↦ rw (events-push v t q ok, old) o
    | inr young ↦ rw (events-push v t q ok, young) (enqueue-Once symm v t (events q) young o)
  ]

module _ {T : Type 0} where
  pub events-clear : (q : TimeQueue T) → events (clear q) ≡ []
  unfolding events clear sort
  events-clear q = refl

  pub clear-IsValid : (q : TimeQueue T) → IsValid (clear q)
  unfolding clear
  clear-IsValid q = (tt, tt)
