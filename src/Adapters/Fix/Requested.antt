-- ===== src/Adapters/Fix/Requested.antt =====
-- What FixSubNode has offered to the queue of its session: a request for each symbol that it sent.
use wingfoil.Base.{
  ℕ, suc, ◌+◌, ◌≡◌, refl, sym, ap, ◌∙◌, List, [], ◌∷◌, ◌++◌, length, length-append, arith,
}
use mathlib.Core.List.{append_assoc, append-nil}
use wingfoil.Adapters.Fix.Decimal.{Text, decimal}
use wingfoil.Adapters.Fix.Codec.{FixMessage}
use wingfoil.Adapters.Fix.Subscribe.{market_data_request, Node}

module _ {Queue : Type 0} (offer : FixMessage → Queue → Queue) where
  -- The queue after the requests for some symbols, of which so many were sent before.
  abbrev pub offers : ℕ → List Text → Queue → Queue
  offers k [] q = q
  offers k (x ∷ xs) q =
      offers (suc k) xs
        (offer (market_data_request x (b's' ∷ b'u' ∷ b'b' ∷ b'_' ∷ (decimal k ++ b'_' ∷ x))) q)

  offers-append :
      (k : ℕ) (xs ys : List Text) (q : Queue)
      → offers k (xs ++ ys) q ≡ offers (k + length xs) ys (offers k xs q)
  offers-append k [] ys q = ap (λ j. offers j ys q) (omega arith)
  offers-append k (x ∷ xs) ys q =
      let q' =
        offer (market_data_request x (b's' ∷ b'u' ∷ b'b' ∷ b'_' ∷ (decimal k ++ b'_' ∷ x))) q in
      offers-append (suc k) xs ys q' ∙ ap (λ j. offers j ys (offers (suc k) xs q')) (omega arith)

  -- The symbols that are new in `m` have been requested in the queue, each with its number.
  abbrev pub Requested : Node offer → Node offer → Type 0
  Requested n m =
      (new : List Text) × (m.0.sent ≡ n.0.sent ++ new) × (m.1 ≡ offers (length n.0.sent) new n.1)

  pub Requested-refl : (n : Node offer) → Requested n n
  Requested-refl n = ([], sym (append-nil n.0.sent), refl)

  pub Requested-trans : (n m k : Node offer) → Requested n m → Requested m k → Requested n k
  Requested-trans n m k (new, sent, queue) (new', sent', queue') = (
    new ++ new',
    sent' ∙ ap (λ l. l ++ new') sent ∙ append_assoc n.0.sent new new',
    queue'
        ∙ ap (λ q. offers (length m.0.sent) new' q) queue
        ∙ ap (λ j. offers j new' (offers (length n.0.sent) new n.1))
            (ap (λ (l : List Text). length l) sent ∙ length-append n.0.sent new)
        ∙ sym (offers-append (length n.0.sent) new new' n.1),
  )
