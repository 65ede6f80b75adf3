-- ===== src/Adapters/Fix/Subscribed.antt =====
-- `FixSubNode.cycle`: a symbol is requested once, and at the latest when the session is logged in.
use wingfoil.Base.{
  ◌≡◌, refl, sym, subst, ◌∙◌, Bool, true, false, ◌||◌, List, [], ◌∷◌, ◌++◌, any, All, All-append,
  Bool-cases, inl, inr, length,
}
use wingfoil.Adapters.Fix.Decimal.{Text}
use wingfoil.Adapters.Fix.Codec.{FixMessage}
use wingfoil.Adapters.Fix.Requested.{offers, Requested, Requested-refl, Requested-trans}
use wingfoil.Adapters.Fix.Session.{FixSessionStatus, text_eq}
use wingfoil.Adapters.Fix.Subscribe.{
  contains, Node, subscribe, collect_one, collect, flush_one, flush_all, drain_pending,
  is_logged_in, cycle,
}
use wingfoil.Adapters.Fix.Unique.{
  Unique, text_eq→≡, Unique-snoc, contains-old, contains-new, or_left, or_right, or_cases, every,
}

module _ {Queue : Type 0} (offer : FixMessage → Queue → Queue) where
  -- From `n` to `m` symbols are only added.
  record Grows (n m : Node offer) : Type 0 where
    sent : (x : Text) → contains x n.0.sent ≡ true → contains x m.0.sent ≡ true
    same_login : m.0.logged_in ≡ n.0.logged_in
    once : Unique n.0.sent → Unique m.0.sent
    requested : Requested offer n m

  Grows-trans : {n m k : Node offer} → Grows n m → Grows m k → Grows n k
  Grows-trans {n = n} {m = m} {k = k} a b = record {
    sent = λ x h. b.sent x (a.sent x h);
    same_login = b.same_login ∙ a.same_login;
    once = λ h. b.once (a.once h);
    requested = Requested-trans offer n m k a.requested b.requested;
  }

  Grows-refl : (n : Node offer) → Grows n n
  Grows-refl n = record {
    sent = λ x h. h;
    same_login = refl;
    once = λ h. h;
    requested = Requested-refl offer n;
  }

  subscribe-Grows :
      (x : Text) (n : Node offer) → contains x n.0.sent ≡ false → Grows n (subscribe offer x n)
  unfolding subscribe
  subscribe-Grows x n new = record {
    sent = λ y h. contains-old n.0.sent x y h;
    same_login = refl;
    once = λ h. Unique-snoc n.0.sent x h new;
    requested = (x ∷ [], refl, refl);
  }

  subscribe-sent : (x : Text) (n : Node offer) → contains x (subscribe offer x n).0.sent ≡ true
  unfolding subscribe
  subscribe-sent x n = contains-new n.0.sent x

  flush_one-Grows :
      (x : Text) (n : Node offer)
      → Grows n (flush_one offer x n) × (contains x (flush_one offer x n).0.sent ≡ true)
  unfolding flush_one
  flush_one-Grows x n = elim (Bool-cases (contains x n.0.sent)) [
    | inl e ↦ rw (e, flush_one) (Grows-refl n, e)
    | inr e ↦ rw (e, flush_one) (subscribe-Grows x n e, subscribe-sent x n)
  ]

  flush_all-Grows :
      (l : List Text) (n : Node offer)
      → Grows n (flush_all offer l n)
        × ((x : Text) → contains x l ≡ true → contains x (flush_all offer l n).0.sent ≡ true)
  unfolding flush_all
  flush_all-Grows [] n = (Grows-refl n, λ x h. cc)
  flush_all-Grows (y ∷ l) n =
      let (one, there) = flush_one-Grows y n in
      let (rest, all_) = flush_all-Grows l (flush_one offer y n) in
      (
        Grows-trans one rest,
        λ x h. elim (Bool-cases (text_eq y x)) [
          | inl e ↦
              subst (λ z. contains z (flush_all offer l (flush_one offer y n)).0.sent ≡ true)
                (text_eq→≡ y x e) (rest.sent y there)
          | inr e ↦ all_ x (rw e at h)
        ],
      )

  flush_all-pending :
      (l : List Text) (n : Node offer) → (flush_all offer l n).0.pending ≡ n.0.pending
  unfolding flush_all
  flush_all-pending [] n = refl
  flush_all-pending (y ∷ l) n = flush_all-pending l (flush_one offer y n) ∙ one y n
    where
      one : (y : Text) (n : Node offer) → (flush_one offer y n).0.pending ≡ n.0.pending
      one y n = elim (Bool-cases (contains y n.0.sent)) [
        | inl e ↦ rw (e, flush_one) refl
        | inr e ↦ rw (e, flush_one) refl
      ]

  abbrev asked : Text → Node offer → Bool
  asked x n = contains x n.0.sent || contains x n.0.pending

  abbrev Keeps : Node offer → Node offer → Type 0
  Keeps n m = Grows n m × ((x : Text) → asked x n ≡ true → asked x m ≡ true)

  subscribe-Keeps :
      (x : Text) (n : Node offer) → contains x n.0.sent ≡ false → Keeps n (subscribe offer x n)
  unfolding subscribe
  subscribe-Keeps x n new = (
    subscribe-Grows x n new,
    λ y h. elim (or_cases (contains y n.0.sent) (contains y n.0.pending) h) [
      | inl e ↦ or_left _ (contains y n.0.pending) (contains-old n.0.sent x y e)
      | inr e ↦ or_right (contains y (n.0.sent ++ x ∷ [])) _ e
    ],
  )

  abbrev with_pending : Text → Node offer → Node offer
  with_pending x n = (record (n.0) { pending = n.0.pending ++ x ∷ [] }, n.1)

  pend-Keeps : (x : Text) (n : Node offer) → Keeps n (with_pending x n)
  pend-Keeps x n = (
    record {
      sent = λ y h. h;
      same_login = refl;
      once = λ h. h;
      requested = Requested-refl offer n;
    },
    λ y h. elim (or_cases (contains y n.0.sent) (contains y n.0.pending) h) [
      | inl e ↦ or_left _ (contains y (n.0.pending ++ x ∷ [])) e
      | inr e ↦ or_right (contains y n.0.sent) _ (contains-old n.0.pending x y e)
    ],
  )

  already_sent :
      (x : Text) (n : Node offer) → contains x n.0.sent ≡ true → collect_one offer x n ≡ n
  unfolding collect_one
  already_sent x n e = rw (e, collect_one) refl

  already_pending :
      (x : Text) (n : Node offer)
      → contains x n.0.sent ≡ false
      → contains x n.0.pending ≡ true
      → collect_one offer x n ≡ n
  unfolding collect_one
  already_pending x n e e' = rw (e, collect_one) (rw e' refl)

  at_once :
      (x : Text) (n : Node offer)
      → contains x n.0.sent ≡ false
      → contains x n.0.pending ≡ false
      → n.0.logged_in ≡ true
      → collect_one offer x n ≡ subscribe offer x n
  unfolding collect_one
  at_once x n e e' l = rw (e, collect_one) (rw e' (rw l refl))

  later :
      (x : Text) (n : Node offer)
      → contains x n.0.sent ≡ false
      → contains x n.0.pending ≡ false
      → n.0.logged_in ≡ false
      → collect_one offer x n ≡ with_pending x n
  unfolding collect_one
  later x n e e' l = rw (e, collect_one) (rw e' (rw l refl))

  Asked : Text → Node offer → Node offer → Type 0
  Asked x n m = Keeps n m × (asked x m ≡ true)

  collect_one-Keeps : (x : Text) (n : Node offer) → Asked x n (collect_one offer x n)
  unfolding Asked
  collect_one-Keeps x n = elim (Bool-cases (contains x n.0.sent)) [
    | inl e ↦
        subst (Asked x n) (sym (already_sent x n e))
          ((Grows-refl n, λ y h. h), or_left _ (contains x n.0.pending) e)
    | inr e ↦ elim (Bool-cases (contains x n.0.pending)) [
      | inl e' ↦
          subst (Asked x n) (sym (already_pending x n e e'))
            ((Grows-refl n, λ y h. h), or_right (contains x n.0.sent) _ e')
      | inr e' ↦ elim (Bool-cases n.0.logged_in) [
        | inl l ↦ subst (Asked x n) (sym (at_once x n e e' l)) (
          subscribe-Keeps x n e,
          or_left _ (contains x (subscribe offer x n).0.pending) (subscribe-sent x n),
        )
        | inr l ↦
            subst (Asked x n) (sym (later x n e e' l))
              (pend-Keeps x n, or_right (contains x n.0.sent) _ (contains-new n.0.pending x))
      ]
    ]
  ]

  -- Every symbol of the list is asked for in the end, and none is forgotten.
  collect-Keeps :
      (l : List Text) (n : Node offer)
      → Keeps n (collect offer l n)
        × ((x : Text) → contains x l ≡ true → asked x (collect offer l n) ≡ true)
  unfolding collect Asked
  collect-Keeps [] n = ((Grows-refl n, λ y h. h), λ x h. cc)
  collect-Keeps (y ∷ l) n =
      let (one, there) = collect_one-Keeps y n in
      let (rest, all_) = collect-Keeps l (collect_one offer y n) in
      (
        (Grows-trans one.0 rest.0, λ x h. rest.1 x (one.1 x h)),
        λ x h. elim (Bool-cases (text_eq y x)) [
          | inl e ↦
              subst (λ z. asked z (collect offer l (collect_one offer y n)) ≡ true)
                (text_eq→≡ y x e) (rest.1 y there)
          | inr e ↦ all_ x (rw e at h)
        ],
      )

  drained :
      (n : Node offer)
      → n.0.logged_in ≡ true
      → drain_pending offer n ≡ flush_all offer n.0.pending (record (n.0) { pending = [] }, n.1)
  unfolding drain_pending
  drained n l = rw (l, drain_pending) refl

  drain_pending-Grows :
      (n : Node offer)
      → n.0.logged_in ≡ true
      → Grows n (drain_pending offer n)
        × ((drain_pending offer n).0.pending ≡ [])
        × ((x : Text) → asked x n ≡ true → contains x (drain_pending offer n).0.sent ≡ true)
  drain_pending-Grows n l =
      let taken : Node offer = (record (n.0) { pending = [] }, n.1) in
      let (grows, all_) = flush_all-Grows n.0.pending taken in
      let start : Grows n taken = record {
        sent = λ y h. h;
        same_login = refl;
        once = λ h. h;
        requested = Requested-refl offer n;
      } in
      subst
        (λ m.
          Grows n m
          × (m.0.pending ≡ [])
          × ((x : Text) → asked x n ≡ true → contains x m.0.sent ≡ true))
        (sym (drained n l))
        (
          Grows-trans start grows,
          flush_all-pending n.0.pending taken,
          λ x h. elim (or_cases (contains x n.0.sent) (contains x n.0.pending) h) [
            | inl e ↦ grows.sent x e
            | inr e ↦ all_ x e
          ],
        )

  -- If no symbol stands twice in the list of requested symbols, and the session is logged in or
  -- the burst says so, then after a cycle of FixSubNode none stands twice in it, nothing is
  -- pending, and all that was requested or pending and all new symbols are in it; and what was
  -- offered to the queue is one market data request for each symbol that is new in the list, in
  -- its order, whose request id has the number of the symbols requested before it and the symbol.
  pub cycle-Unique :
      (burst : List FixSessionStatus) (symbols : List Text) (n : Node offer)
      → Unique n.0.sent
      → (any is_logged_in burst || n.0.logged_in) ≡ true
      → let (s, q) = cycle offer burst symbols n in
        Unique s.sent
        × (s.pending ≡ [])
        × All (λ x. contains x s.sent ≡ true) (n.0.sent ++ n.0.pending ++ symbols)
        × ((new : List Text) × (s.sent ≡ n.0.sent ++ new)
            × (q ≡ offers offer (length n.0.sent) new n.1))
  unfolding cycle
  cycle-Unique burst symbols n once l =
      let before : Node offer =
        (record (n.0) { logged_in = any is_logged_in burst || n.0.logged_in }, n.1) in
      let (kept, asked_) = collect-Keeps symbols before in
      let (grows, empty, sent_) =
        drain_pending-Grows (collect offer symbols before) (kept.0.same_login ∙ l) in
      (
        grows.once (kept.0.once once),
        empty,
        All-append _ (n.0.sent ++ n.0.pending) symbols
            (All-append _ n.0.sent n.0.pending
              (every n.0.sent (λ x h. sent_ x (kept.1 x (or_left _ (contains x n.0.pending) h))))
              (every n.0.pending (λ x h. sent_ x (kept.1 x (or_right (contains x n.0.sent) _ h)))))
            (every symbols (λ x h. sent_ x (asked_ x h))),
        Requested-trans offer n (collect offer symbols before)
            (drain_pending offer (collect offer symbols before)) kept.0.requested grows.requested,
      )
