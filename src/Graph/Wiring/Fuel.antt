-- ===== src/Graph/Wiring/Fuel.antt =====
-- Rounds of the loop in `initialise_node`: each round uses up some of a weight, which the nodes
-- that are not yet begun and the frames on the stack carry.
use wingfoil.Base.{
  ℕ, ◌+◌, ◌-◌, ◌≤◌, ◌≡◌, refl, sym, ap, subst, Bool, true, false, not, ◌||◌, List, [], ◌∷◌, arith,
  any, filter_by, ◌==◌, length, All, Bool-cases, inl, inr, if◌then◌else◌, ==_iff,
}
use wingfoil.Graph.State.{lookup, is_some}
use wingfoil.Graph.Wiring.{WiringFrame}

abbrev pub In : List ℕ → ℕ → Type 0
In universe a = any (λ n. n == a) universe ≡ true

-- The nodes that these nodes declare as upstreams are among them.
abbrev pub Closed : (ℕ → List (ℕ × Bool)) → List ℕ → Type 0
Closed spec universe = All (λ a. All (λ (u : ℕ × Bool). In universe u.0) (spec a)) universe

abbrev pub begun : List (ℕ × ℕ) → List ℕ → ℕ → Bool
begun index in_progress a = is_some (lookup a index) || any (λ n. n == a) in_progress

-- Two rounds for a node and one for each of its upstreams.
abbrev pub weight : (ℕ → List (ℕ × Bool)) → List ℕ → ℕ
weight spec [] = 0
weight spec (a ∷ universe) = length (spec a) + 2 + weight spec universe

abbrev pub waiting : (ℕ → List (ℕ × Bool)) → List (ℕ × ℕ) → List ℕ → List ℕ → ℕ
waiting spec index in_progress [] = 0
waiting spec index in_progress (a ∷ universe) =
    (if begun index in_progress a then 0 else length (spec a) + 2)
    + waiting spec index in_progress universe

abbrev pub left : List WiringFrame → ℕ
left [] = 0
left (f ∷ stack) = length f.upstreams + 1 - f.next + left stack

abbrev pub FrameIn : List ℕ → WiringFrame → Type 0
FrameIn universe f =
    All (λ (u : ℕ × Bool). In universe u.0) f.upstreams × (f.next ≤ length f.upstreams)

module _ (spec : ℕ → List (ℕ × Bool)) where
  pub waiting_le :
      (index : List (ℕ × ℕ)) (universe : List ℕ)
      → waiting spec index [] universe ≤ weight spec universe
  waiting_le index [] = omega arith
  waiting_le index (a ∷ universe) = let rest = waiting_le index universe in ground (arith, rest)

  pub Closed_at :
      (all_nodes universe : List ℕ) (a : ℕ)
      → All (λ b. All (λ (u : ℕ × Bool). In all_nodes u.0) (spec b)) universe
      → In universe a
      → All (λ (u : ℕ × Bool). In all_nodes u.0) (spec a)
  Closed_at all_nodes [] a closed h = cc
  Closed_at all_nodes (b ∷ universe) a closed h = elim (Bool-cases (b == a)) [
    | inl e ↦
        subst (λ x. All (λ (u : ℕ × Bool). In all_nodes u.0) (spec x)) ((==_iff b a).0 e) closed.0
    | inr e ↦ Closed_at all_nodes universe a closed.1 (rw e at h)
  ]

  any-filter_by :
      (node a : ℕ) (in_progress : List ℕ)
      → (node == a) ≡ false
      → any (λ n. n == a) (filter_by (λ n. not (n == node)) in_progress)
        ≡ any (λ n. n == a) in_progress
  any-filter_by node a [] ne = refl
  any-filter_by node a (n ∷ in_progress) ne =
      let rest = any-filter_by node a in_progress ne in
      elim (Bool-cases (n == node)) [
        | inl e ↦
            let same : n ≡ node = (==_iff n node).0 e in
            let apart : (n == a) ≡ false = rw same ne in rw (e, apart) rest
        | inr e ↦ rw e (rw rest refl)
      ]

  -- Registration of a node leaves none waiting that did not wait before.
  pub waiting-finalise :
      (index : List (ℕ × ℕ)) (in_progress : List ℕ) (node i : ℕ) (universe : List ℕ)
      → waiting spec ((node, i) ∷ index) (filter_by (λ n. not (n == node)) in_progress) universe
        ≤ waiting spec index in_progress universe
  waiting-finalise index in_progress node i [] = omega arith
  waiting-finalise index in_progress node i (a ∷ universe) =
      let rest = waiting-finalise index in_progress node i universe in
      elim (Bool-cases (node == a)) [
        | inl e ↦ rw e (omega (arith, rest))
        | inr e ↦ rw (e, any-filter_by node a in_progress e) (omega (arith, rest))
      ]

  waiting_mono :
      (index : List (ℕ × ℕ)) (in_progress : List ℕ) (up : ℕ) (universe : List ℕ)
      → waiting spec index (up ∷ in_progress) universe ≤ waiting spec index in_progress universe
  waiting_mono index in_progress up [] = omega arith
  waiting_mono index in_progress up (a ∷ universe) =
      let rest = waiting_mono index in_progress up universe in ground (arith, rest)

  -- A node that is begun gives its weight to its frame.
  pub waiting_push :
      (index : List (ℕ × ℕ)) (in_progress : List ℕ) (up : ℕ) (universe : List ℕ)
      → In universe up
      → begun index in_progress up ≡ false
      → waiting spec index (up ∷ in_progress) universe + (length (spec up) + 2)
        ≤ waiting spec index in_progress universe
  waiting_push index in_progress up [] h new = cc
  waiting_push index in_progress up (a ∷ universe) h new = elim (Bool-cases (a == up)) [
    | inl e ↦
        let same : a ≡ up = (==_iff a up).0 e in
        let back : (up == a) ≡ true = (==_iff up a).1 (sym same) in
        let fresh : begun index in_progress a ≡ false = rw same new in
        let len : length (spec a) ≡ length (spec up) = ap (λ x. length (spec x)) same in
        let rest = waiting_mono index in_progress up universe in
        ground (arith, rest, back, fresh, len)
    | inr e ↦
        let rest = waiting_push index in_progress up universe (rw e at h) new in
        ground (arith, rest)
  ]
