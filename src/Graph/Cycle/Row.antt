-- ===== src/Graph/Cycle/Row.antt =====
-- The loops of `cycle` run `cycle_node` over the rows of dirty nodes, layer after layer.
use mathlib.Core.List.{append_assoc}
use wingfoil.Base.{
  ℕ, suc, ◌+◌, ◌≤◌, ◌≡◌, refl, sym, ap, subst, ◌∙◌, Bool, true, List, [], ◌∷◌, ◌++◌, some, arith,
  length, get_elem?, count, All, length-append, get_or-some, get_elem?-append_length, Option-cases,
  inl, inr,
}
use wingfoil.Graph.Effects.{Action, Result, ok, err, panic, diverged, for_each, and_then, ◌>>◌}
use wingfoil.Graph.State.{GraphState, NodeData}
use wingfoil.Graph.Env.{Env, World}
use wingfoil.Graph.Cycle.{cycle_node, cycle_row}
use wingfoil.Graph.Cycle.Invariant.{IsValid, Later-refl, marked, on_layer}
use wingfoil.Graph.Cycle.Calls.{Behaved}
use wingfoil.Graph.Cycle.Node.{Triggers, Cycled, Cycled-after, cycle_node-Cycled}

-- An index in a row is a node of the row's layer.
abbrev pub OnLayer : List NodeData → ℕ → ℕ → Type 0
OnLayer nodes l ix = (n : NodeData) × (get_elem? nodes ix ≡ some n) × (n.layer ≡ l)

on_layer-OnLayer :
    (nodes : List NodeData) (ix l : ℕ) → on_layer nodes ix l ≡ true → OnLayer nodes l ix
on_layer-OnLayer nodes ix l h = elim (Option-cases (get_elem? nodes ix)) [
  | inl e ↦ absurd (ground (arith, e, h))
  | inr (n, e) ↦ (n, e, ground (arith, e, h))
]

members-OnLayer :
    (nodes : List NodeData) (dirty : List Bool) (l : ℕ) (xs row : List ℕ)
    → ((ix : ℕ) → count ix row ≡ marked nodes dirty ix l)
    → ((ix : ℕ) → count ix xs ≤ count ix row)
    → All (OnLayer nodes l) xs
members-OnLayer nodes dirty l [] row h le = tt
members-OnLayer nodes dirty l (x ∷ xs) row h le = (
  on_layer-OnLayer nodes x l (ground (arith, h x, le x)),
  members-OnLayer nodes dirty l xs row h (λ ix. omega (arith, le ix)),
)

pub row-OnLayer :
    (s : GraphState) (l : ℕ) (row : List ℕ)
    → IsValid s
    → get_elem? s.dirty_nodes_by_layer l ≡ some row
    → All (OnLayer s.nodes l) row
row-OnLayer s l row v at =
    members-OnLayer s.nodes s.node_dirty l row row
      (λ ix. ap (count ix) (sym (get_or-some s.dirty_nodes_by_layer l row [] at)) ∙ v.rows ix l)
      (λ ix. omega arith)

pub for_each-append :
    {W A : Type 0} (f : A → Action W (Unit {0})) (xs ys : List A) (w : W)
    → for_each f (xs ++ ys) w ≡ (for_each f xs >> for_each f ys) w
for_each-append f [] ys w = refl
for_each-append {W} {A} f (x ∷ xs) ys w = go (f x w).0 (f x w).1 (for_each-append f xs ys)
  where
    go :
        (r : Result (Unit {0})) (w : W)
        → ((w : W) → for_each f (xs ++ ys) w ≡ (for_each f xs >> for_each f ys) w)
        → and_then r (λ _. for_each f (xs ++ ys)) w
          ≡ and_then
              (and_then r (λ _. for_each f xs) w).0
              (λ _. for_each f ys)
              (and_then r (λ _. for_each f xs) w).1
    go (ok a) w ih = ih w
    go (err e) w ih = refl
    go panic w ih = refl
    go diverged w ih = refl

module _ (env : Env) (law : Behaved env) where
  -- What is left of a row when `pre` is done; the loop over it, and what it leaves.
  abbrev pub RunsRow : ℕ → List ℕ → World env.Store → Result (Unit {0}) × World env.Store → Type 0
  RunsRow l rest w r = (r ≡ for_each (cycle_node env) rest w) × Cycled l w r

  after_node :
      (l : ℕ) (x : ℕ) (rest : List ℕ) (next : World env.Store → Result (Unit {0}) × World env.Store)
      (r : Result (Unit {0})) (w w' : World env.Store)
      → cycle_node env x w ≡ (r, w')
      → Cycled l w (r, w')
      → RunsRow l rest w' (next w')
      → RunsRow l (x ∷ rest) w (and_then r (λ _. next) w')
  after_node l x rest next (ok a) w w' e c (same, c') =
      (rw e same, Cycled-after w w' (next w') c.2 c')
  after_node l x rest next (err _) w w' e c (same, c') = (rw e, c)
  after_node l x rest next panic w w' e c (same, c') = absurd c.0
  after_node l x rest next diverged w w' e c (same, c') = absurd c.0

  pub cycle_row-RunsRow :
      (l : ℕ) (pre rest : List ℕ) (w : World env.Store)
      → IsValid w.state
      → Triggers w.state
      → get_elem? w.state.dirty_nodes_by_layer l ≡ some (pre ++ rest)
      → All (OnLayer w.state.nodes l) rest
      → RunsRow l rest w (cycle_row env (length rest) l (length pre) w)
  unfolding cycle_row
  cycle_row-RunsRow l pre [] w v trig row on = (refl, (tt, v, Later-refl l w.state, trig))
  cycle_row-RunsRow l pre (x ∷ rest) w v trig row on =
      let (n, at, here) = on.0 in
      let c =
        subst (λ k. Cycled k w (cycle_node env x w)) here
          (cycle_node-Cycled env x n w law v trig at) in
      let w' = (cycle_node env x w).1 in
      let (fine, v', later, trig') = c in
      let row' : get_elem? w'.state.dirty_nodes_by_layer l ≡ some ((pre ++ x ∷ []) ++ rest) =
        later.below l (omega arith) ∙ row ∙ ap some (sym (append_assoc pre (x ∷ []) rest)) in
      let on' : All (OnLayer w'.state.nodes l) rest = rw later.same_nodes on.1 in
      let ih = cycle_row-RunsRow l (pre ++ x ∷ []) rest w' v' trig' row' on' in
      let i : length (pre ++ x ∷ []) ≡ length pre + 1 = length-append pre (x ∷ []) ∙ omega arith in
      let next = λ (w : World env.Store). cycle_row env (length rest) l (length pre + 1) w in
      let step : cycle_row env (suc (length rest)) l (length pre) w
          ≡ and_then (cycle_node env x w).0 (λ _. next) w' =
        rw row (rw (get_elem?-append_length pre rest x)) in
      subst (RunsRow l (x ∷ rest) w) (sym step)
        (after_node l x rest next (cycle_node env x w).0 w w' refl c (rw i at ih))
