-- ===== src/Graph/Ends.antt =====
-- Statements that do not outlive their fuel.
use wingfoil.Base.{Bool, true, false, List, [], ◌∷◌, Option, none, some, if◌then◌else◌}
use wingfoil.Graph.Effects.{
  Action, Result, ok, err, panic, diverged, and_then, attempted, for_each, expect,
}
use wingfoil.Graph.State.{GraphState}
use wingfoil.Graph.Env.{World, updated}

abbrev pub NotDiverged {ℓ} : {A : Type ℓ} → Result A → Type 0
NotDiverged diverged = ⊥
NotDiverged r = Unit

-- From any world.
abbrev pub Ends : {W A : Type 0} → Action W A → Type 0
Ends {W = W} m = (w : W) → NotDiverged (m w).0

module _ {W A B : Type 0} where
  pub Ends-then :
      (out : Result A × W) (f : A → Action W B)
      → NotDiverged out.0
      → ((a : A) → Ends (f a))
      → NotDiverged (and_then out.0 f out.1).0
  Ends-then (ok a, w) f h rest = rest a w
  Ends-then (err e, w) f h rest = tt
  Ends-then (panic, w) f h rest = tt
  Ends-then (diverged, w) f h rest = h

  pub Ends-attempt :
      (out : Result A × W) (f : Result A → Action W B)
      → NotDiverged out.0
      → ((r : Result A) → NotDiverged r → Ends (f r))
      → NotDiverged (attempted out.0 f out.1).0
  Ends-attempt (ok a, w) f h rest = rest (ok a) tt w
  Ends-attempt (err e, w) f h rest = rest (err e) tt w
  Ends-attempt (panic, w) f h rest = tt
  Ends-attempt (diverged, w) f h rest = h

module _ {S : Type 0} where
  pub Ends-updated : (o : Option GraphState) (w : World S) → NotDiverged (updated o w).0
  Ends-updated none w = tt
  Ends-updated (some s) w = tt

module _ {W A : Type 0} where
  pub Ends-expect : (o : Option A) → Ends (expect {W = W} o)
  Ends-expect none w = tt
  Ends-expect (some a) w = tt

  pub Ends-if : (b : Bool) (m n : Action W A) → Ends m → Ends n → Ends (if b then m else n)
  Ends-if true m n hm hn = hm
  Ends-if false m n hm hn = hn

  pub Ends-for_each :
      (f : A → Action W (Unit {0})) (xs : List A) → ((a : A) → Ends (f a)) → Ends (for_each f xs)
  Ends-for_each f [] h w = tt
  Ends-for_each f (x ∷ xs) h w =
      Ends-then (f x w) (λ _. for_each f xs) (h x w) (λ _. Ends-for_each f xs h)
