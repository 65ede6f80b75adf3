-- ===== src/Graph/Effects.antt =====
-- Statements that change a world and may fail: `anyhow::Result` beside the mutated world.
use wingfoil.Base.{ℕ, List, [], ◌∷◌, Option, none, some}

pub data Phase : Type 0 where
  setup start cycle stop teardown : Phase
  setup_added start_added stop_removed teardown_removed : Phase

-- An `anyhow::Error`: what went wrong, under the contexts that were attached on the way out. The
-- text of a context is not kept, only the phase and the node index that it names.
mutual
  pub data Error : Type 0 where
    node_failed : ℕ → Error
    cycle_detected : ℕ → Error
    ready_in_historical : Error
    in_node : Phase → ℕ → Error → Error
    during_shutdown : Error → Errors → Error

  pub data Errors : Type 0 where
    last : Error → Errors
    more : Error → Errors → Errors

-- `panic` is an `expect` or an index that fails; `diverged` is a loop that outlives its fuel.
pub data Result {ℓ} (A : Type ℓ) : Type ℓ where
  ok : A → Result A
  err : Error → Result A
  panic : Result A
  diverged : Result A

abbrev pub Action : Type 0 → Type 0 → Type 0
Action W A = W → Result A × W

abbrev pub pure : {W A : Type 0} → A → Action W A
pure a w = (ok a, w)

abbrev pub fail : {W A : Type 0} → Error → Action W A
fail e w = (err e, w)

abbrev pub and_then : {W A B : Type 0} → Result A → (A → Action W B) → Action W B
and_then (ok a) f w = f a w
and_then (err e) f w = (err e, w)
and_then panic f w = (panic, w)
and_then diverged f w = (diverged, w)

infixl 5 ◌>>=◌ ◌>>◌
abbrev pub ◌>>=◌ : {W A B : Type 0} → Action W A → (A → Action W B) → Action W B
◌>>=◌ m f w = let (r, w') = m w in and_then r f w'

abbrev pub ◌>>◌ : {W B : Type 0} → Action W (Unit {0}) → Action W B → Action W B
m >> n = m >>= λ _. n

-- An index or an `expect` that panics on `none`.
abbrev pub expect : {W A : Type 0} → Option A → Action W A
expect none w = (panic, w)
expect (some a) w = (ok a, w)

-- Bind the `Result` itself, as a `let` without `?` does. A panic unwinds past the binding.
abbrev pub attempted : {W A B : Type 0} → Result A → (Result A → Action W B) → Action W B
attempted panic f w = (panic, w)
attempted diverged f w = (diverged, w)
attempted r f w = f r w

abbrev pub attempt : {W A B : Type 0} → Action W A → (Result A → Action W B) → Action W B
attempt m f w = let (r, w') = m w in attempted r f w'

-- `map_err(|e| e.context(...))`
abbrev pub with_context : {A : Type 0} → Phase → ℕ → Result A → Result A
with_context p ix (err e) = err (in_node p ix e)
with_context p ix r = r

-- The `?` operator.
abbrev pub propagate : {W A : Type 0} → Result A → Action W A
propagate r w = (r, w)

abbrev pub for_each : {W A : Type 0} → (A → Action W (Unit {0})) → List A → Action W (Unit {0})
for_each f [] = pure tt
for_each f (x ∷ xs) = f x >> for_each f xs

-- A loop that outlives its fuel.
abbrev pub diverge : {W A : Type 0} → Action W A
diverge w = (diverged, w)
