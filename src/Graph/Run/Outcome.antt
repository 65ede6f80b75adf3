-- ===== src/Graph/Run/Outcome.antt =====
-- `first_error`, which makes one result of the results of the phases of a run.
use wingfoil.Base.{◌≡◌, refl, ap, ◌∙◌, List, [], ◌∷◌, ◌++◌, All}
use wingfoil.Graph.Effects.{Result, ok, err, panic, diverged, Error, Errors}
use wingfoil.Graph.Run.{errors_of, chain, first_error}

abbrev pub IsFine : Result (Unit {0}) → Type 0
IsFine (err e) = ⊥
IsFine r = Unit

abbrev pub all_errors : Errors → List Error
all_errors (Errors.last e) = e ∷ []
all_errors (Errors.more e es) = e ∷ all_errors es

all_errors-chain : (e : Error) (es : List Error) → all_errors (chain e es) ≡ e ∷ es
all_errors-chain e [] = refl
all_errors-chain e (x ∷ xs) = ap (λ l. e ∷ l) (all_errors-chain x xs)

-- The errors among results, in order.
abbrev pub failures : List (Result (Unit {0})) → List Error
failures [] = []
failures (ok a ∷ rs) = failures rs
failures (err e ∷ rs) = e ∷ failures rs
failures (panic ∷ rs) = failures rs
failures (diverged ∷ rs) = failures rs

failures-errors_of : (rs : List (Result (Unit {0}))) → errors_of rs ≡ failures rs
unfolding errors_of
failures-errors_of [] = refl
failures-errors_of (ok a ∷ rs) = failures-errors_of rs
failures-errors_of (err e ∷ rs) = ap (λ l. e ∷ l) (failures-errors_of rs)
failures-errors_of (panic ∷ rs) = failures-errors_of rs
failures-errors_of (diverged ∷ rs) = failures-errors_of rs

-- The error `e` itself if there are no later ones, and else with all of them in its context.
abbrev pub Carries : Error → List Error → Result (Unit {0}) → Type 0
Carries e [] r = r ≡ err e
Carries e (x ∷ xs) r =
    (later : Errors) × (r ≡ err (Error.during_shutdown e later)) × (all_errors later ≡ x ∷ xs)

front_fine : (rs : List (Result (Unit {0}))) → All IsFine rs → errors_of rs ≡ []
unfolding errors_of
front_fine [] h = refl
front_fine (ok a ∷ rs) h = front_fine rs h.1
front_fine (err e ∷ rs) h = absurd h.0
front_fine (panic ∷ rs) h = front_fine rs h.1
front_fine (diverged ∷ rs) h = front_fine rs h.1

errors_of-append :
    (front back : List (Result (Unit {0})))
    → All IsFine front
    → errors_of (front ++ back) ≡ errors_of back
unfolding errors_of
errors_of-append [] back h = refl
errors_of-append (ok a ∷ front) back h = errors_of-append front back h.1
errors_of-append (err e ∷ front) back h = absurd h.0
errors_of-append (panic ∷ front) back h = errors_of-append front back h.1
errors_of-append (diverged ∷ front) back h = errors_of-append front back h.1

first_error_later :
    (rs : List (Result (Unit {0}))) (e : Error) (later : List Error)
    → errors_of rs ≡ e ∷ later
    → Carries e later (first_error rs)
unfolding first_error
first_error_later rs e [] h = rw (h, first_error) refl
first_error_later rs e (x ∷ xs) h = (chain x xs, rw (h, first_error) refl, all_errors-chain x xs)

-- Of results without an error `first_error` makes a success; of results whose first error is `e`
-- it makes `e`, with all later errors in their order as its context if there are any.
pub first_error-append :
    (front back : List (Result (Unit {0}))) (e : Error)
    → All IsFine front
    → (first_error front ≡ ok tt) × Carries e (failures back) (first_error (front ++ err e ∷ back))
unfolding first_error
first_error-append front back e h = (
  rw (front_fine front h, first_error) refl,
  first_error_later (front ++ err e ∷ back) e (failures back)
      (errors_of-append front (err e ∷ back) h ∙ failures-errors_of (err e ∷ back)),
)
