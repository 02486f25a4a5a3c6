-- ===== src/Base/Result.antt =====
-- Exceptions as values.
use Prim.Native.String.{String}
use mathlib.Core.Path.{◌≡◌, refl, subst}
use mathlib.Core.Option.{Option, none, some}
use mathlib.Core.Logic.{◌⊎◌, inl, inr}

-- `thrown m` is `throw` of a text; `undefined` is an access that C++ leaves undefined; `exited`
-- is `exit(-1)`; `out_of_fuel` is a loop of the model that has not ended within its fuel.
pub data Exception : Type 0 where
  out_of_range invalid_argument undefined exited out_of_fuel : Exception
  thrown : String → Exception

-- What a function of the source gives: it throws, or it returns a value.
pub data Result {κ} (X : Type κ) : Type κ where
  err : Exception → Result X
  ok : X → Result X

-- The next statement runs when the one before it returns.
abbrev pub ◌>>=◌ {κ μ} : {X : Type κ} {Y : Type μ} → Result X → (X → Result Y) → Result Y
(err thrown_before) >>= next = err thrown_before
(ok x) >>= next = next x

infixl 5 ◌>>=◌
-- An access that the source does not check.
abbrev pub or_undefined {ℓ} : {A : Type ℓ} → Option A → Result A
or_undefined none = err undefined
or_undefined (some a) = ok a

-- A loop on fuel: `none` when the fuel has run out. The next round follows a round that returns.
abbrev pub run_on {ℓ κ} :
    {S : Type ℓ} {A : Type κ} → Result S → (S → Option (Result A)) → Option (Result A)
run_on (ok s) k = k s
run_on (err e) k = some (err e)

abbrev pub ended {ℓ} : {A : Type ℓ} → Option (Result A) → Result A
ended none = err out_of_fuel
ended (some r) = r

-- Two statements that return `y`: the first has returned a value, from which the second gives `y`.
pub bind-returned {κ μ} :
    {X : Type κ} {Y : Type μ} {y : Y} (first : Result X) (next : X → Result Y)
    → first >>= next ≡ ok y
    → (x : X) × (first ≡ ok x) × (next x ≡ ok y)
bind-returned (err thrown_before) next run = cc
bind-returned (ok x) next run = (x, refl, run)

-- `P` holds of whatever `r` returns.
abbrev pub Returns {ℓ κ} : {A : Type ℓ} → (A → Type κ) → Result A → Type (ℓ ⊔ κ)
Returns P r = (a : _) → r ≡ ok a → P a

module _ {ℓ κ μ} {A : Type ℓ} {B : Type κ} (P : B → Type μ) where
  pub Returns-bind :
      (m : Result A) (f : A → Result B) → ((a : A) → Returns P (f a)) → Returns P (m >>= f)
  Returns-bind (ok a) f h = h a
  Returns-bind (err e) f h = λ b p. absurd (cc)

  -- With what is known of the first part.
  pub Returns-bind_with {ν} :
      (Q : A → Type ν) (m : Result A) (f : A → Result B)
      → Returns Q m
      → ((a : A) → Q a → Returns P (f a))
      → Returns P (m >>= f)
  Returns-bind_with Q (ok a) f q h = h a (q a refl)
  Returns-bind_with Q (err e) f q h = λ b p. absurd (cc)

pub Returns-ok {ℓ κ} : {A : Type ℓ} (P : A → Type κ) (a : A) → P a → Returns P (ok a)
Returns-ok P a h b p = let e : a ≡ b = cc in subst P e h

-- A split that keeps the equation.
pub Result-cases {ℓ} :
    {A : Type ℓ} (r : Result A) → ((a : A) × (r ≡ ok a)) ⊎ ((e : Exception) × (r ≡ err e))
Result-cases (ok a) = inl (a, refl)
Result-cases (err e) = inr (e, refl)
