-- ===== src/Base/Outcome.antt =====
-- Outcomes of C code.
use mathlib.Core.Path.{◌≡◌}

-- `out_of_bounds` is an access outside an array, which C leaves undefined; `no_fuel` says that a
-- `while` loop has not ended within the rounds that its model was given; `endless` passes on that
-- a loop that was called has not ended within rounds that are enough for it.
pub data Fault : Type 0 where
  out_of_bounds : Fault
  no_fuel : Fault
  endless : Fault

pub data Run {ℓ} (Result : Type ℓ) : Type ℓ where
  fail : Fault → Run Result
  ok : Result → Run Result

-- What a caller sees of a loop that was given enough fuel.
abbrev pub enough {ℓ} : {Result : Type ℓ} → Run Result → Run Result
enough (ok x) = ok x
enough (fail no_fuel) = fail endless
enough (fail why) = fail why

module _ {ℓ κ} where
  infixl 5 ◌>>=◌
  abbrev pub ◌>>=◌ : {Result : Type ℓ} {Next : Type κ} → Run Result → (Result → Run Next) → Run Next
  fail why >>= go_on = fail why
  ok x >>= go_on = go_on x

  -- The code ends normally, with a result that satisfies `P`.
  abbrev pub Returns : {Result : Type ℓ} → Run Result → (Result → Type κ) → Type (ℓ ⊔ κ)
  Returns {Result} r P = (x : Result) × (r ≡ ok x) × P x
