-- ===== src/Ckks/Result.antt =====
-- How an operation ends: it returns, or it stops by an exception or an assertion.
use fideslib.Prelude.{◌≡◌, refl, ap, Bool, if◌then◌else◌}

pub data Error : Type 0 where
  -- throwAdjustFailure, and ContextData::GetEvalKey on a missing key
  adjust_failure missing_key : Error
  -- a failed `assert`, in a build that has them
  assertion : Error
  -- `at` beyond a table, and a number that the source lets fall below its type's use
  out_of_range : Error
  -- std::invalid_argument
  invalid_argument : Error
  -- an exception of OpenFHE
  openfhe_error : Error
  -- the model's recursion ran out of fuel
  out_of_fuel : Error

pub data Result {κ} (Value : Type κ) : Type κ where
  err : (why : Error) → Result Value
  ok : (value : Value) → Result Value

-- The step after a result: an error ends the operation.
infixl 5 ◌>>=◌
abbrev pub ◌>>=◌ {ℓ ι} :
    {Value : Type ℓ} {Next : Type ι} → Result Value → (Value → Result Next) → Result Next
(err why) >>= next = err why
(ok value) >>= next = next value

-- The step after a check
infixl 5 ◌>>◌
abbrev pub ◌>>◌ {ι} : {Next : Type ι} → Result (Unit {0}) → Result Next → Result Next
check >> next = check >>= (λ nothing. next)

-- A check that a wrong test ends with the error
abbrev pub guard : Bool → Error → Result (Unit {0})
guard test why = if test then ok tt else err why

unfoldable pub value_or {ℓ} : {Value : Type ℓ} → Value → Result Value → Value
value_or other (err why) = other
value_or other (ok value) = value

pub ok-injective {ℓ} : {Value : Type ℓ} (a b : Value) → ok a ≡ ok b → a ≡ b
unfolding value_or
ok-injective a b h = ap (value_or a) h

-- A chain that returned: its first step did, and the rest after it.
pub >>=-eq-ok {ℓ κ} :
    {Value : Type ℓ} {Next : Type κ} (step : Result Value) (next : Value → Result Next) {b : Next}
    → (step >>= next) ≡ ok b
    → (a : Value) × (step ≡ ok a) × (next a ≡ ok b)
>>=-eq-ok (err why) next h = cc
>>=-eq-ok (ok a) next h = (a, refl, h)
