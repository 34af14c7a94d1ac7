-- ===== src/Ckks/Context.antt =====
-- src/CKKS/Context.cuh: what ContextData tells the operations on ciphertexts, and the tables that
-- OpenFHE hands over (src/CKKS/Parameters.cuh). Scaling factors are doubles in the source; here
-- they are an abstract type with its operations, and `IsExact` says of them what holds up to
-- rounding. A level l, which is -1 for an empty polynomial, is written as its number of
-- towers l + 1, and the tables are read by towers.
pub mod Laws
use fideslib.Prelude.{ℕ, suc, ◌+◌, ◌≡◌, Bool, true, false, not, ◌||◌}
use fideslib.Ckks.Result.{Result, ok, guard, assertion}

pub data Technique : Type 0 where
  no_rescale fixed_manual fixed_auto flexible_auto flexible_auto_ext : Technique

abbrev pub is_fixed_manual : Technique → Bool
is_fixed_manual fixed_manual = true
is_fixed_manual _ = false

abbrev pub is_fixed_auto : Technique → Bool
is_fixed_auto fixed_auto = true
is_fixed_auto _ = false

-- FLEXIBLEAUTO || FLEXIBLEAUTOEXT
abbrev pub is_flexible : Technique → Bool
is_flexible flexible_auto = true
is_flexible flexible_auto_ext = true
is_flexible _ = false

abbrev pub is_ext : Technique → Bool
is_ext flexible_auto_ext = true
is_ext _ = false

-- FIXEDAUTO || FLEXIBLEAUTO || FLEXIBLEAUTOEXT
abbrev pub is_auto : Technique → Bool
is_auto t = is_fixed_auto t || is_flexible t

pub record Context : Type 1 where
  pub Factor : Type 0
  pub mul : Factor → Factor → Factor
  pub div : Factor → Factor → Factor
  -- 1.0 and 0.0
  pub one : Factor
  pub zero_factor : Factor
  -- == on doubles, and the assertions' tests of a relative distance
  pub eqb : Factor → Factor → Bool
  pub close : Factor → Factor → Bool
  -- ScalingFactorReal, ScalingFactorRealBig, ModReduceFactor, prime[l].p, specialPrime[0].p
  pub real : ℕ → Factor
  pub big : ℕ → Factor
  pub mod_reduce : ℕ → Factor
  pub prime : ℕ → Factor
  pub special : Factor
  pub technique : Technique
  -- L + 1
  pub top : ℕ
  -- specialMeta.at(0).size()
  pub special_count : ℕ
  -- is there a relinearization key for this tag (`precom.keys`)?
  pub has_eval_key : ℕ → Bool
  -- is the build one with assertions?
  pub debug : Bool

-- assert(b)
abbrev pub assert : Context → Bool → Result (Unit {0})
assert cc true = ok tt
assert cc false = guard (not cc.debug) assertion

pub record IsExact (cc : Context) : Type 0 where
  pub mul_comm : (a b : cc.Factor) → cc.mul a b ≡ cc.mul b a
  pub mul_assoc : (a b c : cc.Factor) → cc.mul (cc.mul a b) c ≡ cc.mul a (cc.mul b c)
  pub mul-div : (a b : cc.Factor) → cc.mul (cc.div a b) b ≡ a
  pub div-mul : (a b : cc.Factor) → cc.div (cc.mul a b) b ≡ a
  pub mul-one : (a : cc.Factor) → cc.mul cc.one a ≡ a
  pub eqb_refl : (a : cc.Factor) → cc.eqb a a ≡ true
  pub close_refl : (a : cc.Factor) → cc.close a a ≡ true
  -- The tables: a factor of degree 2 is the square of the level's, and dropping the level's last
  -- prime from it leaves the next level's factor.
  pub square : (t : ℕ) → cc.mul (cc.real t) (cc.real t) ≡ cc.big t
  pub reduce : (t : ℕ) → cc.mul (cc.real t) (cc.mod_reduce (suc t)) ≡ cc.big (suc t)
