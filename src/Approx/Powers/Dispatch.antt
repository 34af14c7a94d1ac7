-- ===== src/Approx/Powers/Dispatch.antt =====
-- src/CKKS/ApproxModEval.cu: evalPowers and evalPolyWithPrecomp, which choose by the degree.
pub mod Claims
use fideslib.Prelude.{ℕ, Bool, not, Option, some, List, ltb, if◌then◌else◌}
use mathlib.Core.List.{map}
use fideslib.Ckks.Result.{Result, ok, err, ◌>>=◌, out_of_range}
use fideslib.Approx.Arithmetic.{Arithmetic}
use fideslib.Approx.Openfhe.{Openfhe}
use fideslib.Approx.Powers.{SeriesPowers, eval_powers_ps, eval_poly_ps}
use fideslib.Approx.Powers.Fused.{eval_poly_ps_fused}
use fideslib.Approx.Powers.Sparse.{eval_powers_linear, eval_poly_linear}

module _ (r : Arithmetic) (lib : Openfhe r) where
  open r use {R}

  -- A SeriesPowers of evalPowersLinear, without powers2, or one of evalPowersPS
  pub data PowerSet : Type 0 where
    sparse : (powers : List (Option R)) → PowerSet
    full : (series : SeriesPowers r lib) → PowerSet

  unfoldable pub entries : PowerSet → List (Option R)
  entries (sparse ts) = ts
  entries (full sp) = map some sp.powers

  unfoldable pub eval_powers : R → List R → (fused : Bool) → Result PowerSet
  eval_powers x f fused =
      if ltb (lib.degree f) 5
      then (eval_powers_linear r lib x f >>= λ ts. ok (sparse ts))
      else ok (full (eval_powers_ps r lib x (lib.degree f) fused))

  -- From degree 5 on; a sparse set has no powers2 to access.
  unfoldable pub eval_full : PowerSet → List R → (fused : Bool) → Result R
  eval_full (sparse ts) f fused = err out_of_range
  eval_full (full sp) f fused =
      if not fused then eval_poly_ps r lib sp f else eval_poly_ps_fused r lib sp f

  unfoldable pub eval_poly_with_precomp : PowerSet → List R → (fused : Bool) → Result R
  eval_poly_with_precomp ps f fused =
      if ltb (lib.degree f) 5 then eval_poly_linear r lib (entries ps) f else eval_full ps f fused
