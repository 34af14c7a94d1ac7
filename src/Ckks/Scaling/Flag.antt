-- ===== src/Ckks/Scaling/Flag.antt =====
-- The flag of multScalar that asks for a rescale.
use fideslib.Prelude.{◌≡◌, refl, ◌⊎◌, inl, inr, true, false, ◌&&◌}
use fideslib.Ckks.Result.{Result, Error, ok, err}
use fideslib.Ckks.Context.{
  Context, Technique, is_fixed_manual, is_fixed_auto, no_rescale, fixed_manual, fixed_auto,
  flexible_auto, flexible_auto_ext,
}
use fideslib.Ckks.Ciphertext.{Ciphertext}
use fideslib.Ckks.Scaling.{mult_scalar, mult_scalar_no_precheck, to_degree_one}

Result-cases {ℓ} :
    {A : Type ℓ} (r : Result A) → ((a : A) × (r ≡ ok a)) ⊎ ((x : Error) × (r ≡ err x))
Result-cases (ok a) = inl (a, refl)
Result-cases (err x) = inr (x, refl)

-- A technique is not both FIXEDMANUAL and FIXEDAUTO.
not_both : (t : Technique) → (is_fixed_manual t && is_fixed_auto t) ≡ false
not_both no_rescale = refl
not_both fixed_manual = refl
not_both fixed_auto = refl
not_both flexible_auto = refl
not_both flexible_auto_ext = refl

module _ (cc : Context) (c : cc.Factor) where
  no_precheck_lem :
      (ct : Ciphertext cc.Factor)
      → mult_scalar_no_precheck cc ct c (is_fixed_manual cc.technique)
        ≡ mult_scalar_no_precheck cc ct c false
  unfolding mult_scalar_no_precheck
  no_precheck_lem ct = rw (not_both cc.technique)

  -- Ciphertext::multScalar(c, rescale) does the same with and without its rescale flag, on every
  -- ciphertext and under every technique, errors included: no flag makes it rescale the product.
  pub mult_scalar-ignores_rescale :
      (ct : Ciphertext cc.Factor) → mult_scalar cc ct c true ≡ mult_scalar cc ct c false
  unfolding mult_scalar
  mult_scalar-ignores_rescale ct = elim (Result-cases (to_degree_one cc ct)) [
    | inl (r, h) ↦ rw h (no_precheck_lem r)
    | inr (x, h) ↦ rw h
  ]
