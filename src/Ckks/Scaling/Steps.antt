-- ===== src/Ckks/Scaling/Steps.antt =====
-- The single steps of an alignment, on a resident ciphertext that is not extended, written out as
-- a record.
use fideslib.Prelude.{ℕ, suc, ◌+◌, ◌≤◌, ◌<◌, ◌≡◌, true, false, none, arith}
use fideslib.Ckks.Result.{ok}
use fideslib.Ckks.Context.{Context}
use fideslib.Ckks.Poly
use fideslib.Ckks.Ciphertext.{Ciphertext}
use fideslib.Ckks.Scaling.{table_factor, rescale_internal, mult_scalar_no_precheck, drop_towers}

abbrev pub shape : (cc : Context) → ℕ → ℕ → ℕ → ℕ → cc.Factor → cc.Factor → Ciphertext cc.Factor
shape cc key slots t degree factor scale = record {
  c0 = record { towers = t; mod_up = false };
  c1 = record { towers = t; mod_up = false };
  offloaded = none;
  key_id = key;
  noise_factor = factor;
  noise_level = degree;
  slots = slots;
  scale = scale;
}

module _ (cc : Context) (key slots : ℕ) where
  abbrev at : ℕ → ℕ → cc.Factor → cc.Factor → Ciphertext cc.Factor
  at = shape cc key slots

  pub rescale_shape :
      (t d : ℕ) (f s : cc.Factor)
      → suc t ≤ cc.top
      → cc.eqb (cc.div f (cc.mod_reduce (suc t))) (table_factor cc t d) ≡ true
      → rescale_internal cc (at (suc t) (suc d) f s)
        ≡ ok (at t d (cc.div f (cc.mod_reduce (suc t))) (cc.div s (cc.mod_reduce (suc t))))
  unfolding rescale_internal Poly.rescale_double
  rescale_shape t d f s h e = ground arith

  pub mult_shape :
      (t d : ℕ) (f s c : cc.Factor)
      → t ≤ cc.top
      → mult_scalar_no_precheck cc (at t d f s) c false
        ≡ ok (at t (d + 1) (cc.mul f (cc.real t)) (cc.mul s (cc.mul c (cc.real t))))
  unfolding mult_scalar_no_precheck
  mult_shape t d f s c h = ground arith

  pub drop_shape :
      (t2 t d : ℕ) (f s : cc.Factor) → t2 < t → drop_towers cc t2 (at t d f s) ≡ ok (at t2 d f s)
  unfolding drop_towers Poly.drop_to_level
  drop_shape t2 t d f s h = ground arith
