-- ===== src/Ckks/Context/Laws.antt =====
-- Consequences of exact arithmetic on scaling factors, in the forms that the multipliers of
-- adjustScaleAndLevel take.
use fideslib.Prelude.{ℕ, suc, ◌≡◌, sym, ap, ◌∙◌}
use fideslib.Ckks.Context.{Context, IsExact}

module _ (cc : Context) (e : IsExact cc) where
  open cc use {mul, div, real, big, mod_reduce}

  pub mul-div_left : (a b : cc.Factor) → mul a (div b a) ≡ b
  mul-div_left a b = e.mul_comm a (div b a) ∙ e.mul-div b a

  -- scf1 * ((scf2 / scf1 / scf) * scf)
  pub retarget : (a b c : cc.Factor) → mul a (mul (div (div c a) b) b) ≡ c
  retarget a b c = ap (mul a) (e.mul-div (div c a) b) ∙ mul-div_left a c

  -- scf1 * ((scf2 / scf1 * q / scf) * scf) / q
  pub retarget_reduce : (a b c q : cc.Factor) → div (mul a (mul (div (mul (div c a) q) b) b)) q ≡ c
  retarget_reduce a b c q =
      ap (λ (t : cc.Factor). div (mul a t) q) (e.mul-div (mul (div c a) q) b)
      ∙ ap (λ (t : cc.Factor). div t q) (sym (e.mul_assoc a (div c a) q))
      ∙ e.div-mul (mul a (div c a)) q
      ∙ mul-div_left a c

  -- (scf1 * scf) * (scf2 / scf1 / scf)
  pub record_retarget : (a b c : cc.Factor) → mul (mul a b) (div (div c a) b) ≡ c
  record_retarget a b c =
      e.mul_assoc a b (div (div c a) b) ∙ ap (mul a) (mul-div_left b (div c a)) ∙ mul-div_left a c

  -- (scf1 * scf) * scf2 / scf1 / scf
  pub round_trip : (a b c : cc.Factor) → div (div (mul (mul a b) c) a) b ≡ c
  round_trip a b c =
      ap (λ (t : cc.Factor). div (div t a) b) (e.mul_comm (mul a b) c)
      ∙ ap (λ (t : cc.Factor). div (div (mul c t) a) b) (e.mul_comm a b)
      ∙ ap (λ (t : cc.Factor). div (div t a) b) (sym (e.mul_assoc c b a))
      ∙ ap (λ (t : cc.Factor). div t b) (e.div-mul (mul c b) a)
      ∙ e.div-mul c b

  -- Big[l] / ModReduceFactor[l] is the next level's factor.
  pub big-reduce : (t : ℕ) → div (big (suc t)) (mod_reduce (suc t)) ≡ real t
  big-reduce t =
      ap (λ (x : cc.Factor). div x (mod_reduce (suc t))) (sym (e.reduce t))
      ∙ e.div-mul (real t) (mod_reduce (suc t))
