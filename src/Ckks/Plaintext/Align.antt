-- ===== src/Ckks/Plaintext/Align.antt =====
-- Plaintext::adjustScaleAndLevel under the flexible techniques, where the plaintext has more levels
-- than the target or as many.
use fideslib.Prelude.{
  ℕ, suc, ◌+◌, ◌-◌, ◌≤◌, ◌<◌, ◌≡◌, sym, ap, ◌∙◌, false, inl, inr, arith, ltb, ◌==◌, if◌then◌else◌,
  Bool-cases,
}
use fideslib.Ckks.Result.{ok}
use fideslib.Ckks.Context.{Context, IsExact}
use fideslib.Ckks.Context.Laws.{retarget, retarget_reduce, round_trip, big-reduce}
use fideslib.Ckks.Poly
use fideslib.Ckks.Plaintext.{
  Plaintext, rescale, mult_scalar, drop_towers, settle, align_2_2, align_2_1, align_1_2, align_1_1,
}

module _ (cc : Context) (e : IsExact cc) (slots : ℕ) where
  open cc use {mul, div, real, big, mod_reduce}

  abbrev pub at : ℕ → ℕ → cc.Factor → cc.Factor → Plaintext cc.Factor
  at t d f s = record {
    c0 = record { towers = t; mod_up = false };
    noise_factor = f;
    noise_level = d;
    slots = slots;
    scale = s;
  }

  pub mult_at :
      (t d : ℕ) (f s c : cc.Factor)
      → mult_scalar cc (at (suc t) d f s) c false
        ≡ ok (at (suc t) (d + 1) (mul f (real (suc t))) (mul s (mul c (real (suc t)))))
  unfolding mult_scalar
  mult_at t d f s c = ground arith

  rescale_lem :
      (t d : ℕ) (f s : cc.Factor)
      → rescale cc (at (suc t) (suc (suc d)) f s)
        ≡ ok (at t (suc d) (div f (mod_reduce (suc t))) (div s (mod_reduce (suc t))))
  unfolding rescale
  rescale_lem t d f s = ground arith

  drop_at : (t2 t d : ℕ) (f s : cc.Factor) → t2 ≤ t → drop_towers cc t2 (at t d f s) ≡ at t2 d f s
  unfolding drop_towers Poly.drop_to_level
  drop_at t2 t d f s h = elim (Bool-cases (ltb t2 t)) [
    | inl more ↦ rw more
    | inr same ↦
        let eq : t ≡ t2 = ground (arith, h, same) in rw same (ap (λ (x : ℕ). at x d f s) eq)
  ]

  settle_lem :
      (t d : ℕ) (f s expected g : cc.Factor)
      → expected ≡ g
      → settle cc (at t d f s) expected g ≡ ok (at t d g s)
  unfolding settle
  settle_lem t d f s expected g h = rw (h, e.close_refl g)

  -- (u / q) * f = (u * f) / q
  div_out : (u q f : cc.Factor) → mul (div u q) f ≡ div (mul u f) q
  div_out u q f =
      sym (e.div-mul (mul (div u q) f) q)
      ∙ ap (λ (x : cc.Factor). div x q)
          (e.mul_assoc (div u q) f q
            ∙ ap (mul (div u q)) (e.mul_comm f q)
            ∙ sym (e.mul_assoc (div u q) q f)
            ∙ ap (λ (x : cc.Factor). mul x f) (e.mul-div u q))

  -- The order of two divisions is free.
  div_swap : (u p q : cc.Factor) → div (div u p) q ≡ div (div u q) p
  div_swap u p q =
      sym (e.div-mul (div (div u p) q) p)
      ∙ ap (λ (x : cc.Factor). div x p)
          (div_out (div u p) q p ∙ ap (λ (x : cc.Factor). div x q) (e.mul-div u p))

  cancel_left : (a b : cc.Factor) → div (mul a b) a ≡ b
  cancel_left a b = ap (λ (x : cc.Factor). div x a) (e.mul_comm a b) ∙ e.div-mul b a

  -- ((b * r / q) * f / b) * q / r = f
  round4 : (b r q f : cc.Factor) → div (mul (div (mul (div (mul b r) q) f) b) q) r ≡ f
  round4 b r q f =
      ap (λ (x : cc.Factor). div (mul (div x b) q) r) (div_out (mul b r) q f)
      ∙ ap (λ (x : cc.Factor). div (mul x q) r)
          (div_swap (mul (mul b r) f) q b
            ∙ ap (λ (x : cc.Factor). div (div x b) q) (e.mul_assoc b r f)
            ∙ ap (λ (x : cc.Factor). div x q) (cancel_left b (mul r f)))
      ∙ ap (λ (x : cc.Factor). div x r) (e.mul-div (mul r f) q)
      ∙ cancel_left r f

  -- A further division inside comes out.
  round5 :
      (b r q p f : cc.Factor) → div (mul (div (mul (div (div (mul b r) q) p) f) b) q) r ≡ div f p
  round5 b r q p f =
      ap (λ (x : cc.Factor). div (mul (div x b) q) r) (div_out (div (mul b r) q) p f)
      ∙ ap (λ (x : cc.Factor). div (mul x q) r) (div_swap (mul (div (mul b r) q) f) p b)
      ∙ ap (λ (x : cc.Factor). div x r) (div_out (div (mul (div (mul b r) q) f) b) p q)
      ∙ div_swap (mul (div (mul (div (mul b r) q) f) b) q) p r
      ∙ ap (λ (x : cc.Factor). div x p) (round4 b r q f)

  round3 : (r p f : cc.Factor) → div (div (mul (div (mul r r) p) f) r) r ≡ div f p
  round3 r p f =
      ap (λ (x : cc.Factor). div (div x r) r) (div_out (mul r r) p f)
      ∙ ap (λ (x : cc.Factor). div x r) (div_swap (mul (mul r r) f) p r)
      ∙ div_swap (div (mul (mul r r) f) r) p r
      ∙ ap (λ (x : cc.Factor). div x p) (round_trip cc e r r f)

  pub align_1_2_lem :
      (t2 t : ℕ)
      → t2 ≤ t
      → align_1_2 cc (at (suc t) 1 (real (suc t)) (real (suc t))) t2 (big t2)
        ≡ ok (at t2 2 (big t2) (big t2))
  unfolding align_1_2
  align_1_2_lem t2 t h =
      let r = real (suc t) in
      let c = div (div (big t2) r) r in
      rw
        (
          mult_at t 1 r r c,
          drop_at t2 (suc t) 2 (mul r r) (mul r (mul c r)) (omega (arith, h)),
          retarget cc e r r (big t2),
        )
        (settle_lem t2 2 (mul r r) (big t2) (div (div (mul (mul r r) (big t2)) r) r) (big t2)
          (round_trip cc e r r (big t2)))

  pub align_2_2_lem :
      (t2 t : ℕ)
      → t2 ≤ t
      → align_2_2 cc (at (suc t) 2 (big (suc t)) (big (suc t))) t2 (big t2)
        ≡ ok (at t2 2 (big t2) (big t2))
  unfolding align_2_2
  align_2_2_lem t2 t h =
      let r = real (suc t) in
      let b = big (suc t) in
      let q = mod_reduce (suc t) in
      let c = div (mul (div (big t2) b) q) r in
      rw
        (
          mult_at t 2 b b c,
          rescale_lem t 1 (mul b r) (mul b (mul c r)),
          drop_at t2 t 2 (div (mul b r) q) (div (mul b (mul c r)) q) h,
          retarget_reduce cc e b r (big t2) q,
        )
        (settle_lem t2 2 (div (mul b r) q) (big t2)
          (div (mul (div (mul (div (mul b r) q) (big t2)) b) q) r) (big t2) (round4 b r q (big t2)))

  -- To drop to one tower more than the target's.
  drop_above :
      (t2 t d : ℕ) (f s : cc.Factor)
      → t2 < t
      → (if ltb t2 (t - 1) then drop_towers cc (suc t2) (at t d f s) else at t d f s)
        ≡ at (suc t2) d f s
  drop_above t2 t d f s h = elim (Bool-cases (ltb t2 (t - 1))) [
    | inl more ↦ rw (more, drop_at (suc t2) t d f s (omega (arith, h)))
    | inr same ↦
        let eq : t ≡ suc t2 = ground (arith, h, same) in rw same (ap (λ (x : ℕ). at x d f s) eq)
  ]

  pub align_1_1_lem :
      (t2 t : ℕ)
      → t2 ≤ t
      → align_1_1 cc (at (suc t) 1 (real (suc t)) (real (suc t))) t2 (real t2)
        ≡ ok (at t2 1 (real t2) (real t2))
  unfolding align_1_1
  align_1_1_lem t2 t h =
      let r = real (suc t) in
      let b2 = big (suc t2) in
      let q2 = mod_reduce (suc t2) in
      let c = div (div b2 r) r in
      rw
        (
          mult_at t 1 r r c,
          drop_above t2 (suc t) 2 (mul r r) (mul r (mul c r)) (omega (arith, h)),
          rescale_lem t2 0 (mul r r) (mul r (mul c r)),
          retarget cc e r r b2,
          big-reduce cc e t2,
        )
        (settle_lem t2 1 (div (mul r r) q2) (real t2) (div (div (mul (div (mul r r) q2) b2) r) r)
          (real t2) (round3 r q2 b2 ∙ big-reduce cc e t2))

  pub align_2_1_lem :
      (t2 t : ℕ)
      → t2 ≤ t
      → align_2_1 cc (at (suc t) 2 (big (suc t)) (big (suc t))) t2 (real t2)
        ≡ ok (at t2 1 (real t2) (real t2))
  unfolding align_2_1
  align_2_1_lem t2 t h =
      let r = real (suc t) in
      let b = big (suc t) in
      let q = mod_reduce (suc t) in
      let b2 = big (suc t2) in
      let q2 = mod_reduce (suc t2) in
      let c = div (mul (div b2 b) q) r in
      let pred : suc t - 1 ≡ t = omega arith in
      elim (Bool-cases (t == t2)) [
        | inl one_more ↦
            let eq : t ≡ t2 = ground (arith, one_more) in
            rw (pred, one_more, rescale_lem t 0 b b, big-reduce cc e t)
              (ap (λ (x : ℕ). ok (at x 1 (real x) (real x))) eq)
        | inr more ↦
            rw
              (
                pred,
                more,
                mult_at t 2 b b c,
                rescale_lem t 1 (mul b r) (mul b (mul c r)),
                retarget_reduce cc e b r b2 q,
                drop_above t2 t 2 (div (mul b r) q) b2 (ground (arith, h, more)),
                rescale_lem t2 0 (div (mul b r) q) b2,
                big-reduce cc e t2,
              )
              (settle_lem t2 1 (div (div (mul b r) q) q2) (real t2)
                (div (mul (div (mul (div (div (mul b r) q) q2) b2) b) q) r) (real t2)
                (round5 b r q q2 b2 ∙ big-reduce cc e t2))
      ]
