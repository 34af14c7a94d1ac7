-- ===== src/Ckks/Mult/Factors.antt =====
-- The alignment of the factors of mult, for each order of their levels and each degree.
use fideslib.Prelude.{ℕ, suc, ◌≤◌, ◌≡◌, true, false, arith}
use fideslib.Ckks.Result.{ok}
use fideslib.Ckks.Context.{Context, IsExact, is_flexible}
use fideslib.Ckks.Context.Laws.{big-reduce}
use fideslib.Ckks.Scaling.{rescale_internal}
use fideslib.Ckks.Adjust.Align.{rescale_to}
use fideslib.Ckks.Adjust.Flexible.{IsDegree, one, two, canon}
use fideslib.Ckks.AddSub.Flexible.{comes_down, comes_down_sym, adjust_lem, copy_lem}
use fideslib.Ckks.Mult.{align_factors}

module _ (cc : Context) (e : IsExact cc) (flexible : is_flexible cc.technique ≡ true) where
  pub rescale_lem :
      (key s t : ℕ)
      → suc t ≤ cc.top
      → rescale_internal cc (canon cc key s (suc t) 2) ≡ ok (canon cc key s t 1)
  rescale_lem key s t h =
      rescale_to cc e key s t 1 (cc.big (suc t)) (cc.big (suc t)) (cc.real t) h (big-reduce cc e t)
        (big-reduce cc e t)

  module _ (key s1 s2 : ℕ) where
    pub factors_down_1 :
        (t1 t2 : ℕ) {d1 : ℕ}
        → IsDegree d1
        → d1 ≤ t1
        → 1 ≤ t2
        → t1 ≤ cc.top
        → comes_down t1 d1 t2 1 ≡ true
        → align_factors cc (canon cc key s1 t1 d1) (canon cc key s2 t2 1)
          ≡ ok (false, canon cc key s1 t2 1, canon cc key s2 t2 1)
    unfolding align_factors
    factors_down_1 t1 t2 a g1 g2 k down =
        rw (adjust_lem cc e flexible key s1 s2 t1 t2 a one g1 g2 k, down)

    pub factors_down_2 :
        (t1 t : ℕ) {d1 : ℕ}
        → IsDegree d1
        → d1 ≤ t1
        → 1 ≤ t
        → t1 ≤ cc.top
        → suc t ≤ cc.top
        → comes_down t1 d1 (suc t) 2 ≡ true
        → align_factors cc (canon cc key s1 t1 d1) (canon cc key s2 (suc t) 2)
          ≡ ok (true, canon cc key s1 t 1, canon cc key s2 t 1)
    unfolding align_factors
    factors_down_2 t1 t a g1 g2 k k2 down = rw (
      adjust_lem cc e flexible key s1 s2 t1 (suc t) a two g1 (omega arith) k,
      down,
      rescale_lem key s1 t k2,
      copy_lem cc e flexible key s2 s1 (suc t) 2,
      rescale_lem key s2 t k2,
    )

    pub factors_up_1 :
        (t1 t2 : ℕ) {d2 : ℕ}
        → IsDegree d2
        → 1 ≤ t1
        → d2 ≤ t2
        → t1 ≤ cc.top
        → t2 ≤ cc.top
        → comes_down t1 1 t2 d2 ≡ false
        → align_factors cc (canon cc key s1 t1 1) (canon cc key s2 t2 d2)
          ≡ ok (true, canon cc key s1 t1 1, canon cc key s2 t1 1)
    unfolding align_factors
    factors_up_1 t1 t2 {d2} b g1 g2 k1 k2 up = rw (
      adjust_lem cc e flexible key s1 s2 t1 t2 one b g1 g2 k1,
      up,
      copy_lem cc e flexible key s2 s1 t2 d2,
      adjust_lem cc e flexible key s2 s1 t2 t1 b one g2 g1 k2,
      comes_down_sym t1 1 t2 d2 up,
    )

    pub factors_up_2 :
        (t t2 : ℕ) {d2 : ℕ}
        → IsDegree d2
        → 1 ≤ t
        → d2 ≤ t2
        → suc t ≤ cc.top
        → t2 ≤ cc.top
        → comes_down (suc t) 2 t2 d2 ≡ false
        → align_factors cc (canon cc key s1 (suc t) 2) (canon cc key s2 t2 d2)
          ≡ ok (true, canon cc key s1 t 1, canon cc key s2 t 1)
    unfolding align_factors
    factors_up_2 t t2 {d2} b g1 g2 k1 k2 up = rw (
      adjust_lem cc e flexible key s1 s2 (suc t) t2 two b (omega arith) g2 k1,
      up,
      copy_lem cc e flexible key s2 s1 t2 d2,
      adjust_lem cc e flexible key s2 s1 t2 (suc t) b two g2 (omega arith) k2,
      comes_down_sym (suc t) 2 t2 d2 up,
      rescale_lem key s1 t k1,
      rescale_lem key s2 t k1,
    )
