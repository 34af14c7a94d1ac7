-- ===== src/Rotations/Accumulate/Levels.antt =====
-- The rounds of Accumulate, and of GetAccumulateRotationIndices beside them.
use fideslib.Prelude.{
  ℕ, zero, suc, ◌+◌, ◌-◌, ◌*◌, ◌^◌, ◌≤◌, ◌<◌, ◌≡◌, ◌∙◌, sym, ap, refl, inl, inr, Bool, true, List,
  [], map, arith, Bool-cases, leb, leb→le,
}
use native.Mathlib.Nat.{mul_assoc, mul-le-mul_left}
use fideslib.Prelude.Bits.{pow_pos, pow_le, lt_pow}
use fideslib.Prelude.Mod.{pow_add}
use fideslib.Prelude.Int.{pos}
use fideslib.Ckks.Result.{ok}
use fideslib.Rotations.Evaluator.{Evaluator, all_served}
use fideslib.Rotations.Accumulate.{index_levels, accumulate_levels}
use fideslib.Rotations.Accumulate.Sum.{rot_sum, all_served-append}
use fideslib.Rotations.Accumulate.Rounds.{index_round, level_round}

-- The two loops together, for a step of the power b = 2 ^ p and a unit of `stride`
module _ (stride p : ℕ) (one_le : 1 ≤ p) (fits : p < 32) (stride_pos : 0 < stride) where
  index_stop :
      (fuel s b size : ℕ) → 0 < fuel → stride * size ≤ s → index_levels fuel s b stride size ≡ ok []
  unfolding index_levels
  index_stop zero s b size f h = absurd (omega arith)
  index_stop (suc fuel) s b size f h = ground arith

  level_stop :
      (e : Evaluator) (key : ℕ → Bool) (fuel s b size : ℕ) (c : e.Ct)
      → 0 < fuel
      → size ≤ s
      → accumulate_levels e key fuel s b stride size c ≡ ok c
  unfolding accumulate_levels
  level_stop e key zero s b size c f h = absurd (omega arith)
  level_stop e key (suc fuel) s b size c f h = ground arith

  -- What the two loops give from the level of t terms on, for t * 2 ^ r terms in all
  abbrev pub Outcome : (e : Evaluator) → (ℕ → Bool) → e.Ct → (f g r t : ℕ) → Type 0
  Outcome e key c f g r t =
      (l : List ℕ) × (index_levels f (stride * t) (2 ^ p) stride (t * 2 ^ r) ≡ ok l)
      × (all_served e key (map pos l) ≡ true
          → accumulate_levels e key g t (2 ^ p) stride (t * 2 ^ r) (rot_sum e (t - 1) stride c)
            ≡ ok (rot_sum e (t * 2 ^ r - 1) stride c))

  two_le : (k : ℕ) → 1 ≤ k → 1 < 2 ^ k
  two_le k h = omega (arith, lt_pow k)

  pow_split : (r : ℕ) → p ≤ r → 2 ^ r ≡ 2 ^ p * 2 ^ (r - p)
  pow_split r h =
      let s : r ≡ p + (r - p) = omega arith in ap (λ (x : ℕ). 2 ^ x) s ∙ pow_add 2 p (r - p)

  module _ (e : Evaluator) (key : ℕ → Bool) (c : e.Ct) (f g r t : ℕ) (tp : 0 < t) where
    full_round :
        1 ≤ r
        → p ≤ r
        → Outcome e key c f g (r - p) (t * 2 ^ p)
        → Outcome e key c (suc f) (suc g) r t
    full_round rp h (l, q, next) =
        let size : t * 2 ^ p * 2 ^ (r - p) ≡ t * 2 ^ r =
          mul_assoc t (2 ^ p) (2 ^ (r - p)) ∙ ap (λ (x : ℕ). t * x) (sym (pow_split r h)) in
        let small = pow_le p r h in
        (
          _,
          index_round stride p one_le fits stride_pos t r (2 ^ p) tp (two_le p one_le) small
              (omega arith) (inr refl) f l (rw size at q),
          λ keys.
              let (here, rest) = all_served-append e key _ l keys in
              level_round stride p one_le fits stride_pos t r (2 ^ p) tp (two_le p one_le) small
                (omega arith) (inr refl) e key c g _ here (rw size at (next rest)),
        )

    last_round : 1 ≤ r → r < p → 0 < f → 0 < g → Outcome e key c (suc f) (suc g) r t
    last_round rp h fp gp =
        let small = pow_le r p (omega arith) in
        let over : t * 2 ^ r ≤ t * 2 ^ p = mul-le-mul_left t small in
        (
          _,
          index_round stride p one_le fits stride_pos t r (2 ^ r) tp (two_le r rp) (omega arith)
              small (inl refl) f [] (index_stop f _ _ _ fp (mul-le-mul_left stride over)),
          λ keys.
              level_round stride p one_le fits stride_pos t r (2 ^ r) tp (two_le r rp) (omega arith)
                small (inl refl) e key c g _ (all_served-append e key _ [] keys).0
                (level_stop e key g _ _ _ _ gp over),
        )

  pub lockstep :
      (e : Evaluator) (key : ℕ → Bool) (c : e.Ct) (f g r t : ℕ)
      → 0 < t
      → r < f
      → r < g
      → Outcome e key c f g r t
  lockstep e key c zero g r t tp hf hg = absurd (omega arith)
  lockstep e key c (suc f) zero r t tp hf hg = absurd (omega arith)
  lockstep e key c (suc f) (suc g) zero t tp hf hg =
      let s : t * 1 ≡ t = omega arith in
      (
        [],
        index_stop (suc f) _ _ _ (omega arith) (omega arith),
        λ keys. rw s (level_stop e key (suc g) t _ t _ (omega arith) (omega arith)),
      )
  lockstep e key c (suc f) (suc g) (suc r) t tp hf hg = elim (Bool-cases (leb p (suc r))) [
    | inl le ↦ full_round e key c f g (suc r) t tp (omega arith) (leb→le _ _ le) (
        lockstep e key c f g (suc r - p) (t * 2 ^ p) (grind (arith, pow_pos p)) (omega arith)
          (omega arith))
    | inr gt ↦
        last_round e key c f g (suc r) t tp (omega arith) (ground arith) (omega arith) (omega arith)
  ]
