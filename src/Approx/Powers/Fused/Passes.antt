-- ===== src/Approx/Powers/Fused/Passes.antt =====
-- Two passes over one tree: the first records the weights of the sums, the second takes their values
-- from a stack in the same order.
use fideslib.Prelude.{◌≡◌, refl, ap, ◌∙◌, List, [], ◌∷◌, ◌++◌}
use mathlib.Core.List.{append_assoc}
use fideslib.Ckks.Result.{Result, ok, ◌>>=◌}
use fideslib.Approx.Arithmetic.{Arithmetic}
use fideslib.Approx.Openfhe.{Openfhe, IsExact}
use fideslib.Approx.WeightedSum.{batched_sum, batched_sums}
use fideslib.Approx.Chebyshev.{pop}
use fideslib.Approx.Chebyshev.Nodes.{batched_sums-append}

abbrev pub pair {ℓ κ} : {A : Type ℓ} {B : Type κ} → A → B → Result (A × B)
pair a b = ok (a, b)

module _ (r : Arithmetic) (lib : Openfhe r) (x : IsExact r lib) (ts : List r.R) where
  open r use {R, add, mul}

  -- A recording, and a replay that takes the values of its batch and gives v
  pub record Passes (recording : Result (List (List R))) (replay : List R → Result (R × List R))
      (v : R) : Type 0 where
    pub constants : List (List R)
    pub ws : List R
    pub recorded : recording ≡ ok constants
    pub batch : batched_sums r lib ts constants ≡ ok ws
    pub replayed : (rest : List R) → replay (ws ++ rest) ≡ pair v rest

  -- One sum
  pub one_sum :
      (w : List R) (v : R) → batched_sum r lib ts w ≡ ok v → Passes (ok (w ∷ [])) (λ st. pop st) v
  unfolding batched_sums pop
  one_sum w v h = record {
    constants = w ∷ [];
    ws = v ∷ [];
    recorded = refl;
    batch = rw h;
    replayed = λ rest. refl;
  }

  -- A step from its parts
  pub joined :
      {ra rb rc : Result (List (List R))} {pa pb pc : List R → Result (R × List R)} {va vb vc : R}
      → Passes ra pa va
      → Passes rb pb vb
      → Passes rc pc vc
      → Passes
          (ra >>= λ qs. rb >>= λ ss. rc >>= λ cs. ok (qs ++ (ss ++ cs)))
          (λ st. pa st >>= λ qu.
            pb qu.1 >>= λ su. pc su.1 >>= λ cu. pair (add (mul cu.0 qu.0) su.0) cu.1)
          (add (mul vc va) vb)
  joined {ra} {rb} {rc} {pa} {pb} {pc} {va} {vb} {vc} a b c = record {
    constants = a.constants ++ (b.constants ++ c.constants);
    ws = a.ws ++ (b.ws ++ c.ws);
    recorded = rw (a.recorded, b.recorded, c.recorded);
    batch =
        batched_sums-append r lib x (λ i. r.zero) 0 ts a.constants (b.constants ++ c.constants) a.ws
          (b.ws ++ c.ws) a.batch
          (batched_sums-append r lib x (λ i. r.zero) 0 ts b.constants c.constants b.ws c.ws b.batch
            c.batch);
    replayed = λ rest.
        ap
          (λ (st : List R). pa st >>= λ qu.
            pb qu.1 >>= λ su. pc su.1 >>= λ cu. pair (add (mul cu.0 qu.0) su.0) cu.1)
          (append_assoc a.ws (b.ws ++ c.ws) rest
            ∙ ap (λ (st : List R). a.ws ++ st) (append_assoc b.ws c.ws rest))
        ∙ rw (a.replayed (b.ws ++ (c.ws ++ rest)), b.replayed (c.ws ++ rest), c.replayed rest);
  }
