-- ===== src/Approx/Chebyshev/Nodes.antt =====
-- The terminal nodes of innerEvalChebyshevPS, in one pass and in a batch.
use fideslib.Prelude.{ℕ, suc, ◌-◌, ◌≤◌, ◌<◌, ◌≡◌, refl, sym, ap, List, [], ◌∷◌, ◌++◌, length, arith}
use fideslib.Ckks.Result.{ok, ◌>>=◌, >>=-eq-ok, ok-injective}
use fideslib.Approx.Arithmetic.{Arithmetic}
use fideslib.Approx.Vectors.{at, modify, value}
use fideslib.Approx.Openfhe.{Openfhe, IsExact}
use fideslib.Approx.Split.Values.{value-constant}
use fideslib.Approx.WeightedSum.{batched_sum, batched_sums}
use fideslib.Approx.WeightedSum.Values.{table, weighted_sum-value, batched_sum-value}
use fideslib.Approx.Chebyshev.{half, node_sum, recorded}

module _ (r : Arithmetic) (lib : Openfhe r) (x : IsExact r lib) (B : ℕ → r.R) (k : ℕ) where
  abbrev pub V : List r.R → r.R
  V f = value r (half r lib) B f

  pub half_zero : half r lib r.zero ≡ r.zero
  unfolding half
  half_zero = r.zero-div_two

  flat : (f : List r.R) → ((i : ℕ) → 0 < i → at r f i ≡ r.zero) → lib.degree f < 1
  flat f h = let e = x.least f 0 h in omega (arith, e)

  pub node_sum-value :
      (f : List r.R)
      → 1 ≤ lib.degree f
      → length f ≤ suc k
      → node_sum r lib (table B 1 k) f ≡ ok (V f)
  unfolding node_sum at
  node_sum-value [] high h = let e = flat [] (λ i p. refl) in absurd (omega (arith, e, high))
  node_sum-value (c ∷ []) high h =
      let e = flat (c ∷ []) (λ i p. let s : i ≡ suc (i - 1) = omega (arith, p) in rw s refl) in
      absurd (omega (arith, e, high))
  node_sum-value (c ∷ d ∷ ds) high h =
      let e : length (c ∷ d ∷ ds) - 1 ≡ length (d ∷ ds) = omega arith in
      rw e (weighted_sum-value r lib x (half r lib) B c (d ∷ ds) k (omega arith) (omega (arith, h)))

  -- A recorded node in the batch, and what follows it
  pub batched_node :
      (f : List r.R)
      → 1 ≤ lib.degree f
      → length f ≤ suc k
      → batched_sums r lib (table B 1 k) (recorded r lib f) ≡ ok (V f ∷ [])
  unfolding recorded batched_sums modify at
  batched_node [] high h = let e = flat [] (λ i p. refl) in absurd (omega (arith, e, high))
  batched_node (c ∷ cs) high h =
      rw (batched_sum-value r lib x (half r lib) B c cs k high (omega (arith, h)))

  pub batched_sums-append :
      (ts : List r.R) (xs ys : List (List r.R)) (vs ws : List r.R)
      → batched_sums r lib ts xs ≡ ok vs
      → batched_sums r lib ts ys ≡ ok ws
      → batched_sums r lib ts (xs ++ ys) ≡ ok (vs ++ ws)
  unfolding batched_sums
  batched_sums-append ts [] ys vs ws h1 h2 = ground (arith, h1, h2)
  batched_sums-append ts (x' ∷ xs) ys vs ws h1 h2 =
      let (v, hv, h3) =
        >>=-eq-ok (batched_sum r lib ts x')
          (λ v. batched_sums r lib ts xs >>= λ (us : List r.R). ok (v ∷ us)) h1 in
      let (us, hu, h4) = >>=-eq-ok (batched_sums r lib ts xs) (λ (us : List r.R). ok (v ∷ us)) h3 in
      rw (hv, batched_sums-append ts xs ys us ws hu h2)
        (ap (λ (zs : List r.R). ok (zs ++ ws)) (ok-injective (v ∷ us) vs h4))

  -- The constant part of a step
  pub constant_part : (c : List r.R) → lib.degree c ≡ 0 → 1 ≤ length c → half r lib (at r c 0) ≡ V c
  unfolding at
  constant_part [] h some = absurd (omega (arith, some))
  constant_part (c ∷ cs) h some = sym (value-constant r lib x (half r lib) B half_zero c cs h)
