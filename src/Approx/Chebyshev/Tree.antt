-- ===== src/Approx/Chebyshev/Tree.antt =====
-- The nodes of innerEvalChebyshevPS: what the passes make of a terminal node, of a call, and of a step.
use fideslib.Prelude.{
  ℕ, suc, ◌-◌, ◌*◌, ◌^◌, ◌≤◌, ◌<◌, ◌≡◌, refl, ap, ◌∙◌, true, false, List, [], ◌∷◌, ◌++◌, ltb,
  length, arith, Bool-cases, inl, inr,
}
use mathlib.Core.List.{append_assoc}
use fideslib.Ckks.Result.{Result, ok}
use fideslib.Approx.Arithmetic.{Arithmetic}
use fideslib.Approx.Vectors.{at}
use fideslib.Approx.Openfhe.{Openfhe, IsExact, IsDivision, Dominant}
use fideslib.Approx.Split.{split, second_dividend, quotient, corrected, shifted_rest}
use fideslib.Approx.Step.{split_lem, length-corrected, corrected_some, step_identity}
use fideslib.Approx.WeightedSum.{batched_sums}
use fideslib.Approx.WeightedSum.Values.{table}
use fideslib.Approx.Chebyshev.{
  half, double_at, pop, node_sum, recorded, inner_eval, inner_record, inner_remaining,
}
use fideslib.Approx.Chebyshev.Nodes.{
  V, half_zero, node_sum-value, batched_node, batched_sums-append, constant_part,
}

abbrev pair {ℓ κ} : {A : Type ℓ} {B : Type κ} → A → B → Result (A × B)
pair a b = ok (a, b)

module _ (r : Arithmetic) (lib : Openfhe r) (x : IsExact r lib) (B : ℕ → r.R) (k : ℕ) (kp : 1 ≤ k)
    (t2 : List r.R) (d : IsDivision r lib (half r lib) B lib.long_division_chebyshev) where
  open r use {R, add, mul, add_comm}

  abbrev pub ts : List R
  ts = table B 1 k

  abbrev pub divide : List R → List R → Result (List R × List R)
  divide = lib.long_division_chebyshev

  -- A part of a step, evaluated in one pass and recorded with the results `ws` of its batch
  pub record Node (m : ℕ) (q : List R) : Type 0 where
    pub constants : List (List R)
    pub ws : List R
    pub full :
        ◌≡◌ {A = Result R}
          (elim (ltb k (lib.degree q)) [
            | true ↦ inner_eval r lib k ts t2 m q
            | false ↦ node_sum r lib ts q
          ])
          (ok (V r lib x B k q))
    pub recording :
        ◌≡◌ {A = Result (List (List R))}
          (elim (ltb k (lib.degree q)) [
            | true ↦ inner_record r lib k ts t2 m q
            | false ↦ ok (recorded r lib q)
          ])
          (ok constants)
    pub batch : batched_sums r lib ts constants ≡ ok ws
    pub replay :
        (rest : List R)
        → ◌≡◌ {A = Result (R × List R)}
            (elim (ltb k (lib.degree q)) [
              | true ↦ inner_remaining r lib k ts t2 m q (ws ++ rest)
              | false ↦ pop (ws ++ rest)
            ])
            (ok (V r lib x B k q, rest))

  -- A terminal node
  pub leaf :
      (m : ℕ) (q : List R) → 1 ≤ lib.degree q → lib.degree q ≤ k → length q ≤ suc k → Node m q
  unfolding pop
  leaf m q high low len =
      let small : ltb k (lib.degree q) ≡ false = ground (arith, low) in
      record {
        constants = recorded r lib q;
        ws = V r lib x B k q ∷ [];
        full = rw small (node_sum-value r lib x B k q high len);
        recording = rw small;
        batch = batched_node r lib x B k q high len;
        replay = λ rest. rw small;
      }

  -- The results of a whole call at depth m
  pub record Subtree (m : ℕ) (f : List R) : Type 0 where
    pub constants : List (List R)
    pub ws : List R
    pub full : inner_eval r lib k ts t2 (suc m) f ≡ ok (V r lib x B k f)
    pub recording : inner_record r lib k ts t2 (suc m) f ≡ ok constants
    pub batch : batched_sums r lib ts constants ≡ ok ws
    pub replay :
        (rest : List R)
        → inner_remaining r lib k ts t2 (suc m) f (ws ++ rest) ≡ ok (V r lib x B k f, rest)

  pub branch : (m : ℕ) (q : List R) → k < lib.degree q → Subtree m q → Node (suc m) q
  branch m q big s =
      let large : ltb k (lib.degree q) ≡ true = ground (arith, big) in
      record {
        constants = s.constants;
        ws = s.ws;
        full = rw large s.full;
        recording = rw large s.recording;
        batch = s.batch;
        replay = λ rest. rw large (s.replay rest);
      }

  module _ (m : ℕ) (f : List R) (mp : 1 ≤ m) (deg : lib.degree f ≡ k * 2 ^ suc m - k)
      (dom : Dominant r lib f) (again : Dominant r lib (second_dividend r lib divide k m f))
      (power : double_at t2 m ≡ ok (B (k * 2 ^ m))) (a : Node m (quotient r lib divide k m f))
      (b : Node m (shifted_rest r lib divide k m f)) where
    c : List R
    c = corrected r lib divide k m f

    parted :
        split r lib divide k m f
        ≡ ok (quotient r lib divide k m f, shifted_rest r lib divide k m f, c)
    unfolding c
    parted =
        split_lem r lib x (half r lib) B (half_zero r lib x B k) divide d k m f kp mp deg dom again

    whole :
        add
          (mul
            (add (V r lib x B k c) (B (k * 2 ^ m)))
            (V r lib x B k (quotient r lib divide k m f)))
          (V r lib x B k (shifted_rest r lib divide k m f))
        ≡ V r lib x B k f
    unfolding c
    whole =
        step_identity r lib x (half r lib) B (half_zero r lib x B k) divide d k m f kp mp deg dom
          again

    short : length c ≤ suc k
    unfolding c
    short =
        let e =
          length-corrected r lib x (half r lib) B (half_zero r lib x B k) divide d k m f kp mp deg
            dom again in
        omega (arith, e)

    some : 1 ≤ length c
    unfolding c
    some =
        corrected_some r lib x (half r lib) B (half_zero r lib x B k) divide d k m f kp mp deg dom
          again

    -- The correction is a node of its own.
    with_sum : ltb 0 (lib.degree c) ≡ true → Subtree m f
    unfolding c inner_eval inner_record inner_remaining pop
    with_sum high =
        let pos : 1 ≤ lib.degree c = ground (arith, high) in
        let tail =
          batched_sums-append r lib x B k ts b.constants (recorded r lib c) b.ws
            (V r lib x B k c ∷ []) b.batch (batched_node r lib x B k c pos short) in
        record {
          constants = a.constants ++ (b.constants ++ recorded r lib c);
          ws = a.ws ++ (b.ws ++ V r lib x B k c ∷ []);
          full =
              rw (parted, a.full, b.full, power, high, node_sum-value r lib x B k c pos short)
                (ap ok whole);
          recording = rw (parted, a.recording, b.recording, high);
          batch =
              batched_sums-append r lib x B k ts a.constants (b.constants ++ recorded r lib c) a.ws
                (b.ws ++ V r lib x B k c ∷ []) a.batch tail;
          replay = λ rest.
              ap (inner_remaining r lib k ts t2 (suc m) f) (
                append_assoc a.ws (b.ws ++ V r lib x B k c ∷ []) rest
                ∙ ap (λ (st : List R). a.ws ++ st) (append_assoc b.ws (V r lib x B k c ∷ []) rest))
              ∙ rw
                  (
                    parted,
                    a.replay (b.ws ++ V r lib x B k c ∷ rest),
                    b.replay (V r lib x B k c ∷ rest),
                    power,
                    high,
                  )
                  (ap (λ (y : R). pair y rest) whole);
        }

    plain_sum :
        ltb 0 (lib.degree c) ≡ false
        → add (B (k * 2 ^ m)) (half r lib (at r c 0)) ≡ add (V r lib x B k c) (B (k * 2 ^ m))
    plain_sum low =
        ap (add (B (k * 2 ^ m))) (constant_part r lib x B k c (ground (arith, low)) some)
        ∙ add_comm (B (k * 2 ^ m)) (V r lib x B k c)

    -- The correction is a constant.
    without_sum : ltb 0 (lib.degree c) ≡ false → Subtree m f
    unfolding c inner_eval inner_record inner_remaining batched_sums
    without_sum low = record {
      constants = a.constants ++ (b.constants ++ []);
      ws = a.ws ++ (b.ws ++ []);
      full = rw (parted, a.full, b.full, power, low, plain_sum low) (ap ok whole);
      recording = rw (parted, a.recording, b.recording, low);
      batch =
          batched_sums-append r lib x B k ts a.constants (b.constants ++ []) a.ws (b.ws ++ [])
            a.batch (batched_sums-append r lib x B k ts b.constants [] b.ws [] b.batch refl);
      replay = λ rest.
          ap (inner_remaining r lib k ts t2 (suc m) f) (
            append_assoc a.ws (b.ws ++ []) rest
            ∙ ap (λ (st : List R). a.ws ++ st) (append_assoc b.ws [] rest))
          ∙ rw (parted, a.replay (b.ws ++ rest), b.replay rest, power, low, plain_sum low)
              (ap (λ (y : R). pair y rest) whole);
    }

    pub step : Subtree m f
    unfolding c
    step = elim (Bool-cases (ltb 0 (lib.degree c))) [
      | inl high ↦ with_sum high
      | inr low ↦ without_sum low
    ]
