-- ===== src/Approx/Powers/Inner.antt =====
-- innerEvalPolyPS gives the value of the polynomial.
use fideslib.Prelude.{
  ℕ, zero, suc, ◌+◌, ◌-◌, ◌*◌, ◌^◌, ◌≤◌, ◌≡◌, refl, subst, ap, sym, ◌∙◌, true, false, List, ltb,
  length, arith,
}
use fideslib.Ckks.Result.{Result, ok, err, openfhe_error}
use fideslib.Approx.Arithmetic.{Arithmetic}
use fideslib.Approx.Vectors.{at, unit_at, at-unit_self, length-unit}
use fideslib.Approx.Openfhe.{Openfhe, IsExact, IsDivision, IsMonic, Dominant}
use fideslib.Approx.Split.{
  second_dividend, divisible_at, divisible_parts, quotient, corrected, shifted_rest,
  second_division, degree-unit, at-add_power,
}
use fideslib.Approx.Step.{
  split_lem, power_facts, beyond_leaf, degree-quotient, length-quotient, degree-shifted_rest,
  length-shifted_rest, length-corrected, corrected_some, step_identity,
}
use fideslib.Approx.Throws.{FailsBy, run-throws}
use fideslib.Approx.WeightedSum.Values.{table}
use fideslib.Approx.Chebyshev.{double_at}
use fideslib.Approx.Powers.{leading_node, inner_eval_poly}
use fideslib.Approx.Powers.Sums.{V, leading_node-value, correction-value}

module _ (r : Arithmetic) (lib : Openfhe r) (x : IsExact r lib) (B : ℕ → r.R) (k : ℕ) (kp : 1 ≤ k)
    (t2 : List r.R) (d : IsDivision r lib (λ c. c) B lib.long_division_poly)
    (n : IsMonic r lib lib.long_division_poly) where
  open r use {R}

  abbrev divide : List R → List R → Result (List R × List R)
  divide = lib.long_division_poly

  abbrev same : R → R
  same c = c

  -- A polynomial of degree k * (2 ^ m - 1) with leading coefficient one
  abbrev pub Padded : ℕ → List R → Type 0
  Padded m f =
      (lib.degree f ≡ k * 2 ^ m - k)
      × (length f ≡ suc (k * 2 ^ m - k))
      × (at r f (k * 2 ^ m - k) ≡ r.one)

  pub quotient-Padded :
      (m : ℕ) (f : List R)
      → 1 ≤ m
      → Padded (suc m) f
      → Dominant r lib (second_dividend r lib divide k m f)
      → Padded m (quotient r lib divide k m f)
  unfolding quotient
  quotient-Padded m f mp (deg, len, lead) again =
      let dom = len ∙ ap suc (sym deg) in
      let dq = degree-quotient r lib x same B refl divide d k m f kp mp deg dom again in
      let lq = length-quotient r lib x same B refl divide d k m f kp mp deg dom again in
      let (two, next) = power_facts k m kp mp in
      let g = unit_at r (k * 2 ^ m - k + k) in
      let dg = degree-unit r lib x (k * 2 ^ m - k + k) in
      let top = ap (at r g) dg ∙ at-unit_self r (k * 2 ^ m - k + k) in
      let lf = ap (at r f) deg ∙ lead in
      let dom_g : Dominant r lib g = length-unit r (k * 2 ^ m - k + k) ∙ ap suc (sym dg) in
      let lead_q =
        n.leading f g (omega (arith, dg, two, kp)) (omega (arith, dg, deg, two, next, kp)) dom dom_g
          lf top in
      let e : lib.degree f - lib.degree g ≡ k * 2 ^ m - k = omega (arith, dg, deg, two, next, kp) in
      (dq, lq, rw e at lead_q)

  pub shifted_rest-Padded :
      (m : ℕ) (f : List R)
      → 1 ≤ m
      → Padded (suc m) f
      → Dominant r lib (second_dividend r lib divide k m f)
      → Padded m (shifted_rest r lib divide k m f)
  unfolding shifted_rest
  shifted_rest-Padded m f mp (deg, len, lead) again =
      let dom = len ∙ ap suc (sym deg) in
      (
        degree-shifted_rest r lib x same B refl divide d k m f kp mp deg dom again,
        length-shifted_rest r lib x same B refl divide d k m f kp mp deg dom again,
        at-add_power r lib x (k * 2 ^ m - k) (second_division r lib divide k m f).1,
      )

  -- A part of a step, a terminal one or a call
  part : ℕ → List R → Result R
  part m q = elim (ltb k (lib.degree q)) [
    | true ↦ inner_eval_poly r lib k (table B 1 k) t2 m q
    | false ↦ leading_node r lib k (table B 1 k) q
  ]

  -- The powers of the basis that a call at depth m adds
  abbrev pub Powers : ℕ → Type 0
  Powers m = (i : ℕ) → 1 ≤ i → i ≤ m → double_at t2 i ≡ ok (B (k * 2 ^ i))

  step-value :
      (m : ℕ) (f : List R)
      → 1 ≤ m
      → Padded (suc m) f
      → Dominant r lib (second_dividend r lib divide k m f)
      → double_at t2 m ≡ ok (B (k * 2 ^ m))
      → part m (quotient r lib divide k m f) ≡ ok (V r lib x B (quotient r lib divide k m f))
      → part m (shifted_rest r lib divide k m f)
        ≡ ok (V r lib x B (shifted_rest r lib divide k m f))
      → inner_eval_poly r lib k (table B 1 k) t2 (suc m) f ≡ ok (V r lib x B f)
  unfolding inner_eval_poly part
  step-value m f mp (deg, len, lead) again power hq hs =
      let dom = len ∙ ap suc (sym deg) in
      let parted = split_lem r lib x same B refl divide d k m f kp mp deg dom again in
      let c = corrected r lib divide k m f in
      let short = length-corrected r lib x same B refl divide d k m f kp mp deg dom again in
      let some = corrected_some r lib x same B refl divide d k m f kp mp deg dom again in
      let cu = correction-value r lib x B k c (B (k * 2 ^ m)) kp some (omega (arith, short)) in
      rw (parted, hq, hs, power, cu)
        (ap ok (step_identity r lib x same B refl divide d k m f kp mp deg dom again))

  -- A terminal part has degree k; the calls below are given for the others.
  part-value :
      (m : ℕ) (q : List R)
      → 1 ≤ m
      → (2 ≤ m
          → ltb k (lib.degree q) ≡ true
          → inner_eval_poly r lib k (table B 1 k) t2 m q ≡ ok (V r lib x B q))
      → Padded m q
      → part m q ≡ ok (V r lib x B q)
  unfolding part
  part-value zero q mp call (deg, len, lead) = absurd (omega (arith, mp))
  part-value (suc zero) q mp call (deg, len, lead) =
      let two : k * 2 ^ 1 - k ≡ k = omega arith in
      let small : ltb k (lib.degree q) ≡ false = ground (arith, deg, two) in
      rw (part, small)
        (leading_node-value r lib x B k q kp (omega (arith, len, two)) (rw two at lead))
  part-value (suc (suc m)) q mp call (deg, len, lead) =
      let beyond = beyond_leaf k (suc (suc m)) kp (omega arith) in
      let large : ltb k (lib.degree q) ≡ true = ground (arith, deg, beyond) in
      rw (part, large) (call (omega arith) large)

  pub inner_eval_poly-value :
      (m : ℕ) (f : List R)
      → 1 ≤ m
      → Powers m
      → Padded (suc m) f
      → divisible_at r lib divide k (suc m) f ≡ true
      → inner_eval_poly r lib k (table B 1 k) t2 (suc m) f ≡ ok (V r lib x B f)
  inner_eval_poly-value zero f mp powers p h = absurd (omega (arith, mp))
  inner_eval_poly-value (suc zero) f mp powers p h =
      let (again, hq, hs) = divisible_parts r lib divide k 1 f h in
      let pq = quotient-Padded 1 f mp p again in
      let ps = shifted_rest-Padded 1 f mp p again in
      step-value 1 f mp p again (powers 1 (omega arith) (omega arith))
        (part-value 1 (quotient r lib divide k 1 f) mp (λ l g. absurd (omega (arith, l))) pq)
        (part-value 1 (shifted_rest r lib divide k 1 f) mp (λ l g. absurd (omega (arith, l))) ps)
  inner_eval_poly-value (suc (suc m)) f mp powers p h =
      let n2 = suc (suc m) in
      let (again, hq, hs) = divisible_parts r lib divide k n2 f h in
      let pq = quotient-Padded n2 f mp p again in
      let ps = shifted_rest-Padded n2 f mp p again in
      let fewer : Powers (suc m) = λ i l b. powers i l (omega (arith, b)) in
      let call = λ (g : List R) (pg : Padded n2 g) (hg : divisible_at r lib divide k n2 g ≡ true).
        inner_eval_poly-value (suc m) g (omega arith) fewer pg hg in
      step-value n2 f mp p again (powers n2 (omega arith) (omega arith))
        (part-value n2 (quotient r lib divide k n2 f) mp (λ l g. call _ pq (hq g)) pq)
        (part-value n2 (shifted_rest r lib divide k n2 f) mp (λ l g. call _ ps (hs g)) ps)

  fails_by :
      (top : ℕ)
      → Powers top
      → FailsBy r lib x same B refl divide d k kp
          (inner_eval_poly r lib k (table B 1 k) t2)
          top
          Padded
          (λ m q. part m q ≡ ok (V r lib x B q))
  unfolding inner_eval_poly part
  fails_by top powers = record {
    degree = λ m f p. p.0;
    dom = λ m f p. p.1 ∙ ap suc (sym p.0);
    quotient_padded = quotient-Padded;
    rest_padded = shifted_rest-Padded;
    returns = λ m q mp le p fits.
        part-value m q mp
          (λ l large.
            let e : suc (m - 1) ≡ m = omega (arith, mp) in
            subst (λ n. inner_eval_poly r lib k (table B 1 k) t2 n q ≡ ok (V r lib x B q)) e
              (inner_eval_poly-value (m - 1) q (omega (arith, l))
                (λ i b c. powers i b (omega (arith, c, le))) (subst (λ n. Padded n q) (sym e) p)
                (subst (λ n. divisible_at r lib divide k n q ≡ true) (sym e) (fits large))))
          p;
    by_split = λ m f h. rw (inner_eval_poly, h);
    by_quotient = λ m f q s c h large h2. rw (inner_eval_poly, h, large, h2);
    by_rest = λ m f q s c h first large h2. rw (inner_eval_poly, h, first, large, h2);
  }

  pub inner_eval_poly-throws :
      (m : ℕ) (f : List R)
      → 1 ≤ m
      → Powers m
      → Padded (suc m) f
      → divisible_at r lib divide k (suc m) f ≡ false
      → inner_eval_poly r lib k (table B 1 k) t2 (suc m) f ≡ err openfhe_error
  inner_eval_poly-throws m f mp powers p h =
      run-throws r lib x same B refl divide d k kp (inner_eval_poly r lib k (table B 1 k) t2) m
        Padded (λ m q. part m q ≡ ok (V r lib x B q)) (fails_by m powers) m f mp (omega arith) p h
