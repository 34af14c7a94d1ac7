-- ===== src/Approx/Step.antt =====
-- A step of the Paterson-Stockmeyer recursion: the degrees of its parts and their identity.
use fideslib.Prelude.{
  ℕ, suc, ◌+◌, ◌-◌, ◌*◌, ◌^◌, ◌≤◌, ◌<◌, ◌≡◌, sym, ap, ◌∙◌, List, false, length, arith,
}
use native.Mathlib.Nat.{mul-le-mul_left}
use fideslib.Prelude.Bits.{pow_le}
use fideslib.Ckks.Result.{Result, ok, err, openfhe_error}
use fideslib.Approx.Arithmetic.{Arithmetic, add_left_comm, add-mul, sub-add_cancel}
use fideslib.Approx.Vectors.{unit_at, length-unit, value}
use fideslib.Approx.Openfhe.{Openfhe, IsExact, IsDivision, Dominant, divided}
use fideslib.Approx.Split.{
  subtract_power, split, second_dividend, dominant, quotient, second_division, corrected,
  shifted_rest, degree-unit, length-add_power, degree-add_power, at-subtract_above,
}
use fideslib.Approx.Split.Values.{value-unit, value-subtract_power, value-add_power}

-- The powers of two in a step: k * 2 ^ m for m at least 1
pub power_facts :
    (k m : ℕ) → 1 ≤ k → 1 ≤ m → (2 * k ≤ k * 2 ^ m) × (k * 2 ^ suc m ≡ 2 * (k * 2 ^ m))
power_facts k m kp mp =
    let two : 2 ≤ 2 ^ m = pow_le 1 m mp in
    (
      omega (arith, mul-le-mul_left k two),
      omega (arith, ap (λ (x : ℕ). k * x) (let e : 2 ^ suc m ≡ 2 * 2 ^ m = omega arith in e)),
    )

-- From m = 2 on, a series of degree k * (2 ^ m - 1) is not a terminal part.
pub beyond_leaf : (k m : ℕ) → 1 ≤ k → 2 ≤ m → k < k * 2 ^ m - k
beyond_leaf k m kp h =
    let e = power_facts k (m - 1) kp (omega (arith, h)) in
    let s : suc (m - 1) ≡ m = omega (arith, h) in
    let n : k * 2 ^ m ≡ 2 * (k * 2 ^ (m - 1)) = rw s at e.1 in omega (arith, e.0, n, kp)

module _ (r : Arithmetic) (lib : Openfhe r) (x : IsExact r lib) (bias : r.R → r.R) (B : ℕ → r.R)
    (bias_zero : bias r.zero ≡ r.zero) (divide : List r.R → List r.R → Result (List r.R × List r.R))
    (d : IsDivision r lib bias B divide) where
  open r use {R, add, mul, neg, add_assoc, add_comm, mul_comm, mul-add}

  -- The recursion's invariant is that f has degree k * (2 ^ m - 1).
  module _ (k m : ℕ) (f : List R) (kp : 1 ≤ k) (mp : 1 ≤ m) (deg : lib.degree f ≡ k * 2 ^ suc m - k)
      (dom : Dominant r lib f) (again : Dominant r lib (second_dividend r lib divide k m f)) where
    big : (1 ≤ k * 2 ^ m - k) × (k * 2 ^ m - k + k ≡ k * 2 ^ m)
    big = let (two, next) = power_facts k m kp mp in omega (arith, two, kp)

    degree_divisor : lib.degree (unit_at r (k * 2 ^ m - k + k)) ≡ k * 2 ^ m - k + k
    degree_divisor = degree-unit r lib x (k * 2 ^ m - k + k)

    divisor_pos : 1 ≤ lib.degree (unit_at r (k * 2 ^ m - k + k))
    divisor_pos = let e = degree_divisor in omega (arith, e, big.0)

    divisor_dom : Dominant r lib (unit_at r (k * 2 ^ m - k + k))
    divisor_dom = length-unit r (k * 2 ^ m - k + k) ∙ ap suc (sym degree_divisor)

    pub degree-quotient : lib.degree (quotient r lib divide k m f) ≡ k * 2 ^ m - k
    unfolding quotient
    degree-quotient =
        let e = d.degree_quotient f (unit_at r (k * 2 ^ m - k + k)) divisor_pos dom divisor_dom in
        let (two, next) = power_facts k m kp mp in
        omega (arith, e, degree_divisor, deg, two, next, big.1)

    pub length-quotient : length (quotient r lib divide k m f) ≡ suc (k * 2 ^ m - k)
    unfolding quotient
    length-quotient =
        let e = d.length_quotient f (unit_at r (k * 2 ^ m - k + k)) divisor_pos dom divisor_dom in
        let (two, next) = power_facts k m kp mp in
        omega (arith, e, degree_divisor, deg, two, next, big.1)

    pub quotient_dom : Dominant r lib (quotient r lib divide k m f)
    quotient_dom = length-quotient ∙ ap suc (sym degree-quotient)

    quotient_pos : 1 ≤ lib.degree (quotient r lib divide k m f)
    quotient_pos = omega (arith, degree-quotient, big.0)

    rest : List R
    rest = (divided divide f (unit_at r (k * 2 ^ m - k + k))).1

    degree_rest : lib.degree (subtract_power r lib (k * 2 ^ m - k) rest) < k * 2 ^ m
    unfolding rest
    degree_rest =
        let e = d.degree_remainder f (unit_at r (k * 2 ^ m - k + k)) divisor_pos dom divisor_dom in
        let le = x.least (subtract_power r lib (k * 2 ^ m - k) rest) (k * 2 ^ m - 1) (λ i h.
          at-subtract_above r lib x (k * 2 ^ m - k) i rest (omega (arith, h, kp, big.0))
            (omega (arith, e, degree_divisor, big.1, h))) in
        omega (arith, le, big.0)

    pub length-corrected : length (corrected r lib divide k m f) ≤ k
    unfolding corrected second_division second_dividend rest
    length-corrected =
        let e =
          d.length_quotient (subtract_power r lib (k * 2 ^ m - k) rest)
            (quotient r lib divide k m f) quotient_pos again quotient_dom in
        omega (arith, e, degree_rest, degree-quotient, big, kp)

    pub corrected_some : 1 ≤ length (corrected r lib divide k m f)
    unfolding corrected second_division second_dividend rest
    corrected_some =
        let e =
          d.length_quotient (subtract_power r lib (k * 2 ^ m - k) rest)
            (quotient r lib divide k m f) quotient_pos again quotient_dom in
        omega (arith, e)

    pub degree-shifted_rest : lib.degree (shifted_rest r lib divide k m f) ≡ k * 2 ^ m - k
    unfolding shifted_rest
    degree-shifted_rest =
        degree-add_power r lib x (k * 2 ^ m - k) (second_division r lib divide k m f).1

    pub length-shifted_rest : length (shifted_rest r lib divide k m f) ≡ suc (k * 2 ^ m - k)
    unfolding shifted_rest
    length-shifted_rest =
        length-add_power r lib x (k * 2 ^ m - k) (second_division r lib divide k m f).1

    pub shifted_rest_dom : Dominant r lib (shifted_rest r lib divide k m f)
    shifted_rest_dom = length-shifted_rest ∙ ap suc (sym degree-shifted_rest)

    -- Both divisions of a step return.
    pub split_lem :
        split r lib divide k m f
        ≡ ok (
          quotient r lib divide k m f,
          shifted_rest r lib divide k m f,
          corrected r lib divide k m f,
        )
    unfolding split quotient second_dividend second_division corrected shifted_rest
    split_lem =
        let first = d.returns f (unit_at r (k * 2 ^ m - k + k)) divisor_pos dom divisor_dom in
        let second =
          d.returns (second_dividend r lib divide k m f) (quotient r lib divide k m f) quotient_pos
            again quotient_dom in
        rw (first, second)

    -- The series: f, q, c, s2 and the divided parts
    V : List R → R
    V g = value r bias B g

    first_identity : V f ≡ add (mul (V (quotient r lib divide k m f)) (B (k * 2 ^ m))) (V rest)
    unfolding V quotient rest
    first_identity =
        let e = d.identity f (unit_at r (k * 2 ^ m - k + k)) divisor_pos dom divisor_dom in
        let u = value-unit r lib x bias B bias_zero (k * 2 ^ m - k + k) (omega (arith, big.0)) in
        e ∙ ap (λ (y : R). add (mul (V (quotient r lib divide k m f)) y) (V rest)) (u ∙ ap B big.1)

    second_identity :
        add (V rest) (neg (B (k * 2 ^ m - k)))
        ≡ add
            (mul (V (corrected r lib divide k m f)) (V (quotient r lib divide k m f)))
            (V (second_division r lib divide k m f).1)
    unfolding V corrected second_division second_dividend rest
    second_identity =
        sym (value-subtract_power r lib x bias B bias_zero (k * 2 ^ m - k) rest big.0)
        ∙ d.identity (subtract_power r lib (k * 2 ^ m - k) rest) (quotient r lib divide k m f)
            quotient_pos again quotient_dom

    third_identity :
        V (shifted_rest r lib divide k m f)
        ≡ add (V (second_division r lib divide k m f).1) (B (k * 2 ^ m - k))
    unfolding V shifted_rest second_division second_dividend rest
    third_identity =
        let e =
          d.degree_remainder (subtract_power r lib (k * 2 ^ m - k) rest)
            (quotient r lib divide k m f) quotient_pos again quotient_dom in
        value-add_power r lib x bias B bias_zero (k * 2 ^ m - k)
          (second_division r lib divide k m f).1 big.0 (omega (arith, e, degree-quotient))

  -- The second division throws.
  pub split-throws :
      (k m : ℕ) (f : List R)
      → 1 ≤ k
      → 1 ≤ m
      → Dominant r lib f
      → dominant r lib divide (second_dividend r lib divide k m f) ≡ false
      → split r lib divide k m f ≡ err openfhe_error
  unfolding split second_dividend dominant
  split-throws k m f kp mp dom lost =
      let n = k * 2 ^ m - k + k in
      let deg = degree-unit r lib x n in
      let two = (power_facts k m kp mp).0 in
      let first =
        d.returns f (unit_at r n) (omega (arith, deg, two, kp)) dom
          (length-unit r n ∙ ap suc (sym deg)) in
      let second =
        d.throws (second_dividend r lib divide k m f) (divided divide f (unit_at r n)).0 lost in
      rw (first, second)

  combine :
      (q c s xk b f g : R)
      → f ≡ add (mul q xk) g
      → add g (neg b) ≡ add (mul c q) s
      → add (mul (add c xk) q) (add s b) ≡ f
  combine q c s xk b f g h1 h2 =
      let e : add (add (mul c q) s) b ≡ g =
        ap (λ (y : R). add y b) (sym h2) ∙ sub-add_cancel r g b in
      let sorted : add (mul (add c xk) q) (add s b) ≡ add (mul q xk) (add (add (mul c q) s) b) =
        rw (add-mul r c xk q, mul_comm xk q) (simp (add_assoc, add_comm, add_left_comm r)) in
      sorted ∙ ap (add (mul q xk)) e ∙ sym h1

  -- What a step computes from the values of its parts
  pub step_identity :
      (k m : ℕ) (f : List R)
      → 1 ≤ k
      → 1 ≤ m
      → lib.degree f ≡ k * 2 ^ suc m - k
      → Dominant r lib f
      → Dominant r lib (second_dividend r lib divide k m f)
      → add
          (mul
            (add (value r bias B (corrected r lib divide k m f)) (B (k * 2 ^ m)))
            (value r bias B (quotient r lib divide k m f)))
          (value r bias B (shifted_rest r lib divide k m f))
        ≡ value r bias B f
  unfolding V
  step_identity k m f kp mp deg dom again =
      ap
        (add (
          mul (add (value r bias B (corrected r lib divide k m f)) (B (k * 2 ^ m)))
            (value r bias B (quotient r lib divide k m f))))
        (third_identity k m f kp mp deg dom again)
      ∙ combine (value r bias B (quotient r lib divide k m f))
          (value r bias B (corrected r lib divide k m f))
          (value r bias B (second_division r lib divide k m f).1) (B (k * 2 ^ m))
          (B (k * 2 ^ m - k)) (value r bias B f) (value r bias B (rest k m f kp mp deg dom again))
          (first_identity k m f kp mp deg dom again) (second_identity k m f kp mp deg dom again)
