-- ===== src/Tests/Approx.antt =====
-- The evaluation of series over the numbers modulo 3.
use fideslib.Prelude.{ℕ, ◌^◌, ◌≡◌, refl, Bool, true, false, if◌then◌else◌, List, [], ◌∷◌, arith}
use fideslib.Ckks.Result.{value_or, ok, err, openfhe_error, ◌>>=◌, guard}
use fideslib.Approx.Vectors.{resize, modify, at, unit_at, terms, value}
use fideslib.Approx.Openfhe.{Openfhe}
use fideslib.Approx.Openfhe.{divided}
use fideslib.Approx.Split.{
  split, divisible, divisible_at, dominant, second_dividend, quotient, corrected, shifted_rest,
  second_division, subtract_power, add_power,
}
use fideslib.Approx.Chebyshev.{
  half, two_phases, inner_record, inner_remaining, recorded, double_at, pop, pushed,
}
use fideslib.Approx.WeightedSum.{batched_sums, batched_sum, trim, weighted_terms}
use fideslib.Approx.Series.{
  eval_chebyshev_series, map_series, eval_ps, polynomials, next_polynomial, doublings,
}
use fideslib.Approx.Powers.Tables.{power}
use fideslib.Prelude.Bits.{and_bits, bit_width}
use fideslib.Approx.Powers.{
  next_power, powers_loop, squarings, eval_powers_ps, partial_sum, leading_node, correction,
  inner_eval_poly, eval_padded, eval_poly_ps,
}
use fideslib.Approx.Powers.Fused.{
  recorded_leading, record_poly, remaining_correction, remaining_poly, two_passes,
  eval_poly_ps_fused,
}
use fideslib.Approx.Powers.Sparse.{
  is_power_of_2, below_top, decomposition, marked, needed, filled, entry, product, sparse_loop,
  eval_powers_linear, add_sparse_term, add_sparse, eval_poly_linear,
}
use fideslib.Approx.Powers.Dispatch.{entries, eval_powers, eval_full, eval_poly_with_precomp}
use fideslib.Approx.Powers.Dispatch.Claims.{eval_poly_with_precomp-value}
use fideslib.Approx.Series.Polynomials.{chebyshev}
use fideslib.Approx.ModReduction.{numeral, approx_mod_reduction, approx_mod_reduction_sparse}
use fideslib.Approx.ModReduction.Claims.{approx_mod_reduction-doubles}
use fideslib.Approx.Series.Claims.{mapped, eval_chebyshev_series-value}
use fideslib.Tests.Trits.{
  Trit, o, i, t, add, mul, neg, some, zeros, degree, divide, trits, library, library-IsExact,
  library-IsFactored, library-IsDivision, library-IsMonic, parts,
}

by_two : Trit → Trit
by_two c = mul c (add i i)

by_two-by_two : (c : Trit) → by_two (by_two c) ≡ c
unfolding by_two mul add
by_two-by_two c = ground arith

abbrev openfhe : Openfhe trits
openfhe = library by_two by_two (chebyshev trits t)

-- 1 + 2 T_1 + T_3 + T_4 + 2 T_5 + T_6, at -1
abbrev coefficients : List Trit
coefficients = t ∷ t ∷ o ∷ i ∷ i ∷ t ∷ i ∷ []

no_throw_series : divisible trits openfhe openfhe.long_division_chebyshev coefficients ≡ true
unfolding divisible divisible_at dominant second_dividend divided value_or quotient corrected
    shifted_rest second_division subtract_power add_power resize modify at unit_at terms value
    chebyshev degree divide parts some zeros add mul neg by_two
no_throw_series = refl

eval_chebyshev_series-value_example : eval_chebyshev_series trits openfhe coefficients t i t ≡ (
    if divisible trits openfhe openfhe.long_division_chebyshev coefficients
    then ok (
        value trits
          (half trits openfhe)
          (chebyshev trits (mapped trits openfhe t i t))
          coefficients)
    else err openfhe_error)
unfolding mapped some add half by_two
eval_chebyshev_series-value_example =
    eval_chebyshev_series-value trits openfhe (library-IsExact by_two by_two (chebyshev trits t))
      (library-IsFactored by_two by_two (chebyshev trits t)) coefficients t i t
      (library-IsDivision by_two by_two (chebyshev trits t) by_two-by_two) (omega arith)

-- A run through both passes
series_at_minus_one : eval_chebyshev_series trits openfhe coefficients t i t ≡ ok i
unfolding eval_chebyshev_series map_series eval_ps polynomials next_polynomial doublings half
    two_phases inner_record inner_remaining recorded double_at pop pushed split subtract_power
    add_power resize modify at unit_at terms value batched_sums batched_sum trim weighted_terms
    chebyshev degree divide parts some zeros add mul neg by_two
series_at_minus_one = refl

-- 2 + x + x^3 + x^4 + 2 x^5 + x^6, at -1, in both modes
abbrev polynomial : List Trit
polynomial = t ∷ i ∷ o ∷ i ∷ i ∷ t ∷ i ∷ []

abbrev poly_openfhe : Openfhe trits
poly_openfhe = library (λ c. c) (λ c. c) (power trits t)

no_throw_poly : divisible trits poly_openfhe poly_openfhe.long_division_poly polynomial ≡ true
unfolding divisible divisible_at dominant second_dividend divided value_or quotient corrected
    shifted_rest second_division subtract_power add_power resize modify at unit_at terms value power
    degree divide parts some zeros add mul neg
no_throw_poly = refl

-- The dividend of the second division where the first one leaves 1 + x^2, for k = m = 2: its
-- dominant coefficient is zero.
dividend_without_lead : subtract_power trits poly_openfhe 2 (i ∷ o ∷ i ∷ []) ≡ i ∷ o ∷ o ∷ []
unfolding subtract_power degree zeros some resize modify add neg mul
dividend_without_lead = refl

eval_poly_with_precomp-value_example :
    (eval_powers trits poly_openfhe t polynomial true >>= λ ps.
    eval_poly_with_precomp trits poly_openfhe ps polynomial true)
    ≡ (if divisible trits poly_openfhe poly_openfhe.long_division_poly polynomial
        then ok (value trits (λ c. c) (power trits t) polynomial)
        else err openfhe_error)
unfolding degree zeros some
eval_poly_with_precomp-value_example =
    eval_poly_with_precomp-value trits poly_openfhe
      (library-IsExact (λ c. c) (λ c. c) (power trits t))
      (library-IsFactored (λ c. c) (λ c. c) (power trits t))
      (library-IsMonic (λ c. c) (λ c. c) (power trits t)) polynomial t true
      (library-IsDivision (λ c. c) (λ c. c) (power trits t) (λ c. refl)) (omega arith) refl

-- Runs of both modes, and of a sparse polynomial of degree 4: 1 + x + 2 x^4
abbrev quartic : List Trit
quartic = i ∷ i ∷ o ∷ o ∷ t ∷ []

polynomial_at_minus_one :
    (fused : Bool)
    → (eval_powers trits poly_openfhe t polynomial fused >>= λ ps.
        eval_poly_with_precomp trits poly_openfhe ps polynomial fused)
      ≡ ok o
unfolding eval_powers eval_poly_with_precomp eval_full eval_powers_ps powers_loop next_power
    and_bits squarings eval_poly_ps eval_padded inner_eval_poly leading_node correction partial_sum
    eval_poly_ps_fused two_passes record_poly recorded_leading remaining_poly remaining_correction
    double_at pop pushed split subtract_power add_power resize modify at unit_at terms value
    batched_sums batched_sum trim weighted_terms power degree divide parts some zeros add mul neg
polynomial_at_minus_one false = refl
polynomial_at_minus_one true = refl

quartic_at_minus_one :
    (eval_powers trits poly_openfhe t quartic false >>= λ ps.
    eval_poly_with_precomp trits poly_openfhe ps quartic false)
    ≡ ok t
unfolding eval_powers eval_poly_with_precomp eval_powers_linear eval_poly_linear entries guard
    needed is_power_of_2 below_top decomposition marked sparse_loop product entry filled add_sparse
    add_sparse_term and_bits bit_width at degree some zeros add mul
quartic_at_minus_one = refl

-- The series at -1 is 1: two iterations at the angle of which the cosine is 1
ones : ℕ → Trit
ones j = i

approx_mod_reduction-doubles_example :
    (approx_mod_reduction trits openfhe ones 2 coefficients t t t 2
      ≡ ok (
          mul
            (numeral trits 2)
            (mul (ones 2) (add (chebyshev trits i (2 ^ 2)) (mul (chebyshev trits i (2 ^ 2)) t)))))
    × (approx_mod_reduction_sparse trits openfhe ones 2 coefficients t 2
        ≡ ok (mul (numeral trits 2) (mul (ones 2) (chebyshev trits i (2 ^ 2)))))
unfolding ones some add mul neg value terms half chebyshev by_two
approx_mod_reduction-doubles_example =
    let division = library-IsDivision by_two by_two (chebyshev trits t) by_two-by_two in
    approx_mod_reduction-doubles trits openfhe (library-IsExact by_two by_two (chebyshev trits t))
      (library-IsFactored by_two by_two (chebyshev trits t)) refl refl ones (λ j. refl) 2
      coefficients t t t i i 2 division division (omega arith) no_throw_series refl refl
