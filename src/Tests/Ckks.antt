-- ===== src/Tests/Ckks.antt =====
-- The operations on ciphertexts at a concrete context: scaling factors are powers of 2, written by
-- their exponents, and a level has primes and factors of 40 bits.
use fideslib.Prelude.{◌==◌, ◌≡◌, max, refl, true, false, arith}
use fideslib.Prelude.Int.{
  ℤ, pos, ◌+ℤ◌, ◌-ℤ◌, eqb_ℤ, +ℤ_comm, +ℤ_assoc, +ℤ_cancel, -ℤ_cancel, zero-+ℤ,
}
use fideslib.Ckks.Result.{ok}
use fideslib.Ckks.Context.{Context, IsExact, flexible_auto}
use fideslib.Ckks.Ciphertext.{towers, offload, ensure_resident}
use fideslib.Ckks.Ciphertext.Offload.{evicted, reload-offload}
use fideslib.Ckks.Scaling.{table_factor}
use fideslib.Ckks.Scaling.Steps.{shape}
use fideslib.Ckks.Adjust.{adjust_scale_and_level}
use fideslib.Ckks.Adjust.Flexible.{one, two, canon, adjust_scale_and_level-aligns}
use fideslib.Ckks.AddSub.{add, sub}
use fideslib.Ckks.AddSub.Flexible.{add-aligns, sub-aligns}
use fideslib.Ckks.Mult.{mult, square}
use fideslib.Ckks.Mult.Square.{square-aligns}
use fideslib.Ckks.Mult.Flexible.{mult-aligns}
use fideslib.Ckks.PlainOps.{add_pt, mult_pt}
use fideslib.Ckks.PlainOps.Flexible.{add_pt-aligns}
use fideslib.Ckks.PlainOps.Product.{mult_pt-aligns}
use fideslib.Ckks.Plaintext
use fideslib.Ckks.Plaintext.Flexible.{plain, adjust_plaintext-aligns}

abbrev exponents : Context
exponents = record {
  Factor = ℤ;
  mul = ◌+ℤ◌;
  div = ◌-ℤ◌;
  one = pos 0;
  zero_factor = pos 0;
  eqb = eqb_ℤ;
  close = eqb_ℤ;
  real = λ t. pos 40;
  big = λ t. pos 80;
  mod_reduce = λ t. pos 40;
  prime = λ t. pos 40;
  special = pos 60;
  technique = flexible_auto;
  top = 5;
  special_count = 2;
  has_eval_key = λ key. key == 7;
  debug = true;
}

exponents-IsExact : IsExact exponents
unfolding ◌+ℤ◌
exponents-IsExact = record {
  mul_comm = +ℤ_comm;
  mul_assoc = +ℤ_assoc;
  mul-div = -ℤ_cancel;
  div-mul = +ℤ_cancel;
  mul-one = zero-+ℤ;
  eqb_refl = λ a. ground arith;
  close_refl = λ a. ground arith;
  square = λ t. refl;
  reduce = λ t. refl;
}

adjust_scale_and_level-aligns_example :
    adjust_scale_and_level exponents (canon exponents 7 8 5 1) 2 3 (table_factor exponents 3 2)
    ≡ ok (true, canon exponents 7 8 3 2)
adjust_scale_and_level-aligns_example =
    adjust_scale_and_level-aligns exponents exponents-IsExact 7 8 5 3 refl one two (omega arith)
      (omega arith) (omega arith)

-- The second operand comes down from 5 towers to 3.
add-aligns_example :
    add exponents (canon exponents 7 8 3 2) (canon exponents 7 16 5 1)
    ≡ ok (canon exponents 7 (max 8 16) 3 2)
add-aligns_example =
    add-aligns exponents exponents-IsExact refl 7 8 16 3 5 two one (omega arith) (omega arith)
      (omega arith) (omega arith)

sub-aligns_example :
    sub exponents (canon exponents 7 8 5 1) (canon exponents 7 16 3 1)
    ≡ ok (canon exponents 7 (max 8 16) 3 1)
sub-aligns_example =
    sub-aligns exponents exponents-IsExact refl 7 8 16 5 3 one one (omega arith) (omega arith)
      (omega arith) (omega arith)

-- Both operands end at 2 towers, since the one with 3 has degree 2.
mult-aligns_example :
    mult exponents (canon exponents 7 8 3 2) (canon exponents 7 16 5 1) false true
    ≡ ok (canon exponents 7 (max 8 16) 2 2)
mult-aligns_example =
    mult-aligns exponents exponents-IsExact refl 7 8 16 3 5 false two one (omega arith)
      (omega arith) (omega arith) (omega arith)

-- The plaintext comes down from 5 towers to 3.
add_pt-aligns_example :
    add_pt exponents (canon exponents 7 8 3 2) (plain exponents 16 5 1)
    ≡ ok (canon exponents 7 (max 8 16) 3 2)
add_pt-aligns_example =
    add_pt-aligns exponents exponents-IsExact refl 7 8 16 3 5 two one (omega arith) (omega arith)
      (omega arith)

adjust_plaintext-aligns_example :
    Plaintext.adjust_scale_and_level exponents
      (plain exponents 16 5 1)
      2
      3
      (table_factor exponents 3 2)
    ≡ ok (true, plain exponents 16 3 2)
adjust_plaintext-aligns_example =
    adjust_plaintext-aligns exponents exponents-IsExact 16 5 3 refl one two (omega arith)
      (omega arith) refl

-- Both operands end at 2 towers, since the plaintext with 3 has degree 2.
mult_pt-aligns_example :
    mult_pt exponents (canon exponents 7 8 5 1) (plain exponents 16 3 2) true false
    ≡ ok (canon exponents 7 (max 8 16) 2 2)
mult_pt-aligns_example =
    mult_pt-aligns exponents exponents-IsExact refl 7 8 16 true 5 3 one two (omega arith)
      (omega arith) (omega arith) (omega arith)

reload-offload_example :
    (offload exponents (shape exponents 7 8 4 1 (pos 40) (pos 40))
      ≡ ok (evicted exponents 7 8 4 1 (pos 40) (pos 40)))
    × (towers (evicted exponents 7 8 4 1 (pos 40) (pos 40)) ≡ 4)
    × (ensure_resident exponents (evicted exponents 7 8 4 1 (pos 40) (pos 40))
        ≡ ok (shape exponents 7 8 4 1 (pos 40) (pos 40)))
reload-offload_example = reload-offload exponents 7 8 4 1 (pos 40) (pos 40) (omega arith)

square-aligns_example :
    square exponents (canon exponents 7 8 5 2) false ≡ ok (canon exponents 7 8 4 2)
square-aligns_example =
    square-aligns exponents exponents-IsExact refl 7 8 5 false two (omega arith) (omega arith)
