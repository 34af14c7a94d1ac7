-- ===== src/Rotations/Accumulate.antt =====
-- src/CKKS/AccumulateBroadcast.cu: the sum of rotations of a ciphertext, and the rotations that it
-- asks for. The numbers of the source are taken from 0 on and do not leave the range of int, but
-- for `b_step`, which is checked. Each loop has fuel for its rounds.
pub mod Claims
pub mod Rounds
pub mod Levels
pub mod Sum
use fideslib.Prelude.{
  ℕ, zero, suc, ◌+◌, ◌-◌, ◌*◌, ◌/◌, ◌^◌, Bool, true, false, not, ◌&&◌, ◌||◌, List, [], ◌∷◌, ◌++◌,
  ltb, ◌==◌, if◌then◌else◌, map,
}
use fideslib.Prelude.Bits.{and_bits, bit_width}
use fideslib.Prelude.Int.{ℤ, pos}
use fideslib.Ckks.Result.{
  Result, ok, err, ◌>>=◌, ◌>>◌, guard, invalid_argument, out_of_range, out_of_fuel,
}
use fideslib.Rotations.Evaluator.{Evaluator, rotate_hoisted}

-- checkBStep throws unless b_step is a power of two and at least 2.
unfoldable pub check_b_step : ℕ → Result (Unit {0})
check_b_step b = guard (not (ltb b 2 || not (and_bits 32 b (b - 1) == 0))) invalid_argument

-- s <<= std::bit_width(b_step) - 1
unfoldable pub shifted : ℕ → ℕ → ℕ
shifted s b = s * 2 ^ (bit_width 32 b - 1)

-- for (idx = ...; idx < limit && idx < limit'; idx += step), with the indexes in order
unfoldable pub strides : (fuel idx step limit limit' : ℕ) → Result (List ℕ)
strides zero idx step limit limit' = err out_of_fuel
strides (suc fuel) idx step limit limit' = elim (ltb idx limit && ltb idx limit') [
  | true ↦ (strides fuel (idx + step) step limit limit' >>= λ rest. ok (idx ∷ rest))
  | false ↦ ok []
]

unfoldable pub index_levels : (fuel s b stride size : ℕ) → Result (List ℕ)
index_levels zero s b stride size = err out_of_fuel
index_levels (suc fuel) s b stride size = elim (ltb s (stride * size)) [
  | true ↦
      (strides b s s (s * b) (stride * size) >>= λ here.
      index_levels fuel (shifted s b) b stride size >>= λ rest. ok (here ++ rest))
  | false ↦ ok []
]

unfoldable pub get_accumulate_rotation_indices : (b stride size : ℕ) → Result (List ℕ)
get_accumulate_rotation_indices b stride size =
    check_b_step b >> index_levels (stride * size + 1) stride b stride size

-- The slots of `aux`, which has b_step - 1 of them, that the indexes are rotated into
unfoldable pub aux_slots : (b stride s : ℕ) → List ℕ → Result (List ℕ)
aux_slots b stride s [] = ok []
aux_slots b stride s (idx ∷ rest) = do
  guard (ltb (idx / stride / s - 1) (b - 1)) out_of_range
  slots ← aux_slots b stride s rest
  ok ((idx / stride / s - 1) ∷ slots)

-- ctxt.add(*auxptr[i]) for each of them
unfoldable pub add_all : (e : Evaluator) → e.Ct → List e.Ct → e.Ct
add_all e c [] = c
add_all e c (r ∷ rs) = add_all e (e.add c r) rs

module _ (e : Evaluator) (key : ℕ → Bool) where
  open e use {Ct}

  unfoldable pub accumulate_levels : (fuel s b stride size : ℕ) → Ct → Result Ct
  accumulate_levels zero s b stride size c = err out_of_fuel
  accumulate_levels (suc fuel) s b stride size c = elim (ltb s size) [
    | true ↦
        (strides b (stride * s) (stride * s) (stride * size) (b * stride * s) >>= λ indexes.
        aux_slots b stride s indexes >>= λ slots.
        rotate_hoisted e key (map pos indexes) c >>= λ outs.
        accumulate_levels fuel (shifted s b) b stride size (add_all e c outs))
    | false ↦ ok c
  ]

  unfoldable pub accumulate : (b stride size start_factor : ℕ) → Ct → Result Ct
  accumulate b stride size start_factor c =
      check_b_step b
      >> (if start_factor == 0 || size == 0
          then ok c
          else accumulate_levels (size + 1) start_factor b stride size c)
