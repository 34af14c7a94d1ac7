-- ===== src/Rotations/Broadcast.antt =====
-- src/CKKS/AccumulateBroadcast.cu: Broadcast, and the rotations that it asks for. The numbers are taken
-- from 0 on and do not leave the range of int. The write of `slots` at the end is left out.
pub mod Claims
use fideslib.Prelude.{
  ℕ, zero, suc, ◌+◌, ◌*◌, ◌/◌, Bool, true, false, not, List, [], ◌∷◌, ◌++◌, ltb, leb, ◌==◌,
  if◌then◌else◌, map,
}
use fideslib.Prelude.Int.{ℤ, pos, negsuc}
use fideslib.Ckks.Result.{Result, ok, err, ◌>>=◌, ◌>>◌, guard, out_of_range, out_of_fuel}
use fideslib.Rotations.Evaluator.{Evaluator, rotate_hoisted}
use fideslib.Rotations.Accumulate.{check_b_step, shifted, strides, aux_slots, add_all}

-- -n + 1
unfoldable pub minus_plus_one : ℕ → ℤ
minus_plus_one zero = pos 1
minus_plus_one (suc zero) = pos 0
minus_plus_one (suc (suc n)) = negsuc n

-- The indexes of the last level, for `count` values of i
unfoldable pub last_indexes : (count i s outsize : ℕ) → List ℤ
last_indexes zero i s outsize = []
last_indexes (suc n) i s outsize =
    let rest = last_indexes n (suc i) s outsize in
    if ltb (i * s) (outsize + 1) then minus_plus_one (i * s) ∷ rest else rest

unfoldable pub broadcast_index_levels : (fuel s b stride size outsize : ℕ) → Result (List ℤ)
broadcast_index_levels zero s b stride size outsize = err out_of_fuel
broadcast_index_levels (suc fuel) s b stride size outsize = elim (ltb s (stride * size)) [
  | true ↦
      let inner : Result (List ℤ) =
        strides b s s (s * b) (stride * size) >>= λ is. ok (map pos is) in
      let here : Result (List ℤ) =
        if leb (stride * size) (stride * s * b) then ok (last_indexes b 1 s outsize) else inner in
      (here >>= λ is.
      broadcast_index_levels fuel (shifted s b) b stride size outsize >>= λ rest. ok (is ++ rest))
  | false ↦ ok []
]

unfoldable pub get_broadcast_rotation_indices : (b initsize outsize : ℕ) → Result (List ℤ)
get_broadcast_rotation_indices b initsize outsize =
    let size = outsize / initsize in
    check_b_step b
    >> (guard (not (initsize == 0)) out_of_range
        >> broadcast_index_levels (initsize * size + 1) initsize b initsize size outsize)

module _ (e : Evaluator) (key : ℕ → Bool) where
  open e use {Ct, add}

  -- ctxt.add(*auxptr[0], *auxptr[1]), and the others
  unfoldable pub sum_of : List Ct → Result Ct
  sum_of [] = err out_of_range
  sum_of (a ∷ []) = err out_of_range
  sum_of (a ∷ b ∷ rest) = ok (add_all e (add a b) rest)

  -- One level of the loop over s
  unfoldable pub broadcast_level : (s b stride size outsize : ℕ) → Ct → Result Ct
  broadcast_level s b stride size outsize c =
      let last : Result Ct =
        rotate_hoisted e key (last_indexes b 1 (stride * s) outsize) c >>= λ outs. sum_of outs in
      let inner : Result Ct =
        strides b (stride * s) (stride * s) (stride * size) (b * stride * s) >>= λ indexes.
        aux_slots (suc b) stride s indexes >>= λ slots.
        rotate_hoisted e key (map pos indexes) c >>= λ outs. ok (add_all e c outs) in
      if leb size (s * b) then last else inner

  unfoldable pub broadcast_levels : (fuel s b stride size outsize : ℕ) → Ct → Result Ct
  broadcast_levels zero s b stride size outsize c = err out_of_fuel
  broadcast_levels (suc fuel) s b stride size outsize c = elim (ltb s size) [
    | true ↦
        (broadcast_level s b stride size outsize c >>= λ c'.
        broadcast_levels fuel (shifted s b) b stride size outsize c')
    | false ↦ ok c
  ]

  unfoldable pub broadcast : (b initsize outsize : ℕ) → Ct → Result Ct
  broadcast b initsize outsize c =
      let size = outsize / initsize in
      check_b_step b
      >> (guard (not (initsize == 0)) out_of_range
          >> broadcast_levels (size + 1) 1 b initsize size outsize c)
