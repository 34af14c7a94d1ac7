-- ===== src/Tests/Rotations.antt =====
-- Runs and instances of Rotations: ciphertexts of two slots.
use fideslib.Prelude.{
  ℕ, zero, suc, ◌≤◌, ◌++◌, ◌+◌, ◌*◌, ◌%◌, ◌≡◌, ◌≢◌, ◌⊎◌, refl, inl, inr, Bool, true, false, List,
  [], ◌∷◌, ◌==◌, if◌then◌else◌, arith, ◌^◌, Bool-cases,
}
use native.Mathlib.Nat.{add_comm, add_assoc}
use fideslib.Prelude.Int.{ℤ, pos, negsuc, ◌+ℤ◌, times}
use fideslib.Prelude.Bits.{and_bits, bit_width, pow_le}
use fideslib.Ckks.Result.{guard, ok, err, missing_key, value_or}
use fideslib.Rotations.Evaluator.{
  Evaluator, residue, normalyze_index, served, all_served, hoisted, rotate_hoisted,
}
use fideslib.Rotations.Accumulate.{
  check_b_step, index_levels, strides, shifted, get_accumulate_rotation_indices, accumulate,
}
use fideslib.Rotations.Accumulate.Sum.{rot_sum}
use fideslib.Rotations.Accumulate.Claims.{accumulate-sums}
use fideslib.Rotations.Linear.{
  get_linear_transform_rotation_indices, get_linear_transform_plaintext_rotation_indices,
  step_indexes, linear_transform, sum_terms, total, at, dot_terms, dot_rows,
}
use fideslib.Rotations.Linear.Indexes.{prepared}
use fideslib.Rotations.Linear.Sums.{diagonals}
use fideslib.Rotations.Linear.Diagonal.{linear_transform-diagonals}
use fideslib.Rotations.Convolution.{
  get_convolution_transform_rotation_indices, convolution_transform, accumulate_results, tree,
  halve, take, drop, add_pairs, head,
}
use fideslib.Rotations.Convolution.Tree.{accumulate_results-drops}
use fideslib.Rotations.Broadcast.{
  minus_plus_one, last_indexes, broadcast_index_levels, get_broadcast_rotation_indices, broadcast,
}
use fideslib.Rotations.Broadcast.Claims.{all_negative, broadcast-misses}
use fideslib.Rotations.Convolution.Keys.{
  turned_rows, convolution_transform-sums, convolution_transform-misses,
}

abbrev Pair : Type 0
Pair = ℕ × ℕ

abbrev turn : ℕ → Pair → Pair
turn r (a, b) = if r == 0 then (a, b) else (b, a)

parity : (i : ℤ) → (residue i 2 ≡ 0) ⊎ (residue i 2 ≡ 1)
unfolding residue
parity (pos n) = ground arith
parity (negsuc n) = ground arith

abbrev xor_parity : ℕ → ℕ → ℕ
xor_parity r s = (r + s) % 2

residue-+ℤ : (i j : ℤ) → residue (i +ℤ j) 2 ≡ xor_parity (residue i 2) (residue j 2)
unfolding residue ◌+ℤ◌
residue-+ℤ (pos m) (pos n) = ground arith
residue-+ℤ (pos m) (negsuc n) = ground arith
residue-+ℤ (negsuc m) (pos n) = ground arith
residue-+ℤ (negsuc m) (negsuc n) = ground arith

turn-turn :
    (i j : ℤ) (a : Pair) → turn (residue i 2) (turn (residue j 2) a) ≡ turn (residue (i +ℤ j) 2) a
turn-turn i j (x, y) = elim (parity i) [
  | inl p ↦ elim (parity j) [
    | inl q ↦ rw (residue-+ℤ i j, p, q)
    | inr q ↦ rw (residue-+ℤ i j, p, q)
  ]
  | inr p ↦ elim (parity j) [
    | inl q ↦ rw (residue-+ℤ i j, p, q)
    | inr q ↦ rw (residue-+ℤ i j, p, q)
  ]
]

abbrev add_pair : Pair → Pair → Pair
add_pair (a, b) (c, d) = (a + c, b + d)

abbrev mult_pair : Pair → Pair → Pair
mult_pair (a, b) (c, d) = (a * c, b * d)

assoc_pair : (a b c : Pair) → add_pair (add_pair a b) c ≡ add_pair a (add_pair b c)
assoc_pair (a, b) (c, d) (e, f) = rw (add_assoc, add_assoc)

comm_pair : (a b : Pair) → add_pair a b ≡ add_pair b a
comm_pair (a, b) (c, d) = rw (add_comm a c, add_comm b d)

turn-add : (r : ℕ) (a b : Pair) → turn r (add_pair a b) ≡ add_pair (turn r a) (turn r b)
turn-add r (a, b) (c, d) = elim (Bool-cases (r == 0)) [ inl z ↦ rw z | inr z ↦ rw z ]

turn-mult : (r : ℕ) (a b : Pair) → turn r (mult_pair a b) ≡ mult_pair (turn r a) (turn r b)
turn-mult r (a, b) (c, d) = elim (Bool-cases (r == 0)) [ inl z ↦ rw z | inr z ↦ rw z ]

turn_zero : (a : Pair) → turn (residue (pos 0) 2) a ≡ a
unfolding residue
turn_zero (a, b) = refl

turn_still : (i : ℤ) (a : Pair) → normalyze_index i 2 4 ≡ 0 → turn (residue i 2) a ≡ a
unfolding normalyze_index
turn_still i (a, b) h = elim (parity i) [
  | inl p ↦ rw p
  | inr p ↦ absurd (let one = rw p at h in omega arith)
]

abbrev two_slots : Evaluator
two_slots = record {
  Ct = Pair;
  Pt = Pair;
  slots = 2;
  ring = 4;
  add = add_pair;
  mult_pt = mult_pair;
  rotate = λ i a. turn (residue i 2) a;
  rotate_pt = λ i a. turn (residue i 2) a;
  add_assoc = assoc_pair;
  add_comm = comm_pair;
  rotate-add = λ i. turn-add (residue i 2);
  rotate-rotate = turn-turn;
  rotate-mult_pt = λ i. turn-mult (residue i 2);
  rotate_pt-rotate_pt = turn-turn;
  rotate_pt_zero = turn_zero;
  rotate_still = turn_still;
}

-- A key for the rotation by 1, which is the only one that moves two slots
abbrev one_key : ℕ → Bool
one_key i = i == 1

abbrev no_key : ℕ → Bool
no_key i = false

accumulate-sums_example :
    (get_accumulate_rotation_indices (2 ^ 1) 1 (2 ^ 2) ≡ ok (1 ∷ 2 ∷ []))
    × (accumulate two_slots one_key (2 ^ 1) 1 (2 ^ 2) 1 (3, 4) ≡ ok (14, 14))
unfolding get_accumulate_rotation_indices check_b_step index_levels strides shifted and_bits
    bit_width value_or all_served served normalyze_index residue rot_sum
accumulate-sums_example =
    accumulate-sums two_slots one_key 1 2 1 (3, 4) (omega arith) (omega arith) (omega arith) refl

six_no_power : (p : ℕ) → 1 ≤ p → 6 ≢ 2 ^ p
six_no_power zero h e = absurd (omega arith)
six_no_power (suc zero) h e = absurd (omega arith)
six_no_power (suc (suc zero)) h e = absurd (omega arith)
six_no_power (suc (suc (suc p))) h e =
    absurd (omega (arith, e, pow_le 3 (suc (suc (suc p))) (omega arith)))

-- The diagonals (1, 2), (3, 4), (5, 6) of a matrix of three rows, with one baby step
abbrev three_diagonals : ℕ → Pair
three_diagonals k = (1 + 2 * k, 2 + 2 * k)

linear_transform-diagonals_example :
    (r : Pair) × (linear_transform two_slots one_key true 3 1
        (prepared two_slots three_diagonals 0
          (get_linear_transform_plaintext_rotation_indices 3 1 (pos 1) (negsuc 0)))
        (pos 1)
        (negsuc 0)
        (10, 20)
      ≡ ok r)
    × (sum_terms two_slots (diagonals two_slots three_diagonals (pos 1) (negsuc 0) (10, 20) 3 0)
        ≡ ok r)
unfolding all_served served normalyze_index residue get_linear_transform_rotation_indices
    step_indexes times
linear_transform-diagonals_example =
    linear_transform-diagonals two_slots one_key true 3 1 (pos 1) (negsuc 0) three_diagonals
      (10, 20) (omega arith) (omega arith) (omega arith) refl
      (λ h. absurd (omega arith), λ h. absurd (omega arith)) (inr (λ h. omega arith))

abbrev masks : List Pair
masks = (1, 2) ∷ (3, 4) ∷ []

abbrev dots : List Pair
dots = (10, 40) ∷ (30, 80) ∷ []

convolution_transform-sums_example :
    (r : Pair) × (convolution_transform two_slots one_key true 2 1 masks
        (pos 1)
        (pos 0 ∷ [])
        2
        (10, 20)
      ≡ ok r)
    × (sum_terms two_slots (turned_rows two_slots (pos 1) dots) ≡ ok r)
unfolding all_served served normalyze_index residue step_indexes times rotate_hoisted hoisted
    dot_rows dot_terms sum_terms total at
convolution_transform-sums_example =
    convolution_transform-sums two_slots one_key true (pos 1) 2 1 2 masks (pos 0 ∷ []) (10, 20)
      ((10, 20) ∷ []) dots (omega arith) (omega arith) (λ h. omega arith) refl refl refl refl refl

convolution_transform-misses_example :
    (get_convolution_transform_rotation_indices (pos 1) 1 ≡ step_indexes 0 1 (pos 1))
    × (convolution_transform two_slots no_key true 1 1 ((1, 2) ∷ []) (pos 1) (pos 0 ∷ []) 1 (10, 20)
        ≡ err missing_key)
unfolding normalyze_index residue times rotate_hoisted hoisted dot_rows dot_terms sum_terms total at
convolution_transform-misses_example =
    convolution_transform-misses two_slots no_key true (pos 1) 1 1 1 ((1, 2) ∷ []) (pos 0 ∷ [])
      (10, 20) ((10, 20) ∷ []) ((10, 40) ∷ []) (omega arith) (omega arith) refl refl refl refl
      (λ h. omega arith) refl

abbrev first_half : List Pair
first_half = (1, 0) ∷ (2, 0) ∷ []

accumulate_results-drops_example :
    accumulate_results two_slots ((first_half ++ ((3, 0) ∷ [])) ++ (first_half ++ ((4, 0) ∷ [])))
    ≡ accumulate_results two_slots ((first_half ++ ((5, 0) ∷ [])) ++ (first_half ++ ((6, 0) ∷ [])))
accumulate_results-drops_example =
    accumulate_results-drops two_slots first_half first_half 1 (3, 0) (4, 0) (5, 0) (6, 0)
      (omega arith) refl refl

-- Six results (1, 0), ..., (6, 0) add up to (12, 0): the third and the sixth are missing.
six_results :
    accumulate_results two_slots ((1, 0) ∷ (2, 0) ∷ (3, 0) ∷ (4, 0) ∷ (5, 0) ∷ (6, 0) ∷ [])
    ≡ ok (12, 0)
unfolding accumulate_results tree halve take drop add_pairs head
six_results = refl

broadcast-misses_example :
    (all_negative (value_or (pos 0 ∷ []) (get_broadcast_rotation_indices (2 ^ 1) 3 9)) ≡ true)
    × (broadcast two_slots no_key (2 ^ 1) 3 9 (3, 4) ≡ err missing_key)
unfolding normalyze_index residue
broadcast-misses_example =
    broadcast-misses two_slots no_key 1 3 9 (3, 4) (omega arith) (omega arith) (omega arith)
      (omega arith) (omega arith) refl refl

-- With every key, three copies of two slots
broadcast_indexes :
    get_broadcast_rotation_indices 2 2 8 ≡ ok (negsuc 0 ∷ negsuc 2 ∷ negsuc 2 ∷ negsuc 6 ∷ [])
unfolding get_broadcast_rotation_indices check_b_step and_bits guard broadcast_index_levels
    last_indexes minus_plus_one shifted bit_width strides
broadcast_indexes = refl
