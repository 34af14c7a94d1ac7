-- ===== src/Rotations/Evaluator.antt =====
-- src/CKKS/Context.cu normalyzeIndex, and the rotations of src/CKKS/Ciphertext.cpp as far as the
-- indexes and the keys go. What a ciphertext holds stands behind Evaluator.
use fideslib.Prelude.{
  ℕ, suc, ◌+◌, ◌-◌, ◌/◌, ◌%◌, ◌≡◌, Bool, true, false, not, ◌&&◌, ◌||◌, List, [], ◌∷◌, ltb, ◌==◌,
  if◌then◌else◌, arith,
}
use fideslib.Prelude.Int.{ℤ, pos, negsuc, ◌+ℤ◌}
use fideslib.Ckks.Result.{Result, ok, err, ◌>>=◌, ◌>>◌, guard, missing_key, assertion}

-- index % slots with the sign of the index, made positive by adding the slots
unfoldable pub residue : ℤ → ℕ → ℕ
residue (pos n) slots = n % slots
residue (negsuc n) slots = let r = suc n % slots in if r == 0 then 0 else slots - r

-- normalyzeIndex(index, slots, N), with N / 2 at least the slots
unfoldable pub normalyze_index : ℤ → ℕ → ℕ → ℕ
normalyze_index index slots n =
    let r = residue index slots in if ltb (slots / 2) r then r + (n / 2 - slots) else r

-- Ciphertexts and plaintexts with the operations that the transforms use. `rotate` moves the slots,
-- and the rotation by an index that normalyzeIndex takes to 0 moves none.
pub record Evaluator : Type 1 where
  pub Ct : Type 0
  pub Pt : Type 0
  pub slots : ℕ
  pub ring : ℕ
  pub add : Ct → Ct → Ct
  pub mult_pt : Ct → Pt → Ct
  pub rotate : ℤ → Ct → Ct
  pub rotate_pt : ℤ → Pt → Pt
  pub add_assoc : (a b c : Ct) → add (add a b) c ≡ add a (add b c)
  pub add_comm : (a b : Ct) → add a b ≡ add b a
  pub rotate-add : (i : ℤ) (a b : Ct) → rotate i (add a b) ≡ add (rotate i a) (rotate i b)
  pub rotate-rotate : (i j : ℤ) (a : Ct) → rotate i (rotate j a) ≡ rotate (i +ℤ j) a
  pub rotate-mult_pt :
      (i : ℤ) (a : Ct) (p : Pt) → rotate i (mult_pt a p) ≡ mult_pt (rotate i a) (rotate_pt i p)
  pub rotate_pt-rotate_pt : (i j : ℤ) (p : Pt) → rotate_pt i (rotate_pt j p) ≡ rotate_pt (i +ℤ j) p
  pub rotate_pt_zero : (p : Pt) → rotate_pt (pos 0) p ≡ p
  pub rotate_still : (i : ℤ) (a : Ct) → normalyze_index i slots ring ≡ 0 → rotate i a ≡ a

module _ (e : Evaluator) (key : ℕ → Bool) where
  open e use {Ct, slots, ring, rotate, rotate_still}

  -- Has the index a key, or does it need none? `key` is asked for the normalized index.
  unfoldable pub served : ℤ → Bool
  served i = normalyze_index i slots ring == 0 || key (normalyze_index i slots ring)

  unfoldable pub all_served : List ℤ → Bool
  all_served [] = true
  all_served (i ∷ is) = if served i then all_served is else false

  -- One output of rotate_hoisted: a copy for index 0, and GetRotationKey throws on a missing key.
  unfoldable pub hoisted : ℤ → Ct → Result Ct
  hoisted i c =
      if normalyze_index i slots ring == 0
      then ok c
      else if key (normalyze_index i slots ring)
      then ok (rotate i c)
      else err missing_key

  unfoldable pub rotate_hoisted : List ℤ → Ct → Result (List Ct)
  rotate_hoisted [] c = ok []
  rotate_hoisted (i ∷ is) c = do r ← hoisted i c; rs ← rotate_hoisted is c; ok (r ∷ rs)

  -- Ciphertext::rotate, which asserts that the normalized index is not 0
  unfoldable pub rotate_one : Bool → ℤ → Ct → Result Ct
  rotate_one debug i c = do
    guard (not (debug && normalyze_index i slots ring == 0)) assertion
    if key (normalyze_index i slots ring) then ok (rotate i c) else err missing_key

  pub hoisted-served : (i : ℤ) (c : Ct) → served i ≡ true → hoisted i c ≡ ok (rotate i c)
  unfolding served hoisted
  hoisted-served i c h = ground (arith, rotate_still i c)
