-- ===== src/Prelude/Int.antt =====
-- Signed integers over the native numbers, under the library's names (its ℤ stands on the unary ℕ).
-- Sums and orders go through the two parts of an integer, which are numbers that `omega` reads.
use fideslib.Prelude.{ℕ, suc, ◌+◌, ◌-◌, ◌*◌, ◌≡◌, Bool, true, ◌&&◌, arith, leb, ◌==◌, if◌then◌else◌}
use native.Mathlib.Nat.{add-mul}

-- `negsuc n` is -(n + 1).
pub data ℤ : Type 0 where
  pos : ℕ → ℤ
  negsuc : ℕ → ℤ

abbrev pub pos_part : ℤ → ℕ
pos_part (pos n) = n
pos_part (negsuc n) = 0

abbrev pub neg_part : ℤ → ℕ
neg_part (pos n) = 0
neg_part (negsuc n) = suc n

-- a - b, as an integer.
abbrev pub sub_ℕ : ℕ → ℕ → ℤ
sub_ℕ a b = if leb b a then pos (a - b) else negsuc (b - a - 1)

infixl 65 ◌+ℤ◌ ◌-ℤ◌
unfoldable pub ◌+ℤ◌ : ℤ → ℤ → ℤ
a +ℤ b = sub_ℕ (pos_part a + pos_part b) (neg_part a + neg_part b)

unfoldable pub ◌-ℤ◌ : ℤ → ℤ → ℤ
a -ℤ b = sub_ℕ (pos_part a + neg_part b) (neg_part a + pos_part b)

abbrev pub eqb_ℤ : ℤ → ℤ → Bool
eqb_ℤ a b = pos_part a == pos_part b && neg_part a == neg_part b

-- With the operations unfolded `ground` splits on the signs.
pub +ℤ_comm : (a b : ℤ) → a +ℤ b ≡ b +ℤ a
unfolding ◌+ℤ◌
+ℤ_comm a b = ground arith

pub +ℤ_assoc : (a b c : ℤ) → a +ℤ b +ℤ c ≡ a +ℤ (b +ℤ c)
unfolding ◌+ℤ◌
+ℤ_assoc a b c = ground arith

pub +ℤ_cancel : (a b : ℤ) → a +ℤ b -ℤ b ≡ a
unfolding ◌+ℤ◌ ◌-ℤ◌
+ℤ_cancel a b = ground arith

pub -ℤ_cancel : (a b : ℤ) → a -ℤ b +ℤ b ≡ a
unfolding ◌+ℤ◌ ◌-ℤ◌
-ℤ_cancel a b = ground arith

pub zero-+ℤ : (a : ℤ) → pos 0 +ℤ a ≡ a
unfolding ◌+ℤ◌
zero-+ℤ a = ground arith

-- n * z
unfoldable pub times : ℕ → ℤ → ℤ
times n (pos k) = pos (n * k)
times n (negsuc k) = sub_ℕ 0 (n * suc k)

pub times-add : (m n : ℕ) (z : ℤ) → times (m + n) z ≡ times m z +ℤ times n z
unfolding times ◌+ℤ◌
times-add m n (pos k) = ground (arith, add-mul m n k)
times-add m n (negsuc k) = ground (arith, add-mul m n (suc k))

pub times_zero : (z : ℤ) → times 0 z ≡ pos 0
unfolding times
times_zero (pos k) = ground arith
times_zero (negsuc k) = ground arith

pub opposite : (x y : ℤ) → x +ℤ y +ℤ (pos 0 -ℤ x -ℤ y) ≡ pos 0
unfolding ◌+ℤ◌ ◌-ℤ◌
opposite x y = ground arith

pub +ℤ_right_comm : (a b c : ℤ) → a +ℤ b +ℤ c ≡ a +ℤ c +ℤ b
unfolding ◌+ℤ◌
+ℤ_right_comm a b c = ground arith

pub eqb_ℤ→eq : (a b : ℤ) → eqb_ℤ a b ≡ true → a ≡ b
eqb_ℤ→eq a b h = ground arith
