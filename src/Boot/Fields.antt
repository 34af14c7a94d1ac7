-- ===== src/Boot/Fields.antt =====
-- What the fields of the groups are after a change, and the bytes of the resident groups.
use fideslib.Prelude.{
  ℕ, zero, suc, ◌+◌, ◌^◌, ◌≤◌, ◌<◌, ◌≡◌, refl, ap, inl, inr, true, false, not, ◌&&◌, List, [], ◌∷◌,
  ◌==◌, if◌then◌else◌, arith, Bool-cases,
}
use fideslib.Keys.Cache.{contains}
use fideslib.Boot.{BootCacheBlock, field, change, free_boot_blocks, bootstrap_cache_resident_bytes}

pub field-change_same {ℓ} :
    {A : Type ℓ} (other : A) (f : BootCacheBlock → A) (g : BootCacheBlock → BootCacheBlock) (i : ℕ)
    (bs : List BootCacheBlock)
    → ((b : BootCacheBlock) → f (g b) ≡ f b)
    → (j : ℕ) → field other f j (change i g bs) ≡ field other f j bs
unfolding field change
field-change_same other f g i [] same j = refl
field-change_same other f g zero (b ∷ bs) same zero = same b
field-change_same other f g zero (b ∷ bs) same (suc j) = refl
field-change_same other f g (suc i) (b ∷ bs) same zero = refl
field-change_same other f g (suc i) (b ∷ bs) same (suc j) = field-change_same other f g i bs same j

pub field-change_other {ℓ} :
    {A : Type ℓ} (other : A) (f : BootCacheBlock → A) (g : BootCacheBlock → BootCacheBlock)
    (i j : ℕ) (bs : List BootCacheBlock)
    → (j == i) ≡ false
    → field other f j (change i g bs) ≡ field other f j bs
unfolding field change
field-change_other other f g i j [] h = refl
field-change_other other f g zero zero (b ∷ bs) h = ground (arith, h)
field-change_other other f g zero (suc j) (b ∷ bs) h = refl
field-change_other other f g (suc i) zero (b ∷ bs) h = refl
field-change_other other f g (suc i) (suc j) (b ∷ bs) h =
    field-change_other other f g i j bs (ground (arith, h))

pub field-free_same {ℓ} :
    {A : Type ℓ} (other : A) (f : BootCacheBlock → A) (vs : List ℕ) (i : ℕ)
    (bs : List BootCacheBlock)
    → ((b : BootCacheBlock) → f (record b { resident = false }) ≡ f b)
    → (j : ℕ) → field other f j (free_boot_blocks vs i bs) ≡ field other f j bs
unfolding field free_boot_blocks
field-free_same other f vs i [] same j = refl
field-free_same other f vs i (b ∷ bs) same zero = elim (Bool-cases (contains i vs)) [
  | inl freed ↦ rw freed (same b)
  | inr stays ↦ rw stays
]
field-free_same other f vs i (b ∷ bs) same (suc j) = field-free_same other f vs (suc i) bs same j

-- The condition to be resident is left to those that are not freed.
pub resident-free :
    (vs : List ℕ) (i k : ℕ) (bs : List BootCacheBlock)
    → field false (λ b. b.resident) k (free_boot_blocks vs i bs)
      ≡ (field false (λ b. b.resident) k bs && not (contains (i + k) vs))
unfolding field free_boot_blocks
resident-free vs i k [] = refl
resident-free vs i zero (b ∷ bs) = elim (Bool-cases (contains i vs)) [
  | inl freed ↦ ground (arith, freed)
  | inr stays ↦ ground (arith, stays)
]
resident-free vs i (suc k) (b ∷ bs) = let ih = resident-free vs (suc i) k bs in ground (arith, ih)

unfoldable pub resident_sum : List BootCacheBlock → ℕ
resident_sum [] = 0
resident_sum (b ∷ bs) = (if b.resident then b.bytes else 0) + resident_sum bs

unfoldable pub total : List BootCacheBlock → ℕ
total [] = 0
total (b ∷ bs) = b.bytes + total bs

pub resident_sum_le_total : (bs : List BootCacheBlock) → resident_sum bs ≤ total bs
unfolding resident_sum total
resident_sum_le_total [] = omega arith
resident_sum_le_total (b ∷ bs) = let ih = resident_sum_le_total bs in ground arith

pub resident_bytes_lem :
    (bs : List BootCacheBlock)
    → total bs < 2 ^ 64
    → bootstrap_cache_resident_bytes bs ≡ resident_sum bs
unfolding bootstrap_cache_resident_bytes resident_sum total
resident_bytes_lem [] h = refl
resident_bytes_lem (b ∷ bs) h =
    let ih = resident_bytes_lem bs (omega (arith, h)) in
    let le = resident_sum_le_total bs in ground (arith, ih, le, h)

pub total-change :
    (i : ℕ) (g : BootCacheBlock → BootCacheBlock) (bs : List BootCacheBlock)
    → ((b : BootCacheBlock) → (g b).bytes ≡ b.bytes)
    → total (change i g bs) ≡ total bs
unfolding total change
total-change i g [] same = refl
total-change zero g (b ∷ bs) same = ap (λ n. n + total bs) (same b)
total-change (suc i) g (b ∷ bs) same = ap (λ n. b.bytes + n) (total-change i g bs same)

pub total-free :
    (vs : List ℕ) (i : ℕ) (bs : List BootCacheBlock) → total (free_boot_blocks vs i bs) ≡ total bs
unfolding total free_boot_blocks
total-free vs i [] = refl
total-free vs i (b ∷ bs) = let ih = total-free vs (suc i) bs in ground (arith, ih)

-- A group that becomes resident adds its bytes.
pub resident_sum-load :
    (i : ℕ) (bs : List BootCacheBlock)
    → field false (λ b. true) i bs ≡ true
    → field false (λ b. b.resident) i bs ≡ false
    → resident_sum (change i (λ b. record b { resident = true }) bs)
      ≡ field 0 (λ b. b.bytes) i bs + resident_sum bs
unfolding resident_sum change field
resident_sum-load i [] there h = ground (arith, there)
resident_sum-load zero (b ∷ bs) there h = ground (arith, h)
resident_sum-load (suc i) (b ∷ bs) there h =
    let ih = resident_sum-load i bs there h in ground (arith, ih)
