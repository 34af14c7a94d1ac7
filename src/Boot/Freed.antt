-- ===== src/Boot/Freed.antt =====
-- The bytes that stay when groups are offloaded.
use fideslib.Prelude.{
  ℕ, zero, suc, ◌+◌, ◌≤◌, ◌<◌, ◌≡◌, refl, ap, subst, true, false, List, [], ◌∷◌, ◌==◌,
  if◌then◌else◌, arith,
}
use fideslib.Keys.Cache.{contains}
use fideslib.Keys.Bookkeeping.{count}
use fideslib.Boot.{BootCacheBlock, field, free_boot_blocks}
use fideslib.Boot.Fields.{resident_sum}
use fideslib.Boot.Order.{bytes_at, resident_at, contains-count, bytes_sum}

-- Offloading a place before the list changes nothing.
sum-free_before :
    (p i : ℕ) (vs : List ℕ) (bs : List BootCacheBlock)
    → p < i
    → resident_sum (free_boot_blocks (p ∷ vs) i bs) ≡ resident_sum (free_boot_blocks vs i bs)
unfolding resident_sum free_boot_blocks contains
sum-free_before p i vs [] h = refl
sum-free_before p i vs (b ∷ bs) h =
    let ih = sum-free_before p (suc i) vs bs (omega (arith, h)) in ground (arith, ih, h)

-- Offloading one more resident group gives its bytes back.
sum-free_more :
    (i k p : ℕ) (vs : List ℕ) (bs : List BootCacheBlock)
    → p ≡ i + k
    → resident_at k bs ≡ true
    → contains p vs ≡ false
    → resident_sum (free_boot_blocks vs i bs)
      ≡ bytes_at k bs + resident_sum (free_boot_blocks (p ∷ vs) i bs)
unfolding resident_sum free_boot_blocks contains field
sum-free_more i k p vs [] e r h = ground (arith, r)
sum-free_more i zero p vs (b ∷ bs) e r h =
    let here : p ≡ i = omega (arith, e) in
    let rest = sum-free_before p (suc i) vs bs (omega (arith, e)) in
    let out : contains i vs ≡ false = subst (λ z. contains z vs ≡ false) here h in
    ground (arith, rest, r, out, here)
sum-free_more i (suc k) p vs (b ∷ bs) e r h =
    let ih = sum-free_more (suc i) k p vs bs (omega (arith, e)) r h in
    let behind : (i == p) ≡ false = ground (arith, e) in ground (arith, ih, behind)

free-none : (i : ℕ) (bs : List BootCacheBlock) → free_boot_blocks [] i bs ≡ bs
unfolding free_boot_blocks contains
free-none i [] = refl
free-none i (b ∷ bs) = ap (λ (xs : List BootCacheBlock). b ∷ xs) (free-none (suc i) bs)

-- Distinct resident groups: what they hold and what stays are the bytes before.
pub sum-free :
    (vs : List ℕ) (bs : List BootCacheBlock)
    → ((i : ℕ) → count i vs ≤ (if resident_at i bs then 1 else 0))
    → resident_sum bs ≡ bytes_sum bs vs + resident_sum (free_boot_blocks vs 0 bs)
unfolding bytes_sum count
sum-free [] bs h = let e = ap resident_sum (free-none 0 bs) in omega (arith, e)
sum-free (v ∷ vs) bs h =
    let here = h v in
    let fresh = contains-count v vs in
    let ih = sum-free vs bs (λ i. let c = h i in ground (arith, c)) in
    let more =
      sum-free_more 0 v v vs bs (omega arith) (ground (arith, here))
        (ground (arith, here, fresh)) in
    omega (arith, ih, more)
