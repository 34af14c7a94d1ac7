-- ===== src/Boot/Load.antt =====
-- The groups after AcquireBootBlock: marked as used, after the eviction, and with the group loaded.
use fideslib.Prelude.{
  ℕ, suc, ◌+◌, ◌^◌, ◌≤◌, ◌<◌, ◌≡◌, refl, sym, ◌∙◌, ◌⊎◌, inl, inr, Bool, true, false, ◌&&◌, some,
  List, ◌==◌, arith, Bool-cases,
}
use fideslib.Boot.{BootCacheBlock, BootCache, field, change, has_snapshot, evict_bootstrap_cache}
use fideslib.Boot.Fields.{
  field-change_same, field-change_other, resident_sum, total, total-change, resident_sum-load,
}
use fideslib.Boot.Order.{use_at, bytes_at, resident_at}
use fideslib.Boot.Evict.{
  resident_snapshot, IsEvicted, evict_bootstrap_cache-latest_first, field-evict_same, total-evict,
}
use fideslib.Boot.Invariant.{evictable, IsConsistent, field_here, IsStep}

module _ (i : ℕ) (cc : BootCache) (w : IsConsistent cc) where
  unfoldable pub used : List BootCacheBlock
  used = change i (λ b. record b { last_use = suc cc.bootstrap_cache_clock }) cc.blocks

  total-used : total used ≡ total cc.blocks
  unfolding used
  total-used =
      total-change i (λ b. record b { last_use = suc cc.bootstrap_cache_clock }) cc.blocks
        (λ b. refl)

  pub used_same {ℓ} :
      {A : Type ℓ} (other : A) (f : BootCacheBlock → A)
      → ((b : BootCacheBlock) (n : ℕ) → f (record b { last_use = n }) ≡ f b)
      → (j : ℕ) → field other f j used ≡ field other f j cc.blocks
  unfolding used
  used_same other f same j =
      field-change_same other f (λ b. record b { last_use = suc cc.bootstrap_cache_clock }) i
        cc.blocks (λ b. same b (suc cc.bootstrap_cache_clock)) j

  used_newest :
      field false (λ b. true) i cc.blocks ≡ true → use_at i used ≡ suc cc.bootstrap_cache_clock
  unfolding used
  used_newest there =
      field_here 0 (suc cc.bootstrap_cache_clock) (λ b. b.last_use)
        (λ b. record b { last_use = suc cc.bootstrap_cache_clock }) i cc.blocks (λ b. refl) there

  used_use : (j : ℕ) → (j == i) ≡ false → use_at j used ≡ use_at j cc.blocks
  unfolding used
  used_use j other =
      field-change_other 0 (λ b. b.last_use)
        (λ b. record b { last_use = suc cc.bootstrap_cache_clock }) i j cc.blocks other

  pub used-IsStep :
      field false (λ b. true) i cc.blocks ≡ true
      → IsStep i (suc cc.bootstrap_cache_clock) cc.blocks used
  used-IsStep there = record {
    same_total = total-used;
    newest = used_newest there;
    stays =
        λ j other e. sym (used_same false (λ b. b.resident && has_snapshot b) (λ b n. refl) j) ∙ e;
    same_use = used_use;
  }

  module _ (budget bytes : ℕ) (small : total cc.blocks + bytes < 2 ^ 64) where
    unfoldable pub evicted : List BootCacheBlock
    evicted = evict_bootstrap_cache budget bytes (some i) used

    unfoldable pub final : List BootCacheBlock
    final = change i (λ b. record b { resident = true }) evicted

    small_used : total used + bytes < 2 ^ 64
    small_used = let t = total-used in omega (arith, t, small)

    evicted_lem : IsEvicted budget bytes (some i) used evicted
    unfolding evicted
    evicted_lem = evict_bootstrap_cache-latest_first budget bytes (some i) used small_used

    final_same {ℓ} :
        {A : Type ℓ} (other : A) (f : BootCacheBlock → A)
        → ((b : BootCacheBlock) (r : Bool) → f (record b { resident = r }) ≡ f b)
        → (j : ℕ) → field other f j final ≡ field other f j used
    unfolding evicted final
    final_same other f same j =
        field-change_same other f (λ b. record b { resident = true }) i evicted (λ b. same b true) j
        ∙ field-evict_same other f budget bytes (some i) used small_used (λ b. same b false) j

    final_other : (j : ℕ) → (j == i) ≡ false → evictable j final ≡ evictable j evicted
    unfolding final
    final_other j other =
        field-change_other false (λ b. b.resident && has_snapshot b)
          (λ b. record b { resident = true }) i j evicted other

    -- Another group is not loaded.
    evicted_stays : (j : ℕ) → evictable j evicted ≡ true → evictable j used ≡ true
    unfolding evicted
    evicted_stays j e =
        let before = resident_snapshot j used in
        let now = resident_snapshot j evicted in
        let snap =
          field-evict_same false has_snapshot budget bytes (some i) used small_used (λ b. refl) j in
        let loads = evicted_lem.never_loads j in
        elim (Bool-cases (resident_at j used)) [
          | inl was ↦ ground (arith, before, now, snap, was, e)
          | inr gone ↦ let r = loads gone in ground (arith, now, r, e)
        ]

    pub final-IsStep :
        field false (λ b. true) i cc.blocks ≡ true
        → IsStep i (suc cc.bootstrap_cache_clock) cc.blocks final
    unfolding evicted final
    final-IsStep there = record {
      same_total =
          total-change i (λ b. record b { resident = true }) evicted (λ b. refl)
          ∙ total-evict budget bytes (some i) used small_used
          ∙ total-used;
      newest = final_same 0 (λ b. b.last_use) (λ b r. refl) i ∙ used_newest there;
      stays = λ j other e.
          sym (used_same false (λ b. b.resident && has_snapshot b) (λ b n. refl) j)
          ∙ evicted_stays j (sym (final_other j other) ∙ e);
      same_use = λ j other. final_same 0 (λ b. b.last_use) (λ b r. refl) j ∙ used_use j other;
    }

    final_exists : field false (λ b. true) i evicted ≡ field false (λ b. true) i cc.blocks
    unfolding evicted
    final_exists =
        field-evict_same false (λ b. true) budget bytes (some i) used small_used (λ b. refl) i
        ∙ used_same false (λ b. true) (λ b n. refl) i

    pub final_here : field false (λ b. true) i cc.blocks ≡ true → resident_at i final ≡ true
    unfolding final
    final_here there =
        field_here false true (λ b. b.resident) (λ b. record b { resident = true }) i evicted
          (λ b. refl) (final_exists ∙ there)

    pub final-within :
        resident_at i cc.blocks ≡ false
        → field false (λ b. true) i cc.blocks ≡ true
        → bytes ≡ bytes_at i cc.blocks
        → (resident_sum final ≤ budget) ⊎ ((j : ℕ) → (j == i) ≡ false → evictable j final ≡ false)
    unfolding final evicted
    final-within out there b = elim evicted_lem.within [
      | inl fits ↦
          let was = used_same false (λ b. b.resident) (λ b n. refl) i in
          let gone = evicted_lem.never_loads i (was ∙ out) in
          let sum = resident_sum-load i evicted (final_exists ∙ there) gone in
          let same =
            field-evict_same 0 (λ b. b.bytes) budget bytes (some i) used small_used (λ b. refl) i in
          let kept = used_same 0 (λ b. b.bytes) (λ b n. refl) i in
          inl (omega (arith, fits, sum, same, kept, b))
      | inr none_left ↦ inr (λ j other.
          let e = final_other j other in let n = none_left j in ground (arith, e, n, other))
    ]
