-- ===== src/Boot/Evict.antt =====
-- evictBootstrapCache: the bytes that it leaves, and which groups it offloads.
use fideslib.Prelude.{
  ℕ, zero, suc, ◌+◌, ◌^◌, ◌≤◌, ◌<◌, ◌≡◌, refl, sym, ap, subst, ◌∙◌, ◌⊎◌, inl, inr, true, false, not,
  ◌&&◌, Option, List, [], ◌∷◌, leb, ◌==◌, if◌then◌else◌, arith, Bool-cases,
}
use fideslib.Keys.Cache.{add64}
use fideslib.Keys.Bookkeeping.{count}
use fideslib.Boot.{
  BootCacheBlock, field, has_snapshot, is_kept, free_boot_blocks, candidates, sort_by_use, taken,
  evict_bootstrap_cache,
}
use fideslib.Boot.Fields.{
  resident_sum, total, total-free, resident_bytes_lem, resident_sum_le_total, resident-free,
  field-free_same,
}
use fideslib.Boot.Order.{
  use_at, resident_at, candidate_at, contains-count, count-candidates, count-sort, sort-IsSorted,
  count-taken, taken_lem, taken-latest,
}
use fideslib.Boot.Freed.{sum-free}

pub resident_snapshot :
    (i : ℕ) (bs : List BootCacheBlock)
    → field false (λ b. b.resident && has_snapshot b) i bs
      ≡ (resident_at i bs && field false has_snapshot i bs)
unfolding field
resident_snapshot i [] = refl
resident_snapshot zero (b ∷ bs) = refl
resident_snapshot (suc i) (b ∷ bs) = resident_snapshot i bs

-- The groups after an eviction, and those before it
pub record IsEvicted (budget incoming : ℕ) (keep : Option ℕ) (before after : List BootCacheBlock)
    : Type 0 where
  pub within :
      (resident_sum after + incoming ≤ budget) ⊎ ((i : ℕ) → candidate_at keep i after ≡ false)
  -- only a candidate is offloaded
  pub others :
      (i : ℕ) → candidate_at keep i before ≡ false → resident_at i after ≡ resident_at i before
  pub never_loads : (i : ℕ) → resident_at i before ≡ false → resident_at i after ≡ false
  -- no candidate stays that was used later than one that is offloaded
  pub latest :
      (i j : ℕ)
      → resident_at i before ≡ true
      → resident_at i after ≡ false
      → candidate_at keep j after ≡ true
      → use_at j before ≤ use_at i before

module _ (budget incoming : ℕ) (keep : Option ℕ) (bs : List BootCacheBlock) where
  ordered : List ℕ
  ordered = sort_by_use bs (candidates keep 0 bs)

  victims : List ℕ
  victims = taken bs budget incoming (resident_sum bs) ordered

  after : List BootCacheBlock
  after = free_boot_blocks victims 0 bs

  count-ordered : (i : ℕ) → count i ordered ≡ (if candidate_at keep i bs then 1 else 0)
  unfolding ordered
  count-ordered i =
      count-sort bs i (candidates keep 0 bs)
      ∙ subst
          (λ (z : ℕ). count z (candidates keep 0 bs) ≡ (
            if field false (λ b. b.resident && has_snapshot b) i bs && not (is_kept z keep)
            then 1
            else 0))
          (omega arith) (count-candidates keep 0 i bs)

  resident-after : (i : ℕ) → resident_at i after ≡ (resident_at i bs && count i victims == 0)
  unfolding after
  resident-after i =
      let e = resident-free victims 0 i bs in
      let c = contains-count i victims in ground (arith, e, c)

  candidate-after :
      (i : ℕ) → candidate_at keep i after ≡ (candidate_at keep i bs && count i victims == 0)
  unfolding after
  candidate-after i =
      let was = resident_snapshot i bs in
      let is = resident_snapshot i after in
      let r = resident-after i in
      let same = field-free_same false has_snapshot victims 0 bs (λ b. refl) i in
      ground (arith, was, is, r, same)

  victims_le : (i : ℕ) → count i victims ≤ count i ordered
  unfolding victims
  victims_le i = count-taken bs budget incoming i (resident_sum bs) ordered

  ordered_le : (i : ℕ) → count i ordered ≤ (if resident_at i bs then 1 else 0)
  ordered_le i = let c = count-ordered i in let r = resident_snapshot i bs in ground (arith, c, r)

  within-after :
      total bs + incoming < 2 ^ 64
      → (resident_sum after + incoming ≤ budget) ⊎ ((i : ℕ) → candidate_at keep i after ≡ false)
  unfolding after victims
  within-after small =
      let le = resident_sum_le_total bs in
      let all = sum-free ordered bs ordered_le in
      let some_of =
        sum-free victims bs
          (λ i. let a = victims_le i in let b = ordered_le i in omega (arith, a, b)) in
      elim (taken_lem bs budget incoming (resident_sum bs) ordered (omega (arith, small, le))
        (omega (arith, all))) [
          | inl fits ↦ inl (omega (arith, fits, some_of))
          | inr every ↦ inr (λ i.
              let c = candidate-after i in
              let o = count-ordered i in
              let e : count i victims ≡ count i ordered = ap (count i) every in
              ground (arith, c, o, e))
        ]

  latest-after :
      (i j : ℕ)
      → resident_at i bs ≡ true
      → resident_at i after ≡ false
      → candidate_at keep j after ≡ true
      → use_at j bs ≤ use_at i bs
  unfolding victims ordered
  latest-after i j was gone stays =
      let r = resident-after i in
      let c = candidate-after j in
      let o = count-ordered j in
      taken-latest bs budget incoming (resident_sum bs) i j ordered
        (sort-IsSorted bs (candidates keep 0 bs)) (ground (arith, r, was, gone))
        (ground (arith, c, o, stays)) (ground (arith, c, stays))

  after-IsEvicted : total bs + incoming < 2 ^ 64 → IsEvicted budget incoming keep bs after
  after-IsEvicted small = record {
    within = within-after small;
    others = λ i h.
        let r = resident-after i in
        let le = victims_le i in let o = count-ordered i in ground (arith, r, le, o, h);
    never_loads = λ i h. let r = resident-after i in ground (arith, r, h);
    latest = latest-after;
  }

  evict_lem :
      total bs + incoming < 2 ^ 64
      → evict_bootstrap_cache budget incoming keep bs
        ≡ (if leb (resident_sum bs + incoming) budget then bs else after)
  unfolding evict_bootstrap_cache after victims ordered
  evict_lem small =
      let e = resident_bytes_lem bs (omega (arith, small)) in
      let le = resident_sum_le_total bs in
      let plain : add64 (resident_sum bs) incoming ≡ resident_sum bs + incoming =
        ground (arith, le, small) in
      rw (e, plain)

-- evictBootstrapCache on groups whose bytes, with the incoming ones, fit a size_t: the resident
-- bytes it leaves and the incoming ones are within the budget, or no group is left that it may
-- offload. It offloads only groups that are resident, have a snapshot and are not the one to keep,
-- it loads none, and no group that it may offload stays that was used later than one it offloads.
pub evict_bootstrap_cache-latest_first :
    (budget incoming : ℕ) (keep : Option ℕ) (bs : List BootCacheBlock)
    → total bs + incoming < 2 ^ 64
    → IsEvicted budget incoming keep bs (evict_bootstrap_cache budget incoming keep bs)
evict_bootstrap_cache-latest_first budget incoming keep bs small =
    let e = evict_lem budget incoming keep bs small in
    elim (Bool-cases (leb (resident_sum bs + incoming) budget)) [
      | inl fits ↦ subst (IsEvicted budget incoming keep bs) (sym (rw (e, fits))) (record {
        within = inl (ground (arith, fits));
        others = λ i h. refl;
        never_loads = λ i h. h;
        latest = λ i j was gone stays. ground (arith, was, gone);
      })
      | inr over ↦
          subst (IsEvicted budget incoming keep bs) (sym (rw (e, over)))
            (after-IsEvicted budget incoming keep bs small)
    ]

pub field-evict_same {ℓ} :
    {A : Type ℓ} (other : A) (f : BootCacheBlock → A) (budget incoming : ℕ) (keep : Option ℕ)
    (bs : List BootCacheBlock)
    → total bs + incoming < 2 ^ 64
    → ((b : BootCacheBlock) → f (record b { resident = false }) ≡ f b)
    → (j : ℕ) → field other f j (evict_bootstrap_cache budget incoming keep bs) ≡ field other f j bs
unfolding after
field-evict_same other f budget incoming keep bs small same j =
    let e = evict_lem budget incoming keep bs small in
    elim (Bool-cases (leb (resident_sum bs + incoming) budget)) [
      | inl fits ↦ rw (e, fits)
      | inr over ↦
          rw (e, over) (field-free_same other f (victims budget incoming keep bs) 0 bs same j)
    ]

pub total-evict :
    (budget incoming : ℕ) (keep : Option ℕ) (bs : List BootCacheBlock)
    → total bs + incoming < 2 ^ 64
    → total (evict_bootstrap_cache budget incoming keep bs) ≡ total bs
unfolding after
total-evict budget incoming keep bs small =
    let e = evict_lem budget incoming keep bs small in
    elim (Bool-cases (leb (resident_sum bs + incoming) budget)) [
      | inl fits ↦ rw (e, fits)
      | inr over ↦ rw (e, over) (total-free (victims budget incoming keep bs) 0 bs)
    ]
