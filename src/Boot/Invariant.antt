-- ===== src/Boot/Invariant.antt =====
-- When the cache of groups is consistent, and that a use of a group keeps it so.
use fideslib.Prelude.{
  ℕ, zero, suc, ◌^◌, ◌≤◌, ◌<◌, ◌≡◌, refl, subst, inl, inr, Bool, true, false, ◌&&◌, List, [], ◌∷◌,
  ◌==◌, arith, Bool-cases,
}
use fideslib.Boot.{BootCacheBlock, BootCache, field, change, has_snapshot}
use fideslib.Boot.Fields.{total}
use fideslib.Boot.Order.{use_at, resident_at}

-- Resident, with a snapshot to reload it from
abbrev pub evictable : ℕ → List BootCacheBlock → Bool
evictable i bs = field false (λ b. b.resident && has_snapshot b) i bs

-- The bytes fit a size_t, and the groups that can be evicted were used at different times.
pub record IsConsistent (cc : BootCache) : Type 0 where
  pub fits : total cc.blocks < 2 ^ 64
  pub past : (i : ℕ) → evictable i cc.blocks ≡ true → use_at i cc.blocks ≤ cc.bootstrap_cache_clock
  pub distinct :
      (i j : ℕ)
      → evictable i cc.blocks ≡ true
      → evictable j cc.blocks ≡ true
      → (i == j) ≡ false
      → (use_at i cc.blocks == use_at j cc.blocks) ≡ false

pub field_here {ℓ} :
    {A : Type ℓ} (other c : A) (f : BootCacheBlock → A) (g : BootCacheBlock → BootCacheBlock)
    (i : ℕ) (bs : List BootCacheBlock)
    → ((b : BootCacheBlock) → f (g b) ≡ c)
    → field false (λ b. true) i bs ≡ true
    → field other f i (change i g bs) ≡ c
unfolding field change
field_here other c f g i [] same there = ground (arith, there)
field_here other c f g zero (b ∷ bs) same there = same b
field_here other c f g (suc i) (b ∷ bs) same there = field_here other c f g i bs same there

pub exists_resident :
    (i : ℕ) (bs : List BootCacheBlock)
    → resident_at i bs ≡ true
    → field false (λ b. true) i bs ≡ true
unfolding field
exists_resident i [] h = ground (arith, h)
exists_resident zero (b ∷ bs) h = refl
exists_resident (suc i) (b ∷ bs) h = exists_resident i bs h

pub exists_counted :
    (i : ℕ) (bs : List BootCacheBlock)
    → 0 < field 0 (λ b. b.plaintext_count) i bs
    → field false (λ b. true) i bs ≡ true
unfolding field
exists_counted i [] h = ground (arith, h)
exists_counted zero (b ∷ bs) h = refl
exists_counted (suc i) (b ∷ bs) h = exists_counted i bs h

-- The groups after group i was used at time `now`; others may have been evicted.
pub record IsStep (i now : ℕ) (bs bs' : List BootCacheBlock) : Type 0 where
  pub same_total : total bs' ≡ total bs
  pub newest : use_at i bs' ≡ now
  pub stays : (j : ℕ) → (j == i) ≡ false → evictable j bs' ≡ true → evictable j bs ≡ true
  pub same_use : (j : ℕ) → (j == i) ≡ false → use_at j bs' ≡ use_at j bs

module _ (i : ℕ) (cc : BootCache) (w : IsConsistent cc) (bs' : List BootCacheBlock)
    (step : IsStep i (suc cc.bootstrap_cache_clock) cc.blocks bs') where
  past_lem :
      (j : ℕ) → (j == i) ≡ false → evictable j bs' ≡ true → use_at j bs' ≤ cc.bootstrap_cache_clock
  past_lem j other e =
      let u = step.same_use j other in
      let p = w.past j (step.stays j other e) in omega (arith, u, p)

  newest_lem : (j : ℕ) → (j == i) ≡ true → use_at j bs' ≡ suc cc.bootstrap_cache_clock
  newest_lem j same =
      let e : i ≡ j = ground (arith, same) in
      subst (λ z. use_at z bs' ≡ suc cc.bootstrap_cache_clock) e step.newest

  pub step-IsConsistent :
      (loaded : ℕ)
      → IsConsistent (record cc {
        blocks = bs';
        bootstrap_cache_clock = suc cc.bootstrap_cache_clock;
        bootstrap_cache_loaded_bytes = loaded;
      })
  step-IsConsistent loaded = record {
    fits = let t = step.same_total in let f = w.fits in omega (arith, t, f);
    past = λ j e. elim (Bool-cases (j == i)) [
      | inl same ↦ let u = newest_lem j same in omega (arith, u)
      | inr other ↦ let p = past_lem j other e in omega (arith, p)
    ];
    distinct = λ j l ej el differ. elim (Bool-cases (j == i)) [
      | inl same ↦
          let u = newest_lem j same in
          let p = past_lem l (ground (arith, same, differ)) el in ground (arith, u, p)
      | inr other ↦ elim (Bool-cases (l == i)) [
        | inl same ↦
            let u = newest_lem l same in let p = past_lem j other ej in ground (arith, u, p)
        | inr apart ↦
            let d = w.distinct j l (step.stays j other ej) (step.stays l apart el) differ in
            let uj = step.same_use j other in
            let ul = step.same_use l apart in ground (arith, d, uj, ul)
      ]
    ];
  }
