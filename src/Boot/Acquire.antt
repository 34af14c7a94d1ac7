-- ===== src/Boot/Acquire.antt =====
-- AcquireBootBlock: the group is resident afterwards, and the cache stays consistent.
use fideslib.Prelude.{
  ℕ, suc, ◌+◌, ◌^◌, ◌≤◌, ◌<◌, ◌≡◌, refl, ◌∙◌, ◌⊎◌, inl, inr, Bool, true, false, not, ◌&&◌, ◌||◌,
  some, List, leb, ◌==◌, if◌then◌else◌, arith, Bool-cases,
}
use fideslib.Ckks.Result.{ok}
use fideslib.Keys.Cache.{add64}
use fideslib.Boot.{
  BootCacheBlock, BootCache, field, change, evict_bootstrap_cache, acquire_boot_block,
}
use fideslib.Boot.Fields.{resident_sum, total}
use fideslib.Boot.Order.{bytes_at, resident_at}
use fideslib.Boot.Invariant.{
  evictable, IsConsistent, exists_resident, exists_counted, step-IsConsistent,
}
use fideslib.Boot.Load.{
  used, evicted, final, used_same, used-IsStep, final-IsStep, final_here, final-within,
}

-- The cache before and after a group is acquired
pub record IsAcquired (i : ℕ) (cc r : BootCache) : Type 0 where
  pub consistent : IsConsistent r
  pub here : resident_at i r.blocks ≡ true
  -- a group that was not resident is loaded, within the budget or with all others evicted
  pub loaded : r.bootstrap_cache_loaded_bytes ≡ (
      if resident_at i cc.blocks
      then cc.bootstrap_cache_loaded_bytes
      else add64 cc.bootstrap_cache_loaded_bytes (bytes_at i cc.blocks))
  pub within :
      resident_at i cc.blocks ≡ false
      → (resident_sum r.blocks ≤ cc.bootstrap_cache_bytes)
        ⊎ ((j : ℕ) → (j == i) ≡ false → evictable j r.blocks ≡ false)

module _ (debug : Bool) (i : ℕ) (cc : BootCache) (w : IsConsistent cc)
    (clock : suc cc.bootstrap_cache_clock < 2 ^ 64) where
  abbrev used_now : List BootCacheBlock
  used_now = change i (λ b. record b { last_use = suc cc.bootstrap_cache_clock }) cc.blocks

  now_lem : add64 cc.bootstrap_cache_clock 1 ≡ suc cc.bootstrap_cache_clock
  now_lem = ground (arith, clock)

  -- A group that is resident is only marked as used.
  acquire-resident :
      resident_at i cc.blocks ≡ true
      → acquire_boot_block debug i cc
        ≡ ok (record cc { bootstrap_cache_clock = suc cc.bootstrap_cache_clock; blocks = used_now })
  unfolding used acquire_boot_block
  acquire-resident here =
      let r : field false (λ b. b.resident) i used_now ≡ true =
        used_same i cc w false (λ b. b.resident) (λ b n. refl) i ∙ here in
      let now = now_lem in rw (now, r)

  acquire-load :
      resident_at i cc.blocks ≡ false
      → 0 < field 0 (λ b. b.plaintext_count) i cc.blocks
      → field 0 (λ b. b.snapshot_size) i cc.blocks ≡ field 0 (λ b. b.plaintext_count) i cc.blocks
      → acquire_boot_block debug i cc
        ≡ ok (record cc {
          bootstrap_cache_clock = suc cc.bootstrap_cache_clock;
          blocks =
              change i
                (λ b. record b { resident = true })
                (evict_bootstrap_cache cc.bootstrap_cache_bytes
                  (bytes_at i cc.blocks)
                  (some i)
                  used_now);
          bootstrap_cache_loaded_bytes =
              add64 cc.bootstrap_cache_loaded_bytes (bytes_at i cc.blocks);
        })
  unfolding used acquire_boot_block
  acquire-load out some_left size =
      let r : field false (λ b. b.resident) i used_now ≡ false =
        used_same i cc w false (λ b. b.resident) (λ b n. refl) i ∙ out in
      let s : field 0 (λ b. b.snapshot_size) i used_now
          ≡ field 0 (λ b. b.plaintext_count) i cc.blocks =
        used_same i cc w 0 (λ b. b.snapshot_size) (λ b n. refl) i ∙ size in
      let c : field 0 (λ b. b.plaintext_count) i used_now
          ≡ field 0 (λ b. b.plaintext_count) i cc.blocks =
        used_same i cc w 0 (λ b. b.plaintext_count) (λ b n. refl) i in
      let b : field 0 (λ b. b.bytes) i used_now ≡ bytes_at i cc.blocks =
        used_same i cc w 0 (λ b. b.bytes) (λ b n. refl) i in
      let now = now_lem in
      let n = field 0 (λ b. b.plaintext_count) i cc.blocks in
      let t1 : (not debug || not (n == 0) && n == n) ≡ true = ground (arith, some_left) in
      let t2 : leb n n ≡ true = ground arith in rw (now, r, s, c, b, t1, t2)

-- AcquireBootBlock, with assertions or without, in a consistent cache whose clock does not wrap, on
-- a group whose bytes fit a size_t together with those of all groups, and which is resident or has
-- plaintexts and a snapshot of all of them: the call returns. The group is resident afterwards and
-- the cache consistent. The bytes of the group are added to the loaded ones exactly when it was not
-- resident, and then the resident bytes are within the budget or no other group is left that could
-- be evicted.
pub acquire_boot_block-loads :
    (debug : Bool) (i : ℕ) (cc : BootCache)
    → IsConsistent cc
    → suc cc.bootstrap_cache_clock < 2 ^ 64
    → total cc.blocks + bytes_at i cc.blocks < 2 ^ 64
    → (resident_at i cc.blocks ≡ false
        → (0 < field 0 (λ b. b.plaintext_count) i cc.blocks)
          × (field 0 (λ b. b.snapshot_size) i cc.blocks
              ≡ field 0 (λ b. b.plaintext_count) i cc.blocks))
    → (r : BootCache) × (acquire_boot_block debug i cc ≡ ok r) × IsAcquired i cc r
unfolding used final evicted
acquire_boot_block-loads debug i cc w clock small ready =
    let r = used_same i cc w false (λ b. b.resident) (λ b n. refl) i in
    elim (Bool-cases (resident_at i cc.blocks)) [
      | inl here ↦
          let there = exists_resident i cc.blocks here in
          (
            record cc {
              bootstrap_cache_clock = suc cc.bootstrap_cache_clock;
              blocks = used i cc w;
            },
            acquire-resident debug i cc w clock here,
            record {
              consistent =
                  step-IsConsistent i cc w (used i cc w) (used-IsStep i cc w there)
                    cc.bootstrap_cache_loaded_bytes;
              here = r ∙ here;
              loaded = rw here;
              within = λ out. ground (arith, here, out);
            },
          )
      | inr out ↦
          let s = ready out in
          let there = exists_counted i cc.blocks s.0 in
          let b = bytes_at i cc.blocks in
          let step = final-IsStep i cc w cc.bootstrap_cache_bytes b small there in
          let f = final i cc w cc.bootstrap_cache_bytes b small in
          (
            record cc {
              bootstrap_cache_clock = suc cc.bootstrap_cache_clock;
              blocks = f;
              bootstrap_cache_loaded_bytes = add64 cc.bootstrap_cache_loaded_bytes b;
            },
            acquire-load debug i cc w clock out s.0 s.1,
            record {
              consistent =
                  step-IsConsistent i cc w f step (add64 cc.bootstrap_cache_loaded_bytes b);
              here = final_here i cc w cc.bootstrap_cache_bytes b small there;
              loaded = rw out;
              within = λ o. final-within i cc w cc.bootstrap_cache_bytes b small o there refl;
            },
          )
    ]
