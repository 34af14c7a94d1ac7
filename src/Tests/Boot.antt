-- ===== src/Tests/Boot.antt =====
-- The cache of the bootstrap plaintexts with four groups.
use fideslib.Prelude.{
  ℕ, zero, suc, ◌≤◌, ◌≡◌, refl, Bool, true, false, some, List, [], ◌∷◌, ◌==◌, arith, map,
}
use fideslib.Ckks.Result.{ok, err, value_or, assertion, out_of_range}
use fideslib.Keys.Cache.{contains}
use fideslib.Boot.{
  BootCacheBlock, BootCache, field, evict_bootstrap_cache, set_bootstrap_cache, admit_boot_block,
  acquire_boot_block, candidates, sort_by_use, insert_by_use, taken, free_boot_blocks,
  bootstrap_cache_resident_bytes, change,
}
use fideslib.Boot.Fields.{total}
use fideslib.Boot.Evict.{IsEvicted, evict_bootstrap_cache-latest_first}
use fideslib.Boot.Invariant.{evictable, IsConsistent}
use fideslib.Boot.Acquire.{IsAcquired, acquire_boot_block-loads}

abbrev group : (snapshot last_use : ℕ) → Bool → BootCacheBlock
group snapshot last_use resident = record {
  snapshot_size = snapshot;
  plaintext_count = 2;
  resident = resident;
  bytes = 100;
  last_use = last_use;
}

-- The last one was built without a budget, and has no snapshot.
abbrev groups : List BootCacheBlock
groups = group 2 3 true ∷ group 2 5 true ∷ group 2 4 false ∷ group 0 1 true ∷ []

abbrev cache : BootCache
cache = record {
  blocks = groups;
  bootstrap_cache_bytes = 320;
  bootstrap_cache_clock = 5;
  bootstrap_cache_loaded_bytes = 0;
}

residents : List BootCacheBlock → List Bool
residents bs = map (λ b. b.resident) bs

-- Group 2 takes the place of group 1, which was used last.
acquire_streams :
    residents (value_or cache (acquire_boot_block true 2 cache)).blocks
    ≡ true ∷ false ∷ true ∷ true ∷ []
unfolding residents value_or acquire_boot_block change evict_bootstrap_cache
    bootstrap_cache_resident_bytes free_boot_blocks contains taken sort_by_use candidates
    insert_by_use field
acquire_streams = refl

offload_all : residents (set_bootstrap_cache 0 cache).blocks ≡ false ∷ false ∷ false ∷ true ∷ []
unfolding residents set_bootstrap_cache evict_bootstrap_cache bootstrap_cache_resident_bytes
    free_boot_blocks contains taken sort_by_use candidates insert_by_use field
offload_all = refl

-- A group whose snapshot was not taken is refused.
abbrev torn : BootCache
torn = record cache { blocks = group 0 1 false ∷ [] }

acquire_torn : acquire_boot_block true 0 torn ≡ err assertion
unfolding acquire_boot_block field change
acquire_torn = refl

acquire_torn_release : acquire_boot_block false 0 torn ≡ err out_of_range
unfolding acquire_boot_block field change
acquire_torn_release = refl

admit_lazily : admit_boot_block true 320 (60 ∷ 40 ∷ []) 2 (group 0 0 true) ≡ ok (group 2 0 false)
unfolding admit_boot_block
admit_lazily = refl

groups-evictable : (i : ℕ) → evictable (suc (suc i)) groups ≡ true → 1 ≤ 0
unfolding field
groups-evictable zero e = ground (arith, e)
groups-evictable (suc zero) e = ground (arith, e)
groups-evictable (suc (suc i)) e = ground (arith, e)

groups_past : (i : ℕ) → evictable i groups ≡ true → field 0 (λ b. b.last_use) i groups ≤ 5
unfolding field
groups_past zero e = omega arith
groups_past (suc zero) e = omega arith
groups_past (suc (suc i)) e = let f = groups-evictable i e in omega (arith, f)

groups_distinct :
    (i j : ℕ)
    → evictable i groups ≡ true
    → evictable j groups ≡ true
    → (i == j) ≡ false
    → (field 0 (λ b. b.last_use) i groups == field 0 (λ b. b.last_use) j groups) ≡ false
unfolding field
groups_distinct zero zero ei ej h = ground (arith, h)
groups_distinct zero (suc zero) ei ej h = refl
groups_distinct zero (suc (suc j)) ei ej h = let f = groups-evictable j ej in ground (arith, f)
groups_distinct (suc zero) zero ei ej h = refl
groups_distinct (suc zero) (suc zero) ei ej h = ground (arith, h)
groups_distinct (suc zero) (suc (suc j)) ei ej h =
    let f = groups-evictable j ej in ground (arith, f)
groups_distinct (suc (suc i)) j ei ej h = let f = groups-evictable i ei in ground (arith, f)

cache-IsConsistent : IsConsistent cache
unfolding total
cache-IsConsistent = record { fits = omega arith; past = groups_past; distinct = groups_distinct }

evict_bootstrap_cache-latest_first_example :
    IsEvicted 320 100 (some 2) groups (evict_bootstrap_cache 320 100 (some 2) groups)
unfolding total
evict_bootstrap_cache-latest_first_example =
    evict_bootstrap_cache-latest_first 320 100 (some 2) groups (omega arith)

acquire_boot_block-loads_example :
    (r : BootCache) × (acquire_boot_block true 2 cache ≡ ok r) × IsAcquired 2 cache r
unfolding total field
acquire_boot_block-loads_example =
    acquire_boot_block-loads true 2 cache cache-IsConsistent (omega arith) (omega arith)
      (λ out. (omega arith, refl))
