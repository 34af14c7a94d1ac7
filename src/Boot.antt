-- ===== src/Boot.antt =====
-- src/CKKS/Context.cu, src/CKKS/BootstrapPrecomputation.cuh: the cache of the plaintexts of the
-- bootstrap precomputation. A group is BootCacheBlock with the number of its plaintexts; its place
-- in the list is its pointer. The words of the snapshots, streams and devices are left out.
pub mod Fields
pub mod Order
pub mod Freed
pub mod Evict
pub mod Invariant
pub mod Load
pub mod Acquire
use fideslib.Prelude.{
  ℕ, zero, suc, ◌-◌, ◌^◌, Bool, true, false, not, ◌&&◌, ◌||◌, Option, some, none, List, [], ◌∷◌,
  ltb, leb, ◌==◌, if◌then◌else◌, length,
}
use fideslib.Ckks.Result.{Result, ok, err, ◌>>=◌, ◌>>◌, guard, assertion, out_of_range}
use fideslib.Keys.Cache.{add64, sub64, contains}

pub record BootCacheBlock : Type 0 where
  pub snapshot_size : ℕ
  pub plaintext_count : ℕ
  pub resident : Bool
  pub bytes : ℕ
  pub last_use : ℕ

abbrev pub has_snapshot : BootCacheBlock → Bool
has_snapshot b = not (b.snapshot_size == 0)

-- The groups of precom.boot in the order of forEachBlock, and the fields of ContextData
pub record BootCache : Type 0 where
  pub blocks : List BootCacheBlock
  pub bootstrap_cache_bytes : ℕ
  pub bootstrap_cache_clock : ℕ
  pub bootstrap_cache_loaded_bytes : ℕ

-- What a pointer's field holds
unfoldable pub field {ℓ} : {A : Type ℓ} → A → (BootCacheBlock → A) → ℕ → List BootCacheBlock → A
field other f i [] = other
field other f zero (b ∷ bs) = f b
field other f (suc i) (b ∷ bs) = field other f i bs

-- A change through a pointer
unfoldable pub change :
    ℕ → (BootCacheBlock → BootCacheBlock) → List BootCacheBlock → List BootCacheBlock
change i f [] = []
change zero f (b ∷ bs) = f b ∷ bs
change (suc i) f (b ∷ bs) = b ∷ change i f bs

unfoldable pub bootstrap_cache_resident_bytes : List BootCacheBlock → ℕ
bootstrap_cache_resident_bytes [] = 0
bootstrap_cache_resident_bytes (b ∷ bs) =
    let rest = bootstrap_cache_resident_bytes bs in if b.resident then add64 b.bytes rest else rest

-- freeBootBlocks, from place i on
unfoldable pub free_boot_blocks : List ℕ → ℕ → List BootCacheBlock → List BootCacheBlock
free_boot_blocks freed i [] = []
free_boot_blocks freed i (b ∷ bs) =
    (if contains i freed then record b { resident = false } else b)
    ∷ free_boot_blocks freed (suc i) bs

abbrev pub is_kept : ℕ → Option ℕ → Bool
is_kept i none = false
is_kept i (some j) = i == j

unfoldable pub candidates : Option ℕ → ℕ → List BootCacheBlock → List ℕ
candidates keep i [] = []
candidates keep i (b ∷ bs) =
    let rest = candidates keep (suc i) bs in
    if b.resident && has_snapshot b && not (is_kept i keep) then i ∷ rest else rest

module _ (blocks : List BootCacheBlock) where
  -- std::sort, the latest use first
  unfoldable pub insert_by_use : ℕ → List ℕ → List ℕ
  insert_by_use x [] = x ∷ []
  insert_by_use x (y ∷ ys) =
      let rest = insert_by_use x ys in
      if ltb (field 0 (λ b. b.last_use) y blocks) (field 0 (λ b. b.last_use) x blocks)
      then x ∷ y ∷ ys
      else y ∷ rest

  unfoldable pub sort_by_use : List ℕ → List ℕ
  sort_by_use [] = []
  sort_by_use (x ∷ xs) = insert_by_use x (sort_by_use xs)

  -- The candidates that the loop takes, with the resident bytes before
  unfoldable pub taken : (budget incoming resident : ℕ) → List ℕ → List ℕ
  taken budget incoming resident [] = []
  taken budget incoming resident (c ∷ cs) =
      let rest = taken budget incoming (sub64 resident (field 0 (λ b. b.bytes) c blocks)) cs in
      if ltb budget (add64 resident incoming) then c ∷ rest else []

unfoldable pub evict_bootstrap_cache :
    (budget incoming : ℕ) → Option ℕ → List BootCacheBlock → List BootCacheBlock
evict_bootstrap_cache budget incoming keep blocks =
    let resident = bootstrap_cache_resident_bytes blocks in
    if leb (add64 resident incoming) budget
    then blocks
    else free_boot_blocks
        (taken blocks budget incoming resident (sort_by_use blocks (candidates keep 0 blocks))) 0
        blocks

unfoldable pub set_bootstrap_cache : ℕ → BootCache → BootCache
set_bootstrap_cache bytes cc = record cc {
  bootstrap_cache_bytes = bytes;
  blocks = evict_bootstrap_cache bytes 0 none cc.blocks;
}

unfoldable pub offload_bootstrap_precomputation : BootCache → BootCache
offload_bootstrap_precomputation cc = record cc {
  blocks = evict_bootstrap_cache 0 0 none cc.blocks;
}

sum64 : List ℕ → ℕ
sum64 [] = 0
sum64 (b ∷ bs) = add64 b (sum64 bs)

-- AdmitBootBlock of a group that is in no list yet: `limb_bytes` are those of its plaintexts.
unfoldable pub admit_boot_block :
    Bool → ℕ → List ℕ → (raws : ℕ) → BootCacheBlock → Result BootCacheBlock
unfolding sum64
admit_boot_block debug budget limb_bytes raws b =
    let here = record b {
      plaintext_count = length limb_bytes;
      bytes = sum64 limb_bytes;
      resident = true;
    } in
    if budget == 2 ^ 64 - 1 || length limb_bytes == 0
    then ok here
    else guard (not debug || raws == length limb_bytes) assertion
      >> ok (record here { snapshot_size = raws; resident = false })

-- AcquireBootBlock. Without assertions a snapshot that is too short ends in its `at`.
unfoldable pub acquire_boot_block : Bool → ℕ → BootCache → Result BootCache
acquire_boot_block debug i cc =
    let now = add64 cc.bootstrap_cache_clock 1 in
    let used = change i (λ b. record b { last_use = now }) cc.blocks in
    let size = field 0 (λ b. b.snapshot_size) i used in
    let count = field 0 (λ b. b.plaintext_count) i used in
    let bytes = field 0 (λ b. b.bytes) i used in
    if field false (λ b. b.resident) i used
    then ok (record cc { bootstrap_cache_clock = now; blocks = used })
    else (do
      guard (not debug || not (size == 0) && size == count) assertion
      guard (leb count size) out_of_range
      let evicted = evict_bootstrap_cache cc.bootstrap_cache_bytes bytes (some i) used
      ok (record cc {
        bootstrap_cache_clock = now;
        blocks = change i (λ b. record b { resident = true }) evicted;
        bootstrap_cache_loaded_bytes = add64 cc.bootstrap_cache_loaded_bytes bytes;
      }))
