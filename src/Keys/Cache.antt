-- ===== src/Keys/Cache.antt =====
-- src/CKKS/Context.cu: Precomputations::KeyPrecomputations, the keys of one tag and the bookkeeping
-- of their cache; src/CKKS/KeySwitchingKey.cu: offload and ensureResident of one key. The map
-- lru_pos holds, for each member of lru_order, its place there: a member is looked up in lru_order.
use fideslib.Prelude.{
  ℕ, zero, suc, ◌+◌, ◌-◌, ◌%◌, ◌^◌, Bool, true, false, ◌&&◌, ◌||◌, Option, some, none, List, [],
  ◌∷◌, ltb, leb, ◌==◌, if◌then◌else◌, length,
}
use fideslib.Ckks.Result.{
  Result, ok, err, ◌>>=◌, ◌>>◌, guard, assertion, out_of_range, out_of_fuel, missing_key,
}

-- KeySwitchingKey: where its limbs are and how many bytes they take
pub record Key : Type 0 where
  pub resident : Bool
  pub has_snapshot : Bool
  pub limb_bytes : ℕ

pub record KeySet : Type 0 where
  pub rot_keys : List (ℕ × Key)
  pub resident_bytes : ℕ
  -- most recently used first
  pub lru_order : List ℕ
  pub pinned : List ℕ

-- size_t
abbrev pub add64 : ℕ → ℕ → ℕ
add64 a b = (a + b) % 2 ^ 64

abbrev pub sub64 : ℕ → ℕ → ℕ
sub64 a b = if leb b a then a - b else a + 2 ^ 64 - b

unfoldable pub contains : ℕ → List ℕ → Bool
contains i [] = false
contains i (x ∷ xs) = i == x || contains i xs

-- list::erase at the place of a member
unfoldable pub erase : ℕ → List ℕ → List ℕ
erase i [] = []
erase i (x ∷ xs) = if i == x then xs else x ∷ erase i xs

unfoldable pub find : ℕ → List (ℕ × Key) → Option Key
find i [] = none
find i ((j, k) ∷ rest) = if i == j then some k else find i rest

-- A change of rot_keys[index], in place
unfoldable pub update : ℕ → (Key → Key) → List (ℕ × Key) → List (ℕ × Key)
update i f [] = []
update i f ((j, k) ∷ rest) = if i == j then (j, f k) ∷ rest else (j, k) ∷ update i f rest

-- KeySwitchingKey::offload
unfoldable pub key_offload : Key → Key
key_offload k = record k { resident = false }

-- KeySwitchingKey::ensureResident: without a snapshot an assertion fails, or the load's `at` throws.
unfoldable pub key_reload : Bool → Key → Result Key
key_reload debug k =
    if k.resident
    then ok k
    else guard k.has_snapshot (if debug then assertion else out_of_range)
      >> ok (record k { resident = true })

unfoldable pub touch : ℕ → KeySet → KeySet
touch i ks = record ks { lru_order = i ∷ erase i ks.lru_order }

unfoldable pub offload_key : ℕ → KeySet → KeySet
offload_key i ks = elim (find i ks.rot_keys) [
  | none ↦ ks
  | some k ↦
      if k.resident && k.has_snapshot
      then record ks {
        rot_keys = update i key_offload ks.rot_keys;
        resident_bytes = sub64 ks.resident_bytes k.limb_bytes;
        lru_order = erase i ks.lru_order;
      }
      else ks
]

-- From the back of lru_order, the first key that is not pinned
unfoldable pub victim : List ℕ → List ℕ → Option ℕ
victim pinned [] = none
victim pinned (i ∷ rest) = elim (victim pinned rest) [
  | some j ↦ some j
  | none ↦ if contains i pinned then none else some i
]

-- The loop, with fuel: `out_of_fuel` where it has not ended.
unfoldable pub evict_loop : ℕ → ℕ → ℕ → KeySet → Result KeySet
evict_loop zero budget incoming ks = err out_of_fuel
evict_loop (suc fuel) budget incoming ks =
    let again = evict_loop fuel budget incoming in
    if ltb budget (add64 ks.resident_bytes incoming)
    then elim (victim ks.pinned ks.lru_order) [ some i ↦ again (offload_key i ks) | none ↦ ok ks ]
    else ok ks

-- One round for each key in lru_order, and one that ends the loop.
unfoldable pub evict_to_fit : ℕ → ℕ → KeySet → Result KeySet
evict_to_fit budget incoming ks = evict_loop (suc (length ks.lru_order)) budget incoming ks

unfoldable pub ensure_resident : Bool → ℕ → ℕ → Bool → KeySet → Result KeySet
ensure_resident debug i budget may_evict ks = elim (find i ks.rot_keys) [
  | none ↦ err missing_key
  | some k ↦ if k.resident then ok (touch i ks) else (do
    ks ← if may_evict then evict_to_fit budget k.limb_bytes ks else ok ks
    loaded ← key_reload debug k
    ok (
        touch i (record ks {
          rot_keys = update i (λ _. loaded) ks.rot_keys;
          resident_bytes = add64 ks.resident_bytes loaded.limb_bytes;
        })))
]

unfoldable pub register_key : Key → KeySet → KeySet
register_key k ks =
    if k.resident then record ks { resident_bytes = add64 ks.resident_bytes k.limb_bytes } else ks

unfoldable pub reset_cache_bookkeeping : KeySet → KeySet
reset_cache_bookkeeping ks = record ks { resident_bytes = 0; lru_order = []; pinned = [] }

unfoldable pub enforce_budget : ℕ → KeySet → Result KeySet
enforce_budget budget ks = evict_to_fit budget 0 ks
