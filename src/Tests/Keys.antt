-- ===== src/Tests/Keys.antt =====
-- The key cache at concrete key sets.
use fideslib.Prelude.{
  ℕ, ◌+◌, ◌*◌, ◌%◌, ◌≤◌, ◌≡◌, ◌⊎◌, refl, true, false, none, some, List, [], ◌∷◌, arith,
}
use fideslib.Prelude.Int.{negsuc}
use fideslib.Ckks.Result.{ok, err, out_of_fuel}
use fideslib.Keys.Cache.{
  Key, KeySet, contains, find, victim, erase, evict_loop, evict_to_fit, ensure_resident,
}
use fideslib.Keys.Bookkeeping.{IsConsistent, resident_sum, total, count, is_resident}
use fideslib.Keys.Evict.{IsOffloadable, IsEvicted, has_copy, evict_loop-stuck, evict_to_fit-ends}
use fideslib.Keys.Lookup.{IsLoaded, ensure_resident-loads}
use fideslib.Keys.Store.{reduced, has_key, actual_index, emplace}
use fideslib.Keys.Store.Register.{emplace-IsConsistent, emplace-counts_twice}
use fideslib.Keys.Store.Index.{actual_index-serves}

abbrev on_device : Key
on_device = record { resident = true; has_snapshot = true; limb_bytes = 100 }

abbrev on_host : Key
on_host = record { resident = false; has_snapshot = true; limb_bytes = 100 }

abbrev permanent : Key
permanent = record { resident = true; has_snapshot = false; limb_bytes = 100 }

-- Two keys on the device, 3 used last, and one on the host
abbrev keys : KeySet
keys = record {
  rot_keys = (1, on_device) ∷ (2, on_host) ∷ (3, on_device) ∷ [];
  resident_bytes = 200;
  lru_order = 3 ∷ 1 ∷ [];
  pinned = [];
}

-- A key that was loaded before a budget was set, and used
abbrev old_keys : KeySet
old_keys = record {
  rot_keys = (1, permanent) ∷ [];
  resident_bytes = 100;
  lru_order = 1 ∷ [];
  pinned = [];
}

keys-IsConsistent : IsConsistent keys
unfolding resident_sum total count is_resident
keys-IsConsistent = record { counted = refl; fits = omega arith; ordered = λ i. ground arith }

keys-IsOffloadable : IsOffloadable keys
unfolding count has_copy
keys-IsOffloadable i h n = ground arith

evict_loop-stuck_example : evict_loop 1000 50 0 old_keys ≡ err out_of_fuel
unfolding victim find contains
evict_loop-stuck_example =
    evict_loop-stuck 1000 50 0 1 permanent old_keys (omega arith) refl refl refl

evict_to_fit-ends_example : (r : KeySet) × (evict_to_fit 150 0 keys ≡ ok r) × IsEvicted 150 0 r
evict_to_fit-ends_example = evict_to_fit-ends 150 0 keys keys-IsConsistent keys-IsOffloadable

ensure_resident-loads_example :
    (r : KeySet) × (ensure_resident true 2 250 true keys ≡ ok r)
    × IsLoaded 2 r
    × ((r.resident_bytes ≤ 250)
        ⊎ ((rest : List ℕ) × (r.lru_order ≡ 2 ∷ erase 2 rest) × (victim r.pinned rest ≡ none)))
unfolding find
ensure_resident-loads_example =
    ensure_resident-loads true 2 250 on_host keys keys-IsConsistent keys-IsOffloadable refl refl
      refl

-- N / 2 = 16, 4 slots: a rotation by -3 is served by the key for 1.
actual_index-serves_example :
    (j : ℕ) × (actual_index (negsuc 2) (some 4) (4 * 4) keys ≡ ok j)
    × (has_key j keys ≡ true)
    × (j % 4 ≡ reduced (4 * 4) (negsuc 2) % 4)
unfolding has_key find reduced
actual_index-serves_example =
    actual_index-serves (negsuc 2) 4 4 1 keys (omega arith) (omega arith) (omega arith) refl

emplace-IsConsistent_example : IsConsistent (emplace 4 on_device keys)
unfolding find total
emplace-IsConsistent_example =
    emplace-IsConsistent 4 on_device keys keys-IsConsistent refl (omega arith)

emplace-counts_twice_example :
    (emplace 1 on_host keys).resident_bytes ≡ resident_sum (emplace 1 on_host keys).rot_keys + 100
unfolding find resident_sum
emplace-counts_twice_example =
    emplace-counts_twice 1 on_host keys keys-IsConsistent on_device refl refl (omega arith)
