-- ===== src/Tests/Limbs.antt =====
-- The limbs of small contexts.
use fideslib.Prelude.{ℕ, ◌*◌, ◌/◌, ◌≡◌, none, List, [], ◌∷◌, ltb, if◌then◌else◌, length, arith}
use fideslib.Ckks.Result.{ok}
use fideslib.Limbs.{
  LimbRecord, PrimeRecord, u64, generate_meta, generate_split_special_meta, flatten, matching,
}
use fideslib.Limbs.Partition.{flatten-generate_split_special_meta, generate_meta-balanced}

abbrev limb : ℕ → LimbRecord
limb i = record { id = i; limb_type = u64; digit = none }

abbrev prime : ℕ → PrimeRecord
prime p = record { p = p; bits = 60; chosen = none }

abbrev primes : List PrimeRecord
primes = prime 97 ∷ prime 193 ∷ prime 257 ∷ prime 353 ∷ prime 449 ∷ []

-- 3 special limbs on 2 devices
flatten-generate_split_special_meta_example :
    flatten (generate_split_special_meta 2 (limb 5 ∷ limb 6 ∷ limb 7 ∷ []))
    ≡ limb 5 ∷ limb 6 ∷ limb 7 ∷ []
flatten-generate_split_special_meta_example =
    flatten-generate_split_special_meta 1 (limb 5 ∷ limb 6 ∷ limb 7 ∷ [])

-- 5 primes on 2 devices, in 3 digits
generate_meta-balanced_example :
    (m : List (List LimbRecord)) × (generate_meta none 2 3 primes ≡ ok m)
    × (length (flatten m) ≡ length primes)
    × ((k : ℕ)
        → length (matching k (k * 3 / length primes) (flatten m))
          ≡ (if ltb k (length primes) then 1 else 0))
generate_meta-balanced_example = generate_meta-balanced 2 3 primes (omega arith) (omega arith)
