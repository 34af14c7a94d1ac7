-- ===== src/Limbs.antt =====
-- src/CKKS/Context.cu: which limb of a context lies on which device and in which digit. The devices
-- are numbered from 0, and the streams of the records are left out.
pub mod Partition
use fideslib.Prelude.{
  ℕ, zero, suc, ◌+◌, ◌-◌, ◌*◌, ◌/◌, ◌%◌, Bool, true, false, not, ◌&&◌, ◌||◌, Option, some, none,
  List, [], ◌∷◌, ◌++◌, map, ltb, leb, ◌==◌, if◌then◌else◌, length,
}
use fideslib.Ckks.Result.{Result, ok, err, out_of_range}

pub data LimbType : Type 0 where
  u32 u64 : LimbType

-- PrimeRecord: the modulus, its bits, which are set, and a type where one is chosen
pub record PrimeRecord : Type 0 where
  pub p : ℕ
  pub bits : ℕ
  pub chosen : Option LimbType

-- A special limb has the digit -1, here `none`.
pub record LimbRecord : Type 0 where
  pub id : ℕ
  pub limb_type : LimbType
  pub digit : Option ℕ

unfoldable pub type_of : PrimeRecord → LimbType
type_of q = elim q.chosen [ some t ↦ t | none ↦ if leb q.bits 30 then u32 else u64 ]

unfoldable pub has_modulus : ℕ → List ℕ → Bool
has_modulus p [] = false
has_modulus p (q ∷ qs) = p == q || has_modulus p qs

-- The first part that has the modulus, counted from `i`
unfoldable pub find_digit : ℕ → ℕ → List (List ℕ) → Option ℕ
find_digit i p [] = none
find_digit i p (part ∷ parts) = if has_modulus p part then some i else find_digit (suc i) p parts

-- The digit of prime i of n: balanced chunks, or the partition of the raw parameters
unfoldable pub digit_of : Option (List (List ℕ)) → ℕ → ℕ → ℕ → ℕ → Option ℕ
digit_of raw dnum n i p = elim raw [
  | none ↦ some (i * dnum / n)
  | some parts ↦ find_digit 0 p parts
]

unfoldable pub push : ℕ → LimbRecord → List (List LimbRecord) → List (List LimbRecord)
push d r [] = []
push zero r (row ∷ rows) = (row ++ (r ∷ [])) ∷ rows
push (suc d) r (row ∷ rows) = row ∷ push d r rows

unfoldable pub empty_rows : ℕ → List (List LimbRecord)
empty_rows zero = []
empty_rows (suc d) = [] ∷ empty_rows d

-- The loop over the primes from number i on; `prev` is the digit before, 0 at the start.
unfoldable pub meta_loop :
    Option (List (List ℕ))
    → (devs dnum n i prev : ℕ) → List PrimeRecord
    → List (List LimbRecord)
    → Result (List (List LimbRecord))
meta_loop raw devs dnum n i prev [] rows = ok rows
meta_loop raw devs dnum n i prev (q ∷ qs) rows = elim (digit_of raw dnum n i q.p) [
  | none ↦ err out_of_range
  | some d ↦
      let limb : LimbRecord = record { id = i; limb_type = type_of q; digit = some d } in
      let rest = meta_loop raw devs dnum n (suc i) d qs (push (i % devs) limb rows) in
      if ltb d prev || leb dnum d then err out_of_range else rest
]

-- A wrong partition is the exception of the source.
unfoldable pub generate_meta :
    Option (List (List ℕ)) → (devs dnum : ℕ) → List PrimeRecord → Result (List (List LimbRecord))
generate_meta raw devs dnum prime =
    meta_loop raw devs dnum (length prime) 0 0 prime (empty_rows devs)

unfoldable pub take : ℕ → List LimbRecord → List LimbRecord
take zero limbs = []
take (suc n) [] = []
take (suc n) (l ∷ ls) = l ∷ take n ls

unfoldable pub drop : ℕ → List LimbRecord → List LimbRecord
drop zero limbs = limbs
drop (suc n) [] = []
drop (suc n) (l ∷ ls) = drop n ls

-- Device by device: the remaining limbs divided by the remaining devices, rounded down
unfoldable pub generate_split_special_meta : ℕ → List LimbRecord → List (List LimbRecord)
generate_split_special_meta zero limbs = []
generate_split_special_meta (suc devs) limbs =
    let num = length limbs / suc devs in
    take num limbs ∷ generate_split_special_meta devs (drop num limbs)

unfoldable pub special_from : ℕ → List PrimeRecord → List LimbRecord
special_from i [] = []
special_from i (q ∷ qs) =
    (record { id = i; limb_type = type_of q; digit = none }) ∷ special_from (suc i) qs

-- Every device has all the special limbs, numbered from `id0`.
unfoldable pub generate_special_meta : ℕ → ℕ → List PrimeRecord → List (List LimbRecord)
generate_special_meta zero id0 special = []
generate_special_meta (suc devs) id0 special =
    special_from id0 special ∷ generate_special_meta devs id0 special

unfoldable pub in_digit : ℕ → LimbRecord → Bool
in_digit d l = elim l.digit [ some e ↦ e == d | none ↦ false ]

-- The limbs of a device that are not of the digit
unfoldable pub others : ℕ → List LimbRecord → List LimbRecord
others d [] = []
others d (l ∷ ls) = if in_digit d l then others d ls else l ∷ others d ls

-- One list for each digit of a device: the special limbs, and its limbs of the other digits
unfoldable pub digit_rows : List LimbRecord → List LimbRecord → List ℕ → List (List LimbRecord)
digit_rows special limbs [] = []
digit_rows special limbs (d ∷ ds) = (special ++ others d limbs) ∷ digit_rows special limbs ds

-- The limbs of all devices that have the id and the digit
unfoldable pub matching : ℕ → ℕ → List LimbRecord → List LimbRecord
matching primeid d [] = []
matching primeid d (l ∷ ls) =
    if l.id == primeid && in_digit d l then l ∷ matching primeid d ls else matching primeid d ls

unfoldable pub flatten : List (List LimbRecord) → List LimbRecord
flatten [] = []
flatten (row ∷ rows) = row ++ flatten rows

-- `count` prime ids from `primeid` on
unfoldable pub decomp_from : (count primeid d : ℕ) → List (List LimbRecord) → List LimbRecord
decomp_from zero primeid d rows = []
decomp_from (suc count) primeid d rows =
    matching primeid d (flatten rows) ++ decomp_from count (suc primeid) d rows

-- One list for each digit of a device: the limbs of the digit, on whatever device, by prime id
unfoldable pub decomp_rows : ℕ → List (List LimbRecord) → List ℕ → List (List LimbRecord)
decomp_rows primes rows [] = []
decomp_rows primes rows (d ∷ ds) = decomp_from primes 0 d rows ∷ decomp_rows primes rows ds

-- 0 up to dnum - 1, for every device
unfoldable pub digits_below : ℕ → List ℕ
digits_below zero = []
digits_below (suc dnum) = digits_below dnum ++ (dnum ∷ [])

unfoldable pub generate_gpu_digits : ℕ → ℕ → List (List ℕ)
generate_gpu_digits dnum zero = []
generate_gpu_digits dnum (suc devs) = digits_below dnum ∷ generate_gpu_digits dnum devs
