-- ===== src/Keys/Store.antt =====
-- src/CKKS/Context.cu: the rotation keys of a context, by tag, and the index under which one is
-- looked up. A tag is a number, 0 for the empty one. The map of the tags is an association list in
-- the order of its keys, and `half` is N / 2. The order of the keys of one tag is left open.
pub mod Index
pub mod Register
use fideslib.Prelude.{
  ℕ, zero, suc, ◌+◌, ◌-◌, ◌*◌, ◌/◌, ◌%◌, ◌^◌, Bool, true, false, not, ◌&&◌, ◌||◌, Option, some,
  none, List, [], ◌∷◌, map, ltb, leb, ◌==◌, if◌then◌else◌,
}
use fideslib.Prelude.Int.{ℤ, pos, negsuc, sub_ℕ}
use fideslib.Ckks.Result.{
  Result, ok, err, ◌>>=◌, ◌>>◌, guard, missing_key, out_of_range, out_of_fuel,
}
use fideslib.Keys.Cache.{
  Key, KeySet, contains, erase, find, offload_key, ensure_resident, register_key,
  reset_cache_bookkeeping, enforce_budget, add64,
}

pub record Store : Type 0 where
  pub keys : List (ℕ × KeySet)
  pub rotation_key_cache_bytes : ℕ
  pub rotation_key_eviction_hold : ℕ
  pub half : ℕ
  pub debug : Bool

-- KeyPrecomputations{}
abbrev pub no_keys : KeySet
no_keys = record { rot_keys = []; resident_bytes = 0; lru_order = []; pinned = [] }

unfoldable pub lookup : ℕ → List (ℕ × KeySet) → Option KeySet
lookup tag [] = none
lookup tag ((t, ks) ∷ rest) = if tag == t then some ks else lookup tag rest

unfoldable pub replace : ℕ → KeySet → List (ℕ × KeySet) → List (ℕ × KeySet)
replace tag ks [] = (tag, ks) ∷ []
replace tag ks ((t, old) ∷ rest) =
    if tag == t then (t, ks) ∷ rest else (t, old) ∷ replace tag ks rest

-- precom.keys.at(keyID), which throws
unfoldable pub at_tag : ℕ → Store → Result KeySet
at_tag tag st = elim (lookup tag st.keys) [ some ks ↦ ok ks | none ↦ err out_of_range ]

-- precom.keys.at(keyID), after an entry without keys where there is none
unfoldable pub keys_or_none : ℕ → Store → KeySet
keys_or_none tag st = elim (lookup tag st.keys) [ some ks ↦ ks | none ↦ no_keys ]

unfoldable pub has_key : ℕ → KeySet → Bool
has_key i ks = elim (find i ks.rot_keys) [ some k ↦ true | none ↦ false ]

enforce_all : ℕ → List (ℕ × KeySet) → Result (List (ℕ × KeySet))
enforce_all bytes [] = ok []
enforce_all bytes ((t, ks) ∷ rest) = do
  ks ← enforce_budget bytes ks
  rest ← enforce_all bytes rest
  ok ((t, ks) ∷ rest)

unfoldable pub set_rotation_key_cache : ℕ → Store → Result Store
unfolding enforce_all
set_rotation_key_cache bytes st = do
  keys ← enforce_all bytes st.keys
  ok (record st { keys = keys; rotation_key_cache_bytes = bytes })

-- The loop over rot_keys: an empty list of indexes stands for all of them.
offload_listed : List ℕ → List (ℕ × Key) → KeySet → KeySet
offload_listed indexes [] ks = ks
offload_listed [] ((i, k) ∷ rest) ks = offload_listed [] rest (offload_key i ks)
offload_listed (x ∷ xs) ((i, k) ∷ rest) ks =
    offload_listed (x ∷ xs) rest (if contains i (x ∷ xs) then offload_key i ks else ks)

-- Is this the tag asked for? The empty tag asks for every one.
abbrev pub selected : ℕ → ℕ → Bool
selected tag t = tag == 0 || t == tag

unfoldable pub offload_rotation_keys : List ℕ → ℕ → Store → Store
unfolding offload_listed
offload_rotation_keys indexes tag st = record st {
  keys =
      map
        (λ (entry : ℕ × KeySet).
          if selected tag entry.0
          then (entry.0, offload_listed indexes entry.1.rot_keys entry.1)
          else entry)
        st.keys;
}

unfoldable pub pin_key : ℕ → Bool → KeySet → KeySet
pin_key i pin ks =
    if not (has_key i ks)
    then ks
    else if pin
    then (if contains i ks.pinned then ks else record ks { pinned = i ∷ ks.pinned })
    else record ks { pinned = erase i ks.pinned }

unfoldable pub pin_rotation_key : ℕ → Bool → ℕ → Store → Store
pin_rotation_key i pin tag st = record st {
  keys =
      map
        (λ (entry : ℕ × KeySet).
          if selected tag entry.0 then (entry.0, pin_key i pin entry.1) else entry)
        st.keys;
}

-- The first selected tag that has the key answers.
unfoldable pub is_rotation_key_resident : ℕ → ℕ → List (ℕ × KeySet) → Bool
is_rotation_key_resident i tag [] = false
is_rotation_key_resident i tag ((t, ks) ∷ rest) =
    if selected tag t
    then elim (find i ks.rot_keys) [
      | some k ↦ k.resident
      | none ↦ is_rotation_key_resident i tag rest
    ]
    else is_rotation_key_resident i tag rest

unfoldable pub rotation_key_cache_resident_bytes : List (ℕ × KeySet) → ℕ
rotation_key_cache_resident_bytes [] = 0
rotation_key_cache_resident_bytes ((t, ks) ∷ rest) =
    add64 ks.resident_bytes (rotation_key_cache_resident_bytes rest)

-- precom.keys.at(keyID).ensureResident(index, budget, hold == 0)
unfoldable pub fetch : ℕ → ℕ → Store → Result Store
fetch i tag st = do
  ks ← at_tag tag st
  ks ←
      ensure_resident st.debug i st.rotation_key_cache_bytes (st.rotation_key_eviction_hold == 0) ks
  ok (record st { keys = replace tag ks st.keys })

-- GetRotationKey(index, keyID)
unfoldable pub get_rotation_key : ℕ → ℕ → Store → Result Store
get_rotation_key i tag st = do ks ← at_tag tag st; guard (has_key i ks) missing_key; fetch i tag st

-- index % (N / 2), made non-negative
unfoldable pub reduced : ℕ → ℤ → ℕ
reduced half (pos n) = n % half
reduced half (negsuc n) = let r = suc n % half in if r == 0 then 0 else half - r

-- The loop over i: `n` values from i on.
unfoldable pub alternative : ℕ → ℕ → ℕ → ℕ → ℕ → KeySet → Option ℕ
alternative zero i index slots half ks = none
alternative (suc n) i index slots half ks =
    let next = (index + i * slots) % half in
    if has_key next ks then some next else alternative n (suc i) index slots half ks

-- The index that serves a rotation; `none` for slots == -1. A division by 0 slots is out of range.
unfoldable pub actual_index : ℤ → Option ℕ → ℕ → KeySet → Result ℕ
actual_index index slots half ks =
    let i = reduced half index in
    if has_key i ks then ok i else elim slots [
      | none ↦ err missing_key
      | some s ↦
          if s == half
          then err missing_key
          else guard (ltb 0 s) out_of_range >> elim (alternative (half / s - 1) 1 i s half ks) [
            | some j ↦ ok j
            | none ↦ err missing_key
          ]
    ]

-- 2 * N - 1, the index of the conjugation
abbrev pub is_conjugate : ℕ → ℤ → Bool
is_conjugate half (pos n) = n == 4 * half - 1
is_conjugate half (negsuc n) = false

-- GetRotationKey(index, keyID, slots, actual_index)
unfoldable pub get_rotation_key_slots : ℤ → ℕ → Option ℕ → Store → Result (ℕ × Store)
get_rotation_key_slots index tag slots st = do
  ks ← at_tag tag st
  i ←
      if is_conjugate st.half index
      then ok (4 * st.half - 1)
      else actual_index index slots st.half ks
  st ← fetch i tag st
  ok (i, st)

-- while (index < 0) index += N / 2, with fuel
unfoldable pub raised : ℕ → ℕ → ℤ → Result ℕ
raised fuel half (pos n) = ok n
raised zero half (negsuc n) = err out_of_fuel
raised (suc fuel) half (negsuc n) = raised fuel half (sub_ℕ half (suc n))

-- One round for each unit below 0
unfoldable pub raised_index : ℕ → ℤ → Result ℕ
raised_index half (pos n) = ok n
raised_index half (negsuc n) = raised (suc n) half (negsuc n)

-- `emplace` keeps a key that is there already; registerKey accounts for the one that is there.
unfoldable pub emplace : ℕ → Key → KeySet → KeySet
emplace i k ks = elim (find i ks.rot_keys) [
  | some old ↦ register_key old ks
  | none ↦ register_key k (record ks { rot_keys = (i, k) ∷ ks.rot_keys })
]

unfoldable pub add_rotation_key : ℤ → ℕ → Key → Store → Result Store
add_rotation_key index tag k st = do
  i ← raised_index st.half index
  let ks = keys_or_none tag st
  ok (record st { keys = replace tag (emplace i k ks) st.keys })

-- An unknown tag is entered without keys.
unfoldable pub has_rotation_key : ℤ → ℕ → Store → Result (Bool × Store)
has_rotation_key index tag st = do
  i ← raised_index st.half index
  let ks = keys_or_none tag st
  ok (has_key i ks, record st { keys = replace tag ks st.keys })

unfoldable pub clear_automorphism_keys : ℕ → Store → Store
clear_automorphism_keys tag st = record st {
  keys =
      map
        (λ (entry : ℕ × KeySet).
          if selected tag entry.0
          then (entry.0, reset_cache_bookkeeping (record (entry.1) { rot_keys = [] }))
          else entry)
        st.keys;
}
