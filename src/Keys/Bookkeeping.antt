-- ===== src/Keys/Bookkeeping.antt =====
-- What the bookkeeping of the cache has to agree with, and that each operation keeps it so.
use fideslib.Prelude.{
  ℕ, ◌+◌, ◌-◌, ◌^◌, ◌≤◌, ◌<◌, ◌≡◌, refl, sym, ap, subst, ◌⊎◌, inl, inr, Bool, true, false, ◌&&◌,
  Option, some, none, List, [], ◌∷◌, ◌==◌, if◌then◌else◌, arith, Bool-cases, Option-cases,
}
use fideslib.Keys.Cache.{
  Key, KeySet, add64, sub64, erase, find, update, key_offload, touch, offload_key,
}

-- Bytes of the keys that are on a device, and of all keys
unfoldable pub resident_sum : List (ℕ × Key) → ℕ
resident_sum [] = 0
resident_sum ((j, k) ∷ rest) = (if k.resident then k.limb_bytes else 0) + resident_sum rest

unfoldable pub total : List (ℕ × Key) → ℕ
total [] = 0
total ((j, k) ∷ rest) = k.limb_bytes + total rest

unfoldable pub count : ℕ → List ℕ → ℕ
count i [] = 0
count i (x ∷ xs) = (if i == x then 1 else 0) + count i xs

unfoldable pub is_resident : ℕ → List (ℕ × Key) → Bool
is_resident i [] = false
is_resident i ((j, k) ∷ rest) = if i == j then k.resident else is_resident i rest

-- resident_bytes counts the resident keys, all keys together fit a size_t, and lru_order holds
-- resident keys only, each at most once.
pub record IsConsistent (ks : KeySet) : Type 0 where
  pub counted : ks.resident_bytes ≡ resident_sum ks.rot_keys
  pub fits : total ks.rot_keys < 2 ^ 64
  pub ordered : (i : ℕ) → count i ks.lru_order ≤ (if is_resident i ks.rot_keys then 1 else 0)

pub sum_le_total : (keys : List (ℕ × Key)) → resident_sum keys ≤ total keys
unfolding resident_sum total
sum_le_total [] = omega arith
sum_le_total ((j, k) ∷ rest) = let ih = sum_le_total rest in ground arith

pub count-erase :
    (i j : ℕ) (xs : List ℕ) → count j (erase i xs) ≡ (if i == j then count j xs - 1 else count j xs)
unfolding count erase
count-erase i j [] = ground arith
count-erase i j (x ∷ xs) = let ih = count-erase i j xs in ground arith

or_else : Key → Option Key → Key
or_else d none = d
or_else d (some k) = k

pub find_here :
    (i x : ℕ) (c k : Key) (rest : List (ℕ × Key))
    → (i == x) ≡ true
    → find i ((x, c) ∷ rest) ≡ some k
    → c ≡ k
unfolding find or_else
find_here i x c k rest hit h =
    ap (or_else c) (subst (λ (b : Bool). (if b then some c else find i rest) ≡ some k) hit h)

pub find_there :
    (i x : ℕ) (c k : Key) (rest : List (ℕ × Key))
    → (i == x) ≡ false
    → find i ((x, c) ∷ rest) ≡ some k
    → find i rest ≡ some k
unfolding find
find_there i x c k rest miss h =
    subst (λ (b : Bool). (if b then some c else find i rest) ≡ some k) miss h

pub is_resident-update :
    (i j : ℕ) (f : Key → Key) (k : Key) (keys : List (ℕ × Key))
    → find i keys ≡ some k
    → is_resident j (update i f keys) ≡ (if i == j then (f k).resident else is_resident j keys)
unfolding is_resident update find
is_resident-update i j f k [] h = ground arith
is_resident-update i j f k ((x, c) ∷ rest) h = elim (Bool-cases (i == x)) [
  | inl hit ↦
      let eq : c ≡ k = find_here i x c k rest hit h in
      let same : i ≡ x = ground arith in rw (hit, eq, ← same) (ground arith)
  | inr miss ↦
      let ih = is_resident-update i j f k rest (find_there i x c k rest miss h) in
      rw miss (ground (arith, ih))
]

pub resident_sum-update :
    (i : ℕ) (f : Key → Key) (k : Key) (keys : List (ℕ × Key))
    → find i keys ≡ some k
    → resident_sum (update i f keys) + (if k.resident then k.limb_bytes else 0)
      ≡ resident_sum keys + (if (f k).resident then (f k).limb_bytes else 0)
unfolding resident_sum update find
resident_sum-update i f k [] h = ground arith
resident_sum-update i f k ((x, c) ∷ rest) h = elim (Bool-cases (i == x)) [
  | inl hit ↦ let eq : c ≡ k = find_here i x c k rest hit h in rw (hit, eq) (omega arith)
  | inr miss ↦
      let ih = resident_sum-update i f k rest (find_there i x c k rest miss h) in
      rw miss (omega (arith, ih))
]

pub total-update :
    (i : ℕ) (f : Key → Key) (k : Key) (keys : List (ℕ × Key))
    → find i keys ≡ some k
    → (f k).limb_bytes ≡ k.limb_bytes
    → total (update i f keys) ≡ total keys
unfolding total update find
total-update i f k [] h e = refl
total-update i f k ((x, c) ∷ rest) h e = elim (Bool-cases (i == x)) [
  | inl hit ↦ let eq : c ≡ k = find_here i x c k rest hit h in rw (hit, eq, e)
  | inr miss ↦ let ih = total-update i f k rest (find_there i x c k rest miss h) e in rw (miss, ih)
]

-- The key set without the limbs of a key
abbrev pub without : ℕ → Key → KeySet → KeySet
without i k ks = record ks {
  rot_keys = update i key_offload ks.rot_keys;
  resident_bytes = sub64 ks.resident_bytes k.limb_bytes;
  lru_order = erase i ks.lru_order;
}

-- offloadKey either leaves everything as it is or takes one key's limbs away.
pub offload_key-cases :
    (i : ℕ) (ks : KeySet)
    → (offload_key i ks ≡ ks)
      ⊎ ((k : Key) × (find i ks.rot_keys ≡ some k)
          × (k.resident ≡ true)
          × (k.has_snapshot ≡ true)
          × (offload_key i ks ≡ without i k ks))
unfolding offload_key
offload_key-cases i ks = elim (Option-cases (find i ks.rot_keys)) [
  | inl none_there ↦ inl (rw (offload_key, none_there))
  | inr (k, there) ↦ elim (Bool-cases (k.resident && k.has_snapshot)) [
    | inl both ↦ inr (k, there, ground arith, ground arith, rw (offload_key, there, both))
    | inr either ↦ inl (rw (offload_key, there, either))
  ]
]

-- A resident key's bytes are among those counted.
counts :
    (i : ℕ) (k : Key) (keys : List (ℕ × Key))
    → find i keys ≡ some k
    → k.resident ≡ true
    → resident_sum (update i key_offload keys) + k.limb_bytes ≡ resident_sum keys
unfolding key_offload
counts i k keys h r =
    let e = resident_sum-update i key_offload k keys h in
    let t : (if k.resident then k.limb_bytes else 0) ≡ k.limb_bytes = rw r in omega (arith, e, t)

module _ (ks : KeySet) (w : IsConsistent ks) where
  without_lem :
      (i : ℕ) (k : Key)
      → find i ks.rot_keys ≡ some k
      → k.resident ≡ true
      → IsConsistent (without i k ks)
  unfolding key_offload
  without_lem i k h r =
      let s = counts i k ks.rot_keys h r in
      let b = w.counted in
      let t = total-update i key_offload k ks.rot_keys h refl in
      record {
        counted = ground (arith, s, b);
        fits = rw t w.fits;
        ordered = λ j.
            let o = w.ordered j in
            let c = count-erase i j ks.lru_order in
            let u = is_resident-update i j key_offload k ks.rot_keys h in ground (arith, o, c, u);
      }

  -- KeyPrecomputations::offloadKey keeps the bookkeeping consistent: if resident_bytes is the sum
  -- over the resident keys, all keys together fit a size_t, and lru_order holds resident keys only,
  -- each at most once, then the same is true after it.
  pub offload_key-IsConsistent : (i : ℕ) → IsConsistent (offload_key i ks)
  offload_key-IsConsistent i = elim (offload_key-cases i ks) [
    | inl same ↦ subst IsConsistent (sym same) w
    | inr (k, h, r, s, off) ↦ subst IsConsistent (sym off) (without_lem i k h r)
  ]

  -- KeyPrecomputations::touch of a resident key keeps the bookkeeping consistent.
  pub touch-IsConsistent : (i : ℕ) → is_resident i ks.rot_keys ≡ true → IsConsistent (touch i ks)
  unfolding touch count
  touch-IsConsistent i h = record {
    counted = w.counted;
    fits = w.fits;
    ordered = λ j.
        let o = w.ordered j in
        let c = count-erase i j ks.lru_order in
        elim (Bool-cases (i == j)) [
          | inl same ↦
              let eq : i ≡ j = ground arith in
              let h2 : is_resident j ks.rot_keys ≡ true = rw (← eq) h in ground (arith, o, c, h2)
          | inr other ↦ ground (arith, o, c)
        ];
  }

  -- A key that was not on a device and is loaded: it is counted, and heads lru_order.
  pub load-IsConsistent :
      (i : ℕ) (k loaded : Key)
      → find i ks.rot_keys ≡ some k
      → k.resident ≡ false
      → loaded ≡ (record k { resident = true })
      → IsConsistent (record ks {
        rot_keys = update i (λ _. loaded) ks.rot_keys;
        resident_bytes = add64 ks.resident_bytes loaded.limb_bytes;
      })
  load-IsConsistent i k loaded h r l =
      let bytes : loaded.limb_bytes ≡ k.limb_bytes = ap (λ (x : Key). x.limb_bytes) l in
      let there : loaded.resident ≡ true = ap (λ (x : Key). x.resident) l in
      let s = resident_sum-update i (λ _. loaded) k ks.rot_keys h in
      let b = w.counted in
      let t = total-update i (λ _. loaded) k ks.rot_keys h bytes in
      let f = w.fits in
      let le = sum_le_total (update i (λ _. loaded) ks.rot_keys) in
      record {
        counted =
            (let s1 : (if k.resident then k.limb_bytes else 0) ≡ 0 = rw r in
              let s2 : (if loaded.resident then loaded.limb_bytes else 0) ≡ loaded.limb_bytes =
                rw there in
              omega (arith, s, b, t, f, le, s1, s2));
        fits = rw t f;
        ordered = λ j.
            let o = w.ordered j in
            let u = is_resident-update i j (λ _. loaded) k ks.rot_keys h in
            ground (arith, o, u, there);
      }
