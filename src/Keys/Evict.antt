-- ===== src/Keys/Evict.antt =====
-- KeyPrecomputations::evictToFit: when its loop ends, what it leaves, and when it does not end.
use fideslib.Prelude.{
  ℕ, zero, suc, ◌≤◌, ◌<◌, ◌≡◌, refl, sym, ap, subst, ◌∙◌, ◌⊎◌, inl, inr, Bool, true, false, ◌&&◌,
  some, none, List, [], ◌∷◌, ltb, ◌==◌, if◌then◌else◌, length, arith, Bool-cases, Option-cases,
  some-injective,
}
use fideslib.Ckks.Result.{ok, err, out_of_fuel}
use fideslib.Keys.Cache.{
  Key, KeySet, add64, contains, erase, find, update, key_offload, offload_key, victim, evict_loop,
  evict_to_fit,
}
use fideslib.Keys.Bookkeeping.{
  IsConsistent, count, find_here, find_there, is_resident, offload_key-IsConsistent, without,
  count-erase,
}

-- Has the key a host snapshot?
unfoldable pub has_copy : ℕ → List (ℕ × Key) → Bool
has_copy i [] = false
has_copy i ((j, k) ∷ rest) = if i == j then k.has_snapshot else has_copy i rest

-- The loop ended: within the budget, or with nothing to evict.
pub record IsEvicted (budget incoming : ℕ) (ks : KeySet) : Type 0 where
  pub consistent : IsConsistent ks
  pub within : (add64 ks.resident_bytes incoming ≤ budget) ⊎ (victim ks.pinned ks.lru_order ≡ none)

-- The victim is in the order and not pinned.
victim-Mem :
    (i : ℕ) (pinned xs : List ℕ)
    → victim pinned xs ≡ some i
    → (1 ≤ count i xs) × (contains i pinned ≡ false)
unfolding victim count
victim-Mem i pinned [] h = ground arith
victim-Mem i pinned (x ∷ xs) h = elim (Option-cases (victim pinned xs)) [
  | inl rest ↦ elim (Bool-cases (contains x pinned)) [
    | inl kept ↦
        let e : victim pinned (x ∷ xs) ≡ none = rw (victim, rest, kept) in ground (arith, e, h)
    | inr free ↦
        let e : victim pinned (x ∷ xs) ≡ some x = rw (victim, rest, free) in
        let same : x ≡ i = some-injective x i (sym e ∙ h) in
        subst (λ (y : ℕ). (1 ≤ count y (x ∷ xs)) × (contains y pinned ≡ false)) same
          (ground arith, free)
  ]
  | inr (j, rest) ↦
      let ih = victim-Mem j pinned xs rest in
      let e : victim pinned (x ∷ xs) ≡ some j = rw (victim, rest) in
      let same : j ≡ i = some-injective j i (sym e ∙ h) in
      subst (λ (y : ℕ). (1 ≤ count y (x ∷ xs)) × (contains y pinned ≡ false)) same
        (ground (arith, ih.0), ih.1)
]

length-erase : (i : ℕ) (xs : List ℕ) → 1 ≤ count i xs → suc (length (erase i xs)) ≡ length xs
unfolding erase count
length-erase i [] h = ground arith
length-erase i (x ∷ xs) h = elim (Bool-cases (i == x)) [
  | inl hit ↦ rw hit
  | inr miss ↦ let c : 1 ≤ count i xs = ground arith in rw miss (ap suc (length-erase i xs c))
]

count-find :
    (i : ℕ) (keys : List (ℕ × Key)) (k : Key)
    → find i keys ≡ some k
    → (is_resident i keys ≡ k.resident) × (has_copy i keys ≡ k.has_snapshot)
unfolding find is_resident has_copy
count-find i [] k h = ground arith
count-find i ((j, c) ∷ rest) k h = elim (Bool-cases (i == j)) [
  | inl hit ↦ let e : c ≡ k = find_here i j c k rest hit h in rw (hit, e) (refl, refl)
  | inr miss ↦ rw miss (count-find i rest k (find_there i j c k rest miss h))
]

resident_found :
    (i : ℕ) (keys : List (ℕ × Key)) → is_resident i keys ≡ true → (k : Key) × (find i keys ≡ some k)
unfolding find is_resident
resident_found i [] h = ground arith
resident_found i ((j, c) ∷ rest) h = elim (Bool-cases (i == j)) [
  | inl hit ↦ (c, rw hit)
  | inr miss ↦
      let r : is_resident i rest ≡ true =
        subst (λ (b : Bool). (if b then c.resident else is_resident i rest) ≡ true) miss h in
      let f = resident_found i rest r in (f.0, rw miss f.1)
]

has_copy-update :
    (i j : ℕ) (keys : List (ℕ × Key)) → has_copy j (update i key_offload keys) ≡ has_copy j keys
unfolding has_copy update key_offload
has_copy-update i j [] = refl
has_copy-update i j ((x, c) ∷ rest) = let ih = has_copy-update i j rest in ground (arith, ih)

-- Every key in lru_order that is not pinned has a host snapshot.
abbrev pub IsOffloadable : KeySet → Type 0
IsOffloadable ks =
    (i : ℕ)
    → 1 ≤ count i ks.lru_order
    → contains i ks.pinned ≡ false
    → has_copy i ks.rot_keys ≡ true

-- A round with a victim takes it out of the order.
round_lem :
    (i : ℕ) (ks : KeySet)
    → IsConsistent ks
    → IsOffloadable ks
    → victim ks.pinned ks.lru_order ≡ some i
    → (suc (length (offload_key i ks).lru_order) ≡ length ks.lru_order)
      × IsOffloadable (offload_key i ks)
unfolding offload_key
round_lem i ks w o v =
    let m = victim-Mem i ks.pinned ks.lru_order v in
    let ord = w.ordered i in
    let r : is_resident i ks.rot_keys ≡ true = ground (arith, ord, m.0) in
    let f = resident_found i ks.rot_keys r in
    let c = count-find i ks.rot_keys f.0 f.1 in
    let here : f.0.resident ≡ true = sym c.0 ∙ r in
    let copy : f.0.has_snapshot ≡ true = sym c.1 ∙ o i m.0 m.1 in
    let off : offload_key i ks ≡ without i f.0 ks = rw (offload_key, f.1, here, copy) in
    subst (λ (x : KeySet). (suc (length x.lru_order) ≡ length ks.lru_order) × IsOffloadable x)
      (sym off)
      (
        length-erase i ks.lru_order m.0,
        λ j member free.
            let e = count-erase i j ks.lru_order in
            let b : 1 ≤ count j ks.lru_order = ground (arith, e, member) in
            has_copy-update i j ks.rot_keys ∙ o j b free,
      )

evict_lem :
    (fuel budget incoming : ℕ) (ks : KeySet)
    → length ks.lru_order < fuel
    → IsConsistent ks
    → IsOffloadable ks
    → (r : KeySet) × (evict_loop fuel budget incoming ks ≡ ok r) × IsEvicted budget incoming r
unfolding evict_loop
evict_lem zero budget incoming ks h w o = ground arith
evict_lem (suc fuel) budget incoming ks h w o =
    elim (Bool-cases (ltb budget (add64 ks.resident_bytes incoming))) [
      | inr under ↦ (ks, rw under, record { consistent = w; within = inl (ground (arith, under)) })
      | inl over ↦ elim (Option-cases (victim ks.pinned ks.lru_order)) [
        | inl none_left ↦ (
          ks,
          rw (evict_loop, over, none_left),
          record { consistent = w; within = inr none_left },
        )
        | inr (i, v) ↦
            let step = round_lem i ks w o v in
            let rest =
              evict_lem fuel budget incoming (offload_key i ks) (omega (arith, step.0, h))
                (offload_key-IsConsistent ks w i) step.1 in
            (rest.0, rw (evict_loop, over, v) rest.1, rest.2)
      ]
    ]

-- evictToFit on a key set whose bookkeeping is consistent and in whose order every key that is not
-- pinned has a host snapshot: the loop ends, after at most one round for each key in the order. It
-- leaves a consistent key set in which the resident bytes and the incoming ones are within the
-- budget, or no key of the order is left that is not pinned.
pub evict_to_fit-ends :
    (budget incoming : ℕ) (ks : KeySet)
    → IsConsistent ks
    → IsOffloadable ks
    → (r : KeySet) × (evict_to_fit budget incoming ks ≡ ok r) × IsEvicted budget incoming r
unfolding evict_to_fit
evict_to_fit-ends budget incoming ks w o =
    evict_lem (suc (length ks.lru_order)) budget incoming ks (omega arith) w o

-- evictToFit does not end when resident_bytes and the incoming bytes exceed the budget and the
-- least recently used key that is not pinned has no host snapshot: whatever number of rounds the
-- loop is given, it has not ended after them.
pub evict_loop-stuck :
    (fuel budget incoming i : ℕ) (k : Key) (ks : KeySet)
    → budget < add64 ks.resident_bytes incoming
    → victim ks.pinned ks.lru_order ≡ some i
    → find i ks.rot_keys ≡ some k
    → k.has_snapshot ≡ false
    → evict_loop fuel budget incoming ks ≡ err out_of_fuel
unfolding evict_loop offload_key
evict_loop-stuck zero budget incoming i k ks over v f c = refl
evict_loop-stuck (suc fuel) budget incoming i k ks over v f c =
    let over2 : ltb budget (add64 ks.resident_bytes incoming) ≡ true = ground (arith, over) in
    let copy : (k.resident && k.has_snapshot) ≡ false = ground (arith, c) in
    let same : offload_key i ks ≡ ks = rw (offload_key, f, copy) in
    rw (evict_loop, over2, v, same) (evict_loop-stuck fuel budget incoming i k ks over v f c)
