-- ===== src/Keys/Lookup.antt =====
-- KeyPrecomputations::ensureResident: the key that a lookup returns is on a device.
use fideslib.Prelude.{
  ℕ, zero, suc, ◌≤◌, ◌≡◌, refl, sym, subst, ◌∙◌, ◌⊎◌, inl, inr, Bool, true, false, some, none, List,
  [], ◌∷◌, ltb, ◌==◌, length, arith, Bool-cases, Option-cases, some-injective,
}
use fideslib.Ckks.Result.{ok, ok-injective}
use fideslib.Keys.Cache.{
  Key, KeySet, add64, find, update, touch, evict_to_fit, ensure_resident, key_reload, key_offload,
  offload_key, victim, evict_loop, erase,
}
use fideslib.Keys.Bookkeeping.{
  IsConsistent, is_resident, load-IsConsistent, touch-IsConsistent, is_resident-update,
  offload_key-cases, find_here, find_there,
}
use fideslib.Keys.Evict.{IsOffloadable, evict_to_fit-ends}

-- A lookup leaves a consistent key set in which the key is resident and most recently used.
pub record IsLoaded (i : ℕ) (ks : KeySet) : Type 0 where
  pub consistent : IsConsistent ks
  pub present : is_resident i ks.rot_keys ≡ true
  pub first : (rest : List ℕ) × (ks.lru_order ≡ i ∷ rest)

find-update_other :
    (i j : ℕ) (f : Key → Key) (keys : List (ℕ × Key))
    → (i == j) ≡ false
    → find i (update j f keys) ≡ find i keys
unfolding find update
find-update_other i j f [] h = refl
find-update_other i j f ((x, c) ∷ rest) h =
    let ih = find-update_other i j f rest h in
    elim (Bool-cases (j == x)) [
      | inl a ↦ (let n : (i == x) ≡ false = ground arith in rw (a, n))
      | inr a ↦ rw (a, ih)
    ]

is_resident-find :
    (i : ℕ) (keys : List (ℕ × Key)) (k : Key)
    → find i keys ≡ some k
    → is_resident i keys ≡ k.resident
unfolding find is_resident
is_resident-find i [] k h = ground arith
is_resident-find i ((j, c) ∷ rest) k h = elim (Bool-cases (i == j)) [
  | inl hit ↦ rw (hit, find_here i j c k rest hit h)
  | inr miss ↦ rw miss (is_resident-find i rest k (find_there i j c k rest miss h))
]

-- Eviction takes no key that was not resident.
find-offload_key :
    (i j : ℕ) (k : Key) (ks : KeySet)
    → find i ks.rot_keys ≡ some k
    → k.resident ≡ false
    → find i (offload_key j ks).rot_keys ≡ some k
find-offload_key i j k ks h r = elim (offload_key-cases j ks) [
  | inl same ↦ rw same h
  | inr (c, f, there, copy, off) ↦ elim (Bool-cases (i == j)) [
    | inl hit ↦
        let eq : i ≡ j = ground arith in
        let f2 : find i ks.rot_keys ≡ some c = rw eq f in
        let kc : k ≡ c = some-injective k c (sym h ∙ f2) in
        let on : k.resident ≡ true = rw kc there in ground (arith, on, r)
    | inr miss ↦ rw (off, find-update_other i j key_offload ks.rot_keys miss) h
  ]
]

find-evict_loop :
    (fuel budget incoming i : ℕ) (k : Key) (ks r : KeySet)
    → find i ks.rot_keys ≡ some k
    → k.resident ≡ false
    → evict_loop fuel budget incoming ks ≡ ok r
    → find i r.rot_keys ≡ some k
unfolding evict_loop
find-evict_loop zero budget incoming i k ks r h n e = ground arith
find-evict_loop (suc fuel) budget incoming i k ks r h n e =
    elim (Bool-cases (ltb budget (add64 ks.resident_bytes incoming))) [
      | inr under ↦
          let stop : evict_loop (suc fuel) budget incoming ks ≡ ok ks = rw (evict_loop, under) in
          subst (λ (x : KeySet). find i x.rot_keys ≡ some k) (ok-injective ks r (sym stop ∙ e)) h
      | inl over ↦ elim (Option-cases (victim ks.pinned ks.lru_order)) [
        | inl none_left ↦
            let stop : evict_loop (suc fuel) budget incoming ks ≡ ok ks =
              rw (evict_loop, over, none_left) in
            subst (λ (x : KeySet). find i x.rot_keys ≡ some k) (ok-injective ks r (sym stop ∙ e)) h
        | inr (j, v) ↦
            let step : evict_loop (suc fuel) budget incoming ks
                ≡ evict_loop fuel budget incoming (offload_key j ks) =
              rw (evict_loop, over, v) in
            find-evict_loop fuel budget incoming i k (offload_key j ks) r
              (find-offload_key i j k ks h n) n (sym step ∙ e)
      ]
    ]

module _ (debug : Bool) (i budget : ℕ) (k : Key) (ks : KeySet) where
  -- The state after the load, from the one that the eviction leaves
  abbrev loaded : KeySet → KeySet
  loaded e = record e {
    rot_keys = update i (λ _. record k { resident = true }) e.rot_keys;
    resident_bytes = add64 e.resident_bytes k.limb_bytes;
  }

  reload_lem :
      k.has_snapshot ≡ true
      → key_reload debug (record k { resident = false }) ≡ ok (record k { resident = true })
  unfolding key_reload
  reload_lem c = rw c

  IsLoaded-loaded :
      (e : KeySet)
      → IsConsistent e
      → find i e.rot_keys ≡ some k
      → k.resident ≡ false
      → IsLoaded i (touch i (loaded e))
  unfolding touch
  IsLoaded-loaded e w f r =
      let present : is_resident i (loaded e).rot_keys ≡ true =
        is_resident-update i i (λ _. record k { resident = true }) k e.rot_keys f ∙ ground arith in
      record {
        consistent =
            touch-IsConsistent (loaded e)
              (load-IsConsistent e w i k (record k { resident = true }) f r refl) i present;
        present = present;
        first = (erase i e.lru_order, refl);
      }

  -- KeyPrecomputations::ensureResident, allowed to evict, on a key that is not on a device and has a
  -- host snapshot, in a consistent key set in whose order every key that is not pinned has one:
  -- the call returns. The key set it leaves is consistent, and the key is resident and first in the
  -- order. The resident bytes, the key's included, are within the budget, unless no key of the
  -- order before the load is left that is not pinned.
  pub ensure_resident-loads :
      IsConsistent ks
      → IsOffloadable ks
      → find i ks.rot_keys ≡ some k
      → k.resident ≡ false
      → k.has_snapshot ≡ true
      → (r : KeySet) × (ensure_resident debug i budget true ks ≡ ok r)
        × IsLoaded i r
        × ((r.resident_bytes ≤ budget)
            ⊎ ((rest : List ℕ) × (r.lru_order ≡ i ∷ erase i rest) × (victim r.pinned rest ≡ none)))
  unfolding ensure_resident evict_to_fit touch
  ensure_resident-loads w o f r c =
      let out = evict_to_fit-ends budget k.limb_bytes ks w o in
      let e = out.0 in
      let fe = find-evict_loop (suc (length ks.lru_order)) budget k.limb_bytes i k ks e f r out.1 in
      (
        touch i (loaded e),
        rw (ensure_resident, f, r, out.1, reload_lem c),
        IsLoaded-loaded e out.2.consistent fe r,
        elim out.2.within [ inl fits ↦ inl fits | inr spent ↦ inr (e.lru_order, refl, spent) ],
      )
