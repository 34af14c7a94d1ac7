-- ===== src/Keys/Store/Register.antt =====
-- AddRotationKey: what a registered key does to the bookkeeping.
use fideslib.Prelude.{
  ℕ, ◌+◌, ◌%◌, ◌^◌, ◌≤◌, ◌<◌, ◌≡◌, refl, sym, ap, subst, ◌∙◌, inl, inr, true, false, none, some,
  List, [], ◌∷◌, ◌==◌, if◌then◌else◌, Bool-cases, arith,
}
use native.Mathlib.Nat.{mod-eq_of_lt}
use fideslib.Keys.Cache.{Key, KeySet, add64, find, register_key}
use fideslib.Keys.Bookkeeping.{IsConsistent, resident_sum, total, count, is_resident, sum_le_total}
use fideslib.Keys.Store.{emplace}

absent : (i : ℕ) (keys : List (ℕ × Key)) → find i keys ≡ none → is_resident i keys ≡ false
unfolding find is_resident
absent i [] h = refl
absent i ((j, k) ∷ rest) h = elim (Bool-cases (i == j)) [
  | inl hit ↦ let e : find i ((j, k) ∷ rest) ≡ some k = rw (find, hit) in ground (arith, e, h)
  | inr miss ↦
      let e : find i ((j, k) ∷ rest) ≡ find i rest = rw (find, miss) in
      rw miss (absent i rest (sym e ∙ h))
]

-- The ordering survives a new entry for an index that had none.
ordered_lem :
    (i j : ℕ) (k : Key) (keys : List (ℕ × Key)) (order : List ℕ)
    → is_resident i keys ≡ false
    → count j order ≤ (if is_resident j keys then 1 else 0)
    → count j order ≤ (if is_resident j ((i, k) ∷ keys) then 1 else 0)
unfolding is_resident
ordered_lem i j k keys order h o = elim (Bool-cases (j == i)) [
  | inl hit ↦
      let same : j ≡ i = ground (arith, hit) in
      let off : is_resident j keys ≡ false = rw same h in ground (arith, off, o)
  | inr miss ↦ rw miss o
]

module _ (i : ℕ) (k : Key) (ks : KeySet) (w : IsConsistent ks) where
  -- AddRotationKey on one key set, for an index that has no key yet and a key whose bytes fit a
  -- size_t together with those of all other keys, keeps the bookkeeping consistent, whether the key
  -- is on a device or not.
  pub emplace-IsConsistent :
      find i ks.rot_keys ≡ none
      → k.limb_bytes + total ks.rot_keys < 2 ^ 64
      → IsConsistent (emplace i k ks)
  unfolding emplace register_key total resident_sum
  emplace-IsConsistent h f =
      let c = w.counted in
      let le = sum_le_total ks.rot_keys in
      elim (Bool-cases k.resident) [
        | inl on ↦
            let e : emplace i k ks ≡ (record ks {
              rot_keys = (i, k) ∷ ks.rot_keys;
              resident_bytes = add64 ks.resident_bytes k.limb_bytes;
            }) =
              rw (emplace, h, on) in
            subst IsConsistent (sym e) (record {
              counted = ground (arith, c, le, f, on);
              fits = f;
              ordered = λ j.
                  ordered_lem i j k ks.rot_keys ks.lru_order (absent i ks.rot_keys h) (w.ordered j);
            })
        | inr off ↦
            let e : emplace i k ks ≡ (record ks { rot_keys = (i, k) ∷ ks.rot_keys }) =
              rw (emplace, h, off) in
            subst IsConsistent (sym e) (record {
              counted = ground (arith, c, off);
              fits = f;
              ordered = λ j.
                  ordered_lem i j k ks.rot_keys ks.lru_order (absent i ks.rot_keys h) (w.ordered j);
            })
      ]

  -- AddRotationKey on one key set whose bookkeeping is consistent, for an index that has a resident
  -- key, where that key's bytes and those of all resident keys fit a size_t together, counts the
  -- key's bytes a second time: resident_bytes is then the sum over the resident keys and those bytes.
  pub emplace-counts_twice :
      (old : Key)
      → find i ks.rot_keys ≡ some old
      → old.resident ≡ true
      → resident_sum ks.rot_keys + old.limb_bytes < 2 ^ 64
      → (emplace i k ks).resident_bytes ≡ resident_sum (emplace i k ks).rot_keys + old.limb_bytes
  unfolding emplace register_key
  emplace-counts_twice old h r f =
      rw (emplace, h, r) (ap (λ (x : ℕ). (x + old.limb_bytes) % 2 ^ 64) w.counted ∙ mod-eq_of_lt f)
