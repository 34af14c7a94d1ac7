-- ===== src/Rotations/Accumulate/Sum.antt =====
-- Sums of rotations, and the inner loops of src/CKKS/AccumulateBroadcast.cu.
use fideslib.Prelude.{
  ℕ, zero, suc, ◌+◌, ◌*◌, ◌≤◌, ◌<◌, ◌≡◌, ◌⊎◌, ap, refl, inl, inr, Bool, true, false, ◌&&◌, List, [],
  ◌∷◌, ◌++◌, ltb, map, arith,
}
use native.Mathlib.Nat.{mul_assoc}
use fideslib.Prelude.Int.{pos, ◌+ℤ◌}
use fideslib.Ckks.Result.{ok}
use fideslib.Rotations.Evaluator.{Evaluator, rotate_hoisted, all_served, hoisted-served}
use fideslib.Rotations.Accumulate.{strides, add_all}

-- `n` multiples of w, from j * w on
unfoldable pub multiples : (n j w : ℕ) → List ℕ
multiples zero j w = []
multiples (suc n) j w = (j * w) ∷ multiples n (suc j) w

pub strides_lem :
    (fuel n j w x y m : ℕ)
    → 0 < w
    → j + n ≡ m
    → m ≤ x
    → m ≤ y
    → (m ≡ x) ⊎ (m ≡ y)
    → n < fuel
    → strides fuel (j * w) w (x * w) (y * w) ≡ ok (multiples n j w)
unfolding strides multiples
strides_lem zero n j w x y m p e hx hy d h = absurd (omega arith)
strides_lem (suc fuel) zero j w x y m p e hx hy d h =
    let stop : (ltb (j * w) (x * w) && ltb (j * w) (y * w)) ≡ false = ends d in ground (arith, stop)
  where
    ends : (m ≡ x) ⊎ (m ≡ y) → (ltb (j * w) (x * w) && ltb (j * w) (y * w)) ≡ false
    ends (inl q) = let s : j ≡ x = omega arith in rw s (ground arith)
    ends (inr q) = let s : j ≡ y = omega arith in rw s (ground arith)
strides_lem (suc fuel) (suc n) j w x y m p e hx hy d h =
    let a : j * w < x * w = grind (arith) in
    let b : j * w < y * w = grind (arith) in
    let next : j * w + w ≡ suc j * w = omega arith in
    let ih = strides_lem fuel n (suc j) w x y m p (omega arith) hx hy d (omega arith) in
    let go : strides fuel (j * w + w) w (x * w) (y * w) ≡ ok (multiples n (suc j) w) = rw next ih in
    ground (arith, a, b, go)

module _ (e : Evaluator) where
  open e use {Ct, add, rotate, add_assoc, rotate-add, rotate-rotate}

  -- The sum of the rotations by 0, u, ..., n * u
  unfoldable pub rot_sum : ℕ → ℕ → Ct → Ct
  rot_sum zero u c = c
  rot_sum (suc n) u c = add (rot_sum n u c) (rotate (pos (suc n * u)) c)

  pos_add : (a b : ℕ) → pos a +ℤ pos b ≡ pos (a + b)
  unfolding ◌+ℤ◌
  pos_add a b = ground arith

  rot_sum-add :
      (k m u : ℕ) (c : Ct)
      → add (rot_sum k u c) (rotate (pos (suc k * u)) (rot_sum m u c)) ≡ rot_sum (k + suc m) u c
  unfolding rot_sum
  rot_sum-add k zero u c = let s : k + 1 ≡ suc k = omega arith in rw s
  rot_sum-add k (suc m) u c =
      let s : k + suc (suc m) ≡ suc (k + suc m) = omega arith in
      let at : suc k * u + suc m * u ≡ suc (k + suc m) * u = omega arith in
      rw (s, rotate-add, rotate-rotate, pos_add, at, ← add_assoc, rot_sum-add k m u c)

  pub fold_lem :
      (n j k t u : ℕ) (c : Ct)
      → suc k ≡ j * suc t
      → add_all e
          (rot_sum k u c)
          (map (λ (i : ℕ). rotate (pos i) (rot_sum t u c)) (multiples n j (suc t * u)))
        ≡ rot_sum (k + n * suc t) u c
  unfolding add_all multiples
  fold_lem zero j k t u c h =
      let s : k ≡ k + 0 * suc t = omega arith in ap (λ (x : ℕ). rot_sum x u c) s
  fold_lem (suc n) j k t u c h =
      let at : j * (suc t * u) ≡ suc k * u =
        omega (arith, mul_assoc j (suc t) u, ap (λ (x : ℕ). x * u) h) in
      let more : k + suc n * suc t ≡ (k + suc t) + n * suc t = omega arith in
      rw (at, rot_sum-add k t u c, more) (fold_lem n (suc j) (k + suc t) t u c (omega arith))

module _ (e : Evaluator) (key : ℕ → Bool) where
  open e use {Ct, rotate}

  pub hoisted_lem :
      (is : List ℕ) (c : Ct)
      → all_served e key (map pos is) ≡ true
      → rotate_hoisted e key (map pos is) c ≡ ok (map (λ (i : ℕ). rotate (pos i) c) is)
  unfolding all_served rotate_hoisted
  hoisted_lem [] c h = refl
  hoisted_lem (i ∷ is) c h = ground (arith, hoisted-served e key (pos i) c, hoisted_lem is c)

  pub all_served-append :
      (is js : List ℕ)
      → all_served e key (map pos (is ++ js)) ≡ true
      → (all_served e key (map pos is) ≡ true) × (all_served e key (map pos js) ≡ true)
  unfolding all_served
  all_served-append [] js h = (refl, h)
  all_served-append (i ∷ is) js h = ground (arith, all_served-append is js)
