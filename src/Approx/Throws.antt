-- ===== src/Approx/Throws.antt =====
-- A recursion over the steps throws where a division of it does.
use fideslib.Prelude.{
  ℕ, zero, suc, ◌-◌, ◌*◌, ◌^◌, ◌≤◌, ◌<◌, ◌≡◌, ◌⊎◌, refl, Bool, true, false, not, ◌&&◌, ◌||◌, List,
  ltb, ==_iff, arith, Bool-cases, inl, inr,
}
use fideslib.Ckks.Result.{Result, ok, err, openfhe_error}
use fideslib.Approx.Arithmetic.{Arithmetic}
use fideslib.Approx.Openfhe.{Openfhe, IsExact, IsDivision, Dominant}
use fideslib.Approx.Split.{split, second_dividend, quotient, shifted_rest, dominant, divisible_at}
use fideslib.Approx.Step.{split_lem, split-throws}

-- Which part does not fit, where not both do
one_part :
    (b c d e : Bool)
    → ((not b || c) && (not d || e)) ≡ false
    → ((b ≡ true) × (c ≡ false)) ⊎ ((b ≡ true → c ≡ true) × (d ≡ true) × (e ≡ false))
one_part true false d e h = inl (refl, refl)
one_part true true true false h = inr (λ q. refl, refl, refl)
one_part true true true true h = absurd cc
one_part true true false e h = absurd cc
one_part false c true false h = inr (λ q. absurd cc, refl, refl)
one_part false c true true h = absurd cc
one_part false c false e h = absurd cc

module _ (r : Arithmetic) (lib : Openfhe r) (x : IsExact r lib) (bias : r.R → r.R) (B : ℕ → r.R)
    (bias_zero : bias r.zero ≡ r.zero) (divide : List r.R → List r.R → Result (List r.R × List r.R))
    (d : IsDivision r lib bias B divide) (k : ℕ) (kp : 1 ≤ k) {Y : Type 0}
    (run : ℕ → List r.R → Result Y) (top : ℕ) (Padded Returns : ℕ → List r.R → Type 0) where
  open r use {R}

  -- How a step of `run` fails, and what is known of the parts that it has
  pub record FailsBy : Type 0 where
    pub degree : (m : ℕ) (f : List R) → Padded m f → lib.degree f ≡ k * 2 ^ m - k
    pub dom : (m : ℕ) (f : List R) → Padded m f → Dominant r lib f
    pub quotient_padded :
        (m : ℕ) (f : List R)
        → 1 ≤ m
        → Padded (suc m) f
        → Dominant r lib (second_dividend r lib divide k m f)
        → Padded m (quotient r lib divide k m f)
    pub rest_padded :
        (m : ℕ) (f : List R)
        → 1 ≤ m
        → Padded (suc m) f
        → Dominant r lib (second_dividend r lib divide k m f)
        → Padded m (shifted_rest r lib divide k m f)
    pub returns :
        (m : ℕ) (q : List R)
        → 1 ≤ m
        → m ≤ top
        → Padded m q
        → (ltb k (lib.degree q) ≡ true → divisible_at r lib divide k m q ≡ true)
        → Returns m q
    pub by_split :
        (m : ℕ) (f : List R)
        → split r lib divide k m f ≡ err openfhe_error
        → run (suc m) f ≡ err openfhe_error
    pub by_quotient :
        (m : ℕ) (f q s c : List R)
        → split r lib divide k m f ≡ ok (q, s, c)
        → ltb k (lib.degree q) ≡ true
        → run m q ≡ err openfhe_error
        → run (suc m) f ≡ err openfhe_error
    pub by_rest :
        (m : ℕ) (f q s c : List R)
        → split r lib divide k m f ≡ ok (q, s, c)
        → Returns m q
        → ltb k (lib.degree s) ≡ true
        → run m s ≡ err openfhe_error
        → run (suc m) f ≡ err openfhe_error

  module _ (w : FailsBy) where
    small : (m : ℕ) (q : List R) → m ≡ 1 → Padded m q → ltb k (lib.degree q) ≡ true → k < k
    small m q one p large =
        let deg = w.degree m q p in
        let e : k * 2 ^ m - k ≡ k = rw one (omega arith) in ground (arith, deg, e, large)

    -- A step whose calls throw where they are not divisible
    step_throws :
        (m : ℕ) (f : List R)
        → 1 ≤ m
        → m ≤ top
        → Padded (suc m) f
        → ((g : List R)
            → Padded m g
            → ltb k (lib.degree g) ≡ true
            → divisible_at r lib divide k m g ≡ false
            → run m g ≡ err openfhe_error)
        → divisible_at r lib divide k (suc m) f ≡ false
        → run (suc m) f ≡ err openfhe_error
    unfolding divisible_at dominant
    step_throws m f mp le p call h =
        let q = quotient r lib divide k m f in
        let s = shifted_rest r lib divide k m f in
        let dom = w.dom (suc m) f p in
        elim (Bool-cases (dominant r lib divide (second_dividend r lib divide k m f))) [
          | inr lost ↦
              w.by_split m f (split-throws r lib x bias B bias_zero divide d k m f kp mp dom lost)
          | inl whole ↦
              let again = (==_iff _ _).0 whole in
              let parted =
                split_lem r lib x bias B bias_zero divide d k m f kp mp (w.degree (suc m) f p) dom
                  again in
              let pq = w.quotient_padded m f mp p again in
              let ps = w.rest_padded m f mp p again in
              elim (one_part (ltb k (lib.degree q)) (divisible_at r lib divide k m q)
                (ltb k (lib.degree s)) (divisible_at r lib divide k m s) (rw whole at h)) [
                  | inl (large, bad) ↦ w.by_quotient m f q s _ parted large (call q pq large bad)
                  | inr (fine, large, bad) ↦
                      w.by_rest m f q s _ parted (w.returns m q mp le pq fine) large
                        (call s ps large bad)
                ]
        ]

    pub run-throws :
        (m : ℕ) (f : List R)
        → 1 ≤ m
        → m ≤ top
        → Padded (suc m) f
        → divisible_at r lib divide k (suc m) f ≡ false
        → run (suc m) f ≡ err openfhe_error
    run-throws zero f mp le p h = absurd (omega (arith, mp))
    run-throws (suc zero) f mp le p h =
        step_throws 1 f mp le p
          (λ g pg large bad. let l = small 1 g refl pg large in absurd (omega (arith, l))) h
    run-throws (suc (suc m)) f mp le p h =
        step_throws (suc (suc m)) f mp le p
          (λ g pg large bad. run-throws (suc m) g (omega arith) (omega (arith, le)) pg bad) h
