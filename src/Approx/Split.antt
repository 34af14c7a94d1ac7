-- ===== src/Approx/Split.antt =====
-- The vectors that a step of the Paterson-Stockmeyer recursion divides and evaluates.
pub mod Values
use fideslib.Prelude.{
  ℕ, zero, suc, ◌+◌, ◌-◌, ◌*◌, ◌^◌, ◌<◌, ◌≡◌, refl, sym, ◌∙◌, List, ltb, leb, Bool, true, not, ◌&&◌,
  ◌||◌, ◌==◌, if◌then◌else◌, length, ==_iff, false, arith, Bool-cases, inl, inr,
}
use fideslib.Ckks.Result.{Result, ok, ◌>>=◌}
use fideslib.Approx.Arithmetic.{Arithmetic, sub}
use fideslib.Approx.Vectors.{
  at, resize, modify, unit_at, length-resize, length-modify, at-resize, at-modify_self,
  at-modify_other, at-unit_self, at-unit_other,
}
use fideslib.Approx.Openfhe.{Openfhe, IsExact, Dominant, divided}

and_parts :
    (a b c d e : Bool)
    → (a && ((not b || c) && (not d || e))) ≡ true
    → (a ≡ true) × (b ≡ true → c ≡ true) × (d ≡ true → e ≡ true)
and_parts true true c true e h = (refl, λ q. ground (arith, h), λ q. ground (arith, h))
and_parts true true c false e h = (refl, λ q. ground (arith, h), λ q. absurd cc)
and_parts true false c true e h = (refl, λ q. absurd cc, λ q. ground (arith, h))
and_parts true false c false e h = (refl, λ q. absurd cc, λ q. absurd cc)
and_parts false b c d e h = absurd cc

module _ (r : Arithmetic) (lib : Openfhe r) where
  open r use {R, neg}

  -- Subtract x^{k(2^{m-1} - 1)} from r
  unfoldable pub subtract_power : ℕ → List R → List R
  subtract_power kk f =
      if leb kk (lib.degree f)
      then modify r kk (λ c. sub r c r.one) (resize r (suc (lib.degree f)) f)
      else modify r kk (λ c. neg r.one) (resize r (suc kk) f)

  -- Add x^{k(2^{m-1} - 1)} to s
  unfoldable pub add_power : ℕ → List R → List R
  add_power kk f = modify r kk (λ c. r.one) (resize r (suc kk) f)

  -- The divisions of a step with m - 1 for its argument m: q, s2 and c
  unfoldable pub split :
      (List R → List R → Result (List R × List R))
      → (k m : ℕ) → List R
      → Result (List R × List R × List R)
  split divide k m f =
      let kk = k * 2 ^ m - k in
      divide f (unit_at r (kk + k)) >>= λ by_power.
      divide (subtract_power kk by_power.1) by_power.0 >>= λ by_quotient.
      ok (by_power.0, add_power kk by_quotient.1, by_quotient.0)

  -- The parts where the divisions return
  module _ (divide : List R → List R → Result (List R × List R)) where
    unfoldable pub quotient : (k m : ℕ) → List R → List R
    quotient k m f = (divided divide f (unit_at r (k * 2 ^ m - k + k))).0

    unfoldable pub second_dividend : (k m : ℕ) → List R → List R
    second_dividend k m f =
        subtract_power (k * 2 ^ m - k) (divided divide f (unit_at r (k * 2 ^ m - k + k))).1

    unfoldable pub second_division : (k m : ℕ) → List R → List R × List R
    second_division k m f = divided divide (second_dividend k m f) (quotient k m f)

    unfoldable pub corrected : (k m : ℕ) → List R → List R
    corrected k m f = (second_division k m f).0

    unfoldable pub shifted_rest : (k m : ℕ) → List R → List R
    shifted_rest k m f = add_power (k * 2 ^ m - k) (second_division k m f).1

    unfoldable pub dominant : List R → Bool
    dominant f = length f == suc (lib.degree f)

    -- No second division of the recursion has a dividend whose dominant coefficient is zero.
    unfoldable pub divisible_at : (k m : ℕ) → List R → Bool
    divisible_at k zero f = true
    divisible_at k (suc m) f =
        let q = quotient k m f in
        let s2 = shifted_rest k m f in
        dominant (second_dividend k m f)
        && ((not (ltb k (lib.degree q)) || divisible_at k m q)
            && (not (ltb k (lib.degree s2)) || divisible_at k m s2))

    -- The same of the recursion on f, which is padded, from degree 5 on
    unfoldable pub divisible : List R → Bool
    divisible f =
        let km = lib.compute_degrees_ps (lib.degree f) in
        ltb (lib.degree f) 5
        || divisible_at km.0 km.1
            (add_power (km.0 * 2 ^ km.1 - km.0) (resize r (suc (lib.degree f)) f))

    pub divisible_low : (f : List R) → ltb (lib.degree f) 5 ≡ true → divisible f ≡ true
    unfolding divisible
    divisible_low f h = rw h

    pub divisible_parts :
        (k m : ℕ) (f : List R)
        → divisible_at k (suc m) f ≡ true
        → Dominant r lib (second_dividend k m f)
          × (ltb k (lib.degree (quotient k m f)) ≡ true → divisible_at k m (quotient k m f) ≡ true)
          × (ltb k (lib.degree (shifted_rest k m f)) ≡ true
              → divisible_at k m (shifted_rest k m f) ≡ true)
    unfolding divisible_at dominant
    divisible_parts k m f h =
        let (again, large_q, large_s) =
          and_parts (dominant (second_dividend k m f)) (ltb k (lib.degree (quotient k m f)))
            (divisible_at k m (quotient k m f)) (ltb k (lib.degree (shifted_rest k m f)))
            (divisible_at k m (shifted_rest k m f)) h in
        ((==_iff _ _).0 again, large_q, large_s)

  module _ (x : IsExact r lib) where
    pub at-subtract_above :
        (kk i : ℕ) (f : List R) → kk < i → lib.degree f < i → at r (subtract_power kk f) i ≡ r.zero
    unfolding subtract_power
    at-subtract_above kk i f h d = elim (Bool-cases (leb kk (lib.degree f))) [
      | inl large ↦
          rw
            (
              large,
              at-modify_other r kk i (λ c. sub r c r.one) (resize r (suc (lib.degree f)) f)
                  (ground (arith, h)),
            )
            (let e = at-resize r (suc (lib.degree f)) i f in ground (arith, e, d))
      | inr small ↦
          rw
            (
              small,
              at-modify_other r kk i (λ c. neg r.one) (resize r (suc kk) f) (ground (arith, h)),
            )
            (let e = at-resize r (suc kk) i f in ground (arith, e, h))
    ]

    pub degree-unit : (n : ℕ) → lib.degree (unit_at r n) ≡ n
    degree-unit n =
        let le = x.least (unit_at r n) n (λ i h. at-unit_other r n i (ground (arith, h))) in
        elim (Bool-cases (ltb (lib.degree (unit_at r n)) n)) [
          | inl below ↦
              let e = x.above (unit_at r n) n (ground (arith, below)) in
              absurd (r.one-ne-zero (sym (at-unit_self r n) ∙ e))
          | inr fits ↦ ground (arith, le, fits)
        ]

    pub length-add_power : (kk : ℕ) (f : List R) → length (add_power kk f) ≡ suc kk
    unfolding add_power
    length-add_power kk f =
        length-modify r kk (λ c. r.one) (resize r (suc kk) f) ∙ length-resize r (suc kk) f

    pub at-add_power : (kk : ℕ) (f : List R) → at r (add_power kk f) kk ≡ r.one
    unfolding add_power
    at-add_power kk f =
        let len = length-resize r (suc kk) f in
        at-modify_self r kk (λ c. r.one) (resize r (suc kk) f) (omega (arith, len))

    pub degree-add_power : (kk : ℕ) (f : List R) → lib.degree (add_power kk f) ≡ kk
    unfolding add_power
    degree-add_power kk f =
        let v = resize r (suc kk) f in
        let len = length-resize r (suc kk) f in
        let top = at-modify_self r kk (λ c. r.one) v (omega (arith, len)) in
        let le = x.least (add_power kk f) kk (λ i h.
          let o = at-modify_other r kk i (λ c. r.one) v (ground (arith, h)) in
          let e = at-resize r (suc kk) i f in ground (arith, o, e, h)) in
        elim (Bool-cases (ltb (lib.degree (add_power kk f)) kk)) [
          | inl below ↦
              let e = x.above (add_power kk f) kk (ground (arith, below)) in
              absurd (r.one-ne-zero (sym top ∙ e))
          | inr fits ↦ ground (arith, le, fits)
        ]
