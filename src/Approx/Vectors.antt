-- ===== src/Approx/Vectors.antt =====
-- Vectors of coefficients: resize and writes, and what they do to the value of a series.
use fideslib.Prelude.{
  ℕ, zero, suc, ◌+◌, ◌≤◌, ◌<◌, ◌≡◌, refl, sym, ap, ◌∙◌, false, List, [], ◌∷◌, ltb, ◌==◌,
  if◌then◌else◌, length, arith,
}
use fideslib.Approx.Arithmetic.{Arithmetic, add_left_comm, add-mul, zero-mul}

module _ (r : Arithmetic) where
  open r use {R, add, mul, add_assoc, add_comm, add-zero}

  -- The coefficient at i, zero beyond the end
  unfoldable pub at : List R → ℕ → R
  at [] i = r.zero
  at (c ∷ cs) zero = c
  at (c ∷ cs) (suc i) = at cs i

  -- vector::resize, with zeros
  unfoldable pub resize : ℕ → List R → List R
  resize zero f = []
  resize (suc n) [] = r.zero ∷ resize n []
  resize (suc n) (c ∷ cs) = c ∷ resize n cs

  -- f[i] = g(f[i])
  unfoldable pub modify : ℕ → (R → R) → List R → List R
  modify i g [] = []
  modify zero g (c ∷ cs) = g c ∷ cs
  modify (suc i) g (c ∷ cs) = c ∷ modify i g cs

  -- A vector of n zeros with a one behind them
  unfoldable pub unit_at : ℕ → List R
  unit_at zero = r.one ∷ []
  unit_at (suc n) = r.zero ∷ unit_at n

  pub length-resize : (n : ℕ) (f : List R) → length (resize n f) ≡ n
  unfolding resize
  length-resize zero f = refl
  length-resize (suc n) [] = ap suc (length-resize n [])
  length-resize (suc n) (c ∷ cs) = ap suc (length-resize n cs)

  pub length-modify : (i : ℕ) (g : R → R) (f : List R) → length (modify i g f) ≡ length f
  unfolding modify
  length-modify i g [] = refl
  length-modify zero g (c ∷ cs) = refl
  length-modify (suc i) g (c ∷ cs) = ap suc (length-modify i g cs)

  pub at-resize : (n i : ℕ) (f : List R) → at (resize n f) i ≡ (if ltb i n then at f i else r.zero)
  unfolding at resize
  at-resize zero i f = ground arith
  at-resize (suc n) zero [] = ground arith
  at-resize (suc n) (suc i) [] = let ih = at-resize n i [] in ground (arith, ih)
  at-resize (suc n) zero (c ∷ cs) = ground arith
  at-resize (suc n) (suc i) (c ∷ cs) = let ih = at-resize n i cs in ground (arith, ih)

  pub at-modify_self :
      (i : ℕ) (g : R → R) (f : List R) → i < length f → at (modify i g f) i ≡ g (at f i)
  unfolding at modify
  at-modify_self i g [] h = ground (arith, h)
  at-modify_self zero g (c ∷ cs) h = refl
  at-modify_self (suc i) g (c ∷ cs) h = at-modify_self i g cs (omega (arith, h))

  pub at-modify_other :
      (i j : ℕ) (g : R → R) (f : List R) → (j == i) ≡ false → at (modify i g f) j ≡ at f j
  unfolding at modify
  at-modify_other i j g [] h = refl
  at-modify_other zero zero g (c ∷ cs) h = ground (arith, h)
  at-modify_other zero (suc j) g (c ∷ cs) h = refl
  at-modify_other (suc i) zero g (c ∷ cs) h = refl
  at-modify_other (suc i) (suc j) g (c ∷ cs) h = at-modify_other i j g cs (ground (arith, h))

  pub at-unit_self : (n : ℕ) → at (unit_at n) n ≡ r.one
  unfolding at unit_at
  at-unit_self zero = refl
  at-unit_self (suc n) = at-unit_self n

  pub at-unit_other : (n i : ℕ) → (i == n) ≡ false → at (unit_at n) i ≡ r.zero
  unfolding at unit_at
  at-unit_other zero zero h = ground (arith, h)
  at-unit_other zero (suc i) h = refl
  at-unit_other (suc n) zero h = refl
  at-unit_other (suc n) (suc i) h = at-unit_other n i (ground (arith, h))

  pub length-unit : (n : ℕ) → length (unit_at n) ≡ suc n
  unfolding unit_at
  length-unit zero = refl
  length-unit (suc n) = ap suc (length-unit n)

  -- The value of a series over the basis B, whose constant term is taken as `bias` says
  module _ (bias : R → R) (B : ℕ → R) where
    unfoldable pub terms : ℕ → List R → R
    terms i [] = r.zero
    terms i (c ∷ cs) = add (mul c (B i)) (terms (suc i) cs)

    unfoldable pub value : List R → R
    value [] = r.zero
    value (c ∷ cs) = add (bias c) (terms 1 cs)

    terms-zero : (i : ℕ) (f : List R) → ((j : ℕ) → at f j ≡ r.zero) → terms i f ≡ r.zero
    unfolding at terms
    terms-zero i [] h = refl
    terms-zero i (c ∷ cs) h =
        ap (λ (x : R). add (mul x (B i)) (terms (suc i) cs)) (h 0)
        ∙ ap (add (mul r.zero (B i))) (terms-zero (suc i) cs (λ j. h (suc j)))
        ∙ add-zero (mul r.zero (B i))
        ∙ zero-mul r (B i)

    at_nil : (n i : ℕ) → at (resize n []) i ≡ r.zero
    unfolding at
    at_nil n i = let e = at-resize n i [] in ground (arith, e)

    pub terms-resize :
        (n i : ℕ) (f : List R)
        → ((j : ℕ) → n ≤ j → at f j ≡ r.zero)
        → terms i (resize n f) ≡ terms i f
    unfolding at resize terms
    terms-resize zero i f h = sym (terms-zero i f (λ j. h j (omega arith)))
    terms-resize (suc n) i [] h = terms-zero i (resize (suc n) []) (at_nil (suc n))
    terms-resize (suc n) i (c ∷ cs) h =
        ap (add (mul c (B i))) (terms-resize n (suc i) cs (λ j le. h (suc j) (omega (arith, le))))

    pub value-resize :
        (n : ℕ) (f : List R)
        → bias r.zero ≡ r.zero
        → 1 ≤ n
        → ((j : ℕ) → n ≤ j → at f j ≡ r.zero)
        → value (resize n f) ≡ value f
    unfolding at resize value
    value-resize zero f b pos h = ground (arith, pos)
    value-resize (suc n) [] b pos h =
        rw (b, terms-zero 1 (resize n []) (at_nil n)) (add-zero r.zero)
    value-resize (suc n) (c ∷ cs) b pos h =
        ap (add (bias c)) (terms-resize n 1 cs (λ j le. h (suc j) (omega (arith, le))))

    terms-modify :
        (v : R) (i j : ℕ) (f : List R)
        → i < length f
        → terms j (modify i (λ c. add c v) f) ≡ add (terms j f) (mul v (B (i + j)))
    unfolding modify terms
    terms-modify v i j [] h = ground (arith, h)
    terms-modify v zero j (c ∷ cs) h =
        let e : 0 + j ≡ j = omega arith in
        rw e (simp (add-mul r, add_assoc, add_comm, add_left_comm r))
    terms-modify v (suc i) j (c ∷ cs) h =
        let e : suc i + j ≡ i + suc j = omega arith in
        rw (e, terms-modify v i (suc j) cs (omega (arith, h))) (sym (add_assoc _ _ _))

    -- Adding to a coefficient other than the constant one
    pub value-modify :
        (v : R) (i : ℕ) (f : List R)
        → i < length f
        → 1 ≤ i
        → value (modify i (λ c. add c v) f) ≡ add (value f) (mul v (B i))
    unfolding modify value
    value-modify v i [] h pos = ground (arith, h)
    value-modify v zero (c ∷ cs) h pos = ground (arith, pos)
    value-modify v (suc i) (c ∷ cs) h pos =
        let e : i + 1 ≡ suc i = omega arith in
        rw (← e) (rw (terms-modify v i 1 cs (omega (arith, h))) (sym (add_assoc _ _ _)))
