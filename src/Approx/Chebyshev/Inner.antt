-- ===== src/Approx/Chebyshev/Inner.antt =====
-- innerEvalChebyshevPS: the pass FULL, and RECORD with REMAINING, give the value of the series.
use fideslib.Prelude.{
  ℕ, zero, suc, ◌-◌, ◌*◌, ◌^◌, ◌≤◌, ◌<◌, ◌≡◌, refl, sym, ap, ◌∙◌, true, false, subst, ltb, length,
  List, [], ◌∷◌, ◌++◌, arith,
}
use mathlib.Core.List.{append_assoc, append-nil, reverse, foldl, reverse-append, reverse-reverse}
use fideslib.Ckks.Result.{Result, ok, err, openfhe_error}
use fideslib.Approx.Arithmetic.{Arithmetic}
use fideslib.Approx.Openfhe.{Openfhe, IsExact, IsDivision, Dominant}
use fideslib.Approx.Split.{second_dividend, quotient, shifted_rest, divisible_at, divisible_parts}
use fideslib.Approx.Step.{
  beyond_leaf, degree-quotient, length-quotient, degree-shifted_rest, length-shifted_rest,
}
use fideslib.Approx.Throws.{FailsBy, run-throws}
use fideslib.Approx.WeightedSum.Values.{table}
use fideslib.Approx.Chebyshev.{
  half, double_at, inner_eval, inner_record, inner_remaining, pushed, two_phases,
}
use fideslib.Approx.Chebyshev.Nodes.{V, half_zero}
use fideslib.Approx.Chebyshev.Tree.{Node, Subtree, step, leaf, branch}

pushed_onto {ℓ} :
    {A : Type ℓ} (xs st : List A) → foldl (λ (ys : List A) (w : A). w ∷ ys) st xs ≡ reverse xs ++ st
pushed_onto [] st = refl
pushed_onto (x ∷ xs) st =
    pushed_onto xs (x ∷ st)
    ∙ sym (append_assoc (reverse xs) (x ∷ []) st)
    ∙ ap (λ ys. ys ++ st) (sym (reverse-append (x ∷ []) xs))

pub pushed_lem {ℓ} : {A : Type ℓ} (ws : List A) → pushed ws ≡ ws
unfolding pushed
pushed_lem ws = pushed_onto (reverse ws) [] ∙ append-nil (reverse (reverse ws)) ∙ reverse-reverse ws

module _ (r : Arithmetic) (lib : Openfhe r) (x : IsExact r lib) (B : ℕ → r.R) (k : ℕ) (kp : 1 ≤ k)
    (t2 : List r.R) (d : IsDivision r lib (half r lib) B lib.long_division_chebyshev) where
  -- The powers of the basis that a call at depth m adds
  abbrev Powers : ℕ → Type 0
  Powers m = (i : ℕ) → 1 ≤ i → i ≤ m → double_at t2 i ≡ ok (B (k * 2 ^ i))

  abbrev divide : List r.R → List r.R → Result (List r.R × List r.R)
  divide = lib.long_division_chebyshev

  -- A series of degree k * (2 ^ m - 1)
  abbrev pub Padded : ℕ → List r.R → Type 0
  Padded m f = (lib.degree f ≡ k * 2 ^ m - k) × (length f ≡ suc (k * 2 ^ m - k))

  Padded-dom : (m : ℕ) (f : List r.R) → Padded m f → Dominant r lib f
  Padded-dom m f (deg, len) = len ∙ ap suc (sym deg)

  quotient-Padded :
      (m : ℕ) (f : List r.R)
      → 1 ≤ m
      → Padded (suc m) f
      → Dominant r lib (second_dividend r lib divide k m f)
      → Padded m (quotient r lib divide k m f)
  quotient-Padded m f mp p again =
      let z = half_zero r lib x B k in
      let dom = Padded-dom (suc m) f p in
      (
        degree-quotient r lib x (half r lib) B z divide d k m f kp mp p.0 dom again,
        length-quotient r lib x (half r lib) B z divide d k m f kp mp p.0 dom again,
      )

  shifted_rest-Padded :
      (m : ℕ) (f : List r.R)
      → 1 ≤ m
      → Padded (suc m) f
      → Dominant r lib (second_dividend r lib divide k m f)
      → Padded m (shifted_rest r lib divide k m f)
  shifted_rest-Padded m f mp p again =
      let z = half_zero r lib x B k in
      let dom = Padded-dom (suc m) f p in
      (
        degree-shifted_rest r lib x (half r lib) B z divide d k m f kp mp p.0 dom again,
        length-shifted_rest r lib x (half r lib) B z divide d k m f kp mp p.0 dom again,
      )

  -- A terminal part has degree k; the calls below are given for the others.
  part :
      (m : ℕ) (q : List r.R)
      → 1 ≤ m
      → Padded m q
      → (2 ≤ m → ltb k (lib.degree q) ≡ true → Subtree r lib x B k kp t2 d (m - 1) q)
      → Node r lib x B k kp t2 d m q
  part zero q mp p call = absurd (omega (arith, mp))
  part (suc zero) q mp (deg, len) call =
      let two : k * 2 ^ 1 - k ≡ k = omega arith in
      leaf r lib x B k kp t2 d 1 q (omega (arith, deg, two, kp)) (omega (arith, deg, two))
        (omega (arith, len, two))
  part (suc (suc m)) q mp (deg, len) call =
      let beyond = beyond_leaf k (suc (suc m)) kp (omega arith) in
      let big : k < lib.degree q = omega (arith, deg, beyond) in
      let e : suc (suc m) - 1 ≡ suc m = omega arith in
      branch r lib x B k kp t2 d (suc m) q big (rw e at (call (omega arith) (ground (arith, big))))

  subtree :
      (m : ℕ) (f : List r.R)
      → 1 ≤ m
      → Powers m
      → Padded (suc m) f
      → divisible_at r lib divide k (suc m) f ≡ true
      → Subtree r lib x B k kp t2 d m f
  subtree zero f mp powers p h = absurd (omega (arith, mp))
  subtree (suc zero) f mp powers p h =
      let (again, hq, hs) = divisible_parts r lib divide k 1 f h in
      step r lib x B k kp t2 d 1 f mp p.0 (Padded-dom 2 f p) again
        (powers 1 (omega arith) (omega arith))
        (part 1 (quotient r lib divide k 1 f) mp (quotient-Padded 1 f mp p again)
          (λ l g. absurd (omega (arith, l))))
        (part 1 (shifted_rest r lib divide k 1 f) mp (shifted_rest-Padded 1 f mp p again)
          (λ l g. absurd (omega (arith, l))))
  subtree (suc (suc m)) f mp powers p h =
      let n = suc (suc m) in
      let (again, hq, hs) = divisible_parts r lib divide k n f h in
      let fewer : Powers (suc m) = λ i l b. powers i l (omega (arith, b)) in
      let pq = quotient-Padded n f mp p again in
      let ps = shifted_rest-Padded n f mp p again in
      let e : suc m ≡ n - 1 = omega arith in
      let call = λ (g : List r.R) (pg : Padded n g) (hg : divisible_at r lib divide k n g ≡ true).
        rw e at (subtree (suc m) g (omega arith) fewer pg hg) in
      step r lib x B k kp t2 d n f mp p.0 (Padded-dom (suc n) f p) again
        (powers n (omega arith) (omega arith))
        (part n (quotient r lib divide k n f) mp pq (λ l g. call _ pq (hq g)))
        (part n (shifted_rest r lib divide k n f) mp ps (λ l g. call _ ps (hs g)))

  -- innerEvalChebyshevPS in one pass
  pub inner_eval-value :
      (m : ℕ) (f : List r.R)
      → 1 ≤ m
      → Powers m
      → Padded (suc m) f
      → divisible_at r lib divide k (suc m) f ≡ true
      → inner_eval r lib k (table B 1 k) t2 (suc m) f ≡ ok (V r lib x B k f)
  inner_eval-value m f mp powers p h = let s = subtree m f mp powers p h in s.full

  -- Both passes, with the batch of the recorded nodes between them
  pub two_phases-value :
      (m : ℕ) (f : List r.R)
      → 1 ≤ m
      → Powers m
      → Padded (suc m) f
      → divisible_at r lib divide k (suc m) f ≡ true
      → two_phases r lib k (table B 1 k) t2 (suc m) f ≡ ok (V r lib x B k f)
  unfolding two_phases
  two_phases-value m f mp powers p h =
      let s = subtree m f mp powers p h in
      let whole =
        ap (inner_remaining r lib k (table B 1 k) t2 (suc m) f)
          (pushed_lem s.ws ∙ sym (append-nil s.ws))
        ∙ s.replay [] in
      rw (s.recording, s.batch, whole)

  -- The pass RECORD throws where a division does.
  fails_by :
      (top : ℕ)
      → Powers top
      → FailsBy r lib x
          (half r lib)
          B
          (half_zero r lib x B k)
          divide
          d
          k
          kp
          (inner_record r lib k (table B 1 k) t2)
          top
          Padded
          (Node r lib x B k kp t2 d)
  unfolding inner_record
  fails_by top powers = record {
    degree = λ m f p. p.0;
    dom = Padded-dom;
    quotient_padded = quotient-Padded;
    rest_padded = shifted_rest-Padded;
    returns = λ m q mp le p fits. part m q mp p (λ l large.
        let e : suc (m - 1) ≡ m = omega (arith, mp) in
        subtree (m - 1) q (omega (arith, l)) (λ i b c. powers i b (omega (arith, c, le)))
          (subst (λ n. Padded n q) (sym e) p)
          (subst (λ n. divisible_at r lib divide k n q ≡ true) (sym e) (fits large)));
    by_split = λ m f h. rw (inner_record, h);
    by_quotient = λ m f q s c h large h2. rw (inner_record, h, large, h2);
    by_rest = λ m f q s c h node large h2.
        let first = node.recording in rw (inner_record, h, first, large, h2);
  }

  -- Both passes throw with the first one.
  pub two_phases-throws :
      (m : ℕ) (f : List r.R)
      → 1 ≤ m
      → Powers m
      → Padded (suc m) f
      → divisible_at r lib divide k (suc m) f ≡ false
      → two_phases r lib k (table B 1 k) t2 (suc m) f ≡ err openfhe_error
  unfolding two_phases
  two_phases-throws m f mp powers p h =
      let e =
        run-throws r lib x (half r lib) B (half_zero r lib x B k) divide d k kp
          (inner_record r lib k (table B 1 k) t2) m Padded (Node r lib x B k kp t2 d)
          (fails_by m powers) m f mp (omega arith) p h in
      rw e
