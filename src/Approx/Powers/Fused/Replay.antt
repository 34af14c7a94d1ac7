-- ===== src/Approx/Powers/Fused/Replay.antt =====
-- The two passes of innerEvalPolyPSFused, with the batch between them, give the value of the
-- polynomial.
use fideslib.Prelude.{
  ℕ, zero, suc, ◌-◌, ◌*◌, ◌^◌, ◌≤◌, ◌≡◌, refl, subst, sym, ap, ◌∙◌, true, false, List, [], ◌∷◌, ltb,
  ◌==◌, if◌then◌else◌, length, arith, Bool-cases, inl, inr,
}
use mathlib.Core.List.{append-nil}
use fideslib.Ckks.Result.{Result, ok, err, openfhe_error}
use fideslib.Approx.Arithmetic.{Arithmetic}
use fideslib.Approx.Vectors.{at, modify, resize}
use fideslib.Approx.Openfhe.{Openfhe, IsExact, IsDivision, IsMonic, Dominant}
use fideslib.Approx.Split.{
  second_dividend, divisible_at, divisible_parts, add_power, quotient, corrected, shifted_rest,
}
use fideslib.Approx.Split.Values.{value-constant}
use fideslib.Approx.Step.{split_lem, beyond_leaf, length-corrected, corrected_some, step_identity}
use fideslib.Approx.Throws.{FailsBy, run-throws}
use fideslib.Approx.WeightedSum.{batched_sum, batched_sums}
use fideslib.Approx.WeightedSum.Values.{table, batched_sum-value}
use fideslib.Approx.Chebyshev.{double_at, pop}
use fideslib.Approx.Chebyshev.Inner.{pushed_lem}
use fideslib.Approx.Powers.Sums.{V}
use fideslib.Approx.Powers.Inner.{Padded, quotient-Padded, shifted_rest-Padded}
use fideslib.Approx.Powers.Fused.{
  recorded_leading, record_poly, remaining_correction, remaining_poly, two_passes,
}
use fideslib.Approx.Powers.Fused.Passes.{Passes, pair, one_sum, joined}

module _ (r : Arithmetic) where
  resize_same : (f : List r.R) → resize r (length f) f ≡ f
  unfolding resize
  resize_same [] = refl
  resize_same (c ∷ cs) = ap (λ (xs : List r.R). c ∷ xs) (resize_same cs)

  modify_same : (v : r.R) (i : ℕ) (f : List r.R) → at r f i ≡ v → modify r i (λ c. v) f ≡ f
  unfolding at modify
  modify_same v i [] h = refl
  modify_same v zero (c ∷ cs) h = ap (λ (x : r.R). x ∷ cs) (sym h)
  modify_same v (suc i) (c ∷ cs) h = ap (λ (xs : List r.R). c ∷ xs) (modify_same v i cs h)

module _ (r : Arithmetic) (lib : Openfhe r) (x : IsExact r lib) (B : ℕ → r.R) (k : ℕ) (kp : 1 ≤ k)
    (t2 : List r.R) (d : IsDivision r lib (λ c. c) B lib.long_division_poly)
    (n : IsMonic r lib lib.long_division_poly) where
  open r use {R, add, add_comm}

  abbrev divide : List R → List R → Result (List R × List R)
  divide = lib.long_division_poly

  abbrev same : R → R
  same c = c

  -- A sum of the batch
  node_sum-value :
      (f : List R)
      → 1 ≤ lib.degree f
      → length f ≤ suc k
      → batched_sum r lib (table B 1 k) f ≡ ok (V r lib x B f)
  unfolding at
  node_sum-value [] high len = let e = x.least [] 0 (λ i h. refl) in absurd (omega (arith, e, high))
  node_sum-value (c ∷ cs) high len =
      batched_sum-value r lib x same B c cs k high (omega (arith, len))

  -- The recorded weights of a terminal part are its coefficients.
  leading_lem : (f : List R) → length f ≡ suc k → at r f k ≡ r.one → add_power r lib k f ≡ f
  unfolding add_power
  leading_lem f len lead =
      ap (modify r k (λ c. r.one)) (ap (λ (l : ℕ). resize r l f) (sym len) ∙ resize_same r f)
      ∙ modify_same r r.one k f lead

  leading-Passes :
      (f : List R)
      → lib.degree f ≡ k
      → length f ≡ suc k
      → at r f k ≡ r.one
      → Passes r lib x
          (table B 1 k)
          (ok (recorded_leading r lib k f))
          (λ st. pop st)
          (V r lib x B f)
  unfolding recorded_leading
  leading-Passes f deg len lead = rw (leading_lem f len lead) (
      one_sum r lib x (table B 1 k) f (V r lib x B f)
        (node_sum-value f (omega (arith, deg, kp)) (omega (arith, len))))

  correction-Passes :
      (c : List R) (t : R)
      → 1 ≤ length c
      → length c ≤ suc k
      → Passes r lib x
          (table B 1 k)
          (ok (if lib.degree c == 0 then [] else c ∷ []))
          (λ st. remaining_correction r lib c t st)
          (add (V r lib x B c) t)
  unfolding remaining_correction batched_sums pop at
  correction-Passes [] t some short = absurd (omega (arith, some))
  correction-Passes (c ∷ cs) t some short = elim (Bool-cases (lib.degree (c ∷ cs) == 0)) [
    | inl none ↦
        let flat = value-constant r lib x same B refl c cs (ground (arith, none)) in
        record {
          constants = [];
          ws = [];
          recorded = rw none;
          batch = refl;
          replayed = λ rest.
              rw none
                (ap (λ (y : R). pair y rest) (add_comm t c ∙ ap (λ (y : R). add y t) (sym flat)));
        }
    | inr more ↦
        let sum = node_sum-value (c ∷ cs) (ground (arith, more)) short in
        record {
          constants = (c ∷ cs) ∷ [];
          ws = V r lib x B (c ∷ cs) ∷ [];
          recorded = rw more;
          batch = rw sum;
          replayed = λ rest. rw more;
        }
  ]

  -- A part of a step, a terminal one or a call
  part_recording : ℕ → List R → Result (List (List R))
  part_recording m q = elim (ltb k (lib.degree q)) [
    | true ↦ record_poly r lib k m q
    | false ↦ ok (recorded_leading r lib k q)
  ]

  part_replay : ℕ → List R → List R → Result (R × List R)
  part_replay m q st = elim (ltb k (lib.degree q)) [
    | true ↦ remaining_poly r lib k t2 m q st
    | false ↦ pop st
  ]

  -- Both passes of a call at depth m
  abbrev Replays : ℕ → List R → Type 0
  Replays m f =
      Passes r lib x (table B 1 k) (record_poly r lib k m f)
        (λ st. remaining_poly r lib k t2 m f st) (V r lib x B f)

  abbrev ReplaysPart : ℕ → List R → Type 0
  ReplaysPart m q =
      Passes r lib x (table B 1 k) (part_recording m q) (λ st. part_replay m q st) (V r lib x B q)

  step_both :
      (m : ℕ) (f : List R)
      → 1 ≤ m
      → Padded r lib x B k kp t2 d n (suc m) f
      → Dominant r lib (second_dividend r lib divide k m f)
      → double_at t2 m ≡ ok (B (k * 2 ^ m))
      → ReplaysPart m (quotient r lib divide k m f)
      → ReplaysPart m (shifted_rest r lib divide k m f)
      → Replays (suc m) f
  unfolding record_poly remaining_poly part_recording part_replay
  step_both m f mp (deg, len, lead) again power a b =
      let dom = len ∙ ap suc (sym deg) in
      let parted = split_lem r lib x same B refl divide d k m f kp mp deg dom again in
      let c = corrected r lib divide k m f in
      let short = length-corrected r lib x same B refl divide d k m f kp mp deg dom again in
      let some = corrected_some r lib x same B refl divide d k m f kp mp deg dom again in
      let cu = correction-Passes c (B (k * 2 ^ m)) some (omega (arith, short)) in
      let whole = step_identity r lib x same B refl divide d k m f kp mp deg dom again in
      rw (record_poly, remaining_poly, parted, power, ← whole) (joined r lib x (table B 1 k) a b cu)

  -- A terminal part has degree k; the calls below are given for the others.
  terminal_or_call :
      (m : ℕ) (q : List R)
      → 1 ≤ m
      → (2 ≤ m → ltb k (lib.degree q) ≡ true → Replays m q)
      → Padded r lib x B k kp t2 d n m q
      → ReplaysPart m q
  unfolding part_recording part_replay
  terminal_or_call zero q mp call (deg, len, lead) = absurd (omega (arith, mp))
  terminal_or_call (suc zero) q mp call (deg, len, lead) =
      let two : k * 2 ^ 1 - k ≡ k = omega arith in
      let small : ltb k (lib.degree q) ≡ false = ground (arith, deg, two) in
      rw (part_recording, part_replay, small)
        (leading-Passes q (deg ∙ two) (omega (arith, len, two)) (rw two at lead))
  terminal_or_call (suc (suc m)) q mp call (deg, len, lead) =
      let beyond = beyond_leaf k (suc (suc m)) kp (omega arith) in
      let large : ltb k (lib.degree q) ≡ true = ground (arith, deg, beyond) in
      rw (part_recording, part_replay, large) (call (omega arith) large)

  -- The powers of the basis that a call at depth m adds
  abbrev Powers : ℕ → Type 0
  Powers m = (i : ℕ) → 1 ≤ i → i ≤ m → double_at t2 i ≡ ok (B (k * 2 ^ i))

  both_passes :
      (m : ℕ) (f : List R)
      → 1 ≤ m
      → Powers m
      → Padded r lib x B k kp t2 d n (suc m) f
      → divisible_at r lib divide k (suc m) f ≡ true
      → Replays (suc m) f
  both_passes zero f mp powers p h = absurd (omega (arith, mp))
  both_passes (suc zero) f mp powers p h =
      let (again, hq, hs) = divisible_parts r lib divide k 1 f h in
      let pq = quotient-Padded r lib x B k kp t2 d n 1 f mp p again in
      let ps = shifted_rest-Padded r lib x B k kp t2 d n 1 f mp p again in
      step_both 1 f mp p again (powers 1 (omega arith) (omega arith))
        (terminal_or_call 1 (quotient r lib divide k 1 f) mp (λ l g. absurd (omega (arith, l))) pq)
        (terminal_or_call 1 (shifted_rest r lib divide k 1 f) mp (λ l g. absurd (omega (arith, l)))
          ps)
  both_passes (suc (suc m)) f mp powers p h =
      let n2 = suc (suc m) in
      let (again, hq, hs) = divisible_parts r lib divide k n2 f h in
      let pq = quotient-Padded r lib x B k kp t2 d n n2 f mp p again in
      let ps = shifted_rest-Padded r lib x B k kp t2 d n n2 f mp p again in
      let fewer : Powers (suc m) = λ i l b. powers i l (omega (arith, b)) in
      let call =
        λ (g : List R) (pg : Padded r lib x B k kp t2 d n n2 g)
            (hg : divisible_at r lib divide k n2 g ≡ true).
          both_passes (suc m) g (omega arith) fewer pg hg in
      step_both n2 f mp p again (powers n2 (omega arith) (omega arith))
        (terminal_or_call n2 (quotient r lib divide k n2 f) mp (λ l g. call _ pq (hq g)) pq)
        (terminal_or_call n2 (shifted_rest r lib divide k n2 f) mp (λ l g. call _ ps (hs g)) ps)

  pub two_passes-value :
      (m : ℕ) (f : List R)
      → 1 ≤ m
      → Powers m
      → Padded r lib x B k kp t2 d n (suc m) f
      → divisible_at r lib divide k (suc m) f ≡ true
      → two_passes r lib k (table B 1 k) t2 (suc m) f ≡ ok (V r lib x B f)
  unfolding two_passes
  two_passes-value m f mp powers p h =
      let s = both_passes m f mp powers p h in
      let whole =
        ap (remaining_poly r lib k t2 (suc m) f) (pushed_lem s.ws ∙ sym (append-nil s.ws))
        ∙ s.replayed [] in
      rw (s.recorded, s.batch, whole)

  -- The pass RECORD throws where a division does.
  fails_by :
      (top : ℕ)
      → Powers top
      → FailsBy r lib x same B refl divide d k kp
          (record_poly r lib k)
          top
          (Padded r lib x B k kp t2 d n)
          ReplaysPart
  unfolding record_poly part_recording
  fails_by top powers = record {
    degree = λ m f p. p.0;
    dom = λ m f p. p.1 ∙ ap suc (sym p.0);
    quotient_padded = quotient-Padded r lib x B k kp t2 d n;
    rest_padded = shifted_rest-Padded r lib x B k kp t2 d n;
    returns = λ m q mp le p fits.
        terminal_or_call m q mp
          (λ l large.
            let e : suc (m - 1) ≡ m = omega (arith, mp) in
            subst (λ j. Replays j q) e
              (both_passes (m - 1) q (omega (arith, l)) (λ i b c. powers i b (omega (arith, c, le)))
                (subst (λ j. Padded r lib x B k kp t2 d n j q) (sym e) p)
                (subst (λ j. divisible_at r lib divide k j q ≡ true) (sym e) (fits large))))
          p;
    by_split = λ m f h. rw (record_poly, h);
    by_quotient = λ m f q s c h large h2. rw (record_poly, h, large, h2);
    by_rest = λ m f q s c h part large h2.
        let first = part.recorded in rw (record_poly, h, first, large, h2);
  }

  pub two_passes-throws :
      (m : ℕ) (f : List R)
      → 1 ≤ m
      → Powers m
      → Padded r lib x B k kp t2 d n (suc m) f
      → divisible_at r lib divide k (suc m) f ≡ false
      → two_passes r lib k (table B 1 k) t2 (suc m) f ≡ err openfhe_error
  unfolding two_passes
  two_passes-throws m f mp powers p h =
      let e =
        run-throws r lib x same B refl divide d k kp (record_poly r lib k) m
          (Padded r lib x B k kp t2 d n) ReplaysPart (fails_by m powers) m f mp (omega arith) p h in
      rw e
