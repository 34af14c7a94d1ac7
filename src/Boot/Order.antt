-- ===== src/Boot/Order.antt =====
-- The candidates of evictBootstrapCache: which they are, their order, and those that the loop takes.
use fideslib.Prelude.{
  ℕ, zero, suc, ◌+◌, ◌-◌, ◌^◌, ◌≤◌, ◌<◌, ◌≡◌, refl, sym, ap, subst, ◌⊎◌, inl, inr, Bool, false, not,
  ◌&&◌, Option, List, [], ◌∷◌, ltb, ◌==◌, if◌then◌else◌, arith, Bool-cases,
}
use fideslib.Keys.Cache.{add64, sub64, contains}
use fideslib.Keys.Bookkeeping.{count}
use fideslib.Boot.{
  BootCacheBlock, field, has_snapshot, is_kept, candidates, insert_by_use, sort_by_use, taken,
}

abbrev pub use_at : ℕ → List BootCacheBlock → ℕ
use_at i bs = field 0 (λ b. b.last_use) i bs

abbrev pub bytes_at : ℕ → List BootCacheBlock → ℕ
bytes_at i bs = field 0 (λ b. b.bytes) i bs

abbrev pub resident_at : ℕ → List BootCacheBlock → Bool
resident_at i bs = field false (λ b. b.resident) i bs

-- Can the group be evicted?
abbrev pub candidate_at : Option ℕ → ℕ → List BootCacheBlock → Bool
candidate_at keep i bs =
    field false (λ b. b.resident && has_snapshot b) i bs && not (is_kept i keep)

pub contains-count : (i : ℕ) (xs : List ℕ) → contains i xs ≡ not (count i xs == 0)
unfolding contains count
contains-count i [] = ground arith
contains-count i (x ∷ xs) = let ih = contains-count i xs in ground (arith, ih)

pub count-candidates_before :
    (keep : Option ℕ) (i j : ℕ) (bs : List BootCacheBlock)
    → j < i
    → count j (candidates keep i bs) ≡ 0
unfolding count candidates
count-candidates_before keep i j [] h = refl
count-candidates_before keep i j (b ∷ bs) h =
    let ih = count-candidates_before keep (suc i) j bs (omega (arith, h)) in ground (arith, ih, h)

pub count-candidates :
    (keep : Option ℕ) (i k : ℕ) (bs : List BootCacheBlock)
    → count (i + k) (candidates keep i bs) ≡ (
        if field false (λ b. b.resident && has_snapshot b) k bs && not (is_kept (i + k) keep)
        then 1
        else 0)
unfolding count candidates field
count-candidates keep i k [] = refl
count-candidates keep i zero (b ∷ bs) =
    let rest = count-candidates_before keep (suc i) i bs (omega arith) in ground (arith, rest)
count-candidates keep i (suc k) (b ∷ bs) =
    let ih = count-candidates keep (suc i) k bs in ground (arith, ih)

module _ (bs : List BootCacheBlock) where
  count-insert :
      (i x : ℕ) (ys : List ℕ)
      → count i (insert_by_use bs x ys) ≡ (if i == x then 1 else 0) + count i ys
  unfolding count insert_by_use
  count-insert i x [] = refl
  count-insert i x (y ∷ ys) = let ih = count-insert i x ys in ground (arith, ih)

  pub count-sort : (i : ℕ) (xs : List ℕ) → count i (sort_by_use bs xs) ≡ count i xs
  unfolding count sort_by_use
  count-sort i [] = refl
  count-sort i (x ∷ xs) =
      let ih = count-sort i xs in
      let step = count-insert i x (sort_by_use bs xs) in ground (arith, ih, step)

  -- No member was used later than one before it.
  unfoldable pub IsSorted : List ℕ → Type 0
  IsSorted [] = Unit
  IsSorted (x ∷ xs) = ((j : ℕ) → 1 ≤ count j xs → use_at j bs ≤ use_at x bs) × IsSorted xs

  insert-IsSorted : (x : ℕ) (ys : List ℕ) → IsSorted ys → IsSorted (insert_by_use bs x ys)
  unfolding IsSorted insert_by_use count
  insert-IsSorted x [] w = (λ j h. ground (arith, h), tt)
  insert-IsSorted x (y ∷ ys) w = elim (Bool-cases (ltb (use_at y bs) (use_at x bs))) [
    | inl later ↦ rw later (
      λ j h. elim (Bool-cases (j == y)) [
        | inl same ↦
            let e : j ≡ y = ground (arith, same) in
            subst (λ z. use_at z bs ≤ use_at x bs) (sym e) (ground (arith, later))
        | inr differs ↦ let le = w.0 j (ground (arith, h, differs)) in ground (arith, le, later)
      ],
      w,
    )
    | inr sooner ↦ rw sooner (
      λ j h. elim (Bool-cases (j == x)) [
        | inl same ↦
            let e : j ≡ x = ground (arith, same) in
            subst (λ z. use_at z bs ≤ use_at y bs) (sym e) (ground (arith, sooner))
        | inr differs ↦ let c = count-insert j x ys in w.0 j (ground (arith, c, h, differs))
      ],
      insert-IsSorted x ys w.1,
    )
  ]

  pub sort-IsSorted : (xs : List ℕ) → IsSorted (sort_by_use bs xs)
  unfolding IsSorted sort_by_use
  sort-IsSorted [] = tt
  sort-IsSorted (x ∷ xs) = insert-IsSorted x (sort_by_use bs xs) (sort-IsSorted xs)

  unfoldable pub bytes_sum : List ℕ → ℕ
  bytes_sum [] = 0
  bytes_sum (x ∷ xs) = bytes_at x bs + bytes_sum xs

  module _ (budget incoming : ℕ) where
    pub count-taken :
        (i resident : ℕ) (cs : List ℕ) → count i (taken bs budget incoming resident cs) ≤ count i cs
    unfolding count taken
    count-taken i resident [] = omega arith
    count-taken i resident (c ∷ cs) =
        let ih = count-taken i (sub64 resident (bytes_at c bs)) cs in ground (arith, ih)

    -- The loop ends within the budget, or takes them all.
    pub taken_lem :
        (resident : ℕ) (cs : List ℕ)
        → resident + incoming < 2 ^ 64
        → bytes_sum cs ≤ resident
        → (resident - bytes_sum (taken bs budget incoming resident cs) + incoming ≤ budget)
          ⊎ (taken bs budget incoming resident cs ≡ cs)
    unfolding taken bytes_sum
    taken_lem resident [] small le = inr refl
    taken_lem resident (c ∷ cs) small le =
        elim (Bool-cases (ltb budget (add64 resident incoming))) [
          | inr under ↦ rw under (inl (ground (arith, under, small)))
          | inl over ↦
              let same : sub64 resident (bytes_at c bs) ≡ resident - bytes_at c bs =
                ground (arith, le) in
              let ih =
                taken_lem (sub64 resident (bytes_at c bs)) cs (omega (arith, same, small, le))
                  (omega (arith, same, le)) in
              rw over (elim ih [
                | inl within ↦ inl (omega (arith, within, same, le))
                | inr all ↦ inr (ap (λ (xs : List ℕ). c ∷ xs) all)
              ])
        ]

    -- What is taken was not used before what is not taken.
    pub taken-latest :
        (resident i j : ℕ) (cs : List ℕ)
        → IsSorted cs
        → 1 ≤ count i (taken bs budget incoming resident cs)
        → 1 ≤ count j cs
        → count j (taken bs budget incoming resident cs) ≡ 0
        → use_at j bs ≤ use_at i bs
    unfolding taken count IsSorted
    taken-latest resident i j [] w there here out = ground (arith, here)
    taken-latest resident i j (c ∷ cs) w there here out =
        elim (Bool-cases (ltb budget (add64 resident incoming))) [
          | inr under ↦ ground (arith, under, there)
          | inl over ↦
              let later : 1 ≤ count j cs = ground (arith, over, out, here) in
              elim (Bool-cases (i == c)) [
                | inl first ↦
                    let e : i ≡ c = ground (arith, first) in
                    subst (λ z. use_at j bs ≤ use_at z bs) (sym e) (w.0 j later)
                | inr behind ↦
                    taken-latest (sub64 resident (bytes_at c bs)) i j cs w.1
                      (ground (arith, over, there, behind)) later (ground (arith, over, out))
              ]
        ]
