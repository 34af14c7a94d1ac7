-- ===== src/Limbs/Partition.antt =====
-- The limbs over the devices: every one has a place, once.
use fideslib.Prelude.{
  ℕ, zero, suc, ◌+◌, ◌*◌, ◌/◌, ◌%◌, ◌≤◌, ◌<◌, ◌≡◌, refl, ap, ◌∙◌, true, false, ◌&&◌, some, none,
  List, [], ◌∷◌, ◌++◌, ltb, leb, ◌==◌, if◌then◌else◌, length, length-append, arith, Bool-cases, inl,
  inr, subst, ==_refl,
}
use native.Mathlib.Nat.{
  mod-lt, div-lt_iff_lt-mul, div-add-mod', lt_of_mul-lt-mul_right, mul-lt-mul_of_pos_right,
  mul_comm,
}
use fideslib.Ckks.Result.{ok}
use fideslib.Limbs.{
  LimbRecord, LimbType, PrimeRecord, digit_of, push, empty_rows, meta_loop, generate_meta, take,
  drop, generate_split_special_meta, flatten, type_of, matching, in_digit,
}

take-drop : (n : ℕ) (ls : List LimbRecord) → take n ls ++ drop n ls ≡ ls
unfolding take drop
take-drop zero ls = refl
take-drop (suc n) [] = refl
take-drop (suc n) (l ∷ ls) = ap (λ (x : List LimbRecord). l ∷ x) (take-drop n ls)

take_all : (ls : List LimbRecord) → take (length ls) ls ≡ ls
unfolding take
take_all [] = refl
take_all (l ∷ ls) = ap (λ (x : List LimbRecord). l ∷ x) (take_all ls)

append_nil : (ls : List LimbRecord) → ls ++ [] ≡ ls
append_nil [] = refl
append_nil (l ∷ ls) = ap (λ (x : List LimbRecord). l ∷ x) (append_nil ls)

-- generateSplitSpecialMeta, for at least one device: the devices' lists, one after the other, are
-- the special limbs in their order, each once.
pub flatten-generate_split_special_meta :
    (devs : ℕ) (ls : List LimbRecord) → flatten (generate_split_special_meta (suc devs) ls) ≡ ls
unfolding flatten generate_split_special_meta
flatten-generate_split_special_meta zero ls =
    let all : length ls / 1 ≡ length ls = omega arith in rw (all, take_all ls) (append_nil ls)
flatten-generate_split_special_meta (suc devs) ls =
    let num = length ls / suc (suc devs) in
    ap (λ (x : List LimbRecord). take num ls ++ x)
      (flatten-generate_split_special_meta devs (drop num ls))
    ∙ take-drop num ls

rows_length :
    (d : ℕ) (r : LimbRecord) (rows : List (List LimbRecord)) → length (push d r rows) ≡ length rows
unfolding push
rows_length d r [] = refl
rows_length zero r (row ∷ rows) = refl
rows_length (suc d) r (row ∷ rows) = ap suc (rows_length d r rows)

-- A push to a device that is there adds one limb.
flatten-push :
    (d : ℕ) (r : LimbRecord) (rows : List (List LimbRecord))
    → d < length rows
    → length (flatten (push d r rows)) ≡ suc (length (flatten rows))
unfolding push flatten
flatten-push d r [] h = ground arith
flatten-push zero r (row ∷ rows) h = omega (
  arith,
  length-append (row ++ (r ∷ [])) (flatten rows),
  length-append row (r ∷ []),
  length-append row (flatten rows),
)
flatten-push (suc d) r (row ∷ rows) h = omega (
  arith,
  length-append row (flatten (push d r rows)),
  length-append row (flatten rows),
  flatten-push d r rows (omega (arith, h)),
)

matched-append :
    (k d : ℕ) (xs ys : List LimbRecord)
    → length (matching k d (xs ++ ys)) ≡ length (matching k d xs) + length (matching k d ys)
unfolding matching
matched-append k d [] ys = omega arith
matched-append k d (x ∷ xs) ys = let ih = matched-append k d xs ys in ground (arith, ih)

-- What a push adds to the limbs of an id and a digit.
abbrev hit : ℕ → ℕ → LimbRecord → ℕ
hit k d r = if r.id == k && in_digit d r then 1 else 0

matched_one : (k d : ℕ) (r : LimbRecord) → length (matching k d (r ∷ [])) ≡ hit k d r
unfolding matching
matched_one k d r = ground arith

matched-push :
    (k d j : ℕ) (r : LimbRecord) (rows : List (List LimbRecord))
    → j < length rows
    → length (matching k d (flatten (push j r rows)))
      ≡ length (matching k d (flatten rows)) + hit k d r
unfolding push flatten
matched-push k d j r [] h = ground arith
matched-push k d zero r (row ∷ rows) h = omega (
  arith,
  matched-append k d (row ++ (r ∷ [])) (flatten rows),
  matched-append k d row (r ∷ []),
  matched-append k d row (flatten rows),
  matched_one k d r,
)
matched-push k d (suc j) r (row ∷ rows) h = omega (
  arith,
  matched-append k d row (flatten (push j r rows)),
  matched-append k d row (flatten rows),
  matched-push k d j r rows (omega (arith, h)),
)

hit_lem :
    (dnum n i k : ℕ) (t : LimbType)
    → hit k (k * dnum / n) (record { id = i; limb_type = t; digit = some (i * dnum / n) })
      ≡ (if i == k then 1 else 0)
unfolding in_digit
hit_lem dnum n i k t = elim (Bool-cases (i == k)) [
  | inl here ↦
      let same : i ≡ k = ground (arith, here) in
      let digit : (i * dnum / n == k * dnum / n) ≡ true =
        subst (λ (x : ℕ). (i * dnum / n == x * dnum / n) ≡ true) same (==_refl (i * dnum / n)) in
      rw (here, digit)
  | inr other ↦ rw other
]

-- One round of the loop, on the numbers of limbs.
step :
    (x y z added i k n : ℕ)
    → y ≡ z + added
    → x ≡ y + (if leb (suc i) k && ltb k n then 1 else 0)
    → added ≡ (if i == k then 1 else 0)
    → i < n
    → x ≡ z + (if leb i k && ltb k n then 1 else 0)
step x y z added i k n e f g h = ground arith

loop_lem :
    (devs dnum n i prev : ℕ) (qs : List PrimeRecord) (rows : List (List LimbRecord))
    → 0 < devs
    → length rows ≡ devs
    → 0 < dnum
    → i + length qs ≡ n
    → prev * n ≤ i * dnum
    → (m : List (List LimbRecord)) × (meta_loop none devs dnum n i prev qs rows ≡ ok m)
      × (length (flatten m) ≡ length (flatten rows) + length qs)
      × ((k : ℕ)
          → length (matching k (k * dnum / n) (flatten m))
            ≡ length (matching k (k * dnum / n) (flatten rows))
              + (if leb i k && ltb k n then 1 else 0))
unfolding meta_loop digit_of
loop_lem devs dnum n i prev [] rows p e q h g =
    let at_end : i ≡ n = omega (arith, h) in (rows, refl, omega arith, λ k. ground (arith, at_end))
loop_lem devs dnum n i prev (c ∷ cs) rows p e q h g =
    let d = i * dnum / n in
    let positive : 0 < n = omega (arith, h) in
    let split : d * n + i * dnum % n ≡ i * dnum = div-add-mod' (i * dnum) n in
    let short : i * dnum % n < n = mod-lt (i * dnum) positive in
    let ascends : prev < suc d = lt_of_mul-lt-mul_right n (omega (arith, split, short, g)) in
    let size : i * dnum < n * dnum = mul-lt-mul_of_pos_right {k = dnum} (omega (arith, h)) q in
    let below : d < dnum = (div-lt_iff_lt-mul positive).1 (omega (arith, size, mul_comm n dnum)) in
    let t1 : ltb d prev ≡ false = ground (arith, ascends) in
    let t2 : leb dnum d ≡ false = ground (arith, below) in
    let limb : LimbRecord = record { id = i; limb_type = type_of c; digit = some d } in
    let place : i % devs < length rows = omega (arith, mod-lt i p, e) in
    let rest =
      loop_lem devs dnum n (suc i) d cs (push (i % devs) limb rows) p
        (rows_length (i % devs) limb rows ∙ e) q (omega (arith, h)) (omega (arith, split)) in
    (
      rest.0,
      rw (t1, t2) rest.1,
      omega (arith, rest.2, flatten-push (i % devs) limb rows place),
      λ k.
          step (length (matching k (k * dnum / n) (flatten rest.0)))
            (length (matching k (k * dnum / n) (flatten (push (i % devs) limb rows))))
            (length (matching k (k * dnum / n) (flatten rows))) (hit k (k * dnum / n) limb) i k n
            (matched-push k (k * dnum / n) (i % devs) limb rows place) (rest.3 k)
            (hit_lem dnum n i k (type_of c)) (omega (arith, h)),
    )

rows_empty : (d : ℕ) → length (empty_rows d) ≡ d
unfolding empty_rows
rows_empty zero = refl
rows_empty (suc d) = ap suc (rows_empty d)

flatten_empty : (d : ℕ) → flatten (empty_rows d) ≡ []
unfolding empty_rows flatten
flatten_empty zero = refl
flatten_empty (suc d) = flatten_empty d

nothing :
    (k d n : ℕ)
    → length (matching k d []) + (if leb 0 k && ltb k n then 1 else 0) ≡ (if ltb k n then 1 else 0)
unfolding matching
nothing k d n = ground arith

-- generateMeta without raw parameters, for at least one device and one digit: the balanced digits
-- always pass its check, so that it returns. The limbs that it gives out over all devices are as many
-- as the primes, and for every number k there is exactly one of them with id k and digit
-- floor (k * dnum / n) if k is below the number n of primes, and none otherwise.
pub generate_meta-balanced :
    (devs dnum : ℕ) (prime : List PrimeRecord)
    → 0 < devs
    → 0 < dnum
    → (m : List (List LimbRecord)) × (generate_meta none devs dnum prime ≡ ok m)
      × (length (flatten m) ≡ length prime)
      × ((k : ℕ)
          → length (matching k (k * dnum / length prime) (flatten m))
            ≡ (if ltb k (length prime) then 1 else 0))
unfolding generate_meta
generate_meta-balanced devs dnum prime p q =
    let r =
      loop_lem devs dnum (length prime) 0 0 prime (empty_rows devs) p (rows_empty devs) q
        (omega arith) (omega arith) in
    let none_yet : flatten (empty_rows devs) ≡ [] = flatten_empty devs in
    (
      r.0,
      r.1,
      r.2 ∙ ap (λ (x : List LimbRecord). length x + length prime) none_yet ∙ omega arith,
      λ k.
          r.3 k
          ∙ ap
              (λ (x : List LimbRecord).
                length (matching k (k * dnum / length prime) x)
                + (if leb 0 k && ltb k (length prime) then 1 else 0))
              none_yet
          ∙ nothing k (k * dnum / length prime) (length prime),
    )
