-- ===== src/Pool/Handed.antt =====
-- Cutting a slab into chunks, handing a chunk out, and taking it back keep a bucket consistent.
use fideslib.Prelude.{
  ℕ, zero, suc, ◌+◌, ◌-◌, ◌*◌, ◌/◌, ◌≤◌, ◌<◌, ◌≡◌, ◌∙◌, ap, refl, inl, inr, true, false, List, [],
  ◌∷◌, ◌++◌, ◌==◌, if◌then◌else◌, arith, Bool-cases,
}
use mathlib.Core.List.{append-nil}
use native.Mathlib.Nat.{mul-add-div_right, mul-div_cancel, div-eq_of_lt}
use fideslib.Pool.{GpuSlab, Bucket, inside, carve, grow}
use fideslib.Pool.Chunks.{
  All, inside_count, count, Apart, Disjoint, IsConsistent, Apart-inside, Apart-sym,
}

module _ (size : ℕ) (sp : 0 < size) (s : GpuSlab) where
  carve_inside : (m n : ℕ) → s.bytes ≡ n * size → m ≤ n → inside_count s (carve m s.base size) ≡ m
  unfolding carve inside_count inside
  carve_inside zero n h l = refl
  carve_inside (suc m) n h l =
      let less : m * size + size ≤ n * size = grind arith in
      let here : inside (s.base + m * size) s ≡ true = ground arith in
      rw here (omega (arith, carve_inside m n h (omega arith)))

  carve-Apart :
      (t : GpuSlab) (m n : ℕ)
      → s.bytes ≡ n * size
      → m ≤ n
      → Apart s t
      → inside_count t (carve m s.base size) ≡ 0
  unfolding carve inside_count inside
  carve-Apart t zero n h l a = refl
  carve-Apart t (suc m) n h l a =
      let less : m * size + size ≤ n * size = grind arith in
      let here : inside (s.base + m * size) s ≡ true = ground arith in
      let out = Apart-inside (s.base + m * size) s t a here in
      rw out (omega (arith, carve-Apart t m n h (omega arith) a))

  carve_outside :
      (p m n : ℕ)
      → s.bytes ≡ n * size
      → m ≤ n
      → inside p s ≡ false
      → count p (carve m s.base size) ≡ 0
  unfolding carve count inside
  carve_outside p zero n h l out = refl
  carve_outside p (suc m) n h l out =
      let less : m * size + size ≤ n * size = grind arith in
      let ih = carve_outside p m n h (omega arith) out in ground (arith, ih, less)

  carve_high : (p m : ℕ) → s.base + m * size ≤ p → count p (carve m s.base size) ≡ 0
  unfolding carve count
  carve_high p zero h = refl
  carve_high p (suc m) h =
      let step : suc m * size ≡ m * size + size = omega arith in
      let ih = carve_high p m (omega arith) in ground (arith, ih, step)

  carve_once : (p m : ℕ) → count p (carve m s.base size) ≤ 1
  unfolding carve count
  carve_once p zero = omega arith
  carve_once p (suc m) = elim (Bool-cases (s.base + m * size == p)) [
    | inl here ↦ let none = carve_high p m (ground arith) in rw here (omega arith)
    | inr other ↦ rw other (omega (arith, carve_once p m))
  ]

-- No chunk of the list lies in the slab.
none_inside :
    (s : GpuSlab) (p : ℕ) (ps : List ℕ) → inside_count s ps ≡ 0 → inside p s ≡ true → count p ps ≡ 0
unfolding inside_count count
none_inside s p [] h k = refl
none_inside s p (q ∷ ps) h k = elim (Bool-cases (q == p)) [
  | inl same ↦
      let e : q ≡ p = ground arith in
      let here : inside q s ≡ true = rw e k in absurd (ground (arith, here))
  | inr other ↦ let ih = none_inside s p ps (ground arith) k in rw other (omega arith)
]

All-last :
    (P : GpuSlab → Type 0) (xs : List GpuSlab) (s : GpuSlab)
    → All P xs
    → P s
    → All P (xs ++ (s ∷ []))
All-last P [] s h k = (k, tt)
All-last P (x ∷ xs) s h k = (h.0, All-last P xs s h.1 k)

All-map :
    (P Q : GpuSlab → Type 0) (xs : List GpuSlab) → ((s : GpuSlab) → P s → Q s) → All P xs → All Q xs
All-map P Q [] f h = tt
All-map P Q (x ∷ xs) f h = (f x h.0, All-map P Q xs f h.1)

All-both :
    (P Q R : GpuSlab → Type 0) (xs : List GpuSlab)
    → ((s : GpuSlab) → P s → Q s → R s)
    → All P xs
    → All Q xs
    → All R xs
All-both P Q R [] f h k = tt
All-both P Q R (x ∷ xs) f h k = (f x h.0 k.0, All-both P Q R xs f h.1 k.1)

Disjoint-last :
    (xs : List GpuSlab) (s : GpuSlab) → Disjoint xs → All (Apart s) xs → Disjoint (xs ++ (s ∷ []))
Disjoint-last [] s h k = (tt, tt)
Disjoint-last (x ∷ xs) s h k =
    (All-last (Apart x) xs s h.0 (Apart-sym s x k.0), Disjoint-last xs s h.1 k.1)

-- Memory that the driver has just given is apart from the slabs and from what is handed out.
pub record IsFresh (s : GpuSlab) (live : List ℕ) (slabs : List GpuSlab) : Type 0 where
  pub apart : All (Apart s) slabs
  pub unused : inside_count s live ≡ 0

-- The rounds of the loop that cuts a slab
pub rounds_lem : (slab size n : ℕ) → 0 < size → slab ≡ n * size → (slab + size - 1) / size ≡ n
rounds_lem slab size n sp whole =
    let a : slab + size - 1 ≡ n * size + (size - 1) = omega arith in
    ap (λ (x : ℕ). x / size) a
    ∙ mul-add-div_right sp n (size - 1)
    ∙ ap (λ (x : ℕ). n + x) (div-eq_of_lt (omega arith))
    ∙ omega arith

pub grow-IsConsistent :
    (size n : ℕ) (live : List ℕ) (s : GpuSlab) (b : Bucket)
    → 0 < size
    → s.bytes ≡ n * size
    → b.free_limb ≡ []
    → IsFresh s live b.slabs
    → IsConsistent size live b
    → IsConsistent size live (grow s.base s.bytes size b)
unfolding grow inside_count count
grow-IsConsistent size n live s b sp whole empty fresh h =
    let rounds = rounds_lem s.bytes size n sp whole in
    let total : s.bytes / size ≡ n = ap (λ (x : ℕ). x / size) whole ∙ mul-div_cancel n sp in
    let chunks = carve n s.base size in
    let all : carve ((s.bytes + size - 1) / size) s.base size ++ b.free_limb ≡ chunks =
      rw (rounds, empty) (append-nil chunks) in
    let n_le : n ≤ n = omega arith in
    let none : (t : GpuSlab) → inside_count t b.free_limb ≡ 0 = λ t. rw empty in
    record {
      accounted = rw all (
          All-last _ b.slabs s
            (All-both _ (Apart s) _ b.slabs
              (λ t old apart.
                let new = carve-Apart size sp s t n n whole n_le apart in
                let z = none t in omega arith)
              h.accounted fresh.apart)
            (let i = carve_inside size sp s n n whole n_le in let u = fresh.unused in omega arith));
      disjoint = Disjoint-last b.slabs s h.disjoint fresh.apart;
      once = λ p.
          let o = h.once p in
          rw all (elim (Bool-cases (inside p s)) [
            | inl here ↦
                let z = none_inside s p live fresh.unused here in
                omega (arith, carve_once size sp s p n)
            | inr out ↦ let z = carve_outside size sp s p n n whole n_le out in omega arith
          ]);
    }

module _ (size : ℕ) (live : List ℕ) (b : Bucket) where
  pub hand_out-IsConsistent :
      (p : ℕ) (rest : List ℕ)
      → b.free_limb ≡ p ∷ rest
      → IsConsistent size live b
      → IsConsistent size (p ∷ live) (record b { free_limb = rest }) × (count p live ≡ 0)
  unfolding inside_count count
  hand_out-IsConsistent p rest e h =
      let here : (p == p) ≡ true = ground arith in
      let o = rw e at (h.once p) in
      (
        record {
          accounted = All-map _ _ b.slabs (λ t a. let a' = rw e at a in omega arith) h.accounted;
          disjoint = h.disjoint;
          once = λ q. let o' = rw e at (h.once q) in omega arith;
        },
        ground (arith, here, o),
      )

-- Without the first p
unfoldable pub remove : ℕ → List ℕ → List ℕ
remove p [] = []
remove p (q ∷ qs) = if q == p then qs else q ∷ remove p qs

count-remove :
    (p q : ℕ) (l : List ℕ)
    → 0 < count p l
    → count q l ≡ (if p == q then 1 else 0) + count q (remove p l)
unfolding count remove
count-remove p q [] h = absurd (omega arith)
count-remove p q (r ∷ l) h = ground (arith, count-remove p q l)

inside_count-remove :
    (s : GpuSlab) (p : ℕ) (l : List ℕ)
    → 0 < count p l
    → inside_count s l ≡ (if inside p s then 1 else 0) + inside_count s (remove p l)
unfolding inside_count count remove
inside_count-remove s p [] h = absurd (omega arith)
inside_count-remove s p (q ∷ l) h = elim (Bool-cases (q == p)) [
  | inl same ↦ let e : q ≡ p = ground arith in rw (same, e)
  | inr other ↦ let ih = inside_count-remove s p l (ground arith) in rw other (omega arith)
]

pub take_back-IsConsistent :
    (size : ℕ) (live : List ℕ) (b : Bucket) (p : ℕ)
    → 0 < count p live
    → IsConsistent size live b
    → IsConsistent size (remove p live) (record b { free_limb = p ∷ b.free_limb })
unfolding inside_count count
take_back-IsConsistent size live b p there h = record {
  accounted =
      All-map _ _ b.slabs (λ t a. let r = inside_count-remove t p live there in omega arith)
        h.accounted;
  disjoint = h.disjoint;
  once = λ q. let o = h.once q in let r = count-remove p q live there in omega arith;
}
