-- ===== src/Tests/Trits.antt =====
-- The numbers modulo 3, with divisions of series at one point.
use fideslib.Prelude.{
  ℕ, zero, suc, ◌+◌, ◌-◌, ◌/◌, ◌≤◌, ◌<◌, ◌≡◌, ◌≢◌, refl, sym, Bool, true, false, not, ◌&&◌, List,
  [], ◌∷◌, if◌then◌else◌, length, ◌==◌, ==_iff, ap, ◌∙◌, arith, Bool-cases, inl, inr,
}
use fideslib.Ckks.Result.{Result, ok, err, openfhe_error, value_or}
use fideslib.Approx.Arithmetic.{Arithmetic, sub, sub-add_cancel}
use fideslib.Approx.Vectors.{at, unit_at, terms, value, length-unit, at-unit_self}
use fideslib.Approx.Openfhe.{Openfhe, IsExact, IsDivision, IsMonic, IsFactored, divided}
use fideslib.Approx.Split.{degree-unit}

pub data Trit : Type 0 where
  o i t : Trit

unfoldable pub add : Trit → Trit → Trit
add o b = b
add i o = i
add i i = t
add i t = o
add t o = t
add t i = o
add t t = i

unfoldable pub mul : Trit → Trit → Trit
mul o b = o
mul i b = b
mul t o = o
mul t i = t
mul t t = i

unfoldable pub neg : Trit → Trit
neg a = mul t a

pub add_assoc : (a b c : Trit) → add (add a b) c ≡ add a (add b c)
unfolding add
add_assoc o b c = refl
add_assoc i o c = refl
add_assoc i i c = ground arith
add_assoc i t c = ground arith
add_assoc t o c = refl
add_assoc t i c = ground arith
add_assoc t t c = ground arith

pub add_comm : (a b : Trit) → add a b ≡ add b a
unfolding add
add_comm a b = ground arith

pub add-zero : (a : Trit) → add a o ≡ a
unfolding add
add-zero a = ground arith

pub add-neg : (a : Trit) → add a (neg a) ≡ o
unfolding add neg mul
add-neg a = ground arith

pub mul_assoc : (a b c : Trit) → mul (mul a b) c ≡ mul a (mul b c)
unfolding mul
mul_assoc a b c = ground arith

pub mul_comm : (a b : Trit) → mul a b ≡ mul b a
unfolding mul
mul_comm a b = ground arith

pub mul-one : (a : Trit) → mul a i ≡ a
unfolding mul
mul-one a = ground arith

pub mul-add : (a b c : Trit) → mul a (add b c) ≡ add (mul a b) (mul a c)
unfolding mul add
mul-add a b c = ground arith

pub one-ne-zero : i ≢ o
one-ne-zero h = cc

pub zero-div : mul o (add i i) ≡ o
unfolding mul
zero-div = refl

-- 1 and 2 are their own inverses.
abbrev pub trits : Arithmetic
trits = record {
  R = Trit;
  zero = o;
  one = i;
  add = add;
  neg = neg;
  mul = mul;
  div = mul;
  add_assoc = add_assoc;
  add_comm = add_comm;
  add-zero = add-zero;
  add-neg = add-neg;
  mul_assoc = mul_assoc;
  mul_comm = mul_comm;
  mul-one = mul-one;
  mul-add = mul-add;
  one-ne-zero = one-ne-zero;
  zero-div_two = zero-div;
}

unfoldable pub some : Trit → Bool
some o = false
some i = true
some t = true

unfoldable pub zeros : List Trit → Bool
zeros [] = true
zeros (c ∷ cs) = not (some c) && zeros cs

unfoldable pub degree : List Trit → ℕ
degree [] = 0
degree (c ∷ cs) = if zeros cs then 0 else suc (degree cs)

some_lem : (c : Trit) → some c ≡ false → c ≡ o
unfolding some
some_lem c h = ground (arith, h)

zeros-at : (f : List Trit) → zeros f ≡ true → (j : ℕ) → at trits f j ≡ o
unfolding zeros at
zeros-at [] h j = refl
zeros-at (c ∷ cs) h zero = some_lem c (ground (arith, h))
zeros-at (c ∷ cs) h (suc j) = zeros-at cs (ground (arith, h)) j

at-zeros : (f : List Trit) → ((j : ℕ) → at trits f j ≡ o) → zeros f ≡ true
unfolding zeros at some
at-zeros [] h = refl
at-zeros (c ∷ cs) h = let e = h 0 in let ih = at-zeros cs (λ j. h (suc j)) in ground (arith, e, ih)

degree_above : (f : List Trit) (j : ℕ) → degree f < j → at trits f j ≡ o
unfolding degree at
degree_above [] j h = refl
degree_above (c ∷ cs) zero h = absurd (omega (arith, h))
degree_above (c ∷ cs) (suc j) h = elim (Bool-cases (zeros cs)) [
  | inl none ↦ zeros-at cs none j
  | inr more ↦ degree_above cs j (ground (arith, h, more))
]

degree_least : (f : List Trit) (n : ℕ) → ((j : ℕ) → n < j → at trits f j ≡ o) → degree f ≤ n
unfolding degree at
degree_least [] n h = omega arith
degree_least (c ∷ cs) zero h =
    let z = at-zeros cs (λ j. h (suc j) (omega arith)) in ground (arith, z)
degree_least (c ∷ cs) (suc n) h =
    let ih = degree_least cs n (λ j l. h (suc j) (omega (arith, l))) in ground (arith, ih)

constant_above : (c : Trit) (j : ℕ) → 0 < j → at trits (c ∷ []) j ≡ o
unfolding at
constant_above c zero h = absurd (omega (arith, h))
constant_above c (suc j) h = refl

-- A division at one point: the quotient is a power of the basis, and the remainder a constant.
module _ (bias unbias : Trit → Trit) (B : ℕ → Trit) where
  abbrev worth : List Trit → Trit
  worth f = value trits bias B f

  unfoldable pub parts : List Trit → List Trit → List Trit × List Trit
  parts f g =
      let q = unit_at trits (degree f - degree g) in
      (q, unbias (sub trits (worth f) (mul (worth q) (worth g))) ∷ [])

  unfoldable pub divide : List Trit → List Trit → Result (List Trit × List Trit)
  divide f g =
      if length f == suc (degree f) && length g == suc (degree g)
      then ok (parts f g)
      else err openfhe_error

  abbrev pub library : Openfhe trits
  library = record {
    degree = degree;
    not_equal_zero = some;
    not_equal_one = λ c. some (add c t);
    not_equal_neg_one = λ c. some (add c i);
    long_division_chebyshev = divide;
    long_division_poly = divide;
    compute_degrees_ps = λ n. (n / 3 + 1, 2);
  }

  one_lem : (c : Trit) → some (add c t) ≡ false → c ≡ i
  unfolding some add
  one_lem c h = ground (arith, h)

  pub library-IsExact : IsExact trits library
  library-IsExact = record {
    above = degree_above;
    least = degree_least;
    zero_test = some_lem;
    one_test = one_lem;
  }

  pub library-IsFactored : IsFactored trits library
  library-IsFactored = record {
    k_pos = λ n h. omega arith;
    m_big = λ n h. omega arith;
    room = λ n h. omega arith;
  }

  divide_lem :
      (f g : List Trit)
      → length f ≡ suc (degree f)
      → length g ≡ suc (degree g)
      → divide f g ≡ ok (parts f g)
  unfolding divide
  divide_lem f g a b =
      let a' : (length f == suc (degree f)) ≡ true = (==_iff _ _).1 a in
      let b' : (length g == suc (degree g)) ≡ true = (==_iff _ _).1 b in rw (a', b')

  divide_lost :
      (f g : List Trit) → (length f == suc (degree f)) ≡ false → divide f g ≡ err openfhe_error
  unfolding divide
  divide_lost f g a = rw a

  divided_lem :
      (f g : List Trit)
      → length f ≡ suc (degree f)
      → length g ≡ suc (degree g)
      → divided divide f g ≡ parts f g
  unfolding divided value_or
  divided_lem f g a b = ap (value_or ([], [])) (divide_lem f g a b)

  pub library-IsDivision :
      ((c : Trit) → bias (unbias c) ≡ c) → IsDivision trits library bias B divide
  unfolding parts value terms
  library-IsDivision inverse = record {
    throws = λ f g a. divide_lost f g a;
    returns = λ f g h a b. divide_lem f g a b ∙ ap ok (sym (divided_lem f g a b));
    identity = λ f g h a b.
        let q = unit_at trits (degree f - degree g) in
        let p = mul (worth q) (worth g) in
        let e = inverse (sub trits (worth f) p) in
        rw
          (
            divided_lem f g a b,
            e,
            add-zero (sub trits (worth f) p),
            add_comm p (sub trits (worth f) p),
          )
          (sym (sub-add_cancel trits (worth f) p));
    degree_quotient = λ f g h a b.
        rw (divided_lem f g a b) (degree-unit trits library library-IsExact (degree f - degree g));
    length_quotient =
        λ f g h a b. rw (divided_lem f g a b) (length-unit trits (degree f - degree g));
    degree_remainder = λ f g h a b.
        let c =
          unbias
            (sub trits (worth f) (mul (worth (unit_at trits (degree f - degree g))) (worth g))) in
        let e = degree_least (c ∷ []) 0 (λ j l. constant_above c j l) in
        rw (divided_lem f g a b) (omega (arith, e, h));
  }

  pub library-IsMonic : IsMonic trits library divide
  unfolding parts
  library-IsMonic = record {
    leading =
        λ f g h l a b lf lg. rw (divided_lem f g a b) (at-unit_self trits (degree f - degree g));
  }
