-- ===== src/Approx/Arithmetic.antt =====
-- The numbers that a slot and the coefficients hold, with exact arithmetic.
use fideslib.Prelude.{◌≡◌, ◌≢◌, sym, ap, ◌∙◌}

pub record Arithmetic : Type 1 where
  pub R : Type 0
  pub zero : R
  pub one : R
  pub add : R → R → R
  pub neg : R → R
  pub mul : R → R → R
  pub div : R → R → R
  pub add_assoc : (a b c : R) → add (add a b) c ≡ add a (add b c)
  pub add_comm : (a b : R) → add a b ≡ add b a
  pub add-zero : (a : R) → add a zero ≡ a
  pub add-neg : (a : R) → add a (neg a) ≡ zero
  pub mul_assoc : (a b c : R) → mul (mul a b) c ≡ mul a (mul b c)
  pub mul_comm : (a b : R) → mul a b ≡ mul b a
  pub mul-one : (a : R) → mul a one ≡ a
  pub mul-add : (a b c : R) → mul a (add b c) ≡ add (mul a b) (mul a c)
  pub one-ne-zero : one ≢ zero
  pub zero-div_two : div zero (add one one) ≡ zero

module _ (r : Arithmetic) where
  open r use {
    R, zero, one, add, neg, mul, add_assoc, add_comm, add-zero, add-neg, mul_assoc, mul_comm,
    mul-one, mul-add,
  }

  abbrev pub sub : R → R → R
  sub a b = add a (neg b)

  pub add_left_comm : (a b c : R) → add a (add b c) ≡ add b (add a c)
  add_left_comm a b c = simp (← add_assoc) (rw (add_comm a b))

  pub mul_left_comm : (a b c : R) → mul a (mul b c) ≡ mul b (mul a c)
  mul_left_comm a b c = rw (sym (mul_assoc a b c), mul_comm a b, mul_assoc b a c)

  pub zero-add : (a : R) → add zero a ≡ a
  zero-add a = add_comm zero a ∙ add-zero a

  pub add-mul : (a b c : R) → mul (add a b) c ≡ add (mul a c) (mul b c)
  add-mul a b c = rw (mul_comm (add a b) c, mul-add c a b, mul_comm c a, mul_comm c b)

  -- x + b - b, in the form that sorted sums have
  pub add-sub_cancel : (a b : R) → add (add a b) (neg b) ≡ a
  add-sub_cancel a b = add_assoc a b (neg b) ∙ ap (add a) (add-neg b) ∙ add-zero a

  pub sub-add_cancel : (a b : R) → add (add a (neg b)) b ≡ a
  sub-add_cancel a b =
      add_assoc a (neg b) b ∙ ap (add a) (add_comm (neg b) b ∙ add-neg b) ∙ add-zero a

  pub add_cancel : (a b c : R) → add a c ≡ add b c → a ≡ b
  add_cancel a b c h =
      sym (add-sub_cancel a c) ∙ ap (λ (x : R). add x (neg c)) h ∙ add-sub_cancel b c

  pub mul-zero : (a : R) → mul a zero ≡ zero
  mul-zero a =
      add_cancel (mul a zero) zero (mul a zero)
        (sym (mul-add a zero zero) ∙ ap (mul a) (add-zero zero) ∙ sym (zero-add (mul a zero)))

  pub zero-mul : (a : R) → mul zero a ≡ zero
  zero-mul a = mul_comm zero a ∙ mul-zero a

  pub one-mul : (a : R) → mul one a ≡ a
  one-mul a = mul_comm one a ∙ mul-one a

  pub neg-mul : (a b : R) → mul (neg a) b ≡ neg (mul a b)
  neg-mul a b = add_cancel (mul (neg a) b) (neg (mul a b)) (mul a b) (
      sym (add-mul (neg a) a b)
      ∙ ap (λ (x : R). mul x b) (add_comm (neg a) a ∙ add-neg a)
      ∙ zero-mul b
      ∙ sym (add_comm (neg (mul a b)) (mul a b) ∙ add-neg (mul a b)))
