-- ===== src/Decimal/Exact.antt =====
-- Decimal arithmetic where no rounding happens: the products and the quotients in question fit
-- the precision of the context, so that `*` distributes over `+` and a quotient times its divisor
-- is the dividend.
use veles_moex.Common.{ℕ, ap, sym, ◌∙◌, ◌+◌, ◌*◌, ◌/◌, ◌≡◌, arith}
use veles_moex.Decimal.{
  ℤ, pos, negsuc, pos_part, neg_part, sub_ℕ, ◌+ℤ◌, ◌-ℤ◌, neg, ◌≤ℤ◌, Context, int_laws, +ℤ_parts,
  sub-add, eq-sub_of_add,
}

-- Products are exact: the documented behaviour of Decimal for results within the precision.
pub record IsExact (ctx : Context) : Type 0 where
  pub mul_comm : (a b : ℤ) → ctx.mul a b ≡ ctx.mul b a
  pub mul_add : (a b c : ℤ) → ctx.mul (a +ℤ b) c ≡ ctx.mul a c +ℤ ctx.mul b c
  pub mul_nonneg : (a b : ℤ) → pos 0 ≤ℤ a → pos 0 ≤ℤ b → pos 0 ≤ℤ ctx.mul a b

module _ (ctx : Context) (exact : IsExact ctx) where
  pub zero-mul : (c : ℤ) → ctx.mul (pos 0) c ≡ pos 0
  zero-mul c =
      let zero_sum : pos 0 +ℤ pos 0 ≡ pos 0 = omega int_laws in
      grind (int_laws, ap (λ (t : ℤ). ctx.mul t c) zero_sum, exact.mul_add (pos 0) (pos 0) c)

  pub sub-mul : (a b c : ℤ) → ctx.mul (a -ℤ b) c ≡ ctx.mul a c -ℤ ctx.mul b c
  sub-mul a b c =
      eq-sub_of_add _ _ _ (sym (exact.mul_add (a -ℤ b) b c) ∙ ap (λ t. ctx.mul t c) (sub-add a b))

  neg_as_sub : (a : ℤ) → neg a ≡ pos 0 -ℤ a
  neg_as_sub a = omega int_laws

  pub neg-mul : (a c : ℤ) → ctx.mul (neg a) c ≡ neg (ctx.mul a c)
  neg-mul a c = cc (neg_as_sub a, neg_as_sub (ctx.mul a c), sub-mul (pos 0) a c, zero-mul c)

  pub mul-sub : (a b c : ℤ) → ctx.mul c (a -ℤ b) ≡ ctx.mul c a -ℤ ctx.mul c b
  mul-sub a b c =
      cc (exact.mul_comm c (a -ℤ b), exact.mul_comm a c, exact.mul_comm b c, sub-mul a b c)

  pub mul-zero : (c : ℤ) → ctx.mul c (pos 0) ≡ pos 0
  mul-zero c = exact.mul_comm c (pos 0) ∙ zero-mul c

  pub mul-neg : (a c : ℤ) → ctx.mul a (neg c) ≡ neg (ctx.mul a c)
  mul-neg a c = cc (exact.mul_comm a (neg c), neg-mul c a, exact.mul_comm c a)

  pub mul-add : (a b c : ℤ) → ctx.mul c (a +ℤ b) ≡ ctx.mul c a +ℤ ctx.mul c b
  mul-add a b c =
      cc (exact.mul_comm c (a +ℤ b), exact.mul_add a b c, exact.mul_comm a c, exact.mul_comm b c)

-- Whole numbers: the unit is `Decimal("1")`, products are those of the integers, and a quotient is
-- cut off towards zero.
unfoldable pub times : ℤ → ℤ → ℤ
times a b =
    sub_ℕ (pos_part a * pos_part b + neg_part a * neg_part b)
      (pos_part a * neg_part b + neg_part a * pos_part b)

abbrev quotient_of : ℕ → ℕ → ℤ → ℤ
quotient_of n d (pos _) = pos (n / d)
quotient_of n d (negsuc _) = neg (pos (n / d))

abbrev pub cut_off : ℤ → ℤ → ℤ
cut_off a b = quotient_of (pos_part a + neg_part a) (pos_part b + neg_part b) (times a b)

abbrev pub whole : Context
whole = record { one = 1; mul = times; div = cut_off }

times_parts :
    (a b : ℤ)
    → pos_part (times a b) + (pos_part a * neg_part b + neg_part a * pos_part b)
      ≡ neg_part (times a b) + (pos_part a * pos_part b + neg_part a * neg_part b)
unfolding times
times_parts a b = ground arith

times_comm : (a b : ℤ) → times a b ≡ times b a
unfolding times
times_comm a b = ground arith

times_add : (a b c : ℤ) → times (a +ℤ b) c ≡ times a c +ℤ times b c
times_add a b c =
    let sum = +ℤ_parts a b in
    omega (
      int_laws,
      times_parts (a +ℤ b) c,
      times_parts a c,
      times_parts b c,
      +ℤ_parts (times a c) (times b c),
      ap (λ (t : ℕ). t * pos_part c) sum,
      ap (λ (t : ℕ). t * neg_part c) sum,
    )

times_nonneg : (a b : ℤ) → pos 0 ≤ℤ a → pos 0 ≤ℤ b → pos 0 ≤ℤ times a b
unfolding times
times_nonneg a b h k = ground arith

pub whole-IsExact : IsExact whole
whole-IsExact = record { mul_comm = times_comm; mul_add = times_add; mul_nonneg = times_nonneg }
