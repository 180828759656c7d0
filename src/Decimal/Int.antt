-- ===== src/Decimal/Int.antt =====
-- Signed integers over the native numbers, with the comparisons and absolute value of Decimal.
use veles_moex.Common.{
  ℕ, suc, ◌+◌, ◌-◌, ◌≤◌, ◌<◌, ◌≡◌, sym, ap, ◌∙◌, Bool, true, false, ◌&&◌, ◌||◌, ◌⊎◌, arith, ltb,
  leb, ◌==◌, if◌then◌else◌,
}

-- `negsuc n` is -(n + 1).
pub data ℤ : Type 0 where
  pos : ℕ → ℤ
  negsuc : ℕ → ℤ

abbrev pub pos_part : ℤ → ℕ
pos_part (pos n) = n
pos_part (negsuc _) = 0

abbrev pub neg_part : ℤ → ℕ
neg_part (pos _) = 0
neg_part (negsuc n) = suc n

abbrev pub sub_ℕ : ℕ → ℕ → ℤ
sub_ℕ a b = if leb b a then pos (a - b) else negsuc (b - a - 1)

infixl 65 ◌+ℤ◌ ◌-ℤ◌
infix 50 ◌≤ℤ◌ ◌<ℤ◌
unfoldable pub ◌+ℤ◌ : ℤ → ℤ → ℤ
a +ℤ b = sub_ℕ (pos_part a + pos_part b) (neg_part a + neg_part b)

unfoldable pub ◌-ℤ◌ : ℤ → ℤ → ℤ
a -ℤ b = sub_ℕ (pos_part a + neg_part b) (neg_part a + pos_part b)

unfoldable pub neg : ℤ → ℤ
neg a = sub_ℕ (neg_part a) (pos_part a)

abbrev pub ◌≤ℤ◌ : ℤ → ℤ → Type 0
a ≤ℤ b = pos_part a + neg_part b ≤ pos_part b + neg_part a

abbrev pub ◌<ℤ◌ : ℤ → ℤ → Type 0
a <ℤ b = pos_part a + neg_part b < pos_part b + neg_part a

abbrev pub ltb_ℤ : ℤ → ℤ → Bool
ltb_ℤ a b = ltb (pos_part a + neg_part b) (pos_part b + neg_part a)

abbrev pub leb_ℤ : ℤ → ℤ → Bool
leb_ℤ a b = leb (pos_part a + neg_part b) (pos_part b + neg_part a)

abbrev pub eq_ℤ : ℤ → ℤ → Bool
eq_ℤ a b = (pos_part a + neg_part b) == (pos_part b + neg_part a)

abbrev pub abs : ℤ → ℤ
abs a = pos (pos_part a + neg_part a)

abbrev pub min_ℤ : ℤ → ℤ → ℤ
min_ℤ a b = if ltb_ℤ b a then b else a

abbrev pub max_ℤ : ℤ → ℤ → ℤ
max_ℤ a b = if ltb_ℤ a b then b else a

-- With these the operations can stay shut.
pub +ℤ_parts :
    (a b : ℤ)
    → pos_part (a +ℤ b) + neg_part a + neg_part b ≡ neg_part (a +ℤ b) + pos_part a + pos_part b
unfolding ◌+ℤ◌
+ℤ_parts a b = ground arith

pub -ℤ_parts :
    (a b : ℤ)
    → pos_part (a -ℤ b) + neg_part a + pos_part b ≡ neg_part (a -ℤ b) + pos_part a + neg_part b
unfolding ◌-ℤ◌
-ℤ_parts a b = ground arith

pub neg_parts : (a : ℤ) → pos_part (neg a) + pos_part a ≡ neg_part (neg a) + neg_part a
unfolding neg
neg_parts a = ground arith

pub eq_of_parts : (a b : ℤ) → pos_part a + neg_part b ≡ pos_part b + neg_part a → a ≡ b
eq_of_parts a b h = ground arith

pub ruleset int_laws = (arith, +ℤ_parts, -ℤ_parts, neg_parts, eq_of_parts)

pub add-sub : (a b : ℤ) → a +ℤ b -ℤ b ≡ a
add-sub a b = omega int_laws

pub sub-add : (a b : ℤ) → a -ℤ b +ℤ b ≡ a
sub-add a b = omega int_laws

pub eq-sub_of_add : (a b c : ℤ) → a +ℤ b ≡ c → a ≡ c -ℤ b
eq-sub_of_add a b c h = sym (add-sub a b) ∙ ap (λ t. t -ℤ b) h

pub neg-neg : (a : ℤ) → neg (neg a) ≡ a
neg-neg a = omega int_laws

pub eq_of_eq_ℤ : (a b : ℤ) → eq_ℤ a b ≡ true → a ≡ b
eq_of_eq_ℤ a b h = ground arith

pub abs-eq-neg : (a : ℤ) → ltb_ℤ (pos 0) a ≡ false → abs a ≡ neg a
unfolding neg
abs-eq-neg a h = ground arith

pub abs-eq_self : (a : ℤ) → ltb_ℤ (pos 0) a ≡ true → abs a ≡ a
abs-eq_self a h = ground arith

pub sub_self : (a : ℤ) → a -ℤ a ≡ pos 0
sub_self a = omega int_laws

pub flip_sub : (a b : ℤ) → a -ℤ b ≡ neg (b -ℤ a)
flip_sub a b = omega int_laws

pub cancel_new : (a b c : ℤ) → a +ℤ b -ℤ (c +ℤ b) ≡ a -ℤ c
cancel_new a b c = omega int_laws

pub cancel_closed : (a b c : ℤ) → a +ℤ neg c +ℤ (b +ℤ c) ≡ a +ℤ b
cancel_closed a b c = omega int_laws

pub add-zero_ℤ : (a : ℤ) → a +ℤ pos 0 ≡ a
add-zero_ℤ a = omega int_laws

pub neg-eq_of_add : (a b : ℤ) → a +ℤ b ≡ pos 0 → neg b ≡ a
neg-eq_of_add a b h = grind (int_laws, h)

pub neg-add : (a b : ℤ) → neg (a +ℤ b) ≡ neg a +ℤ neg b
neg-add a b = omega int_laws

pub neg-injective : (a b : ℤ) → neg a ≡ neg b → a ≡ b
neg-injective a b h = sym (neg-neg a) ∙ ap neg h ∙ neg-neg b

-- Two numbers of one sign have a sum of that sign.
pub one_sign :
    (a b : ℤ)
    → ((ltb_ℤ (pos 0) a && ltb_ℤ (pos 0) b) || (ltb_ℤ a (pos 0) && ltb_ℤ b (pos 0))) ≡ true
    → ((abs a ≡ a) × (abs b ≡ b) × (abs (a +ℤ b) ≡ a +ℤ b))
      ⊎ ((abs a ≡ neg a) × (abs b ≡ neg b) × (abs (a +ℤ b) ≡ neg (a +ℤ b)))
unfolding ◌+ℤ◌ neg
one_sign a b h = ground arith
