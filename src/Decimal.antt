-- ===== src/Decimal.antt =====
-- Python's `Decimal`, as used by backend/app/trading and backend/app/strategies. A value is an
-- integer count of a fixed small unit. Sums, differences, absolute values and comparisons are
-- computed on that count; products and quotients, which Python rounds to its decimal context, are
-- operations of a `Context` that the model takes as a parameter.
mod Int
pub mod Exact
pub use Int.{
  ℤ, pos, negsuc, pos_part, neg_part, sub_ℕ, ◌≤ℤ◌, ◌<ℤ◌, ltb_ℤ, leb_ℤ, eq_ℤ, abs, min_ℤ, max_ℤ,
  +ℤ_parts, -ℤ_parts, neg_parts, eq_of_parts, eq_of_eq_ℤ, abs-eq-neg, abs-eq_self, neg-neg, add-sub,
  neg-add, neg-injective, one_sign, neg-eq_of_add, add-zero_ℤ, sub_self, flip_sub, cancel_new,
  cancel_closed, sub-add, eq-sub_of_add, int_laws,
}
unfoldable pub use Int.{◌+ℤ◌, ◌-ℤ◌, neg}
use veles_moex.Common.{ℕ}

-- `one` is the count of `Decimal("1")`; `mul` and `div` are `*` and `/` of the decimal context.
pub record Context : Type 0 where
  pub one : ℕ
  pub mul : ℤ → ℤ → ℤ
  pub div : ℤ → ℤ → ℤ
