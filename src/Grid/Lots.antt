-- ===== src/Grid/Lots.antt =====
-- Whole lots: `round_grid_to_lot` of backend/app/trading/sizing.py.
use veles_moex.Common.{
  ℕ, zero, suc, ◌+◌, ◌*◌, ◌≤◌, ◌<◌, ◌==◌, String, ◌≡◌, refl, subst, Bool, true, false, Option, none,
  some, List, [], ◌∷◌, arith, inl, inr, Bool-cases, if◌then◌else◌, truthy, strip,
}
use veles_moex.Decimal.{ℤ, pos, negsuc, pos_part, Context}
use veles_moex.Strategies.{Floats, GridOrder}
use veles_moex.Grid.Sizing.{
  Sized, sized, failed, whole_lots, of_lots, put_before, round_levels, round_grid_to_lot,
  SizingError, sizing_below_lot,
}
use native.Mathlib.Nat.{div-add-mod}

-- The orders of a grid, each brought down to a positive number of whole lots and otherwise as it was.
pub data Lowered {F P : Type 0} ⦃ctx : Context⦄ ⦃fl : Floats F⦄ (units : ℕ)
    : List (GridOrder F P) → List (GridOrder F P) → Type 0 where
  nil : Lowered units [] []
  cons :
      {order : GridOrder F P} {grid orders : List (GridOrder F P)} (lots : ℕ)
      → 0 < lots
      → lots * (units * ctx.one) ≤ pos_part (fl.of_float order.quantity)
      → Lowered units grid orders
      → Lowered units
          (order ∷ grid)
          (record order { quantity = fl.to_float (of_lots lots units) } ∷ orders)

module _ ⦃ctx : Context⦄ where
  lots_fit :
      (q : ℤ) (units : ℕ)
      → 0 < units * ctx.one
      → whole_lots q units * (units * ctx.one) ≤ pos_part q
  unfolding whole_lots
  lots_fit (pos n) units h = omega (arith, div-add-mod n (units * ctx.one))
  lots_fit (negsuc n) units h = omega arith

module _ {F P : Type 0} ⦃ctx : Context⦄ ⦃fl : Floats F⦄ where
  put_before-sized :
      (x : GridOrder F P) (r : Sized (List (GridOrder F P))) (ys : List (GridOrder F P))
      → put_before x r ≡ sized ys
      → (xs : List (GridOrder F P)) × (r ≡ sized xs) × (x ∷ xs ≡ ys)
  unfolding put_before
  put_before-sized x (sized xs) ys h = (xs, refl, cc h)
  put_before-sized x (failed e) ys h = absurd (cc h)

  rounded_levels :
      (units i : ℕ) (grid orders : List (GridOrder F P))
      → 0 < units * ctx.one
      → round_levels units i grid ≡ sized orders
      → Lowered units grid orders
  unfolding round_levels
  rounded_levels units i [] orders some_units h =
      subst (λ t. Lowered {F = F} {P = P} units [] t) (cc h) nil
  rounded_levels units i (order ∷ grid) orders some_units h =
      elim (Bool-cases (whole_lots (fl.of_float order.quantity) units == 0)) [
        | inl none_left ↦ absurd (blocked (rw none_left at h))
        | inr lots ↦
            let (xs, at_xs, same) = put_before-sized _ _ orders (rw lots at h) in
            subst (λ t. Lowered {F = F} {P = P} units (order ∷ grid) t) same
              (cons (whole_lots (fl.of_float order.quantity) units) (ground (arith, lots))
                (lots_fit (fl.of_float order.quantity) units some_units)
                (rounded_levels units (i + 1) grid xs some_units at_xs))
      ]
    where
      blocked : failed (sizing_below_lot i) ≡ sized orders → ⊥
      blocked e = cc e

  -- Rounding a grid to lots is all or nothing: if it gives orders at all, there is one for each level,
  -- like it but in a whole positive number of lots that is no more than its quantity.
  pub round_grid_to_lot-Lowered :
      (grid orders : List (GridOrder F P)) (units : ℕ) (currency : Option String)
      → 0 < ctx.one
      → round_grid_to_lot grid (some (pos units)) currency ≡ sized orders
      → Lowered units grid orders
  unfolding round_grid_to_lot
  round_grid_to_lot-Lowered [] orders units currency one h =
      subst (λ t. Lowered {F = F} {P = P} units [] t) (cc h) nil
  round_grid_to_lot-Lowered (order ∷ grid) orders zero currency one h = absurd (cc h)
  round_grid_to_lot-Lowered (order ∷ grid) orders (suc u) none one h = absurd (cc h)
  round_grid_to_lot-Lowered (order ∷ grid) orders (suc u) (some currency) one h =
      rounded_levels (suc u) 0 (order ∷ grid) orders (omega (arith, one))
        (priced (truthy (strip currency)) h)
    where
      priced :
          (b : Bool)
          → (if b
              then round_levels (suc u) 0 (order ∷ grid)
              else failed SizingError.currency_unavailable)
            ≡ sized orders
          → round_levels (suc u) 0 (order ∷ grid) ≡ sized orders
      priced true h = h
      priced false h = absurd (cc h)
