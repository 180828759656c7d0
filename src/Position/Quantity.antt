-- ===== src/Position/Quantity.antt =====
-- How fills move the quantity of a position: `apply_fill` and `_reduce_or_reverse` of
-- backend/app/trading/position_manager.py.
use veles_moex.Common.{
  ℕ, String, ◌≡◌, refl, false, Option, none, some, List, [], ◌∷◌, str_eq, eq_iff, if◌then◌else◌,
}
use veles_moex.Decimal.{ℤ, pos, ◌+ℤ◌, eq_ℤ, Context, int_laws}
use veles_moex.Dict.{get-put}
use veles_moex.Domain.{OrderSide}
use veles_moex.Position.{
  Position, PositionManager, get, delta_of, same_sign, fill_position, reduce_or_reverse, opened,
  settle, apply_fill,
}

-- What an instrument holds; an unknown instrument holds nothing.
abbrev pub quantity_of : Option Position → ℤ
quantity_of none = pos 0
quantity_of (some p) = p.quantity

abbrev pub held : PositionManager → String → ℤ
held m figi = quantity_of (get m figi)

-- The arguments of one call of `apply_fill`.
pub record Execution : Type 0 where
  pub figi : String
  pub side : OrderSide
  pub quantity : ℤ
  pub price : ℤ
  pub fee : ℤ
  pub timestamp : Option ℕ
  pub now : ℕ

-- The signed quantity that a run of fills brings to one instrument.
pub net : String → List Execution → ℤ
net figi [] = pos 0
net figi (e ∷ es) =
    (if str_eq e.figi figi then delta_of e.side e.quantity else pos 0) +ℤ net figi es

module _ ⦃ctx : Context⦄ where
  quantity-reduce_or_reverse :
      (p : Position) (delta price : ℤ)
      → eq_ℤ p.quantity (pos 0) ≡ false
      → same_sign p.quantity delta ≡ false
      → (reduce_or_reverse p delta price).quantity ≡ p.quantity +ℤ delta
  unfolding reduce_or_reverse
  quantity-reduce_or_reverse p delta price h k = grind int_laws

  pub quantity-fill_position :
      (p : Position) (delta price : ℤ)
      → (fill_position p delta price).quantity ≡ p.quantity +ℤ delta
  unfolding fill_position
  quantity-fill_position p delta price = grind (int_laws, quantity-reduce_or_reverse p delta price)

  quantity-settle :
      (p : Position) (fee : ℤ) (t : Option ℕ) (now : ℕ) → (settle p fee t now).quantity ≡ p.quantity
  unfolding settle
  quantity-settle p fee none now = refl
  quantity-settle p fee (some t) now = refl

  quantity-opened :
      (o : Option Position) (figi : String) (price : ℤ) (now : ℕ)
      → (opened o figi price now).quantity ≡ quantity_of o
  unfolding opened
  quantity-opened none figi price now = refl
  quantity-opened (some p) figi price now = refl

  -- A fill moves the position of its instrument by its signed quantity, whether it opens, grows,
  -- reduces, closes or reverses it, and leaves every other instrument alone.
  pub held-apply_fill :
      (figi other : String) (side : OrderSide) (q price fee : ℤ) (t : Option ℕ) (now : ℕ)
      (m : PositionManager)
      → held (apply_fill figi side q price fee t now m) other
        ≡ (if str_eq figi other then held m figi +ℤ delta_of side q else held m other)
  unfolding apply_fill
  held-apply_fill figi other side q price fee t now m =
      let p = opened (get m figi) figi price now in
      let delta = delta_of side q in
      grind (
        int_laws,
        get-put,
        quantity-opened (get m figi) figi price now,
        quantity-fill_position p delta price,
        quantity-settle (fill_position p delta price) fee t now,
        eq_iff figi other,
      )

  pub apply_all : List Execution → PositionManager → PositionManager
  apply_all [] m = m
  apply_all (e ∷ es) m =
      apply_all es (apply_fill e.figi e.side e.quantity e.price e.fee e.timestamp e.now m)

  -- After any run of fills an instrument holds what it held before plus the signed quantities of
  -- its own fills.
  pub held-apply_all :
      (es : List Execution) (figi : String) (m : PositionManager)
      → held (apply_all es m) figi ≡ held m figi +ℤ net figi es
  unfolding apply_all net
  held-apply_all [] figi m = omega int_laws
  held-apply_all (e ∷ es) figi m =
      let m' = apply_fill e.figi e.side e.quantity e.price e.fee e.timestamp e.now m in
      grind (
        int_laws,
        held-apply_all es figi m',
        held-apply_fill e.figi figi e.side e.quantity e.price e.fee e.timestamp e.now m,
        eq_iff e.figi figi,
      )
