-- ===== src/Grid/Sizing.antt =====
-- From a bot's deposit to whole lots: backend/app/trading/sizing.py.
use veles_moex.Common.{
  ℕ, zero, suc, ◌+◌, ◌*◌, ◌/◌, ◌==◌, String, Option, none, some, List, [], ◌∷◌, truthy, strip,
  if◌then◌else◌,
}
use veles_moex.Decimal.{ℤ, pos, negsuc, ◌+ℤ◌, eq_ℤ, leb_ℤ, ltb_ℤ, Context}
use veles_moex.Strategies.{
  Floats, Powers, TradingMode, DcaGridConfig, CustomLevel, GridOrder, hundred, multiplier,
}

-- The exceptions: those that both functions raise, and a division by a zero total.
pub data SizingError : Type 0 where
  sizing_not_configured custom_deposit_exceeded signal_sizing_unsupported lot_size_unavailable
        currency_unavailable zero_total :
      SizingError
  sizing_below_lot : ℕ → SizingError

pub data Sized (A : Type 0) : Type 0 where
  sized : A → Sized A
  failed : SizingError → Sized A

pub record PositionSizing : Type 0 where
  pub base_nominal : Option ℤ
  pub deposit : Option ℤ
  pub lot_size : Option ℤ
  pub currency : Option String

module _ ⦃ctx : Context⦄ ⦃powers : Powers⦄ where
  -- `sum((k**i for i in range(i, i + n)), Decimal("0"))`
  unfoldable pub power_sum : ℤ → ℕ → ℕ → ℤ
  power_sum k i zero = pos 0
  power_sum k i (suc n) = powers.power k i +ℤ power_sum k (i + 1) n

-- `deposit / total`
abbrev pub shared_over : ⦃ctx : Context⦄ → ℤ → ℤ → Sized ℤ
shared_over ⦃ctx⦄ deposit total =
    if eq_ℤ total (pos 0) then failed zero_total else sized (ctx.div deposit total)

module _ {F : Type 0} ⦃fl : Floats F⦄ where
  pub percent_sum : List (CustomLevel F) → ℤ
  percent_sum [] = pos 0
  percent_sum (c ∷ cs) = fl.of_float c.nominal_percent +ℤ percent_sum cs

module _ {F G : Type 0} ⦃ctx : Context⦄ ⦃fl : Floats F⦄ ⦃powers : Powers⦄ where
  -- The dispatch on the mode, for a positive deposit.
  abbrev pub convert_by : TradingMode → ℤ → DcaGridConfig F G → Sized ℤ
  convert_by TradingMode.simple deposit c =
      shared_over deposit (power_sum (multiplier c) 0 c.levels)
  convert_by TradingMode.custom deposit c =
      if ltb_ℤ hundred (percent_sum c.custom_levels)
      then failed custom_deposit_exceeded
      else sized deposit
  convert_by TradingMode.signal deposit c = failed signal_sizing_unsupported

  unfoldable pub deposit_to_base_nominal : ℤ → DcaGridConfig F G → Sized ℤ
  deposit_to_base_nominal deposit c =
      if leb_ℤ deposit (pos 0) then failed sizing_not_configured else convert_by c.mode deposit c

  unfoldable pub resolve_base_nominal : PositionSizing → Option (DcaGridConfig F G) → Sized ℤ
  resolve_base_nominal s grid = explicit s.base_nominal
    where
      converted : ℤ → Option (DcaGridConfig F G) → Sized ℤ
      converted deposit none = failed sizing_not_configured
      converted deposit (some c) = deposit_to_base_nominal deposit c

      from_deposit : Option ℤ → Sized ℤ
      from_deposit none = failed sizing_not_configured
      from_deposit (some deposit) =
          if leb_ℤ deposit (pos 0) then failed sizing_not_configured else converted deposit grid

      explicit : Option ℤ → Sized ℤ
      explicit none = from_deposit s.deposit
      explicit (some base) = if leb_ℤ base (pos 0) then failed sizing_not_configured else sized base

module _ ⦃ctx : Context⦄ where
  -- `quantity // lot if quantity > 0 else 0` for a positive number of units in a lot.
  unfoldable pub whole_lots : ℤ → ℕ → ℕ
  whole_lots (pos quantity) lot_size = quantity / (lot_size * ctx.one)
  whole_lots (negsuc _) lot_size = 0

  -- `lots * lot`
  unfoldable pub of_lots : ℕ → ℕ → ℤ
  of_lots lots lot_size = ctx.mul (pos (lots * ctx.one)) (pos (lot_size * ctx.one))

module _ {A : Type 0} where
  -- The order is put before the others, unless one of those failed.
  unfoldable pub put_before : A → Sized (List A) → Sized (List A)
  put_before x (failed e) = failed e
  put_before x (sized xs) = sized (x ∷ xs)

module _ {F P : Type 0} ⦃ctx : Context⦄ ⦃fl : Floats F⦄ where
  -- The loop over the orders from number `index` on.
  unfoldable pub round_levels : ℕ → ℕ → List (GridOrder F P) → Sized (List (GridOrder F P))
  round_levels lot_size index [] = sized []
  round_levels lot_size index (order ∷ orders) =
      let rest = round_levels lot_size (index + 1) orders in
      let lots = whole_lots (fl.of_float order.quantity) lot_size in
      if lots == 0
      then failed (sizing_below_lot index)
      else put_before (record order { quantity = fl.to_float (of_lots lots lot_size) }) rest

  with_currency : Option String → ℕ → List (GridOrder F P) → Sized (List (GridOrder F P))
  with_currency none lot_size grid = failed currency_unavailable
  with_currency (some currency) lot_size grid =
      if truthy (strip currency) then round_levels lot_size 0 grid else failed currency_unavailable

  unfoldable pub round_grid_to_lot :
      List (GridOrder F P) → Option ℤ → Option String → Sized (List (GridOrder F P))
  unfolding with_currency
  round_grid_to_lot [] lot_size currency = sized []
  round_grid_to_lot grid none currency = failed lot_size_unavailable
  round_grid_to_lot grid (some (negsuc _)) currency = failed lot_size_unavailable
  round_grid_to_lot grid (some (pos zero)) currency = failed lot_size_unavailable
  round_grid_to_lot grid (some (pos (suc units))) currency = with_currency currency (suc units) grid
