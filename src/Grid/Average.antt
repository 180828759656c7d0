-- ===== src/Grid/Average.antt =====
-- Averaging: `recalculate`, `apply_average`, `evaluate_pullup` and `signal_dca_order` of
-- backend/app/strategies/dca_grid.py. `none` is a raised exception, as in Grid/Build.antt.
use veles_moex.Common.{
  ℕ, ◌+◌, ◌==◌, Bool, true, false, ◌||◌, Option, none, some, List, [], ◌∷◌, length, if◌then◌else◌,
}
use veles_moex.Decimal.{ℤ, pos, ◌+ℤ◌, ◌-ℤ◌, abs, eq_ℤ, leb_ℤ, Context}
use veles_moex.Domain.{OrderSide, Direction, long, short}
use veles_moex.Strategies.{
  Floats, Powers, TradingMode, SignalOffsetReference, DcaGridConfig, decimal_one, hundred, share_of,
  entry_side,
}
use veles_moex.Grid.{GridLevel, GridState, is_filled, filled_levels, refresh_active}
use veles_moex.Grid.Prices.{simple_prices}
use veles_moex.Grid.Build.{and_then, quotient, make_level, nominal_of}

pub record DcaOrder (F : Type 0) : Type 0 where
  pub level_index : ℕ
  pub side : OrderSide
  pub price : Option ℤ
  pub quantity : ℤ
  pub nominal : ℤ
  pub offset_percent : F
  pub is_market : Bool
  pub timestamp : Option ℕ

module _ {F : Type 0} where
  -- `sum(lvl.quantity for lvl in levels)`
  pub total_quantity : List (GridLevel F) → ℤ
  total_quantity [] = pos 0
  total_quantity (l ∷ ls) = l.quantity +ℤ total_quantity ls

  first_level : List (GridLevel F) → Option (GridLevel F)
  first_level [] = none
  first_level (l ∷ ls) = let rest = first_level ls in if l.index == 0 then some l else rest

module _ {F : Type 0} ⦃ctx : Context⦄ where
  unfoldable pub apply_average : GridState F → ℤ → ℤ → Option ℤ
  unfolding total_quantity
  apply_average s quantity price =
      let held = total_quantity (filled_levels s.levels) in
      if eq_ℤ held (pos 0)
      then some s.average_price
      else quotient (ctx.mul s.average_price held +ℤ ctx.mul quantity price) (held +ℤ quantity)

module _ {F : Type 0} ⦃ctx : Context⦄ ⦃fl : Floats F⦄ where
  -- The level in the list is given its new price, and stays in its place.
  unfoldable pub reprice : GridLevel F → ℤ → ℤ → ℤ → Option (GridLevel F)
  reprice l price nominal ref = and_then (quotient nominal price) (λ quantity.
      and_then (quotient (abs (price -ℤ ref)) ref) (λ offset. some (record l {
        price = price;
        nominal = nominal;
        quantity = quantity;
        offset_percent = fl.to_float (ctx.mul offset hundred);
        is_market = false;
      })))

  -- The loop of `recalculate` over the prices from number `i` on, beside the levels from that number
  -- on.
  unfoldable pub reprice_from :
      (ℕ → ℤ) → ℕ → OrderSide → ℤ → List ℤ → List (GridLevel F) → Option (List (GridLevel F))
  reprice_from nominal_at i side ref [] ls = some ls
  reprice_from nominal_at i side ref (p ∷ ps) [] =
      let rest = reprice_from nominal_at (i + 1) side ref ps [] in
      and_then (make_level i side p (nominal_at i) ref) (λ l. and_then rest (λ ls. some (l ∷ ls)))
  reprice_from nominal_at i side ref (p ∷ ps) (l ∷ ls) =
      let rest = reprice_from nominal_at (i + 1) side ref ps ls in
      if is_filled l.status
      then and_then rest (λ ls'. some (l ∷ ls'))
      else and_then (reprice l p (nominal_at i) ref) (λ l'. and_then rest (λ ls'. some (l' ∷ ls')))

-- `last or reference`
last_or : Option ℤ → ℤ → ℤ
last_or none ref = ref
last_or (some p) ref = if eq_ℤ p (pos 0) then ref else p

module _ {F : Type 0} where
  abbrev pub moved_to : GridState F → ℤ → ℤ → List (GridLevel F) → GridState F
  moved_to s ref average levels =
      refresh_active (record s { levels = levels; reference_price = ref; average_price = average })

module _ {F G : Type 0} ⦃ctx : Context⦄ ⦃fl : Floats F⦄ where
  unfoldable pub evaluate_pullup : DcaGridConfig F G → GridState F → ℤ → ℤ → Bool
  unfolding first_level
  evaluate_pullup c s ref current = against (first_level s.levels)
    where
      threshold : ℤ
      threshold = ctx.mul ref (share_of c.pull_up_percent)

      far : Direction → ℤ → Bool
      far long price = leb_ℤ (price +ℤ threshold) current
      far short price = leb_ℤ current (price -ℤ threshold)

      against : Option (GridLevel F) → Bool
      against none = false
      against (some l) =
          if l.is_market || fl.same c.first_order_offset_percent fl.zero_float
          then false
          else far s.direction l.price

  unfoldable pub signal_offset_ok : DcaGridConfig F G → GridState F → ℤ → Bool
  unfolding last_or
  signal_offset_ok c s current =
      let base = base_of c.signal_offset_type in
      if eq_ℤ base (pos 0) then false else reached s.direction base
    where
      base_of : SignalOffsetReference → ℤ
      base_of SignalOffsetReference.previous_order = last_or s.last_order_price s.reference_price
      base_of SignalOffsetReference.reference = s.reference_price

      reached : Direction → ℤ → Bool
      reached long base =
          leb_ℤ current (ctx.mul base (decimal_one -ℤ share_of c.signal_min_offset_percent))
      reached short base =
          leb_ℤ (ctx.mul base (decimal_one +ℤ share_of c.signal_min_offset_percent)) current

module _ {F G : Type 0} ⦃ctx : Context⦄ ⦃fl : Floats F⦄ ⦃powers : Powers⦄ where
  -- The inner option is the code's: no order.
  unfoldable pub signal_dca_order :
      DcaGridConfig F G → GridState F → Bool → ℤ → Option (Option (DcaOrder F))
  signal_dca_order c s false current = some none
  signal_dca_order c s true current =
      if signal_offset_ok c s current
      then (let nominal = nominal_of c s.base_nominal (length s.levels) in
          and_then (quotient nominal current) (λ quantity.
            and_then (quotient (abs (current -ℤ s.reference_price)) s.reference_price) (λ offset.
              some (
                some (record {
                  level_index = length s.levels;
                  side = entry_side s.direction;
                  price = none;
                  quantity = quantity;
                  nominal = nominal;
                  offset_percent = fl.to_float (ctx.mul offset hundred);
                  is_market = true;
                  timestamp = none;
                })))))
      else some none

  -- The dispatch on the mode.
  abbrev pub recalculate_by :
      TradingMode → DcaGridConfig F G → GridState F → ℤ → ℤ → ℤ → Option (GridState F)
  recalculate_by TradingMode.simple c s ref base average =
      and_then
        (reprice_from (nominal_of c base) 0 (entry_side s.direction) ref
          (simple_prices c ref s.direction) s.levels)
        (λ levels. some (moved_to s ref average levels))
  recalculate_by _ c s ref base average = some (moved_to s ref average s.levels)

  unfoldable pub recalculate : DcaGridConfig F G → GridState F → ℤ → ℤ → ℤ → Option (GridState F)
  recalculate c s ref base average = recalculate_by c.mode c s ref base average
