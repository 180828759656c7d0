-- ===== src/Grid/Build.antt =====
-- Building and rebuilding a grid: `DCAGridEngine.build` and `recalculate` of
-- backend/app/strategies/dca_grid.py. `none` is a raised exception: a division by zero, or custom
-- levels that are missing or not in order.
use veles_moex.Common.{
  ℕ, ◌+◌, ltb, Bool, true, false, Option, none, some, List, [], ◌∷◌, length, if◌then◌else◌,
}
use veles_moex.Decimal.{ℤ, pos, ◌-ℤ◌, abs, eq_ℤ, Context}
use veles_moex.Domain.{OrderSide, Direction}
use veles_moex.Strategies.{
  Floats, Powers, TradingMode, DcaGridConfig, CustomLevel, hundred, share_of, entry_side,
  multiplier,
}
use veles_moex.Grid.{GridLevel, GridState, LevelStatus, by_limit, limit_or}
use veles_moex.Grid.Prices.{simple_prices, custom_prices, first_order_price}

module _ {A B : Type 0} where
  unfoldable pub and_then : Option A → (A → Option B) → Option B
  and_then none f = none
  and_then (some a) f = f a

-- A `Decimal` division, which raises on a zero divisor.
abbrev pub quotient : ⦃ctx : Context⦄ → ℤ → ℤ → Option ℤ
quotient ⦃ctx⦄ a b = if eq_ℤ b (pos 0) then none else some (ctx.div a b)

module _ {F : Type 0} ⦃ctx : Context⦄ ⦃fl : Floats F⦄ where
  unfoldable pub make_level : ℕ → OrderSide → ℤ → ℤ → ℤ → Option (GridLevel F)
  make_level i side price nominal ref = and_then (quotient (abs (price -ℤ ref)) ref) (λ offset.
      and_then (quotient nominal price) (λ quantity. some (record {
        index = i;
        side = side;
        price = price;
        nominal = nominal;
        quantity = quantity;
        offset_percent = fl.to_float (ctx.mul offset hundred);
        status = LevelStatus.waiting;
        is_market = false;
        filled_quantity = pos 0;
      })))

  -- The levels from number `i` on, each with its nominal.
  unfoldable pub make_levels : (ℕ → ℤ) → ℕ → OrderSide → ℤ → List ℤ → Option (List (GridLevel F))
  make_levels nominal_at i side ref [] = some []
  make_levels nominal_at i side ref (p ∷ ps) =
      let rest = make_levels nominal_at (i + 1) side ref ps in
      and_then (make_level i side p (nominal_at i) ref) (λ l. and_then rest (λ ls. some (l ∷ ls)))

  -- The loop stops at the shorter of the prices and the custom levels.
  unfoldable pub make_custom_levels :
      ℤ → ℕ → OrderSide → ℤ → List ℤ → List (CustomLevel F) → Option (List (GridLevel F))
  make_custom_levels base i side ref [] cs = some []
  make_custom_levels base i side ref (p ∷ ps) [] = some []
  make_custom_levels base i side ref (p ∷ ps) (c ∷ cs) =
      let rest = make_custom_levels base (i + 1) side ref ps cs in
      and_then (make_level i side p (ctx.mul base (share_of c.nominal_percent)) ref)
        (λ l. and_then rest (λ ls. some (l ∷ ls)))

  sorted_from : F → List (CustomLevel F) → Bool
  sorted_from previous [] = true
  sorted_from previous (c ∷ cs) =
      let rest = sorted_from c.offset_percent cs in
      if fl.less c.offset_percent previous then false else rest

  -- `_validate_custom`: whether it returns.
  unfoldable pub validate_custom : List (CustomLevel F) → Bool
  unfolding sorted_from
  validate_custom [] = false
  validate_custom (c ∷ cs) = sorted_from c.offset_percent cs

module _ {F : Type 0} where
  abbrev pub open_to_market : Bool → List (GridLevel F) → List (GridLevel F)
  open_to_market offset_zero [] = []
  open_to_market false (l ∷ ls) = l ∷ ls
  open_to_market true (l ∷ ls) = record l { is_market = true; status = LevelStatus.active } ∷ ls

  unfoldable pub mark_by_index : ℕ → List (GridLevel F) → List (GridLevel F)
  mark_by_index active [] = []
  mark_by_index active (l ∷ ls) =
      record l { status = by_limit (ltb l.index active) } ∷ mark_by_index active ls

  unfoldable pub assign_active : GridState F → GridState F
  unfolding mark_by_index
  assign_active s = record s {
    levels = mark_by_index (limit_or s.active_limit (length s.levels)) s.levels;
  }

module _ {F G : Type 0} where
  -- The grid on fresh levels, before its levels are marked.
  abbrev pub unmarked :
      DcaGridConfig F G → TradingMode → ℤ → Direction → ℤ → List (GridLevel F) → GridState F
  unmarked c mode ref d base levels = record {
    mode = mode;
    direction = d;
    reference_price = ref;
    base_nominal = base;
    levels = levels;
    active_limit = c.active_limit;
    filled_indexes = [];
    average_price = pos 0;
    last_order_price = none;
  }

module _ {F G : Type 0} ⦃ctx : Context⦄ ⦃fl : Floats F⦄ where
  unfoldable pub build_custom : DcaGridConfig F G → ℤ → Direction → ℤ → Option (GridState F)
  unfolding assign_active
  build_custom c ref d base =
      if validate_custom c.custom_levels
      then and_then
          (make_custom_levels base 0 (entry_side d) ref (custom_prices c ref d) c.custom_levels)
          (λ levels. some (assign_active (unmarked c TradingMode.custom ref d base levels)))
      else none

  -- The price is `None` for a market order; a zero price is passed over in the quotient.
  unfoldable pub build_signal : DcaGridConfig F G → ℤ → Direction → ℤ → Option (GridState F)
  build_signal c ref d base =
      let is_market = fl.same c.first_order_offset_percent fl.zero_float in
      let price = if is_market then ref else first_order_price ref c.first_order_offset_percent d in
      and_then (quotient base (if eq_ℤ price (pos 0) then ref else price)) (λ quantity.
        some
          (record (unmarked c TradingMode.signal ref d base (
            record {
              index = 0;
              side = entry_side d;
              price = price;
              nominal = base;
              quantity = quantity;
              offset_percent = c.first_order_offset_percent;
              status = LevelStatus.active;
              is_market = is_market;
              filled_quantity = pos 0;
            }
            ∷ [])) { last_order_price = some ref }))

module _ {F G : Type 0} ⦃ctx : Context⦄ ⦃fl : Floats F⦄ ⦃powers : Powers⦄ where
  -- The nominal of a level of a SIMPLE grid.
  unfoldable pub nominal_of : DcaGridConfig F G → ℤ → ℕ → ℤ
  nominal_of c base i = ctx.mul base (powers.power (multiplier c) i)

  unfoldable pub build_simple : DcaGridConfig F G → ℤ → Direction → ℤ → Option (GridState F)
  unfolding assign_active
  build_simple c ref d base =
      and_then (make_levels (nominal_of c base) 0 (entry_side d) ref (simple_prices c ref d))
        (λ levels. some (
          assign_active (
            unmarked c TradingMode.simple ref d base
              (open_to_market (fl.same c.first_order_offset_percent fl.zero_float) levels))))

  -- The dispatch on the mode.
  abbrev pub build_by : TradingMode → DcaGridConfig F G → ℤ → Direction → ℤ → Option (GridState F)
  build_by TradingMode.simple c ref d base = build_simple c ref d base
  build_by TradingMode.custom c ref d base = build_custom c ref d base
  build_by TradingMode.signal c ref d base = build_signal c ref d base

  unfoldable pub build : DcaGridConfig F G → ℤ → Direction → ℤ → Option (GridState F)
  build c ref d base = build_by c.mode c ref d base
