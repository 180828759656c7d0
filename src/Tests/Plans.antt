-- ===== src/Tests/Plans.antt =====
-- Whole numbers for floats, and a grid that is built, sized and priced again with them.
use veles_moex.Common.{
  ℕ, zero, suc, ◌+◌, ◌-◌, strip, ◌/◌, ◌^◌, ltb, ◌==◌, ◌≡◌, ◌≢◌, refl, arith, Bool, true, false,
  none, some, [], ◌∷◌,
}
use veles_moex.Decimal.{ℤ, pos, pos_part, ◌+ℤ◌, ◌-ℤ◌, neg}
use veles_moex.Decimal.Exact.{whole, whole-IsExact, cut_off, times}
use veles_moex.Domain.{OrderSide, long}
use veles_moex.Strategies.{
  Floats, Powers, TradingMode, SignalOffsetReference, BreakEvenReference, BreakEvenConfig,
  DcaGridConfig, GridOrder, ExitMode, multiplier, MultiTakeTp, TpConfig, ExitConfig,
}
use veles_moex.Grid.{
  GridState, GridLevel, LevelStatus, on_fill, filled_levels, refresh_active, unfilled,
}
use veles_moex.Grid.Active.{ShowsActive}
use veles_moex.Grid.Build.{
  build, build_simple, make_levels, make_level, assign_active, nominal_of, and_then,
}
use veles_moex.Grid.Prices.{simple_prices, spread_prices, price_at, walk, gaps_from, sum_from}
use veles_moex.Grid.Average.{recalculate, reprice_from, reprice}
use veles_moex.Grid.Life.{built, filled, recalculated, Life-ShowsActive, recalculate_keeps_filled}
use veles_moex.Grid.Sizing.{
  sized, deposit_to_base_nominal, power_sum, round_grid_to_lot, round_levels, whole_lots, of_lots,
  put_before,
}
use veles_moex.Grid.Amounts.{nominals, grid_spends_deposit}
use veles_moex.Grid.Lots.{Lowered, round_grid_to_lot-Lowered}
use veles_moex.Exits.Decisions.{ExitType, ExitExecution, ExitDecision, ExitState}

pub power_of : ℤ → ℕ → ℤ
power_of a zero = pos 1
power_of a (suc n) = times (power_of a n) a

abbrev pub whole_floats : Floats ℕ
whole_floats = record {
  of_float = pos;
  to_float = pos_part;
  zero_float = 0;
  one_float = 1;
  add = ◌+◌;
  sub = ◌-◌;
  pow = ◌^◌;
  less = ltb;
  same = ◌==◌;
}

abbrev pub whole_powers : Powers
whole_powers = record { power = power_of }

-- Three levels, each with twice the nominal of the one before.
abbrev pub doubling : DcaGridConfig ℕ ℕ
doubling = record {
  mode = TradingMode.simple;
  levels = 3;
  overlap_percent = 0;
  spacing_percent = 0;
  martingale_percent = 100;
  logarithmic_factor = 1;
  first_order_offset_percent = 0;
  pull_up_percent = 0;
  active_limit = some 2;
  custom_levels = [];
  signal_groups = [];
  signal_offset_type = SignalOffsetReference.reference;
  signal_min_offset_percent = 0;
}

abbrev doubled_level : ℕ → ℕ → ℕ → LevelStatus → Bool → ℕ → GridLevel ℕ
doubled_level n price nominal status market done = record {
  index = n;
  side = OrderSide.buy;
  price = pos price;
  nominal = pos nominal;
  quantity = pos (nominal / price);
  offset_percent = 0;
  status = status;
  is_market = market;
  filled_quantity = pos done;
}

abbrev doubled : GridState ℕ
doubled = record {
  mode = TradingMode.simple;
  direction = long;
  reference_price = pos 10;
  base_nominal = pos 100;
  levels =
      doubled_level 0 10 100 LevelStatus.active true 0
      ∷ doubled_level 1 10 200 LevelStatus.active false 0
      ∷ doubled_level 2 10 400 LevelStatus.waiting false 0
      ∷ [];
  active_limit = some 2;
  filled_indexes = [];
  average_price = pos 0;
  last_order_price = none;
}

abbrev moved_grid : GridState ℕ
moved_grid = record {
  mode = TradingMode.simple;
  direction = long;
  reference_price = pos 20;
  base_nominal = pos 100;
  levels =
      doubled_level 0 10 100 LevelStatus.filled true 10
      ∷ doubled_level 1 20 200 LevelStatus.active false 0
      ∷ doubled_level 2 20 400 LevelStatus.active false 0
      ∷ [];
  active_limit = some 2;
  filled_indexes = 0 ∷ [];
  average_price = pos 10;
  last_order_price = none;
}

doubled_is_built :
    build ⦃ctx = whole⦄ ⦃fl = whole_floats⦄ ⦃powers = whole_powers⦄ doubling (pos 10) long (pos 100)
    ≡ some doubled
unfolding build build_simple make_levels make_level assign_active nominal_of and_then simple_prices
    spread_prices price_at walk gaps_from sum_from power_of multiplier ◌+ℤ◌ ◌-ℤ◌ times neg
doubled_is_built = refl

moved_after_fill :
    recalculate ⦃ctx = whole⦄ ⦃fl = whole_floats⦄ ⦃powers = whole_powers⦄ doubling
      (on_fill doubled 0)
      (pos 20)
      (pos 100)
      (pos 10)
    ≡ some moved_grid
unfolding recalculate reprice_from reprice make_level nominal_of and_then simple_prices
    spread_prices price_at walk gaps_from sum_from power_of multiplier ◌+ℤ◌ ◌-ℤ◌ times neg on_fill
    refresh_active unfilled
moved_after_fill = refl

some_active : doubling.active_limit ≢ some 0
some_active e = cc e

Life-ShowsActive_example : ShowsActive moved_grid
Life-ShowsActive_example =
    Life-ShowsActive ⦃ctx = whole⦄ ⦃fl = whole_floats⦄ ⦃powers = whole_powers⦄ doubling moved_grid
      some_active
      (recalculated (on_fill doubled 0) (pos 20) (pos 100) (pos 10) moved_grid moved_after_fill
        (filled doubled 0 (built (pos 10) long (pos 100) doubled doubled_is_built)))

recalculate_keeps_filled_example :
    filled_levels moved_grid.levels ≡ filled_levels (on_fill doubled 0).levels
recalculate_keeps_filled_example =
    recalculate_keeps_filled ⦃ctx = whole⦄ ⦃fl = whole_floats⦄ ⦃powers = whole_powers⦄ doubling
      (on_fill doubled 0) (pos 20) (pos 100) (pos 10) moved_grid moved_after_fill

shared_total :
    (let total =
        power_sum ⦃ctx = whole⦄ ⦃powers = whole_powers⦄
          (multiplier ⦃ctx = whole⦄ ⦃fl = whole_floats⦄ doubling)
          0
          3 in
      times (cut_off (pos 700) total) total ≡ pos 700)
unfolding power_sum power_of multiplier ◌+ℤ◌ times neg
shared_total = refl

shared_deposit :
    deposit_to_base_nominal ⦃ctx = whole⦄ ⦃fl = whole_floats⦄ ⦃powers = whole_powers⦄
      (pos 700)
      doubling
    ≡ sized (pos 100)
unfolding deposit_to_base_nominal power_sum power_of multiplier ◌+ℤ◌ times neg
shared_deposit = refl

grid_spends_deposit_example : nominals doubled.levels ≡ pos 700
grid_spends_deposit_example =
    grid_spends_deposit ⦃ctx = whole⦄ ⦃fl = whole_floats⦄ ⦃powers = whole_powers⦄ doubling (pos 10)
      long (pos 700) (pos 100) doubled whole-IsExact refl shared_total shared_deposit
      doubled_is_built

abbrev order_of : ℕ → GridOrder ℕ ℕ
order_of quantity = record {
  side = OrderSide.buy;
  quantity = quantity;
  price = some 10;
  offset_percent = 0;
  nominal = 100;
}

in_lots :
    round_grid_to_lot ⦃ctx = whole⦄ ⦃fl = whole_floats⦄
      (order_of 27 ∷ order_of 14 ∷ [])
      (some (pos 10))
      (some "rub")
    ≡ sized (order_of 20 ∷ order_of 10 ∷ [])
unfolding round_grid_to_lot round_levels whole_lots of_lots put_before times strip
in_lots = refl

round_grid_to_lot-Lowered_example :
    Lowered ⦃ctx = whole⦄ ⦃fl = whole_floats⦄ 10
      (order_of 27 ∷ order_of 14 ∷ [])
      (order_of 20 ∷ order_of 10 ∷ [])
round_grid_to_lot-Lowered_example =
    round_grid_to_lot-Lowered ⦃ctx = whole⦄ ⦃fl = whole_floats⦄ _ _ 10 (some "rub") (omega arith)
      in_lots

abbrev decision_of : ExitType → ExitDecision
decision_of kind = record {
  exit_type = kind;
  reason = "stop";
  execution = ExitExecution.market;
  quantity = pos 10;
  side = OrderSide.sell;
  trigger_price = some (pos 240);
  trigger_time = none;
  order_price = none;
  config_kind = "stop";
}

abbrev break_even_at_average : BreakEvenConfig ℕ
break_even_at_average = record {
  reference = BreakEvenReference.average_price;
  deviation_percent = 0;
}

abbrev two_takes : MultiTakeTp ℕ
two_takes = record {
  takes =
      record { offset_percent = 100; volume_percent = 50 }
      ∷ record { offset_percent = 200; volume_percent = 50 }
      ∷ [];
  breakeven = some break_even_at_average;
}

abbrev by_takes : ExitConfig ℕ ℕ
by_takes = record {
  take_profit = TpConfig.multi_take two_takes;
  stop_loss = none;
  signal_stop = none;
}

abbrev open_position : ExitState
open_position = record {
  mode = ExitMode.custom;
  direction = long;
  executed_takes = [];
  breakeven_active = false;
  breakeven_level = none;
  last_take_price = none;
  average_price = pos 100;
  remaining_quantity = pos 10;
}
