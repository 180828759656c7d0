-- ===== src/Tests/Grids.antt =====
-- A grid of three levels, of which two may be active.
use veles_moex.Common.{ℕ, ◌≡◌, false, none, some, [], ◌∷◌, map}
use veles_moex.Decimal.{pos}
use veles_moex.Domain.{OrderSide, long}
use veles_moex.Grid.{GridLevel, GridState, LevelStatus}
use veles_moex.Strategies.{TradingMode}
use veles_moex.Grid.{on_fill}
use veles_moex.Grid.Filling.{entries, fill_entry, on_fill_refines}

abbrev grid_level : ℕ → LevelStatus → GridLevel ℕ
grid_level n status = record {
  index = n;
  side = OrderSide.buy;
  price = pos 240;
  nominal = pos 2400;
  quantity = pos 10;
  offset_percent = n;
  status = status;
  is_market = false;
  filled_quantity = pos 0;
}

abbrev grid : GridState ℕ
grid = record {
  mode = TradingMode.simple;
  direction = long;
  reference_price = pos 250;
  base_nominal = pos 2400;
  levels =
      grid_level 0 LevelStatus.active
      ∷ grid_level 1 LevelStatus.active
      ∷ grid_level 2 LevelStatus.waiting
      ∷ [];
  active_limit = some 2;
  filled_indexes = [];
  average_price = pos 0;
  last_order_price = none;
}

on_fill_refines_example : entries (on_fill grid 0).levels ≡ map (fill_entry 0) (entries grid.levels)
on_fill_refines_example = on_fill_refines grid 0
