-- ===== src/Dealing/Opening.antt =====
-- The entry: `open_deal` of backend/app/trading/deal_manager.py.
use veles_moex.Common.{
  ℕ, ◌==◌, String, str, Bool, true, false, not, ◌||◌, ◌&&◌, Option, none, some, List, [], ◌∷◌,
  is_some, member, if◌then◌else◌,
}
use veles_moex.Dict
use veles_moex.Decimal.{ℤ, pos, leb_ℤ, Context}
use veles_moex.Domain.{Direction}
use veles_moex.Strategies.{Floats}
use veles_moex.Deals.Ticks.{align_grid_price}
use veles_moex.Deals.Store.{Deal, DealLevel, DealStatus, DealLevelStatus}
use veles_moex.Dealing.{
  DealManager, Surroundings, Scene, Ran, returned, raised, Act, ◌then_do◌, tick_size_invalid,
  lot_size_unavailable, deal_blocked, sizing_below_lot, grid_not_built, python_error,
}
use veles_moex.Dealing.Failures.{save, fail_deal, fail_entry}
use veles_moex.Strategies.{
  DcaGridConfig, ExitConfig, TpConfig, StopLossConfig, Powers, fixed_percentage, multi_take, signal,
  trailing,
}
use veles_moex.Grid
use veles_moex.Grid.{GridLevel, GridState}
use veles_moex.Grid.Build.{build}
use veles_moex.Dealing.TakeProfit.{round_down_lots}
use veles_moex.Dealing.Levels.{submit_ready_levels}

-- The arguments of `open_deal`, with the two parts of the strategy's configuration that it reads.
pub record Entry (F G : Type 0) : Type 0 where
  pub bot_id : ℕ
  pub instrument_figi : String
  pub direction : Direction
  pub dca_grid : DcaGridConfig F G
  pub exit : ExitConfig F G
  pub reference_price : ℤ
  pub deposit : Option ℤ
  pub base_nominal : ℤ
  pub account_id : Option String
  pub lot_size : Option ℕ
  pub tick_size : Option ℤ

abbrev pub level_status : Grid.LevelStatus → DealLevelStatus
level_status Grid.LevelStatus.active = DealLevelStatus.active
level_status _ = DealLevelStatus.waiting

unfoldable pub has_tick : Option ℤ → Bool
has_tick none = false
has_tick (some tick) = not (leb_ℤ tick (pos 0))

module _ {F G : Type 0} where
  -- `config.exit.take_profit.percent`, which the other kinds do not have.
  unfoldable pub tp_percent_of : TpConfig F G → Option F
  tp_percent_of (fixed_percentage p) = some p
  tp_percent_of (multi_take _) = none
  tp_percent_of (signal _) = none
  tp_percent_of (trailing _) = none

module _ {F : Type 0} where
  unfoldable pub any_limit : List (GridLevel F) → Bool
  any_limit [] = false
  any_limit (l ∷ ls) = let rest = any_limit ls in if l.is_market then rest else true

  unfoldable pub deal_level : GridLevel F → ℤ → Option ℤ → DealLevel F
  deal_level l quantity price = record {
    index = l.index;
    side = l.side;
    price = price;
    nominal = l.nominal;
    quantity = quantity;
    offset_percent = l.offset_percent;
    status = level_status l.status;
    is_market = l.is_market;
    filled_quantity = pos 0;
    intent_id = none;
    order_id = none;
    broker_order_id = none;
  }

  unfoldable pub put_first : DealLevel F → Ran (List (DealLevel F)) → Ran (List (DealLevel F))
  put_first l (returned ls) = returned (l ∷ ls)
  put_first l (raised e) = raised e

module _ {F : Type 0} ⦃ctx : Context⦄ where
  unfoldable pub at_price :
      GridLevel F → ℤ → Option ℤ → Ran (List (DealLevel F)) → Ran (List (DealLevel F))
  unfolding put_first deal_level
  at_price l quantity none rest = raised tick_size_invalid
  at_price l quantity (some price) rest = put_first (deal_level l quantity (some price)) rest

  unfoldable pub sized_level :
      GridLevel F
      → Option ℤ
      → Option ℤ
      → Direction
      → Ran (List (DealLevel F))
      → Ran (List (DealLevel F))
  unfolding at_price
  sized_level l none tick d rest = raised lot_size_unavailable
  sized_level l (some quantity) tick d rest =
      if leb_ℤ quantity (pos 0)
      then raised sizing_below_lot
      else if l.is_market
      then put_first (deal_level l quantity none) rest
      else at_price l quantity (align_grid_price l.price tick d) rest

  -- The loop over the levels of the grid: whole lots and tick-aligned prices.
  unfoldable pub plan_levels :
      Option ℕ → Option ℤ → Direction → List (GridLevel F) → Ran (List (DealLevel F))
  unfolding sized_level
  plan_levels lot tick d [] = returned []
  plan_levels lot tick d (l ∷ ls) =
      let rest = plan_levels lot tick d ls in
      sized_level l (round_down_lots l.quantity lot) tick d rest

  unfoldable pub checked_levels :
      Option ℕ → Option ℤ → Direction → List (GridLevel F) → Ran (List (DealLevel F))
  unfolding has_tick
  checked_levels lot tick d ls =
      if any_limit ls && not (has_tick tick)
      then raised tick_size_invalid
      else plan_levels lot tick d ls

module _ {F : Type 0} ⦃fl : Floats F⦄ where
  last_offset : F → List (DealLevel F) → F
  last_offset x [] = x
  last_offset x (l ∷ ls) = last_offset l.offset_percent ls

  -- `Decimal(str(levels[-1].offset_percent - levels[0].offset_percent))`
  unfoldable pub grid_offset : List (DealLevel F) → ℤ
  unfolding last_offset
  grid_offset [] = pos 0
  grid_offset (l ∷ ls) = fl.of_float (fl.sub (last_offset l.offset_percent ls) l.offset_percent)

  unfoldable pub with_stop : Option (StopLossConfig F) → Deal F → Deal F
  with_stop none d = d
  with_stop (some sl) d = record d {
    sl_percent = some sl.percent;
    stop_bot_after = sl.stop_bot_after;
    sl_offset = grid_offset d.levels;
  }

module _ {F G : Type 0} where
  -- The deal without a stop.
  unfoldable pub bare_deal : Entry F G → F → Option ℕ → List (DealLevel F) → ℕ → Deal F
  bare_deal e tp limit levels now = record {
    id = none;
    bot_id = some e.bot_id;
    instrument_figi = e.instrument_figi;
    direction = e.direction;
    status = DealStatus.opening;
    deposit = e.deposit;
    base_nominal = e.base_nominal;
    reference_price = e.reference_price;
    lot_size = e.lot_size;
    tick_size = e.tick_size;
    tp_percent = tp;
    active_limit = limit;
    account_id = e.account_id;
    levels = levels;
    average_price = pos 0;
    tp_rev = 0;
    tp_price = none;
    tp_quantity = none;
    tp_intent_id = none;
    tp_order_id = none;
    tp_broker_order_id = none;
    sl_percent = none;
    sl_offset = pos 0;
    p0_price = none;
    sl_rev = 0;
    sl_order_id = none;
    sl_quantity = none;
    sl_price = none;
    close_reason = none;
    stop_bot_after = none;
    created_at = now;
    updated_at = now;
    closed_at = none;
  }

module _ {F G : Type 0} ⦃fl : Floats F⦄ where
  unfoldable pub new_deal : Entry F G → F → Option ℕ → List (DealLevel F) → ℕ → Deal F
  unfolding with_stop
  new_deal e tp limit levels now = with_stop e.exit.stop_loss (bare_deal e tp limit levels now)

module _ {F G : Type 0} ⦃ctx : Context⦄ ⦃fl : Floats F⦄ ⦃powers : Powers⦄ where
  unfoldable pub with_percent :
      Entry F G → Option F → Option ℕ → ℕ → List (DealLevel F) → Ran (Deal F)
  with_percent e none limit now levels = raised python_error
  with_percent e (some tp) limit now levels = returned (new_deal e tp limit levels now)

  unfoldable pub with_levels : Entry F G → Option ℕ → ℕ → Ran (List (DealLevel F)) → Ran (Deal F)
  unfolding with_percent
  with_levels e limit now (raised f) = raised f
  with_levels e limit now (returned levels) =
      with_percent e (tp_percent_of e.exit.take_profit) limit now levels

  unfoldable pub with_grid : Entry F G → ℕ → Option (GridState F) → Ran (Deal F)
  unfolding with_levels
  with_grid e now none = raised grid_not_built
  with_grid e now (some grid) =
      with_levels e grid.active_limit now
        (checked_levels e.lot_size e.tick_size e.direction grid.levels)

  -- The deal that an entry is to be, before anything is saved or sent.
  unfoldable pub plan_deal : Entry F G → ℕ → Ran (Deal F)
  unfolding with_grid
  plan_deal e now = with_grid e now (build e.dca_grid e.reference_price e.direction e.base_nominal)

module _ {F : Type 0} ⦃env : Surroundings F⦄ where
  -- Saved, sent, saved again: a crash between leaves no order without a deal.
  unfoldable pub start_deal : Act F (Unit {0})
  start_deal = save then_do λ _. submit_ready_levels then_do λ _. save

  -- The deal is registered, or it fails and the exception goes on.
  unfoldable pub conclude_entry : ℕ → Ran (Unit {0}) × Scene F → Ran (Deal F) × DealManager F
  conclude_entry bot (returned _, s) =
      let w = s.manager in (returned s.deal, record w { deals = Dict.put w.deals (str bot) s.deal })
  conclude_entry bot (raised e, s) = (raised e, (fail_deal (some bot) e s).manager)

  -- An entry that may begin.
  unfoldable pub enter : ℕ → Ran (Deal F) → DealManager F → Ran (Deal F) × DealManager F
  enter bot (raised e) w = (raised e, fail_entry bot e w)
  enter bot (returned d) w = conclude_entry bot (start_deal (record { manager = w; deal = d }))

  -- Whether the bot may open a deal.
  abbrev pub refused_entry : ℕ → DealManager F → Bool
  refused_entry bot w = member ◌==◌ bot w.blocked || is_some (Dict.get w.deals (str bot))

module _ {F G : Type 0} ⦃ctx : Context⦄ ⦃fl : Floats F⦄ ⦃powers : Powers⦄
    ⦃env : Surroundings F⦄ where
  unfoldable pub open_deal : Entry F G → DealManager F → Ran (Deal F) × DealManager F
  open_deal e w =
      if refused_entry e.bot_id w
      then (raised deal_blocked, w)
      else enter e.bot_id (plan_deal e w.orders.now) w
