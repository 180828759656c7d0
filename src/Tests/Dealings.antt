-- ===== src/Tests/Dealings.antt =====
-- A deal of a bot: a long position of ten shares, a level that works and one that waits.
use veles_moex.Common.{ℕ, ◌≡◌, refl, true, false, none, some, List, [], ◌∷◌}
use veles_moex.Dict
use veles_moex.Decimal.{pos}
use veles_moex.Decimal.Exact.{whole}
use veles_moex.Domain.{OrderSide, long}
use veles_moex.Strategies.{TpConfig}
use veles_moex.Orders.Submit.{Reply}
use veles_moex.Deals.Store.{Deal, DealLevel, DealLevelStatus}
use veles_moex.Dealing.{DealManager, Surroundings, Scene, StopOrderStatus, raised, deal_blocked}
use veles_moex.Dealing.Levels.{promote_waiting_levels}
use veles_moex.Dealing.Promotion.{Finished, promote_waiting_levels-Finished}
use veles_moex.Dealing.Stops.{Uuids}
use veles_moex.Dealing.Opening.{Entry, open_deal}
use veles_moex.Dealing.Blocks.{KeepsBlock, one_deal_per_bot}
use veles_moex.Tests.Data.{restored, working_order, whole_fill, accepted}
use veles_moex.Tests.Guards.{portfolio, guard}
use veles_moex.Tests.DealStore.{first_deal, empty_store}
use veles_moex.Tests.Plans.{whole_floats, whole_powers, doubling}

abbrev two_levels : List (DealLevel ℕ)
two_levels =
    record {
      index = 0;
      side = OrderSide.buy;
      price = none;
      nominal = pos 2500;
      quantity = pos 10;
      offset_percent = 0;
      status = DealLevelStatus.active;
      is_market = true;
      filled_quantity = pos 0;
      intent_id = some "deal-1-grid-4";
      order_id = some "order-4";
      broker_order_id = some "broker-4";
    }
    ∷ record {
      index = 1;
      side = OrderSide.buy;
      price = some (pos 240);
      nominal = pos 2500;
      quantity = pos 10;
      offset_percent = 4;
      status = DealLevelStatus.waiting;
      is_market = false;
      filled_quantity = pos 0;
      intent_id = none;
      order_id = none;
      broker_order_id = none;
    }
    ∷ []

abbrev open_one : Deal ℕ
open_one = record (first_deal) { id = some 1; levels = two_levels; active_limit = some 2 }

abbrev dealer : DealManager ℕ
dealer = record {
  store = empty_store;
  orders = record (restored) { positions = portfolio };
  risk = guard;
  deals = Dict.empty;
  blocked = [];
  pending = (working_order, whole_fill) ∷ [];
  last_error = none;
  errors = Dict.empty;
  reports_errors = true;
  reports_stops = true;
  bot_errors = [];
  stop_losses = [];
  stops_placed = [];
  stop_cancels = [];
  waits = 0;
}

-- No other task does anything, and every call is answered.
abbrev quiet : Surroundings ℕ
quiet = record {
  moment = λ _. record {
    orders_meanwhile = λ m. m;
    meanwhile = λ w. w;
    returns = true;
    uuid = "key-10";
    reply = Reply.answered accepted;
    stop_orders = [];
    open_positions = [];
    placed = record { order_id = "stop-1"; status = StopOrderStatus.active };
  };
}

abbrev no_uuids : Uuids
no_uuids = record { uuid5 = λ t. t }

abbrev scene : Scene ℕ
scene = record { manager = dealer; deal = open_one }

promote_waiting_levels-Finished_example : Finished (promote_waiting_levels ⦃env = quiet⦄ scene)
promote_waiting_levels-Finished_example = promote_waiting_levels-Finished ⦃env = quiet⦄ scene

abbrev entry : Entry ℕ ℕ
entry = record {
  bot_id = 7;
  instrument_figi = "SBER";
  direction = long;
  dca_grid = doubling;
  exit = record {
    take_profit = TpConfig.fixed_percentage 10;
    stop_loss = none;
    signal_stop = none;
  };
  reference_price = pos 10;
  deposit = some (pos 700);
  base_nominal = pos 100;
  account_id = none;
  lot_size = some 10;
  tick_size = some (pos 1);
}

quiet_keeps : KeepsBlock quiet 7
quiet_keeps = record { kept = λ n w h. h }

one_deal_per_bot_example :
    open_deal ⦃ctx = whole⦄ ⦃fl = whole_floats⦄ ⦃powers = whole_powers⦄ ⦃env = quiet⦄ entry
      (open_deal ⦃ctx = whole⦄ ⦃fl = whole_floats⦄ ⦃powers = whole_powers⦄ ⦃env = quiet⦄ entry
        dealer).1
    ≡ (
      raised deal_blocked,
      (open_deal ⦃ctx = whole⦄ ⦃fl = whole_floats⦄ ⦃powers = whole_powers⦄ ⦃env = quiet⦄ entry
          dealer).1,
    )
one_deal_per_bot_example =
    one_deal_per_bot ⦃ctx = whole⦄ ⦃fl = whole_floats⦄ ⦃powers = whole_powers⦄ ⦃env = quiet⦄ entry
      entry dealer quiet_keeps refl
