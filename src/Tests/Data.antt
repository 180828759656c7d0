-- ===== src/Tests/Data.antt =====
-- The data of the tests: a share, its orders, and a manager that has been restored from a
-- snapshot.
use veles_moex.Common.{true, false, none, some, [], ◌∷◌}
use veles_moex.Decimal.{pos}
use veles_moex.Dict
use veles_moex.Domain.{
  OrderSide, OrderType, OrderState, OrderStatus, ExecutionIntent, InternalOrder, Fill, BrokerOrder,
}
use veles_moex.Repository
use veles_moex.Orders.State.{OrderManager}
use veles_moex.Orders.Snapshot.{LiveStateSnapshot, load_snapshot}

abbrev pub buy_ten : ExecutionIntent
buy_ten = record {
  intent_id = "deal-1-grid-0";
  trade_id = "1";
  instrument_figi = "SBER";
  side = OrderSide.buy;
  order_type = OrderType.limit;
  quantity = pos 10;
  limit_price = some (pos 250);
  reason = "entry";
  account_id = none;
  created_at = 1;
  idempotency_key = "key-1";
  bot_id = some 7;
}

-- An order that the broker works on.
abbrev pub working_order : InternalOrder
working_order = record {
  order_id = "order-4";
  intent_id = "deal-1-grid-4";
  instrument_figi = "SBER";
  side = OrderSide.buy;
  order_type = OrderType.limit;
  requested_quantity = pos 10;
  limit_price = some (pos 250);
  idempotency_key = "key-4";
  account_id = none;
  broker_order_id = some "broker-4";
  filled_quantity = pos 0;
  average_fill_price = pos 0;
  status = OrderState.submitted;
  created_at = 1;
  updated_at = 1;
  reject_info = none;
  bot_id = some 7;
}

abbrev pub filled_order : InternalOrder
filled_order = record (working_order) {
  order_id = "order-9";
  intent_id = "deal-1-grid-9";
  idempotency_key = "key-9";
  status = OrderState.filled;
  filled_quantity = pos 10;
}

abbrev pub whole_fill : Fill
whole_fill = record {
  fill_id = "fill-1";
  internal_order_id = "order-4";
  quantity = pos 10;
  price = pos 249;
  fee = pos 1;
  broker_execution_id = none;
  timestamp = 3;
}

abbrev pub accepted : BrokerOrder
accepted = record {
  order_id = "broker-10";
  status = OrderStatus.submitted;
  account_id = none;
  instrument_figi = none;
  ticker = none;
  order_type = none;
  side = none;
  requested_quantity = pos 10;
  executed_quantity = pos 0;
  price = none;
  executed_average_price = none;
  executions = [];
  idempotency_key = none;
  currency = none;
  created_at = none;
  updated_at = none;
  reject_info = none;
}

abbrev pub new_manager : OrderManager
new_manager = record {
  intents = Dict.empty;
  orders = Repository.empty;
  fills = Dict.empty;
  positions = record { positions = Dict.empty; reconciled = false };
  order_seq = 0;
  listening = true;
  notified = [];
  sent = [];
  cancels = [];
  now = 5;
}

abbrev pub saved : LiveStateSnapshot
saved = record {
  intents = [];
  orders = working_order ∷ filled_order ∷ [];
  fills = [];
  positions = [];
}

abbrev pub restored : OrderManager
restored = load_snapshot saved new_manager
