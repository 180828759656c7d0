-- ===== src/Orders/Submit.antt =====
-- Submission: `create_intent`, `submit` and its helpers in backend/app/trading/order_manager.py.
-- `submit` waits for the broker once. What other tasks do to the manager meanwhile is the
-- argument `meanwhile`, and what the broker answers is a `Reply`.
use veles_moex.Common.{◌+◌, String, Option, none, some, [], ◌∷◌, ◌++◌, truthy, strip, if◌then◌else◌}
use veles_moex.Dict
use veles_moex.Decimal.{pos, leb_ℤ}
use veles_moex.Domain.{
  ExecutionIntent, InternalOrder, OrderState, OrderStatus, BrokerOrder, BrokerOrderRequest,
}
use veles_moex.Repository
use veles_moex.Orders.State.{
  OrderManager, ok, Action, pure, ◌>>=◌, put_order, save_order, transition, order_name,
}

-- How `place_order` ends: with an exception, with `None`, or with an order.
pub data Reply : Type 0 where
  failed nothing : Reply
  answered : BrokerOrder → Reply

unfoldable pub create_intent : ExecutionIntent → OrderManager → OrderManager
create_intent i m = record m { intents = Dict.put m.intents i.intent_id i }

-- `_BROKER_STATUS_MAP.get(status)`
abbrev pub mapped : OrderStatus → Option OrderState
mapped OrderStatus.new = some OrderState.submitted
mapped OrderStatus.submitted = some OrderState.submitted
mapped OrderStatus.partially_filled = some OrderState.partially_filled
mapped OrderStatus.filled = some OrderState.filled
mapped OrderStatus.cancelled = some OrderState.cancelled
mapped OrderStatus.rejected = some OrderState.rejected
mapped OrderStatus.expired = some OrderState.cancelled
mapped OrderStatus.error = some OrderState.failed
mapped OrderStatus.unknown = none

-- A key that the intent brings is kept, without the spaces round it; an absent one is the fresh
-- `uuid`.
abbrev pub ensure_idempotency : String → ExecutionIntent → String
ensure_idempotency uuid i =
    if truthy (strip i.idempotency_key) then strip i.idempotency_key else uuid

pub by_key : ExecutionIntent → OrderManager → Option InternalOrder
by_key i m =
    if truthy i.idempotency_key
    then Repository.get_by_idempotency m.orders i.idempotency_key
    else none

pub first_of_two : Option InternalOrder → Option InternalOrder → Option InternalOrder
first_of_two none o = o
first_of_two (some o) _ = some o

unfoldable pub find_duplicate : ExecutionIntent → OrderManager → Option InternalOrder
unfolding by_key first_of_two
find_duplicate i m = first_of_two (Repository.get_by_intent m.orders i.intent_id) (by_key i m)

-- The order that `_new_order` and `_reject` build from an intent, under the next number.
abbrev pub order_from : String → ExecutionIntent → OrderManager → InternalOrder
order_from uuid i m = record {
  order_id = order_name (m.order_seq + 1);
  intent_id = i.intent_id;
  instrument_figi = i.instrument_figi;
  side = i.side;
  order_type = i.order_type;
  requested_quantity = i.quantity;
  limit_price = i.limit_price;
  idempotency_key = ensure_idempotency uuid i;
  account_id = i.account_id;
  broker_order_id = none;
  filled_quantity = pos 0;
  average_fill_price = pos 0;
  status = OrderState.created;
  created_at = m.now;
  updated_at = m.now;
  reject_info = none;
  bot_id = i.bot_id;
}

abbrev pub count_order : OrderManager → OrderManager
count_order m = record m { order_seq = m.order_seq + 1 }

unfoldable pub reject : String → ExecutionIntent → String → Action InternalOrder
reject uuid i reason m =
    let o = record (order_from uuid i m) {
      status = OrderState.rejected;
      reject_info = some reason;
    } in
    (ok o, save_order o (count_order m))

abbrev pub build_request : InternalOrder → BrokerOrderRequest
build_request o = record {
  instrument_figi = o.instrument_figi;
  side = o.side;
  quantity = o.requested_quantity;
  order_type = o.order_type;
  price = o.limit_price;
  account_id = o.account_id;
  idempotency_key = o.idempotency_key;
}

pub set_reject_info : Option String → InternalOrder → Action InternalOrder
set_reject_info info o m = let o' = record o { reject_info = info } in (ok o', put_order o' m)

pub adopt : Option OrderState → InternalOrder → Action InternalOrder
adopt none o = transition o OrderState.unknown
adopt (some target) o = transition o target

pub by_status : OrderStatus → BrokerOrder → InternalOrder → Action InternalOrder
unfolding set_reject_info adopt
by_status OrderStatus.rejected b o =
    transition o OrderState.rejected >>= set_reject_info b.reject_info
by_status OrderStatus.error b o = transition o OrderState.failed >>= set_reject_info b.reject_info
by_status status b o = adopt (mapped status) o

unfoldable pub apply_broker_status : InternalOrder → BrokerOrder → Action InternalOrder
unfolding by_status
apply_broker_status o b = by_status b.status b o

-- The order object as it is now: other tasks may have set its fields during a wait.
pub current : Option InternalOrder → InternalOrder → InternalOrder
current none o = o
current (some o') o = o'

unfoldable pub after_wait : InternalOrder → OrderManager → InternalOrder
unfolding current
after_wait o m = current (Repository.get m.orders o.order_id) o

pub finish : Reply → InternalOrder → Action InternalOrder
finish failed o m = transition o OrderState.unknown m
finish nothing o m = transition o OrderState.unknown m
finish (answered b) o m =
    let o' = record o { broker_order_id = some b.order_id } in
    apply_broker_status o' b (save_order o' m)

unfoldable pub place : InternalOrder → (OrderManager → OrderManager) → Reply → Action InternalOrder
unfolding finish
place o meanwhile reply m =
    let m' = meanwhile (record m { sent = m.sent ++ build_request o ∷ [] }) in
    finish reply (after_wait o m') m'

-- The part of `submit` for an intent that is no duplicate.
pub fresh : String → ExecutionIntent → (OrderManager → OrderManager) → Reply → Action InternalOrder
fresh uuid i meanwhile reply m =
    if leb_ℤ i.quantity (pos 0)
    then reject uuid i "quantity must be positive" m
    else (let o = order_from uuid i m in
        (transition o OrderState.submitted >>= λ o'. place o' meanwhile reply)
          (save_order o (count_order m)))

pub submit_unless :
    Option InternalOrder
    → String
    → ExecutionIntent
    → (OrderManager → OrderManager)
    → Reply
    → Action InternalOrder
unfolding fresh
submit_unless (some o) uuid i meanwhile reply = pure o
submit_unless none uuid i meanwhile reply = fresh uuid i meanwhile reply

unfoldable pub submit :
    String → ExecutionIntent → (OrderManager → OrderManager) → Reply → Action InternalOrder
unfolding submit_unless
submit uuid i meanwhile reply m = submit_unless (find_duplicate i m) uuid i meanwhile reply m
