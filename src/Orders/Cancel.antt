-- ===== src/Orders/Cancel.antt =====
-- `cancel` and `refresh` of backend/app/trading/order_manager.py. Each waits for the broker once;
-- what other tasks do meanwhile is an argument, as for `submit`.
use veles_moex.Common.{String, Bool, true, false, Option, none, some, [], ◌∷◌, ◌++◌, if◌then◌else◌}
use veles_moex.Domain.{InternalOrder, OrderState, BrokerOrder, is_terminal}
use veles_moex.Repository
use veles_moex.Orders.State.{
  OrderManager, Outcome, ok, err, key_error, Action, pure, raise, ◌>>=◌, transition,
}
use veles_moex.Orders.Submit.{after_wait, apply_broker_status}

-- The `try` block behind a `cancel_order` that returned: a raise in it is caught too.
pub confirm : InternalOrder → Action InternalOrder
confirm o = if is_terminal o.status then pure o else transition o OrderState.cancelled

pub rescue : Outcome InternalOrder → InternalOrder → Action InternalOrder
rescue (ok o') o = pure o'
rescue (err e) o = transition o OrderState.unknown

pub after_cancel : Bool → InternalOrder → Action InternalOrder
unfolding confirm rescue
after_cancel true o m = let (r, m') = confirm o m in rescue r o m'
after_cancel false o m = transition o OrderState.unknown m

pub at_broker :
    Option String → (OrderManager → OrderManager) → Bool → InternalOrder → Action InternalOrder
unfolding after_cancel
at_broker none meanwhile done o m = transition o OrderState.cancelled m
at_broker (some broker_id) meanwhile done o m =
    let m' = meanwhile (record m { cancels = m.cancels ++ (broker_id, o.account_id) ∷ [] }) in
    after_cancel done (after_wait o m') m'

pub cancel_found :
    Option InternalOrder → String → (OrderManager → OrderManager) → Bool → Action InternalOrder
unfolding at_broker
cancel_found none oid meanwhile done = raise (key_error oid)
cancel_found (some o) oid meanwhile done =
    if is_terminal o.status
    then pure o
    else (transition o OrderState.cancel_requested >>= λ o'.
        at_broker o'.broker_order_id meanwhile done o')

-- `done` says whether the broker's `cancel_order` returned or raised.
unfoldable pub cancel : String → (OrderManager → OrderManager) → Bool → Action InternalOrder
unfolding cancel_found
cancel oid meanwhile done m = cancel_found (Repository.get m.orders oid) oid meanwhile done m

pub refreshed : Option BrokerOrder → InternalOrder → Action InternalOrder
refreshed none o = transition o OrderState.unknown
refreshed (some b) o = apply_broker_status o b

pub asked :
    Option String
    → (OrderManager → OrderManager)
    → Option BrokerOrder
    → InternalOrder
    → Action InternalOrder
unfolding refreshed
asked none meanwhile reply o m = pure o m
asked (some broker_id) meanwhile reply o m =
    let m' = meanwhile m in refreshed reply (after_wait o m') m'

pub refresh_found :
    Option InternalOrder
    → String
    → (OrderManager → OrderManager)
    → Option BrokerOrder
    → Action InternalOrder
unfolding asked
refresh_found none oid meanwhile reply = raise (key_error oid)
refresh_found (some o) oid meanwhile reply = asked o.broker_order_id meanwhile reply o

-- `reply` is what `get_order` returned, `none` if it raised.
unfoldable pub refresh :
    String → (OrderManager → OrderManager) → Option BrokerOrder → Action InternalOrder
unfolding refresh_found
refresh oid meanwhile reply m = refresh_found (Repository.get m.orders oid) oid meanwhile reply m
