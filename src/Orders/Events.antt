-- ===== src/Orders/Events.antt =====
-- Broker events: `apply_fill`, `on_order_update`, `on_trade_fill`, `on_position_update`,
-- `record_fill` and `_resolve_order` of backend/app/trading/order_manager.py.
use veles_moex.Common.{
  String, Bool, true, false, not, ◌&&◌, Option, none, some, [], ◌∷◌, ◌++◌, truthy, if◌then◌else◌,
}
use veles_moex.Dict
use veles_moex.Decimal.{ℤ, pos, ◌+ℤ◌, ltb_ℤ, leb_ℤ, eq_ℤ, Context}
use veles_moex.Domain.{
  InternalOrder, Fill, OrderState, OrderUpdate, TradeFill, PositionUpdate, eq_state, is_terminal,
}
use veles_moex.Repository
use veles_moex.Position
use veles_moex.Orders.State.{
  OrderManager, ok, division_by_zero, Action, pure, raise, ◌>>=◌, modify, put_order, save_order,
  transition,
}

abbrev pub save_fill : Fill → OrderManager → OrderManager
save_fill f m = record m { fills = Dict.put m.fills f.fill_id f }

unfoldable pub record_fill : Fill → OrderManager → OrderManager
record_fill f m = if Dict.has m.fills f.fill_id then m else save_fill f m

-- `f(key) if key else None`
pub lookup_by : (String → Option InternalOrder) → Option String → Option InternalOrder
lookup_by f none = none
lookup_by f (some key) = if truthy key then f key else none

pub or_next : Option InternalOrder → Option InternalOrder → Option InternalOrder
or_next (some o) _ = some o
or_next none o = o

unfoldable pub resolve_order :
    Option String → Option String → Option String → OrderManager → Option InternalOrder
unfolding lookup_by or_next
resolve_order broker_id internal_id key m =
    or_next (lookup_by (Repository.get_by_broker m.orders) broker_id) (
      or_next (lookup_by (Repository.get_by_idempotency m.orders) key)
        (lookup_by (Repository.get m.orders) internal_id))

pub tell : Bool → InternalOrder → Fill → OrderManager → OrderManager
tell true o f m = record m { notified = m.notified ++ (o, f) ∷ [] }
tell false o f m = m

-- `if self._fill_listener is not None: self._fill_listener(order, fill)`
pub notify : InternalOrder → Fill → OrderManager → OrderManager
unfolding tell
notify o f m = tell m.listening o f m

module _ ⦃ctx : Context⦄ where
  -- The new average price of an order, or the error of a division by zero.
  unfoldable pub average_fill : InternalOrder → Fill → Option ℤ
  average_fill o f =
      let filled = o.filled_quantity +ℤ f.quantity in
      if eq_ℤ o.filled_quantity (pos 0) && ltb_ℤ (pos 0) f.quantity
      then some f.price
      else if eq_ℤ filled (pos 0)
      then none
      else some (
          ctx.div (ctx.mul o.average_fill_price o.filled_quantity +ℤ ctx.mul f.price f.quantity)
            filled)

  abbrev pub fill_target : InternalOrder → OrderState
  fill_target o =
      if leb_ℤ o.requested_quantity o.filled_quantity
      then OrderState.filled
      else OrderState.partially_filled

  pub move_position : InternalOrder → Fill → OrderManager → OrderManager
  move_position o f m = record m {
    positions =
        Position.apply_fill o.instrument_figi o.side f.quantity f.price f.fee (some f.timestamp)
          m.now m.positions;
  }

  -- The part of `apply_fill` behind the new average price.
  pub priced_fill : Option ℤ → InternalOrder → Fill → Action (Unit {0})
  unfolding notify move_position
  priced_fill none o f m = raise division_by_zero m
  priced_fill (some avg) o f m =
      let o' = record o { average_fill_price = avg; updated_at = f.timestamp } in
      ((if is_terminal o'.status then pure o' else transition o' (fill_target o')) >>= λ o''.
      modify (λ n. notify o'' f (move_position o'' f n)))
        (put_order o' m)

  pub fill_order : Option InternalOrder → Fill → Action (Unit {0})
  unfolding priced_fill
  fill_order none f m = pure tt m
  fill_order (some o) f m =
      let o' = record o { filled_quantity = o.filled_quantity +ℤ f.quantity } in
      priced_fill (average_fill o f) o' f (put_order o' m)

  unfoldable pub apply_fill : Fill → Action (Unit {0})
  unfolding fill_order
  apply_fill f m =
      if Dict.has m.fills f.fill_id
      then (ok tt, m)
      else (let m' = save_fill f m in
          fill_order (Repository.get m'.orders f.internal_order_id) f m')

  pub trade_fill : Option InternalOrder → TradeFill → Action (Unit {0})
  trade_fill none t = pure tt
  trade_fill (some o) t = apply_fill (record {
    fill_id = t.execution_id;
    internal_order_id = o.order_id;
    quantity = t.quantity;
    price = t.price;
    fee = t.fee;
    broker_execution_id = some t.execution_id;
    timestamp = t.timestamp;
  })

  unfoldable pub on_trade_fill : TradeFill → Action (Unit {0})
  unfolding trade_fill
  on_trade_fill t m =
      trade_fill (resolve_order (some t.broker_order_id) t.internal_order_id t.idempotency_key m) t
        m

  unfoldable pub on_position_update : PositionUpdate → OrderManager → OrderManager
  on_position_update u m = record m {
    positions = Position.apply_position_update u m.now m.positions;
  }

-- `update.broker_order_id and not order.broker_order_id`
abbrev pub lacks_broker_id : Option String → Bool
lacks_broker_id none = true
lacks_broker_id (some key) = not (truthy key)

pub adopt_broker_id : OrderUpdate → InternalOrder → Action InternalOrder
adopt_broker_id u o m =
    if truthy u.broker_order_id && lacks_broker_id o.broker_order_id
    then (let o' = record o { broker_order_id = some u.broker_order_id } in
        (ok o', save_order o' m))
    else (ok o, m)

abbrev given : {A : Type 0} → Option A → A → A
given none old = old
given (some a) old = a

abbrev given_text : Option String → Option String → Option String
given_text none old = old
given_text (some t) old = if truthy t then some t else old

pub set_facts : OrderUpdate → InternalOrder → Action (Unit {0})
set_facts u o m =
    let o' = record o {
      filled_quantity = given u.filled_quantity o.filled_quantity;
      average_fill_price = given u.average_fill_price o.average_fill_price;
      reject_info = given_text u.reject_info o.reject_info;
      updated_at = u.timestamp;
    } in
    (ok tt, put_order o' m)

pub order_update : Option InternalOrder → OrderUpdate → Action (Unit {0})
unfolding adopt_broker_id set_facts
order_update none u = pure tt
order_update (some o) u =
    adopt_broker_id u o
    >>= (λ o'. if not (eq_state u.status o'.status) then transition o' u.status else pure o')
    >>= set_facts u

unfoldable pub on_order_update : OrderUpdate → Action (Unit {0})
unfolding order_update
on_order_update u m =
    order_update (resolve_order (some u.broker_order_id) u.internal_order_id u.idempotency_key m) u
      m
