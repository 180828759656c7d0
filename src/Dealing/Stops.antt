-- ===== src/Dealing/Stops.antt =====
-- The stop of a deal: `_rearm_stop`, `_stop_intent`, `_on_stop_executed` and `_grid_assembled` of
-- backend/app/trading/deal_manager.py.
use veles_moex.Common.{
  ℕ, ◌+◌, String, str, str_eq, ◌+++◌, Bool, true, false, not, Option, none, some, List, [], ◌∷◌,
  ◌++◌, is_some, if◌then◌else◌,
}
use veles_moex.Decimal.{ℤ, pos, eq_ℤ, leb_ℤ, abs, Context}
use veles_moex.Domain.{ExecutionIntent, OrderType, PositionUpdate}
use veles_moex.Strategies.{Floats, exit_side}
use veles_moex.Exits.Prices.{simple_stop_level}
use veles_moex.Position
use veles_moex.Position.{Position, sign_matches}
use veles_moex.Deals.Ticks.{align_stop_price}
use veles_moex.Deals.Store.{Deal, DealLevel, DealLevelStatus}
use veles_moex.Dealing.{
  DealFailure, Surroundings, Scene, Ran, returned, raised, Act, fail_with, ◌then_do◌, change_deal,
  later, now_moment, gate, position_of, id_text, StopOrderStatus, BrokerStopOrder,
  BrokerStopOrderRequest, BrokerPosition, reconciliation_required, stop_was_executed, broker_raised,
  position_contradiction, tick_size_invalid, lot_size_unavailable,
}
use veles_moex.Dealing.Closing.{
  close_deal, is_over, confirm_stop_cancelled, open_positions_of, quantity_in,
}
use veles_moex.Dealing.TakeProfit.{round_down_lots, by_verdict}

-- `str(uuid.uuid5(uuid.NAMESPACE_URL, text))`.
pub record Uuids : Type 0 where
  pub uuid5 : String → String

-- The stop that protects a position, before the risk manager is asked.
pub data StopPlan : Type 0 where
  refuse : DealFailure → StopPlan
  protect_with : ℤ → ℤ → StopPlan

stop_priced : ℤ → Option ℤ → StopPlan
stop_priced quantity none = refuse tick_size_invalid
stop_priced quantity (some price) =
    if leb_ℤ price (pos 0) then refuse reconciliation_required else protect_with quantity price

whole_quantity : Option ℤ → (ℤ → StopPlan) → StopPlan
whole_quantity none next = refuse lot_size_unavailable
whole_quantity (some quantity) next =
    if leb_ℤ quantity (pos 0) then refuse reconciliation_required else next quantity

unfoldable pub stop_idempotency_key : ⦃ids : Uuids⦄ → Option ℕ → ℕ → String
stop_idempotency_key ⦃ids⦄ id rev =
    ids.uuid5 ("veles-deal-" +++ id_text id +++ "-stop-" +++ str rev)

flat_update : String → Option ℤ → ℕ → PositionUpdate
flat_update figi price now = record {
  instrument_figi = figi;
  quantity = pos 0;
  average_price = none;
  current_price = price;
  unrealized_pnl = none;
  timestamp = now;
}

price_in : String → List BrokerPosition → Option ℤ
price_in figi [] = none
price_in figi (p ∷ ps) =
    let rest = price_in figi ps in
    if str_eq p.instrument_figi figi then some p.current_price else rest

module _ {F : Type 0} where
  unfoldable pub grid_assembled : List (DealLevel F) → Bool
  grid_assembled [] = true
  grid_assembled (l ∷ ls) = let rest = grid_assembled ls in if is_full l.status then rest else false
    where
      is_full : DealLevelStatus → Bool
      is_full DealLevelStatus.filled = true
      is_full _ = false

module _ {F : Type 0} ⦃ctx : Context⦄ ⦃fl : Floats F⦄ where
  or_zero : Option F → F
  or_zero none = fl.zero_float
  or_zero (some p) = p

  -- `sl_price_from_p0`, for a known `p0_price`.
  unfoldable pub sl_price_from_p0 : Deal F → ℤ → ℤ
  unfolding or_zero
  sl_price_from_p0 d p0 =
      simple_stop_level p0 d.direction (fl.add (fl.to_float d.sl_offset) (or_zero d.sl_percent))

  from_p0 : Deal F → ℤ → Option ℤ → StopPlan
  unfolding stop_priced
  from_p0 d quantity none = refuse reconciliation_required
  from_p0 d quantity (some p0) =
      stop_priced quantity (align_stop_price (sl_price_from_p0 d p0) d.tick_size d.direction)

  -- The checks of a position that is not flat, and its quantity in whole lots.
  covered : Deal F → Position → (ℤ → StopPlan) → StopPlan
  unfolding whole_quantity
  covered d p next =
      if not (sign_matches p.quantity d.direction)
      then refuse position_contradiction
      else whole_quantity (round_down_lots (abs p.quantity) d.lot_size) next

  unfoldable pub stop_plan : Deal F → Position → StopPlan
  unfolding covered from_p0
  stop_plan d p = covered d p (λ quantity. from_p0 d quantity d.p0_price)

  -- The position as it is behind the cancel; the price stays.
  unfoldable pub fresh_stop : Deal F → ℤ → Option Position → StopPlan
  unfolding covered
  fresh_stop d price none = refuse reconciliation_required
  fresh_stop d price (some p) =
      if eq_ℤ p.quantity (pos 0)
      then refuse reconciliation_required
      else covered d p (λ quantity. protect_with quantity price)

module _ {F : Type 0} where
  stop_order_of : Deal F → ℕ → ℤ → ExecutionIntent
  stop_order_of d now quantity = record {
    intent_id = "deal-" +++ id_text d.id +++ "-sl-" +++ str d.sl_rev;
    trade_id = "";
    instrument_figi = d.instrument_figi;
    side = exit_side d.direction;
    order_type = OrderType.market;
    quantity = quantity;
    limit_price = none;
    reason = "deal " +++ id_text d.id +++ " stop-loss rev " +++ str d.sl_rev;
    account_id = d.account_id;
    created_at = now;
    idempotency_key = "";
    bot_id = d.bot_id;
  }

  unfoldable pub stop_intent : ℤ → Act F ExecutionIntent
  unfolding stop_order_of
  stop_intent quantity s =
      let d = record s.deal { sl_rev = s.deal.sl_rev + 1 } in
      let i = stop_order_of d s.manager.orders.now quantity in
      by_verdict (gate s.manager i) i (record s { deal = d })

  stop_request : ⦃ids : Uuids⦄ → Deal F → ℤ → ℤ → BrokerStopOrderRequest
  unfolding stop_idempotency_key
  stop_request d quantity price = record {
    instrument_figi = d.instrument_figi;
    side = exit_side d.direction;
    quantity = quantity;
    stop_price = price;
    account_id = d.account_id;
    idempotency_key = stop_idempotency_key d.id d.sl_rev;
  }

module _ {F : Type 0} ⦃ctx : Context⦄ ⦃env : Surroundings F⦄ where
  set_flat : List BrokerPosition → Act F (Unit {0})
  unfolding flat_update price_in
  set_flat ps s =
      let w = s.manager in
      let m = w.orders in
      let u = flat_update s.deal.instrument_figi (price_in s.deal.instrument_figi ps) m.now in
      (
        returned tt,
        record s {
          manager = record w {
            orders = record m { positions = Position.apply_position_update u m.now m.positions };
          };
        },
      )

  resolve_executed : List BrokerPosition → Act F (Unit {0})
  unfolding set_flat
  resolve_executed ps s =
      if not (eq_ℤ (quantity_in s.deal.instrument_figi ps) (pos 0))
      then (raised position_contradiction, s)
      else (set_flat ps then_do λ _. close_deal (some "stop_loss")) s

  unfoldable pub on_stop_executed : Act F (Unit {0})
  unfolding resolve_executed
  on_stop_executed = open_positions_of then_do resolve_executed

module _ {F : Type 0} ⦃ctx : Context⦄ ⦃fl : Floats F⦄ ⦃env : Surroundings F⦄ ⦃ids : Uuids⦄ where
  set_stop : ℤ → ℤ → BrokerStopOrder → Act F (Unit {0})
  set_stop quantity price o = by_status o.status
    where
      placed : Act F (Unit {0})
      placed = change_deal (λ d. record d {
        sl_quantity = some quantity;
        sl_price = some price;
        sl_order_id = some o.order_id;
      })

      by_status : StopOrderStatus → Act F (Unit {0})
      by_status StopOrderStatus.unknown = fail_with reconciliation_required
      by_status _ = placed

  unfoldable pub place_stop : ℤ → ℤ → Act F (Unit {0})
  unfolding stop_request set_stop
  place_stop quantity price s =
      let w = s.manager in
      let m = now_moment w in
      let s' = record s {
        manager =
            later (record w {
              stops_placed = w.stops_placed ++ stop_request s.deal quantity price ∷ [];
            });
      } in
      if m.returns then set_stop quantity price m.placed s' else (raised broker_raised, s')

  -- Behind the confirmed cancel of the old stop.
  re_place : ℤ → StopPlan → Act F (Unit {0})
  re_place quantity (refuse e) = fail_with e
  re_place quantity (protect_with fresh price) =
      if not (eq_ℤ fresh quantity)
      then (stop_intent fresh then_do λ _. place_stop fresh price)
      else place_stop quantity price

  after_confirmed : ℤ → ℤ → Ran (Unit {0}) × Scene F → Ran (Unit {0}) × Scene F
  unfolding re_place
  after_confirmed quantity price (returned _, s) =
      re_place quantity (fresh_stop s.deal price (position_of s.manager s.deal.instrument_figi)) s
  after_confirmed quantity price (raised stop_was_executed, s) = on_stop_executed s
  after_confirmed quantity price (raised e, s) = (raised e, s)

  swap_stop : ℤ → ℤ → Act F (Unit {0})
  unfolding after_confirmed
  swap_stop quantity price s =
      if is_some s.deal.sl_order_id
      then after_confirmed quantity price (confirm_stop_cancelled s)
      else place_stop quantity price s

  by_stop_plan : StopPlan → Act F (Unit {0})
  unfolding swap_stop
  by_stop_plan (refuse e) = fail_with e
  by_stop_plan (protect_with quantity price) =
      stop_intent quantity then_do λ _. swap_stop quantity price

  flat_stop : Act F (Unit {0})
  flat_stop s =
      if is_over s.deal.status then (returned tt, s) else (raised reconciliation_required, s)

  protect_position : Option Position → Act F (Unit {0})
  unfolding by_stop_plan flat_stop
  protect_position none s = flat_stop s
  protect_position (some p) s =
      if eq_ℤ p.quantity (pos 0) then flat_stop s else by_stop_plan (stop_plan s.deal p) s

  unfoldable pub rearm_stop : Act F (Unit {0})
  unfolding protect_position
  rearm_stop s =
      if is_some s.deal.sl_percent
      then protect_position (position_of s.manager s.deal.instrument_figi) s
      else (returned tt, s)
