-- ===== src/Dealing/TakeProfit.antt =====
-- The take-profit of a deal: `_rearm_tp`, `_tp_intent` and `_round_down_lots` of
-- backend/app/trading/deal_manager.py.
use veles_moex.Common.{
  ℕ, zero, suc, ◌+◌, ◌*◌, String, str, ◌+++◌, Bool, false, not, ◌||◌, Option, none, some,
  if◌then◌else◌,
}
use veles_moex.Decimal.{ℤ, pos, eq_ℤ, leb_ℤ, abs, Context}
use veles_moex.Domain.{ExecutionIntent, InternalOrder, OrderState, OrderType, eq_state}
use veles_moex.Repository
use veles_moex.Strategies.{Floats, exit_side}
use veles_moex.Exits.Prices.{tp_price}
use veles_moex.Position.{Position, sign_matches}
use veles_moex.Risk.{Verdict, passed, rejected}
use veles_moex.Orders.Submit.{submit}
use veles_moex.Deals.Ticks.{down_to, align_tp_price}
use veles_moex.Deals.Store.{Deal}
use veles_moex.Dealing.{
  DealFailure, Surroundings, Scene, Act, give, fail_with, ◌then_do◌, change_deal, on_orders, gate,
  position_of, id_text, reconciliation_required, order_rejected, position_contradiction,
  tick_size_invalid, lot_size_unavailable,
}
use veles_moex.Dealing.Closing.{close_deal, cancel_order, cancellable}

-- `_round_down_lots`: `none` is `LotSizeUnavailable`.
unfoldable pub round_down_lots : ⦃ctx : Context⦄ → ℤ → Option ℕ → Option ℤ
round_down_lots ⦃ctx⦄ quantity none = none
round_down_lots ⦃ctx⦄ quantity (some zero) = none
round_down_lots ⦃ctx⦄ quantity (some (suc n)) = some (down_to quantity (pos (suc n * ctx.one)))

-- What a take-profit is to be, as the position stands.
pub data TpPlan : Type 0 where
  nothing_held : TpPlan
  refuse : DealFailure → TpPlan
  cover : ℤ → ℤ → ℤ → TpPlan

-- A take-profit of the quantity at the price, for a position of the average price.
unfoldable pub priced : ℤ → ℤ → Option ℤ → TpPlan
priced quantity average none = refuse tick_size_invalid
priced quantity average (some price) =
    if leb_ℤ price (pos 0) then refuse reconciliation_required else cover quantity price average

abbrev pub is_refused : OrderState → Bool
is_refused st = eq_state st OrderState.rejected || eq_state st OrderState.failed

module _ {F : Type 0} ⦃ctx : Context⦄ ⦃fl : Floats F⦄ where
  -- `tp_price_from_average`
  abbrev pub tp_price_from_average : Deal F → ℤ → ℤ
  tp_price_from_average d average = tp_price average d.direction d.tp_percent

  unfoldable pub sized_plan : Deal F → Position → Option ℤ → TpPlan
  unfolding priced
  sized_plan d p none = refuse lot_size_unavailable
  sized_plan d p (some quantity) =
      if leb_ℤ quantity (pos 0)
      then nothing_held
      else priced quantity p.average_price
          (align_tp_price (tp_price_from_average d p.average_price) d.tick_size d.direction)

  unfoldable pub held_plan : Deal F → Option Position → TpPlan
  unfolding sized_plan
  held_plan d none = nothing_held
  held_plan d (some p) =
      if eq_ℤ p.quantity (pos 0)
      then nothing_held
      else if not (sign_matches p.quantity d.direction)
      then refuse position_contradiction
      else sized_plan d p (round_down_lots (abs p.quantity) d.lot_size)

  -- The steps of `_rearm_tp` from reading the position to the check of the price, which stand in it
  -- before the cancel and once more behind it.
  unfoldable pub tp_plan : Scene F → TpPlan
  unfolding held_plan
  tp_plan s = held_plan s.deal (position_of s.manager s.deal.instrument_figi)

module _ {F : Type 0} where
  abbrev pub tp_order_of : Deal F → ℕ → ℤ → ℤ → ExecutionIntent
  tp_order_of d now quantity price = record {
    intent_id = "deal-" +++ id_text d.id +++ "-tp-" +++ str d.tp_rev;
    trade_id = "";
    instrument_figi = d.instrument_figi;
    side = exit_side d.direction;
    order_type = OrderType.limit;
    quantity = quantity;
    limit_price = some price;
    reason = "deal " +++ id_text d.id +++ " take-profit rev " +++ str d.tp_rev;
    account_id = d.account_id;
    created_at = now;
    idempotency_key = "";
    bot_id = d.bot_id;
  }

  unfoldable pub by_verdict : Verdict → ExecutionIntent → Act F ExecutionIntent
  by_verdict passed i = give i
  by_verdict (rejected r) i = fail_with order_rejected

  unfoldable pub tp_intent : ℤ → ℤ → Act F ExecutionIntent
  unfolding by_verdict
  tp_intent quantity price s =
      let d = record s.deal { tp_rev = s.deal.tp_rev + 1 } in
      let i = tp_order_of d s.manager.orders.now quantity price in
      by_verdict (gate s.manager i) i (record s { deal = d })

module _ {F : Type 0} ⦃env : Surroundings F⦄ where
  -- `self._om.submit(intent)`
  abbrev pub submit_intent : ExecutionIntent → Act F InternalOrder
  submit_intent i = on_orders (λ m. submit m.uuid i m.orders_meanwhile m.reply)

  set_tp : ℤ → ℤ → ℤ → InternalOrder → Act F (Unit {0})
  set_tp quantity price average o =
      if is_refused o.status
      then fail_with order_rejected
      else if eq_state o.status OrderState.unknown
      then fail_with reconciliation_required
      else change_deal (λ d. record d {
        average_price = average;
        tp_price = some price;
        tp_quantity = some quantity;
        tp_intent_id = some o.intent_id;
        tp_order_id = some o.order_id;
        tp_broker_order_id = o.broker_order_id;
      })

  -- The new take-profit is sent and written to the deal.
  unfoldable pub place_tp : ExecutionIntent → ℤ → ℤ → ℤ → Act F (Unit {0})
  unfolding set_tp
  place_tp i quantity price average = submit_intent i then_do set_tp quantity price average

module _ {F : Type 0} ⦃ctx : Context⦄ ⦃fl : Floats F⦄ ⦃env : Surroundings F⦄ where
  -- Behind the cancel of the old take-profit: `i` is the intent that was let through before.
  unfoldable pub replace_tp : ExecutionIntent → ℤ → ℤ → TpPlan → Act F (Unit {0})
  replace_tp i quantity price nothing_held = close_deal none
  replace_tp i quantity price (refuse e) = fail_with e
  replace_tp i quantity price (cover quantity' price' average) =
      if not (eq_ℤ quantity' quantity) || not (eq_ℤ price' price)
      then (tp_intent quantity' price' then_do λ i'. place_tp i' quantity' price' average)
      else place_tp i quantity price average

  unfoldable pub after_old_tp : ExecutionIntent → ℤ → ℤ → Act F (Unit {0})
  unfolding replace_tp
  after_old_tp i quantity price s = replace_tp i quantity price (tp_plan s) s

  abbrev pub working : Option String → Scene F → Bool
  working none s = false
  working (some oid) s = cancellable (Repository.get s.manager.orders.orders oid)

  abbrev pub cancel_old : Option String → Act F (Unit {0})
  cancel_old none = give tt
  cancel_old (some oid) = cancel_order oid

  -- With an intent that was let through: the old take-profit is cancelled first, if it works.
  unfoldable pub swap_tp : ExecutionIntent → ℤ → ℤ → ℤ → Act F (Unit {0})
  unfolding after_old_tp
  swap_tp i quantity price average s =
      if working s.deal.tp_order_id s
      then (cancel_old s.deal.tp_order_id then_do λ _. after_old_tp i quantity price) s
      else place_tp i quantity price average s

  unfoldable pub by_plan : TpPlan → Act F (Unit {0})
  by_plan nothing_held = close_deal none
  by_plan (refuse e) = fail_with e
  by_plan (cover quantity price average) =
      tp_intent quantity price then_do λ i. swap_tp i quantity price average

  unfoldable pub rearm_tp : Act F (Unit {0})
  rearm_tp s = by_plan (tp_plan s) s
