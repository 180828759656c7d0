-- ===== src/Dealing/Closing.antt =====
-- Closing a deal: `_close_deal`, `_confirm_stop_cancelled`, `_broker_stops` and
-- `_broker_position_quantity` of backend/app/trading/deal_manager.py.
use veles_moex.Common.{
  ℕ, ◌==◌, String, str, str_eq, Bool, true, false, not, ◌||◌, ◌&&◌, Option, none, some, List, [],
  ◌∷◌, ◌++◌, is_some, if◌then◌else◌,
}
use veles_moex.Dict
use veles_moex.Decimal.{ℤ, pos}
use veles_moex.Domain.{InternalOrder, OrderState, is_terminal, eq_state}
use veles_moex.Repository
use veles_moex.Orders.Cancel.{cancel}
use veles_moex.Deals.Store.{Deal, DealLevel, DealStatus, DealLevelStatus}
use veles_moex.Dealing.{
  DealManager, Surroundings, Scene, Ran, returned, raised, Act, give, fail_with, ◌then_do◌,
  change_deal, later, now_moment, on_orders, StopOrderStatus, BrokerStopOrder, BrokerPosition,
  reconciliation_required, stop_was_executed, broker_raised,
}
use veles_moex.Dealing.Failures.{save, fail_deal}

-- Whether the order can still be cancelled: it is known, not terminal, and no cancel is on its way.
unfoldable pub cancellable : Option InternalOrder → Bool
cancellable none = false
cancellable (some o) = not (is_terminal o.status || eq_state o.status OrderState.cancel_requested)

abbrev pub is_unknown : OrderState → Bool
is_unknown s = eq_state s OrderState.unknown

-- `[o for o in orders if o.order_id == oid]`, its first.
unfoldable pub first_stop : String → List BrokerStopOrder → Option BrokerStopOrder
first_stop oid [] = none
first_stop oid (o ∷ os) =
    let rest = first_stop oid os in if str_eq o.order_id oid then some o else rest

-- The quantity of the first position in the instrument, or zero.
unfoldable pub quantity_in : String → List BrokerPosition → ℤ
quantity_in figi [] = pos 0
quantity_in figi (p ∷ ps) =
    let rest = quantity_in figi ps in if str_eq p.instrument_figi figi then p.quantity else rest

abbrev pub without : ℕ → List ℕ → List ℕ
without b [] = []
without b (x ∷ xs) = if x == b then without b xs else x ∷ without b xs

abbrev pub is_filled_level : DealLevelStatus → Bool
is_filled_level DealLevelStatus.filled = true
is_filled_level _ = false

one_more_order : Option String → List String
one_more_order none = []
one_more_order (some oid) = oid ∷ []

is_of_order : String → Option String → Bool
is_of_order oid none = false
is_of_order oid (some order_id) = str_eq order_id oid

abbrev by_stop : Option String → Bool
by_stop none = false
by_stop (some reason) = str_eq reason "stop_loss"

abbrev is_true : Option Bool → Bool
is_true none = false
is_true (some b) = b

abbrev pub is_over : DealStatus → Bool
is_over DealStatus.closed = true
is_over DealStatus.closing = true
is_over _ = false

module _ {F : Type 0} where
  level_orders : List (DealLevel F) → List String
  level_orders [] = []
  level_orders (l ∷ ls) =
      let rest = level_orders ls in of_level l.order_id (is_filled_level l.status) rest
    where
      of_level : Option String → Bool → List String → List String
      of_level none done rest = rest
      of_level (some oid) true rest = rest
      of_level (some oid) false rest = oid ∷ rest

  -- The orders that a close cancels.
  unfoldable pub to_cancel_of : Deal F → List String
  unfolding level_orders one_more_order
  to_cancel_of d = level_orders d.levels ++ one_more_order d.tp_order_id

  -- The first level of the order is cancelled.
  unfoldable pub cancel_level : String → List (DealLevel F) → List (DealLevel F)
  unfolding is_of_order
  cancel_level oid [] = []
  cancel_level oid (l ∷ ls) =
      let rest = cancel_level oid ls in
      if is_of_order oid l.order_id
      then record l { status = DealLevelStatus.cancelled } ∷ ls
      else l ∷ rest

module _ {F : Type 0} ⦃env : Surroundings F⦄ where
  -- `_broker_stops`
  unfoldable pub broker_stops : Act F (List BrokerStopOrder)
  broker_stops s =
      let m = now_moment s.manager in
      let s' = record s { manager = later s.manager } in
      if m.returns then (returned m.stop_orders, s') else (raised broker_raised, s')

  -- The positions of the account that the broker reports.
  unfoldable pub open_positions_of : Act F (List BrokerPosition)
  open_positions_of s =
      let m = now_moment s.manager in
      let s' = record s { manager = later s.manager } in
      if m.returns then (returned m.open_positions, s') else (raised broker_raised, s')

  -- `_broker_position_quantity`
  unfoldable pub broker_position_quantity : Act F ℤ
  unfolding open_positions_of
  broker_position_quantity s =
      (open_positions_of then_do λ ps. give (quantity_in s.deal.instrument_figi ps)) s

  abbrev judge_stop : StopOrderStatus → Act F (Unit {0})
  judge_stop StopOrderStatus.executed = fail_with stop_was_executed
  judge_stop StopOrderStatus.cancelled = give tt
  judge_stop StopOrderStatus.expired = give tt
  judge_stop _ = fail_with reconciliation_required

  judge_found : Option BrokerStopOrder → Act F (Unit {0})
  judge_found none = give tt
  judge_found (some o) = judge_stop o.status

  -- `cancel_stop_order`, whatever it answers or raises.
  abbrev ask_stop_cancel : String → Act F (Unit {0})
  ask_stop_cancel oid s =
      let w = s.manager in
      (
        returned tt,
        record s {
          manager =
              later (record w { stop_cancels = w.stop_cancels ++ (oid, s.deal.account_id) ∷ [] });
        },
      )

  confirm_of : Option String → Act F (Unit {0})
  unfolding judge_found
  confirm_of none = give tt
  confirm_of (some oid) =
      ask_stop_cancel oid then_do λ _. broker_stops then_do λ os. judge_found (first_stop oid os)

  unfoldable pub confirm_stop_cancelled : Act F (Unit {0})
  unfolding confirm_of
  confirm_stop_cancelled s = confirm_of s.deal.sl_order_id s

  -- `self._om.cancel(order_id)`, and a raise if its outcome is not known.
  unfoldable pub cancel_order : String → Act F (Unit {0})
  cancel_order oid = on_orders (λ m. cancel oid m.orders_meanwhile m.returns) then_do λ o.
      if is_unknown o.status then fail_with reconciliation_required else give tt

  unfoldable pub cancel_one : String → Act F (Unit {0})
  unfolding cancel_order
  cancel_one oid s =
      if cancellable (Repository.get s.manager.orders.orders oid)
      then (cancel_order oid then_do λ _.
            change_deal (λ d. record d { levels = cancel_level oid d.levels }))
          s
      else (returned tt, s)

  unfoldable pub cancel_orders : List String → Act F (Unit {0})
  unfolding cancel_one
  cancel_orders [] = give tt
  cancel_orders (oid ∷ oids) = let rest = cancel_orders oids in cancel_one oid then_do λ _. rest

  -- The reason of the close, once the stop is out of the way.
  abbrev after_confirm : Option String → Ran (Unit {0}) × Scene F → Ran (Option String) × Scene F
  after_confirm reason (returned _, s) = (returned reason, s)
  after_confirm reason (raised stop_was_executed, s) = (returned (some "stop_loss"), s)
  after_confirm reason (raised e, s) = (raised e, s)

  unfoldable pub cancel_stop : Option String → Act F (Option String)
  unfolding confirm_stop_cancelled
  cancel_stop reason s =
      if is_some s.deal.sl_percent && is_some s.deal.sl_order_id && not (by_stop reason)
      then after_confirm reason (confirm_stop_cancelled s)
      else (returned reason, s)

  abbrev set_closed : Option String → Act F (Unit {0})
  set_closed reason s = (
    returned tt,
    record s {
      deal = record s.deal {
        status = DealStatus.closed;
        close_reason = reason;
        closed_at = some s.manager.orders.now;
        updated_at = s.manager.orders.now;
      };
    },
  )

  forget : Option ℕ → DealManager F → DealManager F
  forget none w = w
  forget (some bot) w = record w {
    deals = Dict.remove w.deals (str bot);
    blocked = without bot w.blocked;
  }

  -- The deal is active no more and its bot no longer blocked.
  abbrev forget_deal : Act F (Unit {0})
  forget_deal s = (returned tt, record s { manager = forget s.deal.bot_id s.manager })

  -- The callback for a stop-loss; if it raises, the deal fails.
  report_stop : Option ℕ → Act F (Unit {0})
  report_stop none s = (returned tt, s)
  report_stop (some bot) s =
      let w = s.manager in
      let s' = record s {
        manager =
            later (record w {
              stop_losses = w.stop_losses ++ (bot, is_true s.deal.stop_bot_after) ∷ [];
            });
      } in
      if (now_moment w).returns
      then (returned tt, s')
      else (returned tt, fail_deal (some bot) broker_raised s')

  abbrev report_close : Option String → Act F (Unit {0})
  report_close reason s =
      if by_stop reason && s.manager.reports_stops
      then report_stop s.deal.bot_id s
      else (returned tt, s)

  -- The steps behind the cancels of the orders.
  unfoldable pub finish_close : Option String → Act F (Unit {0})
  unfolding cancel_stop forget report_stop
  finish_close reason = cancel_stop reason then_do λ reason'. set_closed reason' then_do λ _.
      save then_do λ _. forget_deal then_do λ _. report_close reason'

  unfoldable pub close_deal : Option String → Act F (Unit {0})
  unfolding finish_close cancel_orders
  close_deal reason s =
      if is_over s.deal.status
      then (returned tt, s)
      else (change_deal (λ d. record d { status = DealStatus.closing }) then_do λ _.
            cancel_orders (to_cancel_of s.deal) then_do λ _. finish_close reason)
          s
