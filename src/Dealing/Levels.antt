-- ===== src/Dealing/Levels.antt =====
-- The orders of the levels of a grid: `_submit_level`, `_submit_ready_levels`, `_working_level_count`
-- and `_promote_waiting_levels` of backend/app/trading/deal_manager.py.
use veles_moex.Common.{
  ℕ, zero, suc, ◌+◌, ltb, String, str, ◌+++◌, Bool, true, false, not, ◌&&◌, Option, none, some,
  List, [], ◌∷◌, is_some, length, if◌then◌else◌,
}
use veles_moex.Decimal.{ℤ}
use veles_moex.Domain.{ExecutionIntent, InternalOrder, OrderType, is_terminal}
use veles_moex.Repository
use veles_moex.Deals.Store.{Deal, DealLevel, DealStatus, DealLevelStatus}
use veles_moex.Dealing.{
  Surroundings, Scene, returned, Act, give, fail_with, ◌then_do◌, change_deal, gate, id_text,
  order_rejected,
}
use veles_moex.Grid.{at, put_at}
use veles_moex.Dealing.TakeProfit.{submit_intent, by_verdict, is_refused}

abbrev pub is_waiting : DealLevelStatus → Bool
is_waiting DealLevelStatus.waiting = true
is_waiting _ = false

abbrev pub is_active : DealLevelStatus → Bool
is_active DealLevelStatus.active = true
is_active _ = false

level_price : Bool → Option ℤ → Option ℤ
level_price true price = none
level_price false price = price

works : Option InternalOrder → ℕ
works none = 0
works (some o) = if is_terminal o.status then 0 else 1

abbrev pub is_closing : DealStatus → Bool
is_closing DealStatus.closing = true
is_closing _ = false

module _ {F : Type 0} where
  -- The place of the first waiting level.
  unfoldable pub first_waiting : List (DealLevel F) → Option ℕ
  first_waiting [] = none
  first_waiting (l ∷ ls) =
      let rest = first_waiting ls in if is_waiting l.status then some 0 else beyond rest
    where
      beyond : Option ℕ → Option ℕ
      beyond none = none
      beyond (some n) = some (suc n)

  -- How many levels wait.
  unfoldable pub waiting_count : List (DealLevel F) → ℕ
  waiting_count [] = 0
  waiting_count (l ∷ ls) =
      let rest = waiting_count ls in if is_waiting l.status then rest + 1 else rest

  level_order_of : Deal F → ℕ → DealLevel F → ExecutionIntent
  unfolding level_price
  level_order_of d now l = record {
    intent_id = "deal-" +++ id_text d.id +++ "-grid-" +++ str l.index;
    trade_id = "";
    instrument_figi = d.instrument_figi;
    side = l.side;
    order_type = if l.is_market then OrderType.market else OrderType.limit;
    quantity = l.quantity;
    limit_price = level_price l.is_market l.price;
    reason = "deal " +++ id_text d.id +++ " grid level " +++ str l.index;
    account_id = d.account_id;
    created_at = now;
    idempotency_key = "";
    bot_id = d.bot_id;
  }

  abbrev pub set_level : ℕ → DealLevel F → Deal F → Deal F
  set_level place l d = record d { levels = put_at place l d.levels }

  -- The order's ids are written to the level.
  unfoldable pub adopt_order : ℕ → DealLevel F → InternalOrder → Act F (Unit {0})
  adopt_order place l o =
      if is_refused o.status
      then fail_with order_rejected
      else change_deal (
          set_level place (record l {
            intent_id = some o.intent_id;
            order_id = some o.order_id;
            broker_order_id = o.broker_order_id;
          }))

  count_working : (String → Option InternalOrder) → List (DealLevel F) → ℕ
  count_working order [] = 0
  count_working order (l ∷ ls) =
      let rest = count_working order ls in
      if is_active l.status then of_order l.order_id + rest else rest
    where
      of_order : Option String → ℕ
      of_order none = 0
      of_order (some oid) = works (order oid)

  unfoldable pub working_level_count : Scene F → ℕ
  unfolding count_working works
  working_level_count s = count_working (Repository.get s.manager.orders.orders) s.deal.levels

module _ {F : Type 0} ⦃env : Surroundings F⦄ where
  -- `level` is the level at the place.
  unfoldable pub submit_level : ℕ → DealLevel F → Act F (Unit {0})
  unfolding level_order_of
  submit_level place l s =
      let i = level_order_of s.deal s.manager.orders.now l in
      (by_verdict (gate s.manager i) i then_do λ i'. submit_intent i' then_do adopt_order place l) s

  submit_if_ready : ℕ → Option (DealLevel F) → Act F (Unit {0})
  submit_if_ready place none = give tt
  submit_if_ready place (some l) =
      if is_active l.status && not (is_some l.order_id) then submit_level place l else give tt

  -- The levels from a place on.
  ready_from : ℕ → ℕ → Act F (Unit {0})
  unfolding submit_if_ready
  ready_from zero place s = (returned tt, s)
  ready_from (suc rest) place s =
      (submit_if_ready place (at place s.deal.levels) then_do λ _. ready_from rest (place + 1)) s

  unfoldable pub submit_ready_levels : Act F (Unit {0})
  unfolding ready_from
  submit_ready_levels s = ready_from (length s.deal.levels) 0 s

  -- The waiting level at the place becomes active and its order is sent.
  unfoldable pub promote_at : ℕ → Option (DealLevel F) → Act F (Unit {0})
  promote_at place none = give tt
  promote_at place (some l) =
      let l' = record l { status = DealLevelStatus.active } in
      change_deal (set_level place l') then_do λ _. submit_level place l'

  -- A turn of the loop: whether there was a level to promote.
  unfoldable pub promote_next : Option ℕ → Act F Bool
  promote_next none s = (returned false, s)
  promote_next (some place) s = (promote_at place (at place s.deal.levels) then_do λ _. give true) s

  -- The loop, on fuel: it answers whether the fuel was enough.
  unfoldable pub promote_while : ℕ → ℕ → Act F Bool
  promote_while zero limit s = (returned false, s)
  promote_while (suc fuel) limit s =
      if ltb (working_level_count s) limit
      then (promote_next (first_waiting s.deal.levels) then_do λ more.
            if more then promote_while fuel limit else give true)
          s
      else (returned true, s)

  unfoldable pub promote_to : Option ℕ → Act F Bool
  promote_to none s = (returned true, s)
  promote_to (some limit) s = promote_while (suc (waiting_count s.deal.levels)) limit s

  unfoldable pub promote_waiting_levels : Act F Bool
  unfolding promote_to
  promote_waiting_levels s =
      if is_closing s.deal.status then (returned true, s) else promote_to s.deal.active_limit s
