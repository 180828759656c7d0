-- ===== src/Dealing/Watch.antt =====
-- The stop orders of the broker against the deals, at the end of `pump`: `check_stop_orders` of
-- backend/app/trading/deal_manager.py. The window of time that is asked for is left out: the answer is
-- that of the moment.
use veles_moex.Common.{
  ℕ, String, str_eq, Bool, true, false, not, ◌&&◌, Option, none, some, List, [], ◌∷◌, ◌++◌, is_some,
  if◌then◌else◌,
}
use veles_moex.Dict
use veles_moex.Decimal.{ℤ, pos, eq_ℤ, Context}
use veles_moex.Strategies.{Floats}
use veles_moex.Deals.Store.{Deal, DealStatus}
use veles_moex.Dealing.{
  DealManager, Surroundings, Scene, raised, Act, give, fail_with, ◌then_do◌, later, now_moment,
  StopOrderStatus, BrokerStopOrder, reconciliation_required, broker_raised,
}
use veles_moex.Dealing.Closing.{first_stop, broker_position_quantity}
use veles_moex.Dealing.Stops.{Uuids, rearm_stop, grid_assembled, on_stop_executed}
use veles_moex.Dealing.Fills.{settled, keep_deal, drain}

is_settled : DealStatus → Bool
is_settled DealStatus.closed = true
is_settled DealStatus.error = true
is_settled DealStatus.closing = true
is_settled _ = false

same_account : Option String → Option String → Bool
same_account none none = true
same_account (some a) (some b) = str_eq a b
same_account _ _ = false

-- What the broker answered for each account, `none` if it raised.
abbrev Answers : Type 0
Answers = List (Option String × Option (List BrokerStopOrder))

answer_for : Option String → Answers → Option (Option (List BrokerStopOrder))
unfolding same_account
answer_for a [] = none
answer_for a ((b, r) ∷ rs) = let rest = answer_for a rs in if same_account a b then some r else rest

module _ {F : Type 0} where
  is_armed : Deal F → Bool
  unfolding is_settled
  is_armed d = is_some d.sl_percent && is_some d.sl_order_id && not (is_settled d.status)

  unfoldable pub armed_deals : List (Deal F) → List (Deal F)
  unfolding is_armed
  armed_deals [] = []
  armed_deals (d ∷ ds) = let rest = armed_deals ds in if is_armed d then d ∷ rest else rest

  -- One look per account: the awaits, in the order of the accounts.
  unfoldable pub ask_stops :
      ⦃env : Surroundings F⦄ → Answers → List (Deal F) → DealManager F → Answers × DealManager F
  unfolding answer_for
  ask_stops answers [] w = (answers, w)
  ask_stops answers (d ∷ ds) w =
      if is_some (answer_for d.account_id answers)
      then ask_stops answers ds w
      else (let m = now_moment w in
          ask_stops
            (answers ++ (d.account_id, (if m.returns then some m.stop_orders else none)) ∷ []) ds
            (later w))

module _ {F : Type 0} ⦃ctx : Context⦄ ⦃fl : Floats F⦄ ⦃env : Surroundings F⦄ ⦃ids : Uuids⦄ where
  -- A stop that the broker does not know any more, or has cancelled.
  reconcile_missing : ℤ → Act F (Unit {0})
  reconcile_missing quantity s =
      if eq_ℤ quantity (pos 0)
      then (raised reconciliation_required, s)
      else if grid_assembled s.deal.levels
      then rearm_stop (record s { deal = record s.deal { sl_order_id = none } })
      else (raised reconciliation_required, s)

  unfoldable pub on_stop_missing : Act F (Unit {0})
  unfolding reconcile_missing
  on_stop_missing = broker_position_quantity then_do reconcile_missing

  by_stop_status : StopOrderStatus → Act F (Unit {0})
  unfolding on_stop_missing
  by_stop_status StopOrderStatus.active = give tt
  by_stop_status StopOrderStatus.cancelled = on_stop_missing
  by_stop_status StopOrderStatus.executed = on_stop_executed
  by_stop_status _ = fail_with reconciliation_required

  by_found : Option BrokerStopOrder → Act F (Unit {0})
  unfolding by_stop_status
  by_found none = on_stop_missing
  by_found (some o) = by_stop_status o.status

  judge_deal : Option String → Option (Option (List BrokerStopOrder)) → Act F (Unit {0})
  unfolding by_found
  judge_deal none answer = give tt
  judge_deal (some oid) none = fail_with broker_raised
  judge_deal (some oid) (some none) = fail_with broker_raised
  judge_deal (some oid) (some (some os)) = by_found (first_stop oid os)

  watch_deal : Answers → Deal F → DealManager F → DealManager F
  unfolding judge_deal answer_for
  watch_deal answers d w = kept d.bot_id (
      settled d.bot_id (
        judge_deal d.sl_order_id (answer_for d.account_id answers)
          (record { manager = w; deal = d })))
    where
      kept : Option ℕ → Scene F → DealManager F
      kept none s = s.manager
      kept (some bot) s = keep_deal bot s

  unfoldable pub watch_each : Answers → List (Deal F) → DealManager F → DealManager F
  unfolding watch_deal
  watch_each answers [] w = w
  watch_each answers (d ∷ ds) w = watch_each answers ds (watch_deal answers d w)

  unfoldable pub check_stop_orders : DealManager F → DealManager F
  check_stop_orders w =
      let armed = armed_deals (Dict.values w.deals) in
      let (answers, w') = ask_stops [] armed w in watch_each answers armed w'

  unfoldable pub pump : DealManager F → DealManager F
  pump w = check_stop_orders (drain w)
