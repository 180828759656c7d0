-- ===== src/Dealing/Recovery.antt =====
-- The deals after a restart: `recover` and `_recover_one` of backend/app/trading/deal_manager.py.
use veles_moex.Common.{
  String, Bool, true, false, not, ◌||◌, ◌&&◌, Option, none, some, List, [], ◌∷◌, is_some, length,
  if◌then◌else◌,
}
use veles_moex.Dict
use veles_moex.Decimal.{ℤ, pos, eq_ℤ, leb_ℤ, abs, Context}
use veles_moex.Domain.{OrderState}
use veles_moex.Strategies.{Floats}
use veles_moex.Position.{Position, sign_matches}
use veles_moex.Deals.Ticks.{align_stop_price}
use veles_moex.Deals.Store.{Deal, DealStatus}
use veles_moex.Dealing.{
  DealManager, Surroundings, Scene, Ran, returned, raised, Act, give, fail_with, ◌then_do◌,
  change_deal, later, now_moment, position_of, id_text, StopOrderStatus, BrokerStopOrder,
  reconciliation_required, tick_size_invalid, lot_size_unavailable, python_error,
}
use veles_moex.Dealing.Failures.{save, fail_deal}
use veles_moex.Dealing.Closing.{close_deal}
use veles_moex.Deals.Store.{list_unclosed, is_closed}
use veles_moex.Dealing.{store_raised}
use veles_moex.Dealing.Closing.{first_stop, broker_stops, broker_position_quantity}
use veles_moex.Dealing.TakeProfit.{rearm_tp, round_down_lots}
use veles_moex.Dealing.Stops.{Uuids, rearm_stop, grid_assembled, on_stop_executed, sl_price_from_p0}
use veles_moex.Dealing.Fills.{is_flat}
use veles_moex.Dealing.Restore.{
  Notes, changed, close_recovered, drop_stop, is_closing_now, is_lost, is_opening, order_of,
  pop_deal, recover_levels, state_is,
}

module _ {F : Type 0} ⦃ctx : Context⦄ ⦃fl : Floats F⦄ ⦃env : Surroundings F⦄ ⦃ids : Uuids⦄ where
  -- The stop orders of the broker; whatever is raised is a state that is not known.
  stops_known : Act F (List BrokerStopOrder)
  stops_known s = relabel (broker_stops s)
    where
      relabel : Ran (List BrokerStopOrder) × Scene F → Ran (List BrokerStopOrder) × Scene F
      relabel (returned os, s) = (returned os, s)
      relabel (raised e, s) = (raised reconciliation_required, s)

  -- The step ends the recovery with an answer, or it goes on.
  abbrev go_on : Act F (Option Bool)
  go_on = give none

  stop_missing : Act F (Option Bool)
  unfolding order_of
  stop_missing s =
      if state_is OrderState.filled (order_of s.deal.tp_order_id s.manager)
      then (drop_stop then_do λ _. go_on) s
      else (broker_position_quantity then_do λ q.
            if eq_ℤ q (pos 0)
            then fail_with reconciliation_required
            else (drop_stop then_do λ _. go_on))
          s

  by_known : StopOrderStatus → Act F (Option Bool)
  by_known StopOrderStatus.executed = on_stop_executed then_do λ _. give (some true)
  by_known StopOrderStatus.cancelled = drop_stop then_do λ _. go_on
  by_known StopOrderStatus.expired = drop_stop then_do λ _. go_on
  by_known StopOrderStatus.active = go_on
  by_known StopOrderStatus.unknown = give (some false)

  by_first : Option BrokerStopOrder → Act F (Option Bool)
  unfolding stop_missing by_known
  by_first none = stop_missing
  by_first (some o) = by_known o.status

  of_stop : Option String → Act F (Option Bool)
  unfolding stops_known by_first
  of_stop none = go_on
  of_stop (some oid) = stops_known then_do λ os. by_first (first_stop oid os)

  -- The armed stop against the facts of the broker.
  unfoldable pub recover_stop : Act F (Option Bool)
  unfolding of_stop
  recover_stop s =
      if is_some s.deal.sl_percent then of_stop s.deal.sl_order_id s else (returned none, s)

  compare_stop : ℤ → Option ℤ → Act F Bool
  unfolding changed
  compare_stop quantity none s = (raised tick_size_invalid, s)
  compare_stop quantity (some price) s =
      if changed s.deal.sl_quantity quantity || changed s.deal.sl_price price
      then (rearm_stop then_do λ _. give true) s
      else (returned true, s)

  against_p0 : ℤ → Option ℤ → Act F Bool
  unfolding compare_stop
  against_p0 quantity none s = (raised python_error, s)
  against_p0 quantity (some p0) s =
      compare_stop quantity
        (align_stop_price (sl_price_from_p0 s.deal p0) s.deal.tick_size s.deal.direction) s

  of_quantity : Option ℤ → Act F Bool
  unfolding against_p0
  of_quantity none s = (raised lot_size_unavailable, s)
  of_quantity (some quantity) s =
      if leb_ℤ quantity (pos 0) then (returned false, s) else against_p0 quantity s.deal.p0_price s

  kept_stop : Option Position → Act F Bool
  unfolding of_quantity
  kept_stop none s = (returned true, s)
  kept_stop (some p) s =
      if eq_ℤ p.quantity (pos 0)
      then (returned true, s)
      else of_quantity (round_down_lots (abs p.quantity) s.deal.lot_size) s

  -- A missing stop is placed, a stop that no longer fits is placed again.
  unfoldable pub refit_stop : Bool → Act F Bool
  unfolding kept_stop
  refit_stop ok s =
      if is_some s.deal.sl_percent && grid_assembled s.deal.levels && ok
      then (if is_some s.deal.sl_order_id
          then kept_stop (position_of s.manager s.deal.instrument_figi) s
          else (rearm_stop then_do λ _. give true) s)
      else (returned true, s)

  -- The take-profit of a position that is held.
  unfoldable pub recover_tp : Bool → Notes → Act F Bool
  unfolding order_of is_lost
  recover_tp ok n s =
      let tp = order_of s.deal.tp_order_id s.manager in
      if state_is OrderState.unknown tp || state_is OrderState.filled tp
      then (returned false, s)
      else if n.rearm
      then (rearm_tp then_do λ _. refit_stop ok) s
      else if is_lost tp
      then (if ok then (rearm_tp then_do λ _. refit_stop ok) s else (returned false, s))
      else refit_stop ok s

  of_position : Bool → Notes → Option Position → Act F Bool
  of_position ok n none s = (returned false, s)
  of_position ok n (some p) s =
      if is_opening s.deal.status || not (sign_matches p.quantity s.deal.direction)
      then (returned false, s)
      else recover_tp ok n s

  -- The deal against the position, behind the stop.
  unfoldable pub recover_position : Bool → Notes → Act F Bool
  unfolding of_position
  recover_position ok n s =
      let p = position_of s.manager s.deal.instrument_figi in
      if is_closing_now s.deal.status
      then close_recovered s
      else if is_flat p
      then (if is_opening s.deal.status
          then (returned true, s)
          else (close_deal (some "take_profit") then_do λ _. give true) s)
      else of_position ok n p s

  note_entry : Notes → Act F (Unit {0})
  note_entry n = change_deal (λ d. record d {
    status = if is_opening d.status && n.entry_filled then DealStatus.opened else d.status;
  })

  behind_levels : Bool → Option Notes → Act F Bool
  unfolding note_entry
  behind_levels ok none = give false
  behind_levels ok (some n) = note_entry n then_do λ _.
      recover_stop then_do λ o. elim o [ some answer ↦ give answer | none ↦ recover_position ok n ]

  unfoldable pub recover_one : Bool → Act F Bool
  unfolding behind_levels
  recover_one ok s =
      (recover_levels (length s.deal.levels) 0 (record { rearm = false; entry_filled = false })
          then_do behind_levels ok)
        s

  -- What becomes of a deal, and whether it is safe.
  unfoldable pub after_recovery : Ran Bool × Scene F → Ran Bool × DealManager F
  after_recovery (raised e, s) =
      (returned false, pop_deal s.deal.bot_id (fail_deal s.deal.bot_id e s).manager)
  after_recovery (returned false, s) = (
    returned false,
    pop_deal s.deal.bot_id (fail_deal s.deal.bot_id reconciliation_required s).manager,
  )
  after_recovery (returned true, s) =
      if is_closed s.deal.status
      then (returned true, pop_deal s.deal.bot_id s.manager)
      else registered (
          save (record {
            manager = record s.manager {
              deals = Dict.put s.manager.deals (id_text s.deal.bot_id) s.deal;
            };
            deal = record s.deal { updated_at = s.manager.orders.now };
          }))
    where
      registered : Ran (Unit {0}) × Scene F → Ran Bool × DealManager F
      registered (raised e, s) = (raised e, s.manager)
      registered (returned _, s) = (
        returned true,
        record s.manager { deals = Dict.put s.manager.deals (id_text s.deal.bot_id) s.deal },
      )

  unfoldable pub recover_each :
      Bool → Bool → List (Deal F) → DealManager F → Ran Bool × DealManager F
  recover_each ok safe [] w = (returned safe, w)
  recover_each ok safe (d ∷ ds) w =
      next_deal (after_recovery (recover_one ok (record { manager = w; deal = d })))
        (λ good. recover_each ok (safe && good) ds)
    where
      next_deal :
          Ran Bool × DealManager F
          → (Bool → DealManager F → Ran Bool × DealManager F)
          → Ran Bool × DealManager F
      next_deal (raised e, w') next = (raised e, w')
      next_deal (returned good, w') next = next good w'

  -- `ok` is `reconciliation_ok`.
  unfoldable pub recover : Bool → DealManager F → Ran Bool × DealManager F
  recover ok w =
      let w' = later (record w { pending = [] }) in
      if (now_moment w).returns
      then recover_each ok true (list_unclosed w'.store) w'
      else (raised store_raised, w')
