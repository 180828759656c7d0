-- ===== src/Dealing/Failures.antt =====
-- How a failure of a deal surfaces: `_fail_deal`, `_notify_bot_error` and
-- `assert_deal_for_open_position` of backend/app/trading/deal_manager.py, and the calls of the store.
use veles_moex.Common.{
  ℕ, Bool, true, false, Option, none, some, [], ◌∷◌, ◌++◌, str, is_some, if◌then◌else◌,
}
use veles_moex.Dict
use veles_moex.Deals.Store.{DealStatus, is_closed, save_deal}
use veles_moex.Dealing.{
  DealManager, DealFailure, Surroundings, Scene, returned, raised, Act, later, now_moment,
  deal_blocked, tick_size_invalid, stop_was_executed, order_rejected, reconciliation_required,
  position_contradiction, store_raised,
}

-- `exc if isinstance(exc, DealError) else DealReconciliationRequired(...)`
abbrev pub as_deal_error : DealFailure → DealFailure
as_deal_error deal_blocked = deal_blocked
as_deal_error tick_size_invalid = tick_size_invalid
as_deal_error stop_was_executed = stop_was_executed
as_deal_error order_rejected = order_rejected
as_deal_error position_contradiction = position_contradiction
as_deal_error _ = reconciliation_required

module _ {F : Type 0} ⦃env : Surroundings F⦄ where
  -- `await self._store.save(deal)`
  unfoldable pub save : Act F (Unit {0})
  save s =
      let w = later s.manager in
      if (now_moment s.manager).returns
      then (let (d, store') = save_deal s.deal w.orders.now w.store in
          (returned tt, record { manager = record w { store = store' }; deal = d }))
      else (raised store_raised, record s { manager = w })

  -- `_notify_bot_error`: a callback that raises is passed over.
  unfoldable pub notify_bot_error : Option ℕ → DealFailure → DealManager F → DealManager F
  notify_bot_error none e w = w
  notify_bot_error (some bot) e w =
      if w.reports_errors
      then later (record w { bot_errors = w.bot_errors ++ (bot, e) ∷ [] })
      else w

  -- The deal becomes an error, unless it is closed; a store that raises is passed over.
  unfoldable pub mark_error : Scene F → Scene F
  unfolding save
  mark_error s =
      if is_closed s.deal.status
      then s
      else (save (record s {
        deal = record s.deal { status = DealStatus.error; updated_at = s.manager.orders.now };
      })).1

  -- The block of the bot, its reason and the notification.
  unfoldable pub block_bot : Option ℕ → DealFailure → DealManager F → DealManager F
  unfolding notify_bot_error
  block_bot none e w = w
  block_bot (some bot) e w =
      notify_bot_error (some bot) e
        (record w { blocked = bot ∷ w.blocked; errors = Dict.put w.errors (str bot) e })

  -- `_fail_deal` with a deal.
  unfoldable pub fail_deal : Option ℕ → DealFailure → Scene F → Scene F
  fail_deal bot e s =
      let s' =
        mark_error
          (record s { manager = record s.manager { last_error = some (as_deal_error e) } }) in
      record s' { manager = block_bot bot (as_deal_error e) s'.manager }

  -- `_fail_deal` where no deal was made yet.
  unfoldable pub fail_entry : ℕ → DealFailure → DealManager F → DealManager F
  fail_entry bot e w =
      block_bot (some bot) (as_deal_error e) (record w { last_error = some (as_deal_error e) })

  -- Whether it returns, and the manager.
  unfoldable pub assert_deal_for_open_position : ℕ → DealManager F → Bool × DealManager F
  assert_deal_for_open_position bot w =
      if is_some (Dict.get w.deals (str bot))
      then (true, w)
      else (false, notify_bot_error (some bot) position_contradiction w)
