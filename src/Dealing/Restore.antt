-- ===== src/Dealing/Restore.antt =====
-- The levels of a deal after a restart: the loop of `_recover_one` in
-- backend/app/trading/deal_manager.py, and what it does with a deal that was closing.
use veles_moex.Common.{
  ℕ, zero, suc, ◌+◌, ◌==◌, String, Bool, true, false, not, ◌||◌, Option, none, some, List, [], ◌∷◌,
  if◌then◌else◌,
}
use veles_moex.Dict
use veles_moex.Decimal.{ℤ, pos, eq_ℤ, ltb_ℤ}
use veles_moex.Domain.{InternalOrder, OrderState, eq_state, is_terminal}
use veles_moex.Repository
use veles_moex.Deals.Store.{DealLevel, DealStatus, DealLevelStatus}
use veles_moex.Dealing.{DealManager, returned, Act, give, ◌then_do◌, change_deal, id_text}
use veles_moex.Grid.{at}
use veles_moex.Dealing.Closing.{without}
use veles_moex.Dealing.Levels.{set_level, is_waiting}

-- What the levels showed: a fill, and one of the first level.
pub record Notes : Type 0 where
  pub rearm : Bool
  pub entry_filled : Bool

abbrev pub is_opening : DealStatus → Bool
is_opening DealStatus.opening = true
is_opening _ = false

abbrev pub is_closing_now : DealStatus → Bool
is_closing_now DealStatus.closing = true
is_closing_now _ = false

abbrev pub is_cancelled_level : DealLevelStatus → Bool
is_cancelled_level DealLevelStatus.cancelled = true
is_cancelled_level _ = false

-- `a or b`
abbrev pub or_else : ℤ → ℤ → ℤ
or_else a b = if eq_ℤ a (pos 0) then b else a

-- `deal.p0_price` behind a fill of the first level.
abbrev pub known_p0 : Option ℤ → InternalOrder → Option ℤ
known_p0 (some p) o = some p
known_p0 none o = if ltb_ℤ (pos 0) o.average_fill_price then some o.average_fill_price else none

abbrev pub state_is : OrderState → Option InternalOrder → Bool
state_is st none = false
state_is st (some o) = eq_state o.status st

unfoldable pub changed : Option ℤ → ℤ → Bool
changed none now = true
changed (some before) now = not (eq_ℤ before now)

unfoldable pub is_lost : Option InternalOrder → Bool
is_lost none = true
is_lost (some o) =
    eq_state o.status OrderState.cancelled
    || eq_state o.status OrderState.rejected
    || eq_state o.status OrderState.failed

module _ {F : Type 0} where
  abbrev pub note_fill : ℕ → DealLevel F → InternalOrder → Notes → Act F (Option Notes)
  note_fill place l o n s =
      let d = set_level place l s.deal in
      if l.index == 0
      then (
        returned (some (record { rearm = true; entry_filled = true })),
        record s { deal = record d { p0_price = known_p0 d.p0_price o } },
      )
      else (returned (some (record n { rearm = true })), record s { deal = d })

  -- A level whose order is known; `none` is the return of `False`.
  unfoldable pub by_order :
      ℕ → DealLevel F → InternalOrder → OrderState → Notes → Act F (Option Notes)
  by_order place l o OrderState.filled n s =
      note_fill place
        (record l {
          status = DealLevelStatus.filled;
          filled_quantity = or_else o.filled_quantity l.quantity;
        })
        o n s
  by_order place l o OrderState.partially_filled n s =
      note_fill place
        (record l { status = DealLevelStatus.active; filled_quantity = o.filled_quantity }) o n s
  by_order place l o OrderState.submitted n s =
      (returned (some n), record s { deal = set_level place (revived l) s.deal })
    where
      revived : DealLevel F → DealLevel F
      revived l =
          if is_cancelled_level l.status then record l { status = DealLevelStatus.active } else l
  by_order place l o OrderState.working n s =
      (returned (some n), record s { deal = set_level place (revived l) s.deal })
    where
      revived : DealLevel F → DealLevel F
      revived l =
          if is_cancelled_level l.status then record l { status = DealLevelStatus.active } else l
  by_order place l o OrderState.unknown n s = (returned none, s)
  by_order place l o _ n s =
      if is_closing_now s.deal.status
      then (
        returned (some n),
        record s {
          deal = set_level place (record l { status = DealLevelStatus.cancelled }) s.deal;
        },
      )
      else (returned none, s)

  unfoldable pub with_order : ℕ → DealLevel F → Option InternalOrder → Notes → Act F (Option Notes)
  unfolding by_order
  with_order place l none n s = (returned none, s)
  with_order place l (some o) n s = by_order place l o o.status n s

  unfoldable pub with_id : ℕ → DealLevel F → Option String → Notes → Act F (Option Notes)
  unfolding with_order
  with_id place l none n s = (returned none, s)
  with_id place l (some oid) n s =
      with_order place l (Repository.get s.manager.orders.orders oid) n s

  unfoldable pub recover_level : ℕ → Option (DealLevel F) → Notes → Act F (Option Notes)
  unfolding with_id
  recover_level place none n s = (returned (some n), s)
  recover_level place (some l) n s =
      if is_waiting l.status then (returned (some n), s) else with_id place l l.order_id n s

  -- The levels from a place on.
  unfoldable pub recover_levels : ℕ → ℕ → Notes → Act F (Option Notes)
  recover_levels zero place n s = (returned (some n), s)
  recover_levels (suc rest) place n s =
      (recover_level place (at place s.deal.levels) n then_do λ found. elim found [
        | none ↦ give none
        | some n' ↦ recover_levels rest (place + 1) n'
      ])
        s

  unfoldable pub order_of : Option String → DealManager F → Option InternalOrder
  order_of none w = none
  order_of (some oid) w = Repository.get w.orders.orders oid

  -- Whether every order of the levels is known and terminal.
  unfoldable pub all_terminal : DealManager F → List (DealLevel F) → Bool
  all_terminal w [] = true
  all_terminal w (l ∷ ls) = let rest = all_terminal w ls in if done l.order_id then rest else false
    where
      is_done : Option InternalOrder → Bool
      is_done none = false
      is_done (some o) = is_terminal o.status

      done : Option String → Bool
      done none = true
      done (some oid) = is_done (Repository.get w.orders.orders oid)

  abbrev pub drop_stop : Act F (Unit {0})
  drop_stop = change_deal (λ d. record d { sl_order_id = none })

  -- The deal is active no more.
  unfoldable pub pop_deal : Option ℕ → DealManager F → DealManager F
  pop_deal bot w = record w { deals = Dict.remove w.deals (id_text bot) }

  unfoldable pub unblock : Option ℕ → DealManager F → DealManager F
  unblock none w = w
  unblock (some bot) w = record w { blocked = without bot w.blocked }

  unfoldable pub close_recovered : Act F Bool
  unfolding unblock
  close_recovered s =
      if all_terminal s.manager s.deal.levels
      then (
        returned true,
        record {
          manager = unblock s.deal.bot_id (pop_deal s.deal.bot_id s.manager);
          deal = record s.deal {
            status = DealStatus.closed;
            closed_at = some s.manager.orders.now;
          };
        },
      )
      else (returned false, s)
