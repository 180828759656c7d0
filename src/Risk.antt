-- ===== src/Risk.antt =====
-- The risk manager, backend/app/trading/risk_manager.py: the guard that every order passes before
-- it is sent. A rejection is an error value; its message is left out.
pub mod Limits
use veles_moex.Common.{
  ℕ, ◌+◌, ◌-◌, ◌≤◌, String, str_eq, Bool, true, false, not, ◌&&◌, ◌||◌, Option, none, some, List,
  member, leb, if◌then◌else◌,
}
use veles_moex.Decimal.{ℤ, pos, ◌+ℤ◌, neg, abs, ltb_ℤ, leb_ℤ, eq_ℤ}
use veles_moex.Domain.{ExecutionIntent, OrderSide, OrderType, eq_side}
use veles_moex.Position
use veles_moex.Position.{PositionManager, Position}

pub data Rejection : Type 0 where
  emergency_stopped bad_quantity bad_price instrument_blocked not_permitted position_too_large
        daily_loss_reached :
      Rejection

pub data Verdict : Type 0 where
  passed : Verdict
  rejected : Rejection → Verdict

pub record RiskLimits : Type 0 where
  pub max_position_size : Option ℤ
  pub max_concurrent_bots : Option ℕ
  pub daily_loss_limit : Option ℤ
  pub emergency_stop : Bool
  pub blocked_instruments : Option (List String)

-- `instrument_status_check` is a function that the manager is given, or nothing; it answers with
-- a Boolean or with nothing.
pub record RiskManager : Type 0 where
  pub limits : RiskLimits
  pub position_manager : Option PositionManager
  pub daily_pnl : Option ℤ
  pub active_bots : ℕ
  pub instrument_status_check : Option (String → Option Bool)

-- The next check, if this one passed.
infixl 5 ◌then◌
abbrev pub ◌then◌ : Verdict → Verdict → Verdict
passed then v = v
rejected r then v = rejected r

abbrev pub reject_if : Bool → Rejection → Verdict
reject_if true r = rejected r
reject_if false r = passed

unfoldable pub check_quantity : ExecutionIntent → Verdict
check_quantity i = reject_if (leb_ℤ i.quantity (pos 0)) bad_quantity

positive_price : Option ℤ → Bool
positive_price none = false
positive_price (some p) = ltb_ℤ (pos 0) p

check_price_of : OrderType → Option ℤ → Verdict
unfolding positive_price
check_price_of OrderType.market price = passed
check_price_of OrderType.limit price = reject_if (not (positive_price price)) bad_price

unfoldable pub check_price : ExecutionIntent → Verdict
unfolding check_price_of
check_price i = check_price_of i.order_type i.limit_price

is_blocked : Option (List String) → String → Bool
is_blocked none figi = false
is_blocked (some blocked) figi = member str_eq figi blocked

is_refused : Option Bool → Bool
is_refused none = false
is_refused (some status) = not status

is_refused_by : Option (String → Option Bool) → String → Bool
unfolding is_refused
is_refused_by none figi = false
is_refused_by (some check) figi = is_refused (check figi)

unfoldable pub check_instrument_permission : RiskManager → ExecutionIntent → Verdict
unfolding is_blocked is_refused_by
check_instrument_permission m i =
    reject_if (is_blocked m.limits.blocked_instruments i.instrument_figi) instrument_blocked
    then reject_if (is_refused_by m.instrument_status_check i.instrument_figi) not_permitted

size_of : Option Position → ℤ
size_of none = pos 0
size_of (some p) = abs p.quantity

size_in : Option PositionManager → String → ℤ
unfolding size_of
size_in none figi = pos 0
size_in (some positions) figi = size_of (Position.get positions figi)

unfoldable pub current_position : RiskManager → String → ℤ
unfolding size_in
current_position m figi = size_in m.position_manager figi

size_check : Option ℤ → ℤ → Verdict
size_check none projected = passed
size_check (some limit) projected = reject_if (ltb_ℤ limit projected) position_too_large

unfoldable pub check_position_size : RiskManager → ExecutionIntent → Verdict
unfolding size_check
check_position_size m i =
    size_check m.limits.max_position_size (current_position m i.instrument_figi +ℤ abs i.quantity)

loss_check : Option ℤ → Option ℤ → Verdict
loss_check none pnl = passed
loss_check (some limit) none = passed
loss_check (some limit) (some pnl) = reject_if (leb_ℤ pnl (neg limit)) daily_loss_reached

unfoldable pub check_daily_loss : RiskManager → Verdict
unfolding loss_check
check_daily_loss m = loss_check m.limits.daily_loss_limit m.daily_pnl

reduces : Option Position → ExecutionIntent → Bool
reduces none i = false
reduces (some p) i =
    if eq_ℤ p.quantity (pos 0)
    then false
    else if not
        (eq_side i.side (if ltb_ℤ (pos 0) p.quantity then OrderSide.sell else OrderSide.buy))
    then false
    else leb_ℤ (abs i.quantity) (abs p.quantity)

reduces_in : Option PositionManager → ExecutionIntent → Bool
unfolding reduces
reduces_in none i = false
reduces_in (some positions) i = reduces (Position.get positions i.instrument_figi) i

unfoldable pub is_reducing : RiskManager → ExecutionIntent → Bool
unfolding reduces_in
is_reducing m i = reduces_in m.position_manager i

unfoldable pub check_order : RiskManager → ExecutionIntent → Verdict
check_order m i =
    reject_if m.limits.emergency_stop emergency_stopped
    then check_quantity i
    then check_price i
    then check_instrument_permission m i
    then (if is_reducing m i then passed else check_position_size m i then check_daily_loss m)

below : Option ℕ → ℕ → Bool
below none active = true
below (some limit) active = not (leb limit active)

unfoldable pub check_start : RiskManager → Bool
unfolding below
check_start m = below m.limits.max_concurrent_bots m.active_bots

unfoldable pub start_bot : RiskManager → RiskManager
start_bot m = record m { active_bots = m.active_bots + 1 }

unfoldable pub stop_bot : RiskManager → RiskManager
stop_bot m = record m { active_bots = m.active_bots - 1 }

abbrev pub check_emergency_stop : RiskManager → Bool
check_emergency_stop m = m.limits.emergency_stop

unfoldable pub set_emergency_stop : RiskManager → Bool → RiskManager
set_emergency_stop m value = record m { limits = record (m.limits) { emergency_stop = value } }
