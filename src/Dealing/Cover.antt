-- ===== src/Dealing/Cover.antt =====
-- What becomes of a take-profit that is armed again, `_rearm_tp` of
-- backend/app/trading/deal_manager.py.
use veles_moex.Common.{Option, none, some}
use veles_moex.Decimal.{ℤ, pos, abs, Context}
use veles_moex.Domain.{ExecutionIntent}
use veles_moex.Strategies.{Floats}
use veles_moex.Position.{Position}
use veles_moex.Dealing.{DealFailure, Surroundings, Scene, Ran, raised, position_of}
use veles_moex.Dealing.Closing.{close_deal}
use veles_moex.Common.{◌≡◌}
use veles_moex.Decimal.{◌≤ℤ◌, ◌<ℤ◌}
use veles_moex.Dealing.TakeProfit.{TpPlan, nothing_held, refuse, cover, place_tp}

-- A quantity that the position of an instrument covers.
pub record Within (quantity : ℤ) (p : Option Position) : Type 0 where
  pub positive : pos 0 <ℤ quantity
  pub held_of : (q : Position) → p ≡ some q → quantity ≤ℤ abs q.quantity

pub Fits : TpPlan → Option Position → Type 0
Fits nothing_held p = Unit
Fits (refuse e) p = Unit
Fits (cover quantity price average) p = Within quantity p

module _ {F : Type 0} ⦃ctx : Context⦄ ⦃fl : Floats F⦄ ⦃env : Surroundings F⦄ where
  -- The three ways in which arming a take-profit again can end: the deal is closed, there is a failure,
  -- or an order is sent whose quantity is positive and no more than the position that is held as it is
  -- sent.
  pub data Rearmed : Ran (Unit {0}) × Scene F → Type 0 where
    closed_out : (s : Scene F) → Rearmed (close_deal none s)
    gave_up : (e : DealFailure) (s : Scene F) → Rearmed (raised e, s)
    sent :
        (s : Scene F) (i : ExecutionIntent) (quantity price average : ℤ)
        → i.quantity ≡ quantity
        → Within quantity (position_of s.manager s.deal.instrument_figi)
        → Rearmed (place_tp i quantity price average s)
