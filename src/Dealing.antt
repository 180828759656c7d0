-- ===== src/Dealing.antt =====
-- The state of `DealManager`, backend/app/trading/deal_manager.py, and the shape of its methods.
-- A method works on a `Scene`: the manager and the deal at hand, one object for all of the method;
-- what is written before a raise stays written, so the scene comes back beside a failure too. Each
-- await takes the next `Moment`: what other tasks do meanwhile and what the awaited call answers.
-- A message is left out of a failure, and a callback is a list of the calls made to it.
pub mod Failures
pub mod Closing
pub mod TakeProfit
pub mod Stops
pub mod Levels
pub mod Fills
pub mod Watch
pub mod Restore
pub mod Recovery
pub mod Scope
pub mod Opening
pub mod Cover
pub mod Promotion
pub mod Blocks
use veles_moex.Common.{
  ℕ, ◌+◌, ◌≡◌, refl, String, Bool, Option, none, some, List, str, ◌+++◌, if◌then◌else◌,
}
use veles_moex.Dict.{Dict}
use veles_moex.Decimal.{ℤ}
use veles_moex.Domain.{OrderSide, ExecutionIntent, InternalOrder, Fill}
use veles_moex.Position
use veles_moex.Position.{Position, PositionManager}
use veles_moex.Risk.{RiskManager, Verdict, check_order}
use veles_moex.Deals.Store.{Deal, InMemoryDealStore}
use veles_moex.Orders.State.{OrderManager, Raised, Outcome, ok, err, Action}
use veles_moex.Orders.Submit.{Reply}

-- The subclasses of `DealError`, and behind them the other exceptions.
pub data DealFailure : Type 0 where
  deal_blocked tick_size_invalid stop_was_executed order_rejected reconciliation_required
        position_contradiction :
      DealFailure
  lot_size_unavailable sizing_below_lot grid_not_built python_error store_raised broker_raised :
      DealFailure
  orders_raised : Raised → DealFailure

pub data StopOrderStatus : Type 0 where
  active executed cancelled expired unknown : StopOrderStatus

pub record BrokerStopOrderRequest : Type 0 where
  pub instrument_figi : String
  pub side : OrderSide
  pub quantity : ℤ
  pub stop_price : ℤ
  pub account_id : Option String
  pub idempotency_key : String

-- What the deal manager reads of a stop order and of a position of the broker.
pub record BrokerStopOrder : Type 0 where
  pub order_id : String
  pub status : StopOrderStatus

pub record BrokerPosition : Type 0 where
  pub instrument_figi : String
  pub quantity : ℤ
  pub current_price : ℤ

-- `bot_errors` and `stop_losses` are the calls of the two callbacks, which are there if
-- `reports_errors` and `reports_stops` say so; `stops_placed` and `stop_cancels` are the stop orders
-- asked of the broker; all oldest first. `waits` counts the awaits.
pub record DealManager (F : Type 0) : Type 0 where
  pub store : InMemoryDealStore F
  pub orders : OrderManager
  pub risk : RiskManager
  pub deals : Dict (Deal F)
  pub blocked : List ℕ
  pub pending : List (InternalOrder × Fill)
  pub last_error : Option DealFailure
  pub errors : Dict DealFailure
  pub reports_errors : Bool
  pub reports_stops : Bool
  pub bot_errors : List (ℕ × DealFailure)
  pub stop_losses : List (ℕ × Bool)
  pub stops_placed : List BrokerStopOrderRequest
  pub stop_cancels : List (String × Option String)
  pub waits : ℕ

-- One await: what other tasks do meanwhile to the order manager and to the rest, and what the awaited
-- call answers, of whatever kind it is; `returns` is false if it raises.
pub record Moment (F : Type 0) : Type 0 where
  pub orders_meanwhile : OrderManager → OrderManager
  pub meanwhile : DealManager F → DealManager F
  pub returns : Bool
  pub uuid : String
  pub reply : Reply
  pub stop_orders : List BrokerStopOrder
  pub open_positions : List BrokerPosition
  pub placed : BrokerStopOrder

pub record Surroundings (F : Type 0) : Type 0 where
  pub moment : ℕ → Moment F

pub record Scene (F : Type 0) : Type 0 where
  pub manager : DealManager F
  pub deal : Deal F

pub data Ran (A : Type 0) : Type 0 where
  returned : A → Ran A
  raised : DealFailure → Ran A

abbrev pub Act : Type 0 → Type 0 → Type 0
Act F A = Scene F → Ran A × Scene F

module _ {F A : Type 0} where
  abbrev pub give : A → Act F A
  give a s = (returned a, s)

  abbrev pub fail_with : DealFailure → Act F A
  fail_with e s = (raised e, s)

unfoldable pub lifted : {A : Type 0} → Outcome A → Ran A
lifted (ok a) = returned a
lifted (err e) = raised (orders_raised e)

infixl 5 ◌then_do◌
unfoldable pub ◌then_do◌ : {F A B : Type 0} → Act F A → (A → Act F B) → Act F B
(run then_do next) s =
    let (r, s') = run s in elim r [ returned a ↦ next a s' | raised e ↦ (raised e, s') ]

-- What a step that returns leaves behind.
unfoldable pub Holds : {F A : Type 0} → (A → Scene F → Type 0) → Ran A × Scene F → Type 0
Holds Q (returned a, s) = Q a s
Holds Q (raised e, s) = Unit

module _ {F A B : Type 0} (run : Act F A) (next : A → Act F B) (s : Scene F) where
  split_run :
      (P : Ran B × Scene F → Type 0) (o : Ran A × Scene F)
      → ((e : DealFailure) (s' : Scene F) → o ≡ (raised e, s') → P (raised e, s'))
      → ((a : A) (s' : Scene F) → o ≡ (returned a, s') → P (next a s'))
      → P (let (r, s') = o in elim r [ returned a ↦ next a s' | raised e ↦ (raised e, s') ])
  split_run P (returned a, s') failing going = going a s' refl
  split_run P (raised e, s') failing going = failing e s' refl

  -- A property of two steps, from those of the ends of the first.
  pub then_do-cases :
      (P : Ran B × Scene F → Type 0)
      → ((e : DealFailure) (s' : Scene F) → run s ≡ (raised e, s') → P (raised e, s'))
      → ((a : A) (s' : Scene F) → run s ≡ (returned a, s') → P (next a s'))
      → P ((run then_do next) s)
  unfolding ◌then_do◌
  then_do-cases P failing going = split_run P (run s) failing going

module _ {F : Type 0} where
  -- Sets fields of the deal at hand.
  abbrev pub change_deal : (Deal F → Deal F) → Act F (Unit {0})
  change_deal f s = (returned tt, record s { deal = f s.deal })

  abbrev pub now_moment : ⦃env : Surroundings F⦄ → DealManager F → Moment F
  now_moment ⦃env⦄ w = env.moment w.waits

  -- The manager behind an await that is not one of the order manager.
  abbrev pub later : ⦃env : Surroundings F⦄ → DealManager F → DealManager F
  later ⦃env⦄ w =
      let m = env.moment w.waits in
      m.meanwhile (record w { orders = m.orders_meanwhile w.orders; waits = w.waits + 1 })

  -- A method of the order manager, which awaits the broker.
  unfoldable pub on_orders : {A : Type 0} ⦃env : Surroundings F⦄ → (Moment F → Action A) → Act F A
  unfolding lifted
  on_orders ⦃env⦄ call s =
      let w = s.manager in
      let m = env.moment w.waits in
      let (r, orders') = call m w.orders in
      let w' = m.meanwhile (record w { waits = w.waits + 1 }) in
      (lifted r, record s { manager = record w' { orders = orders' } })

-- The risk manager looks at the position manager of the order manager, if it looks at one.
shared_positions : Option PositionManager → PositionManager → Option PositionManager
shared_positions none positions = none
shared_positions (some _) positions = some positions

module _ {F : Type 0} where
  -- `self._rm.check_order(intent)`
  unfoldable pub gate : DealManager F → ExecutionIntent → Verdict
  unfolding shared_positions
  gate w i =
      check_order
        (record w.risk {
          position_manager = shared_positions w.risk.position_manager w.orders.positions;
        })
        i

  -- `self._pm.get(figi)`
  abbrev pub position_of : DealManager F → String → Option Position
  position_of w figi = Position.get w.orders.positions figi

-- `f"{deal_id}"`
abbrev pub id_text : Option ℕ → String
id_text none = "None"
id_text (some n) = str n
