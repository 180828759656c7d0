-- ===== src/Orders/State.antt =====
-- The state of `OrderManager`, backend/app/trading/order_manager.py, and the shape of its
-- methods. Order objects live in the repository: a field that a method sets is written there.
-- What is written before a raise stays written, so the state comes back beside an error too.
use veles_moex.Common.{ℕ, String, Bool, Option, List, str, ◌+++◌, if◌then◌else◌}
use veles_moex.Dict.{Dict}
use veles_moex.Domain.{
  ExecutionIntent, InternalOrder, Fill, OrderState, BrokerOrderRequest, eq_state, can_transition,
}
use veles_moex.Position.{PositionManager}
use veles_moex.Repository
use veles_moex.Repository.{OrderRepository}

-- `sent` and `cancels` are the calls made to the broker, `notified` those made to the fill
-- listener, oldest first; `now` is the reading of the system clock.
pub record OrderManager : Type 0 where
  pub intents : Dict ExecutionIntent
  pub orders : OrderRepository
  pub fills : Dict Fill
  pub positions : PositionManager
  pub order_seq : ℕ
  pub listening : Bool
  pub notified : List (InternalOrder × Fill)
  pub sent : List BrokerOrderRequest
  pub cancels : List (String × Option String)
  pub now : ℕ

pub data Raised : Type 0 where
  order_state : OrderState → OrderState → Raised
  key_error : String → Raised
  division_by_zero : Raised

pub data Outcome (A : Type 0) : Type 0 where
  ok : A → Outcome A
  err : Raised → Outcome A

abbrev pub Action : Type 0 → Type 0
Action A = OrderManager → Outcome A × OrderManager

module _ {A : Type 0} where
  abbrev pub pure : A → Action A
  pure a m = (ok a, m)

  abbrev pub raise : Raised → Action A
  raise e m = (err e, m)

infixl 5 ◌>>=◌ ◌>>◌
abbrev pub ◌>>=◌ : {A B : Type 0} → Action A → (A → Action B) → Action B
◌>>=◌ run next m = let (r, m') = run m in elim r [ ok a ↦ next a m' | err e ↦ (err e, m') ]

abbrev pub ◌>>◌ : {A B : Type 0} → Action A → Action B → Action B
run >> next = run >>= λ _. next

abbrev pub modify : (OrderManager → OrderManager) → Action (Unit {0})
modify f m = (ok tt, f m)

-- Sets fields of an order object that the repository holds.
abbrev pub put_order : InternalOrder → OrderManager → OrderManager
put_order o m = record m { orders = Repository.write o m.orders }

-- `self._orders.save(order)`
abbrev pub save_order : InternalOrder → OrderManager → OrderManager
save_order o m = record m { orders = Repository.save o m.orders }

-- `_transition`
unfoldable pub transition : InternalOrder → OrderState → Action InternalOrder
transition o target m =
    if eq_state o.status target
    then (ok o, m)
    else if can_transition o.status target
    then (let o' = record o { status = target; updated_at = m.now } in (ok o', put_order o' m))
    else (err (order_state o.status target), m)

-- `f"order-{seq}"`
unfoldable pub order_name : ℕ → String
order_name n = "order-" +++ str n
