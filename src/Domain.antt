-- ===== src/Domain.antt =====
-- The order domain: backend/app/models/enums.py (order enums), backend/app/trading/domain.py, the
-- order messages of backend/app/brokers/base.py, and `Direction` of
-- backend/app/strategies/config.py. Identifiers are texts, timestamps count from an epoch, money
-- and quantities are Decimals.
pub mod Lifecycle
use veles_moex.Common.{ℕ, String, Bool, true, false, Option, List, [], ◌∷◌, member}
use veles_moex.Decimal.{ℤ, ◌-ℤ◌}

pub data OrderSide : Type 0 where
  buy sell : OrderSide

pub data OrderType : Type 0 where
  limit market : OrderType

pub data OrderStatus : Type 0 where
  new submitted partially_filled filled cancelled rejected expired error unknown : OrderStatus

pub data Direction : Type 0 where
  long short : Direction

pub data OrderState : Type 0 where
  created submitted working partially_filled filled cancel_requested cancelled rejected failed
        unknown :
      OrderState

abbrev pub eq_state : OrderState → OrderState → Bool
eq_state OrderState.created OrderState.created = true
eq_state OrderState.submitted OrderState.submitted = true
eq_state OrderState.working OrderState.working = true
eq_state OrderState.partially_filled OrderState.partially_filled = true
eq_state OrderState.filled OrderState.filled = true
eq_state OrderState.cancel_requested OrderState.cancel_requested = true
eq_state OrderState.cancelled OrderState.cancelled = true
eq_state OrderState.rejected OrderState.rejected = true
eq_state OrderState.failed OrderState.failed = true
eq_state OrderState.unknown OrderState.unknown = true
eq_state _ _ = false

abbrev pub eq_side : OrderSide → OrderSide → Bool
eq_side buy buy = true
eq_side sell sell = true
eq_side _ _ = false

-- `ALLOWED_TRANSITIONS`, one clause for each key of the table.
abbrev pub allowed_transitions : OrderState → List OrderState
allowed_transitions OrderState.created =
    OrderState.submitted ∷ OrderState.rejected ∷ OrderState.failed ∷ []
allowed_transitions OrderState.submitted =
    OrderState.working ∷ OrderState.partially_filled ∷ OrderState.filled
    ∷ OrderState.cancel_requested ∷ OrderState.cancelled ∷ OrderState.rejected ∷ OrderState.failed
    ∷ OrderState.unknown ∷ []
allowed_transitions OrderState.working =
    OrderState.partially_filled ∷ OrderState.filled ∷ OrderState.cancel_requested
    ∷ OrderState.cancelled ∷ OrderState.rejected ∷ OrderState.failed ∷ OrderState.unknown ∷ []
allowed_transitions OrderState.partially_filled =
    OrderState.partially_filled ∷ OrderState.filled ∷ OrderState.cancel_requested
    ∷ OrderState.cancelled ∷ OrderState.rejected ∷ OrderState.failed ∷ OrderState.unknown ∷ []
allowed_transitions OrderState.cancel_requested =
    OrderState.partially_filled ∷ OrderState.filled ∷ OrderState.cancelled ∷ OrderState.failed
    ∷ OrderState.unknown ∷ []
allowed_transitions OrderState.filled = []
allowed_transitions OrderState.cancelled = []
allowed_transitions OrderState.rejected = []
allowed_transitions OrderState.failed = []
allowed_transitions OrderState.unknown =
    OrderState.submitted ∷ OrderState.working ∷ OrderState.partially_filled ∷ OrderState.filled
    ∷ OrderState.cancelled ∷ OrderState.rejected ∷ OrderState.failed ∷ []

abbrev pub terminal_states : List OrderState
terminal_states =
    OrderState.filled ∷ OrderState.cancelled ∷ OrderState.rejected ∷ OrderState.failed ∷ []

abbrev pub is_terminal : OrderState → Bool
is_terminal s = member eq_state s terminal_states

abbrev pub can_transition : OrderState → OrderState → Bool
can_transition current target = member eq_state target (allowed_transitions current)

pub record ExecutionIntent : Type 0 where
  pub intent_id : String
  pub trade_id : String
  pub instrument_figi : String
  pub side : OrderSide
  pub order_type : OrderType
  pub quantity : ℤ
  pub limit_price : Option ℤ
  pub reason : String
  pub account_id : Option String
  pub created_at : ℕ
  pub idempotency_key : String
  pub bot_id : Option ℕ

pub record InternalOrder : Type 0 where
  pub order_id : String
  pub intent_id : String
  pub instrument_figi : String
  pub side : OrderSide
  pub order_type : OrderType
  pub requested_quantity : ℤ
  pub limit_price : Option ℤ
  pub idempotency_key : String
  pub account_id : Option String
  pub broker_order_id : Option String
  pub filled_quantity : ℤ
  pub average_fill_price : ℤ
  pub status : OrderState
  pub created_at : ℕ
  pub updated_at : ℕ
  pub reject_info : Option String
  pub bot_id : Option ℕ

abbrev pub remaining_quantity : InternalOrder → ℤ
remaining_quantity o = o.requested_quantity -ℤ o.filled_quantity

pub record Fill : Type 0 where
  pub fill_id : String
  pub internal_order_id : String
  pub quantity : ℤ
  pub price : ℤ
  pub fee : ℤ
  pub broker_execution_id : Option String
  pub timestamp : ℕ

pub record OrderUpdate : Type 0 where
  pub broker_order_id : String
  pub status : OrderState
  pub internal_order_id : Option String
  pub idempotency_key : Option String
  pub filled_quantity : Option ℤ
  pub average_fill_price : Option ℤ
  pub reject_info : Option String
  pub timestamp : ℕ

pub record TradeFill : Type 0 where
  pub execution_id : String
  pub broker_order_id : String
  pub quantity : ℤ
  pub price : ℤ
  pub fee : ℤ
  pub internal_order_id : Option String
  pub idempotency_key : Option String
  pub timestamp : ℕ

pub record PositionUpdate : Type 0 where
  pub instrument_figi : String
  pub quantity : ℤ
  pub average_price : Option ℤ
  pub current_price : Option ℤ
  pub unrealized_pnl : Option ℤ
  pub timestamp : ℕ

-- The messages of the broker interface, app/brokers/base.py.
pub record BrokerOrderRequest : Type 0 where
  pub instrument_figi : String
  pub side : OrderSide
  pub quantity : ℤ
  pub order_type : OrderType
  pub price : Option ℤ
  pub account_id : Option String
  pub idempotency_key : String

pub record BrokerExecution : Type 0 where
  pub execution_id : String
  pub quantity : ℤ
  pub price : ℤ
  pub broker_order_id : Option String
  pub commission : ℤ
  pub timestamp : Option ℕ

pub record BrokerOrder : Type 0 where
  pub order_id : String
  pub status : OrderStatus
  pub account_id : Option String
  pub instrument_figi : Option String
  pub ticker : Option String
  pub order_type : Option OrderType
  pub side : Option OrderSide
  pub requested_quantity : ℤ
  pub executed_quantity : ℤ
  pub price : Option ℤ
  pub executed_average_price : Option ℤ
  pub executions : List BrokerExecution
  pub idempotency_key : Option String
  pub currency : Option String
  pub created_at : Option ℕ
  pub updated_at : Option ℕ
  pub reject_info : Option String
