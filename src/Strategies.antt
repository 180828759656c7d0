-- ===== src/Strategies.antt =====
-- The strategy configuration, backend/app/strategies/config.py, and the planned orders of
-- backend/app/strategies/domain.py. Floats and filter groups are types that the model takes, floats
-- with the operations of a `Floats`.
use veles_moex.Common.{ℕ, ◌*◌, Bool, Option, List, if◌then◌else◌}
use veles_moex.Decimal.{ℤ, pos, Context, ◌+ℤ◌}
use veles_moex.Domain.{OrderSide, Direction, long, short, buy, sell}

-- `of_float x` is `Decimal(str(x))` and `to_float d` is `float(d)`; the others are Python's
-- operators on floats.
pub record Floats (F : Type 0) : Type 0 where
  pub of_float : F → ℤ
  pub to_float : ℤ → F
  pub zero_float : F
  pub one_float : F
  pub add : F → F → F
  pub sub : F → F → F
  pub pow : F → ℕ → F
  pub less : F → F → Bool
  pub same : F → F → Bool

-- `d ** n`, a power of a `Decimal`.
pub record Powers : Type 0 where
  pub power : ℤ → ℕ → ℤ

pub data TradingMode : Type 0 where
  simple custom signal : TradingMode

pub data SignalOffsetReference : Type 0 where
  previous_order reference : SignalOffsetReference

pub data ExitMode : Type 0 where
  simple custom signal : ExitMode

pub data StopLossReference : Type 0 where
  average_price last_order : StopLossReference

pub data BreakEvenReference : Type 0 where
  average_price previous_take : BreakEvenReference

pub record CustomLevel (F : Type 0) : Type 0 where
  pub offset_percent : F
  pub nominal_percent : F

pub record DcaGridConfig (F G : Type 0) : Type 0 where
  pub mode : TradingMode
  pub levels : ℕ
  pub overlap_percent : F
  pub spacing_percent : F
  pub martingale_percent : F
  pub logarithmic_factor : F
  pub first_order_offset_percent : F
  pub pull_up_percent : F
  pub active_limit : Option ℕ
  pub custom_levels : List (CustomLevel F)
  pub signal_groups : List G
  pub signal_offset_type : SignalOffsetReference
  pub signal_min_offset_percent : F

pub record TakeItem (F : Type 0) : Type 0 where
  pub offset_percent : F
  pub volume_percent : F

pub record BreakEvenConfig (F : Type 0) : Type 0 where
  pub reference : BreakEvenReference
  pub deviation_percent : F

pub record MultiTakeTp (F : Type 0) : Type 0 where
  pub takes : List (TakeItem F)
  pub breakeven : Option (BreakEvenConfig F)

pub record SignalTp (F G : Type 0) : Type 0 where
  pub groups : List G
  pub min_pnl_percent : Option F

-- The classes of the union `TpConfig`.
pub data TpConfig (F G : Type 0) : Type 0 where
  fixed_percentage : F → TpConfig F G
  multi_take : MultiTakeTp F → TpConfig F G
  signal : SignalTp F G → TpConfig F G
  trailing : F → TpConfig F G

pub record StopLossConfig (F : Type 0) : Type 0 where
  pub percent : F
  pub stop_bot_after : Option Bool

pub record SignalStopLossConfig (F G : Type 0) : Type 0 where
  pub groups : List G
  pub reference : StopLossReference
  pub min_offset_percent : F
  pub offset_enabled : Bool

pub record ExitConfig (F G : Type 0) : Type 0 where
  pub take_profit : TpConfig F G
  pub stop_loss : Option (StopLossConfig F)
  pub signal_stop : Option (SignalStopLossConfig F G)

pub record GridOrder (F P : Type 0) : Type 0 where
  pub side : OrderSide
  pub quantity : F
  pub price : Option P
  pub offset_percent : F
  pub nominal : F

pub record ExitPlan (F : Type 0) : Type 0 where
  pub side : OrderSide
  pub quantity : F
  pub price : Option ℤ
  pub offset_percent : F

-- `Decimal("1")` and `Decimal("100")`
abbrev pub decimal_one : ⦃ctx : Context⦄ → ℤ
decimal_one ⦃ctx⦄ = pos ctx.one

abbrev pub hundred : ⦃ctx : Context⦄ → ℤ
hundred ⦃ctx⦄ = pos (100 * ctx.one)

module _ {F : Type 0} ⦃ctx : Context⦄ ⦃fl : Floats F⦄ where
  -- `Decimal(str(percent)) / Decimal("100")`
  abbrev pub share_of : F → ℤ
  share_of percent = ctx.div (fl.of_float percent) hundred

-- `_exit_side`
abbrev pub exit_side : Direction → OrderSide
exit_side long = sell
exit_side short = buy

-- `_side`
abbrev pub entry_side : Direction → OrderSide
entry_side long = buy
entry_side short = sell

module _ {F G : Type 0} ⦃ctx : Context⦄ ⦃fl : Floats F⦄ where
  -- How much larger each order of a grid is than the one before.
  unfoldable pub multiplier : DcaGridConfig F G → ℤ
  multiplier c =
      if fl.less fl.zero_float c.martingale_percent
      then decimal_one +ℤ share_of c.martingale_percent
      else decimal_one
