-- ===== src/Exits/Decisions.antt =====
-- Exit decisions and the choice among them: `ExitDecision`, `ExitState`, `select`, `_stop_decision` and
-- the trigger comparisons of backend/app/strategies/exit.py.
use veles_moex.Common.{ℕ, ltb, String, Bool, Option, none, some, List, [], ◌∷◌, if◌then◌else◌}
use veles_moex.Decimal.{ℤ, pos, leb_ℤ, eq_ℤ}
use veles_moex.Domain.{OrderSide, Direction, long, short}
use veles_moex.Strategies.{ExitMode, exit_side}

pub data ExitType : Type 0 where
  fixed_tp take signal_tp break_even stop_loss signal_stop : ExitType

pub data ExitExecution : Type 0 where
  limit market : ExitExecution

pub record ExitDecision : Type 0 where
  pub exit_type : ExitType
  pub reason : String
  pub execution : ExitExecution
  pub quantity : ℤ
  pub side : OrderSide
  pub trigger_price : Option ℤ
  pub trigger_time : Option ℕ
  pub order_price : Option ℤ
  pub config_kind : String

pub record ExitState : Type 0 where
  pub mode : ExitMode
  pub direction : Direction
  pub executed_takes : List ℕ
  pub breakeven_active : Bool
  pub breakeven_level : Option ℤ
  pub last_take_price : Option ℤ
  pub average_price : ℤ
  pub remaining_quantity : ℤ

-- `exit_type.value`
abbrev pub value : ExitType → String
value fixed_tp = "fixed_tp"
value take = "take"
value signal_tp = "signal_tp"
value break_even = "breakeven"
value stop_loss = "stop_loss"
value signal_stop = "signal_stop"

-- `_PRIORITY.get(exit_type, 99)`
abbrev pub priority : ExitType → ℕ
priority signal_stop = 1
priority stop_loss = 2
priority break_even = 3
priority signal_tp = 4
priority _ = 99

-- The first of the decisions with the smallest key: the index, which is the second part of the key,
-- grows along the list.
pub better : ExitDecision → Option ExitDecision → ExitDecision
better d none = d
better d (some e) = if ltb (priority e.exit_type) (priority d.exit_type) then e else d

unfoldable pub select : List ExitDecision → Option ExitDecision
unfolding better
select [] = none
select (d ∷ ds) = let rest = select ds in some (better d rest)

-- `level or current_price`
or_current : Option ℤ → ℤ → ℤ
or_current none current = current
or_current (some level) current = if eq_ℤ level (pos 0) then current else level

unfoldable pub stop_decision : Direction → Option ℤ → ℤ → ℤ → Option ℕ → ExitType → ExitDecision
unfolding or_current
stop_decision d level current qty now kind = record {
  exit_type = kind;
  reason = value kind;
  execution = market;
  quantity = qty;
  side = exit_side d;
  trigger_price = some (or_current level current);
  trigger_time = now;
  order_price = none;
  config_kind = value kind;
}

-- The trigger comparison of a protective exit.
abbrev pub crossed : Direction → ℤ → ℤ → Bool
crossed long current level = leb_ℤ current level
crossed short current level = leb_ℤ level current

unfoldable pub at_level : Direction → ℤ → ℤ → ℤ → Option ℕ → ExitType → Option ExitDecision
at_level d level current qty now kind =
    if crossed d current level
    then some (stop_decision d (some level) current qty now kind)
    else none
