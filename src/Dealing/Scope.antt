-- ===== src/Dealing/Scope.antt =====
-- Which strategies may trade live: `validate_live_deal_config` of backend/app/trading/deal.py, and what
-- it gives to `open_deal` of backend/app/trading/deal_manager.py.
use veles_moex.Common.{◌≢◌, Bool, true, false, not, ◌&&◌, Option, none, some, is_some}
use veles_moex.Strategies.{
  Floats, TradingMode, DcaGridConfig, ExitConfig, TpConfig, StopLossConfig, fixed_percentage,
  multi_take, signal, trailing,
}
use veles_moex.Dealing.{Ran, returned, raised, python_error}

abbrev live_mode : TradingMode → Bool
live_mode TradingMode.simple = true
live_mode TradingMode.custom = true
live_mode TradingMode.signal = false

abbrev chosen_stop : {F : Type 0} → Option (StopLossConfig F) → Bool
chosen_stop none = true
chosen_stop (some sl) = is_some sl.stop_bot_after

module _ {F G : Type 0} where
  abbrev is_fixed : TpConfig F G → Bool
  is_fixed (fixed_percentage _) = true
  is_fixed (multi_take _) = false
  is_fixed (signal _) = false
  is_fixed (trailing _) = false

-- Whether the check returns.
unfoldable pub validate_live_deal_config :
    {F G : Type 0} ⦃fl : Floats F⦄ → DcaGridConfig F G → ExitConfig F G → Bool
validate_live_deal_config ⦃fl⦄ dca exit =
    live_mode dca.mode
    && is_fixed exit.take_profit
    && chosen_stop exit.stop_loss
    && not (is_some exit.signal_stop)
    && fl.same dca.pull_up_percent fl.zero_float

-- A failure that is not an attribute that the configuration does not have.
abbrev pub Foreseen : {A : Type 0} → (A → Type 0) → Ran A → Type 0
Foreseen P (returned a) = P a
Foreseen P (raised f) = f ≢ python_error
