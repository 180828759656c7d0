-- ===== src/Exits/Triggers.antt =====
-- The decisions: take-profit by signal, the two stops and break-even, of
-- backend/app/strategies/exit.py. Whether a signal fired is an argument, as in the code.
use veles_moex.Common.{ℕ, Bool, true, false, not, ◌&&◌, Option, none, some, if◌then◌else◌}
use veles_moex.Decimal.{ℤ, Context}
use veles_moex.Domain.{Direction}
use veles_moex.Strategies.{
  Floats, StopLossReference, BreakEvenConfig, StopLossConfig, SignalStopLossConfig, ExitConfig,
  exit_side, multi_take, signal,
}
use veles_moex.Exits.Decisions.{
  ExitDecision, ExitState, signal_tp, market, stop_loss, signal_stop, break_even, at_level,
  stop_decision,
}
use veles_moex.Exits.Prices.{pnl_percent, simple_stop_level, breakeven_price, offset_satisfied}

abbrev reference_of : StopLossReference → ℤ → Option ℤ → Option ℤ
reference_of StopLossReference.average_price avg last = some avg
reference_of StopLossReference.last_order avg last = last

abbrev waits_for_grid : StopLossReference → Bool → Bool
waits_for_grid StopLossReference.average_price assembled = false
waits_for_grid StopLossReference.last_order assembled = not assembled

module _ {F : Type 0} where
  when_stop : Option (StopLossConfig F) → Direction → ℤ → ℤ → ℤ → Option ℕ → Option ExitDecision
  unfolding at_level
  when_stop none d level current qty now = none
  when_stop (some sl) d level current qty now = at_level d level current qty now stop_loss

module _ {F G : Type 0} where
  unfoldable pub simple_stop_decision_at_level :
      ExitConfig F G → Direction → ℤ → ℤ → ℤ → Option ℕ → Option ExitDecision
  unfolding when_stop
  simple_stop_decision_at_level c d level current qty now =
      when_stop c.stop_loss d level current qty now

module _ {F : Type 0} ⦃ctx : Context⦄ ⦃fl : Floats F⦄ where
  too_little : Option F → F → Bool
  too_little none pnl = false
  too_little (some least) pnl = fl.less pnl least

  with_level : Option (StopLossConfig F) → Direction → ℤ → ℤ → ℤ → Option ℕ → Option ExitDecision
  unfolding at_level
  with_level none d reference current qty now = none
  with_level (some sl) d reference current qty now =
      at_level d (simple_stop_level reference d sl.percent) current qty now stop_loss

  abbrev far_enough : Option ℤ → Direction → ℤ → F → Bool
  far_enough none d current offset = false
  far_enough (some ref) d current offset = offset_satisfied d ref current offset

  protect :
      Option (BreakEvenConfig F)
      → ExitState
      → ℤ
      → Option ℤ
      → ℤ
      → ℤ
      → Option ℕ
      → Option ExitDecision × ExitState
  unfolding at_level
  protect none s avg previous current qty now = (none, s)
  protect (some b) s avg previous current qty now =
      if s.breakeven_active
      then (let level = breakeven_price b s.direction avg previous in
          (
            at_level s.direction level current qty now break_even,
            record s { breakeven_level = some level },
          ))
      else (none, s)

module _ {F G : Type 0} ⦃ctx : Context⦄ ⦃fl : Floats F⦄ where
  unfoldable pub signal_tp_decision :
      ExitConfig F G → Direction → ℤ → ℤ → ℤ → Bool → Option ℕ → Option ExitDecision
  unfolding too_little
  signal_tp_decision c d avg qty current fired now = elim c.take_profit [
    | signal s ↦
        if fired && not (too_little s.min_pnl_percent (pnl_percent d avg current))
        then some (record {
          exit_type = signal_tp;
          reason = "signal_tp";
          execution = market;
          quantity = qty;
          side = exit_side d;
          trigger_price = some current;
          trigger_time = now;
          order_price = none;
          config_kind = "signal";
        })
        else none
    | _ ↦ none
  ]

  unfoldable pub simple_stop_decision :
      ExitConfig F G → Direction → ℤ → ℤ → ℤ → Option ℕ → Option ExitDecision
  unfolding with_level
  simple_stop_decision c d reference current qty now =
      with_level c.stop_loss d reference current qty now

  signal_passes : SignalStopLossConfig F G → Direction → ℤ → Option ℤ → ℤ → Bool → Bool
  signal_passes sl d avg last current assembled =
      if sl.offset_enabled
      then not (waits_for_grid sl.reference assembled)
        && far_enough (reference_of sl.reference avg last) d current sl.min_offset_percent
      else true

  when_signal :
      Option (SignalStopLossConfig F G)
      → Direction
      → Bool
      → ℤ
      → Option ℤ
      → ℤ
      → ℤ
      → Bool
      → Option ℕ
      → Option ExitDecision
  unfolding signal_passes
  when_signal none d fired avg last current qty assembled now = none
  when_signal (some sl) d fired avg last current qty assembled now =
      if fired && signal_passes sl d avg last current assembled
      then some (stop_decision d none current qty now signal_stop)
      else none

  unfoldable pub signal_stop_decision :
      ExitConfig F G
      → Direction
      → Bool
      → ℤ
      → Option ℤ
      → ℤ
      → ℤ
      → Bool
      → Option ℕ
      → Option ExitDecision
  unfolding when_signal
  signal_stop_decision c d fired avg last current qty assembled now =
      when_signal c.signal_stop d fired avg last current qty assembled now

  -- The state comes back too: the level is recomputed in it.
  unfoldable pub breakeven_decision :
      ExitConfig F G → ExitState → ℤ → Option ℤ → ℤ → ℤ → Option ℕ → Option ExitDecision × ExitState
  unfolding protect
  breakeven_decision c s avg previous current qty now = elim c.take_profit [
    | multi_take m ↦ protect m.breakeven s avg previous current qty now
    | _ ↦ (none, s)
  ]
