-- ===== src/Tests/Guards.antt =====
-- The risk manager, the alignment of prices and the life of a bot at concrete inputs.
use veles_moex.Common.{
  ℕ, String, ◌≡◌, ◌≤◌, refl, inl, true, false, none, some, List, [], ◌∷◌, arith,
}
use veles_moex.Decimal.{ℤ, pos}
use veles_moex.Dict
use veles_moex.Domain.{OrderSide, ExecutionIntent, long, short}
use veles_moex.Position
use veles_moex.Risk
use veles_moex.Risk.{RiskManager, Verdict, passed}
use veles_moex.Deals.Ticks.{align_grid_price, align_tp_price, align_stop_price}
use veles_moex.Deals.Ticks.Bounds.{Around, aligned_prices_surround}
use veles_moex.Bots.{BotState, BotRuntime, builds, start, fail, bot_state, change}
use veles_moex.Bots.Slots.{
  BotCall, call, call_all, Accounted, slots-Accounted, second_emergency_frees,
  failed_start_keeps_slot, start_within_limit, loading,
}
use veles_moex.Tests.Data.{buy_ten}

abbrev pub portfolio : Position.PositionManager
portfolio = record {
  positions = Dict.put Dict.empty "SBER" (record {
    instrument_figi = "SBER";
    quantity = pos 40;
    average_price = pos 250;
    realized_pnl = pos 0;
    fees = pos 0;
    current_price = none;
    unrealized_pnl = pos 0;
    updated_at = none;
  });
  reconciled = true;
}

abbrev pub guard : RiskManager
guard = record {
  limits = record {
    max_position_size = some (pos 50);
    max_concurrent_bots = some 2;
    daily_loss_limit = some (pos 1000);
    emergency_stop = false;
    blocked_instruments = some ("GAZP" ∷ []);
  };
  position_manager = some portfolio;
  daily_pnl = some (pos 0);
  active_bots = 1;
  instrument_status_check = none;
}

abbrev sell_ten : ExecutionIntent
sell_ten = record (buy_ten) { side = OrderSide.sell }

aligned_prices_surround_example :
    (low : ℤ) × (high : ℤ) × Around (pos 2503) (pos 5) low high
    × (align_grid_price (pos 2503) (some (pos 5)) long ≡ some low)
    × (align_tp_price (pos 2503) (some (pos 5)) long ≡ some high)
    × (align_stop_price (pos 2503) (some (pos 5)) long ≡ some high)
    × (align_grid_price (pos 2503) (some (pos 5)) short ≡ some high)
    × (align_tp_price (pos 2503) (some (pos 5)) short ≡ some low)
    × (align_stop_price (pos 2503) (some (pos 5)) short ≡ some low)
aligned_prices_surround_example = aligned_prices_surround 2503 5 (omega arith)

abbrev idle : BotRuntime String ℕ
idle = record {
  bot_id = 7;
  risk_manager = guard;
  state = BotState.stopped;
  strategy = none;
  trading_engine = none;
}

abbrev week : List (BotCall String ℕ)
week =
    BotCall.started (some ("grid", 1))
    ∷ BotCall.failed
    ∷ BotCall.started (some ("grid", 1))
    ∷ BotCall.emergency_ended false
    ∷ []

slots-Accounted_example : Accounted 1 (call_all week idle)
unfolding call start fail change Risk.check_start Risk.start_bot Risk.stop_bot
slots-Accounted_example =
    slots-Accounted 1 week idle (tt, (tt, (tt, (refl, tt)))) (record { rest = refl; count = refl })

abbrev busy : BotRuntime String ℕ
busy = record (idle) { state = BotState.running; risk_manager = record (guard) { active_bots = 2 } }

second_emergency_frees_example :
    (call
      (BotCall.emergency_ended true)
      (call (BotCall.emergency_ended true) busy)).risk_manager.active_bots
    ≡ 0
second_emergency_frees_example =
    second_emergency_frees 1 true true busy refl (record { rest = refl; count = refl })

failed_start_keeps_slot_example :
    let r = start (builds (λ n. (fail n).1) "grid" (λ n. n) 1) idle in
    (r.0 ≡ some (bot_state BotState.error BotState.running))
    × (r.1.state ≡ BotState.error)
    × (r.1.risk_manager.active_bots ≡ 2)
unfolding Risk.check_start
failed_start_keeps_slot_example = failed_start_keeps_slot "grid" 1 idle (inl refl) refl

start_within_limit_example :
    (start (loading (some ("grid", 1))) idle).1.risk_manager.active_bots ≤ 2
unfolding start change Risk.check_start Risk.start_bot
start_within_limit_example = start_within_limit (loading (some ("grid", 1))) idle 2 refl refl
