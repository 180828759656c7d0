-- ===== src/Bots.antt =====
-- The life of a bot, backend/app/trading/bot_lifecycle.py: `BotRuntime` with its slot at the risk
-- manager. The strategy and the trading engine that a bot holds are types that the model takes. A
-- method that waits takes what other tasks do to the runtime meanwhile, and how what it waits for
-- ends; it returns the error that it raised, if it did, and the runtime.
pub mod Slots
pub mod Cancels
pub mod Registry
use veles_moex.Common.{
  ℕ, Bool, true, false, not, ◌||◌, Option, none, some, List, [], ◌∷◌, member, if◌then◌else◌,
}
use veles_moex.Risk
use veles_moex.Risk.{RiskManager}

pub data BotState : Type 0 where
  stopped starting running stop_requested error emergency_stop : BotState

abbrev pub eq_bot : BotState → BotState → Bool
eq_bot BotState.stopped BotState.stopped = true
eq_bot BotState.starting BotState.starting = true
eq_bot BotState.running BotState.running = true
eq_bot BotState.stop_requested BotState.stop_requested = true
eq_bot BotState.error BotState.error = true
eq_bot BotState.emergency_stop BotState.emergency_stop = true
eq_bot _ _ = false

-- `ALLOWED_BOT_TRANSITIONS`, one clause for each key of the table.
abbrev pub allowed_bot_transitions : BotState → List BotState
allowed_bot_transitions BotState.stopped = BotState.starting ∷ []
allowed_bot_transitions BotState.starting = BotState.running ∷ BotState.error ∷ []
allowed_bot_transitions BotState.running =
    BotState.stop_requested ∷ BotState.emergency_stop ∷ BotState.error ∷ []
allowed_bot_transitions BotState.stop_requested = BotState.stopped ∷ BotState.error ∷ []
allowed_bot_transitions BotState.error = BotState.starting ∷ []
allowed_bot_transitions BotState.emergency_stop = BotState.stopped ∷ []

abbrev pub can_change : BotState → BotState → Bool
can_change current target = member eq_bot target (allowed_bot_transitions current)

-- `RESTART_STATE_MAP.get(persisted, persisted)`
abbrev pub restored_state : BotState → BotState
restored_state BotState.running = BotState.error
restored_state BotState.starting = BotState.error
restored_state BotState.stop_requested = BotState.stopped
restored_state s = s

pub data BotRaised : Type 0 where
  bot_state : BotState → BotState → BotRaised
  start_rejected load_error cancel_error : BotRaised

pub record BotRuntime (S E : Type 0) : Type 0 where
  pub bot_id : ℕ
  pub risk_manager : RiskManager
  pub state : BotState
  pub strategy : Option S
  pub trading_engine : Option E

-- How the strategy is loaded at a START: no loader is wired, or the loader fails, or it answers and
-- no engine factory is wired, or the factory fails, or it answers. Each wait carries what other
-- tasks do.
pub data Loading (S E : Type 0) : Type 0 where
  unwired : Loading S E
  load_fails : (BotRuntime S E → BotRuntime S E) → Loading S E
  loads : (BotRuntime S E → BotRuntime S E) → S → Loading S E
  build_fails :
      (BotRuntime S E → BotRuntime S E) → S → (BotRuntime S E → BotRuntime S E) → Loading S E
  builds :
      (BotRuntime S E → BotRuntime S E) → S → (BotRuntime S E → BotRuntime S E) → E → Loading S E

abbrev pub Ended : Type 0 → Type 0 → Type 0
Ended S E = Option BotRaised × BotRuntime S E

settled_or_failed : BotState → Bool
settled_or_failed s =
    eq_bot s BotState.stopped || eq_bot s BotState.emergency_stop || eq_bot s BotState.error

module _ {S E : Type 0} where
  abbrev pub continue : Ended S E → (BotRuntime S E → Ended S E) → Ended S E
  continue (none, m) k = k m
  continue (some e, m) k = (some e, m)

  abbrev pub can_submit : BotRuntime S E → Bool
  can_submit m = eq_bot m.state BotState.running

  unfoldable pub change : BotState → BotRuntime S E → Ended S E
  change target m =
      if eq_bot target m.state
      then (none, m)
      else if can_change m.state target
      then (none, record m { state = target })
      else (some (bot_state m.state target), m)

  abbrev pub release : BotRuntime S E → BotRuntime S E
  release m = record m { risk_manager = Risk.stop_bot m.risk_manager }

  try_load : Loading S E → BotRuntime S E → Ended S E
  try_load unwired m = (none, m)
  try_load (load_fails w) m = (some load_error, w m)
  try_load (loads w s) m = (none, record (w m) { strategy = some s })
  try_load (build_fails w s v) m = (some load_error, v (record (w m) { strategy = some s }))
  try_load (builds w s v e) m =
      (none, record (v (record (w m) { strategy = some s })) { trading_engine = some e })

  take_slot : BotRuntime S E → Ended S E
  take_slot m =
      if Risk.check_start m.risk_manager
      then (none, record m { risk_manager = Risk.start_bot m.risk_manager })
      else (some start_rejected, m)

  -- The `except` clause of `start`, and what follows the `try`.
  conclude : Ended S E → Ended S E
  conclude (none, m) = change BotState.running m
  conclude (some e, m) = continue (change BotState.error m) (λ n. (some e, n))

  unfoldable pub start : Loading S E → BotRuntime S E → Ended S E
  unfolding try_load take_slot conclude
  start load m =
      continue (change BotState.starting m) (λ n. conclude (continue (try_load load n) take_slot))

  unfoldable pub fail : BotRuntime S E → Ended S E
  unfolding settled_or_failed
  fail m =
      if settled_or_failed m.state
      then (none, m)
      else continue (change BotState.error m)
          (λ n. (none, (if eq_bot m.state BotState.running then release n else n)))

  -- Behind the wait of `stop`: `done` says whether all cancels returned.
  stopping : Bool → BotRuntime S E → Ended S E
  stopping true m = change BotState.stopped (release m)
  stopping false m = continue (change BotState.error m) (λ n. (some cancel_error, release n))

  unfoldable pub stop : (BotRuntime S E → BotRuntime S E) → Bool → BotRuntime S E → Ended S E
  unfolding stopping
  stop meanwhile done m =
      if eq_bot m.state BotState.stopped
      then (none, m)
      else continue (change BotState.stop_requested m) (λ n. stopping done (meanwhile n))

  unfoldable pub emergency : (BotRuntime S E → BotRuntime S E) → Bool → BotRuntime S E → Ended S E
  emergency meanwhile done m =
      continue (change BotState.emergency_stop m)
        (λ n. ((if done then none else some cancel_error), release (meanwhile n)))
