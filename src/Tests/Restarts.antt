-- ===== src/Tests/Restarts.antt =====
-- A restart with two rows: a bot that ran, and one whose stored text is no state.
use veles_moex.Common.{ℕ, String, ap, sym, none, some, [], ◌∷◌}
use veles_moex.Dict
use veles_moex.Bots.{BotState, BotRuntime}
use veles_moex.Bots.Registry.{
  Registry, AllRest, MakesIn, restore_persisted_states, AllRest-restore_persisted_states,
}
use veles_moex.Tests.Guards.{guard}
use mathlib.Core.Option.{some-injective}

abbrev made : ℕ → BotState → BotRuntime String ℕ
made id st = record {
  bot_id = id;
  risk_manager = guard;
  state = st;
  strategy = none;
  trading_engine = none;
}

abbrev empty_registry : Registry String ℕ
empty_registry = record { risk_manager = guard; factory = some made; runtimes = Dict.empty }

empty_rests : AllRest empty_registry
unfolding Dict.get Dict.empty
empty_rests = record { at_rest = λ k r e. absurd (cc e) }

makes_made : MakesIn empty_registry
makes_made = record {
  makes = λ make id st e. ap (λ f. (f id st).state) (sym (some-injective _ _ e));
}

AllRest-restore_persisted_states_example :
    AllRest
      (restore_persisted_states
        (λ g. g)
        ((7, some BotState.running) ∷ (8, none) ∷ [])
        empty_registry).2
AllRest-restore_persisted_states_example =
    AllRest-restore_persisted_states (λ g. g) ((7, some BotState.running) ∷ (8, none) ∷ [])
      empty_registry empty_rests makes_made (λ h q. q) (λ h m. m)
