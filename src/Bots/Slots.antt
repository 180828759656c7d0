-- ===== src/Bots/Slots.antt =====
-- The slots of the risk manager over the life of a bot.
use veles_moex.Common.{
  ℕ, ◌+◌, ◌-◌, ◌≤◌, ◌≡◌, refl, ◌⊎◌, inl, inr, Bool, true, false, Option, none, some, List, [], ◌∷◌,
  arith, Bool-cases,
}
use veles_moex.Risk
use veles_moex.Risk.{RiskManager}
use veles_moex.Bots.{
  BotState, eq_bot, BotRuntime, BotRaised, Ended, Loading, builds, change, start, fail, stop,
  emergency, continue, bot_state, conclude, try_load, take_slot,
}

-- The slots that a bot in a state is meant to hold.
abbrev pub slots : BotState → ℕ
slots BotState.running = 1
slots _ = 0

-- No call is under way in these states.
abbrev pub at_rest : BotState → Bool
at_rest BotState.starting = false
at_rest BotState.stop_requested = false
at_rest _ = true

-- Calls that wait for nothing but their own end. The strategy may load or fail to.
pub data BotCall (S E : Type 0) : Type 0 where
  started : Option (S × E) → BotCall S E
  failed : BotCall S E
  ended emergency_ended : Bool → BotCall S E

module _ {S E : Type 0} where
  abbrev pub loading : Option (S × E) → Loading S E
  loading none = Loading.load_fails (λ m. m)
  loading (some (s, e)) = builds (λ m. m) s (λ m. m) e

  unfoldable pub call : BotCall S E → BotRuntime S E → BotRuntime S E
  call (started load) m = (start (loading load) m).1
  call failed m = (fail m).1
  call (ended done) m = (stop (λ n. n) done m).1
  call (emergency_ended done) m = (emergency (λ n. n) done m).1

  -- The bot is at rest, and the risk manager counts the slots of the others and its own.
  pub record Accounted (others : ℕ) (m : BotRuntime S E) : Type 0 where
    pub rest : at_rest m.state ≡ true
    pub count : m.risk_manager.active_bots ≡ others + slots m.state

  abbrev pub IsFirst : BotCall S E → BotRuntime S E → Type 0
  IsFirst (emergency_ended done) m = eq_bot m.state BotState.emergency_stop ≡ false
  IsFirst _ m = Unit

  -- A runtime by its parts.
  abbrev bot : ℕ → RiskManager → Option S → Option E → BotState → BotRuntime S E
  bot id r strategy engine s = record {
    bot_id = id;
    risk_manager = r;
    state = s;
    strategy = strategy;
    trading_engine = engine;
  }

  module _ (others id : ℕ) (r : RiskManager) (strategy : Option S) (engine : Option E) where
    loaded :
        (load : Option (S × E))
        → r.active_bots ≡ others + 0
        → Accounted others
            (conclude (
              continue
                (try_load (loading load) (bot id r strategy engine BotState.starting))
                take_slot)).1
    unfolding start change Risk.start_bot
    loaded none h = record { rest = refl; count = h }
    loaded (some (s, e)) h = elim (Bool-cases (Risk.check_start r)) [
      | inl free ↦ rw free (record { rest = refl; count = omega (arith, h) })
      | inr full ↦ rw full (record { rest = refl; count = h })
    ]

    start-Accounted :
        (s : BotState) (load : Option (S × E))
        → Accounted others (bot id r strategy engine s)
        → Accounted others (start (loading load) (bot id r strategy engine s)).1
    unfolding start change
    start-Accounted BotState.stopped load h = loaded load h.count
    start-Accounted BotState.error load h = loaded load h.count
    start-Accounted BotState.running load h = h
    start-Accounted BotState.emergency_stop load h = h
    start-Accounted BotState.starting load h = cc (h.rest)
    start-Accounted BotState.stop_requested load h = cc (h.rest)

    fail-Accounted :
        (s : BotState)
        → Accounted others (bot id r strategy engine s)
        → Accounted others (fail (bot id r strategy engine s)).1
    unfolding fail change Risk.stop_bot
    fail-Accounted BotState.stopped h = h
    fail-Accounted BotState.error h = h
    fail-Accounted BotState.running h = record { rest = refl; count = omega (arith, h.count) }
    fail-Accounted BotState.emergency_stop h = h
    fail-Accounted BotState.starting h = cc (h.rest)
    fail-Accounted BotState.stop_requested h = cc (h.rest)

    stop-Accounted :
        (s : BotState) (done : Bool)
        → Accounted others (bot id r strategy engine s)
        → Accounted others (stop (λ n. n) done (bot id r strategy engine s)).1
    unfolding stop change Risk.stop_bot
    stop-Accounted BotState.stopped done h = h
    stop-Accounted BotState.error done h = h
    stop-Accounted BotState.running true h = record { rest = refl; count = omega (arith, h.count) }
    stop-Accounted BotState.running false h = record { rest = refl; count = omega (arith, h.count) }
    stop-Accounted BotState.emergency_stop done h = h
    stop-Accounted BotState.starting done h = cc (h.rest)
    stop-Accounted BotState.stop_requested done h = cc (h.rest)

    emergency-Accounted :
        (s : BotState) (done : Bool)
        → eq_bot s BotState.emergency_stop ≡ false
        → Accounted others (bot id r strategy engine s)
        → Accounted others (emergency (λ n. n) done (bot id r strategy engine s)).1
    unfolding emergency change Risk.stop_bot
    emergency-Accounted BotState.stopped done f h = h
    emergency-Accounted BotState.error done f h = h
    emergency-Accounted BotState.running done f h = record {
      rest = refl;
      count = omega (arith, h.count);
    }
    emergency-Accounted BotState.emergency_stop done f h = cc
    emergency-Accounted BotState.starting done f h = cc (h.rest)
    emergency-Accounted BotState.stop_requested done f h = cc (h.rest)

  call-Accounted :
      (others : ℕ) (c : BotCall S E) (m : BotRuntime S E)
      → IsFirst c m
      → Accounted others m
      → Accounted others (call c m)
  unfolding call
  call-Accounted others (started load) m f h =
      start-Accounted others m.bot_id m.risk_manager m.strategy m.trading_engine m.state load h
  call-Accounted others failed m f h =
      fail-Accounted others m.bot_id m.risk_manager m.strategy m.trading_engine m.state h
  call-Accounted others (ended done) m f h =
      stop-Accounted others m.bot_id m.risk_manager m.strategy m.trading_engine m.state done h
  call-Accounted others (emergency_ended done) m f h =
      emergency-Accounted others m.bot_id m.risk_manager m.strategy m.trading_engine m.state done f
        h

  pub call_all : List (BotCall S E) → BotRuntime S E → BotRuntime S E
  call_all [] m = m
  call_all (c ∷ cs) m = call_all cs (call c m)

  abbrev pub AllFirst : List (BotCall S E) → BotRuntime S E → Type 0
  AllFirst [] m = Unit
  AllFirst (c ∷ cs) m = IsFirst c m × AllFirst cs (call c m)

  -- Over any run of starts, failures, stops and emergency stops, one after the other and ending
  -- well or with an error, the risk manager counts one slot for the bot while it runs and none
  -- otherwise, and the slots of the other bots stay as they are, as long as no emergency stop is
  -- asked of a bot that is in an emergency stop.
  pub slots-Accounted :
      (others : ℕ) (cs : List (BotCall S E)) (m : BotRuntime S E)
      → AllFirst cs m
      → Accounted others m
      → Accounted others (call_all cs m)
  unfolding call_all
  slots-Accounted others [] m f h = h
  slots-Accounted others (c ∷ cs) m f h =
      slots-Accounted others cs (call c m) f.1 (call-Accounted others c m f.0 h)

  -- An emergency stop that is asked of a running bot a second time gives back a slot that is not
  -- the bot's: one of the other bots is counted no more.
  pub second_emergency_frees :
      (others : ℕ) (first second : Bool) (m : BotRuntime S E)
      → m.state ≡ BotState.running
      → Accounted others m
      → (call (emergency_ended second) (call (emergency_ended first) m)).risk_manager.active_bots
        ≡ others - 1
  unfolding call emergency change Risk.stop_bot
  second_emergency_frees others first second m e h =
      let one : m.risk_manager.active_bots ≡ others + 1 = rw e at h.count in
      rw e (omega (arith, one))

  -- A bot that fails while its strategy is loaded keeps a slot: the start goes on, takes the slot and
  -- then raises, and the bot is left in the error state with one more bot counted.
  pub failed_start_keeps_slot :
      (s : S) (e : E) (m : BotRuntime S E)
      → (m.state ≡ BotState.stopped) ⊎ (m.state ≡ BotState.error)
      → Risk.check_start m.risk_manager ≡ true
      → let r = start (builds (λ n. (fail n).1) s (λ n. n) e) m in
        (r.0 ≡ some (bot_state BotState.error BotState.running))
        × (r.1.state ≡ BotState.error)
        × (r.1.risk_manager.active_bots ≡ m.risk_manager.active_bots + 1)
  unfolding start fail change Risk.start_bot
  failed_start_keeps_slot s e m (inl rest) free = rw (rest, free) (refl, refl, refl)
  failed_start_keeps_slot s e m (inr rest) free = rw (rest, free) (refl, refl, refl)

  abbrev Within : BotRuntime S E → Type 0
  Within m =
      (L : ℕ) → m.risk_manager.limits.max_concurrent_bots ≡ some L → m.risk_manager.active_bots ≤ L

  slot-Within : (m : BotRuntime S E) → (take_slot m).0 ≡ none → Within (take_slot m).1
  unfolding start Risk.start_bot Risk.check_start
  slot-Within m h L e = elim (Bool-cases (Risk.check_start m.risk_manager)) [
    | inl free ↦ ground (arith, free, e)
    | inr full ↦ absurd (some_ne_none (rw full at h))
  ]
    where
      some_ne_none : some BotRaised.start_rejected ≡ none → ⊥
      some_ne_none q = cc

  taken-Within : (r : Ended S E) → (continue r take_slot).0 ≡ none → Within (continue r take_slot).1
  taken-Within (none, m) h = slot-Within m h
  taken-Within (some e, m) h = absurd (some_ne_none h)
    where
      some_ne_none : some e ≡ none → ⊥
      some_ne_none q = cc

  changed-Within : (m : BotRuntime S E) (s : BotState) → Within m → Within (change s m).1
  unfolding change
  changed-Within m s h L e = ground (arith, h L, e)

  failed_raises : (e : BotRaised) (r : Ended S E) → (continue r (λ n. (some e, n))).0 ≡ none → ⊥
  failed_raises e (none, m) h = cc
  failed_raises e (some x, m) h = cc

  concluded-Within :
      (r : Ended S E) → (r.0 ≡ none → Within r.1) → (conclude r).0 ≡ none → Within (conclude r).1
  unfolding start
  concluded-Within (none, m) w h = changed-Within m BotState.running (w refl)
  concluded-Within (some e, m) w h = absurd (failed_raises e _ h)

  -- A START that returns leaves no more bots running than the limit of the risk manager, whatever
  -- other tasks did while the strategy was loaded.
  pub start_within_limit :
      (load : Loading S E) (m : BotRuntime S E) (L : ℕ)
      → (start load m).0 ≡ none
      → (start load m).1.risk_manager.limits.max_concurrent_bots ≡ some L
      → (start load m).1.risk_manager.active_bots ≤ L
  unfolding start
  start_within_limit load m L h e = begun (change BotState.starting m) h L e
    where
      begun :
          (r : Ended S E)
          → let k : BotRuntime S E → Ended S E =
              λ n. conclude (continue (try_load load n) take_slot) in
            (continue r k).0 ≡ none → Within (continue r k).1
      begun (none, n) q = concluded-Within _ (taken-Within (try_load load n)) q
      begun (some x, n) q = absurd (some_ne_none x q)
        where
          some_ne_none : (x : BotRaised) → some x ≡ none → ⊥
          some_ne_none x q = cc
