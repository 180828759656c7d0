-- ===== src/Bots/Registry.antt =====
-- The registry of the bots: `BotRuntimeManager` of backend/app/trading/bot_lifecycle.py. The runtimes
-- share the risk manager of the registry; the dict has the decimal texts of the ids for keys. A factory
-- may be missing, which is a `KeyError`.
use veles_moex.Common.{
  ℕ, ◌≡◌, refl, sym, ap, ◌∙◌, subst, String, str, str_eq, Bool, true, false, Option, none, some,
  List, [], ◌∷◌, if◌then◌else◌,
}
use mathlib.Core.Option.{some-injective}
use veles_moex.Dict
use veles_moex.Dict.{Dict}
use veles_moex.Risk.{RiskManager}
use veles_moex.Bots.{
  BotState, BotRaised, BotRuntime, Loading, Ended, eq_bot, restored_state, start, stop, emergency,
}

pub record Registry (S E : Type 0) : Type 0 where
  pub risk_manager : RiskManager
  pub factory : Option (ℕ → BotState → BotRuntime S E)
  pub runtimes : Dict (BotRuntime S E)

-- How a call of the registry ends: `KeyError`, or as the bot's method does.
pub data Called (S E : Type 0) : Type 0 where
  no_runtime : Called S E
  called : Option BotRaised → Called S E

-- A text that is no state is read as stopped.
abbrev persisted : Option BotState → BotState
persisted none = BotState.stopped
persisted (some st) = st

abbrev pub rests : BotState → Bool
rests BotState.stopped = true
rests BotState.error = true
rests BotState.emergency_stop = true
rests _ = false

-- Whether all rows were gone through, the states that are written back, and the registry.
abbrev pub Restored : Type 0 → Type 0 → Type 0
Restored S E = Bool × List (ℕ × BotState) × Registry S E

module _ {S E : Type 0} where
  abbrev pub register : ℕ → BotRuntime S E → Registry S E → Registry S E
  register id r g = record g { runtimes = Dict.put g.runtimes (str id) r }

  made_by : Option (ℕ → BotState → BotRuntime S E) → ℕ → BotState → Option (BotRuntime S E)
  made_by none id st = none
  made_by (some make) id st = some (make id st)

  known_or : Option (BotRuntime S E) → Option (BotRuntime S E) → Option (BotRuntime S E)
  known_or none made = made
  known_or (some r) made = some r

  -- The runtime that is registered, or a new one in the state.
  unfoldable pub get_or_make : ℕ → BotState → Registry S E → Option (BotRuntime S E)
  unfolding made_by known_or
  get_or_make id st g = known_or (Dict.get g.runtimes (str id)) (made_by g.factory id st)

  -- A method of a bot, on the shared risk manager.
  run_on :
      Option (BotRuntime S E)
      → ℕ
      → (BotRuntime S E → Ended S E)
      → Registry S E
      → Called S E × Registry S E
  run_on none id call g = (no_runtime, g)
  run_on (some r) id call g =
      let (e, r') = call (record r { risk_manager = g.risk_manager }) in
      (called e, record (register id r' g) { risk_manager = r'.risk_manager })

  unfoldable pub start_bot : ℕ → Loading S E → Registry S E → Called S E × Registry S E
  unfolding run_on
  start_bot id load g = run_on (get_or_make id BotState.stopped g) id (start load) g

  unfoldable pub stop_bot :
      ℕ → (BotRuntime S E → BotRuntime S E) → Bool → Registry S E → Called S E × Registry S E
  unfolding run_on
  stop_bot id meanwhile done g =
      run_on (get_or_make id BotState.stopped g) id (stop meanwhile done) g

  unfoldable pub emergency_stop_bot :
      ℕ → (BotRuntime S E → BotRuntime S E) → Bool → Registry S E → Called S E × Registry S E
  unfolding run_on
  emergency_stop_bot id meanwhile done g =
      run_on (get_or_make id BotState.stopped g) id (emergency meanwhile done) g

  registered : ℕ → Option (BotRuntime S E) → Registry S E → Bool × Registry S E
  registered id none g = (false, g)
  registered id (some r) g = (true, register id r g)

  -- Whether there is a runtime behind it: it is kept, or made in the state.
  unfoldable pub restore_state : ℕ → BotState → Registry S E → Bool × Registry S E
  unfolding registered
  restore_state id st g = registered id (get_or_make id st g) g

  note : ℕ × BotState → Restored S E → Restored S E
  note w (all, written, g) = (all, w ∷ written, g)

  -- Behind the runtime of a row: its state is written if it is not the stored one.
  row_done :
      Bool × Registry S E
      → Bool
      → ℕ × BotState
      → (Registry S E → Registry S E)
      → (Registry S E → Restored S E)
      → Restored S E
  unfolding note
  row_done (false, g) same w meanwhile rest = (false, [], g)
  row_done (true, g) true w meanwhile rest = rest g
  row_done (true, g) false w meanwhile rest = note w (rest (meanwhile g))

  -- `meanwhile` is what other tasks do while a row is written.
  unfoldable pub restore_persisted_states :
      (Registry S E → Registry S E) → List (ℕ × Option BotState) → Registry S E → Restored S E
  unfolding row_done
  restore_persisted_states meanwhile [] g = (true, [], g)
  restore_persisted_states meanwhile ((id, status) ∷ rows) g =
      let st = restored_state (persisted status) in
      row_done (restore_state id st g) (eq_bot st (persisted status)) (id, st) meanwhile
        (restore_persisted_states meanwhile rows)

  -- No bot of the registry starts, runs or is being stopped.
  pub record AllRest (g : Registry S E) : Type 0 where
    pub at_rest :
        (k : String) (r : BotRuntime S E) → Dict.get g.runtimes k ≡ some r → rests r.state ≡ true

  -- The factory makes a runtime in the state that it is asked for.
  pub record MakesIn (g : Registry S E) : Type 0 where
    pub makes :
        (make : ℕ → BotState → BotRuntime S E) (id : ℕ) (st : BotState)
        → g.factory ≡ some make
        → (make id st).state ≡ st

restored_rests : (st : BotState) → rests (restored_state st) ≡ true
restored_rests BotState.stopped = refl
restored_rests BotState.starting = refl
restored_rests BotState.running = refl
restored_rests BotState.stop_requested = refl
restored_rests BotState.error = refl
restored_rests BotState.emergency_stop = refl

module _ {S E : Type 0} where
  AllRest-register :
      (id : ℕ) (r : BotRuntime S E) (g : Registry S E)
      → rests r.state ≡ true
      → AllRest g
      → AllRest (register id r g)
  AllRest-register id r g now h = record { at_rest = found }
    where
      chosen :
          (k : String) (q : BotRuntime S E) (b : Bool)
          → (if b then some r else Dict.get g.runtimes k) ≡ some q
          → rests q.state ≡ true
      chosen k q true e = subst (λ t. rests t.state ≡ true) (some-injective _ _ e) now
      chosen k q false e = h.at_rest k q e

      found :
          (k : String) (q : BotRuntime S E)
          → Dict.get (Dict.put g.runtimes (str id) r) k ≡ some q
          → rests q.state ≡ true
      found k q e = chosen k q (str_eq (str id) k) (sym (Dict.get-put g.runtimes (str id) k r) ∙ e)

  AllRest-registered :
      (id : ℕ) (o : Option (BotRuntime S E)) (g : Registry S E)
      → ((r : BotRuntime S E) → o ≡ some r → rests r.state ≡ true)
      → AllRest g
      → AllRest (registered id o g).1
  unfolding registered
  AllRest-registered id none g now h = h
  AllRest-registered id (some r) g now h = AllRest-register id r g (now r refl) h

  made_rests :
      (id : ℕ) (st : BotState) (g : Registry S E) (r : BotRuntime S E)
      → rests st ≡ true
      → AllRest g
      → MakesIn g
      → get_or_make id st g ≡ some r
      → rests r.state ≡ true
  unfolding get_or_make
  made_rests id st g r quiet h makes e = by_known (Dict.get g.runtimes (str id)) refl e
    where
      by_factory :
          (f : Option (ℕ → BotState → BotRuntime S E))
          → g.factory ≡ f
          → made_by f id st ≡ some r
          → rests r.state ≡ true
      by_factory none same e = absurd (cc e)
      by_factory (some make) same e =
          ap (λ t. rests t.state) (sym (some-injective _ _ e))
          ∙ ap rests (makes.makes make id st same)
          ∙ quiet

      by_known :
          (o : Option (BotRuntime S E))
          → Dict.get g.runtimes (str id) ≡ o
          → known_or o (made_by g.factory id st) ≡ some r
          → rests r.state ≡ true
      by_known none same e = by_factory g.factory refl e
      by_known (some q) same e = h.at_rest (str id) r (same ∙ e)

  MakesIn-registered :
      (id : ℕ) (o : Option (BotRuntime S E)) (g : Registry S E)
      → MakesIn g
      → MakesIn (registered id o g).1
  unfolding registered
  MakesIn-registered id none g h = h
  MakesIn-registered id (some r) g h = record { makes = h.makes }

  rests-note : (w : ℕ × BotState) (r : Restored S E) → AllRest r.2 → AllRest (note w r).2
  unfolding note
  rests-note w (all, written, g) h = h

  rests-row_done :
      (r : Bool × Registry S E) (same : Bool) (w : ℕ × BotState)
      (meanwhile : Registry S E → Registry S E) (rest : Registry S E → Restored S E)
      → AllRest r.1
      → MakesIn r.1
      → ((h : Registry S E) → AllRest h → AllRest (meanwhile h))
      → ((h : Registry S E) → MakesIn h → MakesIn (meanwhile h))
      → ((h : Registry S E) → AllRest h → MakesIn h → AllRest (rest h).2)
      → AllRest (row_done r same w meanwhile rest).2
  unfolding row_done
  rests-row_done (false, g) same w meanwhile rest q m kr km go = q
  rests-row_done (true, g) true w meanwhile rest q m kr km go = go g q m
  rests-row_done (true, g) false w meanwhile rest q m kr km go =
      rests-note w (rest (meanwhile g)) (go (meanwhile g) (kr g q) (km g m))

  -- Behind a restart no bot starts, runs or is being stopped, whatever states were stored and whether or
  -- not a row failed: if none did in the registry before, the factory makes a runtime in the state it is
  -- asked for, and what other tasks do during the writes keeps both so.
  pub AllRest-restore_persisted_states :
      (meanwhile : Registry S E → Registry S E) (rows : List (ℕ × Option BotState))
      (g : Registry S E)
      → AllRest g
      → MakesIn g
      → ((h : Registry S E) → AllRest h → AllRest (meanwhile h))
      → ((h : Registry S E) → MakesIn h → MakesIn (meanwhile h))
      → AllRest (restore_persisted_states meanwhile rows g).2
  unfolding restore_persisted_states restore_state
  AllRest-restore_persisted_states meanwhile [] g quiet makes keeps_rest keeps_makes = quiet
  AllRest-restore_persisted_states meanwhile ((id, status) ∷ rows) g quiet makes keeps_rest
        keeps_makes =
      rests-row_done (restore_state id st g) (eq_bot st (persisted status)) (id, st) meanwhile
        (restore_persisted_states meanwhile rows) quiet' makes' keeps_rest keeps_makes
        (λ h q m. AllRest-restore_persisted_states meanwhile rows h q m keeps_rest keeps_makes)
    where
      st : BotState
      st = restored_state (persisted status)

      quiet' : AllRest (restore_state id st g).1
      quiet' =
          AllRest-registered id (get_or_make id st g) g
            (λ r e. made_rests id st g r (restored_rests (persisted status)) quiet makes e) quiet

      makes' : MakesIn (restore_state id st g).1
      makes' = MakesIn-registered id (get_or_make id st g) g makes
