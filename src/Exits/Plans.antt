-- ===== src/Exits/Plans.antt =====
-- Exit plans: `resolve_mode`, `build_exit_orders`, `build_remaining_take_plans`, `on_average` and
-- `on_take_executed` of backend/app/strategies/exit.py.
use veles_moex.Common.{
  ℕ, ◌+◌, true, ◌==◌, Option, none, some, List, [], ◌∷◌, ◌++◌, member, if◌then◌else◌,
}
use veles_moex.Decimal.{ℤ, Context}
use veles_moex.Domain.{Direction}
use veles_moex.Strategies.{
  Floats, ExitMode, BreakEvenConfig, TakeItem, ExitConfig, ExitPlan, hundred, exit_side,
  fixed_percentage, multi_take, signal, trailing,
}
use veles_moex.Exits.Decisions.{ExitState}
use veles_moex.Exits.Prices.{tp_price, breakeven_price}

module _ {F G : Type 0} where
  -- A trailing take-profit raises `NotImplementedError`: `none`.
  unfoldable pub resolve_mode : ExitConfig F G → Option ExitMode
  resolve_mode c = elim c.take_profit [
    | fixed_percentage p ↦ some ExitMode.simple
    | multi_take m ↦ some ExitMode.custom
    | signal s ↦ some ExitMode.signal
    | trailing p ↦ none
  ]

module _ {F : Type 0} ⦃ctx : Context⦄ ⦃fl : Floats F⦄ where
  unfoldable pub fixed_plan : Direction → ℤ → ℤ → F → ExitPlan F
  fixed_plan d avg qty percent = record {
    side = exit_side d;
    quantity = fl.to_float qty;
    price = some (tp_price avg d percent);
    offset_percent = percent;
  }

  unfoldable pub take_plan : Direction → ℤ → ℤ → TakeItem F → ExitPlan F
  take_plan d avg total t = record {
    side = exit_side d;
    quantity = fl.to_float (ctx.div (ctx.mul total (fl.of_float t.volume_percent)) hundred);
    price = some (tp_price avg d t.offset_percent);
    offset_percent = t.offset_percent;
  }

  unfoldable pub take_plans : Direction → ℤ → ℤ → List (TakeItem F) → List (ExitPlan F)
  take_plans d avg qty [] = []
  take_plans d avg qty (t ∷ ts) = take_plan d avg qty t ∷ take_plans d avg qty ts

  -- The takes from number `i` on that are not executed.
  unfoldable pub remaining_from :
      ℕ → List ℕ → Direction → ℤ → ℤ → List (TakeItem F) → List (ExitPlan F)
  remaining_from i executed d avg total [] = []
  remaining_from i executed d avg total (t ∷ ts) =
      let rest = remaining_from (i + 1) executed d avg total ts in
      if member ◌==◌ i executed then rest else take_plan d avg total t ∷ rest

  arm : Option (BreakEvenConfig F) → ExitState → ExitState
  arm none s = s
  arm (some b) s = record s {
    breakeven_active = true;
    breakeven_level = some (breakeven_price b s.direction s.average_price s.last_take_price);
  }

module _ {F G : Type 0} ⦃ctx : Context⦄ ⦃fl : Floats F⦄ where
  unfoldable pub build_exit_orders : ExitConfig F G → Direction → ℤ → F → Option (List (ExitPlan F))
  unfolding take_plans
  build_exit_orders c d entry qty = elim c.take_profit [
    | fixed_percentage p ↦ some (fixed_plan d entry (fl.of_float qty) p ∷ [])
    | multi_take m ↦ some (take_plans d entry (fl.of_float qty) m.takes)
    | signal s ↦ some []
    | trailing p ↦ none
  ]

  unfoldable pub on_average : ExitConfig F G → Direction → F → F → Option (List (ExitPlan F))
  on_average c d avg qty = build_exit_orders c d (fl.of_float avg) qty

  unfoldable pub build_remaining_take_plans :
      ExitConfig F G → Direction → ℤ → ℤ → List ℕ → Option (List (ExitPlan F))
  unfolding remaining_from
  build_remaining_take_plans c d avg total executed = elim c.take_profit [
    | multi_take m ↦ some (remaining_from 0 executed d avg total m.takes)
    | _ ↦ build_exit_orders c d avg (fl.to_float total)
  ]

  unfoldable pub on_take_executed : ExitState → ExitConfig F G → ℕ → ℤ → ExitState
  unfolding arm
  on_take_executed s c index price =
      let s' = record s {
        executed_takes = s.executed_takes ++ index ∷ [];
        last_take_price = some price;
      } in
      elim c.take_profit [ multi_take m ↦ arm m.breakeven s' | _ ↦ s' ]
