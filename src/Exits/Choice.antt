-- ===== src/Exits/Choice.antt =====
-- Which exit wins, and when break-even protects: theorems on `select`, `on_take_executed`,
-- `breakeven_decision` and `build_remaining_take_plans` of backend/app/strategies/exit.py.
use veles_moex.Common.{ℕ, ◌≤◌, ◌<◌, ◌≡◌, Option, none, some, List, [], ◌∷◌}
use veles_moex.Exits.Decisions.{ExitDecision, priority}

-- Every decision of the list has at least the key.
pub data AtLeast (n : ℕ) : List ExitDecision → Type 0 where
  nil : AtLeast n []
  cons :
      {d : ExitDecision} {ds : List ExitDecision}
      → n ≤ priority d.exit_type
      → AtLeast n ds
      → AtLeast n (d ∷ ds)

-- The first decision of the list that has the least key.
pub data FirstBest : ExitDecision → List ExitDecision → Type 0 where
  here :
      {d : ExitDecision} {ds : List ExitDecision}
      → AtLeast (priority d.exit_type) ds
      → FirstBest d (d ∷ ds)
  later :
      {d e : ExitDecision} {ds : List ExitDecision}
      → priority d.exit_type < priority e.exit_type
      → FirstBest d ds
      → FirstBest d (e ∷ ds)

pub Chosen : Option ExitDecision → List ExitDecision → Type 0
Chosen none ds = ds ≡ []
Chosen (some d) ds = FirstBest d ds
