-- ===== src/Grid.antt =====
-- The levels of a DCA grid, backend/app/strategies/dca_grid.py: which planned orders are active
-- and what a fill changes. An offset is a float, a type that the model takes. An active limit is
-- not negative.
pub mod Active
pub mod Prices
pub mod Build
pub mod Average
pub mod Sizing
pub mod Fresh
pub mod Life
pub mod Filling
pub mod Amounts
pub mod Lots
use veles_moex.Common.{
  ℕ, zero, suc, ◌+◌, ltb, ◌==◌, Bool, true, false, not, ◌&&◌, Option, none, some, List, [], ◌∷◌,
  ◌++◌, map, length, member, if◌then◌else◌,
}
use veles_moex.Decimal.{ℤ, pos, ◌+ℤ◌, eq_ℤ, Context}
use veles_moex.Domain.{OrderSide, Direction}
use veles_moex.Strategies.{TradingMode}

pub data LevelStatus : Type 0 where
  waiting active filled : LevelStatus

pub record GridLevel (F : Type 0) : Type 0 where
  pub index : ℕ
  pub side : OrderSide
  pub price : ℤ
  pub nominal : ℤ
  pub quantity : ℤ
  pub offset_percent : F
  pub status : LevelStatus
  pub is_market : Bool
  pub filled_quantity : ℤ

pub record GridOrderPlan (F : Type 0) : Type 0 where
  pub level_index : ℕ
  pub side : OrderSide
  pub price : Option ℤ
  pub nominal : ℤ
  pub quantity : ℤ
  pub is_market : Bool
  pub offset_percent : F

pub record GridState (F : Type 0) : Type 0 where
  pub mode : TradingMode
  pub direction : Direction
  pub reference_price : ℤ
  pub base_nominal : ℤ
  pub levels : List (GridLevel F)
  pub active_limit : Option ℕ
  pub filled_indexes : List ℕ
  pub average_price : ℤ
  pub last_order_price : Option ℤ

abbrev pub is_filled : LevelStatus → Bool
is_filled LevelStatus.filled = true
is_filled _ = false

abbrev pub is_active : LevelStatus → Bool
is_active LevelStatus.active = true
is_active _ = false

abbrev pub by_limit : Bool → LevelStatus
by_limit true = LevelStatus.active
by_limit false = LevelStatus.waiting

abbrev pub limit_or : Option ℕ → ℕ → ℕ
limit_or none n = n
limit_or (some k) n = k

module _ {A : Type 0} where
  -- `[x for x in xs if test(x)]`
  unfoldable pub filter : (A → Bool) → List A → List A
  filter test [] = []
  filter test (x ∷ xs) = let rest = filter test xs in if test x then x ∷ rest else rest

  -- `xs[:n]` and `xs[n:]`
  unfoldable pub take : ℕ → List A → List A
  take n [] = []
  take zero (x ∷ xs) = []
  take (suc n) (x ∷ xs) = x ∷ take n xs

  pub drop : ℕ → List A → List A
  drop n [] = []
  drop zero (x ∷ xs) = x ∷ xs
  drop (suc n) (x ∷ xs) = drop n xs

  unfoldable pub at : ℕ → List A → Option A
  at n [] = none
  at zero (x ∷ xs) = some x
  at (suc n) (x ∷ xs) = at n xs

  unfoldable pub put_at : ℕ → A → List A → List A
  put_at n y [] = []
  put_at zero y (x ∷ xs) = y ∷ xs
  put_at (suc n) y (x ∷ xs) = x ∷ put_at n y xs

module _ {F : Type 0} where
  -- `_plan`
  abbrev pub plan : GridLevel F → GridOrderPlan F
  plan l = record {
    level_index = l.index;
    side = l.side;
    price = if l.is_market then none else some l.price;
    nominal = l.nominal;
    quantity = l.quantity;
    is_market = l.is_market;
    offset_percent = l.offset_percent;
  }

  unfoldable pub unfilled : List (GridLevel F) → List (GridLevel F)
  unfolding filter
  unfilled ls = filter (λ l. not (is_filled l.status)) ls

  unfoldable pub filled_levels : List (GridLevel F) → List (GridLevel F)
  unfolding filter
  filled_levels ls = filter (λ l. is_filled l.status) ls

  unfoldable pub active_orders : GridState F → List (GridOrderPlan F)
  unfolding take
  active_orders s = map plan (take (limit_or s.active_limit (length s.levels)) (unfilled s.levels))

  unfoldable pub waiting_orders : GridState F → List (GridOrderPlan F)
  unfolding drop
  waiting_orders s = map plan (drop (limit_or s.active_limit (length s.levels)) (unfilled s.levels))

  -- The levels from the unfilled one with number `i` on.
  unfoldable pub refresh_from : ℕ → ℕ → List (GridLevel F) → List (GridLevel F)
  refresh_from i limit [] = []
  refresh_from i limit (l ∷ ls) =
      let marked = if is_filled l.status then l else record l { status = by_limit (ltb i limit) } in
      let j = if is_filled l.status then i else i + 1 in marked ∷ refresh_from j limit ls

  unfoldable pub refresh_active : GridState F → GridState F
  unfolding refresh_from
  refresh_active s = record s {
    levels = refresh_from 0 (limit_or s.active_limit (length (unfilled s.levels))) s.levels;
  }

  -- The body of the loop of `on_fill`, for the level at a place of the list.
  unfoldable pub visit_level : Option (GridLevel F) → ℕ → ℕ → GridState F → GridState F
  unfolding put_at
  visit_level none place index s = s
  visit_level (some l) place index s =
      if (l.index == index) && not (is_filled l.status)
      then refresh_active (record s {
        levels =
            put_at place (record l { status = LevelStatus.filled; filled_quantity = l.quantity })
              s.levels;
        filled_indexes =
            if member ◌==◌ index s.filled_indexes
            then s.filled_indexes
            else s.filled_indexes ++ index ∷ [];
      })
      else s

  unfoldable pub visit : ℕ → ℕ → ℕ → GridState F → GridState F
  unfolding visit_level at
  visit zero place index s = s
  visit (suc rest) place index s =
      visit rest (place + 1) index (visit_level (at place s.levels) place index s)

  unfoldable pub on_fill : GridState F → ℕ → GridState F
  unfolding visit
  on_fill s index = visit (length s.levels) 0 index s
