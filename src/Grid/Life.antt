-- ===== src/Grid/Life.antt =====
-- The life of a grid: what `build` makes, fills change and `recalculate` prices again, in
-- backend/app/strategies/dca_grid.py.
use veles_moex.Common.{
  ℕ, ◌+◌, ltb, ◌≡◌, ◌≢◌, refl, sym, ap, ◌∙◌, subst, Bool, true, false, some, List, [], ◌∷◌, inl,
  inr, Bool-cases, if◌then◌else◌,
}
use mathlib.Core.Option.{some-injective}
use veles_moex.Decimal.{ℤ, Context}
use veles_moex.Domain.{OrderSide, Direction}
use veles_moex.Strategies.{Floats, Powers, TradingMode, DcaGridConfig}
use veles_moex.Grid.{
  GridLevel, GridState, is_filled, by_limit, filled_levels, refresh_active, refresh_from, on_fill,
}
use veles_moex.Grid.Active.{ShowsActive, refreshed, refresh_done, refresh_todo, on_fill-ShowsActive}
use veles_moex.Grid.Build.{build}
use veles_moex.Grid.Average.{reprice, reprice_from, recalculate, recalculate_by, moved_to}
use veles_moex.Grid.Fresh.{and_then-some, branches, made_level, build-ShowsActive}

module _ {F : Type 0} where
  unfoldable pub filled_in : List (GridLevel F) → List (GridLevel F)
  unfolding filled_levels
  filled_in ls = filled_levels ls

  filled_head :
      (l : GridLevel F) (xs ys : List (GridLevel F))
      → filled_in xs ≡ filled_in ys
      → filled_in (l ∷ xs) ≡ filled_in (l ∷ ys)
  unfolding filled_in
  filled_head l xs ys h = ap (λ r. if is_filled l.status then l ∷ r else r) h

  skipped :
      (l : GridLevel F) (ls : List (GridLevel F))
      → is_filled l.status ≡ false
      → filled_in (l ∷ ls) ≡ filled_in ls
  unfolding filled_in
  skipped l ls h = rw h refl

  refresh_from-filled :
      (ls : List (GridLevel F)) (i L : ℕ) → filled_in (refresh_from i L ls) ≡ filled_in ls
  unfolding refresh_from
  refresh_from-filled [] i L = refl
  refresh_from-filled (l ∷ ls) i L = elim (Bool-cases (is_filled l.status)) [
    | inl done ↦ rw (refresh_done l ls i L done) (filled_head l _ _ (refresh_from-filled ls i L))
    | inr todo ↦ rw (refresh_todo l ls i L todo) (
        skipped _ _ (by_limit_open (ltb i L))
        ∙ refresh_from-filled ls (i + 1) L
        ∙ sym (skipped l ls todo))
  ]
    where
      by_limit_open : (b : Bool) → is_filled (by_limit b) ≡ false
      by_limit_open true = refl
      by_limit_open false = refl

module _ {F : Type 0} ⦃ctx : Context⦄ ⦃fl : Floats F⦄ where
  repriced :
      (l : GridLevel F) (price nominal ref : ℤ) (l' : GridLevel F)
      → reprice l price nominal ref ≡ some l'
      → is_filled l'.status ≡ is_filled l.status
  unfolding reprice
  repriced l price nominal ref l' h =
      let (quantity, at_quantity, then_offset) = and_then-some _ _ l' h in
      let (offset, at_offset, same) = and_then-some _ _ l' then_offset in
      ap (λ r. is_filled r.status) (sym (some-injective _ _ same))

  reprice_from-filled :
      (nominal_at : ℕ → ℤ) (i : ℕ) (side : OrderSide) (ref : ℤ) (ps : List ℤ)
      (ls ls' : List (GridLevel F))
      → reprice_from nominal_at i side ref ps ls ≡ some ls'
      → filled_in ls' ≡ filled_in ls
  unfolding reprice_from
  reprice_from-filled f i side ref [] ls ls' h = ap filled_in (sym (some-injective _ _ h))
  reprice_from-filled f i side ref (p ∷ ps) [] ls' h =
      let (l, at_l, then_rest) = and_then-some _ _ ls' h in
      let (ls, at_ls, same) = and_then-some _ _ ls' then_rest in
      let (_, fresh, _) = made_level i side p (f i) ref l at_l in
      ap filled_in (sym (some-injective _ _ same))
      ∙ skipped l ls fresh
      ∙ reprice_from-filled f (i + 1) side ref ps [] ls at_ls
  reprice_from-filled f i side ref (p ∷ ps) (l ∷ ls) ls' h =
      elim (branches (is_filled l.status) _ _ ls' h) [
        | inl (done, then_rest) ↦
            let (ls1, at_ls, same) = and_then-some _ _ ls' then_rest in
            ap filled_in (sym (some-injective _ _ same))
            ∙ filled_head l ls1 ls (reprice_from-filled f (i + 1) side ref ps ls ls1 at_ls)
        | inr (todo, then_all) ↦
            let (l1, at_l, then_rest) = and_then-some _ _ ls' then_all in
            let (ls1, at_ls, same) = and_then-some _ _ ls' then_rest in
            ap filled_in (sym (some-injective _ _ same))
            ∙ skipped l1 ls1 (repriced l p (f i) ref l1 at_l ∙ todo)
            ∙ reprice_from-filled f (i + 1) side ref ps ls ls1 at_ls
            ∙ sym (skipped l ls todo)
      ]

module _ {F G : Type 0} ⦃ctx : Context⦄ ⦃fl : Floats F⦄ ⦃powers : Powers⦄ where
  recalculated_by :
      (m : TradingMode) (c : DcaGridConfig F G) (s : GridState F) (ref base average : ℤ)
      (s' : GridState F)
      → recalculate_by m c s ref base average ≡ some s'
      → (levels : List (GridLevel F)) × (s' ≡ moved_to s ref average levels)
        × (filled_in levels ≡ filled_in s.levels)
  recalculated_by TradingMode.simple c s ref base average s' h =
      let (levels, at_levels, same) = and_then-some _ _ s' h in
      (
        levels,
        sym (some-injective _ _ same),
        reprice_from-filled _ 0 _ ref _ s.levels levels at_levels,
      )
  recalculated_by TradingMode.custom c s ref base average s' h =
      (s.levels, sym (some-injective _ _ h), refl)
  recalculated_by TradingMode.signal c s ref base average s' h =
      (s.levels, sym (some-injective _ _ h), refl)

  -- Any grid that is built, filled and priced again.
  pub data Life (c : DcaGridConfig F G) : GridState F → Type 0 where
    built :
        (ref : ℤ) (d : Direction) (base : ℤ) (s : GridState F)
        → build c ref d base ≡ some s
        → Life c s
    filled : (s : GridState F) (index : ℕ) → Life c s → Life c (on_fill s index)
    recalculated :
        (s : GridState F) (ref base average : ℤ) (s' : GridState F)
        → recalculate c s ref base average ≡ some s'
        → Life c s
        → Life c s'

  -- Through the life of a grid, whatever it is built from, however it is filled and priced again, the
  -- levels marked active are those that it gives out as active orders, if its active limit is not zero.
  pub Life-ShowsActive :
      (c : DcaGridConfig F G) (s : GridState F) → c.active_limit ≢ some 0 → Life c s → ShowsActive s
  unfolding recalculate
  Life-ShowsActive c _ room (built ref d base s h) = build-ShowsActive c ref d base s room h
  Life-ShowsActive c _ room (filled t index before) =
      on_fill-ShowsActive t index (Life-ShowsActive c t room before)
  Life-ShowsActive c _ room (recalculated t ref base average s h before) =
      let (levels, same, _) = recalculated_by c.mode c t ref base average s h in
      subst ShowsActive (sym same) (refreshed _)

  -- Pricing a grid again leaves its filled levels as they are, in the same order, with their prices,
  -- nominals and quantities, for every mode.
  pub recalculate_keeps_filled :
      (c : DcaGridConfig F G) (s : GridState F) (ref base average : ℤ) (s' : GridState F)
      → recalculate c s ref base average ≡ some s'
      → filled_levels s'.levels ≡ filled_levels s.levels
  unfolding recalculate refresh_active filled_in
  recalculate_keeps_filled c s ref base average s' h =
      let (levels, same, kept) = recalculated_by c.mode c s ref base average s' h in
      ap (λ (t : GridState F). filled_in t.levels) same ∙ refresh_from-filled levels 0 _ ∙ kept
