-- ===== src/Grid/Amounts.antt =====
-- What a deal spends and in which quantities: the grid of backend/app/strategies/dca_grid.py on the
-- nominal and the lots of backend/app/trading/sizing.py.
use veles_moex.Common.{
  ℕ, zero, suc, ◌+◌, ◌≡◌, refl, sym, ap, ◌∙◌, subst, Bool, true, false, some, List, [], ◌∷◌, length,
  if◌then◌else◌,
}
use veles_moex.Decimal.{ℤ, pos, ◌+ℤ◌, eq_ℤ, leb_ℤ, Context}
use veles_moex.Decimal.Exact.{IsExact, mul-add, mul-zero}
use veles_moex.Domain.{OrderSide, Direction}
use veles_moex.Strategies.{Floats, Powers, TradingMode, DcaGridConfig, multiplier}
use veles_moex.Grid.{GridLevel, GridState}
use veles_moex.Grid.Prices.{simple_prices, prices_of, spread_prices, walk, gaps_from}
use veles_moex.Grid.Build.{
  make_levels, mark_by_index, open_to_market, assign_active, nominal_of, build_simple, build,
  build_by, unmarked,
}
use veles_moex.Grid.Fresh.{and_then-some, made_level}
use veles_moex.Grid.Sizing.{
  Sized, sized, failed, power_sum, deposit_to_base_nominal, convert_by, shared_over,
  sizing_not_configured, zero_total,
}
use mathlib.Core.Option.{some-injective}

module _ {F : Type 0} where
  -- The sum of the nominals of the levels.
  unfoldable pub nominals : List (GridLevel F) → ℤ
  nominals [] = pos 0
  nominals (l ∷ ls) = l.nominal +ℤ nominals ls

  nominals-marked : (ls : List (GridLevel F)) (L : ℕ) → nominals (mark_by_index L ls) ≡ nominals ls
  unfolding nominals mark_by_index
  nominals-marked [] L = refl
  nominals-marked (l ∷ ls) L = ap (λ t. l.nominal +ℤ t) (nominals-marked ls L)

  nominals-opened :
      (b : Bool) (ls : List (GridLevel F)) → nominals (open_to_market b ls) ≡ nominals ls
  unfolding nominals
  nominals-opened b [] = refl
  nominals-opened false (l ∷ ls) = refl
  nominals-opened true (l ∷ ls) = refl

  assigned-nominals : (s : GridState F) → nominals (assign_active s).levels ≡ nominals s.levels
  unfolding assign_active
  assigned-nominals s = nominals-marked s.levels _

module _ {F : Type 0} ⦃ctx : Context⦄ ⦃fl : Floats F⦄ where
  length-gaps_from : (coeff : F) (i n : ℕ) → length (gaps_from coeff i n) ≡ n
  unfolding gaps_from
  length-gaps_from coeff i zero = refl
  length-gaps_from coeff i (suc n) = ap suc (length-gaps_from coeff (i + 1) n)

  length-walk :
      (range : ℤ) (total : F) (gs : List F) (price : ℤ)
      → length (walk price range total gs) ≡ suc (length gs)
  unfolding walk
  length-walk range total [] price = refl
  length-walk range total (g ∷ gs) price = ap suc (length-walk range total gs _)

module _ {F G : Type 0} ⦃ctx : Context⦄ ⦃fl : Floats F⦄ where
  length-prices_of :
      (n : ℕ) (c : DcaGridConfig F G) (ref : ℤ) (d : Direction) → length (prices_of n c ref d) ≡ n
  unfolding spread_prices
  length-prices_of zero c ref d = refl
  length-prices_of (suc zero) c ref d = refl
  length-prices_of (suc (suc n)) c ref d =
      length-walk {F = F} _ _ _ _ ∙ ap suc (length-gaps_from {F = F} _ 0 (suc n))

module _ ⦃ctx : Context⦄ where
  over_total :
      (deposit base total : ℤ)
      → shared_over deposit total ≡ sized base
      → base ≡ ctx.div deposit total
  over_total deposit base total h = by_total (eq_ℤ total (pos 0)) h
    where
      by_total :
          (b : Bool)
          → (if b then failed zero_total else sized (ctx.div deposit total)) ≡ sized base
          → base ≡ ctx.div deposit total
      by_total true h = absurd (cc h)
      by_total false h = sym (cc h)

module _ {F G : Type 0} ⦃ctx : Context⦄ ⦃fl : Floats F⦄ ⦃powers : Powers⦄ where
  nominals-make_levels :
      (exact : IsExact ctx) (c : DcaGridConfig F G) (base : ℤ) (i : ℕ) (side : OrderSide) (ref : ℤ)
      (ps : List ℤ) (ls : List (GridLevel F))
      → make_levels (nominal_of c base) i side ref ps ≡ some ls
      → nominals ls ≡ ctx.mul base (power_sum (multiplier c) i (length ps))
  unfolding nominals make_levels power_sum nominal_of
  nominals-make_levels exact c base i side ref [] ls h =
      ap nominals (sym (some-injective _ _ h)) ∙ sym (mul-zero ctx exact base)
  nominals-make_levels exact c base i side ref (p ∷ ps) ls' h =
      let (l, at_l, then_rest) = and_then-some _ _ ls' h in
      let (ls, at_ls, same) = and_then-some _ _ ls' then_rest in
      let (_, _, costs) = made_level i side p _ ref l at_l in
      let rest = nominals-make_levels exact c base (i + 1) side ref ps ls at_ls in
      ap nominals (sym (some-injective _ _ same))
      ∙ ap (λ t. t +ℤ nominals ls) costs
      ∙ ap (λ t. nominal_of c base i +ℤ t) rest
      ∙ sym (mul-add ctx exact _ _ base)

  base_shared :
      (deposit base : ℤ) (c : DcaGridConfig F G)
      → c.mode ≡ TradingMode.simple
      → deposit_to_base_nominal deposit c ≡ sized base
      → base ≡ ctx.div deposit (power_sum (multiplier c) 0 c.levels)
  unfolding deposit_to_base_nominal
  base_shared deposit base c simple h = over_total deposit base _ (
      past_guard (leb_ℤ deposit (pos 0)) _ (
        subst
          (λ m.
            (if leb_ℤ deposit (pos 0) then failed sizing_not_configured else convert_by m deposit c)
            ≡ sized base)
          simple h))
    where
      past_guard :
          (b : Bool) (r : Sized ℤ)
          → (if b then failed sizing_not_configured else r) ≡ sized base
          → r ≡ sized base
      past_guard true r h = absurd (cc h)
      past_guard false r h = h

  -- A SIMPLE grid that is built on the nominal which a deposit gives spends the deposit: the nominals of
  -- its levels sum up to it, where products are exact and so is the quotient of the deposit.
  pub grid_spends_deposit :
      (c : DcaGridConfig F G) (ref : ℤ) (d : Direction) (deposit base : ℤ) (s : GridState F)
      → IsExact ctx
      → c.mode ≡ TradingMode.simple
      → (let total = power_sum (multiplier c) 0 c.levels in
          ctx.mul (ctx.div deposit total) total ≡ deposit)
      → deposit_to_base_nominal deposit c ≡ sized base
      → build c ref d base ≡ some s
      → nominals s.levels ≡ deposit
  unfolding build build_simple simple_prices
  grid_spends_deposit c ref d deposit base s exact simple fits h k =
      let (levels, at_levels, same) =
        and_then-some _ _ s (subst (λ m. build_by m c ref d base ≡ some s) simple k) in
      let spent = nominals-make_levels exact c base 0 _ ref _ levels at_levels in
      ap (λ (t : GridState F). nominals t.levels) (sym (some-injective _ _ same))
      ∙ assigned-nominals (
          unmarked c TradingMode.simple ref d base
            (open_to_market (fl.same c.first_order_offset_percent fl.zero_float) levels))
      ∙ nominals-opened _ levels
      ∙ spent
      ∙ ap (λ n. ctx.mul base (power_sum (multiplier c) 0 n)) (length-prices_of c.levels c ref d)
      ∙ ap (λ b. ctx.mul b (power_sum (multiplier c) 0 c.levels))
          (base_shared deposit base c simple h)
      ∙ fits
