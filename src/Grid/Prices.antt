-- ===== src/Grid/Prices.antt =====
-- The prices of the levels of a grid: `GridPriceDistribution` of backend/app/strategies/dca_grid.py.
use veles_moex.Common.{ℕ, zero, suc, ◌+◌, ◌||◌, List, [], ◌∷◌, map, if◌then◌else◌}
use veles_moex.Decimal.{ℤ, ◌+ℤ◌, ◌-ℤ◌, neg, Context}
use veles_moex.Domain.{Direction, long, short}
use veles_moex.Strategies.{Floats, DcaGridConfig, CustomLevel, decimal_one, share_of}

module _ {F : Type 0} ⦃ctx : Context⦄ ⦃fl : Floats F⦄ where
  unfoldable pub price_at : ℤ → F → Direction → ℤ
  price_at ref offset long =
      ctx.mul ref (decimal_one +ℤ ctx.mul (share_of offset) (neg decimal_one))
  price_at ref offset short = ctx.mul ref (decimal_one +ℤ ctx.mul (share_of offset) decimal_one)

  abbrev pub first_order_price : ℤ → F → Direction → ℤ
  first_order_price ref offset d = price_at ref offset d

  -- `[coeff**i for i in range(i, i + count)]`
  unfoldable pub gaps_from : F → ℕ → ℕ → List F
  gaps_from coeff i zero = []
  gaps_from coeff i (suc count) = fl.pow coeff i ∷ gaps_from coeff (i + 1) count

  -- `sum(gaps)`, from the left.
  unfoldable pub sum_from : F → List F → F
  sum_from total [] = total
  sum_from total (g ∷ gs) = sum_from (fl.add total g) gs

  -- The loop over the prices: a price for each gap, and the last one.
  unfoldable pub walk : ℤ → ℤ → F → List F → List ℤ
  walk price range total [] = price ∷ []
  walk price range total (g ∷ gs) =
      price
      ∷ walk (price +ℤ ctx.mul range (ctx.div (fl.of_float g) (fl.of_float total))) range total gs

abbrev signed_by : ⦃ctx : Context⦄ → Direction → ℤ
signed_by long = neg decimal_one
signed_by short = decimal_one

module _ {F G : Type 0} ⦃ctx : Context⦄ ⦃fl : Floats F⦄ where
  abbrev coefficient : DcaGridConfig F G → F
  coefficient c =
      if fl.less c.logarithmic_factor fl.zero_float || fl.same c.logarithmic_factor fl.zero_float
      then fl.one_float
      else c.logarithmic_factor

  unfoldable pub spread_prices : DcaGridConfig F G → ℤ → Direction → ℕ → List ℤ
  spread_prices c ref d count =
      let first = first_order_price ref c.first_order_offset_percent d in
      let overlap = ctx.mul ref (share_of c.overlap_percent) in
      let last = first +ℤ ctx.mul (signed_by d) overlap in
      let gaps = gaps_from (coefficient c) 0 count in
      walk first (last -ℤ first) (sum_from fl.zero_float gaps) gaps

  -- The prices of so many levels.
  abbrev pub prices_of : ℕ → DcaGridConfig F G → ℤ → Direction → List ℤ
  prices_of zero c ref d = []
  prices_of (suc zero) c ref d = first_order_price ref c.first_order_offset_percent d ∷ []
  prices_of (suc (suc n)) c ref d = spread_prices c ref d (suc n)

  unfoldable pub simple_prices : DcaGridConfig F G → ℤ → Direction → List ℤ
  simple_prices c ref d = prices_of c.levels c ref d

  unfoldable pub custom_prices : DcaGridConfig F G → ℤ → Direction → List ℤ
  custom_prices c ref d =
      map (λ (l : CustomLevel F). price_at ref l.offset_percent d) c.custom_levels
