-- ===== src/Exits/Prices.antt =====
-- The prices of exits: take-profit, stop and break-even levels, and the profit in percent, of
-- backend/app/strategies/exit.py.
use veles_moex.Common.{Bool, Option, none, some, if◌then◌else◌}
use veles_moex.Decimal.{ℤ, pos, ◌+ℤ◌, ◌-ℤ◌, neg, leb_ℤ, eq_ℤ, Context}
use veles_moex.Domain.{Direction, long, short}
use veles_moex.Strategies.{
  Floats, BreakEvenReference, BreakEvenConfig, decimal_one, hundred, share_of,
}

base_price : BreakEvenReference → ℤ → Option ℤ → ℤ
base_price BreakEvenReference.average_price avg previous = avg
base_price BreakEvenReference.previous_take avg none = avg
base_price BreakEvenReference.previous_take avg (some p) = p

moved : Direction → ℤ → ℤ → ℤ
moved long base dev = base +ℤ dev
moved short base dev = base -ℤ dev

module _ {F : Type 0} ⦃ctx : Context⦄ ⦃fl : Floats F⦄ where
  unfoldable pub tp_price : ℤ → Direction → F → ℤ
  tp_price avg long offset = ctx.mul avg (decimal_one +ℤ share_of offset)
  tp_price avg short offset = ctx.mul avg (decimal_one -ℤ share_of offset)

  unfoldable pub pnl_percent : Direction → ℤ → ℤ → F
  pnl_percent d avg current =
      if eq_ℤ avg (pos 0)
      then fl.zero_float
      else fl.to_float (ctx.mul (ctx.div (gain d) avg) hundred)
    where
      gain : Direction → ℤ
      gain long = current -ℤ avg
      gain short = avg -ℤ current

  -- `sign * Decimal(str(percent)) / Decimal("100")`
  abbrev signed_share : Direction → F → ℤ
  signed_share long p = ctx.div (ctx.mul (neg decimal_one) (fl.of_float p)) hundred
  signed_share short p = ctx.div (ctx.mul decimal_one (fl.of_float p)) hundred

  unfoldable pub simple_stop_level : ℤ → Direction → F → ℤ
  simple_stop_level reference d percent = ctx.mul reference (decimal_one +ℤ signed_share d percent)

  abbrev pub stop_distance_percent : F → F → F → F
  stop_distance_percent first last sl_percent = fl.add (fl.sub last first) sl_percent

  unfoldable pub breakeven_price : BreakEvenConfig F → Direction → ℤ → Option ℤ → ℤ
  unfolding base_price moved
  breakeven_price cfg d avg previous =
      let base = base_price cfg.reference avg previous in
      moved d base (ctx.mul (share_of cfg.deviation_percent) base)

  unfoldable pub offset_satisfied : Direction → ℤ → ℤ → F → Bool
  offset_satisfied long ref current min_offset =
      leb_ℤ current (ctx.mul ref (decimal_one -ℤ share_of min_offset))
  offset_satisfied short ref current min_offset =
      leb_ℤ (ctx.mul ref (decimal_one +ℤ share_of min_offset)) current
