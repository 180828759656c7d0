-- ===== src/Deals/Ticks.antt =====
-- Tick alignment, backend/app/trading/deal.py. `//` and `divmod` of Decimal cut off towards zero
-- and are exact, as is the product of a count and a tick, within the precision of the context. A
-- raise of `DealTickSizeInvalid` is `none`.
pub mod Bounds
use veles_moex.Common.{
  ℕ, String, Bool, true, false, not, Option, none, some, str, ◌+++◌, ◌+◌, ◌/◌, if◌then◌else◌,
}
use veles_moex.Decimal.{ℤ, pos, negsuc, pos_part, neg_part, neg, ◌+ℤ◌, ◌-ℤ◌, leb_ℤ, eq_ℤ}
use veles_moex.Decimal.Exact.{times}
use veles_moex.Domain.{Direction, long, short}

-- `price // tick`, for a tick above zero.
unfoldable pub whole_ticks : ℤ → ℤ → ℤ
whole_ticks (pos p) tick = pos (p / pos_part tick)
whole_ticks (negsuc p) tick = neg (pos ((p + 1) / pos_part tick))

unfoldable pub require_tick : Option ℤ → Option ℤ
require_tick none = none
require_tick (some tick) = if leb_ℤ tick (pos 0) then none else some tick

abbrev pub down_to : ℤ → ℤ → ℤ
down_to price tick = times (whole_ticks price tick) tick

-- `1 if remainder else 0`
abbrev pub one_more : ℤ → ℤ → ℤ
one_more price tick = if eq_ℤ (price -ℤ down_to price tick) (pos 0) then pos 0 else pos 1

abbrev pub up_to : ℤ → ℤ → ℤ
up_to price tick = times (whole_ticks price tick +ℤ one_more price tick) tick

abbrev pub with_tick : (ℤ → ℤ) → Option ℤ → Option ℤ
with_tick f none = none
with_tick f (some tick) = some (f tick)

unfoldable pub round_down_to_tick : ℤ → Option ℤ → Option ℤ
round_down_to_tick price tick_size = with_tick (down_to price) (require_tick tick_size)

unfoldable pub round_up_to_tick : ℤ → Option ℤ → Option ℤ
round_up_to_tick price tick_size = with_tick (up_to price) (require_tick tick_size)

unfoldable pub align_grid_price : ℤ → Option ℤ → Direction → Option ℤ
align_grid_price price tick_size long = round_down_to_tick price tick_size
align_grid_price price tick_size short = round_up_to_tick price tick_size

unfoldable pub align_tp_price : ℤ → Option ℤ → Direction → Option ℤ
align_tp_price price tick_size long = round_up_to_tick price tick_size
align_tp_price price tick_size short = round_down_to_tick price tick_size

unfoldable pub align_stop_price : ℤ → Option ℤ → Direction → Option ℤ
align_stop_price price tick_size long = round_up_to_tick price tick_size
align_stop_price price tick_size short = round_down_to_tick price tick_size
