-- ===== src/Position.antt =====
-- The position manager, backend/app/trading/position_manager.py. `self._positions` is a dict and
-- `self._reconciled` a flag; a method takes the manager and returns the new one. The system clock
-- is read by the argument `now`.
pub mod Quantity
pub mod Profit
pub mod States
use veles_moex.Common.{
  ℕ, String, Bool, true, false, ◌&&◌, ◌||◌, not, Option, none, some, List, [], ◌∷◌, if◌then◌else◌,
}
use veles_moex.Decimal.{ℤ, pos, ◌+ℤ◌, ◌-ℤ◌, neg, ltb_ℤ, eq_ℤ, abs, min_ℤ, Context}
use veles_moex.Dict
use veles_moex.Dict.{Dict}
use veles_moex.Domain.{OrderSide, buy, sell, Direction, long, short, PositionUpdate}

pub data LivePositionState : Type 0 where
  unknown flat open_position sign_mismatch : LivePositionState

pub data PositionError : Type 0 where
  unavailable zero_quantity inconsistent_sign : PositionError

pub data Resolved : Type 0 where
  amount : ℤ → Resolved
  raised : PositionError → Resolved

pub record Position : Type 0 where
  pub instrument_figi : String
  pub quantity : ℤ
  pub average_price : ℤ
  pub realized_pnl : ℤ
  pub fees : ℤ
  pub current_price : Option ℤ
  pub unrealized_pnl : ℤ
  pub updated_at : Option ℕ

pub record PositionManager : Type 0 where
  pub positions : Dict Position
  pub reconciled : Bool

-- `Position(instrument_figi=figi)`, with the defaults of the dataclass.
abbrev pub blank : String → ℕ → Position
blank figi now = record {
  instrument_figi = figi;
  quantity = pos 0;
  average_price = pos 0;
  realized_pnl = pos 0;
  fees = pos 0;
  current_price = none;
  unrealized_pnl = pos 0;
  updated_at = some now;
}

abbrev pub sign_matches : ℤ → Direction → Bool
sign_matches quantity long = ltb_ℤ (pos 0) quantity
sign_matches quantity short = ltb_ℤ quantity (pos 0)

abbrev pub same_sign : ℤ → ℤ → Bool
same_sign a b = (ltb_ℤ (pos 0) a && ltb_ℤ (pos 0) b) || (ltb_ℤ a (pos 0) && ltb_ℤ b (pos 0))

-- The signed change of a fill.
abbrev pub delta_of : OrderSide → ℤ → ℤ
delta_of buy q = q
delta_of sell q = neg q

abbrev pub get : PositionManager → String → Option Position
get m figi = Dict.get m.positions figi

abbrev pub mark_reconciled : PositionManager → PositionManager
mark_reconciled m = record m { reconciled = true }

abbrev pub invalidate_reconciliation : PositionManager → PositionManager
invalidate_reconciliation m = record m { reconciled = false }

abbrev pub clear : PositionManager → PositionManager
clear m = record { positions = Dict.empty; reconciled = false }

abbrev pub remove : PositionManager → String → PositionManager
remove m figi = record m { positions = Dict.remove m.positions figi }

state_of : Option Position → Direction → LivePositionState
state_of none d = flat
state_of (some p) d =
    if not (eq_ℤ p.quantity (pos 0))
    then if sign_matches p.quantity d then open_position else sign_mismatch
    else flat

unfoldable pub position_state : PositionManager → String → Direction → LivePositionState
unfolding state_of
position_state m figi d = if not m.reconciled then unknown else state_of (get m figi) d

exit_quantity : Option Position → Direction → Resolved
exit_quantity none d = raised unavailable
exit_quantity (some p) d =
    if eq_ℤ p.quantity (pos 0)
    then raised zero_quantity
    else if not (sign_matches p.quantity d)
    then raised inconsistent_sign
    else amount (abs p.quantity)

unfoldable pub resolve_quantity : PositionManager → String → Direction → Resolved
unfolding exit_quantity
resolve_quantity m figi d = exit_quantity (get m figi) d

unfoldable pub load_state : PositionManager → List Position → PositionManager
load_state m ps = record {
  positions = Dict.put_all (λ p. p.instrument_figi) ps Dict.empty;
  reconciled = false;
}

module _ ⦃ctx : Context⦄ where
  unrealized : Option ℤ → ℤ → ℤ → ℤ
  unrealized none q avg = pos 0
  unrealized (some current) q avg =
      if eq_ℤ q (pos 0)
      then pos 0
      else if ltb_ℤ (pos 0) q
      then ctx.mul (current -ℤ avg) q
      else ctx.mul (avg -ℤ current) (abs q)

  unfoldable pub recompute_unrealized : Position → Position
  unfolding unrealized
  recompute_unrealized p = record p {
    unrealized_pnl = unrealized p.current_price p.quantity p.average_price;
  }

  unfoldable pub weighted_avg : ℤ → ℤ → ℤ → ℤ → ℤ → ℤ
  weighted_avg prev_qty prev_avg new_qty new_price total_qty =
      if eq_ℤ total_qty (pos 0)
      then pos 0
      else ctx.div (ctx.mul prev_qty prev_avg +ℤ ctx.mul new_qty new_price) total_qty

  -- The profit that closing `closing` units at `price` realizes.
  realized_on : ℤ → ℤ → ℤ → ℤ → ℤ
  realized_on q avg price closing =
      if ltb_ℤ (pos 0) q then ctx.mul (price -ℤ avg) closing else ctx.mul (avg -ℤ price) closing

  unfoldable pub reduce_or_reverse : Position → ℤ → ℤ → Position
  unfolding realized_on
  reduce_or_reverse p delta price =
      let current = abs p.quantity in
      let closing = min_ℤ (abs delta) current in
      let signed_close = if ltb_ℤ (pos 0) p.quantity then neg closing else closing in
      let q = p.quantity +ℤ signed_close in
      let r = p.realized_pnl +ℤ realized_on p.quantity p.average_price price closing in
      if ltb_ℤ current (abs delta)
      then record p {
        realized_pnl = r;
        quantity = delta +ℤ (if ltb_ℤ delta (pos 0) then current else neg current);
        average_price = price;
      }
      else if eq_ℤ q (pos 0)
      then record p { realized_pnl = r; quantity = q; average_price = pos 0 }
      else record p { realized_pnl = r; quantity = q }

  -- The three branches of `apply_fill` on the position of the instrument.
  unfoldable pub fill_position : Position → ℤ → ℤ → Position
  unfolding weighted_avg
  fill_position p delta price =
      if eq_ℤ p.quantity (pos 0)
      then record p { quantity = delta; average_price = price }
      else if same_sign p.quantity delta
      then (let q = p.quantity +ℤ delta in
          if not (eq_ℤ q (pos 0))
          then record p {
            quantity = q;
            average_price =
                weighted_avg (abs (q -ℤ delta)) p.average_price (abs delta) price (abs q);
          }
          else record p { quantity = q })
      else reduce_or_reverse p delta price

  opened : Option Position → String → ℤ → ℕ → Position
  opened none figi price now = record (blank figi now) { average_price = price }
  opened (some p) figi price now = p

  unfoldable pub settle : Position → ℤ → Option ℕ → ℕ → Position
  unfolding recompute_unrealized
  settle p fee none now =
      recompute_unrealized (record p { fees = p.fees +ℤ fee; updated_at = some now })
  settle p fee (some t) now =
      recompute_unrealized (record p { fees = p.fees +ℤ fee; updated_at = some t })

  unfoldable pub apply_fill :
      String → OrderSide → ℤ → ℤ → ℤ → Option ℕ → ℕ → PositionManager → PositionManager
  unfolding opened
  apply_fill figi side q price fee timestamp now m =
      let p = opened (get m figi) figi price now in
      let p' = settle (fill_position p (delta_of side q) price) fee timestamp now in
      record m { positions = Dict.put m.positions figi p' }

  updated_price : Option ℤ → ℤ → ℤ
  updated_price none old = old
  updated_price (some v) old = v

  current_after : Option ℤ → Option ℤ → Option ℤ
  current_after none old = old
  current_after (some v) old = some v

  found_or_blank : Option Position → String → ℕ → Position
  found_or_blank none figi now = blank figi now
  found_or_blank (some p) figi now = p

  unfoldable pub apply_position_update : PositionUpdate → ℕ → PositionManager → PositionManager
  unfolding updated_price current_after found_or_blank recompute_unrealized
  apply_position_update u now m =
      let p = found_or_blank (get m u.instrument_figi) u.instrument_figi now in
      let p' = record p {
        quantity = u.quantity;
        average_price = updated_price u.average_price p.average_price;
        current_price = current_after u.current_price p.current_price;
        unrealized_pnl = updated_price u.unrealized_pnl p.unrealized_pnl;
        updated_at = some u.timestamp;
      } in
      record m { positions = Dict.put m.positions u.instrument_figi (recompute_unrealized p') }

  unfoldable pub mark_to_market : String → ℤ → ℕ → PositionManager → PositionManager
  unfolding found_or_blank recompute_unrealized
  mark_to_market figi price now m =
      let p = record (found_or_blank (get m figi) figi now) { current_price = some price } in
      record m { positions = Dict.put m.positions figi (recompute_unrealized p) }
