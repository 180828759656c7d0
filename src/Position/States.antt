-- ===== src/Position/States.antt =====
-- Which positions may be traded: `position_state`, `resolve_quantity`, `load_state` and the
-- reconciliation flag of backend/app/trading/position_manager.py.
use veles_moex.Common.{ℕ, String, ◌≡◌, refl, true, Option, List, [], ◌∷◌, arith}
use veles_moex.Decimal.{ℤ, pos, ◌<ℤ◌, abs, Context}
use veles_moex.Dict
use veles_moex.Dict.{IsKeyed, get-put_all-values}
use veles_moex.Domain.{OrderSide, Direction, PositionUpdate}
use veles_moex.Position.{
  Position, PositionManager, LivePositionState, unknown, flat, open_position, sign_mismatch,
  Resolved, amount, raised, unavailable, zero_quantity, inconsistent_sign, get, sign_matches,
  position_state, resolve_quantity, load_state, apply_fill, apply_position_update, mark_to_market,
  invalidate_reconciliation, clear, mark_reconciled, remove,
}
use veles_moex.Position.Quantity.{held}

-- What an exit quantity, or its error, says of the position.
abbrev pub state_seen : Resolved → LivePositionState
state_seen (amount q) = open_position
state_seen (raised unavailable) = flat
state_seen (raised zero_quantity) = flat
state_seen (raised inconsistent_sign) = sign_mismatch

-- Under a reconciliation the state of a position and the answer to an exit request agree: an
-- exit is possible exactly in the open state, and each error names the state.
pub position_state-resolve_quantity :
    (m : PositionManager) (figi : String) (d : Direction)
    → m.reconciled ≡ true
    → position_state m figi d ≡ state_seen (resolve_quantity m figi d)
unfolding position_state resolve_quantity
position_state-resolve_quantity m figi d h = ground arith

-- An exit quantity is positive, is the size of what is held, and the sign of what is held fits
-- the direction.
pub resolve_quantity_amount :
    (m : PositionManager) (figi : String) (d : Direction) (q : ℤ)
    → resolve_quantity m figi d ≡ amount q
    → (pos 0 <ℤ q) × (q ≡ abs (held m figi)) × (sign_matches (held m figi) d ≡ true)
unfolding resolve_quantity
resolve_quantity_amount m figi d q h = ground arith

-- Each position stands under its own instrument.
abbrev pub IsFiled : PositionManager → Type 0
IsFiled m = IsKeyed (λ p. p.instrument_figi) m.positions

-- Restoring the positions of a manager gives every instrument its position back, and no state is
-- known until the next reconciliation.
pub load_state_restores :
    (m n : PositionManager) (figi : String) (d : Direction)
    → IsFiled m
    → let restored = load_state n (Dict.values m.positions) in
      (get restored figi ≡ get m figi) × (position_state restored figi d ≡ unknown)
unfolding load_state position_state
load_state_restores m n figi d h =
    (get-put_all-values (λ p. p.instrument_figi) m.positions figi h, refl)

-- The calls that change a position manager.
pub data PositionCall : Type 0 where
  filled : String → OrderSide → ℤ → ℤ → ℤ → Option ℕ → ℕ → PositionCall
  updated : PositionUpdate → ℕ → PositionCall
  marked : String → ℤ → ℕ → PositionCall
  removed : String → PositionCall
  loaded : List Position → PositionCall
  reconciled invalidated cleared : PositionCall

abbrev figi_of : Position → String
figi_of p = p.instrument_figi

module _ ⦃ctx : Context⦄ where
  pub call : PositionCall → PositionManager → PositionManager
  call (filled figi side q price fee t now) m = apply_fill figi side q price fee t now m
  call (updated u now) m = apply_position_update u now m
  call (marked figi price now) m = mark_to_market figi price now m
  call (removed figi) m = remove m figi
  call (loaded ps) m = load_state m ps
  call reconciled m = mark_reconciled m
  call invalidated m = invalidate_reconciliation m
  call cleared m = clear m

  pub call_all : List PositionCall → PositionManager → PositionManager
  call_all [] m = m
  call_all (c ∷ cs) m = call_all cs (call c m)
