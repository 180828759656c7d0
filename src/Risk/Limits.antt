-- ===== src/Risk/Limits.antt =====
-- What an order that the risk manager lets through can do: `check_order` of
-- backend/app/trading/risk_manager.py against the fills of
-- backend/app/trading/position_manager.py.
use veles_moex.Common.{
  ◌≡◌, refl, subst, ◌⊎◌, inl, inr, Bool, true, false, none, some, List, String, arith, str_eq,
  Bool-cases, Option-cases, member, if◌then◌else◌,
}
use veles_moex.Decimal.{ℤ, pos, leb_ℤ, ◌<ℤ◌}
use veles_moex.Domain.{ExecutionIntent, OrderType}
use veles_moex.Position
use veles_moex.Position.{Position}
use veles_moex.Risk.{
  RiskManager, Rejection, reject_if, ◌then◌, is_blocked, Verdict, passed, rejected, check_order,
  is_reducing, check_position_size, check_quantity, check_price, check_instrument_permission,
}

then_passed : (a b : Verdict) → (a then b) ≡ passed → (a ≡ passed) × (b ≡ passed)
then_passed passed b h = (refl, h)
then_passed (rejected r) b h = absurd (rejected_ne_passed h)
  where
    rejected_ne_passed : rejected r ≡ passed → ⊥
    rejected_ne_passed q = cc

not_rejected : (b : Bool) (r : Rejection) → reject_if b r ≡ passed → b ≡ false
not_rejected true r h = cc
not_rejected false r h = refl

-- The checks that an order passes one by one.
record Passes (m : RiskManager) (i : ExecutionIntent) : Type 0 where
  running : m.limits.emergency_stop ≡ false
  quantity : check_quantity i ≡ passed
  price : check_price i ≡ passed
  permission : check_instrument_permission m i ≡ passed
  growth : (is_reducing m i ≡ true) ⊎ (check_position_size m i ≡ passed)

passes : (m : RiskManager) (i : ExecutionIntent) → check_order m i ≡ passed → Passes m i
unfolding check_order
passes m i h =
    let (four, last) = then_passed _ _ h in
    let (three, permission) = then_passed _ _ four in
    let (two, price) = then_passed _ _ three in
    let (one, quantity) = then_passed _ _ two in
    record {
      running = not_rejected _ _ one;
      quantity = quantity;
      price = price;
      permission = permission;
      growth = elim (Bool-cases (is_reducing m i)) [
        | inl reducing ↦ inl reducing
        | inr growing ↦ inr (then_passed _ _ (rw growing at last)).0
      ];
    }

positive_quantity : (i : ExecutionIntent) → check_quantity i ≡ passed → pos 0 <ℤ i.quantity
unfolding check_quantity
positive_quantity i h =
    ground (arith, not_rejected (leb_ℤ i.quantity (pos 0)) Rejection.bad_quantity h)

limit_price_positive :
    (i : ExecutionIntent)
    → check_price i ≡ passed
    → i.order_type ≡ OrderType.limit
    → (p : ℤ) × (i.limit_price ≡ some p) × (pos 0 <ℤ p)
unfolding check_price
limit_price_positive i h e = elim (Option-cases i.limit_price) [
  | inl missing ↦ absurd (clash missing)
  | inr (p, found) ↦ (p, found, ground (arith, h, e, found))
]
  where
    clash : i.limit_price ≡ none → ⊥
    clash missing = ground (arith, h, e, missing)

-- An order that passes has a positive quantity and, if it is a limit order, a positive limit
-- price, its instrument is not on the list of blocked ones, and the emergency stop is off.
pub passed_is_sane :
    (m : RiskManager) (i : ExecutionIntent)
    → check_order m i ≡ passed
    → (m.limits.emergency_stop ≡ false)
      × (pos 0 <ℤ i.quantity)
      × (i.order_type ≡ OrderType.limit → (p : ℤ) × (i.limit_price ≡ some p) × (pos 0 <ℤ p))
      × ((blocked : List String)
          → m.limits.blocked_instruments ≡ some blocked
          → member str_eq i.instrument_figi blocked ≡ false)
unfolding check_instrument_permission
passed_is_sane m i h =
    let p = passes m i h in
    (
      p.running,
      positive_quantity i p.quantity,
      limit_price_positive i p.price,
      λ blocked e. free blocked (
          subst (λ o. is_blocked o i.instrument_figi ≡ false) e
            (not_rejected _ _ (then_passed _ _ p.permission).0)),
    )
  where
    free :
        (blocked : List String)
        → is_blocked (some blocked) i.instrument_figi ≡ false
        → member str_eq i.instrument_figi blocked ≡ false
    free blocked q = q
