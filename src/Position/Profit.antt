-- ===== src/Position/Profit.antt =====
-- Profit and loss across fills: `apply_fill`, `_reduce_or_reverse` and `recompute_unrealized` of
-- backend/app/trading/position_manager.py.
use veles_moex.Common.{
  ◌≡◌, ◌⊎◌, inl, inr, true, false, some, arith, ap, sym, ◌∙◌, Bool-cases, if◌then◌else◌,
}
use veles_moex.Decimal.{
  ℤ, pos, ◌+ℤ◌, ◌-ℤ◌, neg, eq_ℤ, ltb_ℤ, abs, min_ℤ, Context, int_laws, add-sub, neg-neg, neg-add,
  neg-injective, one_sign, neg-eq_of_add, add-zero_ℤ, sub_self, flip_sub, cancel_new, cancel_closed,
  eq_of_eq_ℤ, abs-eq-neg,
}
use veles_moex.Decimal.Exact.{IsExact, zero-mul, sub-mul, neg-mul, mul-neg, mul-add, mul-zero}
use veles_moex.Position.Quantity.{quantity-fill_position}
use veles_moex.Position.{
  Position, same_sign, fill_position, reduce_or_reverse, recompute_unrealized, realized_on,
}

-- The average price after a fill, said by sizes: the price of what opens, the weighted mean of
-- what grows, nothing when closed, the old average while reduced, the price of what reverses.
abbrev pub average_after : ⦃ctx : Context⦄ → ℤ → ℤ → ℤ → ℤ → ℤ
average_after ⦃ctx⦄ q avg delta price =
    if eq_ℤ q (pos 0)
    then price
    else if same_sign q delta
    then ctx.div (ctx.mul (abs q) avg +ℤ ctx.mul (abs delta) price) (abs (q +ℤ delta))
    else if ltb_ℤ (abs q) (abs delta)
    then price
    else if eq_ℤ (abs q) (abs delta)
    then pos 0
    else avg

-- The signed amount by which `_reduce_or_reverse` closes a position.
abbrev signed_close : ℤ → ℤ → ℤ
signed_close q delta =
    if ltb_ℤ (pos 0) q then neg (min_ℤ (abs delta) (abs q)) else min_ℤ (abs delta) (abs q)

close_all : (q delta : ℤ) → ltb_ℤ (abs q) (abs delta) ≡ true → neg (signed_close q delta) ≡ q
close_all q delta h = grind int_laws

module _ ⦃ctx : Context⦄ where
  reduce_or_reverse_outcome :
      (p : Position) (delta x : ℤ)
      → let after = reduce_or_reverse p delta x in
        let s = signed_close p.quantity delta in
        ((after.average_price ≡ x) × (neg s ≡ p.quantity))
        ⊎ (((neg s ≡ p.quantity) × (after.quantity ≡ pos 0))
            ⊎ ((after.average_price ≡ p.average_price) × (after.quantity ≡ p.quantity +ℤ s)))
  unfolding reduce_or_reverse
  reduce_or_reverse_outcome p delta x =
      let s = signed_close p.quantity delta in
      elim (Bool-cases (ltb_ℤ (abs p.quantity) (abs delta))) [
        | inl reversed ↦ inl (rw reversed, close_all p.quantity delta reversed)
        | inr within ↦ elim (Bool-cases (eq_ℤ (p.quantity +ℤ s) (pos 0))) [
          | inl closed ↦ inr (
              inl (
                neg-eq_of_add p.quantity s (eq_of_eq_ℤ _ _ closed),
                ground (arith, within, eq_of_eq_ℤ (p.quantity +ℤ s) (pos 0) closed),
              ))
          | inr still ↦ inr (inr (ground (arith, within, still), ground (arith, within, still)))
        ]
      ]

  average_price-reduce_or_reverse :
      (p : Position) (delta price : ℤ)
      → eq_ℤ p.quantity (pos 0) ≡ false
      → same_sign p.quantity delta ≡ false
      → (reduce_or_reverse p delta price).average_price
        ≡ average_after p.quantity p.average_price delta price
  unfolding reduce_or_reverse
  average_price-reduce_or_reverse p delta price h k = grind int_laws

  realized_pnl-fill_position :
      (p : Position) (delta price : ℤ)
      → same_sign p.quantity delta ≡ true
      → (fill_position p delta price).realized_pnl ≡ p.realized_pnl
  unfolding fill_position
  realized_pnl-fill_position p delta price same = ground arith

  -- The average price after a fill is the one that the sizes and the direction call for.
  pub average_price-fill_position :
      (p : Position) (delta price : ℤ)
      → (fill_position p delta price).average_price
        ≡ average_after p.quantity p.average_price delta price
  unfolding fill_position
  average_price-fill_position p delta price =
      grind (int_laws, add-sub p.quantity delta, average_price-reduce_or_reverse p delta price)

  -- What the position is worth at `price`: the realized profit and the unrealized one.
  abbrev pub worth : Position → ℤ → ℤ
  worth p price =
      p.realized_pnl
      +ℤ (recompute_unrealized (record p { current_price = some price })).unrealized_pnl

  module _ (exact : IsExact ctx) where
    -- The profit on a signed quantity, whatever its sign.
    signed_profit :
        (x avg q : ℤ) → ltb_ℤ (pos 0) q ≡ false → ctx.mul (avg -ℤ x) (abs q) ≡ ctx.mul (x -ℤ avg) q
    signed_profit x avg q h =
        let size = abs-eq-neg q h in
        cc (
          flip_sub avg x,
          size,
          neg-mul ctx exact (x -ℤ avg) (abs q),
          mul-neg ctx exact (x -ℤ avg) q,
          neg-neg (ctx.mul (x -ℤ avg) q),
        )

    worth_lem :
        (p : Position) (x : ℤ)
        → worth p x ≡ p.realized_pnl +ℤ ctx.mul (x -ℤ p.average_price) p.quantity
    unfolding recompute_unrealized
    worth_lem p x = grind (
      arith,
      eq_of_eq_ℤ p.quantity (pos 0),
      signed_profit x p.average_price p.quantity,
      mul-zero ctx exact (x -ℤ p.average_price),
    )

    no_move : (x q : ℤ) → ctx.mul (x -ℤ x) q ≡ pos 0
    no_move x q = ap (λ t. ctx.mul t q) (sub_self x) ∙ zero-mul ctx exact q

    worth_opened :
        (r x avg q delta : ℤ) → q ≡ pos 0 → r +ℤ ctx.mul (x -ℤ x) delta ≡ r +ℤ ctx.mul (x -ℤ avg) q
    worth_opened r x avg q delta h =
        ap (λ t. r +ℤ t)
          (no_move x delta ∙ sym (ap (ctx.mul (x -ℤ avg)) h ∙ mul-zero ctx exact (x -ℤ avg)))

    worth_grown :
        (r x avg mean q delta : ℤ)
        → ctx.mul mean (q +ℤ delta) ≡ ctx.mul q avg +ℤ ctx.mul delta x
        → r +ℤ ctx.mul (x -ℤ mean) (q +ℤ delta) ≡ r +ℤ ctx.mul (x -ℤ avg) q
    worth_grown r x avg mean q delta h = cc (
      sub-mul ctx exact x mean (q +ℤ delta),
      mul-add ctx exact q delta x,
      exact.mul_comm q avg,
      exact.mul_comm delta x,
      sub-mul ctx exact x avg q,
      cancel_new (ctx.mul x q) (ctx.mul x delta) (ctx.mul avg q),
    )

    worth_reduced : (r m q s : ℤ) → r +ℤ ctx.mul m (neg s) +ℤ ctx.mul m (q +ℤ s) ≡ r +ℤ ctx.mul m q
    worth_reduced r m q s = cc (
      mul-neg ctx exact m s,
      mul-add ctx exact q s m,
      cancel_closed r (ctx.mul m q) (ctx.mul m s),
    )

    realized_signed :
        (q avg x c : ℤ)
        → realized_on q avg x c ≡ ctx.mul (x -ℤ avg) (neg (if ltb_ℤ (pos 0) q then neg c else c))
    unfolding realized_on
    realized_signed q avg x c = elim (Bool-cases (ltb_ℤ (pos 0) q)) [
      | inl up ↦ rw up (rw neg-neg)
      | inr down ↦
          rw down
            (cc (flip_sub avg x, neg-mul ctx exact (x -ℤ avg) c, mul-neg ctx exact (x -ℤ avg) c))
    ]

    worth_closed :
        (r x m q s any : ℤ)
        → neg s ≡ q
        → any ≡ pos 0
        → r +ℤ ctx.mul m (neg s) +ℤ any ≡ r +ℤ ctx.mul m q
    worth_closed r x m q s any h k = cc (h, k, add-zero_ℤ (r +ℤ ctx.mul m q))

    realized_pnl-reduce_or_reverse :
        (p : Position) (delta x : ℤ)
        → (reduce_or_reverse p delta x).realized_pnl
          ≡ p.realized_pnl +ℤ ctx.mul (x -ℤ p.average_price) (neg (signed_close p.quantity delta))
    unfolding reduce_or_reverse
    realized_pnl-reduce_or_reverse p delta x =
        ground
          (arith, realized_signed p.quantity p.average_price x (min_ℤ (abs delta) (abs p.quantity)))

    worth-reduce_or_reverse :
        (p : Position) (delta x : ℤ) → worth (reduce_or_reverse p delta x) x ≡ worth p x
    worth-reduce_or_reverse p delta x =
        let after = reduce_or_reverse p delta x in
        let r = p.realized_pnl in
        let q = p.quantity in
        let m = x -ℤ p.average_price in
        let s = signed_close q delta in
        rw (worth_lem p x, worth_lem after x, realized_pnl-reduce_or_reverse p delta x)
          (elim (reduce_or_reverse_outcome p delta x) [
            | inl (priced, all) ↦
                rw priced (worth_closed r x m q s _ all (no_move x after.quantity))
            | inr (inl (all, flat)) ↦ rw flat (worth_closed r x m q s _ all (mul-zero ctx exact _))
            | inr (inr (same, less)) ↦ rw (same, less) (worth_reduced r m q s)
          ])

    -- Whatever the common sign, the mean price times the new quantity is the cost of both parts.
    cost_of_mean :
        (q avg delta x mean : ℤ)
        → same_sign q delta ≡ true
        → ctx.mul mean (abs (q +ℤ delta)) ≡ ctx.mul (abs q) avg +ℤ ctx.mul (abs delta) x
        → ctx.mul mean (q +ℤ delta) ≡ ctx.mul q avg +ℤ ctx.mul delta x
    cost_of_mean q avg delta x mean same e = elim (one_sign q delta same) [
      | inl (a, b, c) ↦ rw (a, b, c) at e
      | inr (a, b, c) ↦
          let e' = rw (a, b, c) at e in
          neg-injective _ _ (
            cc (
              e',
              mul-neg ctx exact mean (q +ℤ delta),
              neg-mul ctx exact q avg,
              neg-mul ctx exact delta x,
              neg-add (ctx.mul q avg) (ctx.mul delta x),
            ))
    ]

    worth_fill_grown :
        (p : Position) (delta x : ℤ)
        → eq_ℤ p.quantity (pos 0) ≡ false
        → same_sign p.quantity delta ≡ true
        → let size = abs (p.quantity +ℤ delta) in
          let cost = ctx.mul (abs p.quantity) p.average_price +ℤ ctx.mul (abs delta) x in
          ctx.mul (ctx.div cost size) size ≡ cost → worth (fill_position p delta x) x ≡ worth p x
    worth_fill_grown p delta x some_held same divides =
        let after = fill_position p delta x in
        let q = p.quantity in
        let mean =
          ctx.div (ctx.mul (abs q) p.average_price +ℤ ctx.mul (abs delta) x) (abs (q +ℤ delta)) in
        let priced : after.average_price ≡ mean =
          average_price-fill_position p delta x ∙ ground (arith, some_held, same) in
        rw
          (
            worth_lem p x,
            worth_lem after x,
            realized_pnl-fill_position p delta x same,
            priced,
            quantity-fill_position p delta x,
          )
          (worth_grown p.realized_pnl x p.average_price mean q delta
            (cost_of_mean q p.average_price delta x mean same divides))

    -- A fill at a price changes what the position is worth at that price by nothing: profit is
    -- never made or lost by the bookkeeping of opening, growing, reducing, closing or reversing.
    -- Products are taken to be exact, and so is the quotient where the position grows.
    pub worth-fill_position :
        (p : Position) (delta x : ℤ)
        → (same_sign p.quantity delta ≡ true
            → let size = abs (p.quantity +ℤ delta) in
              let cost = ctx.mul (abs p.quantity) p.average_price +ℤ ctx.mul (abs delta) x in
              ctx.mul (ctx.div cost size) size ≡ cost)
        → worth (fill_position p delta x) x ≡ worth p x
    unfolding fill_position
    worth-fill_position p delta x divides = elim (Bool-cases (eq_ℤ p.quantity (pos 0))) [
      | inl flat ↦
          rw (worth_lem p x, worth_lem (fill_position p delta x) x)
            (rw flat (
              worth_opened p.realized_pnl x p.average_price p.quantity delta (eq_of_eq_ℤ _ _ flat)))
      | inr some_held ↦ elim (Bool-cases (same_sign p.quantity delta)) [
        | inl same ↦ worth_fill_grown p delta x some_held same (divides same)
        | inr opposite ↦ rw (some_held, opposite) (worth-reduce_or_reverse p delta x)
      ]
    ]
