-- ===== src/Orders/Landing.antt =====
-- Where a fill lands: `apply_fill` of backend/app/trading/order_manager.py on the order and the
-- position.
use veles_moex.Common.{
  String, ◌≡◌, refl, sym, subst, Bool, true, false, some, arith, inl, inr, Bool-cases, str_eq,
  if◌then◌else◌, ◌&&◌,
}
use veles_moex.Decimal.{Context, ℤ, pos, ◌+ℤ◌, leb_ℤ, ltb_ℤ, eq_ℤ}
use veles_moex.Dict
use veles_moex.Domain.{InternalOrder, Fill, OrderState, is_terminal, eq_state, can_transition}
use veles_moex.Position.{delta_of}
use veles_moex.Position.Quantity.{held, held-apply_fill}
use veles_moex.Orders.State.{OrderManager, Outcome, ok, Action, pure, modify, put_order, transition}
use veles_moex.Orders.Events.{
  apply_fill, average_fill, fill_target, priced_fill, save_fill, notify, tell, move_position,
}
use veles_moex.Orders.Kept.{find, IsSound}
use veles_moex.Orders.Stored.{find-put_order}
use veles_moex.Orders.Delivery.{apply_fill_fresh}
use veles_moex.Orders.Tracks.{transition_allowed, bind_returned}

module _ ⦃ctx : Context⦄ where
  -- The order behind a fill: its quantity has grown, and its state is the one that the quantity
  -- calls for unless it was terminal.
  abbrev pub grown : InternalOrder → Fill → ℤ
  grown o f = o.filled_quantity +ℤ f.quantity

  abbrev pub state_behind : InternalOrder → Fill → OrderState
  state_behind o f =
      if is_terminal o.status
      then o.status
      else if leb_ℤ o.requested_quantity (grown o f)
      then OrderState.filled
      else OrderState.partially_filled

  -- The call returned, and the manager holds the order in this state.
  record Steps (s : OrderState) (o : InternalOrder) (m : OrderManager)
      (r : Outcome InternalOrder × OrderManager) : Type 0 where
    order : InternalOrder
    returned : r.0 ≡ ok order
    stored : find r.1 order.order_id ≡ some order
    same_id : order.order_id ≡ o.order_id
    quantity : order.filled_quantity ≡ o.filled_quantity
    figi : order.instrument_figi ≡ o.instrument_figi
    side : order.side ≡ o.side
    status : order.status ≡ s
    positions : r.1.positions ≡ m.positions
    listening : r.1.listening ≡ m.listening
    notified : r.1.notified ≡ m.notified

  transition_same :
      (o : InternalOrder) (s : OrderState) (m : OrderManager)
      → eq_state o.status s ≡ true
      → transition o s m ≡ (ok o, m)
  unfolding transition
  transition_same o s m e = rw e

  eq_state-eq : (s t : OrderState) → eq_state s t ≡ true → s ≡ t
  eq_state-eq s t e = ground arith

  fills :
      (s : OrderState) (t : Bool)
      → eq_state s OrderState.created ≡ false
      → is_terminal s ≡ false
      → can_transition s (if t then OrderState.filled else OrderState.partially_filled) ≡ true
  fills s t h k = ground arith

  step : InternalOrder → Action InternalOrder
  step o = if is_terminal o.status then pure o else transition o (fill_target o)

  stepped :
      (o : InternalOrder) (m : OrderManager)
      → eq_state o.status OrderState.created ≡ false
      → find m o.order_id ≡ some o
      → Steps (if is_terminal o.status then o.status else fill_target o) o m (step o m)
  unfolding step
  stepped o m new held = elim (Bool-cases (is_terminal o.status)) [
    | inl over ↦ rw over (stay o.status refl)
    | inr live ↦ rw live (elim (Bool-cases (eq_state o.status (fill_target o))) [
      | inl same ↦
          rw (transition_same o (fill_target o) m same)
            (stay (fill_target o) (eq_state-eq _ _ same))
      | inr other ↦
          rw (transition_allowed o (fill_target o) m other (fills o.status _ new live)) (record {
            order = _;
            returned = refl;
            stored = find-put_order m _;
            same_id = refl;
            quantity = refl;
            figi = refl;
            side = refl;
            status = refl;
            positions = refl;
            listening = refl;
            notified = refl;
          })
    ])
  ]
    where
      stay : (s : OrderState) → o.status ≡ s → Steps s o m (ok o, m)
      stay s e = record {
        order = o;
        returned = refl;
        stored = held;
        same_id = refl;
        quantity = refl;
        figi = refl;
        side = refl;
        status = e;
        positions = refl;
        listening = refl;
        notified = refl;
      }

  priced :
      (o : InternalOrder) (f : Fill)
      → eq_ℤ (grown o f) (pos 0) ≡ false
      → (a : ℤ) × (average_fill o f ≡ some a)
  unfolding average_fill
  priced o f h = elim (Bool-cases (eq_ℤ o.filled_quantity (pos 0) && ltb_ℤ (pos 0) f.quantity)) [
    | inl first ↦ (f.price, rw first)
    | inr more ↦ (
      ctx.div (ctx.mul o.average_fill_price o.filled_quantity +ℤ ctx.mul f.price f.quantity)
          (grown o f),
      rw (more, h),
    )
  ]

  notify_keeps :
      (o : InternalOrder) (f : Fill) (m : OrderManager)
      → ((notify o f m).positions ≡ m.positions) × ((notify o f m).orders ≡ m.orders)
  unfolding apply_fill
  notify_keeps o f m = go m.listening
    where
      go :
          (b : Bool) → ((tell b o f m).positions ≡ m.positions) × ((tell b o f m).orders ≡ m.orders)
      go true = (refl, refl)
      go false = (refl, refl)

  -- What a fill does to its order and to the positions.
  pub record Lands (f : Fill) (o : InternalOrder) (m n : OrderManager) : Type 0 where
    order : InternalOrder
    stored : find n o.order_id ≡ some order
    filled_quantity : order.filled_quantity ≡ grown o f
    status : order.status ≡ state_behind o f
    positions :
        (figi : String)
        → held n.positions figi ≡ (
            if str_eq o.instrument_figi figi
            then held m.positions o.instrument_figi +ℤ delta_of o.side f.quantity
            else held m.positions figi)

  module _ (f : Fill) (o : InternalOrder) (m : OrderManager) where
    abbrev grown_order : ℤ → InternalOrder
    grown_order a = record o {
      filled_quantity = grown o f;
      average_fill_price = a;
      updated_at = f.timestamp;
    }

    lands :
        (a : ℤ) (n : OrderManager) (r : Outcome InternalOrder × OrderManager)
        → n.positions ≡ m.positions
        → (st : Steps (state_behind o f) (grown_order a) n r)
        → Lands f o m (notify st.order f (move_position st.order f r.1))
    unfolding apply_fill
    lands a n r same st =
        let k = move_position st.order f r.1 in
        let (told, kept) = notify_keeps st.order f k in
        record {
          order = st.order;
          stored = rw (kept, sym st.same_id) st.stored;
          filled_quantity = st.quantity;
          status = st.status;
          positions = λ figi. rw (told, held-apply_fill, st.positions, same, st.figi, st.side) refl;
        }

    filled_order :
        (a : ℤ) (n : OrderManager)
        → eq_state o.status OrderState.created ≡ false
        → n.positions ≡ m.positions
        → let r = priced_fill (some a) (record o { filled_quantity = grown o f }) f n in
          (r.0 ≡ ok tt) × Lands f o m r.1
    unfolding apply_fill step
    filled_order a n new same =
        let o' = grown_order a in
        let n' = put_order o' n in
        let st = stepped o' n' new (find-put_order n o') in
        subst (λ r. (r.0 ≡ ok tt) × Lands f o m r.1)
          (sym (
            bind_returned (step o') (λ o''. modify (λ k. notify o'' f (move_position o'' f k))) n'
              st.order st.returned))
          (refl, lands a n' _ same st)

  -- A fill that is seen for the first time, on an order that has been submitted and whose filled
  -- quantity it does not bring to zero, is applied without an error: the filled quantity of the
  -- order grows by its quantity, the state becomes partially filled or filled as the requested
  -- quantity says unless it was terminal, and the position of the instrument moves by the signed
  -- quantity, every other position staying the same.
  pub fill_lands :
      (f : Fill) (o : InternalOrder) (m : OrderManager)
      → IsSound m
      → Dict.has m.fills f.fill_id ≡ false
      → find m f.internal_order_id ≡ some o
      → eq_state o.status OrderState.created ≡ false
      → eq_ℤ (o.filled_quantity +ℤ f.quantity) (pos 0) ≡ false
      → ((apply_fill f m).0 ≡ ok tt) × Lands f o m (apply_fill f m).1
  unfolding apply_fill
  fill_lands f o m h first found new nonzero =
      let (a, average) = priced o f nonzero in
      let o' = record o { filled_quantity = grown o f } in
      rw (apply_fill_fresh f m first, found, average)
        (filled_order f o m a (put_order o' (save_fill f m)) new refl)
