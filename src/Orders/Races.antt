-- ===== src/Orders/Races.antt =====
-- What `submit` and `cancel` of backend/app/trading/order_manager.py do when a fill or an order
-- update comes in during the wait for the broker.
use veles_moex.Common.{
  String, ◌≡◌, refl, ◌∙◌, ap, Bool, true, false, none, some, [], ◌∷◌, ◌++◌, ◌+◌, ◌⊎◌, arith, inl,
  inr, if◌then◌else◌,
}
use veles_moex.Decimal.{pos, leb_ℤ}
use veles_moex.Domain.{
  InternalOrder, ExecutionIntent, OrderState, OrderStatus, BrokerOrder, is_terminal, eq_state,
  can_transition,
}
use veles_moex.Repository
use veles_moex.Orders.State.{OrderManager, ok, err, order_state, put_order, transition, order_name}
use veles_moex.Orders.Submit.{
  answered, submit, find_duplicate, place, after_wait, apply_broker_status, by_status,
}
use veles_moex.Orders.Cancel.{cancel, cancel_found, at_broker, after_cancel}
use veles_moex.Orders.Kept.{find}
use veles_moex.Orders.Tracks.{transition_allowed, bind_ok}
use veles_moex.Orders.Quiet.{under_way, begun, submit_places, requested, place_answered}

-- The order while `cancel` waits for the broker, and the manager then.
abbrev pub requested_off : InternalOrder → OrderManager → InternalOrder
requested_off o m = record o { status = OrderState.cancel_requested; updated_at = m.now }

abbrev pub in_wait : InternalOrder → String → OrderManager → OrderManager
in_wait o b m = record (put_order (requested_off o m) m) {
  cancels = m.cancels ++ (b, o.account_id) ∷ [];
}

asks :
    (s : OrderState)
    → can_transition s OrderState.cancel_requested ≡ true
    → (is_terminal s ≡ false) × (eq_state s OrderState.cancel_requested ≡ false)
asks s h = ground arith

stuck :
    (s t : OrderState)
    → is_terminal s ≡ true
    → is_terminal t ≡ false
    → (can_transition s t ≡ false) × (eq_state s t ≡ false)
stuck s t h k = ground arith

over :
    (done : Bool) (o : InternalOrder) (m : OrderManager)
    → is_terminal o.status ≡ true
    → after_cancel done o m
      ≡ ((if done then ok o else err (order_state o.status OrderState.unknown)), m)
unfolding cancel transition
over true o m t = rw t
over false o m t =
    let (closed, other) = stuck o.status OrderState.unknown t refl in rw (other, closed)

cancel_waits :
    (o : InternalOrder) (b : String) (f : OrderManager → OrderManager) (done : Bool)
    (m : OrderManager)
    → can_transition o.status OrderState.cancel_requested ≡ true
    → o.broker_order_id ≡ some b
    → cancel_found (some o) o.order_id f done m
      ≡ at_broker (some b) f done (requested_off o m) (put_order (requested_off o m) m)
unfolding cancel
cancel_waits o b f done m can e =
    let (live, other) = asks o.status can in
    rw live (
      bind_ok (transition o OrderState.cancel_requested)
        (λ o'. at_broker o'.broker_order_id f done o') m _ _
        (transition_allowed o OrderState.cancel_requested m other can)
      ∙ ap (λ x. at_broker x f done (requested_off o m) (put_order (requested_off o m) m)) e)

-- If an order that is asked to be cancelled has reached a terminal state when the broker answers,
-- because a fill or an update came in meanwhile, that state stands: the call returns the order as
-- it then is if the broker agreed, and raises an order state error if the broker raised.
pub cancel_race :
    (oid b : String) (o o' : InternalOrder) (f : OrderManager → OrderManager) (done : Bool)
    (m : OrderManager)
    → find m oid ≡ some o
    → can_transition o.status OrderState.cancel_requested ≡ true
    → o.broker_order_id ≡ some b
    → find (f (in_wait o b m)) o.order_id ≡ some o'
    → is_terminal o'.status ≡ true
    → cancel oid f done m ≡ (
      (if done then ok o' else err (order_state o'.status OrderState.unknown)),
      f (in_wait o b m),
    )
unfolding cancel Repository.get after_wait
cancel_race oid b o o' f done m found can sent e t =
    rw (found, cancel_waits o b f done m can sent, e) (over done o' (f (in_wait o b m)) t)

refused :
    (o' : InternalOrder) (n : OrderManager) (b : BrokerOrder) (s : OrderStatus)
    → (o'.status ≡ OrderState.partially_filled) ⊎ (o'.status ≡ OrderState.filled)
    → (s ≡ OrderStatus.new) ⊎ (s ≡ OrderStatus.submitted)
    → (by_status s b o' n).0 ≡ err (order_state o'.status OrderState.submitted)
unfolding apply_broker_status transition
refused o' n b s (inl e) (inl k) = rw (k, e)
refused o' n b s (inl e) (inr k) = rw (k, e)
refused o' n b s (inr e) (inl k) = rw (k, e)
refused o' n b s (inr e) (inr k) = rw (k, e)

-- If the first fills of a new order come in while `submit` waits, so that it is partly or fully
-- filled, and the broker then answers that the order is new or submitted, the call raises an
-- order state error, although the order was placed.
pub submit_race :
    (uuid : String) (i : ExecutionIntent) (f : OrderManager → OrderManager) (b : BrokerOrder)
    (m : OrderManager) (o' : InternalOrder)
    → find_duplicate i m ≡ none
    → leb_ℤ i.quantity (pos 0) ≡ false
    → find (f (requested (under_way uuid i m) (begun uuid i m))) (order_name (m.order_seq + 1))
      ≡ some o'
    → (o'.status ≡ OrderState.partially_filled) ⊎ (o'.status ≡ OrderState.filled)
    → (b.status ≡ OrderStatus.new) ⊎ (b.status ≡ OrderStatus.submitted)
    → (submit uuid i f (answered b) m).0 ≡ err (order_state o'.status OrderState.submitted)
unfolding apply_broker_status place transition
submit_race uuid i f b m o' new positive e moved early =
    rw
      (
        submit_places uuid i f (answered b) m new positive,
        place_answered (under_way uuid i m) o' f (answered b) (begun uuid i m) e,
      )
      (refused _ _ b b.status moved early)
