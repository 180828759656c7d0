-- ===== src/Orders/Quiet.antt =====
-- `submit` of backend/app/trading/order_manager.py when no other task runs during the wait.
use veles_moex.Common.{
  String, ◌≡◌, refl, true, false, Option, none, some, [], ◌∷◌, ◌++◌, arith, inl, inr, Bool-cases,
}
use veles_moex.Decimal.{pos, leb_ℤ}
use veles_moex.Domain.{
  InternalOrder, ExecutionIntent, OrderState, OrderStatus, BrokerOrder, eq_state, can_transition,
}
use veles_moex.Repository
use veles_moex.Orders.State.{OrderManager, Outcome, ok, err, put_order, save_order, transition}
use veles_moex.Orders.Submit.{
  Reply, failed, nothing, answered, submit, find_duplicate, order_from, count_order, build_request,
  place, after_wait, finish, apply_broker_status, by_status, set_reject_info, mapped,
}
use veles_moex.Orders.Kept.{find}
use veles_moex.Orders.Stored.{find-put_order, find-save_order}

abbrev state_of : Option OrderState → OrderState
state_of none = OrderState.unknown
state_of (some s) = s

-- The state that an order reaches by a reply: what the table of broker statuses says, unknown
-- where there is no answer or the table has no entry.
abbrev state_by : Reply → OrderState
state_by failed = OrderState.unknown
state_by nothing = OrderState.unknown
state_by (answered b) = state_of (mapped b.status)

-- The call returned an order that the repository holds, in this state.
record Ends (s : OrderState) (m : OrderManager) (r : Outcome InternalOrder × OrderManager)
    : Type 0 where
  order : InternalOrder
  returned : r.0 ≡ ok order
  stored : find r.1 order.order_id ≡ some order
  status : order.status ≡ s
  sent : r.1.sent ≡ m.sent

eq_state-eq : (s t : OrderState) → eq_state s t ≡ true → s ≡ t
eq_state-eq s t e = ground arith

leaves_submitted :
    (s : OrderState)
    → eq_state s OrderState.created ≡ false
    → eq_state OrderState.submitted s ≡ false
    → can_transition OrderState.submitted s ≡ true
leaves_submitted s h e = ground arith

move :
    (o : InternalOrder) (s : OrderState) (m : OrderManager)
    → eq_state s OrderState.created ≡ false
    → o.status ≡ OrderState.submitted
    → find m o.order_id ≡ some o
    → Ends s m (transition o s m)
unfolding transition
move o s m h e held = elim (Bool-cases (eq_state o.status s)) [
  | inl same ↦ rw same (record {
    order = o;
    returned = refl;
    stored = held;
    status = eq_state-eq o.status s same;
    sent = refl;
  })
  | inr other ↦
      rw (other, can other)
        (record {
          order = _;
          returned = refl;
          stored = find-put_order m _;
          status = refl;
          sent = refl;
        })
]
  where
    can : eq_state o.status s ≡ false → can_transition o.status s ≡ true
    can other = rw e (leaves_submitted s h (rw e at other))

with_info :
    (s : OrderState) (m : OrderManager) (r : Outcome InternalOrder × OrderManager)
    (info : Option String)
    → Ends s m r
    → Ends s m (elim r.0 [ ok o ↦ set_reject_info info o r.1 | err x ↦ (err x, r.1) ])
unfolding apply_broker_status
with_info s m r info e = rw e.returned (record {
  order = record (e.order) { reject_info = info };
  returned = refl;
  stored = find-put_order r.1 _;
  status = e.status;
  sent = e.sent;
})

answer :
    (s : OrderStatus) (o : InternalOrder) (b : BrokerOrder) (m : OrderManager)
    → o.status ≡ OrderState.submitted
    → find m o.order_id ≡ some o
    → Ends (state_of (mapped s)) m (by_status s b o m)
unfolding apply_broker_status
answer OrderStatus.rejected o b m e held =
    with_info _ m _ b.reject_info (move o OrderState.rejected m refl e held)
answer OrderStatus.error o b m e held =
    with_info _ m _ b.reject_info (move o OrderState.failed m refl e held)
answer OrderStatus.new o b m e held = move o _ m refl e held
answer OrderStatus.submitted o b m e held = move o _ m refl e held
answer OrderStatus.partially_filled o b m e held = move o _ m refl e held
answer OrderStatus.filled o b m e held = move o _ m refl e held
answer OrderStatus.cancelled o b m e held = move o _ m refl e held
answer OrderStatus.expired o b m e held = move o _ m refl e held
answer OrderStatus.unknown o b m e held = move o _ m refl e held

finished :
    (reply : Reply) (o : InternalOrder) (m : OrderManager)
    → o.status ≡ OrderState.submitted
    → find m o.order_id ≡ some o
    → Ends (state_by reply) m (finish reply o m)
unfolding place apply_broker_status
finished failed o m e held = move o _ m refl e held
finished nothing o m e held = move o _ m refl e held
finished (answered b) o m e held =
    let o' = record o { broker_order_id = some b.order_id } in
    let r = answer b.status o' b (save_order o' m) e (find-save_order m o') in
    record {
      order = r.order;
      returned = r.returned;
      stored = r.stored;
      status = r.status;
      sent = r.sent;
    }

-- The order that a new intent puts under way, and the manager that holds it.
abbrev pub under_way : String → ExecutionIntent → OrderManager → InternalOrder
under_way uuid i m = record (order_from uuid i m) {
  status = OrderState.submitted;
  updated_at = m.now;
}

abbrev pub begun : String → ExecutionIntent → OrderManager → OrderManager
begun uuid i m = put_order (under_way uuid i m) (save_order (order_from uuid i m) (count_order m))

pub submit_places :
    (uuid : String) (i : ExecutionIntent) (f : OrderManager → OrderManager) (reply : Reply)
    (m : OrderManager)
    → find_duplicate i m ≡ none
    → leb_ℤ i.quantity (pos 0) ≡ false
    → submit uuid i f reply m ≡ place (under_way uuid i m) f reply (begun uuid i m)
unfolding submit transition
submit_places uuid i f reply m new positive = rw (new, positive)

-- What `place_order` leaves to the wait.
abbrev pub requested : InternalOrder → OrderManager → OrderManager
requested o m = record m { sent = m.sent ++ build_request o ∷ [] }

pub place_answered :
    (o o' : InternalOrder) (f : OrderManager → OrderManager) (reply : Reply) (m : OrderManager)
    → find (f (requested o m)) o.order_id ≡ some o'
    → place o f reply m ≡ finish reply o' (f (requested o m))
unfolding place after_wait Repository.get
place_answered o o' f reply m e = rw e

-- A new intent with a positive quantity that is submitted while no other task runs never raises:
-- one request is sent, and the order that comes back is the one that the repository holds,
-- in the state that the answer of the broker calls for, unknown where it failed or said nothing.
pub submit_quiet :
    (uuid : String) (i : ExecutionIntent) (reply : Reply) (m : OrderManager)
    → find_duplicate i m ≡ none
    → leb_ℤ i.quantity (pos 0) ≡ false
    → let r = submit uuid i (λ n. n) reply m in
      (o : InternalOrder) × (r.0 ≡ ok o)
      × (find r.1 o.order_id ≡ some o)
      × (o.status ≡ state_by reply)
      × (r.1.sent ≡ m.sent ++ build_request (order_from uuid i m) ∷ [])
submit_quiet uuid i reply m new positive =
    let o = under_way uuid i m in
    let n = begun uuid i m in
    let held = find-put_order (save_order (order_from uuid i m) (count_order m)) o in
    let r = finished reply o (requested o n) refl held in
    rw
      (submit_places uuid i (λ n. n) reply m new positive, place_answered o o (λ n. n) reply n held)
      (r.order, r.returned, r.stored, r.status, r.sent)
