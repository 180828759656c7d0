-- ===== src/Orders/Guarantee.antt =====
-- The methods of the order manager that wait for the broker, for the relation `Keeps`.
use veles_moex.Common.{
  String, sym, subst, [], ◌∷◌, ◌++◌, ◌≡◌, refl, Bool, true, false, Option, none, some, arith, inl,
  inr, Bool-cases, Option-cases,
}
use veles_moex.Decimal.{pos, leb_ℤ}
use veles_moex.Dict.{get_key}
use veles_moex.Domain.{
  InternalOrder, ExecutionIntent, OrderState, OrderStatus, BrokerOrder, is_terminal,
}
use veles_moex.Domain.Lifecycle.{here}
use veles_moex.Repository
use veles_moex.Orders.State.{
  OrderManager, Outcome, ok, err, Raised, ◌>>=◌, transition, put_order, save_order,
}
use veles_moex.Orders.Submit.{
  Reply, answered, nothing, failed, apply_broker_status, by_status, finish, fresh, submit_unless,
  after_wait, place, reject, submit, find_duplicate, order_from, count_order, build_request,
}
use veles_moex.Orders.Cancel.{cancel, refresh, rescue, after_cancel, at_broker, refreshed, asked}
use veles_moex.Orders.Kept.{
  id_of, find, IsSound, Later, Later-set, Evolves, Keeps, Keeps-trans, Keeps-aside, Rely,
}
use veles_moex.Orders.Stored.{Keeps-save_new, find-save_order}
use veles_moex.Orders.Tracks.{
  Held, Tracks, Keeps-refl, Tracks-pure, Tracks-bind, Tracks-after, Tracks-put_order,
  Tracks-save_order, Tracks-transition,
}

Tracks-apply_broker_status :
    (m : OrderManager) (o : InternalOrder) (b : BrokerOrder)
    → IsSound m
    → Held m o
    → Tracks m o (apply_broker_status o b m)
unfolding apply_broker_status
Tracks-apply_broker_status m o b h held = go b.status
  where
    info :
        (o' : InternalOrder) (n : OrderManager)
        → IsSound n
        → Held n o'
        → Tracks n o' (
          ok (record o' { reject_info = b.reject_info }),
          put_order (record o' { reject_info = b.reject_info }) n,
        )
    info o' n s held =
        Tracks-put_order n o' (record o' { reject_info = b.reject_info }) s held (Later-set o' here)

    go : (s : OrderStatus) → Tracks m o (by_status s b o m)
    go OrderStatus.rejected =
        Tracks-bind m o (transition o OrderState.rejected) _
          (Tracks-transition m o OrderState.rejected h held) info
    go OrderStatus.error =
        Tracks-bind m o (transition o OrderState.failed) _
          (Tracks-transition m o OrderState.failed h held) info
    go _ = Tracks-transition m o _ h held

-- The order object behind a wait is the one that the repository holds.
pub after_wait-Held :
    (m n : OrderManager) (o : InternalOrder)
    → Held m o
    → IsSound n
    → Evolves m n
    → Held n (after_wait o n) × Later o (after_wait o n)
unfolding after_wait Repository.get
after_wait-Held m n o held h e =
    let (o', found, later) = e.kept o.order_id o held in
    let held' = subst (λ k. find n k ≡ some o') (sym later.order_id) found in
    rw found (held', later)

Tracks-finish :
    (reply : Reply) (m : OrderManager) (o : InternalOrder)
    → IsSound m
    → Held m o
    → Tracks m o (finish reply o m)
unfolding place
Tracks-finish failed m o h held = Tracks-transition m o OrderState.unknown h held
Tracks-finish nothing m o h held = Tracks-transition m o OrderState.unknown h held
Tracks-finish (answered b) m o h held =
    let o' = record o { broker_order_id = some b.order_id } in
    let t = Tracks-save_order m o o' h held (Later-set o here) in
    Tracks-after t.keeps t.hands.1
      (Tracks-apply_broker_status (save_order o' m) o' b t.keeps.sound t.hands.0)

Tracks-place :
    (f : OrderManager → OrderManager) (reply : Reply) (m : OrderManager) (o : InternalOrder)
    → Rely f
    → IsSound m
    → Held m o
    → Tracks m o (place o f reply m)
unfolding place
Tracks-place f reply m o rely h held =
    let n = record m { sent = m.sent ++ build_request o ∷ [] } in
    let sending : Keeps m n = Keeps-aside h refl refl (λ k e. e) in
    let waiting = Keeps-trans sending (rely n sending.sound) in
    let (held', later) = after_wait-Held m (f n) o held waiting.sound waiting.evolves in
    Tracks-after waiting later.order_id
      (Tracks-finish reply (f n) (after_wait o (f n)) waiting.sound held')

-- The part of `submit` behind the save of the new order.
pub Keeps-placed :
    (uuid : String) (i : ExecutionIntent) (f : OrderManager → OrderManager) (reply : Reply)
    (m : OrderManager)
    → Rely f
    → IsSound m
    → let o = order_from uuid i m in
      let n = save_order o (count_order m) in
      Keeps n ((transition o OrderState.submitted >>= λ o'. place o' f reply) n).1
Keeps-placed uuid i f reply m rely h =
    let o = order_from uuid i m in
    let n = save_order o (count_order m) in
    let start = Keeps-save_new m o h refl in
    (Tracks-bind n o (transition o OrderState.submitted) (λ o'. place o' f reply)
      (Tracks-transition n o OrderState.submitted start.sound (find-save_order (count_order m) o))
      (λ o' k s held. Tracks-place f reply k o' rely s held)).keeps

-- The method `submit` as a whole.
pub Keeps-submit :
    (uuid : String) (i : ExecutionIntent) (f : OrderManager → OrderManager) (reply : Reply)
    (m : OrderManager)
    → Rely f
    → IsSound m
    → Keeps m (submit uuid i f reply m).1
unfolding submit
Keeps-submit uuid i f reply m rely h = go (find_duplicate i m)
  where
    fresh_kept : Keeps m (fresh uuid i f reply m).1
    fresh_kept = elim (Bool-cases (leb_ℤ i.quantity (pos 0))) [
      | inl bad ↦ rw bad (unfold reject in Keeps-save_new m _ h refl)
      | inr good ↦ rw good (
          Keeps-trans (Keeps-save_new m (order_from uuid i m) h refl)
            (Keeps-placed uuid i f reply m rely h))
    ]

    go : (d : Option InternalOrder) → Keeps m (submit_unless d uuid i f reply m).1
    go none = fresh_kept
    go (some o) = Keeps-refl h

raise_changes_nothing :
    (m : OrderManager) (o : InternalOrder) (target : OrderState) (e : Raised)
    → (transition o target m).0 ≡ err e
    → (transition o target m).1 ≡ m
unfolding transition
raise_changes_nothing m o target e h = ground arith

-- The `try` of `cancel`: a raise in it leaves the manager as it was.
Tracks-after_cancel :
    (done : Bool) (m : OrderManager) (o : InternalOrder)
    → IsSound m
    → Held m o
    → Tracks m o (after_cancel done o m)
unfolding cancel
Tracks-after_cancel false m o h held = Tracks-transition m o OrderState.unknown h held
Tracks-after_cancel true m o h held = elim (Bool-cases (is_terminal o.status)) [
  | inl over ↦ rw over (Tracks-pure m o h held)
  | inr live ↦ rw live (
      rescued (transition o OrderState.cancelled m)
        (Tracks-transition m o OrderState.cancelled h held)
        (raise_changes_nothing m o OrderState.cancelled))
]
  where
    rescued :
        (r : Outcome InternalOrder × OrderManager)
        → Tracks m o r
        → ((e : Raised) → r.0 ≡ err e → r.1 ≡ m)
        → Tracks m o (rescue r.0 o r.1)
    rescued (ok o', n) t same = t
    rescued (err e, n) t same = rw (same e refl) (Tracks-transition m o OrderState.unknown h held)

Tracks-at_broker :
    (b : Option String) (f : OrderManager → OrderManager) (done : Bool) (m : OrderManager)
    (o : InternalOrder)
    → Rely f
    → IsSound m
    → Held m o
    → Tracks m o (at_broker b f done o m)
unfolding cancel
Tracks-at_broker none f done m o rely h held = Tracks-transition m o OrderState.cancelled h held
Tracks-at_broker (some b) f done m o rely h held =
    let n = record m { cancels = m.cancels ++ (b, o.account_id) ∷ [] } in
    let sending : Keeps m n = Keeps-aside h refl refl (λ k e. e) in
    let waiting = Keeps-trans sending (rely n sending.sound) in
    let (held', later) = after_wait-Held m (f n) o held waiting.sound waiting.evolves in
    Tracks-after waiting later.order_id
      (Tracks-after_cancel done (f n) (after_wait o (f n)) waiting.sound held')

pub found-Held :
    (m : OrderManager) (oid : String) (o : InternalOrder)
    → IsSound m
    → find m oid ≡ some o
    → Held m o
found-Held m oid o h e =
    subst (λ k. find m k ≡ some o) (sym (get_key id_of m.orders.by_id oid o h.filed e)) e

-- The method `cancel` as a whole.
pub Keeps-cancel :
    (oid : String) (f : OrderManager → OrderManager) (done : Bool) (m : OrderManager)
    → Rely f
    → IsSound m
    → Keeps m (cancel oid f done m).1
unfolding cancel Repository.get
Keeps-cancel oid f done m rely h = elim (Option-cases (find m oid)) [
  | inl missing ↦ rw missing (Keeps-refl h)
  | inr (o, e) ↦ rw e (elim (Bool-cases (is_terminal o.status)) [
    | inl over ↦ rw over (Keeps-refl h)
    | inr live ↦
        let held = found-Held m oid o h e in
        rw live
          (Tracks-bind m o (transition o OrderState.cancel_requested)
            (λ o'. at_broker o'.broker_order_id f done o')
            (Tracks-transition m o OrderState.cancel_requested h held)
            (λ o' n s held'. Tracks-at_broker o'.broker_order_id f done n o' rely s held')).keeps
  ])
]

Tracks-asked :
    (b : Option String) (f : OrderManager → OrderManager) (reply : Option BrokerOrder)
    (m : OrderManager) (o : InternalOrder)
    → Rely f
    → IsSound m
    → Held m o
    → Tracks m o (asked b f reply o m)
unfolding refresh
Tracks-asked none f reply m o rely h held = Tracks-pure m o h held
Tracks-asked (some b) f reply m o rely h held =
    let waiting = rely m h in
    let (held', later) = after_wait-Held m (f m) o held waiting.sound waiting.evolves in
    Tracks-after waiting later.order_id
      (answer reply (f m) (after_wait o (f m)) waiting.sound held')
  where
    answer :
        (reply : Option BrokerOrder) (n : OrderManager) (o : InternalOrder)
        → IsSound n
        → Held n o
        → Tracks n o (refreshed reply o n)
    answer none n o s held = Tracks-transition n o OrderState.unknown s held
    answer (some b) n o s held = Tracks-apply_broker_status n o b s held

-- The method `refresh` as a whole.
pub Keeps-refresh :
    (oid : String) (f : OrderManager → OrderManager) (reply : Option BrokerOrder) (m : OrderManager)
    → Rely f
    → IsSound m
    → Keeps m (refresh oid f reply m).1
unfolding refresh Repository.get
Keeps-refresh oid f reply m rely h = elim (Option-cases (find m oid)) [
  | inl missing ↦ rw missing (Keeps-refl h)
  | inr (o, e) ↦
      rw e (Tracks-asked o.broker_order_id f reply m o rely h (found-Held m oid o h e)).keeps
]
