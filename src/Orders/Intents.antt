-- ===== src/Orders/Intents.antt =====
-- Submitting an intent again: `submit` of backend/app/trading/order_manager.py and its search for
-- a duplicate.
use veles_moex.Common.{String, ◌≡◌, refl, none, some, List, inl, inr, Bool-cases, eq_refl}
use veles_moex.Decimal.{Context, pos, leb_ℤ}
use veles_moex.Dict
use veles_moex.Dict.{get-put}
use veles_moex.Domain.{InternalOrder, ExecutionIntent}
use veles_moex.Repository
use veles_moex.Orders.State.{OrderManager, ok, save_order}
use veles_moex.Orders.Submit.{Reply, submit, find_duplicate, reject, order_from, count_order}
use veles_moex.Orders.Kept.{IsSound, Rely}
use veles_moex.Orders.Guarantee.{Keeps-placed, Keeps-submit}
use veles_moex.Orders.Promises.{OrderCall, AllRely, perform_all, perform_all-Keeps}

HasOrder : ExecutionIntent → OrderManager → Type 0
HasOrder i n = (oid : String) × (Dict.get n.orders.by_intent i.intent_id ≡ some oid)

saved_indexed :
    (i : ExecutionIntent) (o : InternalOrder) (m : OrderManager)
    → o.intent_id ≡ i.intent_id
    → HasOrder i (save_order o m)
unfolding HasOrder Repository.save
saved_indexed i o m e = (o.order_id, simp (e, get-put, eq_refl))

submit_indexes :
    (uuid : String) (i : ExecutionIntent) (f : OrderManager → OrderManager) (reply : Reply)
    (m : OrderManager)
    → find_duplicate i m ≡ none
    → Rely f
    → IsSound m
    → HasOrder i (submit uuid i f reply m).1
unfolding submit HasOrder
submit_indexes uuid i f reply m new rely h = rw new (elim (Bool-cases (leb_ℤ i.quantity (pos 0))) [
  | inl bad ↦ rw bad (unfold reject in saved_indexed i _ (count_order m) refl)
  | inr good ↦ rw good (
      let (oid, e) = saved_indexed i (order_from uuid i m) (count_order m) refl in
      (Keeps-placed uuid i f reply m rely h).evolves.intents_kept i.intent_id oid e)
])

indexed_duplicate :
    (i : ExecutionIntent) (n : OrderManager)
    → IsSound n
    → HasOrder i n
    → (o : InternalOrder) × (find_duplicate i n ≡ some o)
unfolding HasOrder find_duplicate Repository.get_by_intent Repository.get
indexed_duplicate i n h (oid, e) =
    let (o, found) = h.indexed i.intent_id oid e in (o, rw (e, h.named oid o found, found) refl)

duplicate_changes_nothing :
    (uuid : String) (i : ExecutionIntent) (f : OrderManager → OrderManager) (reply : Reply)
    (n : OrderManager) (o : InternalOrder)
    → find_duplicate i n ≡ some o
    → submit uuid i f reply n ≡ (ok o, n)
unfolding submit
duplicate_changes_nothing uuid i f reply n o e = rw e

module _ ⦃ctx : Context⦄ where
  -- An intent that was new when it was submitted, whatever became of that call, is a duplicate
  -- ever after: submitted again after any run of calls, it brings an order that exists, nothing
  -- is sent and the manager does not change.
  pub submit_once :
      (uuid uuid' : String) (i : ExecutionIntent) (f f' : OrderManager → OrderManager)
      (reply reply' : Reply) (cs : List OrderCall) (m : OrderManager)
      → find_duplicate i m ≡ none
      → Rely f
      → AllRely cs
      → IsSound m
      → let n = perform_all cs (submit uuid i f reply m).1 in
        (o : InternalOrder) × (submit uuid' i f' reply' n ≡ (ok o, n))
  unfolding HasOrder
  submit_once uuid uuid' i f f' reply reply' cs m new rely relies h =
      let first = Keeps-submit uuid i f reply m rely h in
      let (oid, e) = submit_indexes uuid i f reply m new rely h in
      let later = perform_all-Keeps cs (submit uuid i f reply m).1 relies first.sound in
      let (o, dup) =
        indexed_duplicate i _ later.sound (later.evolves.intents_kept i.intent_id oid e) in
      (o, duplicate_changes_nothing uuid' i f' reply' _ o dup)
