-- ===== src/Orders/Restart.antt =====
-- Restart: `load_snapshot` and `snapshot` of backend/app/trading/order_manager.py.
use veles_moex.Common.{
  ℕ, String, ◌<◌, ◌≤◌, ◌≡◌, sym, ◌∙◌, subst, true, none, some, List, [], ◌∷◌, arith, inl, inr,
  Option-cases, truthy,
}
use veles_moex.Dict
use veles_moex.Dict.{
  AllOf, IsKeyed, IsKeyed-put_all, IsKeyed-empty, get_all, get_key, get-empty, put_all-nil,
  put_all-cons, put_all_all, all_values, get-put_all-values,
}
use veles_moex.Domain.{InternalOrder, Direction}
use veles_moex.Repository
use veles_moex.Position
use veles_moex.Position.States.{IsFiled, load_state_restores}
use veles_moex.Orders.State.{OrderManager, order_name, save_order}
use veles_moex.Orders.Snapshot.{LiveStateSnapshot, snapshot, load_snapshot, seq_of, max_seq}
use veles_moex.Orders.Numbers.{seq_of-order_name, max_seq_bound}
use veles_moex.Orders.Kept.{id_of, find, IsIndexed, IsSound}
use veles_moex.Orders.Stored.{indexed_saved}

save_all-by_id :
    (os : List InternalOrder) (r : Repository.OrderRepository)
    → (Repository.save_all os r).by_id ≡ Dict.put_all id_of os r.by_id
unfolding Repository.save_all Repository.save
save_all-by_id [] r = sym (put_all-nil id_of r.by_id)
save_all-by_id (o ∷ os) r =
    save_all-by_id os (Repository.save o r) ∙ sym (put_all-cons id_of o os r.by_id)

save_all-IsIndexed :
    (os : List InternalOrder) (m : OrderManager)
    → IsIndexed m
    → IsIndexed (record m { orders = Repository.save_all os m.orders })
unfolding Repository.save_all Repository.save
save_all-IsIndexed [] m h = h
save_all-IsIndexed (o ∷ os) m h = save_all-IsIndexed os (save_order o m) (indexed_saved m o h)

restored_by_id :
    (s : LiveStateSnapshot) (m : OrderManager)
    → (load_snapshot s m).orders.by_id ≡ Dict.put_all id_of s.orders Dict.empty
unfolding load_snapshot Repository.empty
restored_by_id s m = save_all-by_id s.orders Repository.empty

restored_filed :
    (s : LiveStateSnapshot) (m : OrderManager) → IsKeyed id_of (load_snapshot s m).orders.by_id
restored_filed s m =
    rw restored_by_id (IsKeyed-put_all id_of s.orders Dict.empty (IsKeyed-empty id_of))

counter_free :
    (s : LiveStateSnapshot) (m : OrderManager) (k : ℕ)
    → (load_snapshot s m).order_seq < k
    → find (load_snapshot s m) (order_name k) ≡ none
unfolding load_snapshot Repository.list_orders
counter_free s m k p = elim (Option-cases (find (load_snapshot s m) (order_name k))) [
  | inl e ↦ e
  | inr (o, e) ↦
      let d = (load_snapshot s m).orders.by_id in
      let name : o.order_id ≡ order_name k =
        get_key id_of d (order_name k) o (restored_filed s m) e in
      let bound =
        get_all (λ q. (j : ℕ) → seq_of q.order_id ≡ some j → j ≤ max_seq 0 (Dict.values d)) d
          (order_name k) o (max_seq_bound 0 (Dict.values d)) e in
      absurd (clash (bound k (rw name (seq_of-order_name k))))
]
  where
    clash : k ≤ (load_snapshot s m).order_seq → ⊥
    clash q = omega (arith, p, q)

no_old :
    (P : InternalOrder → Type 0) (k : String) (o : InternalOrder)
    → Dict.get Dict.empty k ≡ some o
    → P o
no_old P k o e = absurd (none_ne_some (rw get-empty at e))
  where
    none_ne_some : none ≡ some o → ⊥
    none_ne_some q = cc

restored_named :
    (s : LiveStateSnapshot) (m : OrderManager)
    → AllOf (λ o. truthy o.order_id ≡ true) s.orders
    → (oid : String) (o : InternalOrder) → find (load_snapshot s m) oid ≡ some o
    → truthy oid ≡ true
restored_named s m h oid o e =
    let P : InternalOrder → Type 0 = λ q. truthy q.order_id ≡ true in
    let named =
      put_all_all id_of P s.orders Dict.empty h (no_old P) oid o (rw restored_by_id at e) in
    subst (λ k. truthy k ≡ true) (get_key id_of _ oid o (restored_filed s m) e) named

restored-IsIndexed : (s : LiveStateSnapshot) (m : OrderManager) → IsIndexed (load_snapshot s m)
unfolding load_snapshot Repository.empty
restored-IsIndexed s m = save_all-IsIndexed s.orders blank none_indexed
  where
    blank : OrderManager
    blank = record (load_snapshot s m) { orders = Repository.empty }

    none_indexed : IsIndexed blank
    none_indexed key oid e = absurd (none_ne_some (rw get-empty at e))
      where
        none_ne_some : none ≡ some oid → ⊥
        none_ne_some q = cc

-- Restoring a snapshot whose order ids are not empty gives a sound repository: in particular the
-- next order number is one that no restored order carries.
pub load_snapshot-IsSound :
    (s : LiveStateSnapshot) (m : OrderManager)
    → AllOf (λ o. truthy o.order_id ≡ true) s.orders
    → IsSound (load_snapshot s m)
load_snapshot-IsSound s m named = record {
  filed = restored_filed s m;
  numbered = counter_free s m;
  named = restored_named s m named;
  indexed = restored-IsIndexed s m;
}

-- A manager that is restored from the snapshot of a sound one is sound, finds the same order
-- under every id, knows the same fills and has the same positions, and it trusts no position
-- before the next reconciliation.
pub restart_restores :
    (m n : OrderManager)
    → IsSound m
    → IsKeyed (λ f. f.fill_id) m.fills
    → IsFiled m.positions
    → let restarted = load_snapshot (snapshot m) n in
      IsSound restarted
      × ((oid : String) → find restarted oid ≡ find m oid)
      × ((k : String) → Dict.get restarted.fills k ≡ Dict.get m.fills k)
      × ((figi : String) (d : Direction)
          → (Position.get restarted.positions figi ≡ Position.get m.positions figi)
            × (Position.position_state restarted.positions figi d ≡ Position.unknown))
unfolding load_snapshot snapshot Repository.list_orders
restart_restores m n h fills filed = (
  load_snapshot-IsSound (snapshot m) n (
      all_values id_of (λ o. truthy o.order_id ≡ true) m.orders.by_id h.filed
        (λ k o e.
          subst (λ j. truthy j ≡ true) (sym (get_key id_of _ k o h.filed e)) (h.named k o e))),
  (λ oid. rw restored_by_id (get-put_all-values id_of m.orders.by_id oid h.filed)),
  (λ k. get-put_all-values (λ f. f.fill_id) m.fills k fills),
  (λ figi d. load_state_restores m.positions n.positions figi d filed),
)
