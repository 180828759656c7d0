-- ===== src/Orders/Stored.antt =====
-- The order repository after `save` and after a write to a stored order, for the relation
-- `Keeps`.
use veles_moex.Common.{
  ℕ, String, ◌+◌, ◌<◌, ◌≡◌, inl, inr, subst, true, none, some, arith, truthy, str_eq, eq_iff,
  eq_refl, Bool-cases,
}
use veles_moex.Dict
use veles_moex.Dict.{get-put, IsKeyed-put}
use veles_moex.Domain.{InternalOrder}
use veles_moex.Repository
use veles_moex.Orders.State.{OrderManager, order_name, put_order, save_order}
use veles_moex.Orders.Submit.{count_order}
use veles_moex.Orders.Numbers.{order_name-injective, truthy-order_name}
use veles_moex.Orders.Kept.{id_of, find, IsIndexed, IsSound, Later, Later-refl, Keeps}

find-put_self :
    (d : Dict.Dict InternalOrder) (k : String) (o : InternalOrder)
    → Dict.get (Dict.put d k o) k ≡ some o
find-put_self d k o = simp (get-put, eq_refl)

-- The orders after one is stored under its id.
module _ (m : OrderManager) (o : InternalOrder) where
  abbrev stored : Dict.Dict InternalOrder
  stored = Dict.put m.orders.by_id o.order_id o

  stored_kept :
      (o0 : InternalOrder)
      → find m o.order_id ≡ some o0
      → Later o0 o
      → (oid : String) (p : InternalOrder) → find m oid ≡ some p
      → (p' : InternalOrder) × (Dict.get stored oid ≡ some p') × Later p p'
  stored_kept o0 found later oid p e = elim (Bool-cases (str_eq o.order_id oid)) [
    | inl same ↦
        let here : o.order_id ≡ oid = (eq_iff o.order_id oid).0 same in
        (o, rw (get-put, same), subst (λ q. Later q o) (same_order here) later)
    | inr other ↦ (p, rw (get-put, other) e, Later-refl p)
  ]
    where
      same_order : o.order_id ≡ oid → o0 ≡ p
      same_order q = cc (q, found, e)

  stored_named :
      IsSound m
      → truthy o.order_id ≡ true
      → (oid : String) (p : InternalOrder) → Dict.get stored oid ≡ some p
      → truthy oid ≡ true
  stored_named h t oid p e =
      ground (arith, get-put m.orders.by_id o.order_id oid o, eq_iff o.order_id oid, h.named oid p)

  stored_found :
      (oid : String)
      → (p : InternalOrder) × (find m oid ≡ some p)
      → (p : InternalOrder) × (Dict.get stored oid ≡ some p)
  stored_found oid (p, e) = elim (Bool-cases (str_eq o.order_id oid)) [
    | inl same ↦ (o, rw (get-put, same))
    | inr other ↦ (p, rw (get-put, other) e)
  ]

  intents_saved :
      (key oid : String)
      → Dict.get m.orders.by_intent key ≡ some oid
      → (oid' : String) × (Dict.get (Dict.put m.orders.by_intent o.intent_id o.order_id) key
          ≡ some oid')
  intents_saved key oid e = elim (Bool-cases (str_eq o.intent_id key)) [
    | inl same ↦ (o.order_id, rw (get-put, same))
    | inr other ↦ (oid, rw (get-put, other) e)
  ]

  pub indexed_saved :
      IsIndexed m
      → (key oid : String)
      → Dict.get (Dict.put m.orders.by_intent o.intent_id o.order_id) key ≡ some oid
      → (p : InternalOrder) × (Dict.get stored oid ≡ some p)
  indexed_saved h key oid e = elim (Bool-cases (str_eq o.intent_id key)) [
    | inl same ↦
        let here : o.order_id ≡ oid =
          ground (arith, same, e, get-put m.orders.by_intent o.intent_id key o.order_id) in
        (
          o,
          subst (λ j. Dict.get stored j ≡ some o) here (find-put_self m.orders.by_id o.order_id o),
        )
    | inr other ↦ stored_found oid (h key oid (rw (get-put, other) at e))
  ]

  module _ (h : IsSound m) (o0 : InternalOrder) (found : find m o.order_id ≡ some o0) where
    stored_numbered : (k : ℕ) → m.order_seq < k → Dict.get stored (order_name k) ≡ none
    stored_numbered k p = ground (
      arith,
      get-put m.orders.by_id o.order_id (order_name k) o,
      eq_iff o.order_id (order_name k),
      h.numbered k p,
    )

    -- Setting fields of a stored order.
    pub Keeps-put_order : Later o0 o → Keeps m (put_order o m)
    unfolding Repository.write
    Keeps-put_order later = record {
      sound = record {
        filed = IsKeyed-put id_of m.orders.by_id o h.filed;
        numbered = stored_numbered;
        named = stored_named h (h.named o.order_id o0 found);
        indexed = λ key oid e. stored_found oid (h.indexed key oid e);
      };
      evolves = record {
        kept = stored_kept o0 found later;
        intents_kept = λ key oid e. (oid, e);
        fills_kept = λ k e. e;
      };
    }

    -- Saving an order again under its id.
    pub Keeps-save_order : Later o0 o → Keeps m (save_order o m)
    unfolding Repository.save
    Keeps-save_order later = record {
      sound = record {
        filed = IsKeyed-put id_of m.orders.by_id o h.filed;
        numbered = stored_numbered;
        named = stored_named h (h.named o.order_id o0 found);
        indexed = indexed_saved h.indexed;
      };
      evolves = record {
        kept = stored_kept o0 found later;
        intents_kept = intents_saved;
        fills_kept = λ k e. e;
      };
    }

  -- Saving a new order under the next number.
  pub Keeps-save_new :
      IsSound m → o.order_id ≡ order_name (m.order_seq + 1) → Keeps m (save_order o (count_order m))
  unfolding Repository.save
  Keeps-save_new h new = record {
    sound = record {
      filed = IsKeyed-put id_of m.orders.by_id o h.filed;
      numbered = λ k p. ground (
        arith,
        get-put m.orders.by_id o.order_id (order_name k) o,
        eq_iff o.order_id (order_name k),
        order_name-injective (m.order_seq + 1) k,
        h.numbered k,
      );
      named = stored_named h (rw new (truthy-order_name (m.order_seq + 1)));
      indexed = indexed_saved h.indexed;
    };
    evolves = record {
      kept = λ oid p e. (p, kept_new oid p e, Later-refl p);
      intents_kept = intents_saved;
      fills_kept = λ k e. e;
    };
  }
    where
      kept_new :
          (oid : String) (p : InternalOrder) → find m oid ≡ some p → Dict.get stored oid ≡ some p
      kept_new oid p e = ground (
        arith,
        get-put m.orders.by_id o.order_id oid o,
        eq_iff o.order_id oid,
        h.numbered (m.order_seq + 1) (omega arith),
      )

pub find-put_order :
    (m : OrderManager) (o : InternalOrder) → find (put_order o m) o.order_id ≡ some o
unfolding Repository.write
find-put_order m o = find-put_self m.orders.by_id o.order_id o

pub find-save_order :
    (m : OrderManager) (o : InternalOrder) → find (save_order o m) o.order_id ≡ some o
unfolding Repository.save
find-save_order m o = find-put_self m.orders.by_id o.order_id o
