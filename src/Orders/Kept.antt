-- ===== src/Orders/Kept.antt =====
-- The invariant of the order manager, and the relation `Keeps` between the manager before and
-- after a method.
use veles_moex.Common.{ℕ, String, ◌<◌, ◌≡◌, refl, ◌∙◌, true, Option, none, some, truthy}
use veles_moex.Dict
use veles_moex.Dict.{get-put, IsKeyed, IsKeyed-put, get_key}
use veles_moex.Decimal.{ℤ}
use veles_moex.Domain.{InternalOrder, OrderState}
use veles_moex.Domain.Lifecycle.{Reach, here, Reach-trans}
use veles_moex.Orders.State.{OrderManager, order_name}

abbrev pub id_of : InternalOrder → String
id_of o = o.order_id

abbrev pub find : OrderManager → String → Option InternalOrder
find m oid = Dict.get m.orders.by_id oid

-- Each intent that is indexed leads to an order.
abbrev pub IsIndexed : OrderManager → Type 0
IsIndexed m =
    (key oid : String)
    → Dict.get m.orders.by_intent key ≡ some oid
    → (o : InternalOrder) × (find m oid ≡ some o)

-- Orders stand under their ids, no id is empty, numbers above the counter are free, and each
-- intent that is indexed leads to an order.
pub record IsSound (m : OrderManager) : Type 0 where
  pub filed : IsKeyed id_of m.orders.by_id
  pub numbered : (k : ℕ) → m.order_seq < k → find m (order_name k) ≡ none
  pub named : (oid : String) (o : InternalOrder) → find m oid ≡ some o → truthy oid ≡ true
  pub indexed : IsIndexed m

-- One order at two times.
pub record Later (o o' : InternalOrder) : Type 0 where
  pub order_id : o'.order_id ≡ o.order_id
  pub intent_id : o'.intent_id ≡ o.intent_id
  pub instrument_figi : o'.instrument_figi ≡ o.instrument_figi
  pub side : o'.side ≡ o.side
  pub requested_quantity : o'.requested_quantity ≡ o.requested_quantity
  pub idempotency_key : o'.idempotency_key ≡ o.idempotency_key
  pub status : Reach o.status o'.status

-- One manager at two times.
pub record Evolves (m n : OrderManager) : Type 0 where
  pub kept :
      (oid : String) (o : InternalOrder)
      → find m oid ≡ some o
      → (o' : InternalOrder) × (find n oid ≡ some o') × Later o o'
  pub intents_kept :
      (key oid : String)
      → Dict.get m.orders.by_intent key ≡ some oid
      → (oid' : String) × (Dict.get n.orders.by_intent key ≡ some oid')
  pub fills_kept : (k : String) → Dict.has m.fills k ≡ true → Dict.has n.fills k ≡ true

-- The fields that the manager sets, under a status that the old one leads to.
pub Later-set :
    (o : InternalOrder) {b : Option String} {f a : ℤ} {s : OrderState} {u : ℕ} {i : Option String}
    → Reach o.status s
    → Later o (record o {
      broker_order_id = b;
      filled_quantity = f;
      average_fill_price = a;
      status = s;
      updated_at = u;
      reject_info = i;
    })
Later-set o r = record {
  order_id = refl;
  intent_id = refl;
  instrument_figi = refl;
  side = refl;
  requested_quantity = refl;
  idempotency_key = refl;
  status = r;
}

pub Later-refl : (o : InternalOrder) → Later o o
Later-refl o = Later-set o here

pub Later-trans : {a b c : InternalOrder} → Later a b → Later b c → Later a c
Later-trans h k = record {
  order_id = k.order_id ∙ h.order_id;
  intent_id = k.intent_id ∙ h.intent_id;
  instrument_figi = k.instrument_figi ∙ h.instrument_figi;
  side = k.side ∙ h.side;
  requested_quantity = k.requested_quantity ∙ h.requested_quantity;
  idempotency_key = k.idempotency_key ∙ h.idempotency_key;
  status = Reach-trans h.status k.status;
}

pub Evolves-refl : (m : OrderManager) → Evolves m m
Evolves-refl m = record {
  kept = λ oid o e. (o, e, Later-refl o);
  intents_kept = λ key oid e. (oid, e);
  fills_kept = λ k e. e;
}

pub Evolves-trans : {a b c : OrderManager} → Evolves a b → Evolves b c → Evolves a c
Evolves-trans h k = record {
  kept = λ oid o e.
      let (o', e', l) = h.kept oid o e in
      let (o'', e'', l') = k.kept oid o' e' in (o'', e'', Later-trans l l');
  intents_kept =
      λ key oid e. let (oid', e') = h.intents_kept key oid e in k.intents_kept key oid' e';
  fills_kept = λ j e. k.fills_kept j (h.fills_kept j e);
}

-- Sound again, and later than before.
pub record Keeps (m n : OrderManager) : Type 0 where
  pub sound : IsSound n
  pub evolves : Evolves m n

pub Keeps-trans : {a b c : OrderManager} → Keeps a b → Keeps b c → Keeps a c
Keeps-trans h k = record { sound = k.sound; evolves = Evolves-trans h.evolves k.evolves }

-- What other tasks may do while a method waits.
abbrev pub Rely : (OrderManager → OrderManager) → Type 0
Rely f = (n : OrderManager) → IsSound n → Keeps n (f n)

-- A change that leaves the orders alone and forgets no fill.
pub Keeps-aside :
    {m n : OrderManager}
    → IsSound m
    → n.orders ≡ m.orders
    → n.order_seq ≡ m.order_seq
    → ((k : String) → Dict.has m.fills k ≡ true → Dict.has n.fills k ≡ true)
    → Keeps m n
Keeps-aside {m} {n} h e s f = record {
  sound = record {
    filed = rw e h.filed;
    numbered = λ k p. rw e (h.numbered k (rw s at p));
    named = λ oid o p. h.named oid o (rw e at p);
    indexed = λ key oid p. rw e (h.indexed key oid (rw e at p));
  };
  evolves = record {
    kept = λ oid o p. (o, rw e p, Later-refl o);
    intents_kept = λ key oid p. (oid, rw e p);
    fills_kept = f;
  };
}
