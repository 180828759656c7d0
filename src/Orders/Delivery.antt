-- ===== src/Orders/Delivery.antt =====
-- The event handlers of the order manager, for the relation `Keeps`.
use veles_moex.Common.{
  String, ◌≡◌, refl, Bool, true, false, not, ◌&&◌, Option, none, some, arith, ◌⊎◌, inl, inr,
  Bool-cases, Option-cases, eq_refl, truthy, if◌then◌else◌,
}
use veles_moex.Decimal.{Context, ℤ, ◌+ℤ◌}
use veles_moex.Dict
use veles_moex.Dict.{get-put, get_key}
use veles_moex.Domain.{
  InternalOrder, Fill, OrderUpdate, TradeFill, PositionUpdate, is_terminal, eq_state,
}
use veles_moex.Domain.Lifecycle.{here}
use veles_moex.Repository
use veles_moex.Orders.State.{OrderManager, ok, Action, ◌>>=◌, modify, pure, transition, put_order}
use veles_moex.Orders.Events.{
  save_fill, record_fill, apply_fill, average_fill, fill_target, priced_fill, fill_order, notify,
  tell, move_position, on_trade_fill, on_order_update, on_position_update, resolve_order, or_next,
  lookup_by, trade_fill, order_update, adopt_broker_id, set_facts, lacks_broker_id,
}
use veles_moex.Orders.Kept.{find, IsSound, Later-set, Keeps, Keeps-trans, Keeps-aside}
use veles_moex.Orders.Tracks.{
  Held, Tracks, Keeps-refl, Tracks-pure, Tracks-bind, Keeps-bind, Tracks-put_order,
  Tracks-save_order, Tracks-transition,
}
use veles_moex.Orders.Guarantee.{found-Held}

Keeps-save_fill : (m : OrderManager) (f : Fill) → IsSound m → Keeps m (save_fill f m)
Keeps-save_fill m f h =
    Keeps-aside h refl refl (λ k e. ground (arith, get-put m.fills f.fill_id k f, e))

pub Keeps-record_fill : (f : Fill) (m : OrderManager) → IsSound m → Keeps m (record_fill f m)
unfolding record_fill
Keeps-record_fill f m h = elim (Bool-cases (Dict.has m.fills f.fill_id)) [
  | inl seen ↦ rw seen (Keeps-refl h)
  | inr fresh ↦ rw fresh (Keeps-save_fill m f h)
]

module _ ⦃ctx : Context⦄ where
  Keeps-move_notify :
      (o : InternalOrder) (f : Fill) (m : OrderManager)
      → IsSound m
      → Keeps m (notify o f (move_position o f m))
  unfolding apply_fill
  Keeps-move_notify o f m h = told m.listening
    where
      told : (b : Bool) → Keeps m (tell b o f (move_position o f m))
      told true = Keeps-aside h refl refl (λ k e. e)
      told false = Keeps-aside h refl refl (λ k e. e)

  Keeps-priced_fill :
      (a : Option ℤ) (o : InternalOrder) (f : Fill) (m : OrderManager)
      → IsSound m
      → Held m o
      → Keeps m (priced_fill a o f m).1
  unfolding apply_fill
  Keeps-priced_fill none o f m h held = Keeps-refl h
  Keeps-priced_fill (some avg) o f m h held =
      let o' = record o { average_fill_price = avg; updated_at = f.timestamp } in
      let t = Tracks-put_order m o o' h held (Later-set o here) in
      Keeps-trans t.keeps (
        Keeps-bind (put_order o' m) o' (step o')
          (λ o''. modify (λ n. notify o'' f (move_position o'' f n)))
          (stepped o' (put_order o' m) t.keeps.sound t.hands.0)
          (λ o'' n s held''. Keeps-move_notify o'' f n s))
    where
      step : InternalOrder → Action InternalOrder
      step o' = if is_terminal o'.status then pure o' else transition o' (fill_target o')

      stepped :
          (o' : InternalOrder) (n : OrderManager) → IsSound n → Held n o' → Tracks n o' (step o' n)
      stepped o' n s held' = elim (Bool-cases (is_terminal o'.status)) [
        | inl over ↦ rw over (Tracks-pure n o' s held')
        | inr live ↦ rw live (Tracks-transition n o' (fill_target o') s held')
      ]

  -- The part of `apply_fill` behind the record of the fill.
  pub Keeps-fill_order :
      (f : Fill) (m : OrderManager) (oid : String)
      → IsSound m
      → Keeps m (fill_order (find m oid) f m).1
  unfolding apply_fill
  Keeps-fill_order f m oid h = elim (Option-cases (find m oid)) [
    | inl missing ↦ rw missing (Keeps-refl h)
    | inr (o, e) ↦
        let o' = record o { filled_quantity = o.filled_quantity +ℤ f.quantity } in
        let t = Tracks-put_order m o o' h (found-Held m oid o h e) (Later-set o here) in
        rw e (
          Keeps-trans t.keeps
            (Keeps-priced_fill (average_fill o f) o' f (put_order o' m) t.keeps.sound t.hands.0))
  ]

  -- The method `apply_fill` as a whole.
  pub Keeps-apply_fill : (f : Fill) (m : OrderManager) → IsSound m → Keeps m (apply_fill f m).1
  unfolding apply_fill Repository.get
  Keeps-apply_fill f m h = elim (Bool-cases (Dict.has m.fills f.fill_id)) [
    | inl seen ↦ rw seen (Keeps-refl h)
    | inr fresh ↦
        let saved = Keeps-save_fill m f h in
        rw fresh
          (Keeps-trans saved (Keeps-fill_order f (save_fill f m) f.internal_order_id saved.sound))
  ]

  pub apply_fill_fresh :
      (f : Fill) (m : OrderManager)
      → Dict.has m.fills f.fill_id ≡ false
      → apply_fill f m ≡ fill_order (find m f.internal_order_id) f (save_fill f m)
  unfolding apply_fill Repository.get
  apply_fill_fresh f m e = rw e

  pub apply_fill_seen :
      (f : Fill) (m : OrderManager)
      → Dict.has m.fills f.fill_id ≡ true
      → apply_fill f m ≡ (ok tt, m)
  unfolding apply_fill
  apply_fill_seen f m e = rw e

  pub fill_is_seen :
      (f : Fill) (m : OrderManager) → IsSound m → Dict.has (apply_fill f m).1.fills f.fill_id ≡ true
  fill_is_seen f m h = elim (Bool-cases (Dict.has m.fills f.fill_id)) [
    | inl seen ↦ rw (apply_fill_seen f m seen) seen
    | inr fresh ↦
        let saved = Keeps-save_fill m f h in
        rw (apply_fill_fresh f m fresh) (
          (Keeps-fill_order f (save_fill f m) f.internal_order_id saved.sound).evolves.fills_kept
            f.fill_id (simp (get-put, eq_refl)))
  ]

  -- The method `on_trade_fill` as a whole.
  pub Keeps-on_trade_fill :
      (t : TradeFill) (m : OrderManager) → IsSound m → Keeps m (on_trade_fill t m).1
  unfolding on_trade_fill
  Keeps-on_trade_fill t m h =
      go (resolve_order (some t.broker_order_id) t.internal_order_id t.idempotency_key m)
    where
      go : (o : Option InternalOrder) → Keeps m (trade_fill o t m).1
      go none = Keeps-refl h
      go (some o) = Keeps-apply_fill _ m h

  pub Keeps-on_position_update :
      (u : PositionUpdate) (m : OrderManager) → IsSound m → Keeps m (on_position_update u m)
  unfolding on_position_update
  Keeps-on_position_update u m h = Keeps-aside h refl refl (λ k e. e)

-- What the repository finds by any key is an order that it holds.
follow-Held :
    (m : OrderManager) (oid : Option String) (o : InternalOrder)
    → IsSound m
    → Repository.follow oid m.orders ≡ some o
    → Held m o
unfolding Repository.get_by_broker Repository.get
follow-Held m none o h e = absurd (none_ne_some o e)
  where
    none_ne_some : (o : InternalOrder) → none ≡ some o → ⊥
    none_ne_some o q = cc
follow-Held m (some oid) o h e = found-Held m oid o h (found oid e)
  where
    found :
        (oid : String) → (if truthy oid then find m oid else none) ≡ some o → find m oid ≡ some o
    found oid q = ground (arith, q)

or_next-eq-some :
    (x y : Option InternalOrder) (o : InternalOrder)
    → or_next x y ≡ some o
    → (x ≡ some o) ⊎ (y ≡ some o)
unfolding resolve_order
or_next-eq-some none y o e = inr e
or_next-eq-some (some p) y o e = inl e

module _ (m : OrderManager) (o : InternalOrder) (h : IsSound m) where
  lookup-Held :
      (f : String → Option InternalOrder)
      → ((key : String) → f key ≡ some o → Held m o)
      → (key : Option String) → lookup_by f key ≡ some o
      → Held m o
  unfolding resolve_order
  lookup-Held f k none e = absurd (none_ne_some e)
    where
      none_ne_some : none ≡ some o → ⊥
      none_ne_some q = cc
  lookup-Held f k (some key) e = k key (found e)
    where
      found : (if truthy key then f key else none) ≡ some o → f key ≡ some o
      found q = ground (arith, q)

  resolve_order-Held : (a b c : Option String) → resolve_order a b c m ≡ some o → Held m o
  unfolding resolve_order Repository.get_by_broker Repository.get_by_idempotency Repository.get
  resolve_order-Held a b c e = elim (or_next-eq-some _ _ o e) [
    | inl by_broker ↦
        lookup-Held (Repository.get_by_broker m.orders)
          (λ k q. follow-Held m (Dict.get m.orders.by_broker k) o h q) a by_broker
    | inr e' ↦ elim (or_next-eq-some _ _ o e') [
      | inl by_key ↦
          lookup-Held (Repository.get_by_idempotency m.orders)
            (λ k q. follow-Held m (Dict.get m.orders.by_idempotency k) o h q) c by_key
      | inr by_id ↦ lookup-Held (Repository.get m.orders) (λ k q. found-Held m k o h q) b by_id
    ]
  ]

Tracks-adopt_broker_id :
    (u : OrderUpdate) (m : OrderManager) (o : InternalOrder)
    → IsSound m
    → Held m o
    → Tracks m o (adopt_broker_id u o m)
unfolding on_order_update
Tracks-adopt_broker_id u m o h held =
    elim (Bool-cases (truthy u.broker_order_id && lacks_broker_id o.broker_order_id)) [
      | inl adopts ↦ rw adopts (
          Tracks-save_order m o (record o { broker_order_id = some u.broker_order_id }) h held
            (Later-set o here))
      | inr keeps ↦ rw keeps (Tracks-pure m o h held)
    ]

update_status : OrderUpdate → InternalOrder → Action InternalOrder
update_status u o' = if not (eq_state u.status o'.status) then transition o' u.status else pure o'

Tracks-update_status :
    (u : OrderUpdate) (m : OrderManager) (o : InternalOrder)
    → IsSound m
    → Held m o
    → Tracks m o (update_status u o m)
unfolding update_status
Tracks-update_status u m o h held = elim (Bool-cases (eq_state u.status o.status)) [
  | inl same ↦ rw same (Tracks-pure m o h held)
  | inr other ↦ rw other (Tracks-transition m o u.status h held)
]

Keeps-order_update :
    (u : OrderUpdate) (m : OrderManager) (o : InternalOrder)
    → IsSound m
    → Held m o
    → Keeps m (order_update (some o) u m).1
unfolding on_order_update update_status
Keeps-order_update u m o h held =
    Keeps-bind m o (adopt_broker_id u o >>= update_status u) (set_facts u)
      (Tracks-bind m o (adopt_broker_id u o) (update_status u) (Tracks-adopt_broker_id u m o h held)
        (λ o' n s held'. Tracks-update_status u n o' s held'))
      (λ o' n s held'. (Tracks-put_order n o' _ s held' (Later-set o' here)).keeps)

-- The method `on_order_update` as a whole.
pub Keeps-on_order_update :
    (u : OrderUpdate) (m : OrderManager) → IsSound m → Keeps m (on_order_update u m).1
unfolding on_order_update
Keeps-on_order_update u m h =
    elim (Option-cases
      (resolve_order (some u.broker_order_id) u.internal_order_id u.idempotency_key m)) [
        | inl missing ↦ rw missing (Keeps-refl h)
        | inr (o, e) ↦ rw e (
            Keeps-order_update u m o h (
              resolve_order-Held m o h (some u.broker_order_id) u.internal_order_id
                u.idempotency_key e))
      ]
