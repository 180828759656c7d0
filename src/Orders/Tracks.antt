-- ===== src/Orders/Tracks.antt =====
-- Rules for chains of calls that carry one order along: each keeps the manager sound and later
-- than before, and hands on the order as the repository holds it.
use veles_moex.Common.{◌≡◌, refl, ◌∙◌, ap, true, false, some, inl, inr, Bool-cases}
use veles_moex.Domain.{InternalOrder, OrderState, eq_state, can_transition}
use veles_moex.Domain.Lifecycle.{here, next}
use veles_moex.Orders.State.{
  OrderManager, Outcome, ok, err, Action, ◌>>=◌, transition, put_order, save_order,
}
use veles_moex.Orders.Kept.{find, IsSound, Later, Later-set, Evolves-refl, Keeps, Keeps-trans}
use veles_moex.Orders.Stored.{Keeps-put_order, Keeps-save_order, find-put_order, find-save_order}

-- The repository holds this order, field by field.
abbrev pub Held : OrderManager → InternalOrder → Type 0
Held m o = find m o.order_id ≡ some o

-- `o'` is the order `o` as the repository holds it after the call, if the call returned.
abbrev pub Hands : OrderManager → InternalOrder → Outcome InternalOrder → Type 0
Hands n o (ok o') = Held n o' × (o'.order_id ≡ o.order_id)
Hands n o (err e) = Unit

pub record Tracks (m : OrderManager) (o : InternalOrder) (r : Outcome InternalOrder × OrderManager)
    : Type 0 where
  pub keeps : Keeps m r.1
  pub hands : Hands r.1 o r.0

pub Keeps-refl : {m : OrderManager} → IsSound m → Keeps m m
Keeps-refl {m} h = record { sound = h; evolves = Evolves-refl m }

pub Tracks-pure :
    (m : OrderManager) (o : InternalOrder) → IsSound m → Held m o → Tracks m o (ok o, m)
Tracks-pure m o h held = record { keeps = Keeps-refl h; hands = (held, refl) }

-- A chain of two calls.
pub Tracks-bind :
    (m : OrderManager) (o : InternalOrder) (run : Action InternalOrder)
    (f : InternalOrder → Action InternalOrder)
    → Tracks m o (run m)
    → ((o' : InternalOrder) (n : OrderManager) → IsSound n → Held n o' → Tracks n o' (f o' n))
    → Tracks m o ((run >>= f) m)
Tracks-bind m o run f h k = go (run m) h
  where
    handed :
        (o' : InternalOrder) (r : Outcome InternalOrder × OrderManager)
        → o'.order_id ≡ o.order_id
        → Hands r.1 o' r.0
        → Hands r.1 o r.0
    handed o' (ok o'', n) e (held, e') = (held, e' ∙ e)
    handed o' (err x, n) e u = tt

    go :
        (r : Outcome InternalOrder × OrderManager)
        → Tracks m o r
        → Tracks m o (elim r.0 [ ok a ↦ f a r.1 | err e ↦ (err e, r.1) ])
    go (ok o', n) t =
        let t' = k o' n t.keeps.sound t.hands.0 in
        record {
          keeps = Keeps-trans t.keeps t'.keeps;
          hands = handed o' (f o' n) t.hands.1 t'.hands;
        }
    go (err e, n) t = record { keeps = t.keeps; hands = tt }

-- The same where the second call returns nothing.
pub Keeps-bind :
    {A : Type 0} (m : OrderManager) (o : InternalOrder) (run : Action InternalOrder)
    (f : InternalOrder → Action A)
    → Tracks m o (run m)
    → ((o' : InternalOrder) (n : OrderManager) → IsSound n → Held n o' → Keeps n (f o' n).1)
    → Keeps m ((run >>= f) m).1
Keeps-bind {A} m o run f h k = go (run m) h
  where
    go :
        (r : Outcome InternalOrder × OrderManager)
        → Tracks m o r
        → let r' : Outcome A × OrderManager = elim r.0 [ ok a ↦ f a r.1 | err e ↦ (err e, r.1) ] in
          Keeps m r'.1
    go (ok o', n) t = Keeps-trans t.keeps (k o' n t.keeps.sound t.hands.0)
    go (err e, n) t = t.keeps

-- A call behind a change of the manager.
pub Tracks-after :
    {m n : OrderManager} {o o' : InternalOrder} {r : Outcome InternalOrder × OrderManager}
    → Keeps m n
    → o'.order_id ≡ o.order_id
    → Tracks n o' r
    → Tracks m o r
Tracks-after {o = o} {o' = o'} {r = r} h e t = record {
  keeps = Keeps-trans h t.keeps;
  hands = handed r t.hands;
}
  where
    handed : (r : Outcome InternalOrder × OrderManager) → Hands r.1 o' r.0 → Hands r.1 o r.0
    handed (ok o'', n) (held, e') = (held, e' ∙ e)
    handed (err x, n) u = tt

-- Setting fields of a held order.
pub Tracks-put_order :
    (m : OrderManager) (o o' : InternalOrder)
    → IsSound m
    → Held m o
    → Later o o'
    → Tracks m o (ok o', put_order o' m)
Tracks-put_order m o o' h held later =
    let found : find m o'.order_id ≡ some o = rw later.order_id held in
    record {
      keeps = Keeps-put_order m o' h o found later;
      hands = (find-put_order m o', later.order_id);
    }

pub Tracks-save_order :
    (m : OrderManager) (o o' : InternalOrder)
    → IsSound m
    → Held m o
    → Later o o'
    → Tracks m o (ok o', save_order o' m)
Tracks-save_order m o o' h held later =
    let found : find m o'.order_id ≡ some o = rw later.order_id held in
    record {
      keeps = Keeps-save_order m o' h o found later;
      hands = (find-save_order m o', later.order_id);
    }

-- `_transition` moves an order along the lifecycle, or raises and changes nothing.
pub Tracks-transition :
    (m : OrderManager) (o : InternalOrder) (target : OrderState)
    → IsSound m
    → Held m o
    → Tracks m o (transition o target m)
unfolding transition
Tracks-transition m o target h held = elim (Bool-cases (eq_state o.status target)) [
  | inl same ↦ rw same (Tracks-pure m o h held)
  | inr other ↦ rw other (elim (Bool-cases (can_transition o.status target)) [
    | inl allowed ↦ rw allowed (
        Tracks-put_order m o (record o { status = target; updated_at = m.now }) h held
          (Later-set o (next here allowed)))
    | inr refused ↦ rw refused (record { keeps = Keeps-refl h; hands = tt })
  ])
]

pub transition_allowed :
    (o : InternalOrder) (s : OrderState) (m : OrderManager)
    → eq_state o.status s ≡ false
    → can_transition o.status s ≡ true
    → transition o s m
      ≡ (let o' = record o { status = s; updated_at = m.now } in (ok o', put_order o' m))
unfolding transition
transition_allowed o s m other can = rw (other, can)

pub bind_ok :
    {A B : Type 0} (run : Action A) (k : A → Action B) (m : OrderManager) (a : A) (n : OrderManager)
    → run m ≡ (ok a, n)
    → (run >>= k) m ≡ k a n
bind_ok run k m a n e = ap (λ r. elim r.0 [ ok x ↦ k x r.1 | err x ↦ (err x, r.1) ]) e

pub bind_returned :
    {A B : Type 0} (run : Action A) (k : A → Action B) (m : OrderManager) (a : A)
    → (run m).0 ≡ ok a
    → (run >>= k) m ≡ k a (run m).1
bind_returned run k m a e = ap (λ r. elim r [ ok x ↦ k x (run m).1 | err x ↦ (err x, (run m).1) ]) e
