-- ===== src/Orders/Promises.antt =====
-- Runs of calls of the order manager, backend/app/trading/order_manager.py.
use veles_moex.Common.{String, ◌≡◌, refl, Bool, true, Option, some, List, [], ◌∷◌}
use veles_moex.Decimal.{Context}
use veles_moex.Domain.{
  InternalOrder, ExecutionIntent, BrokerOrder, Fill, OrderUpdate, TradeFill, PositionUpdate,
  is_terminal,
}
use veles_moex.Domain.Lifecycle.{terminal-absorbs}
use veles_moex.Orders.State.{OrderManager, ok}
use veles_moex.Orders.Submit.{Reply, create_intent, submit}
use veles_moex.Orders.Events.{
  record_fill, apply_fill, on_trade_fill, on_order_update, on_position_update,
}
use veles_moex.Orders.Cancel.{cancel, refresh}
use veles_moex.Orders.Kept.{find, IsSound, Keeps, Keeps-trans, Keeps-aside, Rely}
use veles_moex.Orders.Tracks.{Keeps-refl}
use veles_moex.Orders.Guarantee.{Keeps-submit, Keeps-cancel, Keeps-refresh}
use veles_moex.Orders.Delivery.{
  apply_fill_seen, fill_is_seen, Keeps-record_fill, Keeps-apply_fill, Keeps-on_trade_fill,
  Keeps-on_order_update, Keeps-on_position_update,
}

-- The calls that change an order manager, but for `load_snapshot`. A call that waits carries what
-- other tasks do meanwhile.
pub data OrderCall : Type 0 where
  intent : ExecutionIntent → OrderCall
  submitted : String → ExecutionIntent → (OrderManager → OrderManager) → Reply → OrderCall
  cancelled : String → (OrderManager → OrderManager) → Bool → OrderCall
  refreshed : String → (OrderManager → OrderManager) → Option BrokerOrder → OrderCall
  filled recorded : Fill → OrderCall
  traded : TradeFill → OrderCall
  updated : OrderUpdate → OrderCall
  moved : PositionUpdate → OrderCall

abbrev pub Relies : OrderCall → Type 0
Relies (submitted uuid i f reply) = Rely f
Relies (cancelled oid f done) = Rely f
Relies (refreshed oid f reply) = Rely f
Relies _ = Unit

abbrev pub AllRely : List OrderCall → Type 0
AllRely [] = Unit
AllRely (c ∷ cs) = Relies c × AllRely cs

module _ ⦃ctx : Context⦄ where
  pub perform : OrderCall → OrderManager → OrderManager
  perform (intent i) m = create_intent i m
  perform (submitted uuid i f reply) m = (submit uuid i f reply m).1
  perform (cancelled oid f done) m = (cancel oid f done m).1
  perform (refreshed oid f reply) m = (refresh oid f reply m).1
  perform (filled f) m = (apply_fill f m).1
  perform (recorded f) m = record_fill f m
  perform (traded t) m = (on_trade_fill t m).1
  perform (updated u) m = (on_order_update u m).1
  perform (moved u) m = on_position_update u m

  pub perform_all : List OrderCall → OrderManager → OrderManager
  perform_all [] m = m
  perform_all (c ∷ cs) m = perform_all cs (perform c m)

  perform-Keeps : (c : OrderCall) (m : OrderManager) → Relies c → IsSound m → Keeps m (perform c m)
  unfolding perform create_intent
  perform-Keeps (intent i) m r h = Keeps-aside h refl refl (λ k e. e)
  perform-Keeps (submitted uuid i f reply) m r h = Keeps-submit uuid i f reply m r h
  perform-Keeps (cancelled oid f done) m r h = Keeps-cancel oid f done m r h
  perform-Keeps (refreshed oid f reply) m r h = Keeps-refresh oid f reply m r h
  perform-Keeps (filled f) m r h = Keeps-apply_fill f m h
  perform-Keeps (recorded f) m r h = Keeps-record_fill f m h
  perform-Keeps (traded t) m r h = Keeps-on_trade_fill t m h
  perform-Keeps (updated u) m r h = Keeps-on_order_update u m h
  perform-Keeps (moved u) m r h = Keeps-on_position_update u m h

  -- After any run of calls, returning or raising, whatever other tasks do during the waits as
  -- long as they keep the same: the repository is sound, every order is still there with its
  -- identity and a state that its old one leads to, and every fill that was seen is seen.
  pub perform_all-Keeps :
      (cs : List OrderCall) (m : OrderManager) → AllRely cs → IsSound m → Keeps m (perform_all cs m)
  unfolding perform_all
  perform_all-Keeps [] m r h = Keeps-refl h
  perform_all-Keeps (c ∷ cs) m r h =
      let first = perform-Keeps c m r.0 h in
      Keeps-trans first (perform_all-Keeps cs (perform c m) r.1 first.sound)

  -- An order that has reached a terminal state is found in that state after any run of calls.
  pub terminal_is_final :
      (cs : List OrderCall) (m : OrderManager) (oid : String) (o : InternalOrder)
      → AllRely cs
      → IsSound m
      → find m oid ≡ some o
      → is_terminal o.status ≡ true
      → (o' : InternalOrder) × (find (perform_all cs m) oid ≡ some o') × (o'.status ≡ o.status)
  terminal_is_final cs m oid o r h e t =
      let (o', found, later) = (perform_all-Keeps cs m r h).evolves.kept oid o e in
      (o', found, terminal-absorbs later.status t)

  -- A fill counts once: delivered again after any run of calls it changes nothing, even if its
  -- first delivery raised.
  pub apply_fill_once :
      (f : Fill) (cs : List OrderCall) (m : OrderManager)
      → AllRely cs
      → IsSound m
      → let n = perform_all cs (apply_fill f m).1 in apply_fill f n ≡ (ok tt, n)
  apply_fill_once f cs m r h =
      let first = Keeps-apply_fill f m h in
      apply_fill_seen f _ (
        (perform_all-Keeps cs (apply_fill f m).1 r first.sound).evolves.fills_kept f.fill_id
          (fill_is_seen f m h))
