-- ===== src/Tests/OrderCalls.antt =====
-- Calls of the order manager at concrete orders, fills and answers.
use veles_moex.Common.{String, ◌≡◌, refl, inr, false, some, List, [], ◌∷◌, ◌+++◌, str}
use veles_moex.Decimal.{pos, ◌+ℤ◌}
use veles_moex.Decimal.Exact.{whole}
use veles_moex.Dict
use veles_moex.Dict.{IsKeyed-empty, AllOf}
use veles_moex.Domain.{InternalOrder, OrderState, Direction}
use veles_moex.Repository
use veles_moex.Position
use veles_moex.Orders.State.{OrderManager, ok, err, order_state, order_name, transition}
use veles_moex.Orders.Submit.{nothing, answered, submit, find_duplicate, order_from, build_request}
use veles_moex.Orders.Events.{apply_fill, average_fill}
use veles_moex.Orders.Cancel.{cancel}
use veles_moex.Orders.Snapshot.{load_snapshot, snapshot}
use veles_moex.Orders.Kept.{find, IsSound, Keeps, Rely}
use veles_moex.Orders.Delivery.{Keeps-apply_fill}
use veles_moex.Orders.Promises.{
  OrderCall, AllRely, perform_all, perform_all-Keeps, terminal_is_final, apply_fill_once,
}
use veles_moex.Orders.Intents.{submit_once}
use veles_moex.Orders.Quiet.{submit_quiet}
use veles_moex.Orders.Races.{in_wait, cancel_race, submit_race}
use veles_moex.Orders.Landing.{Lands, fill_lands}
use veles_moex.Orders.Restart.{load_snapshot-IsSound, restart_restores}
use veles_moex.Tests.Data.{
  buy_ten, working_order, filled_order, whole_fill, accepted, new_manager, saved, restored,
}

restored-IsSound : IsSound restored
restored-IsSound = load_snapshot-IsSound saved new_manager (refl, (refl, tt))

-- While the new order is being placed, it is filled.
abbrev fill_first : OrderManager → OrderManager
fill_first n =
    (apply_fill ⦃ctx = whole⦄ (record (whole_fill) { internal_order_id = "order-1" }) n).1

abbrev first_order : InternalOrder
first_order = record (order_from "uuid-1" buy_ten new_manager) {
  filled_quantity = pos 10;
  average_fill_price = pos 249;
  status = OrderState.filled;
  updated_at = 5;
}

-- While a call waits, the fill comes in.
abbrev fill_comes : OrderManager → OrderManager
fill_comes n = (apply_fill ⦃ctx = whole⦄ whole_fill n).1

fill_comes-Rely : Rely fill_comes
fill_comes-Rely n h = Keeps-apply_fill ⦃ctx = whole⦄ whole_fill n h

abbrev day : List OrderCall
day =
    OrderCall.submitted "uuid-1" buy_ten fill_comes (answered accepted)
    ∷ OrderCall.cancelled "order-4" fill_comes false
    ∷ OrderCall.filled whole_fill
    ∷ []

day-AllRely : AllRely day
day-AllRely = (fill_comes-Rely, (fill_comes-Rely, (tt, tt)))

perform_all-Keeps_example : Keeps restored (perform_all ⦃ctx = whole⦄ day restored)
perform_all-Keeps_example =
    perform_all-Keeps ⦃ctx = whole⦄ day restored day-AllRely restored-IsSound

terminal_is_final_example :
    (o' : InternalOrder) × (find (perform_all ⦃ctx = whole⦄ day restored) "order-9" ≡ some o')
    × (o'.status ≡ OrderState.filled)
unfolding load_snapshot Repository.save_all Repository.empty Dict.empty Dict.put Dict.get
terminal_is_final_example =
    terminal_is_final ⦃ctx = whole⦄ day restored "order-9" filled_order day-AllRely restored-IsSound
      refl refl

apply_fill_once_example :
    let n = perform_all ⦃ctx = whole⦄ day (apply_fill ⦃ctx = whole⦄ whole_fill restored).1 in
    apply_fill ⦃ctx = whole⦄ whole_fill n ≡ (ok tt, n)
apply_fill_once_example =
    apply_fill_once ⦃ctx = whole⦄ whole_fill day restored day-AllRely restored-IsSound

submit_once_example :
    let n = perform_all ⦃ctx = whole⦄ day (submit "uuid-1" buy_ten fill_comes nothing restored).1 in
    (o : InternalOrder) × (submit "uuid-2" buy_ten fill_comes (answered accepted) n ≡ (ok o, n))
unfolding load_snapshot Repository.save_all Repository.empty Dict.empty Dict.put Dict.get
    find_duplicate Repository.get_by_intent Repository.get_by_idempotency
submit_once_example =
    submit_once ⦃ctx = whole⦄ "uuid-1" "uuid-2" buy_ten fill_comes fill_comes nothing
      (answered accepted) day restored refl fill_comes-Rely day-AllRely restored-IsSound

submit_quiet_example :
    let r = submit "uuid-1" buy_ten (λ n. n) (answered accepted) restored in
    (o : InternalOrder) × (r.0 ≡ ok o)
    × (find r.1 o.order_id ≡ some o)
    × (o.status ≡ OrderState.submitted)
    × (r.1.sent ≡ build_request (order_from "uuid-1" buy_ten restored) ∷ [])
unfolding load_snapshot Repository.save_all Repository.empty Dict.empty Dict.put Dict.get
    find_duplicate Repository.get_by_intent Repository.get_by_idempotency
submit_quiet_example = submit_quiet "uuid-1" buy_ten (answered accepted) restored refl refl

fill_lands_example :
    ((apply_fill ⦃ctx = whole⦄ whole_fill restored).0 ≡ ok tt)
    × Lands ⦃ctx = whole⦄ whole_fill working_order restored
        (apply_fill ⦃ctx = whole⦄ whole_fill restored).1
unfolding load_snapshot Repository.save_all Repository.empty Dict.empty Dict.put Dict.get
    Dict.put_all ◌+ℤ◌
fill_lands_example =
    fill_lands ⦃ctx = whole⦄ whole_fill working_order restored restored-IsSound refl refl refl refl

-- The order as the fill leaves it.
abbrev done_order : InternalOrder
done_order = record (working_order) {
  filled_quantity = pos 10;
  average_fill_price = pos 249;
  status = OrderState.filled;
  updated_at = 5;
}

cancel_race_example : cancel "order-4" fill_comes false restored ≡ (
  err (order_state OrderState.filled OrderState.unknown),
  fill_comes (in_wait working_order "broker-4" restored),
)
unfolding load_snapshot Repository.save_all Repository.empty Repository.write Dict.empty Dict.put
    Dict.get Dict.put_all ◌+ℤ◌ apply_fill transition average_fill Repository.get
cancel_race_example =
    cancel_race "order-4" "broker-4" working_order done_order fill_comes false restored refl refl
      refl refl refl

submit_race_example :
    (submit "uuid-1" buy_ten fill_first (answered accepted) new_manager).0
    ≡ err (order_state OrderState.filled OrderState.submitted)
unfolding Repository.save Repository.empty Repository.write Dict.empty Dict.put Dict.get ◌+ℤ◌
    apply_fill transition average_fill find_duplicate Repository.get_by_intent
    Repository.get_by_idempotency order_name ◌+++◌ str Repository.get
submit_race_example =
    submit_race "uuid-1" buy_ten fill_first accepted new_manager first_order refl refl refl
      (inr refl) (inr refl)

load_snapshot-IsSound_example : IsSound (load_snapshot saved new_manager)
load_snapshot-IsSound_example = load_snapshot-IsSound saved new_manager (refl, (refl, tt))

restart_restores_example :
    let restarted = load_snapshot (snapshot restored) new_manager in
    IsSound restarted
    × ((oid : String) → find restarted oid ≡ find restored oid)
    × ((k : String) → Dict.get restarted.fills k ≡ Dict.get restored.fills k)
    × ((figi : String) (d : Direction)
        → (Position.get restarted.positions figi ≡ Position.get restored.positions figi)
          × (Position.position_state restarted.positions figi d ≡ Position.unknown))
unfolding load_snapshot Position.load_state Dict.put_all
restart_restores_example =
    restart_restores restored new_manager restored-IsSound (IsKeyed-empty (λ f. f.fill_id))
      (IsKeyed-empty (λ p. p.instrument_figi))
