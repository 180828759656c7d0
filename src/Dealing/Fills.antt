-- ===== src/Dealing/Fills.antt =====
-- Fills: `_on_order_fill`, the loop of `pump`, `_on_grid_fill` and `_on_tp_fill` of
-- backend/app/trading/deal_manager.py.
use veles_moex.Common.{
  ℕ, suc, ◌==◌, String, str, str_eq, ◌+++◌, Bool, true, false, ◌||◌, Option, none, some, List, [],
  ◌∷◌, ◌++◌, is_some, if◌then◌else◌,
}
use veles_moex.Dict
use veles_moex.Decimal.{ℤ, pos, ◌+ℤ◌, eq_ℤ, leb_ℤ, ltb_ℤ, Context}
use veles_moex.Domain.{InternalOrder, Fill}
use veles_moex.Strategies.{Floats}
use veles_moex.Position.{Position}
use veles_moex.Deals.Store.{Deal, DealLevel, DealStatus, DealLevelStatus}
use veles_moex.Dealing.{
  DealManager, Surroundings, Scene, Ran, returned, raised, Act, give, ◌then_do◌, change_deal,
  position_of, id_text,
}
use veles_moex.Dealing.Failures.{save, fail_deal}
use veles_moex.Dealing.Closing.{close_deal}
use Prim.Native.Char.{code}
use veles_moex.Grid.{at, put_at}
use veles_moex.Dealing.TakeProfit.{rearm_tp}
use veles_moex.Dealing.Stops.{Uuids, rearm_stop, grid_assembled}
use veles_moex.Dealing.Levels.{promote_waiting_levels}

-- `text.startswith(head)`
unfoldable pub starts_with : String → String → Bool
starts_with String.[] t = true
starts_with (String.◌∷◌ c s) String.[] = false
starts_with (String.◌∷◌ c s) (String.◌∷◌ d t) =
    let rest = starts_with s t in if code c == code d then rest else false

is_text : String → Option String → Bool
is_text t none = false
is_text t (some u) = str_eq t u

is_entering : DealStatus → Bool
is_entering DealStatus.opening = true
is_entering DealStatus.closing = true
is_entering _ = false

unfoldable pub is_dead : DealStatus → Bool
is_dead DealStatus.closed = true
is_dead DealStatus.error = true
is_dead _ = false

-- The average price of the fills of the first level, `filled` of it before this fill.
unfoldable pub next_p0 : ⦃ctx : Context⦄ → Option ℤ → ℤ → Fill → Option ℤ
next_p0 ⦃ctx⦄ none filled f = some f.price
next_p0 ⦃ctx⦄ (some p0) filled f =
    let total = filled +ℤ f.quantity in
    if ltb_ℤ (pos 0) total
    then some (ctx.div (ctx.mul p0 filled +ℤ ctx.mul f.price f.quantity) total)
    else some p0

unfoldable pub is_flat : Option Position → Bool
is_flat none = true
is_flat (some p) = eq_ℤ p.quantity (pos 0)

module _ {F : Type 0} where
  unfoldable pub is_tp_intent : Deal F → String → Bool
  unfolding is_text
  is_tp_intent d intent_id =
      is_text intent_id d.tp_intent_id
      || starts_with ("deal-" +++ id_text d.id +++ "-tp-") intent_id

  -- The place of the level of an order.
  unfoldable pub place_of_order : String → List (DealLevel F) → Option ℕ
  unfolding is_text
  place_of_order oid [] = none
  place_of_order oid (l ∷ ls) =
      let rest = place_of_order oid ls in if is_text oid l.order_id then some 0 else beyond rest
    where
      beyond : Option ℕ → Option ℕ
      beyond none = none
      beyond (some n) = some (suc n)

  -- A fill of an order without a bot is passed over.
  unfoldable pub on_order_fill : InternalOrder → Fill → DealManager F → DealManager F
  on_order_fill o f w = record w {
    pending = if is_some o.bot_id then w.pending ++ (o, f) ∷ [] else w.pending;
  }

module _ {F : Type 0} ⦃ctx : Context⦄ where
  fill_level : DealLevel F → Fill → DealLevel F
  fill_level l f =
      let filled = l.filled_quantity +ℤ f.quantity in
      record l {
        filled_quantity = filled;
        status = if leb_ℤ l.quantity filled then DealLevelStatus.filled else DealLevelStatus.active;
      }

  -- What a fill of a level writes to the deal before the first await.
  unfoldable pub count_fill : ℕ → DealLevel F → Fill → Deal F → Deal F
  unfolding fill_level next_p0 is_entering
  count_fill place l f d =
      let d' = record d { levels = put_at place (fill_level l f) d.levels } in
      if l.index == 0
      then record d' {
        p0_price = next_p0 d.p0_price l.filled_quantity f;
        status = if is_entering d.status then DealStatus.opened else d.status;
      }
      else d'

module _ {F : Type 0} ⦃ctx : Context⦄ ⦃fl : Floats F⦄ ⦃env : Surroundings F⦄ ⦃ids : Uuids⦄ where
  stop_if_assembled : Act F (Unit {0})
  stop_if_assembled s = if grid_assembled s.deal.levels then rearm_stop s else (returned tt, s)

  touch_deal : Act F (Unit {0})
  touch_deal s =
      (returned tt, record s { deal = record s.deal { updated_at = s.manager.orders.now } })

  -- The steps behind the count of the fill.
  unfoldable pub after_fill : Act F (Unit {0})
  unfolding stop_if_assembled touch_deal
  after_fill = rearm_tp then_do λ _. promote_waiting_levels then_do λ _.
      stop_if_assembled then_do λ _. touch_deal then_do λ _. save

  fill_at : ℕ → Option (DealLevel F) → Fill → Act F (Unit {0})
  unfolding after_fill
  fill_at place none f = give tt
  fill_at place (some l) f = change_deal (count_fill place l f) then_do λ _. after_fill

  fill_place : Option ℕ → Fill → Act F (Unit {0})
  unfolding fill_at
  fill_place none f s = (returned tt, s)
  fill_place (some place) f s = fill_at place (at place s.deal.levels) f s

  unfoldable pub on_grid_fill : InternalOrder → Fill → Act F (Unit {0})
  unfolding fill_place
  on_grid_fill o f s = fill_place (place_of_order o.order_id s.deal.levels) f s

  unfoldable pub on_tp_fill : InternalOrder → Act F (Unit {0})
  unfolding is_text stop_if_assembled
  on_tp_fill o s =
      if is_flat (position_of s.manager s.deal.instrument_figi)
      then close_deal (some "take_profit") s
      else if is_text o.intent_id s.deal.tp_intent_id
      then stop_if_assembled s
      else (rearm_tp then_do λ _. stop_if_assembled) s

  react : InternalOrder → Fill → Act F (Unit {0})
  unfolding on_tp_fill on_grid_fill
  react o f s = if is_tp_intent s.deal o.intent_id then on_tp_fill o s else on_grid_fill o f s

  unfoldable pub settled : Option ℕ → Ran (Unit {0}) × Scene F → Scene F
  settled bot (returned _, s) = s
  settled bot (raised e, s) = fail_deal bot e s

  -- The deal of the bot is one object, in the manager's dict and at hand.
  unfoldable pub keep_deal : ℕ → Scene F → DealManager F
  keep_deal bot s =
      let w = s.manager in
      if is_some (Dict.get w.deals (str bot))
      then record w { deals = Dict.put w.deals (str bot) s.deal }
      else w

  react_to : Option (Deal F) → ℕ → InternalOrder → Fill → DealManager F → DealManager F
  unfolding keep_deal settled react is_dead
  react_to none bot o f w = w
  react_to (some d) bot o f w =
      if is_dead d.status
      then w
      else keep_deal bot (settled (some bot) (react o f (record { manager = w; deal = d })))

  -- The reaction to one fill.
  unfoldable pub react_event : InternalOrder → Fill → DealManager F → DealManager F
  unfolding react_to
  react_event o f w = of_bot o.bot_id
    where
      of_bot : Option ℕ → DealManager F
      of_bot none = w
      of_bot (some bot) = react_to (Dict.get w.deals (str bot)) bot o f w

  unfoldable pub react_each : List (InternalOrder × Fill) → DealManager F → DealManager F
  react_each [] w = w
  react_each ((o, f) ∷ events) w = react_each events (react_event o f w)

  -- The queue is taken and worked off: `pump` up to its look at the stop orders.
  unfoldable pub drain : DealManager F → DealManager F
  unfolding react_each
  drain w = react_each w.pending (record w { pending = [] })
