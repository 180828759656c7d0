-- ===== src/Deals/Store.antt =====
-- The record of a deal and `InMemoryDealStore`, backend/app/trading/deal.py. Percentages are
-- floats, a type that the model takes. The store's dict has the decimal texts of the ids for
-- keys.
pub mod Fresh
use veles_moex.Common.{
  ℕ, ◌+◌, ◌==◌, String, str, str_eq, Bool, true, false, not, Option, none, some, List, [], ◌∷◌,
  if◌then◌else◌,
}
use veles_moex.Dict
use veles_moex.Dict.{Dict}
use veles_moex.Decimal.{ℤ}
use veles_moex.Domain.{OrderSide, Direction}

pub data DealStatus : Type 0 where
  opening opened closing closed error : DealStatus

pub data DealLevelStatus : Type 0 where
  waiting active filled cancelled : DealLevelStatus

pub record DealLevel (F : Type 0) : Type 0 where
  pub index : ℕ
  pub side : OrderSide
  pub price : Option ℤ
  pub nominal : ℤ
  pub quantity : ℤ
  pub offset_percent : F
  pub status : DealLevelStatus
  pub is_market : Bool
  pub filled_quantity : ℤ
  pub intent_id : Option String
  pub order_id : Option String
  pub broker_order_id : Option String

pub record Deal (F : Type 0) : Type 0 where
  pub id : Option ℕ
  pub bot_id : Option ℕ
  pub instrument_figi : String
  pub direction : Direction
  pub status : DealStatus
  pub deposit : Option ℤ
  pub base_nominal : ℤ
  pub reference_price : ℤ
  pub lot_size : Option ℕ
  pub tick_size : Option ℤ
  pub tp_percent : F
  pub active_limit : Option ℕ
  pub account_id : Option String
  pub levels : List (DealLevel F)
  pub average_price : ℤ
  pub tp_rev : ℕ
  pub tp_price : Option ℤ
  pub tp_quantity : Option ℤ
  pub tp_intent_id : Option String
  pub tp_order_id : Option String
  pub tp_broker_order_id : Option String
  pub sl_percent : Option F
  pub sl_offset : ℤ
  pub p0_price : Option ℤ
  pub sl_rev : ℕ
  pub sl_order_id : Option String
  pub sl_quantity : Option ℤ
  pub sl_price : Option ℤ
  pub close_reason : Option String
  pub stop_bot_after : Option Bool
  pub created_at : ℕ
  pub updated_at : ℕ
  pub closed_at : Option ℕ

pub record InMemoryDealStore (F : Type 0) : Type 0 where
  pub deals : Dict (Deal F)
  pub seq : ℕ

abbrev pub is_closed : DealStatus → Bool
is_closed closed = true
is_closed _ = false

has_order : String → Option String → Bool
has_order oid none = false
has_order oid (some order_id) = str_eq order_id oid

numbered : Option ℕ → ℕ → ℕ
numbered none seq = seq + 1
numbered (some id) seq = id

counted : Option ℕ → ℕ → ℕ
counted none seq = seq + 1
counted (some id) seq = seq

module _ {F : Type 0} where
  first_level : (DealLevel F → Bool) → List (DealLevel F) → Option (DealLevel F)
  first_level test [] = none
  first_level test (l ∷ ls) = let rest = first_level test ls in if test l then some l else rest

  unfoldable pub level : Deal F → ℕ → Option (DealLevel F)
  unfolding first_level
  level d index = first_level (λ l. l.index == index) d.levels

  unfoldable pub level_by_order : Deal F → String → Option (DealLevel F)
  unfolding first_level has_order
  level_by_order d oid = first_level (λ l. has_order oid l.order_id) d.levels

  -- `self._deals[deal.id] = deal`
  abbrev pub put_deal : ℕ → Deal F → InMemoryDealStore F → InMemoryDealStore F
  put_deal id d s = record s { deals = Dict.put s.deals (str id) d }

  -- `now` is the reading of the clock.
  unfoldable pub save_deal : Deal F → ℕ → InMemoryDealStore F → Deal F × InMemoryDealStore F
  unfolding numbered counted
  save_deal d now s =
      let id = numbered d.id s.seq in
      let d' = record d { id = some id; updated_at = now } in
      (d', put_deal id d' (record s { seq = counted d.id s.seq }))

  unfoldable pub get_deal : InMemoryDealStore F → ℕ → Option (Deal F)
  get_deal s id = Dict.get s.deals (str id)

  not_closed : List (Deal F) → List (Deal F)
  not_closed [] = []
  not_closed (d ∷ ds) =
      let rest = not_closed ds in if not (is_closed d.status) then d ∷ rest else rest

  unfoldable pub list_unclosed : InMemoryDealStore F → List (Deal F)
  unfolding not_closed
  list_unclosed s = not_closed (Dict.values s.deals)
