-- ===== src/Tests/DealStore.antt =====
-- The store of deals with one deal.
use veles_moex.Common.{ℕ, ◌≡◌, refl, none, some, []}
use veles_moex.Decimal.{pos}
use veles_moex.Dict
use veles_moex.Dict.{get-empty}
use veles_moex.Domain.{long}
use veles_moex.Deals.Store.{Deal, DealStatus, InMemoryDealStore, save_deal, get_deal}
use veles_moex.Deals.Store.Fresh.{IsNumbered, save_new_deal}

abbrev pub first_deal : Deal ℕ
first_deal = record {
  id = none;
  bot_id = some 7;
  instrument_figi = "SBER";
  direction = long;
  status = DealStatus.opening;
  deposit = some (pos 10000);
  base_nominal = pos 2500;
  reference_price = pos 250;
  lot_size = some 10;
  tick_size = some (pos 5);
  tp_percent = 1;
  active_limit = none;
  account_id = none;
  levels = [];
  average_price = pos 0;
  tp_rev = 0;
  tp_price = none;
  tp_quantity = none;
  tp_intent_id = none;
  tp_order_id = none;
  tp_broker_order_id = none;
  sl_percent = none;
  sl_offset = pos 0;
  p0_price = none;
  sl_rev = 0;
  sl_order_id = none;
  sl_quantity = none;
  sl_price = none;
  close_reason = none;
  stop_bot_after = none;
  created_at = 1;
  updated_at = 1;
  closed_at = none;
}

abbrev pub empty_store : InMemoryDealStore ℕ
empty_store = record { deals = Dict.empty; seq = 0 }

empty_store-IsNumbered : IsNumbered empty_store
unfolding get_deal
empty_store-IsNumbered = record { free = λ k above. get-empty _ }

save_new_deal_example :
    let (saved, after) = save_deal first_deal 9 empty_store in
    (get_deal empty_store 1 ≡ none)
    × (saved.id ≡ some 1)
    × (get_deal after 1 ≡ some saved)
    × ((k : ℕ) → (1 ≡ k → ⊥) → get_deal after k ≡ get_deal empty_store k)
    × IsNumbered after
save_new_deal_example = save_new_deal first_deal 9 empty_store empty_store-IsNumbered refl
