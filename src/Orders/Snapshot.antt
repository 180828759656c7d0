-- ===== src/Orders/Snapshot.antt =====
-- `snapshot`, `load_snapshot` and `_max_order_seq` of backend/app/trading/order_manager.py, with
-- `LiveStateSnapshot` of backend/app/trading/state.py.
use veles_moex.Common.{
  ℕ, String, Option, none, some, List, [], ◌∷◌, int, after_last_dash, ltb, if◌then◌else◌,
}
use veles_moex.Dict
use veles_moex.Domain.{ExecutionIntent, InternalOrder, Fill}
use veles_moex.Repository
use veles_moex.Position
use veles_moex.Position.{Position}
use veles_moex.Orders.State.{OrderManager}

pub record LiveStateSnapshot : Type 0 where
  pub intents : List ExecutionIntent
  pub orders : List InternalOrder
  pub fills : List Fill
  pub positions : List Position

unfoldable pub snapshot : OrderManager → LiveStateSnapshot
snapshot m = record {
  intents = Dict.values m.intents;
  orders = Repository.list_orders m.orders;
  fills = Dict.values m.fills;
  positions = Dict.values m.positions.positions;
}

number_in : Option String → Option ℕ
number_in none = none
number_in (some text) = int text

-- `int(order_id.rsplit("-", 1)[1])`; `none` where that raises, and the loop continues.
unfoldable pub seq_of : String → Option ℕ
unfolding number_in
seq_of oid = number_in (after_last_dash oid)

unfoldable pub larger : ℕ → Option ℕ → ℕ
larger n none = n
larger n (some k) = if ltb n k then k else n

unfoldable pub max_seq : ℕ → List InternalOrder → ℕ
unfolding larger
max_seq n [] = n
max_seq n (o ∷ os) = max_seq (larger n (seq_of o.order_id)) os

unfoldable pub load_snapshot : LiveStateSnapshot → OrderManager → OrderManager
load_snapshot s m =
    let orders = Repository.save_all s.orders Repository.empty in
    record m {
      intents = Dict.put_all (λ i. i.intent_id) s.intents Dict.empty;
      orders = orders;
      fills = Dict.put_all (λ f. f.fill_id) s.fills Dict.empty;
      positions = Position.load_state m.positions s.positions;
      order_seq = max_seq 0 (Repository.list_orders orders);
    }
