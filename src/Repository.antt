-- ===== src/Repository.antt =====
-- The in-memory repositories of backend/app/trading/repository.py. The order repository has one
-- dict by order id and three indexes into it; the others are one dict each.
use veles_moex.Common.{String, Option, none, some, List, [], ◌∷◌, truthy, if◌then◌else◌}
use veles_moex.Dict
use veles_moex.Dict.{Dict}
use veles_moex.Domain.{InternalOrder}

pub record OrderRepository : Type 0 where
  pub by_id : Dict InternalOrder
  pub by_intent : Dict String
  pub by_idempotency : Dict String
  pub by_broker : Dict String

unfoldable pub empty : OrderRepository
empty = record {
  by_id = Dict.empty;
  by_intent = Dict.empty;
  by_idempotency = Dict.empty;
  by_broker = Dict.empty;
}

-- `if key: index[key] = oid`
index_text : String → String → Dict String → Dict String
index_text key oid d = if truthy key then Dict.put d key oid else d

index_option : Option String → String → Dict String → Dict String
unfolding index_text
index_option none oid d = d
index_option (some key) oid d = index_text key oid d

unfoldable pub save : InternalOrder → OrderRepository → OrderRepository
unfolding index_text index_option
save o r = record {
  by_id = Dict.put r.by_id o.order_id o;
  by_intent = Dict.put r.by_intent o.intent_id o.order_id;
  by_idempotency = index_text o.idempotency_key o.order_id r.by_idempotency;
  by_broker = index_option o.broker_order_id o.order_id r.by_broker;
}

unfoldable pub get : OrderRepository → String → Option InternalOrder
get r oid = Dict.get r.by_id oid

-- `self._by_id.get(oid) if oid else None`
pub follow : Option String → OrderRepository → Option InternalOrder
unfolding get
follow none r = none
follow (some oid) r = if truthy oid then get r oid else none

unfoldable pub get_by_intent : OrderRepository → String → Option InternalOrder
unfolding follow
get_by_intent r key = follow (Dict.get r.by_intent key) r

unfoldable pub get_by_idempotency : OrderRepository → String → Option InternalOrder
unfolding follow
get_by_idempotency r key = follow (Dict.get r.by_idempotency key) r

unfoldable pub get_by_broker : OrderRepository → String → Option InternalOrder
unfolding follow
get_by_broker r key = follow (Dict.get r.by_broker key) r

unfoldable pub list_orders : OrderRepository → List InternalOrder
list_orders r = Dict.values r.by_id

-- A write to the fields of the order object that the repository holds: the object stays where it
-- is, and the indexes are not told.
unfoldable pub write : InternalOrder → OrderRepository → OrderRepository
write o r = record r { by_id = Dict.put r.by_id o.order_id o }

unfoldable pub save_all : List InternalOrder → OrderRepository → OrderRepository
unfolding save
save_all [] r = r
save_all (o ∷ os) r = save_all os (save o r)
