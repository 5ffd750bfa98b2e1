-- ===== src/Storage/Orders/Refinement.antt =====
-- The table of storage/sqlite_store.py refines a dictionary of orders: the texts of the columns lose
-- nothing but the times and the metadata of an order.
use crypto_dual_sleeve_tradi.Base.{
  any, ℕ, String, ◌≡◌, refl, inl, inr, Bool, Option, none, some, [], ◌∷◌, map, arith, Bool-cases,
  keep,
}
use crypto_dual_sleeve_tradi.Base.Enum.{value, one_of}
use crypto_dual_sleeve_tradi.Base.Result.{ok}
use crypto_dual_sleeve_tradi.Base.Key.{string_key, pair_key}
use crypto_dual_sleeve_tradi.Base.Dict
use crypto_dual_sleeve_tradi.Base.Dict.{Dict}
use crypto_dual_sleeve_tradi.Core.Enums.{
  unknown, expired, rejected, canceled, filled, partially_filled, submitted, created, OrderStatus,
  trading_mode_enum, sleeve_id_enum, order_side_enum, position_side_enum, order_type_enum,
  order_action_enum, order_status_enum, safe_mode_state_enum, circuit_action_enum,
}
use crypto_dual_sleeve_tradi.Storage.Orders.{
  OrderRow, OrderTable, row_of, on_conflict, upsert_order, row_to_order, read_row, get_order,
  read_rows, list_open_orders, has_open_status, open_statuses,
}
use crypto_dual_sleeve_tradi.Core.Models.{OrderRecord}
use crypto_dual_sleeve_tradi.Base.Text.{str_eq}
use crypto_dual_sleeve_tradi.Core.Enums.Values.{
  sleeve_id-value, order_side-value, order_type-value, order_action-value, order_status-value,
}

abbrev pub Orders : Type 0
Orders = Dict String OrderRecord

-- the table that holds these orders
unfoldable pub encode : Orders → OrderTable
encode [] = []
encode ((id, order) ∷ d) = (id, row_of order) ∷ encode d

-- the order as it is read at the time `now`
abbrev pub as_read : ℕ → OrderRecord → OrderRecord
as_read now order = record order {
  intent = record order.intent { metadata = [] };
  created_at = now;
  updated_at = now;
}

abbrev pub as_read? : ℕ → Option OrderRecord → Option OrderRecord
as_read? now none = none
as_read? now (some order) = some (as_read now order)

-- An order that is stored again keeps its intent: only status, exchange id and fills are new.
abbrev pub merge : Option OrderRecord → OrderRecord → OrderRecord
merge none new = new
merge (some old) new = record old {
  exchange_order_id = new.exchange_order_id;
  status = new.status;
  filled_quantity = new.filled_quantity;
  average_fill_price = new.average_fill_price;
}

abbrev pub is_open : OrderRecord → Bool
is_open order = one_of open_statuses order.status

abbrev row_of? : Option OrderRecord → Option OrderRow
row_of? none = none
row_of? (some order) = some (row_of order)

lookup-encode : (id : String) (d : Orders) → Dict.lookup id (encode d) ≡ row_of? (Dict.lookup id d)
unfolding encode Dict.lookup
lookup-encode id [] = refl
lookup-encode id ((j, order) ∷ d) = ground (arith, lookup-encode id d)

insert-encode :
    (id : String) (order : OrderRecord) (d : Orders)
    → Dict.insert id (row_of order) (encode d) ≡ encode (Dict.insert id order d)
unfolding encode Dict.insert
insert-encode id order [] = refl
insert-encode id order ((j, old) ∷ d) = ground (arith, insert-encode id order d)

on_conflict-row_of :
    (old : Option OrderRecord) (new : OrderRecord)
    → on_conflict (row_of? old) (row_of new) ≡ row_of (merge old new)
unfolding row_of
on_conflict-row_of none new = refl
on_conflict-row_of (some old) new = refl

row_to_order-row_of :
    (now : ℕ) (order : OrderRecord) → row_to_order now (row_of order) ≡ ok (as_read now order)
unfolding row_to_order row_of
row_to_order-row_of now order =
    rw
      (
        sleeve_id-value order.intent.sleeve_id,
        order_side-value order.intent.side,
        order_type-value order.intent.order_type,
        order_action-value order.intent.action,
        order_status-value order.status,
      )
      (ground arith)

open_texts :
    (s : OrderStatus) → any (λ t. str_eq (value t) (value s)) open_statuses ≡ one_of open_statuses s
open_texts created = refl
open_texts submitted = refl
open_texts partially_filled = refl
open_texts filled = refl
open_texts canceled = refl
open_texts rejected = refl
open_texts expired = refl
open_texts unknown = refl

has_open_status-row_of : (order : OrderRecord) → has_open_status (row_of order) ≡ is_open order
unfolding row_of
has_open_status-row_of order = open_texts order.status

read_row-row_of :
    (now : ℕ) (o : Option OrderRecord) → read_row now (row_of? o) ≡ ok (as_read? now o)
read_row-row_of now none = refl
read_row-row_of now (some order) = rw row_to_order-row_of

-- In a table that holds orders, storing an order writes it under its id; if there is one already, only
-- its status, exchange id, filled quantity and fill price are replaced.
pub upsert-encode :
    (order : OrderRecord) (d : Orders)
    → upsert_order order (encode d)
      ≡ encode
          (Dict.insert order.client_order_id (merge (Dict.lookup order.client_order_id d) order) d)
unfolding upsert_order
upsert-encode order d =
    rw (lookup-encode, on_conflict-row_of) (insert-encode order.client_order_id _ d)

-- In a table that holds orders, reading an id never raises, and gives the order that is stored there,
-- if there is one, with the times of the reading and without metadata.
pub get-encode :
    (now : ℕ) (id : String) (d : Orders)
    → get_order now id (encode d) ≡ ok (as_read? now (Dict.lookup id d))
unfolding get_order
get-encode now id d = rw lookup-encode (read_row-row_of now (Dict.lookup id d))

read_rows-encode :
    (now : ℕ) (d : Orders)
    → read_rows now (keep has_open_status (Dict.values (encode d)))
      ≡ ok (map (as_read now) (keep is_open (Dict.values d)))
unfolding encode read_rows Dict.values
read_rows-encode now [] = refl
read_rows-encode now ((id, order) ∷ d) = elim (Bool-cases (is_open order)) [
  | inl e ↦
      rw (has_open_status-row_of order, e, row_to_order-row_of now order, read_rows-encode now d)
  | inr e ↦ rw (has_open_status-row_of order, e) (read_rows-encode now d)
]

-- In a table that holds orders, the list of open orders never raises, and holds the orders that are
-- CREATED, SUBMITTED, PARTIALLY_FILLED or UNKNOWN, each once, in the order in which they were first
-- stored, with the times of the reading and without metadata.
pub list_open-encode :
    (now : ℕ) (d : Orders)
    → list_open_orders now (encode d) ≡ ok (map (as_read now) (keep is_open (Dict.values d)))
unfolding list_open_orders
list_open-encode now d = read_rows-encode now d
