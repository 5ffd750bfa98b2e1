-- ===== src/Storage/Orders.antt =====
-- storage/sqlite_store.py: the table of orders. A row holds what the columns hold: the texts of the
-- enumerations, and a decimal where the column holds its text, which reads back as the same number.
-- Rows are keyed by the primary key and stand in the order in which they were inserted.
pub mod Refinement
use crypto_dual_sleeve_tradi.Base.{
  any, ℕ, zero, suc, ◌+◌, ◌-◌, ◌*◌, ◌≤◌, ◌<◌, String, ◌≡◌, refl, sym, ap, ◌∙◌, ◌≢◌, ◌↔◌, ◌⊎◌, inl,
  inr, Bool, true, false, not, ◌&&◌, ◌||◌, Option, none, some, List, [], ◌∷◌, ◌++◌, map, arith, ltb,
  leb, ◌==◌, if◌then◌else◌, Bool-cases, Option-cases, length, keep, All,
}
use crypto_dual_sleeve_tradi.Base.Text.{◌^+◌, str_eq, eq_iff}
use crypto_dual_sleeve_tradi.Base.Enum.{of_value, is, one_of, value}
use crypto_dual_sleeve_tradi.Base.Result.{Result, ok, err}
use crypto_dual_sleeve_tradi.Base.Key.{Key, string_key, pair_key}
use crypto_dual_sleeve_tradi.Decimal
use crypto_dual_sleeve_tradi.Base.Dict
use crypto_dual_sleeve_tradi.Base.Dict.{Dict}
use crypto_dual_sleeve_tradi.Decimal.{Decimal, nought}
use crypto_dual_sleeve_tradi.Core.Enums.{
  unknown, partially_filled, submitted, created, OrderStatus, trading_mode_enum, sleeve_id_enum,
  order_side_enum, position_side_enum, order_type_enum, order_action_enum, order_status_enum,
  safe_mode_state_enum, circuit_action_enum,
}
use crypto_dual_sleeve_tradi.Core.Models.{OrderRecord}
use crypto_dual_sleeve_tradi.Base.Result.{◌>>=◌, ◌>>◌, raise_if}

pub record OrderRow : Type 0 where
  pub client_order_id : String
  pub exchange_order_id : Option String
  pub sleeve_id : String
  pub symbol : String
  pub side : String
  pub order_type : String
  pub action : String
  pub quantity : Decimal
  pub price : Option Decimal
  pub reduce_only : ℕ
  pub setup_id : Option String
  pub status : String
  pub filled_quantity : Decimal
  pub average_fill_price : Option Decimal

abbrev pub OrderTable : Type 0
OrderTable = Dict String OrderRow

-- `_OPEN_STATUSES`
abbrev pub open_statuses : List OrderStatus
open_statuses = created ∷ submitted ∷ partially_filled ∷ unknown ∷ []

-- the values of the INSERT
unfoldable pub row_of : OrderRecord → OrderRow
row_of order = record {
  client_order_id = order.client_order_id;
  exchange_order_id = order.exchange_order_id;
  sleeve_id = value order.intent.sleeve_id;
  symbol = order.intent.symbol;
  side = value order.intent.side;
  order_type = value order.intent.order_type;
  action = value order.intent.action;
  quantity = order.intent.quantity;
  price = order.intent.price;
  reduce_only = if order.intent.reduce_only then 1 else 0;
  setup_id = order.intent.setup_id;
  status = value order.status;
  filled_quantity = order.filled_quantity;
  average_fill_price = order.average_fill_price;
}

-- the row after `ON CONFLICT(client_order_id) DO UPDATE SET …`
abbrev pub on_conflict : Option OrderRow → OrderRow → OrderRow
on_conflict none new = new
on_conflict (some old) new = record old {
  exchange_order_id = new.exchange_order_id;
  status = new.status;
  filled_quantity = new.filled_quantity;
  average_fill_price = new.average_fill_price;
}

unfoldable pub upsert_order : OrderRecord → OrderTable → OrderTable
upsert_order order table =
    Dict.insert order.client_order_id
      (on_conflict (Dict.lookup order.client_order_id table) (row_of order)) table

-- `_row_to_order`; the times are not stored, and a row that is read gets those of the reading
unfoldable pub row_to_order : ℕ → OrderRow → Result OrderRecord
row_to_order now row = do
  sleeve_id ← of_value row.sleeve_id
  side ← of_value row.side
  order_type ← of_value row.order_type
  action ← of_value row.action
  status ← of_value row.status
  ok (record {
    client_order_id = row.client_order_id;
    intent = record {
      sleeve_id = sleeve_id;
      symbol = row.symbol;
      side = side;
      order_type = order_type;
      action = action;
      quantity = row.quantity;
      price = row.price;
      reduce_only = not (row.reduce_only == 0);
      setup_id = row.setup_id;
      metadata = [];
    };
    status = status;
    exchange_order_id = row.exchange_order_id;
    filled_quantity = row.filled_quantity;
    average_fill_price = row.average_fill_price;
    created_at = now;
    updated_at = now;
  })

-- `_row_to_order(row) if row else None`
abbrev pub read_row : ℕ → Option OrderRow → Result (Option OrderRecord)
read_row now none = ok none
read_row now (some row) = do order ← row_to_order now row; ok (some order)

unfoldable pub get_order : ℕ → String → OrderTable → Result (Option OrderRecord)
get_order now client_order_id table = read_row now (Dict.lookup client_order_id table)

-- `status IN (…)`
abbrev pub has_open_status : OrderRow → Bool
has_open_status row = any (λ s. str_eq (value s) row.status) open_statuses

-- `[_row_to_order(row) for row in rows]`
unfoldable pub read_rows : ℕ → List OrderRow → Result (List OrderRecord)
read_rows now [] = ok []
read_rows now (row ∷ rows) = do
  order ← row_to_order now row
  orders ← read_rows now rows
  ok (order ∷ orders)

unfoldable pub list_open_orders : ℕ → OrderTable → Result (List OrderRecord)
list_open_orders now table = read_rows now (keep has_open_status (Dict.values table))
