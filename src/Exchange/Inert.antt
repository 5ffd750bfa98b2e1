-- ===== src/Exchange/Inert.antt =====
-- exchange/binance_testnet.py: the inert stand-in for the testnet, which keeps orders in memory.
use crypto_dual_sleeve_tradi.Base.Dict
use crypto_dual_sleeve_tradi.Base.{
  ◌-◌, ◌-◌, length, drop, ◌==◌, [], ◌==◌, ℕ, String, ◌≡◌, Option, none, some, List, arith,
  if◌then◌else◌, keep,
}
use crypto_dual_sleeve_tradi.Base.Text.{str_eq}
use crypto_dual_sleeve_tradi.Base.Result.{ok}
use crypto_dual_sleeve_tradi.Base.Key.{string_key, pair_key}
use crypto_dual_sleeve_tradi.Decimal
use crypto_dual_sleeve_tradi.Decimal.{Decimal, nought}
use crypto_dual_sleeve_tradi.Core.Enums.{
  trading_mode_enum, sleeve_id_enum, order_side_enum, position_side_enum, order_type_enum,
  order_action_enum, order_status_enum, safe_mode_state_enum, circuit_action_enum,
}
use crypto_dual_sleeve_tradi.Base.Dict.{Dict}
use crypto_dual_sleeve_tradi.Core.Models.{
  ExchangeOrderSnapshot, ExchangePositionSnapshot, OrderRecord, SymbolFilters,
}
use crypto_dual_sleeve_tradi.Exchange.Interfaces.{ExchangeAdapter}
use crypto_dual_sleeve_tradi.Strategies.Bars.{OhlcBar}
use crypto_dual_sleeve_tradi.Base.Exec.{Exec}

pub record InertExchange : Type 0 where
  pub filters : Dict String SymbolFilters
  pub orders : Dict String OrderRecord
  pub positions : List ExchangePositionSnapshot
  pub klines : Dict (String × String) (List OhlcBar)

abbrev default_filters : String → SymbolFilters
default_filters symbol = record {
  symbol = symbol;
  tick_size = Decimal.literal 1 2;
  step_size = Decimal.literal 1 3;
  min_notional = Decimal.literal 5 0;
}

abbrev pub get_or {ℓ} : {A : Type ℓ} → Option A → A → A
get_or none d = d
get_or (some a) d = a

unfoldable pub get_symbol_filters : String → Exec InertExchange SymbolFilters
get_symbol_filters symbol x =
    (ok (get_or (Dict.lookup symbol x.filters) (default_filters symbol)), x)

unfoldable pub submit_order : OrderRecord → Exec InertExchange OrderRecord
submit_order order x =
    (ok order, record x { orders = Dict.insert order.client_order_id order x.orders })

unfoldable pub cancel_order : String → String → Exec InertExchange (Option OrderRecord)
cancel_order client_order_id symbol x = (
  ok (Dict.lookup client_order_id x.orders),
  record x { orders = Dict.erase client_order_id x.orders },
)

unfoldable pub fetch_open_orders : Exec InertExchange (List OrderRecord)
fetch_open_orders x = (ok (Dict.values x.orders), x)

-- `fetch_position_snapshots(symbol)`; `none` asks for all
unfoldable pub fetch_position_snapshots :
    Option String → Exec InertExchange (List ExchangePositionSnapshot)
fetch_position_snapshots none x = (ok x.positions, x)
fetch_position_snapshots (some symbol) x = (ok (keep (λ p. str_eq p.symbol symbol) x.positions), x)

-- `list(bars)[-limit:]`: a limit of zero keeps all
abbrev pub last_bars : ℕ → List OhlcBar → List OhlcBar
last_bars limit bars = if limit == 0 then bars else drop (length bars - limit) bars

unfoldable pub fetch_klines : String → String → ℕ → Exec InertExchange (List OhlcBar)
fetch_klines symbol interval limit x =
    (ok (last_bars limit (get_or (Dict.lookup (symbol, interval) x.klines) [])), x)

abbrev pub snapshot_of : Option OrderRecord → Option ExchangeOrderSnapshot
snapshot_of none = none
snapshot_of (some order) = some (record {
  client_order_id = order.client_order_id;
  symbol = order.intent.symbol;
  status = order.status;
  exchange_order_id = order.exchange_order_id;
  executed_quantity = order.filled_quantity;
  average_price = order.average_fill_price;
})

unfoldable pub query_order : String → String → Exec InertExchange (Option ExchangeOrderSnapshot)
query_order symbol client_order_id x = (ok (snapshot_of (Dict.lookup client_order_id x.orders)), x)

unfoldable pub inert_adapter : ExchangeAdapter InertExchange
unfolding get_symbol_filters submit_order cancel_order fetch_open_orders
inert_adapter = record {
  get_symbol_filters = get_symbol_filters;
  submit_order = submit_order;
  cancel_order = cancel_order;
  fetch_open_orders = fetch_open_orders;
}

-- After a submission a query under the order's id finds that order, and queries under other ids are
-- answered as before.
pub query-submit :
    (order : OrderRecord) (symbol id : String) (x : InertExchange)
    → (query_order symbol id (submit_order order x).1).0 ≡ (
        if str_eq id order.client_order_id
        then ok (snapshot_of (some order))
        else (query_order symbol id x).0)
unfolding query_order submit_order
query-submit order symbol id x =
    ground (arith, Dict.lookup-insert id order.client_order_id order x.orders)

-- After a cancellation a query under the id finds nothing, and queries under other ids are answered as
-- before.
pub query-cancel :
    (cancelled symbol id : String) (x : InertExchange)
    → (query_order symbol id (cancel_order cancelled symbol x).1).0
      ≡ (if str_eq id cancelled then ok none else (query_order symbol id x).0)
unfolding query_order cancel_order
query-cancel cancelled symbol id x = ground (arith, Dict.lookup-erase id cancelled x.orders)
