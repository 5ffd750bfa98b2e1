-- ===== src/Tests/Binance.antt =====
-- The theorems on the adapter of the testnet at concrete inputs.
use crypto_dual_sleeve_tradi.Base.{
  ℕ, ◌+◌, String, ◌≡◌, refl, ◌⊎◌, true, false, none, some, List, [], ◌∷◌, if◌then◌else◌,
}
use crypto_dual_sleeve_tradi.Base.Text.{◌^+◌, str_eq}
use crypto_dual_sleeve_tradi.Base.Enum.{value}
use crypto_dual_sleeve_tradi.Base.Result.{invalid_operation, Result, ok, err}
use crypto_dual_sleeve_tradi.Base.Key.{string_key, pair_key}
use crypto_dual_sleeve_tradi.Decimal
use crypto_dual_sleeve_tradi.Base.Dict
use crypto_dual_sleeve_tradi.Base.Dict.{is_some, Dict}
use crypto_dual_sleeve_tradi.Decimal.{Decimal, nought}
use crypto_dual_sleeve_tradi.Core.Enums.{
  submitted, exchange_testnet, filled, trading_mode_enum, sleeve_id_enum, order_side_enum,
  position_side_enum, order_type_enum, order_action_enum, order_status_enum, safe_mode_state_enum,
  circuit_action_enum,
}
use crypto_dual_sleeve_tradi.Exchange.BinanceRest
use crypto_dual_sleeve_tradi.Exchange.BinanceOrders
use crypto_dual_sleeve_tradi.Base.Enum.{one_of}
use crypto_dual_sleeve_tradi.Exchange.Payloads.{
  cons, no_price, number, array, nil, field, text, object, Items, end, is_none, get, Fields, Json,
  Reader,
}
use crypto_dual_sleeve_tradi.Exchange.Requests.{sign_params, signed_params, Adapter, Platform}
use crypto_dual_sleeve_tradi.Core.Models.{ExchangeOrderSnapshot, OrderRecord, SymbolFilters}
use crypto_dual_sleeve_tradi.Exchange.BinanceOrders.{rest_adapter, apply_exchange_order_payload}
use crypto_dual_sleeve_tradi.Exchange.Parsers.{parse_order_snapshot}
use crypto_dual_sleeve_tradi.Exchange.BinanceOrders.Answers.{apply_snapshot_agree, StatusAgrees}
use crypto_dual_sleeve_tradi.Execution.Reconciliation.{reconcile_open_orders, LocalOrderStore}
use crypto_dual_sleeve_tradi.Config.{binance_usdm_testnet, RuntimeConfig}
use crypto_dual_sleeve_tradi.Tests.Samples.{quiet, noon, entry_order}
use crypto_dual_sleeve_tradi.Exchange.Requests.Signing.{carried, signed_params_lem}
use crypto_dual_sleeve_tradi.Execution.SafeMode.{allows_new_entries}
use crypto_dual_sleeve_tradi.Execution.Reconciliation.OnBinance.{reconcile_rest}
use crypto_dual_sleeve_tradi.Execution.OrderState.{allowed_transitions}
use crypto_dual_sleeve_tradi.Execution.OrderState.OnBinance.{submit_order-Follows}
use crypto_dual_sleeve_tradi.Exchange.BinanceRest.Cache.{filters_cached, IsKeyed}

-- a reader that knows the texts of the samples
abbrev decimal_of : String → Result Decimal
decimal_of t =
    if str_eq t "0.10"
    then ok (Decimal.literal 10 2)
    else if str_eq t "0.001"
    then ok (Decimal.literal 1 3)
    else if str_eq t "5"
    then ok (Decimal.literal 5 0)
    else err (invalid_operation t)

abbrev reader : Reader
reader = record { repr = λ value. ""; decimal = decimal_of; integer = λ value. ok 0 }

abbrev fields : List (String × Json) → Fields
fields [] = end
fields ((key, value) ∷ rest) = field key value (fields rest)

abbrev items : List Json → Items
items [] = nil
items (value ∷ rest) = cons value (items rest)

abbrev btc_info : Json
btc_info = object (
    fields (
      ("symbol", text "BTCUSDT")
      ∷ (
        "filters",
        array (
            items (
              object (fields (("filterType", text "PRICE_FILTER") ∷ ("tickSize", text "0.10") ∷ []))
              ∷ object (fields (("filterType", text "LOT_SIZE") ∷ ("stepSize", text "0.001") ∷ []))
              ∷ [])),
      )
      ∷ []))

-- the world is the number of requests that were sent
abbrev platform : Platform ℕ
platform = record {
  reader = reader;
  decimal_text = λ d. "1";
  number_text = λ n. "5000";
  urlencode = λ params. "query";
  digest = λ secret query. secret ^+ query;
  send = λ method address params headers sent. (
    ok (200, ("", ok (object (fields (("symbols", array (items (btc_info ∷ []))) ∷ []))))),
    sent + 1,
  );
  clock = λ sent. sent;
}

abbrev adapter : Adapter ℕ
adapter = record {
  credentials = record { api_key = "key"; api_secret = "secret" };
  base_url = "https://demo-fapi.binance.com";
  recv_window = 5000;
  filters_cache = [];
  world = 0;
}

abbrev btc : SymbolFilters
btc = record {
  symbol = "BTCUSDT";
  tick_size = Decimal.literal 10 2;
  step_size = Decimal.literal 1 3;
  min_notional = Decimal.literal 5 0;
}

loads : (BinanceRest.get_symbol_filters platform "BTCUSDT" adapter).0 ≡ ok btc
unfolding BinanceRest.get_symbol_filters Dict.lookup
    crypto_dual_sleeve_tradi.Exchange.Payloads.get_default Dict.insert
loads = refl

filters_cached_example :
    let after = (BinanceRest.get_symbol_filters platform "BTCUSDT" adapter).1 in
    (btc.symbol ≡ "BTCUSDT")
    × IsKeyed after.filters_cache
    × (BinanceRest.get_symbol_filters platform "BTCUSDT" after ≡ (ok btc, after))
filters_cached_example = filters_cached platform "BTCUSDT" adapter btc tt loads

abbrev cancel_params : Dict String String
cancel_params = ("symbol", "BTCUSDT") ∷ ("origClientOrderId", "B_1") ∷ []

named : Dict.lookup "symbol" cancel_params ≡ some "BTCUSDT"
unfolding Dict.lookup
named = refl

signed_params_lem_example :
    Dict.lookup "symbol" (signed_params platform adapter cancel_params)
    ≡ carried platform adapter cancel_params "symbol"
signed_params_lem_example = signed_params_lem platform adapter cancel_params "symbol"

abbrev payload : Fields
payload = fields (
    ("status", text "FILLED")
    ∷ ("executedQty", text "0.001")
    ∷ ("avgPrice", text "0.0")
    ∷ ("clientOrderId", text "B_1")
    ∷ ("orderId", number "7")
    ∷ [])

abbrev filled_by : OrderRecord
filled_by = record entry_order {
  status = filled;
  exchange_order_id = some "7";
  filled_quantity = Decimal.literal 1 3;
}

abbrev seen : ExchangeOrderSnapshot
seen = record {
  client_order_id = "B_1";
  symbol = "None";
  status = filled;
  exchange_order_id = some "7";
  executed_quantity = Decimal.literal 1 3;
  average_price = none;
}

is_text : get payload "status" ≡ text "FILLED"
unfolding crypto_dual_sleeve_tradi.Exchange.Payloads.get_default
is_text = refl

has_quantity : is_none (get payload "executedQty") ≡ false
unfolding crypto_dual_sleeve_tradi.Exchange.Payloads.get_default
has_quantity = refl

applies : apply_exchange_order_payload reader payload entry_order ≡ (ok tt, filled_by)
unfolding apply_exchange_order_payload crypto_dual_sleeve_tradi.Exchange.Payloads.get_default
applies = refl

parses : parse_order_snapshot reader payload ≡ ok seen
unfolding parse_order_snapshot crypto_dual_sleeve_tradi.Exchange.Payloads.get_default
parses = refl

apply_snapshot_agree_example :
    (filled_by.exchange_order_id ≡ seen.exchange_order_id)
    × (filled_by.filled_quantity ≡ seen.executed_quantity)
    × StatusAgrees (text "FILLED") entry_order.status filled_by.status seen.status
    × (((no_price (get payload "avgPrice") ≡ false)
          × (filled_by.average_fill_price ≡ seen.average_price))
        ⊎ ((no_price (get payload "avgPrice") ≡ true)
            × (filled_by.average_fill_price ≡ entry_order.average_fill_price)
            × (seen.average_price ≡ none)))
    × (filled_by.client_order_id ≡ entry_order.client_order_id)
    × (filled_by.intent ≡ entry_order.intent)
    × (filled_by.created_at ≡ entry_order.created_at)
    × (filled_by.updated_at ≡ entry_order.updated_at)
apply_snapshot_agree_example =
    apply_snapshot_agree reader payload "FILLED" entry_order filled_by seen is_text has_quantity
      applies parses

abbrev one_open : LocalOrderStore (List OrderRecord)
one_open = record { list_open_orders = λ now orders. ok orders }

reconcile_rest_example :
    let (report, (safe, _)) =
      reconcile_open_orders one_open
        (rest_adapter platform)
        noon
        (entry_order ∷ [])
        (quiet, adapter) in
    (report.consistent ≡ false) × (allows_new_entries safe ≡ false)
reconcile_rest_example =
    reconcile_rest platform one_open noon (entry_order ∷ []) quiet adapter entry_order [] refl

abbrev testnet : RuntimeConfig
testnet = record {
  trading_mode = exchange_testnet;
  exchange = binance_usdm_testnet;
  api_key = some "key";
  api_secret = some "secret";
  smoke_symbol = "BTCUSDT";
  state_db_path = "local_state.sqlite3";
}

-- the same platform, answering an order
abbrev filling : Platform ℕ
filling = record platform {
  send = λ method address params headers sent. (ok (200, ("", ok (object payload))), sent + 1);
}

submits : (BinanceOrders.submit_order filling entry_order adapter).0 ≡ ok filled_by
unfolding BinanceOrders.submit_order crypto_dual_sleeve_tradi.Exchange.Requests.request
    crypto_dual_sleeve_tradi.Exchange.Payloads.get_default
submits = refl

submit_order-Follows_example :
    ((filled_by.status ≡ submitted)
      ⊎ (one_of (allowed_transitions submitted) filled_by.status ≡ true))
    × (filled_by.client_order_id ≡ entry_order.client_order_id)
    × (filled_by.intent ≡ entry_order.intent)
submit_order-Follows_example =
    submit_order-Follows filling entry_order filled_by adapter refl submits
