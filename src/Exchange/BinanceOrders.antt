-- ===== src/Exchange/BinanceOrders.antt =====
-- exchange/binance_rest.py: the calls on orders, accounts, positions and prices.
pub mod Answers
use crypto_dual_sleeve_tradi.Base.{
  ℕ, String, Bool, true, false, not, Option, none, some, List, [], ◌∷◌, ◌++◌, if◌then◌else◌,
}
use crypto_dual_sleeve_tradi.Base.Text.{◌^+◌, str_eq}
use crypto_dual_sleeve_tradi.Base.Enum.{value}
use crypto_dual_sleeve_tradi.Base.Result.{
  attribute_error, type_error, binance_api_error, Result, ok, err,
}
use crypto_dual_sleeve_tradi.Base.Key.{string_key, pair_key}
use crypto_dual_sleeve_tradi.Base.Dict.{Dict}
use crypto_dual_sleeve_tradi.Decimal.{Decimal}
use crypto_dual_sleeve_tradi.Exchange.Payloads.{
  objects, no_price, str, text, listed, is_none, array, object, to_decimal, get, Fields, Json,
  Reader,
}
use crypto_dual_sleeve_tradi.Exchange.Parsers.{
  parse_position_snapshot, parse_account_snapshot, parse_order_snapshot, parse_mark_price,
  parse_kline, binance_status,
}
use crypto_dual_sleeve_tradi.Exchange.Requests.{request, Adapter, Platform}
use crypto_dual_sleeve_tradi.Base.Exec.{Exec}
use crypto_dual_sleeve_tradi.Strategies.Bars.{OhlcBar}
use crypto_dual_sleeve_tradi.Core.Models.{
  ExchangePositionSnapshot, AccountSnapshotV3, ExchangeOrderSnapshot, OrderRecord,
}
use crypto_dual_sleeve_tradi.Exchange.Interfaces.{ExchangeAdapter}
use crypto_dual_sleeve_tradi.Exchange.BinanceRest.{get_symbol_filters}
use crypto_dual_sleeve_tradi.Core.Enums.{
  OrderStatus, trading_mode_enum, sleeve_id_enum, order_side_enum, position_side_enum,
  order_type_enum, order_action_enum, order_status_enum, safe_mode_state_enum, circuit_action_enum,
}

-- `str(payload.get("orderId")) if … is not None else None`
abbrev pub order_id_of : Reader → Fields → Option String
order_id_of reader payload =
    let id = get payload "orderId" in if is_none id then none else some (str reader id)

-- `status in _BINANCE_STATUS_MAP`: a key of the map is a text. A status that is a list or a dictionary,
-- which cannot be looked up, is out of the model.
abbrev pub new_status : Json → OrderStatus → OrderStatus
new_status value old = elim value [
  | text t ↦ elim (binance_status t) [ none ↦ old | some status ↦ status ]
  | other ↦ old
]

-- `Decimal(str(value))` where the test of the value asks for it
abbrev pub decimal_or {ℓ} : {A : Type ℓ} → Reader → Bool → Json → (Decimal → A) → A → Result A
decimal_or reader asked value wrap old =
    if asked then elim (to_decimal reader value) [ err e ↦ err e | ok d ↦ ok (wrap d) ] else ok old

-- `_apply_exchange_order_payload`: the order is changed in place, the fields in this order, and a
-- decimal that raises leaves the fields behind it as they were
unfoldable pub apply_exchange_order_payload : Reader → Fields → Exec OrderRecord (Unit {0})
unfolding binance_status
apply_exchange_order_payload reader payload order =
    let executed = get payload "executedQty" in
    let price = get payload "avgPrice" in
    let named = record order {
      exchange_order_id = order_id_of reader payload;
      status = new_status (get payload "status") order.status;
    } in
    elim (decimal_or reader (not (is_none executed)) executed (λ d. d) named.filled_quantity) [
      | err e ↦ (err e, named)
      | ok quantity ↦
          let counted = record named { filled_quantity = quantity } in
          elim (decimal_or reader (not (no_price price)) price some counted.average_fill_price) [
            | err e ↦ (err e, counted)
            | ok average ↦ (ok tt, record counted { average_fill_price = average })
          ]
    ]

-- `[parse(item) for item in items]`
unfoldable pub parse_all : {A : Type 0} → (Fields → Result A) → List Fields → Result (List A)
parse_all parse [] = ok []
parse_all parse (item ∷ items) = elim (parse item) [
  | err e ↦ err e
  | ok a ↦ elim (parse_all parse items) [ err e ↦ err e | ok rest ↦ ok (a ∷ rest) ]
]

-- the test that a payload is a dictionary, and the code behind it
abbrev pub on_object : {A : Type 0} → String → (Fields → Result A) → Json → Result A
on_object what parse (object fields) = parse fields
on_object what parse _ = err (binance_api_error ("expected object payload from " ^+ what))

-- and that it is a list
abbrev pub on_list : {A : Type 0} → String → (List Json → Result A) → Json → Result A
on_list what parse (array items) = parse (listed items)
on_list what parse _ = err (binance_api_error ("expected list payload from " ^+ what))

-- the items of `klines`; an item that is no list is out of the model, and raises
unfoldable pub parse_klines : Reader → List Json → Result (List OhlcBar)
parse_klines reader [] = ok []
parse_klines reader (array items ∷ rest) = elim (parse_kline reader (listed items)) [
  | err e ↦ err e
  | ok bar ↦ elim (parse_klines reader rest) [ err e ↦ err e | ok bars ↦ ok (bar ∷ bars) ]
]
parse_klines reader (_ ∷ rest) = err (type_error "kline payload must be a list")

module _ {W : Type 0} (platform : Platform W) where
  -- a request, and what its payload comes to
  abbrev pub asks :
      {A : Type 0}
      → String
      → String
      → Dict String String
      → Bool
      → (Json → Result A)
      → Exec (Adapter W) A
  asks method path params signed read adapter =
      let (payload, adapter') = request platform method path params signed adapter in
      elim payload [ err e ↦ (err e, adapter') | ok value ↦ (read value, adapter') ]

  abbrev price_params : Option Decimal → Dict String String → Dict String String
  price_params none params = params
  price_params (some price) params =
      params ++ ("price", platform.decimal_text price) ∷ ("timeInForce", "GTC") ∷ []

  -- the parameters of an order
  unfoldable pub order_params : OrderRecord → Dict String String
  order_params order =
      let params = price_params order.intent.price (
        ("symbol", order.intent.symbol)
        ∷ ("side", value order.intent.side)
        ∷ ("type", value order.intent.order_type)
        ∷ ("quantity", platform.decimal_text order.intent.quantity)
        ∷ ("newClientOrderId", order.client_order_id)
        ∷ ("newOrderRespType", "RESULT")
        ∷ []) in
      if order.intent.reduce_only then params ++ ("reduceOnly", "true") ∷ [] else params

  -- the parameters that name an order
  abbrev pub named_order : String → String → Dict String String
  named_order symbol client_order_id =
      ("symbol", symbol) ∷ ("origClientOrderId", client_order_id) ∷ []

  -- the order that a payload is applied to; a payload that is no dictionary has no `get`
  abbrev pub applied : OrderRecord → Json → Result OrderRecord
  applied order (object payload) =
      let (outcome, order') = apply_exchange_order_payload platform.reader payload order in
      elim outcome [ err e ↦ err e | ok _ ↦ ok order' ]
  applied order _ = err (attribute_error "object has no attribute 'get'")

  unfoldable pub submit_order : OrderRecord → Exec (Adapter W) OrderRecord
  unfolding order_params apply_exchange_order_payload
  submit_order order = asks "POST" "/fapi/v1/order" (order_params order) true (applied order)

  unfoldable pub cancel_order : String → String → Exec (Adapter W) (Option OrderRecord)
  cancel_order client_order_id symbol =
      asks "DELETE" "/fapi/v1/order" (named_order symbol client_order_id) true (λ _. ok none)

  unfoldable pub fetch_open_orders : Exec (Adapter W) (List OrderRecord)
  fetch_open_orders = asks "GET" "/fapi/v1/openOrders" [] true (on_list "openOrders" (λ _. ok []))

  unfoldable pub query_order : String → String → Exec (Adapter W) (Option ExchangeOrderSnapshot)
  query_order symbol client_order_id =
      asks "GET" "/fapi/v1/order" (named_order symbol client_order_id) true (
        on_object "query order" (λ payload. elim (parse_order_snapshot platform.reader payload) [
          | err e ↦ err e
          | ok snapshot ↦ ok (some snapshot)
        ]))

  unfoldable pub fetch_account_snapshot : Exec (Adapter W) AccountSnapshotV3
  fetch_account_snapshot =
      asks "GET" "/fapi/v3/account" [] true
        (on_object "account snapshot" (parse_account_snapshot platform.reader))

  -- `{"symbol": symbol} if symbol else {}`
  abbrev pub symbol_params : Option String → Dict String String
  symbol_params none = []
  symbol_params (some symbol) = if str_eq symbol "" then [] else ("symbol", symbol) ∷ []

  unfoldable pub fetch_position_snapshots :
      Option String → Exec (Adapter W) (List ExchangePositionSnapshot)
  unfolding parse_all
  fetch_position_snapshots symbol = asks "GET" "/fapi/v3/positionRisk" (symbol_params symbol) true (
      on_list "positionRisk"
        (λ items. parse_all (parse_position_snapshot platform.reader) (objects items)))

  unfoldable pub fetch_mark_price : String → Exec (Adapter W) Decimal
  fetch_mark_price symbol =
      asks "GET" "/fapi/v1/premiumIndex" (("symbol", symbol) ∷ []) false
        (on_object "premiumIndex" (parse_mark_price platform.reader))

  unfoldable pub fetch_klines : String → String → ℕ → Exec (Adapter W) (List OhlcBar)
  unfolding parse_klines
  fetch_klines symbol interval limit =
      asks "GET" "/fapi/v1/klines"
        (("symbol", symbol) ∷ ("interval", interval) ∷ ("limit", platform.number_text limit) ∷ [])
        false (on_list "klines" (parse_klines platform.reader))

  -- the adapter as the execution package sees it
  unfoldable pub rest_adapter : ExchangeAdapter (Adapter W)
  unfolding submit_order cancel_order fetch_open_orders
  rest_adapter = record {
    get_symbol_filters = get_symbol_filters platform;
    submit_order = submit_order;
    cancel_order = cancel_order;
    fetch_open_orders = fetch_open_orders;
  }
