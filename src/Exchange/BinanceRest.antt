-- ===== src/Exchange/BinanceRest.antt =====
-- exchange/binance_rest.py: the filters of the symbols, and their cache.
pub mod Cache
use crypto_dual_sleeve_tradi.Base.{
  String, Bool, false, not, Option, none, some, List, [], ◌∷◌, if◌then◌else◌,
}
use crypto_dual_sleeve_tradi.Base.Text.{◌^+◌, str_eq}
use crypto_dual_sleeve_tradi.Base.Enum.{value}
use crypto_dual_sleeve_tradi.Base.Result.{
  attribute_error, type_error, binance_api_error, Result, ok, err,
}
use crypto_dual_sleeve_tradi.Base.Key.{string_key, pair_key}
use crypto_dual_sleeve_tradi.Base.Dict
use crypto_dual_sleeve_tradi.Base.Dict.{Dict}
use crypto_dual_sleeve_tradi.Exchange.Payloads.{
  str, listed, to_decimal, objects, decimal_field, nil, object, text, truthy, array, end, Json,
  get_default, get, Fields,
}
use crypto_dual_sleeve_tradi.Exchange.Requests.{Adapter, request, Platform}
use crypto_dual_sleeve_tradi.Core.Models.{SymbolFilters}
use crypto_dual_sleeve_tradi.Base.Exec.{Exec}
use crypto_dual_sleeve_tradi.Core.Enums.{
  trading_mode_enum, sleeve_id_enum, order_side_enum, position_side_enum, order_type_enum,
  order_action_enum, order_status_enum, safe_mode_state_enum, circuit_action_enum,
}

-- `parse_symbol_filters`: a filter type is a text
abbrev pub has_type : String → Fields → Bool
has_type kind item = elim (get item "filterType") [ text t ↦ str_eq t kind | other ↦ false ]

-- `by_type.get(kind, {})`: of several items of a type, the last
unfoldable pub filter_of : String → Fields → List Fields → Fields
filter_of kind found [] = found
filter_of kind found (item ∷ items) =
    filter_of kind (if has_type kind item then item else found) items

-- `a or b` of two dictionaries
abbrev pub or_else : Fields → Fields → Fields
or_else end other = other
or_else fields other = fields

-- the value of `filters` when it is a list
abbrev pub filter_items : Fields → Option (List Fields)
filter_items symbol_info = elim (get_default symbol_info "filters" (array nil)) [
  | array items ↦ some (objects (listed items))
  | other ↦ none
]

module _ {W : Type 0} (platform : Platform W) where
  unfoldable pub parse_symbol_filters : Fields → Result (Option SymbolFilters)
  unfolding filter_of
  parse_symbol_filters symbol_info =
      if not (truthy (get symbol_info "symbol")) then ok none else elim (filter_items symbol_info) [
        | none ↦ ok none
        | some items ↦
            let notional =
              or_else (filter_of "MIN_NOTIONAL" end items) (filter_of "NOTIONAL" end items) in
            let least =
              get_default notional "notional" (get_default notional "minNotional" (text "5")) in
            elim (decimal_field platform.reader (filter_of "PRICE_FILTER" end items) "tickSize"
              "0.01") [
                | err e ↦ err e
                | ok tick_size ↦
                    elim (decimal_field platform.reader (filter_of "LOT_SIZE" end items) "stepSize"
                      "0.001") [
                        | err e ↦ err e
                        | ok step_size ↦ elim (to_decimal platform.reader least) [
                          | err e ↦ err e
                          | ok min_notional ↦ ok (
                              some (record {
                                symbol = str platform.reader (get symbol_info "symbol");
                                tick_size = tick_size;
                                step_size = step_size;
                                min_notional = min_notional;
                              }))
                        ]
                      ]
              ]
      ]

  -- the loop of `_load_exchange_info`
  unfoldable pub collect_filters :
      List Json → Dict String SymbolFilters → Result (Dict String SymbolFilters)
  unfolding parse_symbol_filters
  collect_filters [] filters = ok filters
  collect_filters (object symbol_info ∷ rest) filters = elim (parse_symbol_filters symbol_info) [
    | err e ↦ err e
    | ok none ↦ collect_filters rest filters
    | ok (some parsed) ↦ collect_filters rest (Dict.insert parsed.symbol parsed filters)
  ]
  collect_filters (_ ∷ rest) filters = err (attribute_error "object has no attribute 'get'")

  -- the value of `symbols`
  abbrev pub symbol_items : Json → Result (List Json)
  symbol_items (object fields) = elim (get_default fields "symbols" (array nil)) [
    | array items ↦ ok (listed items)
    | object end ↦ ok []
    | object more ↦ err (attribute_error "object has no attribute 'get'")
    | text t ↦ if str_eq t "" then ok [] else err (attribute_error "object has no attribute 'get'")
    | other ↦ err (type_error "object is not iterable")
  ]
  symbol_items _ = ok []

  -- `_load_exchange_info`
  unfoldable pub load_exchange_info : Exec (Adapter W) (Unit {0})
  unfolding collect_filters request
  load_exchange_info adapter =
      let (payload, adapter') = request platform "GET" "/fapi/v1/exchangeInfo" [] false adapter in
      elim payload [
        | err e ↦ (err e, adapter')
        | ok value ↦ elim (symbol_items value) [
          | err e ↦ (err e, adapter')
          | ok items ↦ elim (collect_filters items []) [
            | err e ↦ (err e, adapter')
            | ok filters ↦ (ok tt, record adapter' { filters_cache = filters })
          ]
        ]
      ]

  -- `self._filters_cache[symbol]`
  abbrev pub cached : String → Adapter W → Result SymbolFilters
  cached symbol adapter = elim (Dict.lookup symbol adapter.filters_cache) [
    | some filters ↦ ok filters
    | none ↦ err (binance_api_error ("symbol not found in exchangeInfo: " ^+ symbol))
  ]

  unfoldable pub get_symbol_filters : String → Exec (Adapter W) SymbolFilters
  unfolding load_exchange_info
  get_symbol_filters symbol adapter = elim (Dict.lookup symbol adapter.filters_cache) [
    | some filters ↦ (ok filters, adapter)
    | none ↦
        let (loaded, adapter') = load_exchange_info adapter in
        elim loaded [ err e ↦ (err e, adapter') | ok _ ↦ (cached symbol adapter', adapter') ]
  ]
