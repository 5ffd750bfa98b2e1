-- ===== src/Exchange/Parsers.antt =====
-- The parsers of exchange/binance_rest.py: a payload to the records of the program. They stand in the
-- order in which they read, so a payload with several faults raises the first.
use crypto_dual_sleeve_tradi.Base.{String, Option, none, some, List, [], ◌∷◌, if◌then◌else◌}
use crypto_dual_sleeve_tradi.Base.Text.{str_eq}
use crypto_dual_sleeve_tradi.Base.Result.{type_error, binance_api_error, Result, ok, err}
use crypto_dual_sleeve_tradi.Base.Key.{string_key, pair_key}
use crypto_dual_sleeve_tradi.Decimal.{Decimal}
use crypto_dual_sleeve_tradi.Core.Enums.{
  expired, rejected, canceled, filled, partially_filled, unknown, submitted, OrderStatus,
  trading_mode_enum, sleeve_id_enum, order_side_enum, position_side_enum, order_type_enum,
  order_action_enum, order_status_enum, safe_mode_state_enum, circuit_action_enum,
}
use crypto_dual_sleeve_tradi.Exchange.Payloads.{
  object, listed, text, objects, str, nil, optional, no_price, to_decimal, is_none, array,
  decimal_field, get, get_default, Json, Fields, Reader,
}
use crypto_dual_sleeve_tradi.Core.Models.{
  ExchangeOrderSnapshot, ExchangePositionSnapshot, AccountSnapshotV3, AccountAssetSnapshot,
}
use crypto_dual_sleeve_tradi.Strategies.Bars.{OhlcBar}
use crypto_dual_sleeve_tradi.Base.Result.{◌>>=◌}

-- `_BINANCE_STATUS_MAP`
unfoldable pub binance_status : String → Option OrderStatus
binance_status status =
    if str_eq status "NEW"
    then some submitted
    else if str_eq status "PARTIALLY_FILLED"
    then some partially_filled
    else if str_eq status "FILLED"
    then some filled
    else if str_eq status "CANCELED"
    then some canceled
    else if str_eq status "REJECTED"
    then some rejected
    else if str_eq status "EXPIRED"
    then some expired
    else none

abbrev pub status_or_unknown : Option OrderStatus → OrderStatus
status_or_unknown none = unknown
status_or_unknown (some status) = status

module _ (reader : Reader) where
  -- an item of `assets`
  unfoldable pub parse_asset : Fields → Result AccountAssetSnapshot
  parse_asset item = do
    wallet_balance ← decimal_field reader item "walletBalance" "0"
    unrealized_profit ← decimal_field reader item "unrealizedProfit" "0"
    margin_balance ← decimal_field reader item "marginBalance" "0"
    available_balance ← optional reader (to_decimal reader) (get item "availableBalance")
    update_time_ms ← optional reader reader.integer (get item "updateTime")
    ok (record {
      asset = str reader (get item "asset");
      wallet_balance = wallet_balance;
      unrealized_profit = unrealized_profit;
      margin_balance = margin_balance;
      available_balance = available_balance;
      update_time_ms = update_time_ms;
    })

  unfoldable pub parse_assets : List Fields → Result (List AccountAssetSnapshot)
  unfolding parse_asset
  parse_assets [] = ok []
  parse_assets (item ∷ items) = do
    asset ← parse_asset item
    assets ← parse_assets items
    ok (asset ∷ assets)

  -- `payload.get("assets", [])`: what is no list cannot be gone through
  abbrev pub asset_items : Fields → Result (List Fields)
  asset_items payload = elim (get_default payload "assets" (array nil)) [
    | array items ↦ ok (objects (listed items))
    | text t ↦ ok []
    | object fields ↦ ok []
    | other ↦ err (type_error "object is not iterable")
  ]

  unfoldable pub parse_account_snapshot : Fields → Result AccountSnapshotV3
  unfolding parse_assets
  parse_account_snapshot payload = do
    items ← asset_items payload
    assets ← parse_assets items
    total_wallet_balance ← decimal_field reader payload "totalWalletBalance" "0"
    total_unrealized_profit ← decimal_field reader payload "totalUnrealizedProfit" "0"
    total_margin_balance ← decimal_field reader payload "totalMarginBalance" "0"
    available_balance ← decimal_field reader payload "availableBalance" "0"
    ok (record {
      total_wallet_balance = total_wallet_balance;
      total_unrealized_profit = total_unrealized_profit;
      total_margin_balance = total_margin_balance;
      available_balance = available_balance;
      assets = assets;
    })

  unfoldable pub parse_position_snapshot : Fields → Result ExchangePositionSnapshot
  parse_position_snapshot payload = do
    position_amt ← decimal_field reader payload "positionAmt" "0"
    entry_price ← optional reader (to_decimal reader) (get payload "entryPrice")
    mark_price ← optional reader (to_decimal reader) (get payload "markPrice")
    unrealized_profit ←
        to_decimal reader (
          get_default payload "unRealizedProfit"
            (get_default payload "unrealizedProfit" (text "0")))
    notional ← decimal_field reader payload "notional" "0"
    isolated_margin ← decimal_field reader payload "isolatedMargin" "0"
    update_time_ms ← optional reader reader.integer (get payload "updateTime")
    ok (record {
      symbol = str reader (get payload "symbol");
      position_side = str reader (get_default payload "positionSide" (text "BOTH"));
      position_amt = position_amt;
      entry_price = entry_price;
      mark_price = mark_price;
      unrealized_profit = unrealized_profit;
      notional = notional;
      isolated_margin = isolated_margin;
      update_time_ms = update_time_ms;
    })

  unfoldable pub parse_mark_price : Fields → Result Decimal
  parse_mark_price payload =
      let mark_price = get payload "markPrice" in
      if is_none mark_price
      then err (binance_api_error "premiumIndex payload missing markPrice")
      else to_decimal reader mark_price

  unfoldable pub parse_kline : List Json → Result OhlcBar
  parse_kline (time ∷ first ∷ highest ∷ lowest ∷ last ∷ rest) = do
    open_price ← to_decimal reader first
    high ← to_decimal reader highest
    low ← to_decimal reader lowest
    close ← to_decimal reader last
    ok (record {
      timestamp = str reader time;
      open_price = open_price;
      high = high;
      low = low;
      close = close;
    })
  parse_kline _ = err (binance_api_error "kline payload must have at least 5 elements")

  unfoldable pub parse_order_snapshot : Fields → Result ExchangeOrderSnapshot
  unfolding binance_status
  parse_order_snapshot payload = do
    let avg_price = get payload "avgPrice"
    average_price ←
        if no_price avg_price then ok none else optional reader (to_decimal reader) avg_price
    executed_quantity ← decimal_field reader payload "executedQty" "0"
    let id = get payload "orderId"
    ok (record {
      client_order_id = str reader (get payload "clientOrderId");
      symbol = str reader (get payload "symbol");
      status = status_or_unknown (binance_status (str reader (get payload "status")));
      exchange_order_id = if is_none id then none else some (str reader id);
      executed_quantity = executed_quantity;
      average_price = average_price;
    })
