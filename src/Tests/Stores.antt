-- ===== src/Tests/Stores.antt =====
-- The theorems on the two tables at concrete inputs.
use crypto_dual_sleeve_tradi.Storage.Orders.{upsert_order, get_order, list_open_orders}
use crypto_dual_sleeve_tradi.Base.{◌≡◌, refl, [], ◌∷◌, map, keep}
use crypto_dual_sleeve_tradi.Base.Result.{ok}
use crypto_dual_sleeve_tradi.Base.Key.{string_key, pair_key}
use crypto_dual_sleeve_tradi.Base.Dict
use crypto_dual_sleeve_tradi.Base.Dict.{Dict}
use crypto_dual_sleeve_tradi.Storage.Orders.Refinement.{
  list_open-encode, is_open, get-encode, upsert-encode, as_read, as_read?, merge, encode, Orders,
}
use crypto_dual_sleeve_tradi.Storage.Positions.{get_position, PositionTable}
use crypto_dual_sleeve_tradi.Core.Models.{position_key}
use crypto_dual_sleeve_tradi.Execution.PositionReconciliation.{upsert_positions}
use crypto_dual_sleeve_tradi.Tests.Samples.{
  noon, filled_order, entry_order, eth_position, btc_position,
}
use crypto_dual_sleeve_tradi.Execution.PositionReconciliation.Refresh.{
  refresh_get, sqlite_positions,
}
use crypto_dual_sleeve_tradi.Core.Enums.{
  trading_mode_enum, sleeve_id_enum, order_side_enum, position_side_enum, order_type_enum,
  order_action_enum, order_status_enum, safe_mode_state_enum, circuit_action_enum,
}

abbrev pub stored_orders : Orders
stored_orders = (entry_order.client_order_id, entry_order) ∷ []

upsert-encode_example :
    upsert_order filled_order (encode stored_orders)
    ≡ encode (
        Dict.insert filled_order.client_order_id
          (merge (Dict.lookup filled_order.client_order_id stored_orders) filled_order)
          stored_orders)
upsert-encode_example = upsert-encode filled_order stored_orders

get-encode_example :
    get_order noon entry_order.client_order_id (encode stored_orders)
    ≡ ok (as_read? noon (Dict.lookup entry_order.client_order_id stored_orders))
get-encode_example = get-encode noon entry_order.client_order_id stored_orders

list_open-encode_example :
    list_open_orders noon (encode stored_orders)
    ≡ ok (map (as_read noon) (keep is_open (Dict.values stored_orders)))
list_open-encode_example = list_open-encode noon stored_orders

abbrev pub position_rows : PositionTable
position_rows = (position_key btc_position, btc_position) ∷ []

refresh_get_example :
    get_position "BTCUSDT" "BOTH"
      (upsert_positions sqlite_positions (eth_position ∷ []) position_rows)
    ≡ Dict.last_with position_key
        ("BTCUSDT", "BOTH")
        (eth_position ∷ [])
        (get_position "BTCUSDT" "BOTH" position_rows)
refresh_get_example = refresh_get (eth_position ∷ []) "BTCUSDT" "BOTH" position_rows (refl, tt)
