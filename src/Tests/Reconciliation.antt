-- ===== src/Tests/Reconciliation.antt =====
-- The theorems on reconciliation and repair at concrete inputs.
use crypto_dual_sleeve_tradi.Storage.Orders.{OrderTable, list_open_orders}
use crypto_dual_sleeve_tradi.Exchange.Inert.{
  inert_adapter, InertExchange, query_order, fetch_position_snapshots,
}
use crypto_dual_sleeve_tradi.Execution.Reconciliation.Verdict
use crypto_dual_sleeve_tradi.Execution.PositionReconciliation.Verdict as PositionVerdict
use crypto_dual_sleeve_tradi.Base.{
  refl, ◌+◌, ◌+◌, some, none, String, ◌≡◌, ◌↔◌, true, List, [], ◌∷◌,
}
use crypto_dual_sleeve_tradi.Base.Key.{string_key, pair_key}
use crypto_dual_sleeve_tradi.Decimal
use crypto_dual_sleeve_tradi.Base.Dict
use crypto_dual_sleeve_tradi.Base.Dict.{Dict}
use crypto_dual_sleeve_tradi.Decimal.{Decimal, nought}
use crypto_dual_sleeve_tradi.Core.Models.{
  ExchangeOrderSnapshot, position_key, ExchangePositionSnapshot, OrderRecord,
}
use crypto_dual_sleeve_tradi.Execution.Reconciliation.{
  reconcile_open_orders, LocalOrderStore, order_id, compare_orders,
}
use crypto_dual_sleeve_tradi.Execution.PositionReconciliation.{
  refresh, reconcile_positions, PositionExchange, compare_positions,
}
use crypto_dual_sleeve_tradi.Tests.Samples.{
  noon, quiet, empty_exchange, eth_position, btc_position, filled_order, entry_order,
}
use crypto_dual_sleeve_tradi.Execution.Reconciliation.Verdict.{
  OrdersMatch, report_members, reconcile_safe_mode, consistent_iff,
}
use crypto_dual_sleeve_tradi.Execution.PositionReconciliation.Verdict.{
  AmountsMatch, reconcile_positions_safe_mode, position_report_members, consistent_positions_iff,
}
use crypto_dual_sleeve_tradi.Execution.Repair.{
  consistent, RepairRecommendation, repair_by_client_order_id, OrderQueryAdapter,
}
use crypto_dual_sleeve_tradi.Execution.Repair.Settles.{repair_settles, sqlite_store}
use crypto_dual_sleeve_tradi.Execution.Repair.Effects.{repair_safe_mode, Reported}
use crypto_dual_sleeve_tradi.Tests.Stores.{position_rows, stored_orders}
use crypto_dual_sleeve_tradi.Base.Result.{ok}
use crypto_dual_sleeve_tradi.Execution.PositionReconciliation.Refresh.{
  refresh_consistent, sqlite_positions, Fresh,
}
use crypto_dual_sleeve_tradi.Storage.Orders.Refinement.{encode}
use crypto_dual_sleeve_tradi.Core.Enums.{
  filled, trading_mode_enum, sleeve_id_enum, order_side_enum, position_side_enum, order_type_enum,
  order_action_enum, order_status_enum, safe_mode_state_enum, circuit_action_enum,
}

abbrev locals : List OrderRecord
locals = entry_order ∷ []

abbrev remotes : List OrderRecord
remotes = filled_order ∷ []

consistent_iff_example : ((compare_orders locals remotes).consistent ≡ true) ↔ (
    (id : String)
    → OrdersMatch (Dict.last_of order_id id locals) (Dict.last_of order_id id remotes))
consistent_iff_example = consistent_iff locals remotes

abbrev held : List ExchangePositionSnapshot
held = btc_position ∷ eth_position ∷ []

abbrev tolerance : Decimal
tolerance = Decimal.literal 1 8

-- the same positions, one of them with an amount that is larger
abbrev shifted : List ExchangePositionSnapshot
shifted = record btc_position { position_amt = Decimal.literal 77 1 } ∷ eth_position ∷ []

consistent_positions_iff_example :
    ((compare_positions tolerance held shifted).consistent ≡ true) ↔ (
      (key : String × String)
      → AmountsMatch tolerance
          (Dict.last_of position_key key held)
          (Dict.last_of position_key key shifted))
consistent_positions_iff_example = consistent_positions_iff tolerance held shifted

abbrev pub order_table : LocalOrderStore OrderTable
order_table = record { list_open_orders = list_open_orders }

abbrev pub inert_positions : PositionExchange InertExchange
inert_positions = record { fetch_position_snapshots = fetch_position_snapshots }

abbrev pub inert_queries : OrderQueryAdapter InertExchange
inert_queries = record { query_order = query_order }

reconcile_safe_mode_example :
    let (report, (safe, _)) =
      reconcile_open_orders order_table inert_adapter noon
        (encode stored_orders)
        (quiet, empty_exchange) in
    Verdict.Settles quiet (report, safe)
reconcile_safe_mode_example =
    reconcile_safe_mode order_table inert_adapter noon (encode stored_orders) quiet empty_exchange

reconcile_positions_safe_mode_example :
    let (report, (safe, _)) =
      reconcile_positions sqlite_positions inert_positions tolerance noon position_rows
        (quiet, empty_exchange) in
    PositionVerdict.Settles quiet (report, safe)
reconcile_positions_safe_mode_example =
    reconcile_positions_safe_mode sqlite_positions inert_positions tolerance noon position_rows
      quiet empty_exchange

-- an exchange that has filled the order
abbrev filled_exchange : InertExchange
filled_exchange = record empty_exchange {
  orders = (filled_order.client_order_id, filled_order) ∷ [];
}

repair_safe_mode_example : Reported quiet (encode stored_orders) (
    repair_by_client_order_id sqlite_store inert_queries noon "an id"
      (record { safe = quiet; store = encode stored_orders; exchange = filled_exchange }))
repair_safe_mode_example =
    repair_safe_mode sqlite_store inert_queries noon "an id"
      (record { safe = quiet; store = encode stored_orders; exchange = filled_exchange })

abbrev filled_snapshot : ExchangeOrderSnapshot
filled_snapshot = record {
  client_order_id = filled_order.client_order_id;
  symbol = "BTCUSDT";
  status = filled;
  exchange_order_id = none;
  executed_quantity = Decimal.literal 2 0;
  average_price = none;
}

is_stored : Dict.lookup entry_order.client_order_id stored_orders ≡ some entry_order
unfolding Dict.lookup
is_stored = refl

answers :
    (query_order "BTCUSDT" entry_order.client_order_id filled_exchange).0
    ≡ ok (some filled_snapshot)
unfolding query_order Dict.lookup
answers = refl

answers_again :
    (query_order "BTCUSDT" entry_order.client_order_id
      (query_order "BTCUSDT" entry_order.client_order_id filled_exchange).1).0
    ≡ ok (some filled_snapshot)
unfolding query_order Dict.lookup
answers_again = refl

repair_settles_example :
    let first =
      (repair_by_client_order_id sqlite_store inert_queries noon entry_order.client_order_id
        (record { safe = quiet; store = encode stored_orders; exchange = filled_exchange })).1 in
    let (result, second) =
      repair_by_client_order_id sqlite_store inert_queries
        (noon + 1)
        entry_order.client_order_id
        first in
    (r : RepairRecommendation) × (result ≡ ok r)
    × (r.reason ≡ consistent)
    × (second.store ≡ first.store)
    × (second.safe ≡ first.safe)
repair_settles_example =
    repair_settles inert_queries noon (noon + 1) stored_orders quiet filled_exchange entry_order
      filled_snapshot is_stored answers answers_again refl

abbrev holding : InertExchange
holding = record empty_exchange { positions = held }

tolerates : Decimal.le nought tolerance ≡ true
unfolding Decimal.le
tolerates = refl

fetches : (fetch_position_snapshots none holding).0 ≡ ok held
unfolding fetch_position_snapshots
fetches = refl

fetches_again :
    (fetch_position_snapshots none (fetch_position_snapshots none holding).1).0 ≡ ok held
unfolding fetch_position_snapshots
fetches_again = refl

held-Fresh : Fresh [] held
unfolding Dict.member
held-Fresh = (refl, (refl, tt))

refresh_consistent_example :
    let (table, rest) = (refresh sqlite_positions inert_positions ([], holding)).1 in
    (reconcile_positions sqlite_positions inert_positions tolerance noon table
      (quiet, rest)).0.consistent
    ≡ true
refresh_consistent_example =
    refresh_consistent inert_positions held tolerance noon quiet holding tolerates held-Fresh
      fetches fetches_again
