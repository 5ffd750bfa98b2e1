-- ===== src/Tests/Smoke.antt =====
-- The theorems on the order that the read-write run places, at concrete inputs.
use crypto_dual_sleeve_tradi.Base.{
  ◌⊎◌, ◌⊎◌, refl, false, ◌≡◌, ◌≡◌, String, true, not, Option, none, some, List, [], keep,
}
use crypto_dual_sleeve_tradi.Base.Enum.{is}
use crypto_dual_sleeve_tradi.Base.Result.{err, Exception, ok}
use crypto_dual_sleeve_tradi.Base.Key.{string_key, pair_key}
use crypto_dual_sleeve_tradi.Decimal
use crypto_dual_sleeve_tradi.Base.Dict
use crypto_dual_sleeve_tradi.Base.Dict.{Dict}
use crypto_dual_sleeve_tradi.Decimal.{Decimal, nought}
use crypto_dual_sleeve_tradi.Core.Enums.{
  submitted, buy, canceled, trading_mode_enum, sleeve_id_enum, order_side_enum, position_side_enum,
  order_type_enum, order_action_enum, order_status_enum, safe_mode_state_enum, circuit_action_enum,
}
use crypto_dual_sleeve_tradi.Exchange.Inert
use crypto_dual_sleeve_tradi.Core.Models.{AccountSnapshotV3, OrderRecord}
use crypto_dual_sleeve_tradi.Base.Exec.{Exec}
use crypto_dual_sleeve_tradi.Ops.ReadWriteSmoke.Run.{Read, prepare, run_with_exchange}
use crypto_dual_sleeve_tradi.Exchange.Inert.{InertExchange}
use crypto_dual_sleeve_tradi.Tests.Reconciliation.{inert_positions}
use crypto_dual_sleeve_tradi.Tests.Samples.{empty_exchange, noon}
use crypto_dual_sleeve_tradi.Ops.ReadWriteSmoke.Passes.{smoke_passes, Passed}
use crypto_dual_sleeve_tradi.Ops.ReadWriteSmoke.Cancels.{smoke-Cancels, Cancels}
use crypto_dual_sleeve_tradi.Ops.ReadWriteSmoke.Guard.{smoke_guard, Prepared}
use crypto_dual_sleeve_tradi.Ops.ReadWriteSmoke.{
  is_ok, intent_of, TestnetReadWriteSmokeResult, TestnetSmokeOrderConfig, ReadWriteSmokeExchange,
  place,
}

-- an exchange that keeps a canceled order
abbrev mark_canceled : OrderRecord → OrderRecord
mark_canceled order = record order { status = canceled }

abbrev cancel_kept : String → String → Exec InertExchange (Option OrderRecord)
cancel_kept client_order_id symbol x = elim (Dict.lookup client_order_id x.orders) [
  | none ↦ (ok none, x)
  | some order ↦ (
    ok (some (mark_canceled order)),
    record x { orders = Dict.insert client_order_id (mark_canceled order) x.orders },
  )
]

abbrev open_kept : Exec InertExchange (List OrderRecord)
open_kept x = (ok (keep (λ order. not (is order.status canceled)) (Dict.values x.orders)), x)

abbrev account : AccountSnapshotV3
account = record {
  total_wallet_balance = Decimal.literal 1000 0;
  total_unrealized_profit = nought;
  total_margin_balance = Decimal.literal 1000 0;
  available_balance = Decimal.literal 1000 0;
  assets = [];
}

abbrev exchange : ReadWriteSmokeExchange InertExchange
exchange = record {
  adapter = record {
    get_symbol_filters = Inert.get_symbol_filters;
    submit_order = Inert.submit_order;
    cancel_order = cancel_kept;
    fetch_open_orders = open_kept;
  };
  positions = inert_positions;
  fetch_account_snapshot = λ x. (ok account, x);
  fetch_mark_price = λ symbol x. (ok (Decimal.literal 100 0), x);
  query_order = Inert.query_order;
}

abbrev order_config : TestnetSmokeOrderConfig
order_config = record {
  symbol = "BTCUSDT";
  side = buy;
  quantity = Decimal.literal 1 0;
  limit_price = Decimal.literal 70 0;
  setup_id = "smoke010";
  non_marketable_margin = Decimal.literal 2 1;
  require_non_marketable = true;
}

abbrev no_text : Decimal → String
no_text d = ""

abbrev result : TestnetReadWriteSmokeResult
result = record {
  symbol = "BTCUSDT";
  client_order_id = "B_smoke010_EN_20231114221320";
  exchange_order_id = none;
  submitted_status = submitted;
  queried_status_before_cancel = submitted;
  queried_status_after_cancel = canceled;
  order_reconciliation_consistent = true;
  position_reconciliation_consistent = true;
  safe_mode_active = false;
  account_total_wallet_balance = Decimal.literal 1000 0;
  position_count = 0;
}

abbrev order : OrderRecord
order = record {
  client_order_id = "B_smoke010_EN_20231114221320";
  intent = record (intent_of order_config) {
    quantity = Decimal.literal 1000 3;
    price = some (Decimal.literal 7000 2);
  };
  status = submitted;
  exchange_order_id = none;
  filled_quantity = nought;
  average_fill_price = none;
  created_at = noon;
  updated_at = noon;
}

runs : (run_with_exchange no_text exchange noon noon order_config true empty_exchange).0 ≡ ok result
unfolding run_with_exchange Inert.get_symbol_filters Inert.fetch_position_snapshots Decimal.le
    Decimal.lt Decimal.mul Decimal.sub crypto_dual_sleeve_tradi.Execution.Router.route
    crypto_dual_sleeve_tradi.Execution.SafeMode.allows_new_entries
    crypto_dual_sleeve_tradi.Exchange.Filters.normalize_order_intent Dict.lookup Decimal.div
    crypto_dual_sleeve_tradi.Exchange.Filters.round_price_to_tick Decimal.to_integral_down
    crypto_dual_sleeve_tradi.Execution.OrderState.transition
    crypto_dual_sleeve_tradi.Core.Models.new_order Dict.index_by Dict.insert Dict.keys Dict.values
    crypto_dual_sleeve_tradi.Base.Sorted.sorted crypto_dual_sleeve_tradi.Execution.Diff.mismatched
    crypto_dual_sleeve_tradi.Execution.Diff.only_in
    crypto_dual_sleeve_tradi.Execution.OrderIds.clock_text
    crypto_dual_sleeve_tradi.Execution.OrderIds.first_chars
    crypto_dual_sleeve_tradi.Execution.OrderIds.make_client_order_id
    crypto_dual_sleeve_tradi.Execution.OrderIds.timestamp_text
    crypto_dual_sleeve_tradi.Execution.PositionReconciliation.compare_positions
    crypto_dual_sleeve_tradi.Execution.PositionReconciliation.reconcile_positions
    crypto_dual_sleeve_tradi.Execution.PositionReconciliation.refresh
    crypto_dual_sleeve_tradi.Execution.Reconciliation.compare_orders
    crypto_dual_sleeve_tradi.Execution.Reconciliation.reconcile_open_orders
    crypto_dual_sleeve_tradi.Storage.Orders.list_open_orders
    crypto_dual_sleeve_tradi.Storage.Orders.read_rows
    crypto_dual_sleeve_tradi.Storage.Positions.list_positions Inert.submit_order Inert.query_order
runs = refl

passes : is_ok result ≡ true
unfolding is_ok
passes = refl

smoke_passes_example : Passed no_text exchange noon order_config true empty_exchange result
smoke_passes_example =
    smoke_passes no_text exchange noon noon order_config true empty_exchange result runs passes

prepares : (prepare no_text exchange order_config true empty_exchange).0 ≡ ok (account, [])
unfolding run_with_exchange Inert.get_symbol_filters Inert.fetch_position_snapshots Decimal.le
    Decimal.lt Decimal.mul Decimal.sub
prepares = refl

places :
    (place exchange noon order_config
      (prepare no_text exchange order_config true empty_exchange).1).0
    ≡ ok order
unfolding run_with_exchange Inert.get_symbol_filters Inert.fetch_position_snapshots Decimal.le
    Decimal.lt Decimal.mul Decimal.sub crypto_dual_sleeve_tradi.Execution.Router.route
    crypto_dual_sleeve_tradi.Execution.SafeMode.allows_new_entries
    crypto_dual_sleeve_tradi.Exchange.Filters.normalize_order_intent Dict.lookup Decimal.div
    crypto_dual_sleeve_tradi.Exchange.Filters.round_price_to_tick Decimal.to_integral_down
    crypto_dual_sleeve_tradi.Execution.OrderState.transition
    crypto_dual_sleeve_tradi.Core.Models.new_order
    crypto_dual_sleeve_tradi.Execution.OrderIds.clock_text
    crypto_dual_sleeve_tradi.Execution.OrderIds.first_chars
    crypto_dual_sleeve_tradi.Execution.OrderIds.make_client_order_id
    crypto_dual_sleeve_tradi.Execution.OrderIds.timestamp_text Inert.submit_order
places = refl

smoke-Cancels_example :
    Cancels no_text exchange noon noon order_config
      (account, [])
      order
      (place exchange noon order_config
        (prepare no_text exchange order_config true empty_exchange).1).1
      (run_with_exchange no_text exchange noon noon order_config true empty_exchange)
smoke-Cancels_example =
    smoke-Cancels no_text exchange noon noon order_config true empty_exchange (account, []) order
      prepares places

smoke_guard_example :
    ((e : Exception) × ((prepare no_text exchange order_config true empty_exchange).0 ≡ err e)
      × (run_with_exchange no_text exchange noon noon order_config true empty_exchange
          ≡ (err e, (prepare no_text exchange order_config true empty_exchange).1)))
    ⊎ ((read : Read) × ((prepare no_text exchange order_config true empty_exchange).0 ≡ ok read)
        × Prepared no_text exchange order_config true empty_exchange read)
smoke_guard_example = smoke_guard no_text exchange noon noon order_config true empty_exchange
