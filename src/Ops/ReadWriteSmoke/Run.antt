-- ===== src/Ops/ReadWriteSmoke/Run.antt =====
-- The run of ops/testnet_read_write_smoke.py: what it reads, the order, and the reconciliation on
-- stores in memory.
use crypto_dual_sleeve_tradi.Base.{ℕ, String, Bool, false, not, Option, some, List, [], length}
use crypto_dual_sleeve_tradi.Base.Result.{smoke_safety_error, ok, err}
use crypto_dual_sleeve_tradi.Base.Key.{string_key, pair_key}
use crypto_dual_sleeve_tradi.Decimal.{Decimal, nought}
use crypto_dual_sleeve_tradi.Core.Enums.{
  trading_mode_enum, sleeve_id_enum, order_side_enum, position_side_enum, order_type_enum,
  order_action_enum, order_status_enum, safe_mode_state_enum, circuit_action_enum,
}
use crypto_dual_sleeve_tradi.Execution.Reconciliation.{
  reconcile_open_orders, ReconciliationReport, LocalOrderStore,
}
use crypto_dual_sleeve_tradi.Core.Models.{
  ExchangeOrderSnapshot, OrderRecord, ExchangePositionSnapshot, AccountSnapshotV3,
}
use crypto_dual_sleeve_tradi.Ops.ReadWriteSmoke.{
  TestnetReadWriteSmokeResult, live, validate_non_marketable, place, TestnetSmokeOrderConfig,
  resolve_mark_price, validate_runtime, ReadWriteSmokeExchange,
}
use crypto_dual_sleeve_tradi.Storage.Orders.{list_open_orders, OrderTable}
use crypto_dual_sleeve_tradi.Execution.PositionReconciliation.{
  reconcile_positions, refresh, PositionReconciliationReport,
}
use crypto_dual_sleeve_tradi.Execution.SafeMode.{
  allows_new_entries, new_controller, SafeModeController,
}
use crypto_dual_sleeve_tradi.Exchange.Factory.{AdapterChoice, build_exchange_adapter}
use crypto_dual_sleeve_tradi.Execution.PositionReconciliation.Refresh.{sqlite_positions}
use crypto_dual_sleeve_tradi.Config.{RuntimeConfig}
use crypto_dual_sleeve_tradi.Base.Exec.{Exec, ◌>>=◌, ◌>>◌, raise_when, lift, pure, raise}

-- `SQLiteOrderStore` as the reconciler sees it
abbrev pub sqlite_orders : LocalOrderStore OrderTable
sqlite_orders = record { list_open_orders = list_open_orders }

-- the default of `PositionReconciler.amount_tolerance`
abbrev pub amount_tolerance : Decimal
amount_tolerance = nought

-- `run_testnet_read_write_smoke_with_exchange` up to the safe mode: the account, the positions
abbrev pub Read : Type 0
Read = AccountSnapshotV3 × List ExchangePositionSnapshot

abbrev pub Reports : Type 0
Reports = ReconciliationReport × PositionReconciliationReport

module _ {X : Type 0} (decimal_text : Decimal → String) (exchange : ReadWriteSmokeExchange X) where
  unfoldable pub prepare : TestnetSmokeOrderConfig → Bool → Exec X Read
  unfolding resolve_mark_price validate_non_marketable
  prepare config acknowledged = do
    raise_when (not acknowledged)
        (smoke_safety_error "explicit acknowledgement is required before placing a testnet order")
    exchange.adapter.get_symbol_filters config.symbol
    account ← exchange.fetch_account_snapshot
    positions ← exchange.positions.fetch_position_snapshots (some config.symbol)
    mark_price ← resolve_mark_price exchange config.symbol positions
    lift (validate_non_marketable decimal_text config mark_price)
    pure (account, positions)

  -- `_run_reconciliation`, and whether the safe mode is on behind it
  unfoldable pub run_reconciliation : ℕ → SafeModeController → Exec X (Reports × SafeModeController)
  run_reconciliation later safe x =
      let (refreshed, (table, x1)) = refresh sqlite_positions exchange.positions ([], x) in
      elim refreshed [
        | err e ↦ (err e, x1)
        | ok positions ↦
            let (orders_report, (safe1, x2)) =
              reconcile_open_orders sqlite_orders exchange.adapter later [] (safe, x1) in
            let (positions_report, (safe2, x3)) =
              reconcile_positions sqlite_positions exchange.positions amount_tolerance later table
                (safe1, x2) in
            (ok ((orders_report, positions_report), safe2), x3)
      ]

  -- from both queries on
  unfoldable pub report :
      ℕ
      → ℕ
      → TestnetSmokeOrderConfig
      → Read
      → OrderRecord
      → Option ExchangeOrderSnapshot × Option ExchangeOrderSnapshot
      → Exec X TestnetReadWriteSmokeResult
  unfolding run_reconciliation
  report now later config (account, positions) order (some before, some after) = do
    reconciled ← run_reconciliation later (new_controller now)
    pure (record {
      symbol = config.symbol;
      client_order_id = order.client_order_id;
      exchange_order_id = order.exchange_order_id;
      submitted_status = order.status;
      queried_status_before_cancel = before.status;
      queried_status_after_cancel = after.status;
      order_reconciliation_consistent = reconciled.0.0.consistent;
      position_reconciliation_consistent = reconciled.0.1.consistent;
      safe_mode_active = not (allows_new_entries reconciled.1);
      account_total_wallet_balance = account.total_wallet_balance;
      position_count = length positions;
    })
  report now later config read order _ =
      raise (smoke_safety_error "testnet smoke order lifecycle did not complete")

  -- `run_testnet_read_write_smoke_with_exchange`
  unfoldable pub run_with_exchange :
      ℕ → ℕ → TestnetSmokeOrderConfig → Bool → Exec X TestnetReadWriteSmokeResult
  unfolding prepare place live report
  run_with_exchange now later config acknowledged = do
    read ← prepare config acknowledged
    order ← place exchange now config
    queried ← live exchange config.symbol order
    report now later config read order queried

-- `run_testnet_read_write_smoke`: `connect` is the adapter that is built
unfoldable pub run_testnet_read_write_smoke :
    {X : Type 0}
    → (Decimal → String)
    → (AdapterChoice → ReadWriteSmokeExchange X)
    → ℕ
    → ℕ
    → RuntimeConfig
    → TestnetSmokeOrderConfig
    → Bool
    → Exec X TestnetReadWriteSmokeResult
unfolding validate_runtime build_exchange_adapter run_with_exchange
run_testnet_read_write_smoke decimal_text connect now later runtime config acknowledged = do
  lift (validate_runtime runtime)
  raise_when (not acknowledged)
      (smoke_safety_error "explicit acknowledgement is required before placing a testnet order")
  choice ← lift (build_exchange_adapter runtime false)
  run_with_exchange decimal_text (connect choice) now later config acknowledged
