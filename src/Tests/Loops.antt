-- ===== src/Tests/Loops.antt =====
-- The theorems on the daemon and the periodic reconciliation at concrete inputs.
use crypto_dual_sleeve_tradi.Base.{
  ℕ, suc, ◌+◌, String, refl, Bool, true, some, List, [], arith, ◌==◌,
}
use crypto_dual_sleeve_tradi.Base.Result.{ok}
use crypto_dual_sleeve_tradi.Base.Key.{string_key, pair_key}
use crypto_dual_sleeve_tradi.Decimal
use crypto_dual_sleeve_tradi.Decimal.{Decimal, nought}
use crypto_dual_sleeve_tradi.Core.Enums.{
  trading_mode_enum, sleeve_id_enum, order_side_enum, position_side_enum, order_type_enum,
  order_action_enum, order_status_enum, safe_mode_state_enum, circuit_action_enum,
}
use crypto_dual_sleeve_tradi.Ops.Daemon as DaemonProgram
use crypto_dual_sleeve_tradi.Ops.Daemon.{DaemonConfig, run_once, consistent, Daemon}
use crypto_dual_sleeve_tradi.Base.Exec.{Exec}
use crypto_dual_sleeve_tradi.Ops.Loop.Bounds.{Latched, run-Kept, Kept}
use crypto_dual_sleeve_tradi.Storage.Orders.{OrderTable}
use crypto_dual_sleeve_tradi.Ops.Alerts.{console, AlertSink}
use crypto_dual_sleeve_tradi.Ops.Daemon.Effects.{daemon_latch, once-Leaves, Leaves}
use crypto_dual_sleeve_tradi.Tests.Reconciliation.{inert_positions, order_table}
use crypto_dual_sleeve_tradi.Ops.Periodic.{Runner}
use crypto_dual_sleeve_tradi.Storage.Positions.{PositionTable}
use crypto_dual_sleeve_tradi.Execution.PositionReconciliation.Refresh.{sqlite_positions}
use crypto_dual_sleeve_tradi.Exchange.Inert.{inert_adapter, InertExchange}
use crypto_dual_sleeve_tradi.Storage.Orders.Refinement.{encode}
use crypto_dual_sleeve_tradi.Tests.Samples.{empty_exchange, quiet, noon}
use crypto_dual_sleeve_tradi.Tests.Stores.{position_rows, stored_orders}
use crypto_dual_sleeve_tradi.Execution.SafeMode.{allows_new_entries}
use crypto_dual_sleeve_tradi.Ops.Loop.{LoopConfig, run}

abbrev twice : LoopConfig
twice = record { interval_seconds = 30; max_iterations = some 2; stop_on_mismatch = true }

-- a loop whose second iteration is a mismatch
abbrev countdown : ℕ → Exec ℕ Bool
countdown n w = (ok (n == 0), suc w)

run-Kept_example : Kept (λ b. b) true 2 (run twice countdown (λ b. b) (λ _ w. w) 3 0).0
run-Kept_example = run-Kept twice countdown (λ b. b) (λ _ w. w) 2 3 0 refl (omega arith)

abbrev daemon : Daemon OrderTable PositionTable InertExchange (List String)
daemon = record {
  orders = encode stored_orders;
  positions = position_rows;
  safe = quiet;
  exchange = empty_exchange;
  alerts = [];
}

abbrev sink : AlertSink (List String)
sink = console "[dual-sleeve]"

once-Leaves_example :
    Leaves order_table sqlite_positions inert_adapter inert_positions sink
      (Decimal.literal 1 8)
      daemon
      (run_once order_table sqlite_positions inert_adapter inert_positions sink
        (Decimal.literal 1 8)
        true
        noon
        daemon)
once-Leaves_example =
    once-Leaves order_table sqlite_positions inert_adapter inert_positions sink
      (Decimal.literal 1 8) true noon daemon

abbrev daemon_config : DaemonConfig
daemon_config = record { loop = twice; refresh_positions_before_reconcile = true }

daemon_latch_example :
    let (o, after) =
      DaemonProgram.run order_table sqlite_positions inert_adapter inert_positions sink
        (Decimal.literal 1 8)
        daemon_config
        (λ n. noon + n)
        (λ _ d. d)
        3
        daemon in
    Latched consistent (allows_new_entries daemon.safe) (allows_new_entries after.safe) o
daemon_latch_example =
    daemon_latch order_table sqlite_positions inert_adapter inert_positions sink
      (Decimal.literal 1 8) daemon_config (λ n. noon + n) (λ _ d. d) 3 daemon (λ n w. refl)

abbrev runner : Runner OrderTable InertExchange (List String)
runner = record {
  orders = encode stored_orders;
  safe = quiet;
  exchange = empty_exchange;
  alerts = [];
}
