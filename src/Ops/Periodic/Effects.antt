-- ===== src/Ops/Periodic/Effects.antt =====
-- What execution/reconciliation_runner.py and its loop do to the safe mode and the alerts.
use crypto_dual_sleeve_tradi.Ops.Periodic.{alert_text, ReconciliationRunResult, Runner, run_once}
use crypto_dual_sleeve_tradi.Base.{if◌then◌else◌, ℕ, ◌≡◌, refl, not, ◌&&◌, arith}
use crypto_dual_sleeve_tradi.Base.Result.{ok}
use crypto_dual_sleeve_tradi.Base.Key.{string_key, pair_key}
use crypto_dual_sleeve_tradi.Execution.Reconciliation.{reconcile_open_orders, LocalOrderStore}
use crypto_dual_sleeve_tradi.Exchange.Interfaces.{ExchangeAdapter}
use crypto_dual_sleeve_tradi.Ops.Alerts.{AlertSink}
use crypto_dual_sleeve_tradi.Execution.SafeMode.{allows_new_entries}
use crypto_dual_sleeve_tradi.Execution.Reconciliation.Verdict.{reconcile_safe_mode}
use crypto_dual_sleeve_tradi.Core.Enums.{
  trading_mode_enum, sleeve_id_enum, order_side_enum, position_side_enum, order_type_enum,
  order_action_enum, order_status_enum, safe_mode_state_enum, circuit_action_enum,
}

module _ {S X A : Type 0} (store : LocalOrderStore S) (adapter : ExchangeAdapter X)
    (sink : AlertSink A) where
  -- A run of the runner always returns. It alerts exactly if the report is not consistent, and says
  -- so in its result; then the safe mode is on behind it, and else as it was before.
  pub runner_alerts :
      (now : ℕ) (runner : Runner S X A)
      → let (r, after) = run_once store adapter sink now runner in
        (result : ReconciliationRunResult) × (r ≡ ok result)
        × (result.alerted ≡ not result.report.consistent)
        × (allows_new_entries after.safe ≡ (allows_new_entries runner.safe && not result.alerted))
        × (after.alerts ≡ (
            if result.alerted
            then sink.send (alert_text result.report) runner.alerts
            else runner.alerts))
        × (after.orders ≡ runner.orders)
  unfolding run_once
  runner_alerts now runner =
      let (report, after) =
        reconcile_open_orders store adapter now runner.orders (runner.safe, runner.exchange) in
      let (allowed, _, _) =
        reconcile_safe_mode store adapter now runner.orders runner.safe runner.exchange in
      (
        record { report = report; alerted = not report.consistent },
        refl,
        refl,
        ground arith,
        ground arith,
        refl,
      )
