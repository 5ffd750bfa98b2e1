-- ===== src/Ops/Periodic.antt =====
-- execution/reconciliation_runner.py and execution/periodic_reconciliation.py: open orders are
-- reconciled again and again, and a mismatch is an alert. `clock n` is the time of the n-th iteration.
pub mod Effects
use crypto_dual_sleeve_tradi.Base.{
  ℕ, zero, suc, ◌+◌, ◌-◌, ◌*◌, ◌≤◌, ◌<◌, String, ◌≡◌, refl, sym, ap, ◌∙◌, ◌≢◌, ◌↔◌, ◌⊎◌, inl, inr,
  Bool, true, false, not, ◌&&◌, ◌||◌, Option, none, some, List, [], ◌∷◌, ◌++◌, map, arith, ltb, leb,
  ◌==◌, if◌then◌else◌, Bool-cases, Option-cases, length, keep, All,
}
use crypto_dual_sleeve_tradi.Base.Text.{tuple_text, ◌^+◌, str_eq, eq_iff}
use crypto_dual_sleeve_tradi.Base.Enum.{is, one_of, value}
use crypto_dual_sleeve_tradi.Base.Result.{Result, ok, err}
use crypto_dual_sleeve_tradi.Base.Key.{Key, string_key, pair_key}
use crypto_dual_sleeve_tradi.Decimal
use crypto_dual_sleeve_tradi.Base.Dict
use crypto_dual_sleeve_tradi.Base.Dict.{Dict}
use crypto_dual_sleeve_tradi.Decimal.{Decimal, nought}
use crypto_dual_sleeve_tradi.Core.Enums.{
  trading_mode_enum, sleeve_id_enum, order_side_enum, position_side_enum, order_type_enum,
  order_action_enum, order_status_enum, safe_mode_state_enum, circuit_action_enum,
}
use crypto_dual_sleeve_tradi.Execution.Reconciliation.{
  reconcile_open_orders, LocalOrderStore, ReconciliationReport,
}
use crypto_dual_sleeve_tradi.Execution.SafeMode.{SafeModeController}
use crypto_dual_sleeve_tradi.Exchange.Interfaces.{ExchangeAdapter}
use crypto_dual_sleeve_tradi.Ops.Alerts.{AlertSink, optional_text}
use crypto_dual_sleeve_tradi.Ops.Loop
use crypto_dual_sleeve_tradi.Ops.Loop.{Outcome, LoopConfig}
use crypto_dual_sleeve_tradi.Base.Exec.{
  Exec, ◌>>=◌, ◌>>◌, raise_when, modify, gets, lift, pure, raise,
}

pub record ReconciliationRunResult : Type 0 where
  pub report : ReconciliationReport
  pub alerted : Bool

-- what the runner works on
pub record Runner (S X A : Type 0) : Type 0 where
  pub orders : S
  pub safe : SafeModeController
  pub exchange : X
  pub alerts : A

abbrev pub alert_text : ReconciliationReport → String
alert_text report =
    "RECONCILIATION_MISMATCH missing="
    ^+ tuple_text report.missing_on_exchange
    ^+ " unknown="
    ^+ tuple_text report.unknown_on_local
    ^+ " status="
    ^+ tuple_text report.status_mismatches
    ^+ " error="
    ^+ optional_text report.error

module _ {S X A : Type 0} (store : LocalOrderStore S) (adapter : ExchangeAdapter X)
    (sink : AlertSink A) where
  -- `ReconciliationRunner.run_once`
  unfoldable pub run_once : ℕ → Exec (Runner S X A) ReconciliationRunResult
  run_once now runner =
      let (report, (safe, x)) =
        reconcile_open_orders store adapter now runner.orders (runner.safe, runner.exchange) in
      (
        ok (record { report = report; alerted = not report.consistent }),
        record runner {
          safe = safe;
          exchange = x;
          alerts =
              if report.consistent
              then runner.alerts
              else sink.send (alert_text report) runner.alerts;
        },
      )

  -- `PeriodicReconciliationLoop.run`
  unfoldable pub run :
      LoopConfig
      → (ℕ → ℕ)
      → (ℕ → Runner S X A → Runner S X A)
      → ℕ
      → Runner S X A
      → Outcome ReconciliationRunResult × Runner S X A
  unfolding run_once
  run config clock pause fuel runner =
      Loop.run config (λ n. run_once (clock n)) (λ result. result.report.consistent) pause fuel
        runner
