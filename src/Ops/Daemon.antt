-- ===== src/Ops/Daemon.antt =====
-- ops/daemon.py: orders and positions are reconciled again and again. `clock n` is the time of the
-- n-th iteration; of `build_daemon_runner` the parts that it puts together are here.
pub mod Effects
use crypto_dual_sleeve_tradi.Base.{
  ℕ, zero, suc, ◌+◌, ◌-◌, ◌*◌, ◌≤◌, ◌<◌, String, ◌≡◌, refl, sym, ap, ◌∙◌, ◌≢◌, ◌↔◌, ◌⊎◌, inl, inr,
  Bool, true, false, not, ◌&&◌, ◌||◌, Option, none, some, List, [], ◌∷◌, ◌++◌, map, arith, ltb, leb,
  ◌==◌, if◌then◌else◌, Bool-cases, Option-cases, length, keep, All,
}
use crypto_dual_sleeve_tradi.Base.Text.{◌^+◌, str_eq, eq_iff}
use crypto_dual_sleeve_tradi.Base.Enum.{is, one_of, value}
use crypto_dual_sleeve_tradi.Base.Result.{Result, ok, err}
use crypto_dual_sleeve_tradi.Base.Key.{Key, string_key, pair_key}
use crypto_dual_sleeve_tradi.Decimal
use crypto_dual_sleeve_tradi.Base.Dict
use crypto_dual_sleeve_tradi.Base.Dict.{Dict}
use crypto_dual_sleeve_tradi.Decimal.{Decimal, nought}
use crypto_dual_sleeve_tradi.Core.Enums.{
  trading_mode_enum, sleeve_id_enum, order_side_enum, position_side_enum, order_type_enum,
  order_action_enum, order_status_enum, safe_mode_state_enum, circuit_action_enum,
}
use crypto_dual_sleeve_tradi.Ops.Loop
use crypto_dual_sleeve_tradi.Ops.Loop.{Outcome, LoopConfig}
use crypto_dual_sleeve_tradi.Execution.Reconciliation.{
  reconcile_open_orders, LocalOrderStore, ReconciliationReport,
}
use crypto_dual_sleeve_tradi.Ops.Alerts.{AlertSink, bool_text}
use crypto_dual_sleeve_tradi.Execution.SafeMode.{allows_new_entries, SafeModeController}
use crypto_dual_sleeve_tradi.Execution.PositionReconciliation.{
  reconcile_positions, refresh, PositionExchange, PositionStore, PositionReconciliationReport,
}
use crypto_dual_sleeve_tradi.Exchange.Interfaces.{ExchangeAdapter}
use crypto_dual_sleeve_tradi.Base.Exec.{
  Exec, ◌>>=◌, ◌>>◌, raise_when, modify, gets, lift, pure, raise,
}

pub record DaemonConfig : Type 0 where
  pub loop : LoopConfig
  pub refresh_positions_before_reconcile : Bool

pub record DaemonIterationResult : Type 0 where
  pub order_report : ReconciliationReport
  pub position_report : PositionReconciliationReport
  pub safe_mode_active : Bool

-- `consistent`
abbrev pub consistent : DaemonIterationResult → Bool
consistent result = result.order_report.consistent && result.position_report.consistent

-- `_format_daemon_mismatch`
unfoldable pub format_daemon_mismatch : DaemonIterationResult → String
format_daemon_mismatch result =
    "DAEMON_RECONCILIATION_MISMATCH order_consistent="
    ^+ bool_text result.order_report.consistent
    ^+ " position_consistent="
    ^+ bool_text result.position_report.consistent
    ^+ " safe_mode="
    ^+ bool_text result.safe_mode_active

-- what the daemon works on
pub record Daemon (S P X A : Type 0) : Type 0 where
  pub orders : S
  pub positions : P
  pub safe : SafeModeController
  pub exchange : X
  pub alerts : A

module _ {S P X A : Type 0} (orders : LocalOrderStore S) (positions : PositionStore P)
    (adapter : ExchangeAdapter X) (exchange : PositionExchange X) (sink : AlertSink A)
    (tolerance : Decimal) where
  -- the refresh at the start of `run_once`
  unfoldable pub refresh_first : Bool → Exec (Daemon S P X A) (Unit {0})
  refresh_first false d = (ok tt, d)
  refresh_first true d =
      let (answer, (table, x)) = refresh positions exchange (d.positions, d.exchange) in
      (elim answer [ ok _ ↦ ok tt | err e ↦ err e ], record d { positions = table; exchange = x })

  -- `run_once` behind the refresh
  unfoldable pub reconcile_both : ℕ → Daemon S P X A → DaemonIterationResult × Daemon S P X A
  unfolding format_daemon_mismatch
  reconcile_both now d =
      let (order_report, (safe, x)) =
        reconcile_open_orders orders adapter now d.orders (d.safe, d.exchange) in
      let (position_report, (safe', x')) =
        reconcile_positions positions exchange tolerance now d.positions (safe, x) in
      let result : DaemonIterationResult = record {
        order_report = order_report;
        position_report = position_report;
        safe_mode_active = not (allows_new_entries safe');
      } in
      (
        result,
        record d {
          safe = safe';
          exchange = x';
          alerts =
              if consistent result
              then d.alerts
              else sink.send (format_daemon_mismatch result) d.alerts;
        },
      )

  -- `run_once`
  unfoldable pub run_once : Bool → ℕ → Exec (Daemon S P X A) DaemonIterationResult
  unfolding refresh_first reconcile_both
  run_once refreshes now = do
    refresh_first refreshes
    (λ d. let (result, d') = reconcile_both now d in (ok result, d'))

  -- `run`
  unfoldable pub run :
      DaemonConfig
      → (ℕ → ℕ)
      → (ℕ → Daemon S P X A → Daemon S P X A)
      → ℕ
      → Daemon S P X A
      → Outcome DaemonIterationResult × Daemon S P X A
  unfolding run_once
  run config clock pause fuel d =
      Loop.run config.loop (λ n. run_once config.refresh_positions_before_reconcile (clock n))
        consistent pause fuel d
