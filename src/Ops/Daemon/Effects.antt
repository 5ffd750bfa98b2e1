-- ===== src/Ops/Daemon/Effects.antt =====
-- What ops/daemon.py does to the safe mode, the alerts and the order store.
use crypto_dual_sleeve_tradi.Ops.Daemon.{DaemonConfig, run}
use crypto_dual_sleeve_tradi.Base.{
  ℕ, ◌≡◌, refl, ap, ◌∙◌, inl, inr, Bool, true, false, not, ◌&&◌, arith, if◌then◌else◌,
}
use crypto_dual_sleeve_tradi.Base.Result.{Result-cases, Result, ok, err}
use crypto_dual_sleeve_tradi.Base.Key.{string_key, pair_key}
use crypto_dual_sleeve_tradi.Decimal.{Decimal}
use crypto_dual_sleeve_tradi.Execution.Reconciliation.{reconcile_open_orders, LocalOrderStore}
use crypto_dual_sleeve_tradi.Execution.PositionReconciliation.{PositionExchange, PositionStore}
use crypto_dual_sleeve_tradi.Exchange.Interfaces.{ExchangeAdapter}
use crypto_dual_sleeve_tradi.Ops.Alerts.{AlertSink}
use crypto_dual_sleeve_tradi.Ops.Daemon.{
  format_daemon_mismatch, consistent, DaemonIterationResult, run_once, refresh_first,
  reconcile_both, Daemon,
}
use crypto_dual_sleeve_tradi.Execution.SafeMode.{allows_new_entries}
use crypto_dual_sleeve_tradi.Execution.Reconciliation.Verdict.{reconcile_safe_mode}
use crypto_dual_sleeve_tradi.Execution.PositionReconciliation.Verdict.{
  reconcile_positions_safe_mode,
}
use crypto_dual_sleeve_tradi.Ops.Loop
use crypto_dual_sleeve_tradi.Ops.Loop.Bounds.{iterate-Latched, Latched, StepsFlag}
use crypto_dual_sleeve_tradi.Core.Enums.{
  trading_mode_enum, sleeve_id_enum, order_side_enum, position_side_enum, order_type_enum,
  order_action_enum, order_status_enum, safe_mode_state_enum, circuit_action_enum,
}

module _ {S P X A : Type 0} (orders : LocalOrderStore S) (positions : PositionStore P)
    (adapter : ExchangeAdapter X) (exchange : PositionExchange X) (sink : AlertSink A)
    (tolerance : Decimal) where
  -- What an iteration leaves of the daemon `d`.
  abbrev pub Leaves : Daemon S P X A → Result DaemonIterationResult × Daemon S P X A → Type 0
  Leaves d (ok result, d') =
      (allows_new_entries d'.safe ≡ (allows_new_entries d.safe && consistent result))
      × (result.safe_mode_active ≡ not (allows_new_entries d'.safe))
      × (d'.orders ≡ d.orders)
      × (d'.alerts ≡ (
          if consistent result
          then d.alerts
          else sink.send (format_daemon_mismatch result) d.alerts))
  Leaves d (err e, d') = (d'.safe ≡ d.safe) × (d'.orders ≡ d.orders) × (d'.alerts ≡ d.alerts)

  both-Leaves :
      (now : ℕ) (d : Daemon S P X A)
      → let (result, d') = reconcile_both orders positions adapter exchange sink tolerance now d in
        Leaves d (ok result, d')
  unfolding reconcile_both
  both-Leaves now d =
      let (_, (safe, x)) = reconcile_open_orders orders adapter now d.orders (d.safe, d.exchange) in
      ground (
        arith,
        reconcile_safe_mode orders adapter now d.orders d.safe d.exchange,
        reconcile_positions_safe_mode positions exchange tolerance now d.positions safe x,
      )

  moved :
      (d e : Daemon S P X A)
      → e.safe ≡ d.safe
      → e.orders ≡ d.orders
      → e.alerts ≡ d.alerts
      → (result : DaemonIterationResult) (after : Daemon S P X A) → Leaves e (ok result, after)
      → Leaves d (ok result, after)
  moved d e safe same_orders alerts result after (a, b, c, h) =
      (rw (← safe) a, b, c ∙ same_orders, rw (← alerts) h)

  refresh_first-lem :
      (refreshes : Bool) (d : Daemon S P X A)
      → let d' = (refresh_first orders positions adapter exchange sink tolerance refreshes d).1 in
        (d'.safe ≡ d.safe) × (d'.orders ≡ d.orders) × (d'.alerts ≡ d.alerts)
  unfolding refresh_first
  refresh_first-lem true d = (refl, refl, refl)
  refresh_first-lem false d = (refl, refl, refl)

  -- After an iteration of the daemon new entries are allowed exactly if they were before and both
  -- reports are consistent, and its result tells so; one alert is sent exactly if a report is not
  -- consistent; no order is written. An iteration that raises, which the refresh can do, leaves the
  -- safe mode and the alerts alone.
  pub once-Leaves :
      (refreshes : Bool) (now : ℕ) (d : Daemon S P X A)
      → Leaves d (run_once orders positions adapter exchange sink tolerance refreshes now d)
  unfolding run_once
  once-Leaves refreshes now d =
      let first = refresh_first orders positions adapter exchange sink tolerance refreshes d in
      let kept = refresh_first-lem refreshes d in
      elim (Result-cases first.0) [
        | inr (exc, fails) ↦
            let shape : run_once orders positions adapter exchange sink tolerance refreshes now d
                ≡ (err exc, first.1) =
              ground arith in
            rw shape kept
        | inl (_, goes) ↦
            let (safe, same_orders, alerts) = kept in
            let (result, after) =
              reconcile_both orders positions adapter exchange sink tolerance now first.1 in
            let shape : run_once orders positions adapter exchange sink tolerance refreshes now d
                ≡ (ok result, after) =
              ground arith in
            rw shape
              (moved d first.1 safe same_orders alerts result after (both-Leaves now first.1))
      ]

  and_self : (b : Bool) → (b && b) ≡ b
  and_self true = refl
  and_self false = refl

  Leaves-StepsFlag :
      (d d' : Daemon S P X A) (r : Result DaemonIterationResult)
      → Leaves d (r, d')
      → StepsFlag consistent (allows_new_entries d.safe) (allows_new_entries d'.safe) r
  Leaves-StepsFlag d d' (ok result) (a, _, _, _) = a
  Leaves-StepsFlag d d' (err e) (a, _, _) = rw a (and_self (allows_new_entries d.safe))

  flag_step :
      (refreshes : Bool) (now : ℕ) (d : Daemon S P X A)
      → let (r, d') = run_once orders positions adapter exchange sink tolerance refreshes now d in
        StepsFlag consistent (allows_new_entries d.safe) (allows_new_entries d'.safe) r
  flag_step refreshes now d = Leaves-StepsFlag d _ _ (once-Leaves refreshes now d)

  -- A run of the daemon that finishes, whose pauses leave the safe mode alone, allows new entries
  -- afterwards exactly if they were allowed before and every iteration was consistent. However it
  -- ends, it never allows entries that were not allowed before.
  pub daemon_latch :
      (config : DaemonConfig) (clock : ℕ → ℕ) (pause : ℕ → Daemon S P X A → Daemon S P X A)
      (fuel : ℕ) (d : Daemon S P X A)
      → ((n : ℕ) (w : Daemon S P X A) → (pause n w).safe ≡ w.safe)
      → let (o, d') =
          run orders positions adapter exchange sink tolerance config clock pause fuel d in
        Latched consistent (allows_new_entries d.safe) (allows_new_entries d'.safe) o
  unfolding run Loop.run Loop.iterate
  daemon_latch config clock pause fuel d quiet =
      iterate-Latched config.loop
        (λ n.
          run_once orders positions adapter exchange sink tolerance
            config.refresh_positions_before_reconcile (clock n))
        consistent pause (λ w. allows_new_entries w.safe)
        (λ n w. flag_step config.refresh_positions_before_reconcile (clock n) w)
        (λ n w. ap allows_new_entries (quiet n w)) fuel 0 d
