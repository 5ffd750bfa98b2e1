-- ===== src/Execution/AutoLoop/Bounds.antt =====
-- How many orders a run of execution/sleeve_b_testnet_loop.py makes.
use crypto_dual_sleeve_tradi.Base.{
  ℕ, suc, ◌+◌, ◌≤◌, ◌<◌, String, ◌≡◌, refl, inl, inr, true, not, none, List, [], ◌∷◌, map, arith,
  if◌then◌else◌, Bool-cases, length,
}
use crypto_dual_sleeve_tradi.Base.Result.{Result-cases, ok, err}
use crypto_dual_sleeve_tradi.Base.Key.{string_key, pair_key}
use crypto_dual_sleeve_tradi.Decimal.{Decimal}
use crypto_dual_sleeve_tradi.Execution.AutoLoop.{
  on_exchange, SleeveBAutoLoopRunResult, no_order, run_once, consider_all, consider,
  SleeveBAutoLoopConfig, SleeveBLoopExchange, SleeveBAutoLoopDecision,
}
use crypto_dual_sleeve_tradi.Execution.Router.{OrderStoreWriter}
use crypto_dual_sleeve_tradi.Execution.Allocator.{
  reject, SleeveBSignalCandidate, SleeveBExecutionAllocatorConfig,
}
use crypto_dual_sleeve_tradi.Execution.SafeMode.{allows_new_entries, SafeModeController}
use crypto_dual_sleeve_tradi.Core.Models.{ExchangePositionSnapshot, AccountSnapshotV3}
use crypto_dual_sleeve_tradi.Core.Enums.{
  trading_mode_enum, sleeve_id_enum, order_side_enum, position_side_enum, order_type_enum,
  order_action_enum, order_status_enum, safe_mode_state_enum, circuit_action_enum,
}

-- the decisions that stand for an accepted order
abbrev pub accepted_count : List SleeveBAutoLoopDecision → ℕ
accepted_count [] = 0
accepted_count (d ∷ ds) = let rest = accepted_count ds in if d.accepted then suc rest else rest

module _ {X S : Type 0} (decimal_text : Decimal → String) (exchange : SleeveBLoopExchange X)
    (writer : OrderStoreWriter S) (allocator : SleeveBExecutionAllocatorConfig)
    (config : SleeveBAutoLoopConfig) (safe : SafeModeController) (clock : ℕ → ℕ) where
  consider-bound :
      (account : AccountSnapshotV3) (positions : List ExchangePositionSnapshot) (n submitted : ℕ)
      (candidate : SleeveBSignalCandidate) (e : X × S) (d : SleeveBAutoLoopDecision)
      → (consider decimal_text exchange writer allocator config safe clock account positions n
          submitted candidate e).0
        ≡ ok d
      → d.accepted ≡ true
      → submitted < config.max_new_orders_per_run
  unfolding consider no_order
  consider-bound account positions n submitted candidate e d h accepted = ground arith

  consider_all-bound :
      (account : AccountSnapshotV3) (positions : List ExchangePositionSnapshot) (n submitted : ℕ)
      (candidates : List SleeveBSignalCandidate) (e : X × S) (ds : List SleeveBAutoLoopDecision)
      (total : ℕ)
      → (consider_all decimal_text exchange writer allocator config safe clock account positions n
          submitted candidates e).0
        ≡ ok (ds, total)
      → submitted ≤ config.max_new_orders_per_run
      → (total ≤ config.max_new_orders_per_run)
        × (total ≡ submitted + accepted_count ds)
        × (length ds ≡ length candidates)
  unfolding consider_all
  consider_all-bound account positions n submitted [] e ds total h bound = ground arith
  consider_all-bound account positions n submitted (candidate ∷ candidates) e ds total h bound =
      let first =
        consider decimal_text exchange writer allocator config safe clock account positions n
          submitted candidate e in
      elim (Result-cases first.0) [
        | inr (exc, fails) ↦ absurd (ground arith)
        | inl (d, makes) ↦
            let next = if d.accepted then suc submitted else submitted in
            let rest =
              consider_all decimal_text exchange writer allocator config safe clock account
                positions (suc n) next candidates first.1 in
            elim (Result-cases rest.0) [
              | inr (exc, fails) ↦ absurd (ground arith)
              | inl (more, goes) ↦ ground (
                arith,
                consider-bound account positions n submitted candidate e d makes,
                consider_all-bound account positions (suc n) next candidates first.1 more.0 more.1,
              )
            ]
      ]

  conclude_run : List SleeveBAutoLoopDecision × ℕ → SleeveBAutoLoopRunResult
  conclude_run (ds, total) = record {
    decisions = ds;
    submitted_orders = total;
    safe_mode_active = not (allows_new_entries safe);
  }

  ran :
      (account : AccountSnapshotV3) (positions : List ExchangePositionSnapshot)
      (candidates : List SleeveBSignalCandidate) (e : X × S) (r : SleeveBAutoLoopRunResult)
      → (let outcome =
            consider_all decimal_text exchange writer allocator config safe clock account positions
              0 0 candidates e in
          elim outcome.0 [ ok o ↦ ok (conclude_run o) | err exc ↦ err exc ])
        ≡ ok r
      → (r.submitted_orders ≤ config.max_new_orders_per_run)
        × (r.submitted_orders ≡ accepted_count r.decisions)
        × (length r.decisions ≡ length candidates)
  unfolding conclude_run
  ran account positions candidates e r h =
      let outcome =
        consider_all decimal_text exchange writer allocator config safe clock account positions 0 0
          candidates e in
      elim (Result-cases outcome.0) [
        | inr (exc, fails) ↦ absurd (ground arith)
        | inl (o, goes) ↦
            ground (arith, consider_all-bound account positions 0 0 candidates e o.0 o.1)
      ]

  skips :
      (reason : String) (candidates : List SleeveBSignalCandidate)
      → let ds = map (λ c. no_order c (reject allocator c reason)) candidates in
        (accepted_count ds ≡ 0) × (length ds ≡ length candidates)
  unfolding no_order
  skips reason [] = (refl, refl)
  skips reason (c ∷ cs) = ground (arith, skips reason cs)

  -- A run that returns makes one decision for each candidate, counts exactly the accepted ones, and
  -- these are at most `max_new_orders_per_run`.
  pub run-bound :
      (candidates : List SleeveBSignalCandidate) (e : X × S) (r : SleeveBAutoLoopRunResult)
      → (run_once decimal_text exchange writer allocator config safe clock candidates e).0 ≡ ok r
      → (r.submitted_orders ≤ config.max_new_orders_per_run)
        × (r.submitted_orders ≡ accepted_count r.decisions)
        × (length r.decisions ≡ length candidates)
  unfolding run_once no_order conclude_run
  run-bound candidates e r h = elim (Bool-cases config.require_ack) [
    | inr none_given ↦ ground (arith, skips "ACK_REQUIRED" candidates)
    | inl given ↦
        let start = on_exchange exchange.fetch_account_snapshot e in
        elim (Result-cases start.0) [
          | inr (exc, fails) ↦ absurd (ground arith)
          | inl (account, a) ↦
              let next = on_exchange (exchange.fetch_position_snapshots none) start.1 in
              elim (Result-cases next.0) [
                | inr (exc, fails) ↦ absurd (ground arith)
                | inl (positions, b) ↦ ran account positions candidates next.1 r (ground arith)
              ]
        ]
  ]
