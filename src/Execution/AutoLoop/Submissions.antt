-- ===== src/Execution/AutoLoop/Submissions.antt =====
-- What stands behind the orders of a run of execution/sleeve_b_testnet_loop.py.
use crypto_dual_sleeve_tradi.Base.{
  ℕ, suc, String, ◌≡◌, inl, inr, true, none, List, [], ◌∷◌, map, arith, if◌then◌else◌, Bool-cases,
  All,
}
use crypto_dual_sleeve_tradi.Base.Result.{Result-cases, ok}
use crypto_dual_sleeve_tradi.Base.Key.{string_key, pair_key}
use crypto_dual_sleeve_tradi.Decimal.{Decimal}
use crypto_dual_sleeve_tradi.Execution.AutoLoop.{
  SleeveBAutoLoopRunResult, run_once, consider_all, on_exchange, no_order, consider, submit,
  SleeveBAutoLoopDecision, SleeveBAutoLoopConfig, SleeveBLoopExchange,
}
use crypto_dual_sleeve_tradi.Execution.Router.{OrderStoreWriter}
use crypto_dual_sleeve_tradi.Execution.Allocator.{
  reject, allocate, SleeveBAllocationDecision, SleeveBSignalCandidate,
  SleeveBExecutionAllocatorConfig,
}
use crypto_dual_sleeve_tradi.Execution.SafeMode.{allows_new_entries, SafeModeController}
use crypto_dual_sleeve_tradi.Core.Models.{
  SymbolFilters, ExchangePositionSnapshot, AccountSnapshotV3,
}
use crypto_dual_sleeve_tradi.Execution.Allocator.Limits.{allocate-IsAllowed, IsAllowed}
use crypto_dual_sleeve_tradi.Core.Enums.{
  trading_mode_enum, sleeve_id_enum, order_side_enum, position_side_enum, order_type_enum,
  order_action_enum, order_status_enum, safe_mode_state_enum, circuit_action_enum,
}

module _ {X S : Type 0} (decimal_text : Decimal → String) (exchange : SleeveBLoopExchange X)
    (writer : OrderStoreWriter S) (allocator : SleeveBExecutionAllocatorConfig)
    (config : SleeveBAutoLoopConfig) (safe : SafeModeController) (clock : ℕ → ℕ) where
  -- An accepted decision rests on an allocation that the limits allow, of the account and the
  -- positions that were fetched at the start.
  pub record IsBacked (x : X) (d : SleeveBAutoLoopDecision) : Type 0 where
    pub account : AccountSnapshotV3
    pub positions : List ExchangePositionSnapshot
    pub candidate : SleeveBSignalCandidate
    pub filters : SymbolFilters
    pub account_fetched : (exchange.fetch_account_snapshot x).0 ≡ ok account
    pub positions_fetched :
        (exchange.fetch_position_snapshots none (exchange.fetch_account_snapshot x).1).0
        ≡ ok positions
    pub is_allowed : IsAllowed allocator candidate account filters positions d.allocation
    pub same_symbol : d.symbol ≡ candidate.symbol
    pub acknowledged : config.require_ack ≡ true
    pub entries_allowed : allows_new_entries safe ≡ true

  submit-allocation :
      (n : ℕ) (candidate : SleeveBSignalCandidate) (allocation : SleeveBAllocationDecision)
      (e : X × S) (d : SleeveBAutoLoopDecision)
      → (submit decimal_text exchange writer allocator config safe clock n candidate allocation e).0
        ≡ ok d
      → (d.allocation ≡ allocation) × (d.symbol ≡ candidate.symbol)
  unfolding submit
  submit-allocation n candidate allocation e d h = ground arith

  routed :
      (account : AccountSnapshotV3) (positions : List ExchangePositionSnapshot) (n submitted : ℕ)
      (candidate : SleeveBSignalCandidate) (e : X × S) (d : SleeveBAutoLoopDecision)
      → (consider decimal_text exchange writer allocator config safe clock account positions n
          submitted candidate e).0
        ≡ ok d
      → d.accepted ≡ true
      → (filters : SymbolFilters)
      → (on_exchange (exchange.adapter.get_symbol_filters candidate.symbol) e).0 ≡ ok filters
      → (allocation : SleeveBAllocationDecision)
      → allocate allocator candidate account positions filters ≡ ok allocation
      → (allocation.accepted ≡ true)
        × (d.allocation ≡ allocation)
        × (d.symbol ≡ candidate.symbol)
        × (allows_new_entries safe ≡ true)
  unfolding consider no_order
  routed account positions n submitted candidate e d h accepted filters a allocation b = ground (
    arith,
    submit-allocation n candidate allocation
        (on_exchange (exchange.adapter.get_symbol_filters candidate.symbol) e).1 d,
  )

  consider-IsAllowed :
      (account : AccountSnapshotV3) (positions : List ExchangePositionSnapshot) (n submitted : ℕ)
      (candidate : SleeveBSignalCandidate) (e : X × S) (d : SleeveBAutoLoopDecision)
      → (consider decimal_text exchange writer allocator config safe clock account positions n
          submitted candidate e).0
        ≡ ok d
      → d.accepted ≡ true
      → (filters : SymbolFilters) × (IsAllowed allocator candidate account filters positions
          d.allocation)
        × (d.symbol ≡ candidate.symbol)
        × (allows_new_entries safe ≡ true)
  unfolding consider no_order
  consider-IsAllowed account positions n submitted candidate e d h accepted =
      let asked = on_exchange (exchange.adapter.get_symbol_filters candidate.symbol) e in
      elim (Result-cases asked.0) [
        | inr (exc, fails) ↦ absurd (ground arith)
        | inl (filters, a) ↦
            elim (Result-cases (allocate allocator candidate account positions filters)) [
              | inr (exc, fails) ↦ absurd (ground arith)
              | inl (allocation, b) ↦
                  let (good, same, symbol, entries) =
                    routed account positions n submitted candidate e d h accepted filters a
                      allocation b in
                  (
                    filters,
                    rw same (
                        allocate-IsAllowed allocator candidate account filters positions allocation
                          b good),
                    symbol,
                    entries,
                  )
            ]
      ]

  consider_all-backed :
      (account : AccountSnapshotV3) (positions : List ExchangePositionSnapshot) (n submitted : ℕ)
      (candidates : List SleeveBSignalCandidate) (e : X × S) (ds : List SleeveBAutoLoopDecision)
      (total : ℕ) (P : SleeveBAutoLoopDecision → Type 0)
      → ((candidate : SleeveBSignalCandidate) (d : SleeveBAutoLoopDecision)
          → (filters : SymbolFilters) × (IsAllowed allocator candidate account filters positions
              d.allocation)
            × (d.symbol ≡ candidate.symbol)
            × (allows_new_entries safe ≡ true)
          → P d)
      → (consider_all decimal_text exchange writer allocator config safe clock account positions n
          submitted candidates e).0
        ≡ ok (ds, total)
      → All (λ d. d.accepted ≡ true → P d) ds
  unfolding consider_all
  consider_all-backed account positions n submitted [] e ds total P f h = ground arith
  consider_all-backed account positions n submitted (candidate ∷ candidates) e ds total P f h =
      let first =
        consider decimal_text exchange writer allocator config safe clock account positions n
          submitted candidate e in
      elim (Result-cases first.0) [
        | inr (exc, fails) ↦ absurd (ground arith)
        | inl (d, makes) ↦
            let next = if d.accepted then suc submitted else submitted in
            let rest =
              consider_all decimal_text exchange writer allocator config safe clock account
                positions (suc n) next candidates first.1 in
            elim (Result-cases rest.0) [
              | inr (exc, fails) ↦ absurd (ground arith)
              | inl (more, goes) ↦
                  let shape : ds ≡ d ∷ more.0 = ground arith in
                  rw shape (
                    λ accepted. f candidate d (
                        consider-IsAllowed account positions n submitted candidate e d makes
                          accepted),
                    consider_all-backed account positions (suc n) next candidates first.1 more.0
                        more.1 P f goes,
                  )
            ]
      ]

  skipped :
      (reason : String) (candidates : List SleeveBSignalCandidate)
      (P : SleeveBAutoLoopDecision → Type 0)
      → All
          (λ d. d.accepted ≡ true → P d)
          (map (λ c. no_order c (reject allocator c reason)) candidates)
  unfolding no_order
  skipped reason [] P = tt
  skipped reason (c ∷ cs) P = (λ accepted. cc, skipped reason cs P)

  -- In a run that returns, each accepted decision rests on a limit check of the account and of the
  -- positions that were fetched at the start of the run; the run was acknowledged, and the safe mode
  -- was off.
  pub run-IsBacked :
      (candidates : List SleeveBSignalCandidate) (x : X) (s : S) (r : SleeveBAutoLoopRunResult)
      → (run_once decimal_text exchange writer allocator config safe clock candidates (x, s)).0
        ≡ ok r
      → All (λ d. d.accepted ≡ true → IsBacked x d) r.decisions
  unfolding run_once
  run-IsBacked candidates x s r h = elim (Bool-cases config.require_ack) [
    | inr none_given ↦
        let shape : r.decisions
            ≡ map (λ c. no_order c (reject allocator c "ACK_REQUIRED")) candidates =
          ground arith in
        rw shape (skipped "ACK_REQUIRED" candidates (IsBacked x))
    | inl given ↦
        let start = exchange.fetch_account_snapshot x in
        elim (Result-cases start.0) [
          | inr (exc, fails) ↦ absurd (ground arith)
          | inl (account, a) ↦
              let next = exchange.fetch_position_snapshots none start.1 in
              elim (Result-cases next.0) [
                | inr (exc, fails) ↦ absurd (ground arith)
                | inl (positions, b) ↦
                    let outcome =
                      consider_all decimal_text exchange writer allocator config safe clock account
                        positions 0 0 candidates (next.1, s) in
                    elim (Result-cases outcome.0) [
                      | inr (exc, fails) ↦ absurd (ground arith)
                      | inl (o, goes) ↦
                          let shape : r.decisions ≡ o.0 = ground arith in
                          rw shape (
                            consider_all-backed account positions 0 0 candidates (next.1, s) o.0 o.1
                              (IsBacked x)
                              (λ candidate d (filters, limits, symbol, entries). record {
                                account = account;
                                positions = positions;
                                candidate = candidate;
                                filters = filters;
                                account_fetched = a;
                                positions_fetched = b;
                                is_allowed = limits;
                                same_symbol = symbol;
                                acknowledged = given;
                                entries_allowed = entries;
                              })
                              goes)
                    ]
              ]
        ]
  ]
