-- ===== src/Execution/AutoLoop.antt =====
-- execution/sleeve_b_testnet_loop.py: one run of the loop that turns candidates of sleeve B into
-- orders. A run works on the exchange and the order store, and never changes the safe mode.
-- `decimal_text` stands for `str` of a Decimal, and `clock n` is the time at which the order of the
-- n-th candidate is routed.
pub mod Bounds
pub mod Submissions
use crypto_dual_sleeve_tradi.Base.{
  ℕ, zero, suc, ◌+◌, ◌-◌, ◌*◌, ◌≤◌, ◌<◌, String, ◌≡◌, refl, sym, ap, ◌∙◌, ◌≢◌, ◌↔◌, ◌⊎◌, inl, inr,
  Bool, true, false, not, ◌&&◌, ◌||◌, Option, none, some, List, [], ◌∷◌, ◌++◌, map, arith, ltb, leb,
  ◌==◌, if◌then◌else◌, Bool-cases, Option-cases, length, keep, All,
}
use crypto_dual_sleeve_tradi.Base.Text.{◌^+◌, str_eq, eq_iff}
use crypto_dual_sleeve_tradi.Base.Enum.{is, one_of, value}
use crypto_dual_sleeve_tradi.Base.Result.{Result, ok, err}
use crypto_dual_sleeve_tradi.Base.Key.{Key, string_key, pair_key}
use crypto_dual_sleeve_tradi.Decimal
use crypto_dual_sleeve_tradi.Base.Dict
use crypto_dual_sleeve_tradi.Base.Dict.{Dict}
use crypto_dual_sleeve_tradi.Decimal.{Decimal, nought}
use crypto_dual_sleeve_tradi.Core.Enums.{
  entry, limit, exchange_testnet, sell, buy, sleeve_b, long, trading_mode_enum, sleeve_id_enum,
  order_side_enum, position_side_enum, order_type_enum, order_action_enum, order_status_enum,
  safe_mode_state_enum, circuit_action_enum,
}
use crypto_dual_sleeve_tradi.Exchange.Interfaces.{ExchangeAdapter}
use crypto_dual_sleeve_tradi.Execution.Allocator.{
  allocate, reject, SleeveBExecutionAllocatorConfig, SleeveBSignalCandidate,
  SleeveBAllocationDecision,
}
use crypto_dual_sleeve_tradi.Execution.Router.{route_persistent, RouteResult, OrderStoreWriter}
use crypto_dual_sleeve_tradi.Core.Models.{ExchangePositionSnapshot, OrderIntent, AccountSnapshotV3}
use crypto_dual_sleeve_tradi.Execution.SafeMode.{allows_new_entries, SafeModeController}
use crypto_dual_sleeve_tradi.Base.Exec.{
  Exec, ◌>>=◌, ◌>>◌, raise_when, modify, gets, lift, pure, raise,
}

pub record SleeveBLoopExchange (X : Type 0) : Type 0 where
  pub adapter : ExchangeAdapter X
  pub fetch_account_snapshot : Exec X AccountSnapshotV3
  pub fetch_position_snapshots : Option String → Exec X (List ExchangePositionSnapshot)

pub record SleeveBAutoLoopConfig : Type 0 where
  pub max_new_orders_per_run : ℕ
  pub require_ack : Bool
  pub limit_price_offset_bps : Decimal

pub record SleeveBAutoLoopDecision : Type 0 where
  pub symbol : String
  pub accepted : Bool
  pub allocation : SleeveBAllocationDecision
  pub route_result : Option RouteResult
  pub reason : String

pub record SleeveBAutoLoopRunResult : Type 0 where
  pub decisions : List SleeveBAutoLoopDecision
  pub submitted_orders : ℕ
  pub safe_mode_active : Bool

-- `_entry_limit_price`; a division by 10000 does not raise
unfoldable pub entry_limit_price : SleeveBSignalCandidate → Decimal → Result Decimal
entry_limit_price candidate offset_bps = elim (Decimal.div offset_bps (Decimal.literal 10000 0)) [
  | err e ↦ err e
  | ok offset ↦
      if is candidate.side long
      then ok (Decimal.mul candidate.entry_price (Decimal.sub Decimal.one offset))
      else ok (Decimal.mul candidate.entry_price (Decimal.add Decimal.one offset))
]

module _ (decimal_text : Decimal → String) (config : SleeveBAutoLoopConfig) where
  -- `_allocation_to_intent`
  unfoldable pub allocation_to_intent :
      SleeveBSignalCandidate → SleeveBAllocationDecision → Result OrderIntent
  unfolding entry_limit_price
  allocation_to_intent candidate allocation =
      elim (entry_limit_price candidate config.limit_price_offset_bps) [
        | err e ↦ err e
        | ok price ↦ ok (record {
          sleeve_id = sleeve_b;
          symbol = candidate.symbol;
          side = if is candidate.side long then buy else sell;
          order_type = limit;
          action = entry;
          quantity = allocation.quantity;
          price = some price;
          reduce_only = false;
          setup_id = some candidate.setup_id;
          metadata =
              ("source", "sleeve_b_auto_testnet_loop")
              ∷ ("allocator_reason", allocation.reason)
              ∷ ("initial_margin", decimal_text allocation.initial_margin)
              ∷ ("risk_amount", decimal_text allocation.risk_amount)
              ∷ ("leverage", decimal_text allocation.leverage)
              ∷ [];
        })
      ]

-- `_skip`, and the decision of a candidate without an order
unfoldable pub no_order :
    SleeveBSignalCandidate → SleeveBAllocationDecision → SleeveBAutoLoopDecision
no_order candidate allocation = record {
  symbol = candidate.symbol;
  accepted = false;
  allocation = allocation;
  route_result = none;
  reason = allocation.reason;
}

-- a call of the exchange, beside the store
abbrev pub on_exchange : {X S A : Type 0} → Exec X A → Exec (X × S) A
on_exchange call (x, s) = let (r, x') = call x in (r, (x', s))

module _ {X S : Type 0} (decimal_text : Decimal → String) (exchange : SleeveBLoopExchange X)
    (writer : OrderStoreWriter S) (allocator : SleeveBExecutionAllocatorConfig)
    (config : SleeveBAutoLoopConfig) (safe : SafeModeController) (clock : ℕ → ℕ) where
  abbrev pub skip : SleeveBSignalCandidate → String → SleeveBAutoLoopDecision
  skip candidate reason = no_order candidate (reject allocator candidate reason)

  -- the part of the loop's body that routes an order
  unfoldable pub submit :
      ℕ → SleeveBSignalCandidate → SleeveBAllocationDecision → Exec (X × S) SleeveBAutoLoopDecision
  unfolding allocation_to_intent
  submit n candidate allocation = do
    intent ← lift (allocation_to_intent decimal_text config candidate allocation)
    result ← route_persistent exchange.adapter writer exchange_testnet safe (clock n) intent
    pure (record {
      symbol = candidate.symbol;
      accepted = result.accepted;
      allocation = allocation;
      route_result = some result;
      reason = result.reason;
    })

  -- the body of the loop, `submitted` orders being accepted so far
  unfoldable pub consider :
      AccountSnapshotV3
      → List ExchangePositionSnapshot
      → ℕ
      → ℕ
      → SleeveBSignalCandidate
      → Exec (X × S) SleeveBAutoLoopDecision
  unfolding submit no_order
  consider account positions n submitted candidate =
      if leb config.max_new_orders_per_run submitted
      then pure (skip candidate "MAX_NEW_ORDERS_PER_RUN_REACHED")
      else if not (allows_new_entries safe)
      then pure (skip candidate "SAFE_MODE_BLOCKS_NEW_ENTRIES")
      else (do
        filters ← on_exchange (exchange.adapter.get_symbol_filters candidate.symbol)
        allocation ← lift (allocate allocator candidate account positions filters)
        if not allocation.accepted
            then pure (no_order candidate allocation)
            else submit n candidate allocation)

  -- the loop from the n-th candidate on: the decisions, and the orders accepted in all
  unfoldable pub consider_all :
      AccountSnapshotV3
      → List ExchangePositionSnapshot
      → ℕ
      → ℕ
      → List SleeveBSignalCandidate
      → Exec (X × S) (List SleeveBAutoLoopDecision × ℕ)
  unfolding consider
  consider_all account positions n submitted [] = pure ([], submitted)
  consider_all account positions n submitted (candidate ∷ candidates) = do
    decision ← consider account positions n submitted candidate
    rest ←
        consider_all account positions (suc n)
          (if decision.accepted then suc submitted else submitted) candidates
    pure (decision ∷ rest.0, rest.1)

  unfoldable pub run_once : List SleeveBSignalCandidate → Exec (X × S) SleeveBAutoLoopRunResult
  unfolding consider_all no_order
  run_once candidates =
      if not config.require_ack
      then pure (record {
        decisions = map (λ c. skip c "ACK_REQUIRED") candidates;
        submitted_orders = 0;
        safe_mode_active = not (allows_new_entries safe);
      })
      else (do
        account ← on_exchange exchange.fetch_account_snapshot
        all_positions ← on_exchange (exchange.fetch_position_snapshots none)
        outcome ← consider_all account all_positions 0 0 candidates
        pure (record {
          decisions = outcome.0;
          submitted_orders = outcome.1;
          safe_mode_active = not (allows_new_entries safe);
        }))
