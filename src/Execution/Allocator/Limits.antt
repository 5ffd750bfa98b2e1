-- ===== src/Execution/Allocator/Limits.antt =====
-- What execution/sleeve_b_allocator.py keeps to.
use crypto_dual_sleeve_tradi.Base.{◌<◌, ◌≡◌, inl, inr, true, false, List, arith, length}
use crypto_dual_sleeve_tradi.Base.Result.{Result-cases, ok}
use crypto_dual_sleeve_tradi.Base.Key.{string_key, pair_key}
use crypto_dual_sleeve_tradi.Decimal
use crypto_dual_sleeve_tradi.Base.Dict
use crypto_dual_sleeve_tradi.Base.Dict.{Dict}
use crypto_dual_sleeve_tradi.Decimal.{Decimal, nought}
use crypto_dual_sleeve_tradi.Execution.Allocator.{
  open_positions, sum_initial_margin, has_open_position, raw_quantity, stop_distance, allocate,
  size, remaining_margin, reject, per_position_margin_cap, admit, SleeveBAllocationDecision,
  SleeveBSignalCandidate, SleeveBExecutionAllocatorConfig,
}
use crypto_dual_sleeve_tradi.Core.Models.{
  ExchangePositionSnapshot, SymbolFilters, AccountSnapshotV3,
}
use crypto_dual_sleeve_tradi.Exchange.Filters.{floor_to_step, round_price_to_tick}
use crypto_dual_sleeve_tradi.Decimal.Order.{min-le_right, min-le_left, le_trans}
use crypto_dual_sleeve_tradi.Core.Enums.{
  trading_mode_enum, sleeve_id_enum, order_side_enum, position_side_enum, order_type_enum,
  order_action_enum, order_status_enum, safe_mode_state_enum, circuit_action_enum,
}

module _ (config : SleeveBExecutionAllocatorConfig) (candidate : SleeveBSignalCandidate)
    (account : AccountSnapshotV3) (filters : SymbolFilters) where
  -- The bounds of an accepted size, `used` being the margin of the open positions.
  pub record IsSized (used : Decimal) (decision : SleeveBAllocationDecision) : Type 0 where
    pub quantity_pos : Decimal.lt nought decision.quantity ≡ true
    pub notional_ge :
        Decimal.le filters.min_notional (Decimal.mul decision.quantity decision.entry_price) ≡ true
    pub margin : Decimal
    pub margin_of :
        Decimal.div (Decimal.mul decision.quantity decision.entry_price) config.max_leverage
        ≡ ok margin
    pub margin_cents : Decimal.quantize_cents margin ≡ ok decision.initial_margin
    pub notional_cents :
        Decimal.quantize_cents (Decimal.mul decision.quantity decision.entry_price)
        ≡ ok decision.notional
    pub within_position_cap :
        Decimal.le decision.initial_margin (per_position_margin_cap config account) ≡ true
    pub within_portfolio_cap :
        Decimal.le decision.initial_margin (remaining_margin config account used) ≡ true
    pub price_on_tick :
        round_price_to_tick candidate.entry_price filters.tick_size ≡ ok decision.entry_price
    pub same_symbol : decision.symbol ≡ candidate.symbol
    pub same_side : decision.side ≡ candidate.side
    pub same_leverage : decision.leverage ≡ config.max_leverage

  admit-IsSized :
      (used quantity entry_price : Decimal) (decision : SleeveBAllocationDecision)
      → let allowed =
          Decimal.min
            (per_position_margin_cap config account)
            (remaining_margin config account used) in
        admit config candidate filters allowed quantity entry_price ≡ ok decision
        → decision.accepted ≡ true
        → round_price_to_tick candidate.entry_price filters.tick_size ≡ ok entry_price
        → IsSized used decision
  unfolding admit reject Decimal.lt
  admit-IsSized used quantity entry_price decision e accepted ticks =
      let a = per_position_margin_cap config account in
      let b = remaining_margin config account used in
      let notional = Decimal.mul quantity entry_price in
      elim (Result-cases (Decimal.div notional config.max_leverage)) [
        | inr (exc, fails) ↦ absurd (ground arith)
        | inl (margin, margins) ↦ record {
          quantity_pos = ground arith;
          notional_ge = ground arith;
          margin = margin;
          margin_of = ground arith;
          margin_cents = ground arith;
          notional_cents = ground arith;
          within_position_cap =
              ground (arith, le_trans decision.initial_margin (Decimal.min a b) a, min-le_left a b);
          within_portfolio_cap =
              ground
                (arith, le_trans decision.initial_margin (Decimal.min a b) b, min-le_right a b);
          price_on_tick = ground arith;
          same_symbol = ground arith;
          same_side = ground arith;
          same_leverage = ground arith;
        }
      ]

  size-IsSized :
      (used : Decimal) (decision : SleeveBAllocationDecision)
      → size config candidate account filters used ≡ ok decision
      → decision.accepted ≡ true
      → IsSized used decision
  unfolding size reject
  size-IsSized used decision e accepted =
      let allowed =
        Decimal.min (per_position_margin_cap config account)
          (remaining_margin config account used) in
      elim (Result-cases (raw_quantity config candidate account allowed)) [
        | inr (exc, fails) ↦ absurd (ground arith)
        | inl (raw, raws) ↦ elim (Result-cases (floor_to_step raw filters.step_size)) [
          | inr (exc, fails) ↦ absurd (ground arith)
          | inl (quantity, floors) ↦
              elim (Result-cases (round_price_to_tick candidate.entry_price filters.tick_size)) [
                | inr (exc, fails) ↦ absurd (ground arith)
                | inl (price, ticks) ↦
                    admit-IsSized used quantity price decision (ground arith) accepted ticks
              ]
        ]
      ]

  -- What an accepted decision has to do with the account and its positions.
  pub record IsAllowed (positions : List ExchangePositionSnapshot)
      (decision : SleeveBAllocationDecision) : Type 0 where
    pub symbol_listed : Dict.member candidate.symbol config.symbols ≡ true
    pub balance_ge : Decimal.le config.min_available_balance account.available_balance ≡ true
    pub stop_apart : Decimal.lt nought (stop_distance candidate) ≡ true
    pub no_position : has_open_position candidate.symbol positions ≡ false
    pub below_max : length (open_positions positions) < config.max_concurrent_positions
    pub used : Decimal
    pub used_margin : sum_initial_margin (open_positions positions) config.max_leverage ≡ ok used
    pub sized : IsSized used decision

  -- An entry is accepted only for a listed symbol without an open position, with the minimum of
  -- balance and less than the maximum of open positions; its quantity is positive, its notional
  -- reaches the minimum of the symbol, and its initial margin, which is the notional over the leverage
  -- cut to cents, is within the cap for one position and within what the open positions leave of the
  -- cap for the portfolio.
  pub allocate-IsAllowed :
      (positions : List ExchangePositionSnapshot) (decision : SleeveBAllocationDecision)
      → allocate config candidate account positions filters ≡ ok decision
      → decision.accepted ≡ true
      → IsAllowed positions decision
  unfolding allocate reject Decimal.lt
  allocate-IsAllowed positions decision e accepted =
      elim (Result-cases (sum_initial_margin (open_positions positions) config.max_leverage)) [
        | inr (exc, fails) ↦ absurd (ground arith)
        | inl (used, sums) ↦ ground (arith, size-IsSized used decision)
      ]

  admit_rejects :
      (allowed quantity entry_price : Decimal) (decision : SleeveBAllocationDecision)
      → admit config candidate filters allowed quantity entry_price ≡ ok decision
      → decision.accepted ≡ false
      → decision ≡ reject config candidate decision.reason
  unfolding admit reject
  admit_rejects allowed quantity entry_price decision e rejected = ground arith

  size_rejects :
      (used : Decimal) (decision : SleeveBAllocationDecision)
      → size config candidate account filters used ≡ ok decision
      → decision.accepted ≡ false
      → decision ≡ reject config candidate decision.reason
  unfolding size reject
  size_rejects used decision e rejected =
      let allowed =
        Decimal.min (per_position_margin_cap config account)
          (remaining_margin config account used) in
      elim (Result-cases (raw_quantity config candidate account allowed)) [
        | inr (exc, fails) ↦ ground arith
        | inl (raw, raws) ↦ elim (Result-cases (floor_to_step raw filters.step_size)) [
          | inr (exc, fails) ↦ ground arith
          | inl (quantity, floors) ↦
              elim (Result-cases (round_price_to_tick candidate.entry_price filters.tick_size)) [
                | inr (exc, fails) ↦ ground arith
                | inl (price, ticks) ↦ ground (arith, admit_rejects allowed quantity price decision)
              ]
        ]
      ]

  -- A decision that is not accepted has quantity, notional, margin and risk 0.
  pub allocate_rejects :
      (positions : List ExchangePositionSnapshot) (decision : SleeveBAllocationDecision)
      → allocate config candidate account positions filters ≡ ok decision
      → decision.accepted ≡ false
      → decision ≡ reject config candidate decision.reason
  unfolding allocate reject
  allocate_rejects positions decision e rejected =
      elim (Result-cases (sum_initial_margin (open_positions positions) config.max_leverage)) [
        | inr (exc, fails) ↦ ground arith
        | inl (used, sums) ↦ ground (arith, size_rejects used decision)
      ]
