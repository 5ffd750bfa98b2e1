-- ===== src/Execution/Allocator.antt =====
-- execution/sleeve_b_allocator.py: how large an entry of sleeve B may be. A configured number of
-- positions is a natural number.
pub mod Limits
use crypto_dual_sleeve_tradi.Base.{
  any, ℕ, zero, suc, ◌+◌, ◌-◌, ◌*◌, ◌≤◌, ◌<◌, String, ◌≡◌, refl, sym, ap, ◌∙◌, ◌≢◌, ◌↔◌, ◌⊎◌, inl,
  inr, Bool, true, false, not, ◌&&◌, ◌||◌, Option, none, some, List, [], ◌∷◌, ◌++◌, map, arith, ltb,
  leb, ◌==◌, if◌then◌else◌, Bool-cases, Option-cases, length, keep, All,
}
use crypto_dual_sleeve_tradi.Base.Text.{◌^+◌, str_eq, eq_iff}
use crypto_dual_sleeve_tradi.Base.Enum.{is, one_of, value}
use crypto_dual_sleeve_tradi.Base.Result.{Result, ok, err}
use crypto_dual_sleeve_tradi.Base.Key.{Key, string_key, pair_key}
use crypto_dual_sleeve_tradi.Decimal
use crypto_dual_sleeve_tradi.Base.Dict
use crypto_dual_sleeve_tradi.Base.Dict.{Dict}
use crypto_dual_sleeve_tradi.Decimal.{Decimal, nought}
use crypto_dual_sleeve_tradi.Core.Enums.{
  PositionSide, trading_mode_enum, sleeve_id_enum, order_side_enum, position_side_enum,
  order_type_enum, order_action_enum, order_status_enum, safe_mode_state_enum, circuit_action_enum,
}
use crypto_dual_sleeve_tradi.Core.Models.{
  is_flat, SymbolFilters, AccountSnapshotV3, ExchangePositionSnapshot,
}
use crypto_dual_sleeve_tradi.Exchange.Filters.{round_price_to_tick, floor_to_step}
use crypto_dual_sleeve_tradi.Base.Result.{◌>>=◌, ◌>>◌, raise_if}

pub record SleeveBExecutionAllocatorConfig : Type 0 where
  pub symbols : List String
  pub usable_balance_fraction : Decimal
  pub max_portfolio_margin_fraction : Decimal
  pub max_per_position_margin_fraction : Decimal
  pub max_leverage : Decimal
  pub max_concurrent_positions : ℕ
  pub min_available_balance : Decimal
  pub default_risk_fraction_per_trade : Decimal

-- the defaults of the fields
abbrev pub default_config : SleeveBExecutionAllocatorConfig
default_config = record {
  symbols = "BTCUSDT" ∷ "ETHUSDT" ∷ "SOLUSDT" ∷ "BNBUSDT" ∷ "HYPEUSDT" ∷ [];
  usable_balance_fraction = Decimal.literal 5 1;
  max_portfolio_margin_fraction = Decimal.literal 5 1;
  max_per_position_margin_fraction = Decimal.literal 12 2;
  max_leverage = Decimal.literal 3 0;
  max_concurrent_positions = 3;
  min_available_balance = Decimal.literal 500 0;
  default_risk_fraction_per_trade = Decimal.literal 1 2;
}

pub record SleeveBSignalCandidate : Type 0 where
  pub symbol : String
  pub side : PositionSide
  pub entry_price : Decimal
  pub stop_price : Decimal
  pub setup_id : String

unfoldable pub stop_distance : SleeveBSignalCandidate → Decimal
stop_distance candidate = Decimal.abs (Decimal.sub candidate.entry_price candidate.stop_price)

pub record SleeveBAllocationDecision : Type 0 where
  pub accepted : Bool
  pub symbol : String
  pub side : PositionSide
  pub quantity : Decimal
  pub entry_price : Decimal
  pub notional : Decimal
  pub initial_margin : Decimal
  pub leverage : Decimal
  pub risk_amount : Decimal
  pub reason : String

-- `_has_open_position`
unfoldable pub has_open_position : String → List ExchangePositionSnapshot → Bool
has_open_position symbol positions = any (λ p. str_eq p.symbol symbol && not (is_flat p)) positions

-- the notional that the margin of a position is taken from
unfoldable pub margin_notional : ExchangePositionSnapshot → Decimal
margin_notional position = elim position.mark_price [
  | none ↦ Decimal.abs position.notional
  | some mark ↦
      if Decimal.le (Decimal.abs position.notional) nought
      then Decimal.abs (Decimal.mul position.position_amt mark)
      else Decimal.abs position.notional
]

add_margins : Decimal → List ExchangePositionSnapshot → Decimal → Result Decimal
unfolding margin_notional
add_margins total [] leverage = ok total
add_margins total (position ∷ positions) leverage = do
  margin ← Decimal.div (margin_notional position) leverage
  add_margins (Decimal.add total margin) positions leverage

-- `_sum_initial_margin`
unfoldable pub sum_initial_margin : List ExchangePositionSnapshot → Decimal → Result Decimal
unfolding add_margins
sum_initial_margin positions leverage = add_margins nought positions leverage

abbrev pub open_positions : List ExchangePositionSnapshot → List ExchangePositionSnapshot
open_positions positions = keep (λ p. not (is_flat p)) positions

module _ (config : SleeveBExecutionAllocatorConfig) where
  -- `_reject`
  unfoldable pub reject : SleeveBSignalCandidate → String → SleeveBAllocationDecision
  reject candidate reason = record {
    accepted = false;
    symbol = candidate.symbol;
    side = candidate.side;
    quantity = nought;
    entry_price = candidate.entry_price;
    notional = nought;
    initial_margin = nought;
    leverage = config.max_leverage;
    risk_amount = nought;
    reason = reason;
  }

  -- `usable_balance`
  abbrev pub usable_balance : AccountSnapshotV3 → Decimal
  usable_balance account = Decimal.mul account.available_balance config.usable_balance_fraction

  -- `per_position_margin_cap`
  abbrev pub per_position_margin_cap : AccountSnapshotV3 → Decimal
  per_position_margin_cap account =
      Decimal.mul (usable_balance account) config.max_per_position_margin_fraction

  -- `remaining_margin`, of the margin in use
  abbrev pub remaining_margin : AccountSnapshotV3 → Decimal → Decimal
  remaining_margin account used_margin =
      Decimal.sub (Decimal.mul (usable_balance account) config.max_portfolio_margin_fraction)
        used_margin

  -- `raw_quantity`
  unfoldable pub raw_quantity :
      SleeveBSignalCandidate → AccountSnapshotV3 → Decimal → Result Decimal
  unfolding stop_distance
  raw_quantity candidate account allowed_margin = do
    risk_sized ←
        Decimal.div (Decimal.mul (usable_balance account) config.default_risk_fraction_per_trade)
          (stop_distance candidate)
    notional_sized ←
        Decimal.div (Decimal.mul allowed_margin config.max_leverage) candidate.entry_price
    ok (Decimal.min risk_sized notional_sized)

  -- `allocate`, from the rounded quantity and price on
  unfoldable pub admit :
      SleeveBSignalCandidate
      → SymbolFilters
      → Decimal
      → Decimal
      → Decimal
      → Result SleeveBAllocationDecision
  unfolding reject stop_distance
  admit candidate filters allowed_margin quantity entry_price =
      let notional = Decimal.mul quantity entry_price in
      if Decimal.le quantity nought
      then ok (reject candidate "QUANTITY_FLOORS_TO_ZERO")
      else if Decimal.lt notional filters.min_notional
      then ok (reject candidate "BELOW_MIN_NOTIONAL")
      else (do
        margin ← Decimal.div notional config.max_leverage
        initial_margin ← Decimal.quantize_cents margin
        if Decimal.lt allowed_margin initial_margin
            then ok (reject candidate "MARGIN_EXCEEDS_ALLOWED_CAP")
            else (do
              rounded_notional ← Decimal.quantize_cents notional
              risk_amount ← Decimal.quantize_cents (Decimal.mul quantity (stop_distance candidate))
              ok (record {
                accepted = true;
                symbol = candidate.symbol;
                side = candidate.side;
                quantity = quantity;
                entry_price = entry_price;
                notional = rounded_notional;
                initial_margin = initial_margin;
                leverage = config.max_leverage;
                risk_amount = risk_amount;
                reason = "ACCEPTED";
              })))

  -- `allocate`, once the margin in use is known
  unfoldable pub size :
      SleeveBSignalCandidate
      → AccountSnapshotV3
      → SymbolFilters
      → Decimal
      → Result SleeveBAllocationDecision
  unfolding raw_quantity admit reject
  size candidate account filters used_margin =
      let remaining = remaining_margin account used_margin in
      let allowed_margin = Decimal.min (per_position_margin_cap account) remaining in
      if Decimal.le remaining nought
      then ok (reject candidate "PORTFOLIO_MARGIN_CAP_REACHED")
      else (do
        raw ← raw_quantity candidate account allowed_margin
        quantity ← floor_to_step raw filters.step_size
        entry_price ← round_price_to_tick candidate.entry_price filters.tick_size
        admit candidate filters allowed_margin quantity entry_price)

  unfoldable pub allocate :
      SleeveBSignalCandidate
      → AccountSnapshotV3
      → List ExchangePositionSnapshot
      → SymbolFilters
      → Result SleeveBAllocationDecision
  unfolding size reject stop_distance has_open_position sum_initial_margin
  allocate candidate account positions filters =
      if not (Dict.member candidate.symbol config.symbols)
      then ok (reject candidate "SYMBOL_NOT_ALLOWED")
      else if Decimal.lt account.available_balance config.min_available_balance
      then ok (reject candidate "AVAILABLE_BALANCE_TOO_LOW")
      else if Decimal.le (stop_distance candidate) nought
      then ok (reject candidate "INVALID_STOP_DISTANCE")
      else if has_open_position candidate.symbol positions
      then ok (reject candidate "SYMBOL_ALREADY_HAS_POSITION")
      else if leb config.max_concurrent_positions (length (open_positions positions))
      then ok (reject candidate "MAX_CONCURRENT_POSITIONS_REACHED")
      else (do
        used_margin ← sum_initial_margin (open_positions positions) config.max_leverage
        size candidate account filters used_margin)
