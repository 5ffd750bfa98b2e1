-- ===== src/Strategies/Candidates.antt =====
-- strategies/sleeve_b_candidate_builder.py: a candidate for an entry of sleeve B from the bars of a
-- market. `lower` stands for Python's `str.lower`.
pub mod Parts
pub mod Built
use crypto_dual_sleeve_tradi.Base.{
  ℕ, ◌+◌, String, Bool, true, false, not, ◌&&◌, Option, none, some, List, [], ◌∷◌, map, ltb,
  if◌then◌else◌, length,
}
use crypto_dual_sleeve_tradi.Base.Text.{◌^+◌, str_eq}
use crypto_dual_sleeve_tradi.Base.Result.{index_error, Result, ok, err}
use crypto_dual_sleeve_tradi.Base.Key.{string_key, pair_key}
use Prim.Native.String.{slice}
use crypto_dual_sleeve_tradi.Decimal
use crypto_dual_sleeve_tradi.Decimal.{Decimal, nought}
use crypto_dual_sleeve_tradi.Core.Enums.{
  long, short, PositionSide, trading_mode_enum, sleeve_id_enum, order_side_enum, position_side_enum,
  order_type_enum, order_action_enum, order_status_enum, safe_mode_state_enum, circuit_action_enum,
}
use crypto_dual_sleeve_tradi.Strategies.Bars.{atr, last_bar, OhlcBar}
use crypto_dual_sleeve_tradi.Execution.Allocator.{SleeveBSignalCandidate}
use crypto_dual_sleeve_tradi.Strategies.Signals.{
  donchian_signal, regime_from_daily_close, SleeveBSignal, last_item, ema,
}
use crypto_dual_sleeve_tradi.Strategies.Replay.{away}
use crypto_dual_sleeve_tradi.Base.Result.{◌>>=◌}

pub record SleeveBCandidateBuilderConfig : Type 0 where
  pub donchian_lookback_bars : ℕ
  pub atr_period : ℕ
  pub stop_atr_multiple : Decimal
  pub require_1h_timing : Bool
  pub one_hour_ema_period : ℕ
  pub max_1h_extension_atr : Decimal
  pub entry_offset_bps : Decimal

-- the defaults of the fields
abbrev pub default_config : SleeveBCandidateBuilderConfig
default_config = record {
  donchian_lookback_bars = 120;
  atr_period = 14;
  stop_atr_multiple = Decimal.literal 25 1;
  require_1h_timing = true;
  one_hour_ema_period = 20;
  max_1h_extension_atr = Decimal.literal 15 1;
  entry_offset_bps = Decimal.literal 5 0;
}

pub record SleeveBMarketData : Type 0 where
  pub symbol : String
  pub daily_bars : List OhlcBar
  pub four_hour_bars : List OhlcBar
  pub one_hour_bars : List OhlcBar

pub record SleeveBCandidateBuildResult : Type 0 where
  pub symbol : String
  pub candidate : Option SleeveBSignalCandidate
  pub reason : String

-- `bars[-1]`
unfoldable pub final_bar : List OhlcBar → Result OhlcBar
unfolding last_bar
final_bar [] = err (index_error "list index out of range")
final_bar (bar ∷ bars) = ok (last_bar bar bars)

-- `range_size > 0 and body / range_size >= Decimal("0.7")`
abbrev pub wide_body : OhlcBar → Result Bool
wide_body bar =
    let body = Decimal.abs (Decimal.sub bar.close bar.open_price) in
    let range_size = Decimal.sub bar.high bar.low in
    if Decimal.lt nought range_size
    then elim (Decimal.div body range_size) [
      | err e ↦ err e
      | ok share ↦ ok (Decimal.le (Decimal.literal 7 1) share)
    ]
    else ok false

unfoldable pub bearish_reversal : OhlcBar → Result Bool
bearish_reversal bar = if Decimal.lt bar.close bar.open_price then wide_body bar else ok false

unfoldable pub bullish_reversal : OhlcBar → Result Bool
bullish_reversal bar = if Decimal.lt bar.open_price bar.close then wide_body bar else ok false

-- the tests of a timing: beyond the average, a reversal, an extension above the limit
abbrev pub timing_of : Bool → Result Bool → Bool → String → String → String → Result String
timing_of beyond reversal extended far back wide = if beyond then ok far else elim reversal [
  | err e ↦ err e
  | ok true ↦ ok back
  | ok false ↦ ok (if extended then wide else "OK")
]

-- the tests of a side
abbrev pub timing_tests : PositionSide → Decimal → OhlcBar → Decimal → Result String
timing_tests long ema_value last limit =
    timing_of (Decimal.lt last.close ema_value) (bearish_reversal last)
      (Decimal.lt limit (Decimal.sub last.close ema_value)) "ONE_HOUR_LONG_BELOW_EMA20"
      "ONE_HOUR_LONG_BEARISH_REVERSAL" "ONE_HOUR_LONG_OVEREXTENDED"
timing_tests short ema_value last limit =
    timing_of (Decimal.lt ema_value last.close) (bullish_reversal last)
      (Decimal.lt limit (Decimal.sub ema_value last.close)) "ONE_HOUR_SHORT_ABOVE_EMA20"
      "ONE_HOUR_SHORT_BULLISH_REVERSAL" "ONE_HOUR_SHORT_OVEREXTENDED"

unfoldable pub one_hour_timing :
    PositionSide → List OhlcBar → SleeveBCandidateBuilderConfig → Result String
unfolding final_bar bearish_reversal bullish_reversal
one_hour_timing side one_hour_bars cfg = do
  averages ← ema (map (λ bar. bar.close) one_hour_bars) cfg.one_hour_ema_period
  ema_value ← last_item averages
  last ← final_bar one_hour_bars
  atr_value ← atr one_hour_bars cfg.atr_period
  timing_tests side ema_value last (Decimal.mul atr_value cfg.max_1h_extension_atr)

unfoldable pub refined_entry_price :
    PositionSide → Decimal → List OhlcBar → SleeveBCandidateBuilderConfig → Result Decimal
unfolding last_bar
refined_entry_price side four_hour_entry_price [] cfg = ok four_hour_entry_price
refined_entry_price side four_hour_entry_price (bar ∷ bars) cfg =
    Decimal.div cfg.entry_offset_bps (Decimal.literal 10000 0) >>= λ offset.
    let one_hour_close = (last_bar bar bars).close in
    ok (elim side [
      | long ↦
          Decimal.min four_hour_entry_price
            (Decimal.mul one_hour_close (Decimal.sub Decimal.one offset))
      | short ↦
          Decimal.max four_hour_entry_price
            (Decimal.mul one_hour_close (Decimal.add Decimal.one offset))
    ])

abbrev pub later : ℕ → ℕ → ℕ
later a b = if ltb a b then b else a

abbrev pub rejected_for : SleeveBMarketData → String → SleeveBCandidateBuildResult
rejected_for market_data reason = record {
  symbol = market_data.symbol;
  candidate = none;
  reason = reason;
}

-- the test of the bars, or what is wrong with them
unfoldable pub insufficient : SleeveBMarketData → SleeveBCandidateBuilderConfig → Option String
insufficient market_data cfg =
    if ltb (length market_data.daily_bars) 200
    then some "INSUFFICIENT_DAILY_DATA"
    else if ltb (length market_data.four_hour_bars)
        (later (cfg.donchian_lookback_bars + 1) (cfg.atr_period + 1))
    then some "INSUFFICIENT_4H_DATA"
    else if cfg.require_1h_timing
        && ltb (length market_data.one_hour_bars)
            (later cfg.one_hour_ema_period (cfg.atr_period + 1))
    then some "INSUFFICIENT_1H_DATA"
    else none

module _ (lower : String → String) where
  -- the candidate of a side, once its timing is right
  unfoldable pub candidate_of :
      PositionSide
      → String
      → SleeveBMarketData
      → SleeveBCandidateBuilderConfig
      → Result SleeveBSignalCandidate
  unfolding refined_entry_price final_bar atr
  candidate_of side reason market_data cfg = do
    last ← final_bar market_data.four_hour_bars
    entry_price ← refined_entry_price side last.close market_data.one_hour_bars cfg
    atr_value ← atr market_data.four_hour_bars cfg.atr_period
    let stop_distance = Decimal.mul atr_value cfg.stop_atr_multiple
    ok (record {
      symbol = market_data.symbol;
      side = side;
      entry_price = entry_price;
      stop_price = away side entry_price stop_distance;
      setup_id = "auto-" ^+ lower market_data.symbol ^+ "-" ^+ slice (lower reason) 0 16;
    })

  -- behind the signal
  unfoldable pub on_signal :
      SleeveBSignal
      → SleeveBMarketData
      → SleeveBCandidateBuilderConfig
      → Result SleeveBCandidateBuildResult
  unfolding one_hour_timing candidate_of
  on_signal signal market_data cfg = elim signal.side [
    | none ↦ ok (rejected_for market_data signal.reason)
    | some side ↦ do
      timing ←
          if cfg.require_1h_timing
          then one_hour_timing side market_data.one_hour_bars cfg
          else ok "OK"
      if not (str_eq timing "OK")
          then ok (rejected_for market_data timing)
          else (candidate_of side signal.reason market_data cfg >>= λ candidate. ok (record {
            symbol = market_data.symbol;
            candidate = some candidate;
            reason = signal.reason;
          }))
  ]

  unfoldable pub build_sleeve_b_candidate :
      SleeveBMarketData → SleeveBCandidateBuilderConfig → Result SleeveBCandidateBuildResult
  unfolding on_signal insufficient
  build_sleeve_b_candidate market_data cfg = elim (insufficient market_data cfg) [
    | some reason ↦ ok (rejected_for market_data reason)
    | none ↦ do
      regime ← regime_from_daily_close (map (λ bar. bar.close) market_data.daily_bars)
      signal ←
          donchian_signal market_data.symbol regime
            (map (λ bar. bar.close) market_data.four_hour_bars)
            (map (λ bar. bar.high) market_data.four_hour_bars)
            (map (λ bar. bar.low) market_data.four_hour_bars) cfg.donchian_lookback_bars
      on_signal signal market_data cfg
  ]

  unfoldable pub build_sleeve_b_candidates :
      List SleeveBMarketData
      → SleeveBCandidateBuilderConfig
      → Result (List SleeveBCandidateBuildResult)
  unfolding build_sleeve_b_candidate
  build_sleeve_b_candidates [] cfg = ok []
  build_sleeve_b_candidates (item ∷ items) cfg = do
    built ← build_sleeve_b_candidate item cfg
    rest ← build_sleeve_b_candidates items cfg
    ok (built ∷ rest)
