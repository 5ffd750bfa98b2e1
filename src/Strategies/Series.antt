-- ===== src/Strategies/Series.antt =====
-- strategies/sleeve_b_replay.py: the replay of a whole series, and the summary of its trades. The
-- loop runs on fuel, one round each; a loop that is out of fuel is `none`.
pub mod Rounds
pub mod Replays
pub mod Trades
use crypto_dual_sleeve_tradi.Base.{
  take, get_elem?, ℕ, zero, suc, ◌+◌, String, Bool, not, Option, none, some, List, [], ◌∷◌, ◌++◌,
  map, ltb, if◌then◌else◌, length, keep,
}
use crypto_dual_sleeve_tradi.Base.Text.{str_lt}
use crypto_dual_sleeve_tradi.Base.Enum.{value}
use crypto_dual_sleeve_tradi.Base.Result.{Result, ok, err}
use crypto_dual_sleeve_tradi.Base.Key.{string_key, pair_key}
use crypto_dual_sleeve_tradi.Decimal
use mathlib.Core.Option
use crypto_dual_sleeve_tradi.Decimal.{Decimal, nought}
use crypto_dual_sleeve_tradi.Core.Enums.{
  trading_mode_enum, sleeve_id_enum, order_side_enum, position_side_enum, order_type_enum,
  order_action_enum, order_status_enum, safe_mode_state_enum, circuit_action_enum,
}
use crypto_dual_sleeve_tradi.Strategies.Replay.{simulate_trade, SleeveBReplayConfig, SleeveBTrade}
use crypto_dual_sleeve_tradi.Strategies.Bars.{OhlcBar}
use crypto_dual_sleeve_tradi.Strategies.Signals.{
  donchian_signal, regime_from_daily_close, SleeveBSignal,
}
use crypto_dual_sleeve_tradi.Base.Result.{◌>>=◌}

pub record SleeveBReplaySummary : Type 0 where
  pub symbol : String
  pub trades : ℕ
  pub wins : ℕ
  pub losses : ℕ
  pub total_pnl : Decimal
  pub total_r : Decimal
  pub max_drawdown : Decimal

pub record SleeveBReplayResult : Type 0 where
  pub symbol : String
  pub trades : List SleeveBTrade
  pub summary : SleeveBReplaySummary

abbrev pub won : SleeveBTrade → Bool
won trade = Decimal.lt nought trade.realized_pnl

abbrev pub lost : SleeveBTrade → Bool
lost trade = Decimal.le trade.realized_pnl nought

-- the running sum of the results, from a sum on
unfoldable pub equity_curve : Decimal → List SleeveBTrade → List Decimal
equity_curve running [] = []
equity_curve running (trade ∷ trades) =
    let next = Decimal.add running trade.realized_pnl in next ∷ equity_curve next trades

-- the loop over the curve, from a peak and a drawdown on
unfoldable pub max_drawdown_from : Decimal → Decimal → List Decimal → Decimal
max_drawdown_from peak drawdown [] = drawdown
max_drawdown_from peak drawdown (value ∷ values) =
    let next = Decimal.max peak value in
    max_drawdown_from next (Decimal.min drawdown (Decimal.sub value next)) values

unfoldable pub summarize : String → List SleeveBTrade → SleeveBReplaySummary
unfolding equity_curve max_drawdown_from
summarize symbol trades = record {
  symbol = symbol;
  trades = length trades;
  wins = length (keep won trades);
  losses = length (keep lost trades);
  total_pnl = Decimal.sum (map (λ trade. trade.realized_pnl) trades);
  total_r = Decimal.sum (map (λ trade. trade.gross_r) trades);
  max_drawdown = max_drawdown_from nought nought (equity_curve nought trades);
}

-- `_daily_closes_until`
unfoldable pub daily_closes_until : List OhlcBar → String → List Decimal
daily_closes_until daily_bars timestamp =
    map (λ bar. bar.close) (keep (λ bar. not (str_lt timestamp bar.timestamp)) daily_bars)

-- the bars that a round moves on by
abbrev pub advance : SleeveBTrade → ℕ
advance trade = if ltb trade.bars_held 1 then 1 else trade.bars_held

abbrev pub first_index : SleeveBReplayConfig → ℕ
first_index cfg =
    if ltb (cfg.donchian_lookback_bars + 1) (cfg.atr_period + 1)
    then cfg.atr_period + 1
    else cfg.donchian_lookback_bars + 1

abbrev pub with_summary : String → Result (List SleeveBTrade) → Result SleeveBReplayResult
with_summary symbol outcome = elim outcome [
  | err e ↦ err e
  | ok trades ↦ ok (record { symbol = symbol; trades = trades; summary = summarize symbol trades })
]

module _ (symbol : String) (daily_bars four_hour_bars : List OhlcBar)
    (cfg : SleeveBReplayConfig) where
  -- the signal at a bar
  unfoldable pub signal_at : ℕ → OhlcBar → Result SleeveBSignal
  unfolding daily_closes_until
  signal_at index bar =
      regime_from_daily_close (daily_closes_until daily_bars bar.timestamp) >>= λ regime.
      let seen = take (index + 1) four_hour_bars in
      donchian_signal symbol regime (map (λ item. item.close) seen) (map (λ item. item.high) seen)
        (map (λ item. item.low) seen) cfg.donchian_lookback_bars

  -- the trade that a round enters, if there is a signal
  unfoldable pub trade_at : ℕ → OhlcBar → Result (Option SleeveBTrade)
  unfolding signal_at
  trade_at index bar = signal_at index bar >>= λ signal. elim signal.side [
    | none ↦ ok none
    | some side ↦ simulate_trade symbol side four_hour_bars index cfg >>= λ trade. ok (some trade)
  ]

  -- the `while` from an index on, after some trades
  unfoldable pub replay_from : ℕ → ℕ → List SleeveBTrade → Option (Result (List SleeveBTrade))
  replay_from zero index trades = none
  replay_from (suc fuel) index trades = elim (get_elem? four_hour_bars index) [
    | none ↦ some (ok trades)
    | some bar ↦ elim (trade_at index bar) [
      | err e ↦ some (err e)
      | ok none ↦ replay_from fuel (index + 1) trades
      | ok (some trade) ↦ replay_from fuel (index + advance trade) (trades ++ trade ∷ [])
    ]
  ]

  unfoldable pub run_sleeve_b_replay : ℕ → Option (Result SleeveBReplayResult)
  unfolding replay_from summarize
  run_sleeve_b_replay fuel =
      Option.map (with_summary symbol) (replay_from fuel (first_index cfg) [])
