-- ===== src/Tests/Replay.antt =====
-- The theorems on the replay of sleeve B at concrete inputs.
use crypto_dual_sleeve_tradi.Base.{
  ◌-◌, ◌-◌, length, ◌≤◌, ◌<◌, All, ◌≤◌, arith, ◌<◌, refl, true, some, ◌≡◌, ◌≡◌, ℕ, zero, suc, ◌+◌,
  String, List, [], ◌∷◌,
}
use crypto_dual_sleeve_tradi.Base.Result.{ok, Result}
use crypto_dual_sleeve_tradi.Base.Key.{string_key, pair_key}
use crypto_dual_sleeve_tradi.Decimal
use crypto_dual_sleeve_tradi.Strategies.Candidates
use crypto_dual_sleeve_tradi.Decimal.{Decimal, nought}
use crypto_dual_sleeve_tradi.Strategies.Bars.{OhlcBar}
use crypto_dual_sleeve_tradi.Strategies.Replay.{
  SleeveBTrade, simulate_trade, default_config, SleeveBReplayConfig,
}
use crypto_dual_sleeve_tradi.Strategies.Replay.Trades.{simulate-EndsAs, EndsAs}
use crypto_dual_sleeve_tradi.Strategies.Series.{
  equity_curve, first_index, summarize, run_sleeve_b_replay, SleeveBReplayResult,
}
use crypto_dual_sleeve_tradi.Strategies.Series.Trades.{total_advance, Entries}
use crypto_dual_sleeve_tradi.Strategies.Candidates.{
  SleeveBCandidateBuildResult, build_sleeve_b_candidate, SleeveBCandidateBuilderConfig,
  SleeveBMarketData,
}
use crypto_dual_sleeve_tradi.Strategies.Held.Exits.{no_repeat}
use crypto_dual_sleeve_tradi.Strategies.Signals.{last_from}
use crypto_dual_sleeve_tradi.Strategies.Series.Replays.{
  replay-Entries, summarize_lem, drawdowns, replay_ends,
}
use crypto_dual_sleeve_tradi.Strategies.Held.Invariants.{at_most}
use crypto_dual_sleeve_tradi.Execution.Allocator.{SleeveBSignalCandidate}
use crypto_dual_sleeve_tradi.Strategies.Candidates.Built.{build-IsBuilt, IsBuilt}
use crypto_dual_sleeve_tradi.Strategies.Series.Rounds.{Replayed}
use crypto_dual_sleeve_tradi.Core.Enums.{
  long, trading_mode_enum, sleeve_id_enum, order_side_enum, position_side_enum, order_type_enum,
  order_action_enum, order_status_enum, safe_mode_state_enum, circuit_action_enum,
}

-- daily bars whose closes rise by one from 101 on, the last one `n` days behind
abbrev pub rising : ℕ → ℕ → List OhlcBar
rising zero close = []
rising (suc n) close =
    record {
      timestamp = "2024-01-01";
      open_price = Decimal.literal close 0;
      high = Decimal.literal close 0;
      low = Decimal.literal close 0;
      close = Decimal.literal (close + 1) 0;
    }
    ∷ rising n (close + 1)

abbrev pub bar : String → ℕ → ℕ → ℕ → OhlcBar
bar time high low close = record {
  timestamp = time;
  open_price = Decimal.literal low 0;
  high = Decimal.literal high 0;
  low = Decimal.literal low 0;
  close = Decimal.literal close 0;
}

-- the fourth bar breaks out, the fifth takes the first target, the sixth comes back to the entry
abbrev four_hours : List OhlcBar
four_hours =
    bar "2024-02-01 00" 101 99 100
    ∷ bar "2024-02-01 04" 102 98 100
    ∷ bar "2024-02-01 08" 112 100 110
    ∷ bar "2024-02-01 12" 130 109 125
    ∷ bar "2024-02-01 16" 151 105 108
    ∷ []

abbrev short_config : SleeveBReplayConfig
short_config = record default_config {
  donchian_lookback_bars = 1;
  atr_period = 1;
  stop_atr_multiple = Decimal.one;
}

abbrev trade : SleeveBTrade
trade = record {
  symbol = "BTCUSDT";
  side = long;
  entry_time = "2024-02-01 08";
  entry_price = Decimal.literal 110 0;
  initial_stop = Decimal.literal 9800000000000000000000000000 26;
  quantity = Decimal.literal 6666666666666666666666666667 26;
  notional = Decimal.literal 7333333333333333333333333334 24;
  exit_time = "2024-02-01 16";
  exit_price = Decimal.literal 110 0;
  exit_reason = "BREAKEVEN_STOP";
  realized_pnl = Decimal.literal 3600000000000000000000000000 25;
  gross_r = Decimal.literal 4500000000000000000000000000 28;
  bars_held = 2;
  tp_hits = "TP1" ∷ [];
}

simulates : simulate_trade "BTCUSDT" long four_hours 2 short_config ≡ ok trade
unfolding simulate_trade Decimal.div Decimal.le Decimal.mul Decimal.sum Decimal.max Decimal.lt
    Decimal.abs Decimal.sub Decimal.min Decimal.eq
simulates = refl

simulate-EndsAs_example :
    EndsAs short_config four_hours 2 trade
    × (no_repeat trade.tp_hits ≡ true)
    × (2 + trade.bars_held < length four_hours)
    × (trade.bars_held ≤ at_most 12 1)
simulate-EndsAs_example = simulate-EndsAs "BTCUSDT" long four_hours 2 short_config trade simulates

abbrev daily : List OhlcBar
daily = rising 200 100

abbrev result : SleeveBReplayResult
result = record {
  symbol = "BTCUSDT";
  trades = trade ∷ [];
  summary = summarize "BTCUSDT" (trade ∷ []);
}

replays : run_sleeve_b_replay "BTCUSDT" daily four_hours short_config 6 ≡ some (ok result)
unfolding run_sleeve_b_replay crypto_dual_sleeve_tradi.Strategies.Series.trade_at
    crypto_dual_sleeve_tradi.Strategies.Signals.regime_from_daily_close Decimal.div Decimal.lt
    Decimal.le Decimal.add Decimal.mul Decimal.sub
    crypto_dual_sleeve_tradi.Strategies.Signals.donchian_signal simulate_trade Decimal.sum
    Decimal.max Decimal.abs Decimal.min Decimal.eq Decimal.fix Decimal.of_parts Decimal.sum_from
    crypto_dual_sleeve_tradi.Strategies.Bars.atr crypto_dual_sleeve_tradi.Strategies.Bars.last_bar
    crypto_dual_sleeve_tradi.Strategies.Bars.ranges_from
    crypto_dual_sleeve_tradi.Strategies.Bars.true_range
    crypto_dual_sleeve_tradi.Strategies.Held.hold
    crypto_dual_sleeve_tradi.Strategies.Held.take_target
    crypto_dual_sleeve_tradi.Strategies.Held.take_targets
    crypto_dual_sleeve_tradi.Strategies.Replay.play
    crypto_dual_sleeve_tradi.Strategies.Series.daily_closes_until equity_curve
    crypto_dual_sleeve_tradi.Strategies.Series.max_drawdown_from
    crypto_dual_sleeve_tradi.Strategies.Series.replay_from
    crypto_dual_sleeve_tradi.Strategies.Series.signal_at summarize
    crypto_dual_sleeve_tradi.Strategies.Signals.ema
    crypto_dual_sleeve_tradi.Strategies.Signals.ema_from last_from
    crypto_dual_sleeve_tradi.Strategies.Signals.last_item
    crypto_dual_sleeve_tradi.Strategies.Signals.long_signal
    crypto_dual_sleeve_tradi.Strategies.Signals.max_from
    crypto_dual_sleeve_tradi.Strategies.Signals.max_item
    crypto_dual_sleeve_tradi.Strategies.Signals.min_from
    crypto_dual_sleeve_tradi.Strategies.Signals.min_item
    crypto_dual_sleeve_tradi.Strategies.Signals.short_signal
    crypto_dual_sleeve_tradi.Strategies.Signals.window
replays = refl

replay_ends_example :
    (outcome : Result SleeveBReplayResult) × (run_sleeve_b_replay "BTCUSDT" daily four_hours
        short_config 6
      ≡ some outcome)
    × (run_sleeve_b_replay "BTCUSDT" daily four_hours short_config 9 ≡ some outcome)
replay_ends_example =
    replay_ends "BTCUSDT" daily four_hours short_config 6 9 (omega arith) (omega arith)

replay-Entries_example :
    Replayed "BTCUSDT" daily four_hours short_config (first_index short_config) result.trades
    × Entries "BTCUSDT" daily four_hours short_config (first_index short_config) result.trades
    × (total_advance result.trades ≤ length four_hours - first_index short_config)
    × (result.summary ≡ summarize "BTCUSDT" result.trades)
replay-Entries_example = replay-Entries "BTCUSDT" daily four_hours short_config 6 result replays

summarize_lem_example :
    ((summarize "BTCUSDT" (trade ∷ [])).wins + (summarize "BTCUSDT" (trade ∷ [])).losses
      ≡ (summarize "BTCUSDT" (trade ∷ [])).trades)
    × ((summarize "BTCUSDT" (trade ∷ [])).total_pnl
        ≡ last_from nought (equity_curve nought (trade ∷ [])))
    × (Decimal.le (summarize "BTCUSDT" (trade ∷ [])).max_drawdown nought ≡ true)
    × All
        (λ d. Decimal.le (summarize "BTCUSDT" (trade ∷ [])).max_drawdown d ≡ true)
        (drawdowns nought (equity_curve nought (trade ∷ [])))
summarize_lem_example = summarize_lem "BTCUSDT" (trade ∷ [])

-- a market whose last four-hour bar breaks out, with a quiet hour
abbrev market : SleeveBMarketData
market = record {
  symbol = "BTCUSDT";
  daily_bars = daily;
  four_hour_bars =
      bar "2024-02-01 00" 101 99 100
      ∷ bar "2024-02-01 04" 102 98 100
      ∷ bar "2024-02-01 08" 112 100 110
      ∷ [];
  one_hour_bars = bar "2024-02-01 10" 109 107 108 ∷ bar "2024-02-01 11" 112 108 111 ∷ [];
}

abbrev market_config : SleeveBCandidateBuilderConfig
market_config = record Candidates.default_config {
  donchian_lookback_bars = 1;
  atr_period = 1;
  one_hour_ema_period = 2;
}

-- stands for `str.lower`
abbrev pub unchanged : String → String
unchanged s = s

abbrev candidate : SleeveBSignalCandidate
candidate = record {
  symbol = "BTCUSDT";
  side = long;
  entry_price = Decimal.literal 110 0;
  stop_price = Decimal.literal 8000000000000000000000000000 26;
  setup_id = "auto-BTCUSDT-20D_4H_BREAKOUT_";
}

abbrev built : SleeveBCandidateBuildResult
built = record { symbol = "BTCUSDT"; candidate = some candidate; reason = "20D_4H_BREAKOUT_LONG" }

builds : build_sleeve_b_candidate unchanged market market_config ≡ ok built
unfolding build_sleeve_b_candidate
    crypto_dual_sleeve_tradi.Strategies.Signals.regime_from_daily_close Decimal.div Decimal.lt
    Decimal.le Decimal.add Decimal.mul Decimal.sub
    crypto_dual_sleeve_tradi.Strategies.Signals.donchian_signal Decimal.sum Decimal.max Decimal.abs
    Decimal.min
builds = refl

build-IsBuilt_example : IsBuilt unchanged market market_config candidate
build-IsBuilt_example = build-IsBuilt unchanged market market_config built candidate builds refl
