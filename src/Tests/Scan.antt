-- ===== src/Tests/Scan.antt =====
-- The scan of the symbols at a concrete input.
use crypto_dual_sleeve_tradi.Base.{
  refl, All, ◌≡◌, ◌≡◌, none, map, some, ℕ, zero, suc, String, List, [], ◌∷◌,
}
use crypto_dual_sleeve_tradi.Base.Result.{ok}
use crypto_dual_sleeve_tradi.Base.Key.{string_key, pair_key}
use crypto_dual_sleeve_tradi.Core.Enums.{
  long, trading_mode_enum, sleeve_id_enum, order_side_enum, position_side_enum, order_type_enum,
  order_action_enum, order_status_enum, safe_mode_state_enum, circuit_action_enum,
}
use crypto_dual_sleeve_tradi.Strategies.Bars.{OhlcBar}
use crypto_dual_sleeve_tradi.Exchange.Inert.{InertExchange}
use crypto_dual_sleeve_tradi.Ops.Startup.{fetch_markets, scan, ScanLimits}
use crypto_dual_sleeve_tradi.Tests.Replay.{unchanged, rising, bar}
use crypto_dual_sleeve_tradi.Tests.Samples.{empty_exchange}
use crypto_dual_sleeve_tradi.Strategies.Candidates.{
  SleeveBMarketData, build_sleeve_b_candidate, SleeveBCandidateBuildResult,
}
use crypto_dual_sleeve_tradi.Execution.Allocator.{SleeveBSignalCandidate}
use crypto_dual_sleeve_tradi.Ops.Startup.Scan.{scan-IsJustified, IsJustified}
use crypto_dual_sleeve_tradi.Exchange.Inert
use crypto_dual_sleeve_tradi.Decimal

abbrev repeated : ℕ → OhlcBar → List OhlcBar → List OhlcBar
repeated zero b rest = rest
repeated (suc n) b rest = b ∷ repeated n b rest

abbrev hours : List OhlcBar
hours = repeated 19 (bar "2024-02-01 10" 122 118 120) (bar "2024-02-01 11" 122 118 121 ∷ [])

-- an exchange with the bars of one symbol
abbrev charted : InertExchange
charted = record empty_exchange {
  klines =
      (("BTCUSDT", "1d"), rising 200 100)
      ∷ (("BTCUSDT", "4h"), rising 121 100)
      ∷ (("BTCUSDT", "1h"), hours)
      ∷ [];
}

abbrev limits : ScanLimits
limits = record { daily = 250; four_hour = 150; one_hour = 100 }

abbrev symbols : List String
symbols = "BTCUSDT" ∷ "ETHUSDT" ∷ []

abbrev candidate : SleeveBSignalCandidate
candidate = record {
  symbol = "BTCUSDT";
  side = long;
  entry_price = Decimal.literal 1209395000000000000000000000 25;
  stop_price = Decimal.literal 1209395000000000000000000000 25;
  setup_id = "auto-BTCUSDT-20D_4H_BREAKOUT_";
}

abbrev results : List SleeveBCandidateBuildResult
results =
    record { symbol = "BTCUSDT"; candidate = some candidate; reason = "20D_4H_BREAKOUT_LONG" }
    ∷ record { symbol = "ETHUSDT"; candidate = none; reason = "INSUFFICIENT_DAILY_DATA" }
    ∷ []

scans : (scan Inert.fetch_klines unchanged limits symbols charted).0 ≡ ok results
unfolding scan Inert.fetch_klines build_sleeve_b_candidate
    crypto_dual_sleeve_tradi.Strategies.Candidates.insufficient
    crypto_dual_sleeve_tradi.Strategies.Candidates.on_signal
    crypto_dual_sleeve_tradi.Base.Dict.lookup
    crypto_dual_sleeve_tradi.Strategies.Signals.regime_from_daily_close Decimal.div Decimal.lt
    Decimal.le Decimal.add Decimal.mul Decimal.sub
    crypto_dual_sleeve_tradi.Strategies.Signals.donchian_signal Decimal.max Decimal.sum Decimal.abs
    Decimal.min
scans = refl

scan-IsJustified_example :
    (markets : List SleeveBMarketData) × ((fetch_markets Inert.fetch_klines unchanged limits symbols
        charted).0
      ≡ ok markets)
    × (map (λ market. market.symbol) markets ≡ symbols)
    × IsJustified Inert.fetch_klines unchanged markets results
scan-IsJustified_example =
    scan-IsJustified Inert.fetch_klines unchanged limits symbols charted results scans
