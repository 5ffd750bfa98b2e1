-- ===== src/Strategies/Candidates/Built.antt =====
-- What stands behind a candidate of strategies/sleeve_b_candidate_builder.py.
use crypto_dual_sleeve_tradi.Base.{
  String, ◌≡◌, ◌⊎◌, inl, inr, false, none, some, map, arith, if◌then◌else◌, Bool-cases,
  Option-cases,
}
use crypto_dual_sleeve_tradi.Base.Text.{str_eq, eq_iff}
use crypto_dual_sleeve_tradi.Base.Result.{Result-cases, ok}
use crypto_dual_sleeve_tradi.Base.Key.{string_key, pair_key}
use crypto_dual_sleeve_tradi.Strategies.Candidates.{
  one_hour_timing, final_bar, candidate_of, insufficient, SleeveBCandidateBuildResult,
  SleeveBCandidateBuilderConfig, build_sleeve_b_candidate, on_signal, SleeveBMarketData,
}
use crypto_dual_sleeve_tradi.Strategies.Signals.{
  window, donchian_signal, regime_from_daily_close, SleeveBSignal,
}
use crypto_dual_sleeve_tradi.Execution.Allocator.{SleeveBSignalCandidate}
use crypto_dual_sleeve_tradi.Strategies.Bars.{OhlcBar}
use crypto_dual_sleeve_tradi.Strategies.Candidates.Parts.{
  last-final, IsPriced, candidate_of-IsPriced, one_hour_timing-Timed, Timed,
}
use crypto_dual_sleeve_tradi.Strategies.Signals.Breakout.{donchian-IsBreakout, IsBreakout}
use crypto_dual_sleeve_tradi.Core.Enums.{
  PositionSide, trading_mode_enum, sleeve_id_enum, order_side_enum, position_side_enum,
  order_type_enum, order_action_enum, order_status_enum, safe_mode_state_enum, circuit_action_enum,
}

module _ (lower : String → String) where
  -- what stands behind a candidate
  abbrev pub IsBuilt :
      SleeveBMarketData → SleeveBCandidateBuilderConfig → SleeveBSignalCandidate → Type 0
  IsBuilt market_data cfg c =
      (regime : String) × (last : OhlcBar) × (c.symbol ≡ market_data.symbol)
      × (insufficient market_data cfg ≡ none)
      × (regime_from_daily_close (map (λ bar. bar.close) market_data.daily_bars) ≡ ok regime)
      × (final_bar market_data.four_hour_bars ≡ ok last)
      × IsBreakout c.side regime last.close
          (window cfg.donchian_lookback_bars (map (λ bar. bar.high) market_data.four_hour_bars))
          (window cfg.donchian_lookback_bars (map (λ bar. bar.low) market_data.four_hour_bars))
      × ((cfg.require_1h_timing ≡ false) ⊎ Timed c.side market_data.one_hour_bars cfg)
      × IsPriced market_data cfg last c

  -- what a signal's side comes to
  on_signal-Made :
      (signal : SleeveBSignal) (side : PositionSide) (market_data : SleeveBMarketData)
      (cfg : SleeveBCandidateBuilderConfig) (result : SleeveBCandidateBuildResult)
      (c : SleeveBSignalCandidate)
      → on_signal lower signal market_data cfg ≡ ok result
      → signal.side ≡ some side
      → result.candidate ≡ some c
      → ((cfg.require_1h_timing ≡ false) ⊎ Timed side market_data.one_hour_bars cfg)
        × (candidate_of lower side signal.reason market_data cfg ≡ ok c)
  unfolding on_signal
  on_signal-Made signal side market_data cfg result c h sides has =
      let timing =
        if cfg.require_1h_timing
        then one_hour_timing side market_data.one_hour_bars cfg
        else ok "OK" in
      elim (Result-cases timing) [
        | inr (e, fails) ↦ absurd (ground arith)
        | inl (said, says) ↦ elim (Bool-cases (str_eq said "OK")) [
          | inr other ↦ absurd (ground arith)
          | inl good ↦ elim (Result-cases (candidate_of lower side signal.reason market_data cfg)) [
            | inr (e, fails) ↦ absurd (ground arith)
            | inl (made, makes) ↦ (
              ground (
                arith,
                eq_iff said "OK",
                one_hour_timing-Timed side market_data.one_hour_bars cfg,
              ),
              ground arith,
            )
          ]
        ]
      ]

  no_side-None :
      (signal : SleeveBSignal) (market_data : SleeveBMarketData)
      (cfg : SleeveBCandidateBuilderConfig) (result : SleeveBCandidateBuildResult)
      (c : SleeveBSignalCandidate)
      → on_signal lower signal market_data cfg ≡ ok result
      → signal.side ≡ none
      → result.candidate ≡ some c
      → ⊥
  unfolding on_signal
  no_side-None signal market_data cfg result c h sides has = ground arith

  signal-IsBuilt :
      (regime : String) (signal : SleeveBSignal) (side : PositionSide)
      (market_data : SleeveBMarketData) (cfg : SleeveBCandidateBuilderConfig)
      (result : SleeveBCandidateBuildResult) (c : SleeveBSignalCandidate)
      → insufficient market_data cfg ≡ none
      → regime_from_daily_close (map (λ bar. bar.close) market_data.daily_bars) ≡ ok regime
      → donchian_signal market_data.symbol regime
          (map (λ bar. bar.close) market_data.four_hour_bars)
          (map (λ bar. bar.high) market_data.four_hour_bars)
          (map (λ bar. bar.low) market_data.four_hour_bars)
          cfg.donchian_lookback_bars
        ≡ ok signal
      → on_signal lower signal market_data cfg ≡ ok result
      → signal.side ≡ some side
      → result.candidate ≡ some c
      → IsBuilt market_data cfg c
  signal-IsBuilt regime signal side market_data cfg result c enough regimes signals goes sides has =
      let bars = market_data.four_hour_bars in
      let (timed, makes) = on_signal-Made signal side market_data cfg result c goes sides has in
      let (is_side, is_symbol, behind) =
        candidate_of-IsPriced lower side signal.reason market_data cfg c makes in
      let (last, finals, priced) = behind in
      let (close, closes, breakout) =
        donchian-IsBreakout market_data.symbol regime (map (λ bar. bar.close) bars)
          (map (λ bar. bar.high) bars) (map (λ bar. bar.low) bars) cfg.donchian_lookback_bars signal
          side signals sides in
      let same : close ≡ last.close = ground (arith, last-final bars last finals) in
      (
        regime,
        last,
        is_symbol,
        enough,
        regimes,
        finals,
        rw (is_side, ← same) breakout,
        rw is_side timed,
        priced,
      )

  pub build-symbol :
      (market_data : SleeveBMarketData) (cfg : SleeveBCandidateBuilderConfig)
      (result : SleeveBCandidateBuildResult)
      → build_sleeve_b_candidate lower market_data cfg ≡ ok result
      → result.symbol ≡ market_data.symbol
  unfolding build_sleeve_b_candidate on_signal
  build-symbol market_data cfg result h = ground arith

  -- A candidate is built only from enough bars, on a breakout of the last four-hour bar in the regime
  -- of the daily closes, and, where the configuration asks for it, with the last hour on the right side
  -- of its average, not too far from it and not a reversal. Its entry price is no worse than the last
  -- four-hour close, and its stop stands as many true ranges behind the entry as the configuration
  -- says.
  pub build-IsBuilt :
      (market_data : SleeveBMarketData) (cfg : SleeveBCandidateBuilderConfig)
      (result : SleeveBCandidateBuildResult) (c : SleeveBSignalCandidate)
      → build_sleeve_b_candidate lower market_data cfg ≡ ok result
      → result.candidate ≡ some c
      → IsBuilt market_data cfg c
  unfolding build_sleeve_b_candidate
  build-IsBuilt market_data cfg result c h has =
      let closes = map (λ bar. bar.close) market_data.four_hour_bars in
      let highs = map (λ bar. bar.high) market_data.four_hour_bars in
      let lows = map (λ bar. bar.low) market_data.four_hour_bars in
      let n = cfg.donchian_lookback_bars in
      elim (Option-cases (insufficient market_data cfg)) [
        | inr (reason, lacks) ↦ absurd (ground arith)
        | inl enough ↦
            elim (Result-cases
              (regime_from_daily_close (map (λ bar. bar.close) market_data.daily_bars))) [
                | inr (e, fails) ↦ absurd (ground arith)
                | inl (regime, regimes) ↦
                    elim (Result-cases
                      (donchian_signal market_data.symbol regime closes highs lows n)) [
                        | inr (e, fails) ↦ absurd (ground arith)
                        | inl (signal, signals) ↦
                            let goes : on_signal lower signal market_data cfg ≡ ok result =
                              ground arith in
                            elim (Option-cases signal.side) [
                              | inl no_side ↦
                                  absurd
                                    (no_side-None signal market_data cfg result c goes no_side has)
                              | inr (side, sides) ↦
                                  signal-IsBuilt regime signal side market_data cfg result c enough
                                    regimes signals goes sides has
                            ]
                      ]
              ]
      ]
