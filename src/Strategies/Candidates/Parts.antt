-- ===== src/Strategies/Candidates/Parts.antt =====
-- The parts of strategies/sleeve_b_candidate_builder.py: the timing of an entry and its prices.
use crypto_dual_sleeve_tradi.Base.{
  String, ◌≡◌, refl, sym, inl, inr, Bool, true, false, List, [], ◌∷◌, map, arith,
}
use crypto_dual_sleeve_tradi.Base.Text.{str_eq, eq_iff}
use crypto_dual_sleeve_tradi.Base.Result.{Result-cases, Result, ok, err}
use crypto_dual_sleeve_tradi.Base.Key.{string_key, pair_key}
use crypto_dual_sleeve_tradi.Decimal
use crypto_dual_sleeve_tradi.Decimal.{Decimal, nought}
use crypto_dual_sleeve_tradi.Strategies.Candidates.{
  bullish_reversal, timing_tests, bearish_reversal, SleeveBCandidateBuilderConfig, candidate_of,
  final_bar, SleeveBMarketData, refined_entry_price, one_hour_timing, timing_of,
}
use crypto_dual_sleeve_tradi.Strategies.Signals.{ema, last_item, last_from}
use crypto_dual_sleeve_tradi.Strategies.Bars.{atr, last_bar, OhlcBar}
use crypto_dual_sleeve_tradi.Decimal.Order.{le-max_left, min-le_left, le_refl}
use crypto_dual_sleeve_tradi.Execution.Allocator.{SleeveBSignalCandidate}
use crypto_dual_sleeve_tradi.Strategies.Replay.{away}
use crypto_dual_sleeve_tradi.Core.Enums.{
  short, long, PositionSide, trading_mode_enum, sleeve_id_enum, order_side_enum, position_side_enum,
  order_type_enum, order_action_enum, order_status_enum, safe_mode_state_enum, circuit_action_enum,
}

-- the close of the last hour stands on the right side of the average, not too far, without a reversal
abbrev pub IsTimed : PositionSide → Decimal → OhlcBar → Decimal → Type 0
IsTimed long average last limit =
    (Decimal.lt last.close average ≡ false)
    × (bearish_reversal last ≡ ok false)
    × (Decimal.lt limit (Decimal.sub last.close average) ≡ false)
IsTimed short average last limit =
    (Decimal.lt average last.close ≡ false)
    × (bullish_reversal last ≡ ok false)
    × (Decimal.lt limit (Decimal.sub average last.close) ≡ false)

timing_of-ok :
    (beyond : Bool) (reversal : Result Bool) (extended : Bool) (far back wide : String)
    → str_eq far "OK" ≡ false
    → str_eq back "OK" ≡ false
    → str_eq wide "OK" ≡ false
    → timing_of beyond reversal extended far back wide ≡ ok "OK"
    → (beyond ≡ false) × (reversal ≡ ok false) × (extended ≡ false)
timing_of-ok true reversal extended far back wide f b w h = ground (arith, eq_iff far "OK")
timing_of-ok false (err e) extended far back wide f b w h = cc
timing_of-ok false (ok true) extended far back wide f b w h = ground (arith, eq_iff back "OK")
timing_of-ok false (ok false) true far back wide f b w h = ground (arith, eq_iff wide "OK")
timing_of-ok false (ok false) false far back wide f b w h = (refl, refl, refl)

timing_tests-IsTimed :
    (side : PositionSide) (average : Decimal) (last : OhlcBar) (limit : Decimal)
    → timing_tests side average last limit ≡ ok "OK"
    → IsTimed side average last limit
timing_tests-IsTimed long average last limit h =
    timing_of-ok (Decimal.lt last.close average) (bearish_reversal last)
      (Decimal.lt limit (Decimal.sub last.close average)) "ONE_HOUR_LONG_BELOW_EMA20"
      "ONE_HOUR_LONG_BEARISH_REVERSAL" "ONE_HOUR_LONG_OVEREXTENDED" refl refl refl h
timing_tests-IsTimed short average last limit h =
    timing_of-ok (Decimal.lt average last.close) (bullish_reversal last)
      (Decimal.lt limit (Decimal.sub average last.close)) "ONE_HOUR_SHORT_ABOVE_EMA20"
      "ONE_HOUR_SHORT_BULLISH_REVERSAL" "ONE_HOUR_SHORT_OVEREXTENDED" refl refl refl h

-- the prices of the last hour that a timing reads
abbrev pub Timed : PositionSide → List OhlcBar → SleeveBCandidateBuilderConfig → Type 0
Timed side bars cfg =
    (averages : List Decimal) × (average : Decimal) × (last : OhlcBar) × (range : Decimal) × (ema
        (map (λ bar. bar.close) bars) cfg.one_hour_ema_period
      ≡ ok averages)
    × (last_item averages ≡ ok average)
    × (final_bar bars ≡ ok last)
    × (atr bars cfg.atr_period ≡ ok range)
    × IsTimed side average last (Decimal.mul range cfg.max_1h_extension_atr)

pub one_hour_timing-Timed :
    (side : PositionSide) (bars : List OhlcBar) (cfg : SleeveBCandidateBuilderConfig)
    → one_hour_timing side bars cfg ≡ ok "OK"
    → Timed side bars cfg
unfolding one_hour_timing
one_hour_timing-Timed side bars cfg h =
    elim (Result-cases (ema (map (λ bar. bar.close) bars) cfg.one_hour_ema_period)) [
      | inr (e, fails) ↦ absurd (ground arith)
      | inl (averages, averaged) ↦ elim (Result-cases (last_item averages)) [
        | inr (e, fails) ↦ absurd (ground arith)
        | inl (average, lasts) ↦ elim (Result-cases (final_bar bars)) [
          | inr (e, fails) ↦ absurd (ground arith)
          | inl (last, finals) ↦ elim (Result-cases (atr bars cfg.atr_period)) [
            | inr (e, fails) ↦ absurd (ground arith)
            | inl (range, ranges) ↦
                let limit = Decimal.mul range cfg.max_1h_extension_atr in
                (
                  averages,
                  average,
                  last,
                  range,
                  averaged,
                  lasts,
                  finals,
                  ranges,
                  timing_tests-IsTimed side average last limit (ground arith),
                )
          ]
        ]
      ]
    ]

-- a price that is no worse than another
abbrev pub NoWorse : PositionSide → Decimal → Decimal → Type 0
NoWorse long price close = Decimal.le price close ≡ true
NoWorse short price close = Decimal.le close price ≡ true

refined-NoWorse :
    (side : PositionSide) (close : Decimal) (bars : List OhlcBar)
    (cfg : SleeveBCandidateBuilderConfig) (price : Decimal)
    → refined_entry_price side close bars cfg ≡ ok price
    → NoWorse side price close
unfolding refined_entry_price
refined-NoWorse long close [] cfg price h =
    let same : close ≡ price = ground arith in rw (← same) (le_refl close)
refined-NoWorse short close [] cfg price h =
    let same : close ≡ price = ground arith in rw (← same) (le_refl close)
refined-NoWorse long close (bar ∷ bars) cfg price h =
    elim (Result-cases (Decimal.div cfg.entry_offset_bps (Decimal.literal 10000 0))) [
      | inr (e, fails) ↦ absurd (ground arith)
      | inl (offset, offsets) ↦
          let beside = Decimal.mul (last_bar bar bars).close (Decimal.sub Decimal.one offset) in
          let same : Decimal.min close beside ≡ price = ground arith in
          rw (← same) (min-le_left close beside)
    ]
refined-NoWorse short close (bar ∷ bars) cfg price h =
    elim (Result-cases (Decimal.div cfg.entry_offset_bps (Decimal.literal 10000 0))) [
      | inr (e, fails) ↦ absurd (ground arith)
      | inl (offset, offsets) ↦
          let beside = Decimal.mul (last_bar bar bars).close (Decimal.add Decimal.one offset) in
          let same : Decimal.max close beside ≡ price = ground arith in
          rw (← same) (le-max_left close beside)
    ]

-- the prices of a candidate: the entry is no worse than the last four-hour close, and the stop is as
-- many true ranges away from the entry as the configuration says
abbrev pub IsPriced :
    SleeveBMarketData → SleeveBCandidateBuilderConfig → OhlcBar → SleeveBSignalCandidate → Type 0
IsPriced market_data cfg last c =
    NoWorse c.side c.entry_price last.close
    × ((range : Decimal) × (atr market_data.four_hour_bars cfg.atr_period ≡ ok range)
        × (c.stop_price ≡ away c.side c.entry_price (Decimal.mul range cfg.stop_atr_multiple)))

last_from-final :
    (bar : OhlcBar) (bars : List OhlcBar)
    → last_from bar.close (map (λ item. item.close) bars) ≡ (last_bar bar bars).close
unfolding last_from last_bar
last_from-final bar [] = refl
last_from-final bar (next ∷ bars) = last_from-final next bars

pub last-final :
    (bars : List OhlcBar) (last : OhlcBar)
    → final_bar bars ≡ ok last
    → last_item (map (λ item. item.close) bars) ≡ ok last.close
unfolding final_bar last_item
last-final [] last h = cc
last-final (bar ∷ bars) last h = ground (arith, last_from-final bar bars)

module _ (lower : String → String) where
  pub candidate_of-IsPriced :
      (side : PositionSide) (reason : String) (market_data : SleeveBMarketData)
      (cfg : SleeveBCandidateBuilderConfig) (c : SleeveBSignalCandidate)
      → candidate_of lower side reason market_data cfg ≡ ok c
      → (c.side ≡ side)
        × (c.symbol ≡ market_data.symbol)
        × ((last : OhlcBar) × (final_bar market_data.four_hour_bars ≡ ok last)
            × IsPriced market_data cfg last c)
  unfolding candidate_of
  candidate_of-IsPriced side reason market_data cfg c h =
      elim (Result-cases (final_bar market_data.four_hour_bars)) [
        | inr (e, fails) ↦ absurd (ground arith)
        | inl (last, finals) ↦
            elim (Result-cases
              (refined_entry_price side last.close market_data.one_hour_bars cfg)) [
                | inr (e, fails) ↦ absurd (ground arith)
                | inl (price, prices) ↦
                    elim (Result-cases (atr market_data.four_hour_bars cfg.atr_period)) [
                      | inr (e, fails) ↦ absurd (ground arith)
                      | inl (range, ranges) ↦
                          let is_side : side ≡ c.side = ground arith in
                          let is_price : price ≡ c.entry_price = ground arith in
                          let good =
                            refined-NoWorse side last.close market_data.one_hour_bars cfg price
                              prices in
                          (
                            sym is_side,
                            ground arith,
                            (
                              last,
                              finals,
                              (rw (← is_side, ← is_price) good, (range, ranges, ground arith)),
                            ),
                          )
                    ]
              ]
      ]
