-- ===== src/Strategies/Series/Trades.antt =====
-- The trades of a replay in strategies/sleeve_b_replay.py: they follow one another, and each is entered
-- on a breakout.
use crypto_dual_sleeve_tradi.Base.{
  take, get_elem?, ℕ, zero, suc, ◌+◌, ◌-◌, ◌≤◌, ◌<◌, String, ◌≡◌, refl, ap, inl, inr, some, List,
  [], ◌∷◌, map, arith, Option-cases, length,
}
use crypto_dual_sleeve_tradi.Base.Enum.{is}
use crypto_dual_sleeve_tradi.Base.Result.{Result-cases, ok}
use crypto_dual_sleeve_tradi.Base.Key.{string_key, pair_key}
use crypto_dual_sleeve_tradi.Decimal.{Decimal}
use crypto_dual_sleeve_tradi.Strategies.Replay.{simulate_trade, SleeveBReplayConfig, SleeveBTrade}
use crypto_dual_sleeve_tradi.Strategies.Signals.{
  SleeveBSignal, last_from, donchian_signal, window, regime_from_daily_close, last_item,
}
use crypto_dual_sleeve_tradi.Strategies.Bars.{OhlcBar}
use crypto_dual_sleeve_tradi.Strategies.Series.{signal_at, daily_closes_until, trade_at, advance}
use crypto_dual_sleeve_tradi.Strategies.Signals.Breakout.{donchian-IsBreakout, IsBreakout}
use crypto_dual_sleeve_tradi.Strategies.Series.Rounds.{entered_at, passed, ended, Replayed}
use crypto_dual_sleeve_tradi.Strategies.Replay.Trades.{simulate-Made, simulate-EndsAs}
use crypto_dual_sleeve_tradi.Core.Enums.{
  PositionSide, trading_mode_enum, sleeve_id_enum, order_side_enum, position_side_enum,
  order_type_enum, order_action_enum, order_status_enum, safe_mode_state_enum, circuit_action_enum,
}

-- the bars that the trades move on by
abbrev pub total_advance : List SleeveBTrade → ℕ
total_advance [] = 0
total_advance (trade ∷ trades) = advance trade + total_advance trades

last_from-seen :
    (bars : List OhlcBar) (i : ℕ) (bar : OhlcBar) (last : Decimal)
    → get_elem? bars i ≡ some bar
    → last_from last (map (λ item. item.close) (take (suc i) bars)) ≡ bar.close
unfolding last_from
last_from-seen [] i bar last h = cc
last_from-seen (b ∷ bars) zero bar last h = ground arith
last_from-seen (b ∷ bars) (suc i) bar last h = last_from-seen bars i bar b.close h

-- the last close of the bars up to one is the close of that bar
last-seen :
    (bars : List OhlcBar) (i : ℕ) (bar : OhlcBar)
    → get_elem? bars i ≡ some bar
    → last_item (map (λ item. item.close) (take (i + 1) bars)) ≡ ok bar.close
unfolding last_item
last-seen [] i bar h = cc
last-seen (b ∷ bars) i bar h =
    let e : i + 1 ≡ suc i = omega arith in rw e (ap ok (last_from-seen (b ∷ bars) i bar b.close h))

module _ (symbol : String) (daily_bars four_hour_bars : List OhlcBar)
    (cfg : SleeveBReplayConfig) where
  -- what stands behind a trade that a round enters
  abbrev pub EntersAt : ℕ → SleeveBTrade → Type 0
  EntersAt index trade =
      (bar : OhlcBar) × (regime : String) × (get_elem? four_hour_bars index ≡ some bar)
      × (regime_from_daily_close (daily_closes_until daily_bars bar.timestamp) ≡ ok regime)
      × (trade.entry_price ≡ bar.close)
      × (index + trade.bars_held < length four_hour_bars)
      × IsBreakout trade.side regime bar.close
          (window cfg.donchian_lookback_bars
            (map (λ item. item.high) (take (index + 1) four_hour_bars)))
          (window cfg.donchian_lookback_bars
            (map (λ item. item.low) (take (index + 1) four_hour_bars)))

  trade-EntersAt :
      (index : ℕ) (bar : OhlcBar) (regime : String) (signal : SleeveBSignal) (side : PositionSide)
      (trade : SleeveBTrade)
      → get_elem? four_hour_bars index ≡ some bar
      → regime_from_daily_close (daily_closes_until daily_bars bar.timestamp) ≡ ok regime
      → donchian_signal symbol regime
          (map (λ item. item.close) (take (index + 1) four_hour_bars))
          (map (λ item. item.high) (take (index + 1) four_hour_bars))
          (map (λ item. item.low) (take (index + 1) four_hour_bars))
          cfg.donchian_lookback_bars
        ≡ ok signal
      → signal.side ≡ some side
      → simulate_trade symbol side four_hour_bars index cfg ≡ ok trade
      → EntersAt index trade
  trade-EntersAt index bar regime signal side trade inside is_regime signals sides made =
      let seen = take (index + 1) four_hour_bars in
      let closes = map (λ item. item.close) seen in
      let highs = map (λ item. item.high) seen in
      let lows = map (λ item. item.low) seen in
      let (last, lasts, breakout) =
        donchian-IsBreakout symbol regime closes highs lows cfg.donchian_lookback_bars signal side
          signals sides in
      let same : last ≡ bar.close = ground (arith, last-seen four_hour_bars index bar inside) in
      let (ends, once, within, time) =
        simulate-EndsAs symbol side four_hour_bars index cfg trade made in
      let (entry_bar, distance, quantity, gross_r, at, wide, is) =
        simulate-Made symbol side four_hour_bars index cfg trade made in
      let is_side : trade.side ≡ side = rw is refl in
      let price : trade.entry_price ≡ bar.close = rw is (ground arith) in
      (bar, regime, inside, is_regime, price, within, rw (is_side, ← same) breakout)

  trade_at-EntersAt :
      (index : ℕ) (bar : OhlcBar) (trade : SleeveBTrade)
      → get_elem? four_hour_bars index ≡ some bar
      → trade_at symbol daily_bars four_hour_bars cfg index bar ≡ ok (some trade)
      → EntersAt index trade
  unfolding trade_at signal_at
  trade_at-EntersAt index bar trade inside h =
      let seen = take (index + 1) four_hour_bars in
      let closes = map (λ item. item.close) seen in
      let highs = map (λ item. item.high) seen in
      let lows = map (λ item. item.low) seen in
      elim (Result-cases (regime_from_daily_close (daily_closes_until daily_bars bar.timestamp))) [
        | inr (e, fails) ↦ absurd (ground arith)
        | inl (regime, is_regime) ↦
            elim (Result-cases
              (donchian_signal symbol regime closes highs lows cfg.donchian_lookback_bars)) [
                | inr (e, fails) ↦ absurd (ground arith)
                | inl (signal, signals) ↦ elim (Option-cases signal.side) [
                  | inl no_side ↦ absurd (ground arith)
                  | inr (side, sides) ↦
                      trade-EntersAt index bar regime signal side trade inside is_regime signals
                        sides (ground arith)
                ]
              ]
      ]

  -- The entries of the rounds, in order: each trade at an index behind the bars that the trade before
  -- it was held.
  pub data Entries : ℕ → List SleeveBTrade → Type 0 where
    none_left : {i : ℕ} → Entries i []
    entry :
        {i : ℕ} (index : ℕ) {trade : SleeveBTrade} {ts : List SleeveBTrade}
        → i ≤ index
        → EntersAt index trade
        → Entries (index + advance trade) ts
        → Entries i (trade ∷ ts)

  earlier : (i j : ℕ) (ts : List SleeveBTrade) → i ≤ j → Entries j ts → Entries i ts
  earlier i j _ le none_left = none_left
  earlier i j _ le (entry index after e es) = entry index (omega arith) e es

  pub rounds-Entries :
      (i : ℕ) (ts : List SleeveBTrade)
      → Replayed symbol daily_bars four_hour_bars cfg i ts
      → Entries i ts
  rounds-Entries i _ (ended out) = none_left
  rounds-Entries i ts (passed bar inside none_at r) =
      earlier i (i + 1) ts (omega arith) (rounds-Entries (i + 1) ts r)
  rounds-Entries i _ (entered_at bar {trade = trade} {ts = ts} inside some_at r) =
      entry i (omega arith) (trade_at-EntersAt i bar trade inside some_at)
        (rounds-Entries (i + advance trade) ts r)

  -- all trades together move on by no more than the bars there are
  pub Entries-bound :
      (i : ℕ) (ts : List SleeveBTrade) → Entries i ts → total_advance ts ≤ length four_hour_bars - i
  Entries-bound i _ none_left = omega arith
  Entries-bound i _
        (entry index {trade = trade} {ts = ts} after
          (bar, regime, at, is, price, inside, breakout)
          es) =
      ground (arith, Entries-bound (index + advance trade) ts es)
