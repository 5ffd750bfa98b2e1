-- ===== src/Strategies/Series/Replays.antt =====
-- The results of strategies/sleeve_b_replay.py.
use crypto_dual_sleeve_tradi.Base.{
  ℕ, ◌+◌, ◌-◌, ◌≤◌, ◌<◌, String, ◌≡◌, refl, sym, ap, ◌∙◌, inl, inr, true, some, List, [], ◌∷◌, map,
  arith, Option-cases, length, keep, All,
}
use crypto_dual_sleeve_tradi.Base.Enum.{value}
use crypto_dual_sleeve_tradi.Base.Result.{Result-cases, Result, ok}
use crypto_dual_sleeve_tradi.Base.Key.{string_key, pair_key}
use crypto_dual_sleeve_tradi.Decimal
use crypto_dual_sleeve_tradi.Decimal.{sum_from, Decimal, nought}
use crypto_dual_sleeve_tradi.Strategies.Bars.{OhlcBar}
use crypto_dual_sleeve_tradi.Strategies.Series.{
  replay_from, with_summary, first_index, SleeveBReplayResult, lost, run_sleeve_b_replay,
  equity_curve, won, summarize, max_drawdown_from,
}
use crypto_dual_sleeve_tradi.Strategies.Replay.{SleeveBReplayConfig, SleeveBTrade}
use crypto_dual_sleeve_tradi.Strategies.Signals.{last_from}
use crypto_dual_sleeve_tradi.Decimal.Order.{min-le_right, min-le_left, le_trans, le_refl}
use crypto_dual_sleeve_tradi.Strategies.Series.Rounds.{Replayed, rounds, from_enough}
use crypto_dual_sleeve_tradi.Strategies.Series.Trades.{
  Entries-bound, rounds-Entries, total_advance, Entries,
}
use crypto_dual_sleeve_tradi.Core.Enums.{
  trading_mode_enum, sleeve_id_enum, order_side_enum, position_side_enum, order_type_enum,
  order_action_enum, order_status_enum, safe_mode_state_enum, circuit_action_enum,
}

module _ (symbol : String) (daily_bars four_hour_bars : List OhlcBar)
    (cfg : SleeveBReplayConfig) where
  -- A replay ends: with more fuel than there are four-hour bars it gives a result or raises, and any
  -- other fuel that is more than the bars comes to the same.
  pub replay_ends :
      (fuel fuel' : ℕ)
      → length four_hour_bars < fuel
      → length four_hour_bars < fuel'
      → (outcome : Result SleeveBReplayResult) × (run_sleeve_b_replay symbol daily_bars
            four_hour_bars cfg fuel
          ≡ some outcome)
        × (run_sleeve_b_replay symbol daily_bars four_hour_bars cfg fuel' ≡ some outcome)
  unfolding run_sleeve_b_replay
  replay_ends fuel fuel' h k =
      let (outcome, e, e') =
        from_enough symbol daily_bars four_hour_bars cfg fuel fuel' (first_index cfg) []
          (omega arith) (omega arith) in
      (with_summary symbol outcome, rw e refl, rw e' refl)

  -- The trades of a replay that gives a result are those of its rounds from the first index, that there
  -- are bars enough for, up to the end of the bars: a round without a signal moves on by one bar, and
  -- one with a signal enters a trade and moves on by the bars that it is held. So each trade is entered
  -- behind those that the trade before it was held, at the close of its bar, which breaks out of the
  -- channel in the regime of its daily closes, and together they move on by no more bars than there are
  -- from the first index on. The summary is that of these trades.
  pub replay-Entries :
      (fuel : ℕ) (result : SleeveBReplayResult)
      → run_sleeve_b_replay symbol daily_bars four_hour_bars cfg fuel ≡ some (ok result)
      → Replayed symbol daily_bars four_hour_bars cfg (first_index cfg) result.trades
        × Entries symbol daily_bars four_hour_bars cfg (first_index cfg) result.trades
        × (total_advance result.trades ≤ length four_hour_bars - first_index cfg)
        × (result.summary ≡ summarize symbol result.trades)
  unfolding run_sleeve_b_replay
  replay-Entries fuel result h =
      elim (Option-cases
        (replay_from symbol daily_bars four_hour_bars cfg fuel (first_index cfg) [])) [
          | inl out ↦ absurd (ground arith)
          | inr (outcome, gives) ↦ elim (Result-cases outcome) [
            | inr (e, fails) ↦ absurd (ground arith)
            | inl (trades, makes) ↦
                let (rest, same, replayed) =
                  rounds symbol daily_bars four_hour_bars cfg fuel (first_index cfg) [] trades
                    (gives ∙ ap some makes) in
                let is : record {
                  symbol = symbol;
                  trades = trades;
                  summary = summarize symbol trades;
                }
                    ≡ result =
                  ground arith in
                let entries =
                  rounds-Entries symbol daily_bars four_hour_bars cfg (first_index cfg) rest
                    replayed in
                rw (← is, same)
                  (
                    replayed,
                    entries,
                    Entries-bound symbol daily_bars four_hour_bars cfg (first_index cfg) rest
                        entries,
                    refl,
                  )
          ]
        ]

-- the distances of a curve below its peaks
abbrev pub drawdowns : Decimal → List Decimal → List Decimal
drawdowns peak [] = []
drawdowns peak (value ∷ values) =
    let next = Decimal.max peak value in Decimal.sub value next ∷ drawdowns next values

max_drawdown-le :
    (peak drawdown : Decimal) (values : List Decimal)
    → (Decimal.le (max_drawdown_from peak drawdown values) drawdown ≡ true)
      × All
          (λ d. Decimal.le (max_drawdown_from peak drawdown values) d ≡ true)
          (drawdowns peak values)
unfolding max_drawdown_from
max_drawdown-le peak drawdown [] = (le_refl drawdown, tt)
max_drawdown-le peak drawdown (value ∷ values) =
    let next = Decimal.max peak value in
    let here = Decimal.sub value next in
    let (lower, all) = max_drawdown-le next (Decimal.min drawdown here) values in
    (
      le_trans _ (Decimal.min drawdown here) drawdown lower (min-le_left drawdown here),
      (le_trans _ (Decimal.min drawdown here) here lower (min-le_right drawdown here), all),
    )

wins_and_losses :
    (trades : List SleeveBTrade)
    → length (keep won trades) + length (keep lost trades) ≡ length trades
unfolding Decimal.lt
wins_and_losses [] = refl
wins_and_losses (trade ∷ trades) = ground (arith, wins_and_losses trades)

sum-equity_curve :
    (running : Decimal) (trades : List SleeveBTrade)
    → last_from running (equity_curve running trades)
      ≡ sum_from running (map (λ trade. trade.realized_pnl) trades)
unfolding last_from equity_curve sum_from
sum-equity_curve running [] = refl
sum-equity_curve running (trade ∷ trades) =
    sum-equity_curve (Decimal.add running trade.realized_pnl) trades

-- The summary of any trades counts each as one win or one loss. Its total is the last point of the
-- equity curve, its drawdown is not positive, and no point of the curve lies further below the peak
-- before it.
pub summarize_lem :
    (symbol : String) (trades : List SleeveBTrade)
    → ((summarize symbol trades).wins + (summarize symbol trades).losses
        ≡ (summarize symbol trades).trades)
      × ((summarize symbol trades).total_pnl ≡ last_from nought (equity_curve nought trades))
      × (Decimal.le (summarize symbol trades).max_drawdown nought ≡ true)
      × All
          (λ d. Decimal.le (summarize symbol trades).max_drawdown d ≡ true)
          (drawdowns nought (equity_curve nought trades))
unfolding summarize Decimal.sum
summarize_lem symbol trades =
    let (lower, all) = max_drawdown-le nought nought (equity_curve nought trades) in
    (wins_and_losses trades, sym (sum-equity_curve nought trades), lower, all)
