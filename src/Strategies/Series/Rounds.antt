-- ===== src/Strategies/Series/Rounds.antt =====
-- The loop over a series in strategies/sleeve_b_replay.py: that it ends, and the rounds that it makes.
use crypto_dual_sleeve_tradi.Base.{
  get_elem?, ℕ, zero, suc, ◌+◌, ◌-◌, ◌≤◌, ◌<◌, String, ◌≡◌, refl, sym, ap, ◌∙◌, inl, inr, Option,
  none, some, List, [], ◌∷◌, ◌++◌, arith, Option-cases, length,
}
use crypto_dual_sleeve_tradi.Base.Result.{Result-cases, Result, ok, err}
use crypto_dual_sleeve_tradi.Base.Key.{string_key, pair_key}
use crypto_dual_sleeve_tradi.Strategies.Bars.{OhlcBar}
use crypto_dual_sleeve_tradi.Strategies.Replay.{SleeveBTrade, SleeveBReplayConfig}
use crypto_dual_sleeve_tradi.Strategies.Series.{advance, trade_at, replay_from}
use crypto_dual_sleeve_tradi.Strategies.Replay.Trades.{get_elem-lt}
use crypto_dual_sleeve_tradi.Core.Enums.{
  trading_mode_enum, sleeve_id_enum, order_side_enum, position_side_enum, order_type_enum,
  order_action_enum, order_status_enum, safe_mode_state_enum, circuit_action_enum,
}

module _ (symbol : String) (daily_bars four_hour_bars : List OhlcBar)
    (cfg : SleeveBReplayConfig) where
  abbrev here_at : ℕ → OhlcBar → Result (Option SleeveBTrade)
  here_at index bar = trade_at symbol daily_bars four_hour_bars cfg index bar

  abbrev from : ℕ → ℕ → List SleeveBTrade → Option (Result (List SleeveBTrade))
  from fuel index trades = replay_from symbol daily_bars four_hour_bars cfg fuel index trades

  -- the rounds from an index on, and the trades that they enter
  pub data Replayed : ℕ → List SleeveBTrade → Type 0 where
    ended : {i : ℕ} → get_elem? four_hour_bars i ≡ none → Replayed i []
    passed :
        {i : ℕ} (bar : OhlcBar) {ts : List SleeveBTrade}
        → get_elem? four_hour_bars i ≡ some bar
        → here_at i bar ≡ ok none
        → Replayed (i + 1) ts
        → Replayed i ts
    entered_at :
        {i : ℕ} (bar : OhlcBar) {trade : SleeveBTrade} {ts : List SleeveBTrade}
        → get_elem? four_hour_bars i ≡ some bar
        → here_at i bar ≡ ok (some trade)
        → Replayed (i + advance trade) ts
        → Replayed i (trade ∷ ts)

  append_one :
      (ts : List SleeveBTrade) (t : SleeveBTrade) (us : List SleeveBTrade)
      → (ts ++ t ∷ []) ++ us ≡ ts ++ t ∷ us
  append_one [] t us = refl
  append_one (x ∷ ts) t us = ap (λ zs. x ∷ zs) (append_one ts t us)

  append_nil : (ts : List SleeveBTrade) → ts ≡ ts ++ []
  append_nil [] = refl
  append_nil (x ∷ ts) = ap (λ zs. x ∷ zs) (append_nil ts)

  -- the three ways of a round that does not raise
  pub rounds :
      (fuel index : ℕ) (trades result : List SleeveBTrade)
      → from fuel index trades ≡ some (ok result)
      → (rest : List SleeveBTrade) × (result ≡ trades ++ rest) × Replayed index rest
  unfolding replay_from
  rounds zero index trades result h = cc
  rounds (suc fuel) index trades result h = elim (Option-cases (get_elem? four_hour_bars index)) [
    | inl out ↦
        let same : trades ≡ result = ground arith in ([], sym same ∙ append_nil trades, ended out)
    | inr (bar, inside) ↦ elim (Result-cases (here_at index bar)) [
      | inr (e, fails) ↦ absurd (ground arith)
      | inl (o, makes) ↦ elim (Option-cases o) [
        | inl is_none ↦
            let none_at : here_at index bar ≡ ok none = makes ∙ ap ok is_none in
            let next : from fuel (index + 1) trades ≡ some (ok result) = ground arith in
            let (rest, e, r) = rounds fuel (index + 1) trades result next in
            (rest, e, passed bar inside none_at r)
        | inr (trade, is_some) ↦
            let some_at : here_at index bar ≡ ok (some trade) = makes ∙ ap ok is_some in
            let next : from fuel (index + advance trade) (trades ++ trade ∷ []) ≡ some (ok result) =
              ground arith in
            let (rest, e, r) =
              rounds fuel (index + advance trade) (trades ++ trade ∷ []) result next in
            (trade ∷ rest, e ∙ append_one trades trade rest, entered_at bar inside some_at r)
      ]
    ]
  ]

  -- Two runs with fuel for the bars that are left come to the same.
  pub from_enough :
      (fuel fuel' index : ℕ) (trades : List SleeveBTrade)
      → length four_hour_bars - index < fuel
      → length four_hour_bars - index < fuel'
      → (outcome : Result (List SleeveBTrade)) × (from fuel index trades ≡ some outcome)
        × (from fuel' index trades ≡ some outcome)
  unfolding replay_from
  from_enough zero fuel' index trades h k = absurd (omega arith)
  from_enough (suc fuel) zero index trades h k = absurd (omega arith)
  from_enough (suc fuel) (suc fuel') index trades h k =
      elim (Option-cases (get_elem? four_hour_bars index)) [
        | inl out ↦ (ok trades, ground arith, ground arith)
        | inr (bar, inside) ↦
            let within = get_elem-lt four_hour_bars index bar inside in
            elim (Result-cases (here_at index bar)) [
              | inr (e, fails) ↦ (err e, ground arith, ground arith)
              | inl (o, makes) ↦ elim (Option-cases o) [
                | inl is_none ↦
                    let (r, p, q) =
                      from_enough fuel fuel' (index + 1) trades (omega arith) (omega arith) in
                    (r, ground arith, ground arith)
                | inr (trade, is_some) ↦
                    let moves : 1 ≤ advance trade = ground arith in
                    let (r, p, q) =
                      from_enough fuel fuel' (index + advance trade) (trades ++ trade ∷ [])
                        (omega arith) (omega arith) in
                    (r, ground arith, ground arith)
              ]
            ]
      ]
