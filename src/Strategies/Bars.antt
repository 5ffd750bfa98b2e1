-- ===== src/Strategies/Bars.antt =====
-- The bars of a price series and their average true range: `OhlcBar` and `_atr`, which
-- strategies/sleeve_b_replay.py and strategies/sleeve_b_candidate_builder.py write out alike.
use crypto_dual_sleeve_tradi.Base.{
  drop, ℕ, ◌+◌, ◌-◌, String, List, [], ◌∷◌, ltb, if◌then◌else◌, length,
}
use crypto_dual_sleeve_tradi.Base.Result.{value_error, Result, err}
use crypto_dual_sleeve_tradi.Base.Key.{string_key, pair_key}
use crypto_dual_sleeve_tradi.Decimal
use crypto_dual_sleeve_tradi.Decimal.{Decimal, nought}
use crypto_dual_sleeve_tradi.Core.Enums.{
  trading_mode_enum, sleeve_id_enum, order_side_enum, position_side_enum, order_type_enum,
  order_action_enum, order_status_enum, safe_mode_state_enum, circuit_action_enum,
}

pub record OhlcBar : Type 0 where
  pub timestamp : String
  -- the field `open`
  pub open_price : Decimal
  pub high : Decimal
  pub low : Decimal
  pub close : Decimal

-- the true range of a bar behind a close
unfoldable pub true_range : Decimal → OhlcBar → Decimal
true_range previous_close current =
    Decimal.max
      (Decimal.max (Decimal.sub current.high current.low)
        (Decimal.abs (Decimal.sub current.high previous_close)))
      (Decimal.abs (Decimal.sub current.low previous_close))

unfoldable pub ranges_from : Decimal → List OhlcBar → List Decimal
ranges_from previous_close [] = []
ranges_from previous_close (bar ∷ bars) = true_range previous_close bar ∷ ranges_from bar.close bars

-- the true ranges of all bars but the first
abbrev pub true_ranges : List OhlcBar → List Decimal
true_ranges [] = []
true_ranges (previous ∷ bars) = ranges_from previous.close bars

unfoldable pub atr : List OhlcBar → ℕ → Result Decimal
unfolding ranges_from true_range
atr bars period =
    if ltb (length bars) (period + 1)
    then err (value_error "insufficient bars for ATR")
    else Decimal.div (Decimal.sum (true_ranges (drop (length bars - (period + 1)) bars)))
        (Decimal.literal period 0)

-- `bars[-1]` of a list that ends in `bar` or is empty behind it
unfoldable pub last_bar : OhlcBar → List OhlcBar → OhlcBar
last_bar bar [] = bar
last_bar bar (next ∷ bars) = last_bar next bars
