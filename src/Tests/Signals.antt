-- ===== src/Tests/Signals.antt =====
-- The theorems on the signals of sleeve B at concrete inputs.
use crypto_dual_sleeve_tradi.Base.{◌≡◌, refl, List, [], ◌∷◌}
use crypto_dual_sleeve_tradi.Base.Result.{ok}
use crypto_dual_sleeve_tradi.Base.Key.{string_key, pair_key}
use crypto_dual_sleeve_tradi.Decimal
use crypto_dual_sleeve_tradi.Decimal.{Decimal, nought}
use crypto_dual_sleeve_tradi.Strategies.Signals.{breaks, donchian_signal, SleeveBSignal}
use crypto_dual_sleeve_tradi.Core.Enums.{
  long, trading_mode_enum, sleeve_id_enum, order_side_enum, position_side_enum, order_type_enum,
  order_action_enum, order_status_enum, safe_mode_state_enum, circuit_action_enum,
}

abbrev closes : List Decimal
closes = Decimal.literal 100 0 ∷ Decimal.literal 101 0 ∷ Decimal.literal 110 0 ∷ []

abbrev highs : List Decimal
highs = Decimal.literal 103 0 ∷ Decimal.literal 104 0 ∷ Decimal.literal 111 0 ∷ []

abbrev lows : List Decimal
lows = Decimal.literal 98 0 ∷ Decimal.literal 99 0 ∷ Decimal.literal 100 0 ∷ []

abbrev breakout : SleeveBSignal
breakout = breaks "BTCUSDT" long "20D_4H_BREAKOUT_LONG"

signals : donchian_signal "BTCUSDT" "BULL" closes highs lows 2 ≡ ok breakout
unfolding donchian_signal Decimal.lt Decimal.le Decimal.max
signals = refl
