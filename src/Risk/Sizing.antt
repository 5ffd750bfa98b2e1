-- ===== src/Risk/Sizing.antt =====
-- risk/position_sizing.py: the notional of a planned risk.
use crypto_dual_sleeve_tradi.Base.{◌≡◌, Bool, true, false, ◌&&◌, arith}
use crypto_dual_sleeve_tradi.Base.Result.{value_error, Result, ok}
use crypto_dual_sleeve_tradi.Base.Key.{string_key, pair_key}
use crypto_dual_sleeve_tradi.Decimal
use crypto_dual_sleeve_tradi.Decimal.{Decimal, nought}
use crypto_dual_sleeve_tradi.Core.Enums.{
  trading_mode_enum, sleeve_id_enum, order_side_enum, position_side_enum, order_type_enum,
  order_action_enum, order_status_enum, safe_mode_state_enum, circuit_action_enum,
}
use crypto_dual_sleeve_tradi.Decimal.Sign.{div_defined}
use crypto_dual_sleeve_tradi.Decimal.Order.{le_trans}
use crypto_dual_sleeve_tradi.Base.Result.{◌>>=◌, ◌>>◌, raise_if}

unfoldable pub calc_notional : Decimal → Decimal → Decimal → Result Decimal
calc_notional entry_price stop_price risk_usdt = do
  raise_if (Decimal.le entry_price nought) (value_error "entry_price must be positive")
  distance ← Decimal.div (Decimal.abs (Decimal.sub stop_price entry_price)) entry_price
  raise_if (Decimal.le distance nought) (value_error "stop distance must be positive")
  Decimal.div risk_usdt distance

unfoldable pub stop_distance_ok : Decimal → Decimal → Decimal → Decimal → Result Bool
stop_distance_ok entry_price stop_price min_distance max_distance = do
  distance ← Decimal.div (Decimal.abs (Decimal.sub stop_price entry_price)) entry_price
  ok (Decimal.le min_distance distance && Decimal.le distance max_distance)

-- A stop that passes the test, for a positive entry price and a positive minimum, has a notional: the
-- sizing does not raise on it, and divides the risk by a distance within the two limits.
pub stop_distance_ok-sizes :
    (entry_price stop_price risk_usdt min_distance max_distance : Decimal)
    → Decimal.lt nought entry_price ≡ true
    → Decimal.lt nought min_distance ≡ true
    → stop_distance_ok entry_price stop_price min_distance max_distance ≡ ok true
    → (distance : Decimal) × (notional : Decimal) × (calc_notional entry_price stop_price risk_usdt
        ≡ ok notional)
      × (Decimal.div risk_usdt distance ≡ ok notional)
      × (Decimal.le min_distance distance ≡ true)
      × (Decimal.le distance max_distance ≡ true)
unfolding stop_distance_ok calc_notional Decimal.lt
stop_distance_ok-sizes entry stop risk low high pos min_pos passes =
    let (distance, divides) =
      div_defined (Decimal.abs (Decimal.sub stop entry)) entry (ground arith) in
    let bounds : (Decimal.le low distance ≡ true) × (Decimal.le distance high ≡ true) =
      ground arith in
    let apart : Decimal.le distance nought ≡ false = ground (arith, le_trans low distance nought) in
    let (notional, sizes) = div_defined risk distance (ground arith) in
    (distance, notional, ground arith, sizes, bounds.0, bounds.1)
