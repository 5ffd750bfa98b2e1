-- ===== src/Risk/Capacity.antt =====
-- risk/capacity.py: whether the market takes a notional.
use crypto_dual_sleeve_tradi.Base.{◌≡◌, Bool, true, false, arith, if◌then◌else◌}
use crypto_dual_sleeve_tradi.Base.Key.{string_key, pair_key}
use crypto_dual_sleeve_tradi.Decimal
use crypto_dual_sleeve_tradi.Decimal.{Decimal, nought}
use crypto_dual_sleeve_tradi.Decimal.Order.{le_trans}
use crypto_dual_sleeve_tradi.Core.Enums.{
  trading_mode_enum, sleeve_id_enum, order_side_enum, position_side_enum, order_type_enum,
  order_action_enum, order_status_enum, safe_mode_state_enum, circuit_action_enum,
}

pub record CapacitySnapshot : Type 0 where
  pub open_interest_usd : Decimal
  pub volume_24h_usd : Decimal
  pub entry_bid_depth_usd : Decimal
  pub exit_ask_depth_usd : Decimal

unfoldable pub capacity_check : Decimal → CapacitySnapshot → Decimal → Decimal → Decimal → Bool
capacity_check notional snapshot max_oi_share max_volume_share max_depth_share =
    if Decimal.lt (Decimal.mul max_oi_share snapshot.open_interest_usd) notional
    then false
    else if Decimal.lt (Decimal.mul max_volume_share snapshot.volume_24h_usd) notional
    then false
    else if Decimal.lt (Decimal.mul max_depth_share snapshot.entry_bid_depth_usd) notional
    then false
    else if Decimal.lt (Decimal.mul max_depth_share snapshot.exit_ask_depth_usd) notional
    then false
    else true

-- A notional that is no larger than one that passes the check passes it too.
pub capacity_check_monotone :
    (small large : Decimal) (snapshot : CapacitySnapshot) (oi volume depth : Decimal)
    → Decimal.le small large ≡ true
    → capacity_check large snapshot oi volume depth ≡ true
    → capacity_check small snapshot oi volume depth ≡ true
unfolding capacity_check Decimal.lt
capacity_check_monotone small large snapshot oi volume depth h passes = ground (
  arith,
  le_trans small large (Decimal.mul oi snapshot.open_interest_usd) h,
  le_trans small large (Decimal.mul volume snapshot.volume_24h_usd) h,
  le_trans small large (Decimal.mul depth snapshot.entry_bid_depth_usd) h,
  le_trans small large (Decimal.mul depth snapshot.exit_ask_depth_usd) h,
)
