-- ===== src/Core/Enums/Values.antt =====
-- Reading back the text of a member gives the member: what a row of the database relies on.
use crypto_dual_sleeve_tradi.Base.{◌≡◌, refl}
use crypto_dual_sleeve_tradi.Base.Enum.{value, of_value}
use crypto_dual_sleeve_tradi.Base.Result.{ok}
use crypto_dual_sleeve_tradi.Core.Enums.{
  SleeveId, sleeve_a, sleeve_b, sleeve_id_enum, OrderSide, buy, sell, order_side_enum, OrderType,
  market, limit, stop_market, stop_limit, order_type_enum, OrderAction, entry, stop_loss,
  take_profit_1, take_profit_2, take_profit_3, time_stop, circuit_break, order_action_enum,
  OrderStatus, created, submitted, partially_filled, filled, canceled, rejected, expired, unknown,
  order_status_enum,
}

pub sleeve_id-value : (x : SleeveId) → of_value (value x) ≡ ok x
unfolding of_value
sleeve_id-value sleeve_a = refl
sleeve_id-value sleeve_b = refl

pub order_side-value : (x : OrderSide) → of_value (value x) ≡ ok x
unfolding of_value
order_side-value buy = refl
order_side-value sell = refl

pub order_type-value : (x : OrderType) → of_value (value x) ≡ ok x
unfolding of_value
order_type-value market = refl
order_type-value limit = refl
order_type-value stop_market = refl
order_type-value stop_limit = refl

pub order_action-value : (x : OrderAction) → of_value (value x) ≡ ok x
unfolding of_value
order_action-value entry = refl
order_action-value stop_loss = refl
order_action-value take_profit_1 = refl
order_action-value take_profit_2 = refl
order_action-value take_profit_3 = refl
order_action-value time_stop = refl
order_action-value circuit_break = refl

pub order_status-value : (x : OrderStatus) → of_value (value x) ≡ ok x
unfolding of_value
order_status-value created = refl
order_status-value submitted = refl
order_status-value partially_filled = refl
order_status-value filled = refl
order_status-value canceled = refl
order_status-value rejected = refl
order_status-value expired = refl
order_status-value unknown = refl
