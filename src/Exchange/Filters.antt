-- ===== src/Exchange/Filters.antt =====
-- exchange/filters.py: what an order is rounded to and checked against before it is sent.
pub mod Cut
use crypto_dual_sleeve_tradi.Base.{◌≡◌, ◌↔◌, Bool, true, false, Option, none, some, arith}
use crypto_dual_sleeve_tradi.Base.Text.{◌^+◌}
use crypto_dual_sleeve_tradi.Base.Result.{exchange_filter_error, Result, ok}
use crypto_dual_sleeve_tradi.Base.Key.{string_key, pair_key}
use crypto_dual_sleeve_tradi.Decimal
use crypto_dual_sleeve_tradi.Decimal.{Decimal, nought}
use crypto_dual_sleeve_tradi.Core.Enums.{
  trading_mode_enum, sleeve_id_enum, order_side_enum, position_side_enum, order_type_enum,
  order_action_enum, order_status_enum, safe_mode_state_enum, circuit_action_enum,
}
use crypto_dual_sleeve_tradi.Core.Models.{SymbolFilters, OrderIntent}
use crypto_dual_sleeve_tradi.Base.Result.{◌>>=◌, ◌>>◌, raise_if}

unfoldable pub floor_to_step : Decimal → Decimal → Result Decimal
floor_to_step amount step = do
  raise_if (Decimal.le step nought) (exchange_filter_error "step must be positive")
  steps ← Decimal.div amount step
  ok (Decimal.mul (Decimal.to_integral_down steps) step)

unfoldable pub round_price_to_tick : Decimal → Decimal → Result Decimal
unfolding floor_to_step
round_price_to_tick price tick_size = floor_to_step price tick_size

-- `round_price_to_tick(price, tick_size) if price is not None else None`
abbrev pub round_price : Option Decimal → Decimal → Result (Option Decimal)
round_price none tick_size = ok none
round_price (some price) tick_size = do p ← round_price_to_tick price tick_size; ok (some p)

-- Whether a price is there and the notional at that price is below the minimum. The rounded price
-- stands first; where there is none, the intent has none either.
abbrev pub below_min_notional : Decimal → Option Decimal → Decimal → Bool
below_min_notional quantity none min_notional = false
below_min_notional quantity (some price) min_notional =
    Decimal.lt (Decimal.mul quantity price) min_notional

unfoldable pub normalize_order_intent : OrderIntent → SymbolFilters → Result OrderIntent
normalize_order_intent intent filters = do
  quantity ← floor_to_step intent.quantity filters.step_size
  price ← round_price intent.price filters.tick_size
  raise_if (below_min_notional quantity price filters.min_notional)
      (exchange_filter_error (intent.symbol ^+ " order notional below minNotional"))
  raise_if (Decimal.le quantity nought)
      (exchange_filter_error (intent.symbol ^+ " quantity floors to zero"))
  ok (record intent { quantity = quantity; price = price })

-- What the exchange may count on, of an intent that has been normalised.
pub record MeetsFilters (intent : OrderIntent) (filters : SymbolFilters) : Type 0 where
  pub quantity_pos : Decimal.lt nought intent.quantity ≡ true
  pub notional_ge :
      (price : Decimal)
      → intent.price ≡ some price
      → Decimal.le filters.min_notional (Decimal.mul intent.quantity price) ≡ true

-- A normalised intent has a positive quantity, and with a price its notional reaches the minimum of
-- the symbol; all but quantity and price are as in the intent that was given, and the price is there
-- if it was there.
pub normalize-MeetsFilters :
    (intent : OrderIntent) (filters : SymbolFilters) {normal : OrderIntent}
    → normalize_order_intent intent filters ≡ ok normal
    → MeetsFilters normal filters
      × (normal ≡ record intent { quantity = normal.quantity; price = normal.price })
      × ((normal.price ≡ none) ↔ (intent.price ≡ none))
unfolding normalize_order_intent Decimal.lt
normalize-MeetsFilters intent filters {normal} e = ground arith
