-- ===== src/Tests/Orders.antt =====
-- The theorems on the states of an order at concrete inputs.
use crypto_dual_sleeve_tradi.Base.{ℕ, ◌≡◌, refl, ◌≢◌, ◌↔◌, ◌⊎◌, true, not, some, List, [], ◌∷◌, ltb}
use crypto_dual_sleeve_tradi.Base.Result.{ok}
use crypto_dual_sleeve_tradi.Base.Key.{string_key, pair_key}
use crypto_dual_sleeve_tradi.Decimal
use crypto_dual_sleeve_tradi.Decimal.{Decimal, nought}
use crypto_dual_sleeve_tradi.Execution.OrderState.{
  transition, should_cancel_entry_remainder, apply_fill, allowed_transitions,
}
use crypto_dual_sleeve_tradi.Execution.OrderState.Transitions.{run_terminal, run}
use crypto_dual_sleeve_tradi.Execution.OrderState.Fills.{
  apply_fill_terminal, apply_fill_iff, apply_fill-IsWithin, Accepts, IsWithin,
}
use crypto_dual_sleeve_tradi.Tests.Samples.{filled_order, entry_order, noon}
use crypto_dual_sleeve_tradi.Execution.OrderState.Remainder.{should_cancel-unfilled}
use crypto_dual_sleeve_tradi.Core.Enums.{
  filled, partially_filled, submitted, OrderStatus, trading_mode_enum, sleeve_id_enum,
  order_side_enum, position_side_enum, order_type_enum, order_action_enum, order_status_enum,
  safe_mode_state_enum, circuit_action_enum,
}

abbrev one_fill : Decimal
one_fill = Decimal.literal 1 0

abbrev price : Decimal
price = Decimal.literal 100 0

abbrev asked : List (ℕ × OrderStatus)
asked = (noon, submitted) ∷ []

run_terminal_example :
    ((run asked filled_order).1 ≡ filled_order)
    × (((run asked filled_order).0 ≢ ok tt) ⊎ (asked ≡ []))
run_terminal_example = run_terminal asked filled_order refl

abbrev steps : List (ℕ × OrderStatus)
steps = (noon, partially_filled) ∷ (noon, filled) ∷ []

runs : (run steps entry_order).0 ≡ ok tt
unfolding run transition
runs = refl

entry_order-IsWithin : IsWithin entry_order
unfolding Decimal.le
entry_order-IsWithin = record { nonneg = refl; within = refl }

apply_fill-IsWithin_example : IsWithin (apply_fill noon one_fill price entry_order).1
apply_fill-IsWithin_example =
    apply_fill-IsWithin noon one_fill price entry_order entry_order-IsWithin

apply_fill_iff_example :
    ((apply_fill noon one_fill price entry_order).0 ≡ ok tt) ↔ Accepts entry_order one_fill
apply_fill_iff_example = apply_fill_iff noon one_fill price entry_order

accepts : Accepts entry_order one_fill
unfolding Decimal.le allowed_transitions Decimal.eq
accepts = (refl, refl, refl)

in_range :
    (Decimal.le nought one_fill ≡ true) × (Decimal.le one_fill filled_order.intent.quantity ≡ true)
unfolding Decimal.le
in_range = (refl, refl)

apply_fill_terminal_example :
    ((apply_fill noon one_fill price filled_order).0 ≢ ok tt)
    × ((apply_fill noon one_fill price filled_order).1
        ≡ record filled_order { filled_quantity = one_fill; average_fill_price = some price })
apply_fill_terminal_example =
    apply_fill_terminal noon one_fill price filled_order refl in_range.0 in_range.1

unfilled : Decimal.lt entry_order.filled_quantity entry_order.intent.quantity ≡ true
unfolding Decimal.lt Decimal.le
unfilled = refl

should_cancel-unfilled_example :
    should_cancel_entry_remainder entry_order 90 (Decimal.literal 5 1) 60 ≡ ok (not (ltb 90 60))
should_cancel-unfilled_example =
    should_cancel-unfilled entry_order 90 (Decimal.literal 5 1) 60 unfilled
