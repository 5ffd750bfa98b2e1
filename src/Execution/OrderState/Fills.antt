-- ===== src/Execution/OrderState/Fills.antt =====
-- Fills and the remainder of an entry, in execution/order_state_machine.py.
use crypto_dual_sleeve_tradi.Base.{ℕ, ◌≡◌, ◌≢◌, ◌↔◌, true, some, arith}
use crypto_dual_sleeve_tradi.Base.Enum.{one_of}
use crypto_dual_sleeve_tradi.Base.Result.{ok}
use crypto_dual_sleeve_tradi.Base.Key.{string_key, pair_key}
use crypto_dual_sleeve_tradi.Decimal
use crypto_dual_sleeve_tradi.Decimal.{Decimal, nought}
use crypto_dual_sleeve_tradi.Core.Enums.{
  trading_mode_enum, sleeve_id_enum, order_side_enum, position_side_enum, order_type_enum,
  order_action_enum, order_status_enum, safe_mode_state_enum, circuit_action_enum,
}
use crypto_dual_sleeve_tradi.Execution.OrderState.{allowed_transitions, apply_fill, fill_status}
use crypto_dual_sleeve_tradi.Core.Models.{OrderRecord}
use crypto_dual_sleeve_tradi.Execution.OrderState.Transitions.{is_terminal}

-- What is filled lies between nothing and the quantity of the order.
pub record IsWithin (order : OrderRecord) : Type 0 where
  pub nonneg : Decimal.le nought order.filled_quantity ≡ true
  pub within : Decimal.le order.filled_quantity order.intent.quantity ≡ true

-- Every call of `apply_fill`, also one that raises, keeps the filled quantity between zero and the
-- quantity of the order.
pub apply_fill-IsWithin :
    (now : ℕ) (quantity price : Decimal) (order : OrderRecord)
    → IsWithin order
    → IsWithin (apply_fill now quantity price order).1
unfolding apply_fill Decimal.lt
apply_fill-IsWithin now quantity price order h = ground arith

-- the fills that `apply_fill` accepts
abbrev pub Accepts : OrderRecord → Decimal → Type 0
Accepts order quantity =
    (Decimal.le nought quantity ≡ true)
    × (Decimal.le quantity order.intent.quantity ≡ true)
    × (one_of (allowed_transitions order.status) (fill_status quantity order) ≡ true)

-- `apply_fill` succeeds exactly when the quantity lies between zero and the quantity of the order
-- and the table allows the status that it asks for.
pub apply_fill_iff :
    (now : ℕ) (quantity price : Decimal) (order : OrderRecord)
    → ((apply_fill now quantity price order).0 ≡ ok tt) ↔ Accepts order quantity
unfolding apply_fill Decimal.lt
apply_fill_iff now quantity price order = ground arith

-- A fill that succeeds records the quantity and the price, and leaves the order FILLED if the
-- quantity is that of the order and PARTIALLY_FILLED otherwise.
pub apply_fill_records :
    (now : ℕ) (quantity price : Decimal) (order : OrderRecord)
    → Accepts order quantity
    → (apply_fill now quantity price order).1 ≡ record order {
      filled_quantity = quantity;
      average_fill_price = some price;
      status = fill_status quantity order;
      updated_at = now;
    }
unfolding apply_fill Decimal.lt
apply_fill_records now quantity price order h = ground arith

-- On a terminal order a fill in range raises, but only after it has overwritten the filled quantity
-- and the price: the order keeps its status beside figures that no longer fit it.
pub apply_fill_terminal :
    (now : ℕ) (quantity price : Decimal) (order : OrderRecord)
    → is_terminal order.status ≡ true
    → Decimal.le nought quantity ≡ true
    → Decimal.le quantity order.intent.quantity ≡ true
    → ((apply_fill now quantity price order).0 ≢ ok tt)
      × ((apply_fill now quantity price order).1
          ≡ record order { filled_quantity = quantity; average_fill_price = some price })
unfolding apply_fill Decimal.lt
apply_fill_terminal now quantity price order t h k = ground arith
