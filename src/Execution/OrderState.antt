-- ===== src/Execution/OrderState.antt =====
-- execution/order_state_machine.py. `transition` and `apply_fill` change the order that they are
-- given, so they are calls on an `OrderRecord`; `now` is the clock that they read.
pub mod Transitions
pub mod OnBinance
pub mod Fills
pub mod Remainder
use crypto_dual_sleeve_tradi.Base.Exec.{
  Exec, ◌>>=◌, ◌>>◌, raise_when, modify, gets, lift, pure, raise,
}
use crypto_dual_sleeve_tradi.Base.Result
use crypto_dual_sleeve_tradi.Base.{
  ℕ, zero, suc, ◌+◌, ◌-◌, ◌*◌, ◌≤◌, ◌<◌, String, ◌≡◌, refl, sym, ap, ◌∙◌, ◌≢◌, ◌↔◌, ◌⊎◌, inl, inr,
  Bool, true, false, not, ◌&&◌, ◌||◌, Option, none, some, List, [], ◌∷◌, ◌++◌, map, arith, ltb, leb,
  ◌==◌, if◌then◌else◌, Bool-cases, Option-cases, length, keep, All,
}
use crypto_dual_sleeve_tradi.Base.Text.{◌^+◌, str_eq, eq_iff}
use crypto_dual_sleeve_tradi.Base.Enum.{is, one_of, value}
use crypto_dual_sleeve_tradi.Base.Result.{value_error, invalid_order_transition, Result, ok, err}
use crypto_dual_sleeve_tradi.Base.Key.{Key, string_key, pair_key}
use crypto_dual_sleeve_tradi.Decimal
use crypto_dual_sleeve_tradi.Decimal.{Decimal, nought}
use crypto_dual_sleeve_tradi.Core.Models.{remaining_quantity, OrderRecord}
use crypto_dual_sleeve_tradi.Base.Exec.{Exec}
use crypto_dual_sleeve_tradi.Core.Enums.{
  created, expired, canceled, unknown, partially_filled, rejected, filled, submitted, OrderStatus,
  trading_mode_enum, sleeve_id_enum, order_side_enum, position_side_enum, order_type_enum,
  order_action_enum, order_status_enum, safe_mode_state_enum, circuit_action_enum,
}

-- `_ALLOWED_TRANSITIONS`
unfoldable pub allowed_transitions : OrderStatus → List OrderStatus
allowed_transitions created = submitted ∷ rejected ∷ unknown ∷ []
allowed_transitions submitted =
    partially_filled ∷ filled ∷ canceled ∷ rejected ∷ expired ∷ unknown ∷ []
allowed_transitions partially_filled = partially_filled ∷ filled ∷ canceled ∷ unknown ∷ []
allowed_transitions filled = []
allowed_transitions canceled = []
allowed_transitions rejected = []
allowed_transitions expired = []
allowed_transitions unknown = submitted ∷ canceled ∷ filled ∷ []

unfoldable pub transition : ℕ → OrderStatus → Exec OrderRecord Unit
unfolding allowed_transitions
transition now new_status order =
    if not (one_of (allowed_transitions order.status) new_status)
    then (
      err (
          invalid_order_transition
            ("Cannot transition " ^+ value order.status ^+ " -> " ^+ value new_status)),
      order,
    )
    else (ok tt, record order { status = new_status; updated_at = now })

-- the status that a fill asks for
abbrev pub fill_status : Decimal → OrderRecord → OrderStatus
fill_status quantity order =
    if Decimal.eq quantity order.intent.quantity then filled else partially_filled

unfoldable pub apply_fill : ℕ → Decimal → Decimal → Exec OrderRecord Unit
unfolding transition
apply_fill now filled_quantity average_fill_price = do
  raise_when (Decimal.lt filled_quantity nought) (value_error "filled_quantity cannot be negative")
  order ← gets (λ o. o)
  raise_when (Decimal.lt order.intent.quantity filled_quantity)
      (value_error "filled_quantity cannot exceed order quantity")
  modify (λ o. record o {
    filled_quantity = filled_quantity;
    average_fill_price = some average_fill_price;
  })
  let status = fill_status filled_quantity order
  if is status order.status && is order.status partially_filled
      then modify (λ o. record o { updated_at = now })
      else transition now status

unfoldable pub should_cancel_entry_remainder : OrderRecord → ℕ → Decimal → ℕ → Result Bool
should_cancel_entry_remainder order elapsed_seconds min_fill_ratio max_wait_seconds =
    if ltb elapsed_seconds max_wait_seconds
    then ok false
    else if Decimal.le order.intent.quantity nought
    then ok true
    else Result.◌>>=◌ (Decimal.div order.filled_quantity order.intent.quantity) (λ fill_ratio.
      ok (Decimal.lt fill_ratio min_fill_ratio || Decimal.lt nought (remaining_quantity order)))
