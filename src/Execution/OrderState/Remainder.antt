-- ===== src/Execution/OrderState/Remainder.antt =====
-- When the rest of an entry order is canceled: `should_cancel_entry_remainder`.
use crypto_dual_sleeve_tradi.Base.{
  not, ℕ, ◌≡◌, ap, ◌∙◌, inl, inr, Bool, true, false, ◌||◌, arith, ltb, Bool-cases,
}
use crypto_dual_sleeve_tradi.Base.Result.{ok}
use crypto_dual_sleeve_tradi.Base.Key.{string_key, pair_key}
use crypto_dual_sleeve_tradi.Decimal
use crypto_dual_sleeve_tradi.Decimal.{Decimal, nought}
use crypto_dual_sleeve_tradi.Core.Enums.{
  trading_mode_enum, sleeve_id_enum, order_side_enum, position_side_enum, order_type_enum,
  order_action_enum, order_status_enum, safe_mode_state_enum, circuit_action_enum,
}
use crypto_dual_sleeve_tradi.Decimal.Sign.{div_defined, pos-sub}
use crypto_dual_sleeve_tradi.Core.Models.{OrderRecord, remaining_quantity}
use crypto_dual_sleeve_tradi.Execution.OrderState.{should_cancel_entry_remainder}

-- the test once the time is up, for a quantity that is positive
late-eq :
    (order : OrderRecord) (elapsed : ℕ) (ratio : Decimal) (wait : ℕ) (q : Decimal)
    → ltb elapsed wait ≡ false
    → Decimal.le order.intent.quantity nought ≡ false
    → Decimal.div order.filled_quantity order.intent.quantity ≡ ok q
    → should_cancel_entry_remainder order elapsed ratio wait
      ≡ ok (Decimal.lt q ratio || Decimal.lt nought (remaining_quantity order))
unfolding should_cancel_entry_remainder
late-eq order elapsed ratio wait q late e defined = rw (late, e, defined)

remaining-pos :
    (order : OrderRecord)
    → Decimal.lt order.filled_quantity order.intent.quantity ≡ true
    → Decimal.lt nought (remaining_quantity order) ≡ true
unfolding remaining_quantity
remaining-pos order h =
    let left = pos-sub order.intent.quantity order.filled_quantity ∙ h in rw left left

or_right : (a b : Bool) → b ≡ true → (a || b) ≡ true
or_right a b h = ground arith

-- For an order of which something is left to fill the test never raises, the division included, and
-- says exactly whether the time is up, whatever the ratio that it is asked for.
pub should_cancel-unfilled :
    (order : OrderRecord) (elapsed : ℕ) (ratio : Decimal) (wait : ℕ)
    → Decimal.lt order.filled_quantity order.intent.quantity ≡ true
    → should_cancel_entry_remainder order elapsed ratio wait ≡ ok (not (ltb elapsed wait))
unfolding should_cancel_entry_remainder Decimal.lt
should_cancel-unfilled order elapsed ratio wait unfilled = elim (Bool-cases (ltb elapsed wait)) [
  | inl early ↦ rw early
  | inr late ↦ elim (Bool-cases (Decimal.le order.intent.quantity nought)) [
    | inl e ↦ rw (late, e)
    | inr e ↦
        let (q, defined) = div_defined order.filled_quantity order.intent.quantity (rw e) in
        late-eq order elapsed ratio wait q late e defined
        ∙ ap ok (or_right _ _ (remaining-pos order unfilled))
        ∙ rw late
  ]
]
