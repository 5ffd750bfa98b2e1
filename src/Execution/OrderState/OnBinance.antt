-- ===== src/Execution/OrderState/OnBinance.antt =====
-- The status of an order that exchange/binance_rest.py submits, against the transitions of
-- execution/order_state_machine.py.
use crypto_dual_sleeve_tradi.Base.{
  String, ◌≡◌, refl, ap, ◌⊎◌, inl, inr, true, some, arith, Option-cases,
}
use crypto_dual_sleeve_tradi.Base.Enum.{is, one_of, value}
use crypto_dual_sleeve_tradi.Base.Result.{Result-cases, ok}
use crypto_dual_sleeve_tradi.Base.Key.{string_key, pair_key}
use crypto_dual_sleeve_tradi.Core.Enums.{
  submitted, OrderStatus, trading_mode_enum, sleeve_id_enum, order_side_enum, position_side_enum,
  order_type_enum, order_action_enum, order_status_enum, safe_mode_state_enum, circuit_action_enum,
}
use crypto_dual_sleeve_tradi.Exchange.Parsers.{binance_status}
use crypto_dual_sleeve_tradi.Exchange.Payloads.{
  Fields, get, Reader, null, text, object, array, number, boolean, Json,
}
use crypto_dual_sleeve_tradi.Exchange.Requests.{request, Adapter, Platform}
use crypto_dual_sleeve_tradi.Execution.OrderState.{allowed_transitions}
use crypto_dual_sleeve_tradi.Core.Models.{OrderRecord}
use crypto_dual_sleeve_tradi.Exchange.BinanceOrders.{
  order_params, applied, apply_exchange_order_payload, new_status, submit_order,
}

-- every status of the map can follow SUBMITTED, or is SUBMITTED itself
known-Follows :
    (t : String) (s : OrderStatus)
    → binance_status t ≡ some s
    → (s ≡ submitted) ⊎ (one_of (allowed_transitions submitted) s ≡ true)
unfolding binance_status allowed_transitions
known-Follows t s h = ground arith

new_status-Follows :
    (value : Json)
    → (new_status value submitted ≡ submitted)
      ⊎ (one_of (allowed_transitions submitted) (new_status value submitted) ≡ true)
new_status-Follows null = inl refl
new_status-Follows (boolean b) = inl refl
new_status-Follows (number t) = inl refl
new_status-Follows (array items) = inl refl
new_status-Follows (object fields) = inl refl
new_status-Follows (text t) = elim (Option-cases (binance_status t)) [
  | inl e ↦ inl (ground arith)
  | inr (s, e) ↦ ground (arith, known-Follows t s e)
]

-- what a payload leaves of an order, also when it raises
apply-kept :
    (reader : Reader) (payload : Fields) (order : OrderRecord)
    → let (_, order') = apply_exchange_order_payload reader payload order in
      (order'.status ≡ new_status (get payload "status") order.status)
      × (order'.client_order_id ≡ order.client_order_id)
      × (order'.intent ≡ order.intent)
unfolding apply_exchange_order_payload
apply-kept reader payload order = ground arith

module _ {W : Type 0} (platform : Platform W) where
  applied-Follows :
      (order order' : OrderRecord) (value : Json)
      → order.status ≡ submitted
      → applied platform order value ≡ ok order'
      → ((order'.status ≡ submitted)
          ⊎ (one_of (allowed_transitions submitted) order'.status ≡ true))
        × (order'.client_order_id ≡ order.client_order_id)
        × (order'.intent ≡ order.intent)
  applied-Follows order order' null is h = absurd (ground arith)
  applied-Follows order order' (boolean b) is h = absurd (ground arith)
  applied-Follows order order' (number t) is h = absurd (ground arith)
  applied-Follows order order' (text t) is h = absurd (ground arith)
  applied-Follows order order' (array items) is h = absurd (ground arith)
  applied-Follows order order' (object payload) is h =
      let ran = apply_exchange_order_payload platform.reader payload order in
      let (same_status, same_id, same_intent) = apply-kept platform.reader payload order in
      elim (Result-cases ran.0) [
        | inr (e, fails) ↦ absurd (ground arith)
        | inl (done, runs) ↦
            let back : ran.1 ≡ order' = ground arith in
            let submitted_before : new_status (get payload "status") order.status
                ≡ new_status (get payload "status") submitted =
              ap (new_status (get payload "status")) is in
            rw (← back) (
              rw (same_status, submitted_before) (new_status-Follows (get payload "status")),
              same_id,
              same_intent,
            )
      ]

  -- An order that is submitted and that the exchange answers comes back with its own id and intent, and
  -- with a status that the state machine allows behind SUBMITTED, or SUBMITTED itself.
  pub submit_order-Follows :
      (order order' : OrderRecord) (adapter : Adapter W)
      → order.status ≡ submitted
      → (submit_order platform order adapter).0 ≡ ok order'
      → ((order'.status ≡ submitted)
          ⊎ (one_of (allowed_transitions submitted) order'.status ≡ true))
        × (order'.client_order_id ≡ order.client_order_id)
        × (order'.intent ≡ order.intent)
  unfolding submit_order
  submit_order-Follows order order' adapter is h =
      elim (Result-cases
        (request platform "POST" "/fapi/v1/order" (order_params platform order) true adapter).0) [
          | inr (e, fails) ↦ absurd (ground arith)
          | inl (value, answers) ↦ applied-Follows order order' value is (ground arith)
        ]
