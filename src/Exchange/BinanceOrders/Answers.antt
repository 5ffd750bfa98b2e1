-- ===== src/Exchange/BinanceOrders/Answers.antt =====
-- What the answers of exchange/binance_rest.py make of a payload.
use crypto_dual_sleeve_tradi.Base.{
  refl, ap, Option, Option-cases, String, ◌≡◌, ◌≢◌, ◌⊎◌, inl, inr, true, false, none, some, arith,
  Bool-cases,
}
use crypto_dual_sleeve_tradi.Base.Result.{Result-cases, ok}
use crypto_dual_sleeve_tradi.Base.Key.{string_key, pair_key}
use crypto_dual_sleeve_tradi.Exchange.Payloads.{
  str, end, field, to_decimal, null, get_default, no_price, is_none, get, Fields, Reader, Json,
}
use crypto_dual_sleeve_tradi.Exchange.Parsers.{
  status_or_unknown, parse_order_snapshot, binance_status,
}
use crypto_dual_sleeve_tradi.Exchange.BinanceOrders.{
  order_id_of, new_status, text, apply_exchange_order_payload,
}
use crypto_dual_sleeve_tradi.Core.Models.{ExchangeOrderSnapshot, OrderRecord}
use crypto_dual_sleeve_tradi.Decimal.{Decimal}
use crypto_dual_sleeve_tradi.Core.Enums.{
  unknown, OrderStatus, trading_mode_enum, sleeve_id_enum, order_side_enum, position_side_enum,
  order_type_enum, order_action_enum, order_status_enum, safe_mode_state_enum, circuit_action_enum,
}

-- where the snapshot stands for a status that the map does not know
abbrev pub StatusAgrees : Json → OrderStatus → OrderStatus → OrderStatus → Type 0
StatusAgrees status old applied_status snapshot_status =
    ((applied_status ≡ snapshot_status) × (snapshot_status ≢ unknown))
    ⊎ ((applied_status ≡ old) × (snapshot_status ≡ unknown))

known_status : (t : String) (s : OrderStatus) → binance_status t ≡ some s → s ≢ unknown
unfolding binance_status
known_status t s h e = ground arith

-- a value that is there is not replaced by a default
given-default :
    (fields : Fields) (key : String) (default : Json)
    → is_none (get_default fields key null) ≡ false
    → get_default fields key default ≡ get_default fields key null
unfolding get_default
given-default end key default h = cc
given-default (field k v fields) key default h = ground (arith, given-default fields key default)

module _ (reader : Reader) where
  status_agrees :
      (value : Json) (t : String) (old : OrderStatus)
      → value ≡ text t
      → StatusAgrees
          (text t)
          old
          (new_status value old)
          (status_or_unknown (binance_status (str reader value)))
  status_agrees value t old is = rw is (elim (Option-cases (binance_status t)) [
    | inl e ↦ ground arith
    | inr (s, e) ↦ let known = known_status t s e in ground arith
  ])

  -- the order and the snapshot of a payload with an executed quantity
  abbrev order_with : Fields → OrderRecord → Decimal → Option Decimal → OrderRecord
  order_with payload order quantity average = record order {
    exchange_order_id = order_id_of reader payload;
    status = new_status (get payload "status") order.status;
    filled_quantity = quantity;
    average_fill_price = average;
  }

  abbrev snapshot_with : Fields → Decimal → Option Decimal → ExchangeOrderSnapshot
  snapshot_with payload quantity average = record {
    client_order_id = str reader (get payload "clientOrderId");
    symbol = str reader (get payload "symbol");
    status = status_or_unknown (binance_status (str reader (get payload "status")));
    exchange_order_id = order_id_of reader payload;
    executed_quantity = quantity;
    average_price = average;
  }

  apply-with :
      (payload : Fields) (order order' : OrderRecord)
      → is_none (get payload "executedQty") ≡ false
      → apply_exchange_order_payload reader payload order ≡ (ok tt, order')
      → (quantity : Decimal) × (to_decimal reader (get payload "executedQty") ≡ ok quantity)
        × (((no_price (get payload "avgPrice") ≡ true)
              × (order' ≡ order_with payload order quantity order.average_fill_price))
            ⊎ ((average : Decimal) × (no_price (get payload "avgPrice") ≡ false)
                × (to_decimal reader (get payload "avgPrice") ≡ ok average)
                × (order' ≡ order_with payload order quantity (some average))))
  unfolding apply_exchange_order_payload
  apply-with payload order order' executed applies =
      elim (Result-cases (to_decimal reader (get payload "executedQty"))) [
        | inr (e, fails) ↦ absurd (ground arith)
        | inl (quantity, quantities) ↦ elim (Bool-cases (no_price (get payload "avgPrice"))) [
          | inl without ↦ (quantity, quantities, inl (without, ground arith))
          | inr with_price ↦ elim (Result-cases (to_decimal reader (get payload "avgPrice"))) [
            | inr (e, fails) ↦ absurd (ground arith)
            | inl (average, averages) ↦
                (quantity, quantities, inr (average, with_price, averages, ground arith))
          ]
        ]
      ]

  parse-with :
      (payload : Fields) (snapshot : ExchangeOrderSnapshot) (quantity : Decimal)
      → is_none (get payload "executedQty") ≡ false
      → to_decimal reader (get payload "executedQty") ≡ ok quantity
      → parse_order_snapshot reader payload ≡ ok snapshot
      → ((no_price (get payload "avgPrice") ≡ true)
          × (snapshot ≡ snapshot_with payload quantity none))
        ⊎ ((average : Decimal) × (no_price (get payload "avgPrice") ≡ false)
            × (to_decimal reader (get payload "avgPrice") ≡ ok average)
            × (snapshot ≡ snapshot_with payload quantity (some average)))
  unfolding parse_order_snapshot
  parse-with payload snapshot quantity executed quantities parses =
      let given = given-default payload "executedQty" (text "0") executed in
      elim (Bool-cases (no_price (get payload "avgPrice"))) [
        | inl without ↦ inl (without, ground (arith, given))
        | inr with_price ↦ elim (Result-cases (to_decimal reader (get payload "avgPrice"))) [
          | inr (e, fails) ↦ absurd (ground (arith, given))
          | inl (average, averages) ↦ inr (average, with_price, averages, ground (arith, given))
        ]
      ]

  -- One payload, applied to the order that was submitted and read as a snapshot, comes to the same
  -- order: where both are defined, and the payload has an executed quantity and a text as status, they
  -- agree on the exchange's id and on the executed quantity. They agree on the status when it is one of
  -- the map, and else the order keeps its status and the snapshot says UNKNOWN. On the average price
  -- they agree when the payload has one, and else the order keeps its own and the snapshot has none. The
  -- order's own id, its intent and its times stay.
  pub apply_snapshot_agree :
      (payload : Fields) (t : String) (order order' : OrderRecord)
      (snapshot : ExchangeOrderSnapshot)
      → get payload "status" ≡ text t
      → is_none (get payload "executedQty") ≡ false
      → apply_exchange_order_payload reader payload order ≡ (ok tt, order')
      → parse_order_snapshot reader payload ≡ ok snapshot
      → (order'.exchange_order_id ≡ snapshot.exchange_order_id)
        × (order'.filled_quantity ≡ snapshot.executed_quantity)
        × StatusAgrees (text t) order.status order'.status snapshot.status
        × (((no_price (get payload "avgPrice") ≡ false)
              × (order'.average_fill_price ≡ snapshot.average_price))
            ⊎ ((no_price (get payload "avgPrice") ≡ true)
                × (order'.average_fill_price ≡ order.average_fill_price)
                × (snapshot.average_price ≡ none)))
        × (order'.client_order_id ≡ order.client_order_id)
        × (order'.intent ≡ order.intent)
        × (order'.created_at ≡ order.created_at)
        × (order'.updated_at ≡ order.updated_at)
  apply_snapshot_agree payload t order order' snapshot status executed applies parses =
      let agreed = status_agrees (get payload "status") t order.status status in
      let (quantity, quantities, is_order) = apply-with payload order order' executed applies in
      let is_snapshot = parse-with payload snapshot quantity executed quantities parses in
      elim is_order [
        | inl (without, same) ↦ elim is_snapshot [
          | inl (_, read) ↦
              rw (same, read)
                (refl, refl, agreed, inr (without, refl, refl), refl, refl, refl, refl)
          | inr (average, with_price, averages, read) ↦ absurd (ground arith)
        ]
        | inr (average, with_price, averages, same) ↦ elim is_snapshot [
          | inl (without, read) ↦ absurd (ground arith)
          | inr (other, _, averages', read) ↦
              let equal : average ≡ other = ground arith in
              rw (same, read)
                (refl, refl, agreed, inl (with_price, ap some equal), refl, refl, refl, refl)
        ]
      ]
