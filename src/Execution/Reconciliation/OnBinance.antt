-- ===== src/Execution/Reconciliation/OnBinance.antt =====
-- The reconciliation of execution/reconciliation.py on the adapter of exchange/binance_rest.py.
use crypto_dual_sleeve_tradi.Base.{ℕ, ◌≡◌, inl, inr, true, false, List, [], ◌∷◌, arith, Bool-cases}
use crypto_dual_sleeve_tradi.Base.Result.{Result-cases, ok}
use crypto_dual_sleeve_tradi.Base.Key.{string_key, pair_key}
use crypto_dual_sleeve_tradi.Core.Enums.{
  trading_mode_enum, sleeve_id_enum, order_side_enum, position_side_enum, order_type_enum,
  order_action_enum, order_status_enum, safe_mode_state_enum, circuit_action_enum,
}
use crypto_dual_sleeve_tradi.Exchange.Requests.{request, Adapter, Platform}
use crypto_dual_sleeve_tradi.Execution.Reconciliation.{
  conclude, fetch_both, compare_orders, reconcile_open_orders, LocalOrderStore,
}
use crypto_dual_sleeve_tradi.Core.Models.{OrderRecord}
use crypto_dual_sleeve_tradi.Execution.Reconciliation.EmptyStore.{under-nil, under-some}
use crypto_dual_sleeve_tradi.Exchange.BinanceOrders.{fetch_open_orders, rest_adapter}
use crypto_dual_sleeve_tradi.Execution.SafeMode.{SafeModeController, enter, allows_new_entries}
use crypto_dual_sleeve_tradi.Execution.Reconciliation.Verdict.{consistent-agree}

module _ {W S : Type 0} (platform : Platform W) (store : LocalOrderStore S) where
  -- The adapter never names an open order.
  fetch_open_orders-nil :
      (adapter : Adapter W) (orders : List OrderRecord)
      → (fetch_open_orders platform adapter).0 ≡ ok orders
      → orders ≡ []
  unfolding fetch_open_orders
  fetch_open_orders-nil adapter orders h =
      elim (Result-cases (request platform "GET" "/fapi/v1/openOrders" [] true adapter).0) [
        | inr (e, fails) ↦ absurd (ground arith)
        | inl (payload, answers) ↦ ground arith
      ]

  not_matched :
      (order : OrderRecord) (orders : List OrderRecord)
      → (compare_orders (order ∷ orders) []).consistent ≡ false
  not_matched order orders = elim (Bool-cases (compare_orders (order ∷ orders) []).consistent) [
    | inr e ↦ e
    | inl e ↦
        let (to, _) = consistent-agree (order ∷ orders) [] in
        absurd (
          ground (
            arith,
            to e order.client_order_id,
            under-some order orders,
            under-nil order.client_order_id,
          ))
  ]

  -- On the adapter of the testnet a reconciliation with an open order in the local store never finds
  -- both sides consistent, whatever orders the exchange has open: behind it the safe mode blocks new
  -- entries.
  pub reconcile_rest :
      (now : ℕ) (s : S) (safe : SafeModeController) (adapter : Adapter W) (order : OrderRecord)
      (orders : List OrderRecord)
      → store.list_open_orders now s ≡ ok (order ∷ orders)
      → let (report, (safe', adapter')) =
          reconcile_open_orders store (rest_adapter platform) now s (safe, adapter) in
        (report.consistent ≡ false) × (allows_new_entries safe' ≡ false)
  unfolding reconcile_open_orders fetch_both conclude rest_adapter allows_new_entries enter
  reconcile_rest now s safe adapter order orders stored =
      let fetched = (fetch_open_orders platform adapter).0 in
      elim (Result-cases fetched) [
        | inr (e, fails) ↦ ground arith
        | inl (remote, fetches) ↦
            let nothing_open : remote ≡ [] = fetch_open_orders-nil adapter remote fetches in
            let nothing : (compare_orders (order ∷ orders) remote).consistent ≡ false =
              rw nothing_open (not_matched order orders) in
            ground arith
      ]
