-- ===== src/Execution/Reconciliation/EmptyStore.antt =====
-- The reconciliation of execution/reconciliation.py on a store without orders.
use crypto_dual_sleeve_tradi.Base.{
  ℕ, String, ◌≡◌, refl, ◌≢◌, inl, inr, true, none, some, List, [], ◌∷◌, arith, Bool-cases,
}
use crypto_dual_sleeve_tradi.Base.Text.{str_eq, eq_iff}
use crypto_dual_sleeve_tradi.Base.Result.{ok}
use crypto_dual_sleeve_tradi.Base.Key.{string_key, pair_key}
use crypto_dual_sleeve_tradi.Base.Dict
use crypto_dual_sleeve_tradi.Base.Dict.{Dict}
use crypto_dual_sleeve_tradi.Core.Enums.{
  trading_mode_enum, sleeve_id_enum, order_side_enum, position_side_enum, order_type_enum,
  order_action_enum, order_status_enum, safe_mode_state_enum, circuit_action_enum,
}
use crypto_dual_sleeve_tradi.Execution.Reconciliation.Verdict.{under, consistent-agree}
use crypto_dual_sleeve_tradi.Core.Models.{OrderRecord}
use crypto_dual_sleeve_tradi.Execution.Reconciliation.{compare_orders, order_id}
use crypto_dual_sleeve_tradi.Storage.Orders.{list_open_orders, read_rows}

kept-some :
    (k : String) (orders : List OrderRecord) (held : OrderRecord)
    → Dict.last_with order_id k orders (some held) ≢ none
unfolding Dict.last_with
kept-some k [] held h = cc
kept-some k (order ∷ orders) held h = elim (Bool-cases (str_eq k order.client_order_id)) [
  | inl e ↦ kept-some k orders order (ground arith)
  | inr e ↦ kept-some k orders held (ground arith)
]

-- under the id of the first order of a list there is one
pub under-some :
    (order : OrderRecord) (orders : List OrderRecord)
    → under order.client_order_id (order ∷ orders) ≢ none
unfolding Dict.last_of Dict.last_with
under-some order orders h =
    kept-some order.client_order_id orders order
      (ground (arith, eq_iff order.client_order_id order.client_order_id))

pub under-nil : (id : String) → under id [] ≡ none
unfolding Dict.last_of Dict.last_with
under-nil id = refl

-- With an empty local store a consistent report means that the exchange has no open order.
pub empty_store :
    (orders : List OrderRecord) → (compare_orders [] orders).consistent ≡ true → orders ≡ []
empty_store [] h = refl
empty_store (order ∷ orders) h =
    let (to, _) = consistent-agree [] (order ∷ orders) in
    absurd (
      ground (
        arith,
        to h order.client_order_id,
        under-some order orders,
        under-nil order.client_order_id,
      ))

pub none_stored : (later : ℕ) → list_open_orders later [] ≡ ok []
unfolding list_open_orders read_rows Dict.values
none_stored later = refl
