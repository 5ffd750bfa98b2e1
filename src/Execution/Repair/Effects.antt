-- ===== src/Execution/Repair/Effects.antt =====
-- What a repair does to the order, the store and the safe mode: execution/repair.py.
use crypto_dual_sleeve_tradi.Base.{
  ◌⊎◌, ℕ, String, ◌≡◌, refl, inl, inr, Bool, true, false, ◌&&◌, Option, none, some, arith,
  Bool-cases,
}
use crypto_dual_sleeve_tradi.Base.Text.{str_eq}
use crypto_dual_sleeve_tradi.Base.Result.{Result, ok, err}
use crypto_dual_sleeve_tradi.Base.Key.{string_key, pair_key}
use crypto_dual_sleeve_tradi.Execution.Repair.{
  found, answered, snapshot_differs, manual_review, entered_safe_mode, updated_local_from_exchange,
  repair_by_client_order_id, settle, Engine, no_repair, OrderQueryAdapter, RepairRecommendation,
  RepairOrderStore, RepairAction,
}
use crypto_dual_sleeve_tradi.Execution.SafeMode.{enter, allows_new_entries, SafeModeController}
use crypto_dual_sleeve_tradi.Core.Models.{ExchangeOrderSnapshot, OrderRecord}
use crypto_dual_sleeve_tradi.Core.Enums.{
  trading_mode_enum, sleeve_id_enum, order_side_enum, position_side_enum, order_type_enum,
  order_action_enum, order_status_enum, safe_mode_state_enum, circuit_action_enum,
}

-- the actions that leave nothing to review
abbrev pub is_done : RepairAction → Bool
is_done no_repair = true
is_done updated_local_from_exchange = true
is_done entered_safe_mode = false
is_done manual_review = false

-- What an engine has after it made a recommendation.
abbrev pub Reported :
    {S X : Type 0} → SafeModeController → S → Result RepairRecommendation × Engine S X → Type 0
Reported safe s (err exc, e) = (e.safe ≡ safe) × (e.store ≡ s)
Reported safe s (ok r, e) =
    (allows_new_entries e.safe ≡ (allows_new_entries safe && is_done r.action))
    × ((r.action ≡ updated_local_from_exchange) ⊎ (e.store ≡ s))

module _ {S X : Type 0} (store : RepairOrderStore S) (exchange : OrderQueryAdapter X) where
  settle-Reported :
      (now : ℕ) (id : String) (local : OrderRecord) (answer : Option ExchangeOrderSnapshot)
      (e : Engine S X)
      → Reported e.safe e.store (settle store exchange now id local answer e)
  unfolding settle allows_new_entries enter
  settle-Reported now id local none e = ground arith
  settle-Reported now id local (some remote) e =
      elim (Bool-cases (str_eq remote.symbol local.intent.symbol)) [
        | inr a ↦ rw a (ground arith)
        | inl a ↦ elim (Bool-cases (snapshot_differs local remote)) [
          | inl b ↦ rw (a, b) (ground arith)
          | inr b ↦ rw (a, b) (ground arith)
        ]
      ]

  answered-Reported :
      (now : ℕ) (id : String) (local : OrderRecord) (answer : Result (Option ExchangeOrderSnapshot))
      (e : Engine S X)
      → Reported e.safe e.store (answered store exchange now id local answer e)
  unfolding answered allows_new_entries enter
  answered-Reported now id local (ok answer) e = settle-Reported now id local answer e
  answered-Reported now id local (err exc) e = ground arith

  found-Reported :
      (now : ℕ) (id : String) (answer : Result (Option OrderRecord)) (e : Engine S X)
      → Reported e.safe e.store (found store exchange now id answer e)
  unfolding found allows_new_entries enter
  found-Reported now id (err exc) e = (refl, refl)
  found-Reported now id (ok none) e = ground arith
  found-Reported now id (ok (some local)) e =
      answered-Reported now id local (exchange.query_order local.intent.symbol id e.exchange).0 _

  -- A repair that returns allows new entries afterwards exactly if they were allowed before and it
  -- found the order consistent or updated it: all that needs a review enters the safe mode. Only an
  -- update writes the store. A repair that raises has changed neither.
  pub repair_safe_mode :
      (now : ℕ) (id : String) (e : Engine S X)
      → Reported e.safe e.store (repair_by_client_order_id store exchange now id e)
  unfolding repair_by_client_order_id
  repair_safe_mode now id e = found-Reported now id (store.get_order now id e.store) e
