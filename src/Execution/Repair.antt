-- ===== src/Execution/Repair.antt =====
-- execution/repair.py: one order of the local store, brought in line with the exchange. The engine
-- works on the safe mode, the store and the exchange.
pub mod Effects
pub mod Settles
use crypto_dual_sleeve_tradi.Base.{
  ℕ, zero, suc, ◌+◌, ◌-◌, ◌*◌, ◌≤◌, ◌<◌, String, ◌≡◌, refl, sym, ap, ◌∙◌, ◌≢◌, ◌↔◌, ◌⊎◌, inl, inr,
  Bool, true, false, not, ◌&&◌, ◌||◌, Option, none, some, List, [], ◌∷◌, ◌++◌, map, arith, ltb, leb,
  ◌==◌, if◌then◌else◌, Bool-cases, Option-cases, length, keep, All,
}
use crypto_dual_sleeve_tradi.Base.Text.{◌^+◌, str_eq, eq_iff}
use crypto_dual_sleeve_tradi.Base.Enum.{is, one_of, value}
use crypto_dual_sleeve_tradi.Base.Result.{Result, ok, err}
use crypto_dual_sleeve_tradi.Base.Key.{Key, string_key, pair_key}
use crypto_dual_sleeve_tradi.Decimal
use crypto_dual_sleeve_tradi.Base.Dict
use crypto_dual_sleeve_tradi.Base.Dict.{Dict}
use crypto_dual_sleeve_tradi.Decimal.{Decimal, nought}
use crypto_dual_sleeve_tradi.Core.Enums.{
  trading_mode_enum, sleeve_id_enum, order_side_enum, position_side_enum, order_type_enum,
  order_action_enum, order_status_enum, safe_mode_state_enum, circuit_action_enum,
}
use crypto_dual_sleeve_tradi.Base.Exec.{
  Exec, ◌>>=◌, ◌>>◌, raise_when, modify, gets, lift, pure, raise,
}
use crypto_dual_sleeve_tradi.Base.Result.{message}
use crypto_dual_sleeve_tradi.Core.Models.{ExchangeOrderSnapshot, OrderRecord}
use crypto_dual_sleeve_tradi.Execution.SafeMode.{SafeModeController, enter}

pub data RepairAction : Type 0 where
  no_repair updated_local_from_exchange entered_safe_mode manual_review : RepairAction

pub data RepairReason : Type 0 where
  consistent local_order_missing exchange_order_missing exchange_fetch_failed local_updated
        symbol_mismatch :
      RepairReason

pub record RepairOrderStore (S : Type 0) : Type 0 where
  pub get_order : ℕ → String → S → Result (Option OrderRecord)
  pub upsert_order : OrderRecord → S → S

pub record OrderQueryAdapter (X : Type 0) : Type 0 where
  pub query_order : String → String → Exec X (Option ExchangeOrderSnapshot)

pub record RepairRecommendation : Type 0 where
  pub client_order_id : String
  pub action : RepairAction
  pub reason : RepairReason
  pub message : String

-- the objects that the engine holds
pub record Engine (S X : Type 0) : Type 0 where
  pub safe : SafeModeController
  pub store : S
  pub exchange : X

-- `a != b` of optional values
abbrev pub option_differs : {A : Type 0} → (A → A → Bool) → Option A → Option A → Bool
option_differs eq none none = false
option_differs eq (some a) (some b) = not (eq a b)
option_differs eq _ _ = true

-- the tests of `_apply_remote_snapshot`
unfoldable pub snapshot_differs : OrderRecord → ExchangeOrderSnapshot → Bool
snapshot_differs local remote =
    not (is local.status remote.status)
    || option_differs str_eq local.exchange_order_id remote.exchange_order_id
    || not (Decimal.eq local.filled_quantity remote.executed_quantity)
    || option_differs Decimal.eq local.average_fill_price remote.average_price

-- `_apply_remote_snapshot`: a field is written only where it differs
unfoldable pub apply_remote_snapshot : OrderRecord → ExchangeOrderSnapshot → OrderRecord
apply_remote_snapshot local remote = record local {
  status = if is local.status remote.status then local.status else remote.status;
  exchange_order_id =
      if option_differs str_eq local.exchange_order_id remote.exchange_order_id
      then remote.exchange_order_id
      else local.exchange_order_id;
  filled_quantity =
      if Decimal.eq local.filled_quantity remote.executed_quantity
      then local.filled_quantity
      else remote.executed_quantity;
  average_fill_price =
      if option_differs Decimal.eq local.average_fill_price remote.average_price
      then remote.average_price
      else local.average_fill_price;
}

abbrev recommend : String → RepairAction → RepairReason → String → RepairRecommendation
recommend id action reason text = record {
  client_order_id = id;
  action = action;
  reason = reason;
  message = text;
}

module _ {S X : Type 0} (store : RepairOrderStore S) (exchange : OrderQueryAdapter X) where
  -- `self.safe_mode.enter(reason)`, and the recommendation behind it
  abbrev stop : ℕ → String → RepairRecommendation → Exec (Engine S X) RepairRecommendation
  stop now reason r e = (ok r, record e { safe = enter now reason e.safe })

  -- once the exchange has answered
  unfoldable pub settle :
      ℕ
      → String
      → OrderRecord
      → Option ExchangeOrderSnapshot
      → Exec (Engine S X) RepairRecommendation
  settle now id local none e =
      stop now ("REPAIR_EXCHANGE_ORDER_MISSING " ^+ id)
        (recommend id manual_review exchange_order_missing
          "Exchange did not return the local order; manual review required.")
        e
  settle now id local (some remote) e =
      if not (str_eq remote.symbol local.intent.symbol)
      then stop now ("REPAIR_SYMBOL_MISMATCH " ^+ id)
          (recommend id manual_review symbol_mismatch (
            "Local symbol " ^+ local.intent.symbol ^+ " != exchange symbol " ^+ remote.symbol
            ^+ "."))
          e
      else if snapshot_differs local remote
      then (
        ok (
            recommend id updated_local_from_exchange local_updated
              "Local order status/fill fields updated from exchange snapshot."),
        record e { store = store.upsert_order (apply_remote_snapshot local remote) e.store },
      )
      else (
        ok (recommend id no_repair consistent "Local order already matches exchange snapshot."),
        e,
      )

  -- `try: remote = self.exchange.query_order(…)`, and what follows it
  unfoldable pub answered :
      ℕ
      → String
      → OrderRecord
      → Result (Option ExchangeOrderSnapshot)
      → Exec (Engine S X) RepairRecommendation
  unfolding settle
  answered now id local (ok remote) e = settle now id local remote e
  answered now id local (err exc) e =
      stop now ("REPAIR_QUERY_FAILED " ^+ id ^+ ": " ^+ message exc)
        (recommend id entered_safe_mode exchange_fetch_failed (message exc)) e

  -- once the store has answered
  unfoldable pub found :
      ℕ → String → Result (Option OrderRecord) → Exec (Engine S X) RepairRecommendation
  unfolding answered
  found now id (err exc) e = (err exc, e)
  found now id (ok none) e =
      stop now ("REPAIR_LOCAL_ORDER_MISSING " ^+ id)
        (recommend id manual_review local_order_missing
          "Local order is missing; cannot infer sleeve ownership from exchange alone.")
        e
  found now id (ok (some local)) e =
      let (answer, x) = exchange.query_order local.intent.symbol id e.exchange in
      answered now id local answer (record e { exchange = x })

  unfoldable pub repair_by_client_order_id : ℕ → String → Exec (Engine S X) RepairRecommendation
  unfolding found
  repair_by_client_order_id now id e = found now id (store.get_order now id e.store) e
