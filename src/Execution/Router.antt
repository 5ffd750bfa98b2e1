-- ===== src/Execution/Router.antt =====
-- execution/order_router.py and execution/persistent_router.py. The router reads the safe mode and
-- the trading mode, and changes only the exchange. One instant stands for the clock of a call.
pub mod Outcome
use crypto_dual_sleeve_tradi.Base.{
  ℕ, zero, suc, ◌+◌, ◌-◌, ◌*◌, ◌≤◌, ◌<◌, String, ◌≡◌, refl, sym, ap, ◌∙◌, ◌≢◌, ◌↔◌, ◌⊎◌, inl, inr,
  Bool, true, false, not, ◌&&◌, ◌||◌, Option, none, some, List, [], ◌∷◌, ◌++◌, map, arith, ltb, leb,
  ◌==◌, if◌then◌else◌, Bool-cases, Option-cases, length, keep, All,
}
use crypto_dual_sleeve_tradi.Base.Text.{◌^+◌, str_eq, eq_iff}
use crypto_dual_sleeve_tradi.Base.Enum.{is, one_of, value}
use crypto_dual_sleeve_tradi.Base.Result.{live_trading_disabled, Result, ok, err}
use crypto_dual_sleeve_tradi.Base.Key.{Key, string_key, pair_key}
use crypto_dual_sleeve_tradi.Decimal
use crypto_dual_sleeve_tradi.Base.Dict
use crypto_dual_sleeve_tradi.Base.Dict.{Dict}
use crypto_dual_sleeve_tradi.Decimal.{Decimal, nought}
use crypto_dual_sleeve_tradi.Core.Enums.{
  submitted, entry, exchange_testnet, paper_local, signal_only, TradingMode, trading_mode_enum,
  sleeve_id_enum, order_side_enum, position_side_enum, order_type_enum, order_action_enum,
  order_status_enum, safe_mode_state_enum, circuit_action_enum,
}
use crypto_dual_sleeve_tradi.Base.Exec.{
  Exec, ◌>>=◌, ◌>>◌, raise_when, modify, gets, lift, pure, raise,
}
use crypto_dual_sleeve_tradi.Core.Models.{new_order, OrderIntent, OrderRecord}
use crypto_dual_sleeve_tradi.Exchange.Interfaces.{ExchangeAdapter}
use crypto_dual_sleeve_tradi.Execution.OrderIds.{make_client_order_id}
use crypto_dual_sleeve_tradi.Execution.SafeMode.{allows_new_entries, SafeModeController}
use crypto_dual_sleeve_tradi.Exchange.Filters.{normalize_order_intent}
use crypto_dual_sleeve_tradi.Execution.OrderState.{transition}

pub record RouteResult : Type 0 where
  pub accepted : Bool
  pub order : Option OrderRecord
  pub reason : String

abbrev refuse : String → RouteResult
refuse reason = record { accepted = false; order = none; reason = reason }

abbrev accept : OrderRecord → String → RouteResult
accept order reason = record { accepted = true; order = some order; reason = reason }

-- `setup_id or "manual000000"`
abbrev pub setup_or_manual : Option String → String
setup_or_manual none = "manual000000"
setup_or_manual (some s) = if str_eq s "" then "manual000000" else s

-- `OrderRecord(client_order_id=make_client_order_id(…), intent=normalized)`
abbrev pub order_of : ℕ → OrderIntent → OrderRecord
order_of now intent =
    new_order now
      (make_client_order_id intent.sleeve_id (setup_or_manual intent.setup_id) intent.action now)
      intent

module _ {X : Type 0} (adapter : ExchangeAdapter X) (mode : TradingMode) where
  -- the end of `route`, from the test of the mode on
  unfoldable pub dispatch : ℕ → OrderRecord → Exec X RouteResult
  dispatch now order =
      if is mode signal_only
      then pure (accept order "SIGNAL_ONLY_NO_SUBMIT")
      else if one_of (paper_local ∷ exchange_testnet ∷ []) mode
      then (do
        lift (transition now submitted order).0
        submitted_order ← adapter.submit_order (transition now submitted order).1
        pure (accept submitted_order "SUBMITTED_TO_SIM_OR_TESTNET"))
      else raise (live_trading_disabled ("Unsupported mode is disabled: " ^+ value mode))

  unfoldable pub route : SafeModeController → ℕ → OrderIntent → Exec X RouteResult
  unfolding dispatch
  route safe now intent =
      if not (allows_new_entries safe) && is intent.action entry
      then pure (refuse "SAFE_MODE_BLOCKS_NEW_ENTRIES")
      else if not (is intent.action entry) && not intent.reduce_only
      then pure (refuse "CLOSE_ORDER_MUST_BE_REDUCE_ONLY")
      else (do
        filters ← adapter.get_symbol_filters intent.symbol
        normalized ← lift (normalize_order_intent intent filters)
        dispatch now (order_of now normalized))

-- What the persistent router asks of a store. A write that raises is not modelled.
pub record OrderStoreWriter (S : Type 0) : Type 0 where
  pub upsert_order : OrderRecord → S → S

-- the test before the write
abbrev pub to_persist : RouteResult → Option OrderRecord
to_persist result =
    if result.accepted && str_eq result.reason "SUBMITTED_TO_SIM_OR_TESTNET"
    then result.order
    else none

abbrev write : {S : Type 0} → OrderStoreWriter S → Option OrderRecord → S → S
write writer none s = s
write writer (some order) s = writer.upsert_order order s

module _ {X S : Type 0} (adapter : ExchangeAdapter X) (writer : OrderStoreWriter S)
    (mode : TradingMode) where
  -- `PersistentOrderRouter.route`, on the exchange and the store
  unfoldable pub route_persistent : SafeModeController → ℕ → OrderIntent → Exec (X × S) RouteResult
  route_persistent safe now intent (x, s) =
      let (r, x') = route adapter mode safe now intent x in
      elim r [
        | ok result ↦ (ok result, (x', write writer (to_persist result) s))
        | err e ↦ (err e, (x', s))
      ]
