-- ===== src/Execution/Reconciliation.antt =====
-- execution/reconciliation.py: the open orders of the local store against those of the exchange. The
-- reconciler reads the store, asks the exchange, and may enter the safe mode.
pub mod Verdict
pub mod EmptyStore
pub mod OnBinance
use crypto_dual_sleeve_tradi.Base.Exec.{
  Exec, ◌>>=◌, ◌>>◌, raise_when, modify, gets, lift, pure, raise,
}
use crypto_dual_sleeve_tradi.Base.{
  ℕ, zero, suc, ◌+◌, ◌-◌, ◌*◌, ◌≤◌, ◌<◌, String, ◌≡◌, refl, sym, ap, ◌∙◌, ◌≢◌, ◌↔◌, ◌⊎◌, inl, inr,
  Bool, true, false, not, ◌&&◌, ◌||◌, Option, none, some, List, [], ◌∷◌, ◌++◌, map, arith, ltb, leb,
  ◌==◌, if◌then◌else◌, Bool-cases, Option-cases, length, keep, All,
}
use crypto_dual_sleeve_tradi.Base.Text.{◌^+◌, str_eq, eq_iff}
use crypto_dual_sleeve_tradi.Base.Enum.{is, one_of, value}
use crypto_dual_sleeve_tradi.Base.Result.{Result, ok, err}
use crypto_dual_sleeve_tradi.Base.Key.{Key, string_key, pair_key}
use crypto_dual_sleeve_tradi.Decimal
use crypto_dual_sleeve_tradi.Base.Dict
use crypto_dual_sleeve_tradi.Base.Dict.{Dict}
use crypto_dual_sleeve_tradi.Decimal.{Decimal, nought}
use crypto_dual_sleeve_tradi.Core.Enums.{
  unknown, expired, rejected, canceled, filled, OrderStatus, trading_mode_enum, sleeve_id_enum,
  order_side_enum, position_side_enum, order_type_enum, order_action_enum, order_status_enum,
  safe_mode_state_enum, circuit_action_enum,
}
use crypto_dual_sleeve_tradi.Base.Text.{tuple_text}
use crypto_dual_sleeve_tradi.Base.Result.{message}
use crypto_dual_sleeve_tradi.Execution.SafeMode.{SafeModeController, enter}
use crypto_dual_sleeve_tradi.Core.Models.{OrderRecord}
use crypto_dual_sleeve_tradi.Exchange.Interfaces.{ExchangeAdapter}
use crypto_dual_sleeve_tradi.Base.Exec.{Exec}
use crypto_dual_sleeve_tradi.Execution.Diff.{only_in, mismatched, is_empty}

pub record LocalOrderStore (S : Type 0) : Type 0 where
  pub list_open_orders : ℕ → S → Result (List OrderRecord)

pub record ReconciliationReport : Type 0 where
  pub consistent : Bool
  pub missing_on_exchange : List String
  pub unknown_on_local : List String
  pub status_mismatches : List String
  pub error : Option String

-- `_is_meaningful_status_mismatch`
unfoldable pub is_meaningful_status_mismatch : OrderStatus → OrderStatus → Bool
is_meaningful_status_mismatch local exchange =
    let terminal = filled ∷ canceled ∷ rejected ∷ expired ∷ [] in
    if one_of (local ∷ exchange ∷ []) unknown
    then false
    else if is local exchange
    then false
    else one_of terminal local || one_of terminal exchange

abbrev pub order_id : OrderRecord → String
order_id order = order.client_order_id

abbrev pub status_mismatch : OrderRecord → OrderRecord → Bool
status_mismatch local exchange = is_meaningful_status_mismatch local.status exchange.status

-- the report on two lists that were fetched
unfoldable pub compare_orders : List OrderRecord → List OrderRecord → ReconciliationReport
compare_orders local_orders exchange_orders =
    let local_by_id = Dict.index_by order_id local_orders in
    let exchange_by_id = Dict.index_by order_id exchange_orders in
    let missing = only_in local_by_id exchange_by_id in
    let unknown_ids = only_in exchange_by_id local_by_id in
    let mismatches = mismatched status_mismatch local_by_id exchange_by_id in
    record {
      consistent = is_empty missing && is_empty unknown_ids && is_empty mismatches;
      missing_on_exchange = missing;
      unknown_on_local = unknown_ids;
      status_mismatches = mismatches;
      error = none;
    }

unfoldable pub mismatch_reason : ReconciliationReport → String
mismatch_reason r =
    "RECONCILIATION_MISMATCH missing="
    ^+ tuple_text r.missing_on_exchange
    ^+ " unknown="
    ^+ tuple_text r.unknown_on_local
    ^+ " status="
    ^+ tuple_text r.status_mismatches

-- the report when a list could not be fetched
abbrev pub fetch_failed : String → ReconciliationReport
fetch_failed reason = record {
  consistent = false;
  missing_on_exchange = [];
  unknown_on_local = [];
  status_mismatches = [];
  error = some reason;
}

-- from the outcome of the fetches on
unfoldable pub conclude :
    ℕ
    → Result (List OrderRecord × List OrderRecord)
    → SafeModeController
    → ReconciliationReport × SafeModeController
conclude now (err exc) safe =
    let reason = "RECONCILIATION_FETCH_FAILED: " ^+ message exc in
    (fetch_failed reason, enter now reason safe)
conclude now (ok (local_orders, exchange_orders)) safe =
    let report = compare_orders local_orders exchange_orders in
    (report, if report.consistent then safe else enter now (mismatch_reason report) safe)

module _ {S X : Type 0} (store : LocalOrderStore S) (adapter : ExchangeAdapter X) where
  -- the two fetches under `try`: the exchange is asked only if the store answered
  unfoldable pub fetch_both : ℕ → S → Exec X (List OrderRecord × List OrderRecord)
  fetch_both now s = do
    local_orders ← lift (store.list_open_orders now s)
    exchange_orders ← adapter.fetch_open_orders
    pure (local_orders, exchange_orders)

  unfoldable pub reconcile_open_orders :
      ℕ → S → SafeModeController × X → ReconciliationReport × (SafeModeController × X)
  unfolding fetch_both conclude
  reconcile_open_orders now s (safe, x) =
      let (fetched, x') = fetch_both now s x in
      let (report, safe') = conclude now fetched safe in (report, (safe', x'))
