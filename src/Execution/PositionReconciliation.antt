-- ===== src/Execution/PositionReconciliation.antt =====
-- execution/position_reconciliation.py: the local positions against those of the exchange.
pub mod Verdict
pub mod Refresh
use crypto_dual_sleeve_tradi.Base.{
  ℕ, zero, suc, ◌+◌, ◌-◌, ◌*◌, ◌≤◌, ◌<◌, String, ◌≡◌, refl, sym, ap, ◌∙◌, ◌≢◌, ◌↔◌, ◌⊎◌, inl, inr,
  Bool, true, false, not, ◌&&◌, ◌||◌, Option, none, some, List, [], ◌∷◌, ◌++◌, map, arith, ltb, leb,
  ◌==◌, if◌then◌else◌, Bool-cases, Option-cases, length, keep, All,
}
use crypto_dual_sleeve_tradi.Base.Text.{◌^+◌, str_eq, eq_iff}
use crypto_dual_sleeve_tradi.Base.Enum.{is, one_of, value}
use crypto_dual_sleeve_tradi.Base.Result.{Result, ok, err}
use crypto_dual_sleeve_tradi.Base.Key.{Key, string_key, pair_key}
use crypto_dual_sleeve_tradi.Decimal
use crypto_dual_sleeve_tradi.Base.Dict
use crypto_dual_sleeve_tradi.Base.Dict.{Dict}
use crypto_dual_sleeve_tradi.Decimal.{Decimal, nought}
use crypto_dual_sleeve_tradi.Core.Enums.{
  trading_mode_enum, sleeve_id_enum, order_side_enum, position_side_enum, order_type_enum,
  order_action_enum, order_status_enum, safe_mode_state_enum, circuit_action_enum,
}
use crypto_dual_sleeve_tradi.Base.Exec.{
  Exec, ◌>>=◌, ◌>>◌, raise_when, modify, gets, lift, pure, raise,
}
use crypto_dual_sleeve_tradi.Base.Result.{message}
use crypto_dual_sleeve_tradi.Execution.SafeMode.{SafeModeController, enter}
use crypto_dual_sleeve_tradi.Core.Models.{is_flat, position_key, ExchangePositionSnapshot}
use crypto_dual_sleeve_tradi.Execution.Diff.{only_in, mismatched, is_empty}

pub record PositionStore (S : Type 0) : Type 0 where
  pub list_positions : Bool → S → Result (List ExchangePositionSnapshot)
  pub upsert_position : ExchangePositionSnapshot → S → S

pub record PositionExchange (X : Type 0) : Type 0 where
  pub fetch_position_snapshots : Option String → Exec X (List ExchangePositionSnapshot)

pub record PositionReconciliationReport : Type 0 where
  pub consistent : Bool
  pub missing_on_exchange : List (String × String)
  pub unknown_on_local : List (String × String)
  pub amount_mismatches : List (String × String)
  pub error : Option String

-- `abs(local.position_amt - remote.position_amt) > tolerance`
unfoldable pub amount_mismatch :
    Decimal → ExchangePositionSnapshot → ExchangePositionSnapshot → Bool
amount_mismatch tolerance local remote =
    Decimal.lt tolerance (Decimal.abs (Decimal.sub local.position_amt remote.position_amt))

unfoldable pub compare_positions :
    Decimal
    → List ExchangePositionSnapshot
    → List ExchangePositionSnapshot
    → PositionReconciliationReport
compare_positions tolerance local_positions remote_positions =
    let local_by_key = Dict.index_by position_key local_positions in
    let remote_by_key = Dict.index_by position_key remote_positions in
    let missing = only_in local_by_key remote_by_key in
    let unknown_keys = only_in remote_by_key local_by_key in
    let mismatches = mismatched (amount_mismatch tolerance) local_by_key remote_by_key in
    record {
      consistent = is_empty missing && is_empty unknown_keys && is_empty mismatches;
      missing_on_exchange = missing;
      unknown_on_local = unknown_keys;
      amount_mismatches = mismatches;
      error = none;
    }

keys_tail : List (String × String) → String
keys_tail [] = ")"
keys_tail ((a, b) ∷ ks) = ", ('" ^+ a ^+ "', '" ^+ b ^+ "')" ^+ keys_tail ks

-- `str` of a tuple of pairs of texts that hold no quote, backslash or control character
keys_text : List (String × String) → String
unfolding keys_tail
keys_text [] = "()"
keys_text ((a, b) ∷ []) = "(('" ^+ a ^+ "', '" ^+ b ^+ "'),)"
keys_text ((a, b) ∷ k ∷ ks) = "(('" ^+ a ^+ "', '" ^+ b ^+ "')" ^+ keys_tail (k ∷ ks)

unfoldable pub mismatch_reason : PositionReconciliationReport → String
unfolding keys_text
mismatch_reason r =
    "POSITION_RECONCILIATION_MISMATCH missing="
    ^+ keys_text r.missing_on_exchange
    ^+ " unknown="
    ^+ keys_text r.unknown_on_local
    ^+ " amount="
    ^+ keys_text r.amount_mismatches

abbrev pub fetch_failed : String → PositionReconciliationReport
fetch_failed reason = record {
  consistent = false;
  missing_on_exchange = [];
  unknown_on_local = [];
  amount_mismatches = [];
  error = some reason;
}

-- from the outcome of the fetches on
unfoldable pub conclude :
    Decimal
    → ℕ
    → Result (List ExchangePositionSnapshot × List ExchangePositionSnapshot)
    → SafeModeController
    → PositionReconciliationReport × SafeModeController
conclude tolerance now (err exc) safe =
    let reason = "POSITION_RECONCILIATION_FETCH_FAILED: " ^+ message exc in
    (fetch_failed reason, enter now reason safe)
conclude tolerance now (ok (local_positions, remote_positions)) safe =
    let report = compare_positions tolerance local_positions remote_positions in
    (report, if report.consistent then safe else enter now (mismatch_reason report) safe)

module _ {S : Type 0} (store : PositionStore S) where
  -- `for position in positions: self.store.upsert_position(position)`
  unfoldable pub upsert_positions : List ExchangePositionSnapshot → S → S
  upsert_positions [] s = s
  upsert_positions (p ∷ ps) s = upsert_positions ps (store.upsert_position p s)

module _ {S X : Type 0} (store : PositionStore S) (exchange : PositionExchange X) where
  -- the two fetches under `try`; flat positions of the exchange are left out
  unfoldable pub fetch_both :
      S → Exec X (List ExchangePositionSnapshot × List ExchangePositionSnapshot)
  fetch_both s = do
    local_positions ← lift (store.list_positions false s)
    snapshots ← exchange.fetch_position_snapshots none
    pure (local_positions, keep (λ p. not (is_flat p)) snapshots)

  unfoldable pub reconcile_positions :
      Decimal
      → ℕ
      → S
      → SafeModeController × X
      → PositionReconciliationReport × (SafeModeController × X)
  unfolding fetch_both conclude
  reconcile_positions tolerance now s (safe, x) =
      let (fetched, x') = fetch_both s x in
      let (report, safe') = conclude tolerance now fetched safe in (report, (safe', x'))

  -- `refresh_local_positions_from_exchange`, on the store and the exchange
  unfoldable pub refresh : Exec (S × X) (List ExchangePositionSnapshot)
  unfolding upsert_positions
  refresh (s, x) =
      let (fetched, x') = exchange.fetch_position_snapshots none x in
      elim fetched [
        | ok positions ↦ (ok positions, (upsert_positions store positions s, x'))
        | err e ↦ (err e, (s, x'))
      ]
