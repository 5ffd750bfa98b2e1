-- ===== src/Execution/PositionReconciliation/Refresh.antt =====
-- What `refresh_local_positions_from_exchange` of execution/position_reconciliation.py leaves in the
-- table of storage/position_store.py.
use mathlib.Core.List.{append-nil, append_assoc}
use crypto_dual_sleeve_tradi.Storage.Positions.{upsert_position}
use crypto_dual_sleeve_tradi.Base.{
  ℕ, String, ◌≡◌, refl, sym, ap, ◌∙◌, true, false, not, Option, none, some, List, [], ◌∷◌, ◌++◌,
  arith, keep,
}
use crypto_dual_sleeve_tradi.Base.Result.{ok}
use crypto_dual_sleeve_tradi.Base.Key.{string_key, pair_key}
use crypto_dual_sleeve_tradi.Decimal
use crypto_dual_sleeve_tradi.Base.Dict
use crypto_dual_sleeve_tradi.Base.Dict.{Dict}
use crypto_dual_sleeve_tradi.Decimal.{Decimal, nought}
use crypto_dual_sleeve_tradi.Execution.PositionReconciliation.{
  PositionExchange, conclude, fetch_both, reconcile_positions, refresh, amount_mismatch,
  upsert_positions, PositionStore,
}
use crypto_dual_sleeve_tradi.Core.Models.{is_flat, position_key, ExchangePositionSnapshot}
use crypto_dual_sleeve_tradi.Storage.Positions.{
  get-upsert, get_position, IsKeyed, list_positions, PositionTable,
}
use crypto_dual_sleeve_tradi.Execution.Diff.{agree}
use crypto_dual_sleeve_tradi.Execution.SafeMode.{SafeModeController}
use crypto_dual_sleeve_tradi.Decimal.Order.{lt-eq-not-le}
use crypto_dual_sleeve_tradi.Decimal.Sign.{self_distance-le}
use crypto_dual_sleeve_tradi.Execution.PositionReconciliation.Verdict.{consistent_positions-agree}
use crypto_dual_sleeve_tradi.Core.Enums.{
  trading_mode_enum, sleeve_id_enum, order_side_enum, position_side_enum, order_type_enum,
  order_action_enum, order_status_enum, safe_mode_state_enum, circuit_action_enum,
}

-- the SQLite store in the part that the reconciler asks for
abbrev pub sqlite_positions : PositionStore PositionTable
sqlite_positions = record {
  list_positions = λ flat table. ok (list_positions flat table);
  upsert_position = upsert_position;
}

-- After a refresh from a list, of a table whose rows stand under their own symbol and side, a symbol
-- and side has the last row that the list holds for it, and one that the list does not name keeps the
-- row that it had: no row is ever removed.
pub refresh_get :
    (positions : List ExchangePositionSnapshot) (symbol side : String) (table : PositionTable)
    → IsKeyed table
    → get_position symbol side (upsert_positions sqlite_positions positions table)
      ≡ Dict.last_with position_key (symbol, side) positions (get_position symbol side table)
unfolding upsert_positions Dict.last_with
refresh_get [] symbol side table h = refl
refresh_get (p ∷ ps) symbol side table h =
    let (keyed, got) = get-upsert p symbol side table h in
    rw (refresh_get ps symbol side (upsert_position p table) keyed, got) refl

-- no position of the list has a key of `taken`, or the key of another one
abbrev pub Fresh : List (String × String) → List ExchangePositionSnapshot → Type 0
Fresh taken [] = Unit
Fresh taken (p ∷ ps) =
    (Dict.member (position_key p) taken ≡ false) × Fresh (taken ++ position_key p ∷ []) ps

upsert_fresh :
    (p : ExchangePositionSnapshot) (table : PositionTable)
    → Dict.member (position_key p) (Dict.keys table) ≡ false
    → (Dict.values (upsert_position p table) ≡ Dict.values table ++ p ∷ [])
      × (Dict.keys (upsert_position p table) ≡ Dict.keys table ++ position_key p ∷ [])
unfolding upsert_position
upsert_fresh p table h = let (v, k, l) = Dict.insert_fresh (position_key p) p table h in rw l (v, k)

values-upsert_positions :
    (ps : List ExchangePositionSnapshot) (table : PositionTable)
    → Fresh (Dict.keys table) ps
    → Dict.values (upsert_positions sqlite_positions ps table) ≡ Dict.values table ++ ps
unfolding upsert_positions
values-upsert_positions [] table h = sym (append-nil (Dict.values table))
values-upsert_positions (p ∷ ps) table (new, rest) =
    let (v, k) = upsert_fresh p table new in
    values-upsert_positions ps (upsert_position p table) (rw k rest)
    ∙ ap (λ vs. vs ++ ps) v
    ∙ append_assoc (Dict.values table) (p ∷ []) ps

-- an amount is within a tolerance of itself
same_amount :
    (tolerance : Decimal) (p : ExchangePositionSnapshot)
    → Decimal.le nought tolerance ≡ true
    → amount_mismatch tolerance p p ≡ false
unfolding amount_mismatch
same_amount tolerance p h = rw (lt-eq-not-le, self_distance-le p.position_amt tolerance h) refl

agree_refl :
    (tolerance : Decimal) (o : Option ExchangePositionSnapshot)
    → Decimal.le nought tolerance ≡ true
    → agree (amount_mismatch tolerance) o o ≡ true
agree_refl tolerance none h = refl
agree_refl tolerance (some p) h = rw (same_amount tolerance p h) refl

module _ {X : Type 0} (exchange : PositionExchange X)
    (positions : List ExchangePositionSnapshot) where
  refreshed :
      (table : PositionTable) (x : X)
      → (exchange.fetch_position_snapshots none x).0 ≡ ok positions
      → (refresh sqlite_positions exchange (table, x)).1 ≡ (
        upsert_positions sqlite_positions positions table,
        (exchange.fetch_position_snapshots none x).1,
      )
  unfolding refresh
  refreshed table x first = ground arith

  fetched :
      (table : PositionTable) (x : X)
      → Dict.values table ≡ positions
      → (exchange.fetch_position_snapshots none x).0 ≡ ok positions
      → let open_ones = keep (λ p. not (is_flat p)) positions in
        (fetch_both sqlite_positions exchange table x).0 ≡ ok (open_ones, open_ones)
  unfolding fetch_both list_positions
  fetched table x same second = ground arith

  consistent_fetch :
      (tolerance : Decimal) (now : ℕ) (safe : SafeModeController) (table : PositionTable) (x : X)
      → Decimal.le nought tolerance ≡ true
      → Dict.values table ≡ positions
      → (exchange.fetch_position_snapshots none x).0 ≡ ok positions
      → (reconcile_positions sqlite_positions exchange tolerance now table (safe, x)).0.consistent
        ≡ true
  unfolding reconcile_positions conclude
  consistent_fetch tolerance now safe table x h same second =
      let open_ones = keep (λ p. not (is_flat p)) positions in
      let (_, from) = consistent_positions-agree tolerance open_ones open_ones in
      rw (fetched table x same second)
        (from (λ key. agree_refl tolerance (Dict.last_of position_key key open_ones) h))

  -- From an empty table, with no symbol and side answered twice and a tolerance that is not negative: a
  -- reconciliation after a refresh, to which the exchange answers the same, is consistent.
  pub refresh_consistent :
      (tolerance : Decimal) (now : ℕ) (safe : SafeModeController) (x : X)
      → Decimal.le nought tolerance ≡ true
      → Fresh [] positions
      → (exchange.fetch_position_snapshots none x).0 ≡ ok positions
      → (exchange.fetch_position_snapshots none (exchange.fetch_position_snapshots none x).1).0
        ≡ ok positions
      → let (table, rest) = (refresh sqlite_positions exchange ([], x)).1 in
        (reconcile_positions sqlite_positions exchange tolerance now table
          (safe, rest)).0.consistent
        ≡ true
  unfolding Dict.keys Dict.values
  refresh_consistent tolerance now safe x h fresh first second = rw (refreshed [] x first) (
      consistent_fetch tolerance now safe _ _ h (values-upsert_positions positions [] fresh) second)
