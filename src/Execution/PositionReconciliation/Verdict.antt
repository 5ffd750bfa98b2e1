-- ===== src/Execution/PositionReconciliation/Verdict.antt =====
-- What a report of execution/position_reconciliation.py says, and what it does to the safe mode.
use crypto_dual_sleeve_tradi.Decimal
use crypto_dual_sleeve_tradi.Base.{
  some, ◌⊎◌, ℕ, String, ◌≡◌, refl, ◌↔◌, inl, inr, true, false, not, ◌&&◌, Option, none, List, [],
  ◌∷◌, ◌++◌, arith, if◌then◌else◌, Bool-cases,
}
use crypto_dual_sleeve_tradi.Base.Result.{Result, ok, err}
use crypto_dual_sleeve_tradi.Base.Key.{string_key, pair_key}
use crypto_dual_sleeve_tradi.Base.Dict
use crypto_dual_sleeve_tradi.Base.Dict.{Dict}
use crypto_dual_sleeve_tradi.Decimal.{Decimal}
use crypto_dual_sleeve_tradi.Core.Enums.{
  trading_mode_enum, sleeve_id_enum, order_side_enum, position_side_enum, order_type_enum,
  order_action_enum, order_status_enum, safe_mode_state_enum, circuit_action_enum,
}
use crypto_dual_sleeve_tradi.Base.Sorted.{IsAscending}
use crypto_dual_sleeve_tradi.Execution.SafeMode.{SafeModeController, enter, allows_new_entries}
use crypto_dual_sleeve_tradi.Execution.Diff.{
  agree, differ_at, none_differ_iff, member-only_in, member-mismatched, only_in-IsAscending,
  mismatched-IsAscending,
}
use crypto_dual_sleeve_tradi.Core.Models.{position_key, ExchangePositionSnapshot}
use crypto_dual_sleeve_tradi.Execution.PositionReconciliation.{
  compare_positions, amount_mismatch, reconcile_positions, conclude, fetch_both, fetch_failed,
  PositionStore, PositionExchange, PositionReconciliationReport,
}

-- the position that a list holds under a key; of several, the last
abbrev pub under : String × String → List ExchangePositionSnapshot → Option ExchangePositionSnapshot
under key positions = Dict.last_of position_key key positions

-- the same, by the test of the code
pub consistent_positions-agree :
    (tolerance : Decimal) (locals remotes : List ExchangePositionSnapshot)
    → ((compare_positions tolerance locals remotes).consistent ≡ true) ↔ (
        (key : String × String)
        → agree (amount_mismatch tolerance) (under key locals) (under key remotes) ≡ true)
unfolding compare_positions
consistent_positions-agree tolerance locals remotes =
    let (to, from) =
      none_differ_iff (amount_mismatch tolerance) (Dict.index_by position_key locals)
        (Dict.index_by position_key remotes) in
    (
      λ h key.
          rw
            (
              ← Dict.lookup-index_by position_key key locals,
              ← Dict.lookup-index_by position_key key remotes,
            )
            (to h key),
      λ h. from (λ key.
          rw
            (
              Dict.lookup-index_by position_key key locals,
              Dict.lookup-index_by position_key key remotes,
            )
            (h key)),
    )

-- Neither side has a position, or both have one and the distance of the amounts, whichever is the
-- larger, is at most the tolerance.
abbrev pub AmountsMatch :
    Decimal → Option ExchangePositionSnapshot → Option ExchangePositionSnapshot → Type 0
AmountsMatch tolerance none none = Unit
AmountsMatch tolerance (some local) (some remote) =
    Decimal.le (Decimal.abs (Decimal.sub local.position_amt remote.position_amt)) tolerance ≡ true
AmountsMatch tolerance _ _ = ⊥

agree-AmountsMatch :
    (tolerance : Decimal) (local remote : Option ExchangePositionSnapshot)
    → (agree (amount_mismatch tolerance) local remote ≡ true) ↔ AmountsMatch tolerance local remote
unfolding amount_mismatch Decimal.lt
agree-AmountsMatch tolerance none none = (λ h. tt, λ h. refl)
agree-AmountsMatch tolerance none (some remote) = (λ h. ground arith, λ h. absurd h)
agree-AmountsMatch tolerance (some local) none = (λ h. ground arith, λ h. absurd h)
agree-AmountsMatch tolerance (some local) (some remote) = (λ h. ground arith, λ h. ground arith)

-- A report is consistent exactly when under every symbol and side either neither side has a position,
-- or both have one and the absolute value of the difference of the amounts is at most the tolerance.
pub consistent_positions_iff :
    (tolerance : Decimal) (locals remotes : List ExchangePositionSnapshot)
    → ((compare_positions tolerance locals remotes).consistent ≡ true)
      ↔ ((key : String × String) → AmountsMatch tolerance (under key locals) (under key remotes))
consistent_positions_iff tolerance locals remotes =
    let (to, from) = consistent_positions-agree tolerance locals remotes in
    (
      λ h key. (agree-AmountsMatch tolerance (under key locals) (under key remotes)).0 (to h key),
      λ h.
          from (λ key.
            (agree-AmountsMatch tolerance (under key locals) (under key remotes)).1 (h key)),
    )

-- Each list of a report holds exactly the keys that it is for, in ascending order.
pub position_report_members :
    (tolerance : Decimal) (locals remotes : List ExchangePositionSnapshot) (key : String × String)
    → let report = compare_positions tolerance locals remotes in
      let local = under key locals in
      let remote = under key remotes in
      (Dict.member key report.missing_on_exchange
        ≡ (Dict.is_some local && not (Dict.is_some remote)))
      × (Dict.member key report.unknown_on_local
          ≡ (Dict.is_some remote && not (Dict.is_some local)))
      × (Dict.member key report.amount_mismatches
          ≡ differ_at (amount_mismatch tolerance) local remote)
      × IsAscending report.missing_on_exchange
      × IsAscending report.unknown_on_local
      × IsAscending report.amount_mismatches
unfolding compare_positions
position_report_members tolerance locals remotes key =
    let a = Dict.index_by position_key locals in
    let b = Dict.index_by position_key remotes in
    rw
      (
        ← Dict.lookup-index_by position_key key locals,
        ← Dict.lookup-index_by position_key key remotes,
      )
      (
        member-only_in key a b,
        member-only_in key b a,
        member-mismatched (amount_mismatch tolerance) key a b,
        only_in-IsAscending a b,
        only_in-IsAscending b a,
        mismatched-IsAscending (amount_mismatch tolerance) a b,
      )

abbrev pub Settles : SafeModeController → PositionReconciliationReport × SafeModeController → Type 0
Settles safe (report, safe') =
    (allows_new_entries safe' ≡ (allows_new_entries safe && report.consistent))
    × (((report.consistent ≡ true) × (safe' ≡ safe))
        ⊎ ((report.consistent ≡ false)
            × (reason : String) × (safe'.reasons ≡ safe.reasons ++ reason ∷ [])))
    × ((report.consistent ≡ false) ⊎ (report.error ≡ none))

settles :
    (report : PositionReconciliationReport) (reason : String) (now : ℕ) (safe : SafeModeController)
    → ((report.consistent ≡ false) ⊎ (report.error ≡ none))
    → Settles safe (report, if report.consistent then safe else enter now reason safe)
unfolding allows_new_entries enter
settles report reason now safe h = elim (Bool-cases report.consistent) [
  | inl e ↦ rw e (ground arith, inl (refl, refl), rw e at h)
  | inr e ↦ rw e (ground arith, inr (refl, reason, refl), rw e at h)
]

conclude-Settles :
    (tolerance : Decimal) (now : ℕ)
    (fetched : Result (List ExchangePositionSnapshot × List ExchangePositionSnapshot))
    (safe : SafeModeController)
    → Settles safe (conclude tolerance now fetched safe)
unfolding conclude compare_positions
conclude-Settles tolerance now (err exc) safe = settles (fetch_failed _) _ now safe (inl refl)
conclude-Settles tolerance now (ok (locals, remotes)) safe =
    settles (compare_positions tolerance locals remotes) _ now safe (inr refl)

-- After a reconciliation of positions new entries are allowed exactly if they were before and the
-- report is consistent; an inconsistent one adds one reason, a consistent one changes nothing; and a
-- report with an error is never consistent.
pub reconcile_positions_safe_mode :
    {S X : Type 0} (store : PositionStore S) (exchange : PositionExchange X) (tolerance : Decimal)
    (now : ℕ) (s : S) (safe : SafeModeController) (x : X)
    → let (report, (safe', x')) = reconcile_positions store exchange tolerance now s (safe, x) in
      (allows_new_entries safe' ≡ (allows_new_entries safe && report.consistent))
      × (((report.consistent ≡ true) × (safe' ≡ safe))
          ⊎ ((report.consistent ≡ false)
              × (reason : String) × (safe'.reasons ≡ safe.reasons ++ reason ∷ [])))
      × ((report.consistent ≡ false) ⊎ (report.error ≡ none))
unfolding reconcile_positions
reconcile_positions_safe_mode store exchange tolerance now s safe x =
    conclude-Settles tolerance now (fetch_both store exchange s x).0 safe
