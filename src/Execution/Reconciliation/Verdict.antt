-- ===== src/Execution/Reconciliation/Verdict.antt =====
-- What a report of execution/reconciliation.py says, and what it does to the safe mode.
use crypto_dual_sleeve_tradi.Base.{
  some, ◌⊎◌, ℕ, String, ◌≡◌, refl, ◌↔◌, inl, inr, true, false, not, ◌&&◌, Option, none, List, [],
  ◌∷◌, ◌++◌, arith, if◌then◌else◌, Bool-cases,
}
use crypto_dual_sleeve_tradi.Base.Result.{Result, ok, err}
use crypto_dual_sleeve_tradi.Base.Key.{string_key, pair_key}
use crypto_dual_sleeve_tradi.Base.Dict
use crypto_dual_sleeve_tradi.Base.Dict.{Dict}
use crypto_dual_sleeve_tradi.Core.Enums.{
  partially_filled, submitted, order_status_same, unknown, created, OrderStatus, trading_mode_enum,
  sleeve_id_enum, order_side_enum, position_side_enum, order_type_enum, order_action_enum,
  order_status_enum, safe_mode_state_enum, circuit_action_enum,
}
use crypto_dual_sleeve_tradi.Base.Sorted.{IsAscending}
use crypto_dual_sleeve_tradi.Execution.SafeMode.{SafeModeController, enter, allows_new_entries}
use crypto_dual_sleeve_tradi.Execution.Diff.{
  agree, differ_at, none_differ_iff, member-only_in, member-mismatched, only_in-IsAscending,
  mismatched-IsAscending,
}
use crypto_dual_sleeve_tradi.Core.Models.{OrderRecord}
use crypto_dual_sleeve_tradi.Exchange.Interfaces.{ExchangeAdapter}
use crypto_dual_sleeve_tradi.Execution.Reconciliation.{
  is_meaningful_status_mismatch, fetch_failed, compare_orders, status_mismatch, order_id,
  reconcile_open_orders, conclude, fetch_both, LocalOrderStore, ReconciliationReport,
}

-- the order that a list holds under an id; of several, the last
abbrev pub under : String → List OrderRecord → Option OrderRecord
under id orders = Dict.last_of order_id id orders

-- the same, by the test of the code
pub consistent-agree :
    (local_orders exchange_orders : List OrderRecord)
    → ((compare_orders local_orders exchange_orders).consistent ≡ true) ↔ (
        (id : String)
        → agree status_mismatch (under id local_orders) (under id exchange_orders) ≡ true)
unfolding compare_orders
consistent-agree locals remotes =
    let (to, from) =
      none_differ_iff status_mismatch (Dict.index_by order_id locals)
        (Dict.index_by order_id remotes) in
    (
      λ h id.
          rw (← Dict.lookup-index_by order_id id locals, ← Dict.lookup-index_by order_id id remotes)
            (to h id),
      λ h. from (λ id.
          rw (Dict.lookup-index_by order_id id locals, Dict.lookup-index_by order_id id remotes)
            (h id)),
    )

-- statuses of an order that is still to be settled
abbrev pub IsOpen : OrderStatus → Type 0
IsOpen s = (s ≡ created) ⊎ (s ≡ submitted) ⊎ (s ≡ partially_filled)

-- two statuses that one order may have on the two sides
abbrev pub IsCompatible : OrderStatus → OrderStatus → Type 0
IsCompatible local remote =
    (local ≡ unknown) ⊎ (remote ≡ unknown) ⊎ (local ≡ remote) ⊎ (IsOpen local × IsOpen remote)

mismatch-cases :
    (local remote : OrderStatus)
    → is_meaningful_status_mismatch local remote ≡ false
    → IsCompatible local remote
unfolding is_meaningful_status_mismatch
mismatch-cases local remote h = ground (arith, order_status_same local remote)

compatible-mismatch :
    (local remote : OrderStatus)
    → IsCompatible local remote
    → is_meaningful_status_mismatch local remote ≡ false
unfolding is_meaningful_status_mismatch
compatible-mismatch local remote h = ground (arith, order_status_same local remote)

-- Both sides have no order, or both have one, of statuses that are compatible.
abbrev pub OrdersMatch : Option OrderRecord → Option OrderRecord → Type 0
OrdersMatch none none = Unit
OrdersMatch (some local) (some remote) = IsCompatible local.status remote.status
OrdersMatch _ _ = ⊥

agree-OrdersMatch :
    (local remote : Option OrderRecord)
    → (agree status_mismatch local remote ≡ true) ↔ OrdersMatch local remote
agree-OrdersMatch none none = (λ h. tt, λ h. refl)
agree-OrdersMatch none (some remote) = (λ h. ground arith, λ h. absurd h)
agree-OrdersMatch (some local) none = (λ h. ground arith, λ h. absurd h)
agree-OrdersMatch (some local) (some remote) = (
  λ h. mismatch-cases local.status remote.status (ground arith),
  λ h. ground (arith, compatible-mismatch local.status remote.status h),
)

-- A report is consistent exactly when under every id either both sides have no order, or both have
-- one and one of these holds: a side is UNKNOWN, the statuses are the same, or each of them is CREATED,
-- SUBMITTED or PARTIALLY_FILLED.
pub consistent_iff :
    (local_orders exchange_orders : List OrderRecord)
    → ((compare_orders local_orders exchange_orders).consistent ≡ true)
      ↔ ((id : String) → OrdersMatch (under id local_orders) (under id exchange_orders))
consistent_iff locals remotes =
    let (to, from) = consistent-agree locals remotes in
    (
      λ h id. (agree-OrdersMatch (under id locals) (under id remotes)).0 (to h id),
      λ h. from (λ id. (agree-OrdersMatch (under id locals) (under id remotes)).1 (h id)),
    )

-- Each list of a report holds exactly the ids that it is for, in ascending order.
pub report_members :
    (local_orders exchange_orders : List OrderRecord) (id : String)
    → let report = compare_orders local_orders exchange_orders in
      let local = under id local_orders in
      let remote = under id exchange_orders in
      (Dict.member id report.missing_on_exchange
        ≡ (Dict.is_some local && not (Dict.is_some remote)))
      × (Dict.member id report.unknown_on_local ≡ (Dict.is_some remote && not (Dict.is_some local)))
      × (Dict.member id report.status_mismatches ≡ differ_at status_mismatch local remote)
      × IsAscending report.missing_on_exchange
      × IsAscending report.unknown_on_local
      × IsAscending report.status_mismatches
unfolding compare_orders
report_members locals remotes id =
    let a = Dict.index_by order_id locals in
    let b = Dict.index_by order_id remotes in
    rw (← Dict.lookup-index_by order_id id locals, ← Dict.lookup-index_by order_id id remotes)
      (
        member-only_in id a b,
        member-only_in id b a,
        member-mismatched status_mismatch id a b,
        only_in-IsAscending a b,
        only_in-IsAscending b a,
        mismatched-IsAscending status_mismatch a b,
      )

-- What the end of a reconciliation does to the safe mode.
abbrev pub Settles : SafeModeController → ReconciliationReport × SafeModeController → Type 0
Settles safe (report, safe') =
    (allows_new_entries safe' ≡ (allows_new_entries safe && report.consistent))
    × (((report.consistent ≡ true) × (safe' ≡ safe))
        ⊎ ((report.consistent ≡ false)
            × (reason : String) × (safe'.reasons ≡ safe.reasons ++ reason ∷ [])))
    × ((report.consistent ≡ false) ⊎ (report.error ≡ none))

settles :
    (report : ReconciliationReport) (reason : String) (now : ℕ) (safe : SafeModeController)
    → ((report.consistent ≡ false) ⊎ (report.error ≡ none))
    → Settles safe (report, if report.consistent then safe else enter now reason safe)
unfolding allows_new_entries enter
settles report reason now safe h = elim (Bool-cases report.consistent) [
  | inl e ↦ rw e (ground arith, inl (refl, refl), rw e at h)
  | inr e ↦ rw e (ground arith, inr (refl, reason, refl), rw e at h)
]

conclude-Settles :
    (now : ℕ) (fetched : Result (List OrderRecord × List OrderRecord)) (safe : SafeModeController)
    → Settles safe (conclude now fetched safe)
unfolding conclude compare_orders
conclude-Settles now (err exc) safe = settles (fetch_failed _) _ now safe (inl refl)
conclude-Settles now (ok (locals, remotes)) safe =
    settles (compare_orders locals remotes) _ now safe (inr refl)

-- After a reconciliation new entries are allowed exactly if they were before and the report is
-- consistent; an inconsistent one adds one reason, a consistent one changes nothing; and a report
-- with an error is never consistent.
pub reconcile_safe_mode :
    {S X : Type 0} (store : LocalOrderStore S) (adapter : ExchangeAdapter X) (now : ℕ) (s : S)
    (safe : SafeModeController) (x : X)
    → let (report, (safe', x')) = reconcile_open_orders store adapter now s (safe, x) in
      (allows_new_entries safe' ≡ (allows_new_entries safe && report.consistent))
      × (((report.consistent ≡ true) × (safe' ≡ safe))
          ⊎ ((report.consistent ≡ false)
              × (reason : String) × (safe'.reasons ≡ safe.reasons ++ reason ∷ [])))
      × ((report.consistent ≡ false) ⊎ (report.error ≡ none))
unfolding reconcile_open_orders
reconcile_safe_mode store adapter now s safe x =
    conclude-Settles now (fetch_both store adapter now s x).0 safe
