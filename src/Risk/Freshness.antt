-- ===== src/Risk/Freshness.antt =====
-- risk/data_freshness.py: whether all required data is recent.
use crypto_dual_sleeve_tradi.Base.{
  ℕ, ◌≤◌, String, ◌≡◌, refl, ◌↔◌, inl, inr, Bool, true, not, List, [], ◌∷◌, map, arith, Bool-cases,
  Option-cases, keep, All,
}
use crypto_dual_sleeve_tradi.Base.Key.{string_key, pair_key}
use crypto_dual_sleeve_tradi.Core.Models.{is_fresh, DataPointFreshness}
use crypto_dual_sleeve_tradi.Execution.Diff.{is_empty}
use crypto_dual_sleeve_tradi.Core.Enums.{
  trading_mode_enum, sleeve_id_enum, order_side_enum, position_side_enum, order_type_enum,
  order_action_enum, order_status_enum, safe_mode_state_enum, circuit_action_enum,
}

pub record FreshnessReport : Type 0 where
  pub is_fresh : Bool
  pub stale_points : List String

abbrev pub names : List DataPointFreshness → List String
names points = map (λ p. p.name) points

-- `DataFreshnessGate(required_points).evaluate(now)`
unfoldable pub evaluate : List DataPointFreshness → ℕ → FreshnessReport
evaluate required_points now =
    let stale = names (keep (λ p. not (is_fresh p now)) required_points) in
    record { is_fresh = is_empty stale; stale_points = stale }

fresh_iff :
    (points : List DataPointFreshness) (now : ℕ)
    → ((evaluate points now).is_fresh ≡ true) ↔ All (λ p. is_fresh p now ≡ true) points
unfolding evaluate
fresh_iff [] now = (λ _. tt, λ _. refl)
fresh_iff (p ∷ ps) now = elim (Bool-cases (is_fresh p now)) [
  | inl e ↦ let (to, from) = fresh_iff ps now in rw e (λ h. (refl, to h), λ (_, h). from h)
  | inr e ↦ rw e (λ h. cc, λ (h, _). cc)
]

point_earlier :
    (p : DataPointFreshness) (now later : ℕ)
    → now ≤ later
    → is_fresh p later ≡ true
    → is_fresh p now ≡ true
unfolding is_fresh
point_earlier p now later h fresh = elim (Option-cases p.updated_at) [
  | inl e ↦ ground arith
  | inr (t, e) ↦ ground arith
]

All-is_fresh_earlier :
    (points : List DataPointFreshness) (now later : ℕ)
    → now ≤ later
    → All (λ p. is_fresh p later ≡ true) points
    → All (λ p. is_fresh p now ≡ true) points
All-is_fresh_earlier [] now later h fresh = tt
All-is_fresh_earlier (p ∷ ps) now later h (fresh, rest) =
    (point_earlier p now later h fresh, All-is_fresh_earlier ps now later h rest)

-- A gate that reports fresh data reports it at every earlier time too: without an update, data only
-- goes stale.
pub evaluate_earlier :
    (points : List DataPointFreshness) (now later : ℕ)
    → now ≤ later
    → (evaluate points later).is_fresh ≡ true
    → (evaluate points now).is_fresh ≡ true
evaluate_earlier points now later h fresh =
    let (to, _) = fresh_iff points later in
    let (_, from) = fresh_iff points now in
    from (All-is_fresh_earlier points now later h (to fresh))
