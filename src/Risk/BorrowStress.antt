-- ===== src/Risk/BorrowStress.antt =====
-- risk/borrow_stress.py: how hard a coin is to borrow, and the risk of a squeeze.
use crypto_dual_sleeve_tradi.Base.{
  ℕ, ◌+◌, ◌≤◌, String, ◌≡◌, refl, ◌≢◌, ◌↔◌, ◌⊎◌, inl, inr, Bool, true, false, not, ◌&&◌, ◌||◌,
  Option, none, some, arith, leb, if◌then◌else◌, Bool-cases,
}
use crypto_dual_sleeve_tradi.Base.Text.{str_eq}
use crypto_dual_sleeve_tradi.Base.Result.{Result, ok, err}
use crypto_dual_sleeve_tradi.Base.Key.{string_key, pair_key}
use crypto_dual_sleeve_tradi.Decimal
use crypto_dual_sleeve_tradi.Decimal.{Decimal, nought}
use crypto_dual_sleeve_tradi.Decimal.Sign.{div_defined}
use crypto_dual_sleeve_tradi.Core.Enums.{
  trading_mode_enum, sleeve_id_enum, order_side_enum, position_side_enum, order_type_enum,
  order_action_enum, order_status_enum, safe_mode_state_enum, circuit_action_enum,
}

pub data BorrowConfidence : Type 0 where
  high medium low : BorrowConfidence

pub data SqueezeRisk : Type 0 where
  low_risk medium_risk high_risk extreme_risk : SqueezeRisk

pub record BorrowStatus : Type 0 where
  pub is_borrow_supported : Option Bool
  pub max_borrowable_base : Option Decimal
  pub max_borrowable_usd : Option Decimal
  pub borrow_rate_annualized : Option Decimal
  pub data_scope : String
  pub confidence : BorrowConfidence
  pub zero_reason : Option String

pub record BorrowStressResult : Type 0 where
  pub score : ℕ
  pub confidence : BorrowConfidence

abbrev support_score : Option Bool → ℕ
support_score (some false) = 3
support_score _ = 0

-- `mb / planned_notional if planned_notional > 0 else Decimal("0")`
abbrev pub borrow_ratio : Decimal → Decimal → Result Decimal
borrow_ratio mb planned_notional =
    if Decimal.lt nought planned_notional then Decimal.div mb planned_notional else ok nought

abbrev ratio_score : Decimal → ℕ
ratio_score ratio =
    if Decimal.lt ratio (Decimal.literal 1 0)
    then 3
    else if Decimal.lt ratio (Decimal.literal 2 0)
    then 2
    else if Decimal.lt ratio (Decimal.literal 5 0)
    then 1
    else 0

-- `if mb is not None`
abbrev pub borrowable_score : Option Decimal → Decimal → Result ℕ
borrowable_score none planned_notional = ok 0
borrowable_score (some mb) planned_notional = elim (borrow_ratio mb planned_notional) [
  | err e ↦ err e
  | ok ratio ↦ ok (ratio_score ratio + (if Decimal.lt mb (Decimal.literal 50000 0) then 1 else 0))
]

abbrev pub is_zero : Option Decimal → Bool
is_zero none = false
is_zero (some amount) = Decimal.eq amount nought

abbrev pub is_structural : Option String → Bool
is_structural none = false
is_structural (some why) = str_eq why "pool_likely_empty" || str_eq why "unsupported_asset"

abbrev rate_score : Option Decimal → ℕ
rate_score none = 0
rate_score (some rate) =
    if Decimal.lt (Decimal.literal 100 0) rate
    then 2
    else if Decimal.lt (Decimal.literal 50 0) rate
    then 1
    else 0

unfoldable pub borrow_stress_score : BorrowStatus → Decimal → Result BorrowStressResult
borrow_stress_score status planned_notional =
    elim (borrowable_score status.max_borrowable_usd planned_notional) [
      | err e ↦ err e
      | ok borrowable ↦
          let zero_score =
            if is_zero status.max_borrowable_base
            then (if is_structural status.zero_reason then 3 else 1)
            else 0 in
          ok (record {
            score =
                support_score status.is_borrow_supported
                + borrowable
                + zero_score
                + rate_score status.borrow_rate_annualized;
            confidence =
                if is_zero status.max_borrowable_base && not (is_structural status.zero_reason)
                then low
                else status.confidence;
          })
    ]

abbrev pub is_low : BorrowConfidence → Bool
is_low low = true
is_low _ = false

abbrev pub base_level : Decimal → ℕ → Decimal → Decimal → ℕ → ℕ → SqueezeRisk
base_level funding_8h score funding_deep funding_mild stress_veto stress_half_lo =
    if Decimal.lt funding_8h funding_deep && leb stress_veto score
    then extreme_risk
    else if Decimal.lt funding_8h funding_deep && leb stress_half_lo score
    then high_risk
    else if Decimal.le funding_deep funding_8h && Decimal.lt funding_8h funding_mild
    then medium_risk
    else low_risk

-- the two adjustments for a LOW confidence, in their order
abbrev pub raise_low : SqueezeRisk → SqueezeRisk
raise_low low_risk = medium_risk
raise_low level = level

abbrev pub raise_medium : SqueezeRisk → SqueezeRisk
raise_medium medium_risk = high_risk
raise_medium level = level

unfoldable pub squeeze_risk_level :
    Decimal → BorrowStressResult → Decimal → Decimal → ℕ → ℕ → SqueezeRisk
squeeze_risk_level funding_8h stress funding_deep funding_mild stress_veto stress_half_lo =
    let base =
      base_level funding_8h stress.score funding_deep funding_mild stress_veto stress_half_lo in
    let level = if is_low stress.confidence then raise_low base else base in
    if is_low stress.confidence && Decimal.lt funding_8h funding_deep
    then raise_medium level
    else level

borrow_ratio_defined : (mb planned : Decimal) → (q : Decimal) × (borrow_ratio mb planned ≡ ok q)
borrow_ratio_defined mb planned = elim (Bool-cases (Decimal.lt nought planned)) [
  | inl e ↦ rw e (div_defined mb planned e)
  | inr e ↦ rw e (nought, refl)
]

borrowable_bound :
    (mb : Option Decimal) (planned : Decimal)
    → (b : ℕ) × (borrowable_score mb planned ≡ ok b) × (b ≤ 4)
borrowable_bound none planned = (0, refl, omega arith)
borrowable_bound (some mb) planned =
    let (q, defined) = borrow_ratio_defined mb planned in
    (
      ratio_score q + (if Decimal.lt mb (Decimal.literal 50000 0) then 1 else 0),
      ground arith,
      ground arith,
    )

-- The score never raises, is at most 12, and its confidence is that of the status or LOW.
pub borrow_stress_score_bound :
    (status : BorrowStatus) (planned_notional : Decimal)
    → (r : BorrowStressResult) × (borrow_stress_score status planned_notional ≡ ok r)
      × (r.score ≤ 12)
      × ((r.confidence ≡ status.confidence) ⊎ (r.confidence ≡ low))
unfolding borrow_stress_score
borrow_stress_score_bound status planned_notional =
    let (b, defined, bound) = borrowable_bound status.max_borrowable_usd planned_notional in
    let zero = is_zero status.max_borrowable_base in
    let structural = is_structural status.zero_reason in
    (
      record {
        score =
            support_score status.is_borrow_supported
            + b
            + (if zero then (if structural then 3 else 1) else 0)
            + rate_score status.borrow_rate_annualized;
        confidence = if zero && not structural then low else status.confidence;
      },
      ground arith,
      ground arith,
      ground arith,
    )

-- The level is EXTREME exactly on deep funding and a score from the veto on, whatever the confidence;
-- and a LOW confidence never leaves it at LOW.
pub squeeze_levels :
    (funding_8h : Decimal) (stress : BorrowStressResult) (deep mild : Decimal) (veto half_lo : ℕ)
    → let level = squeeze_risk_level funding_8h stress deep mild veto half_lo in
      ((level ≡ extreme_risk) ↔ ((Decimal.lt funding_8h deep && leb veto stress.score) ≡ true))
      × ((is_low stress.confidence ≡ false) ⊎ (level ≢ low_risk))
unfolding squeeze_risk_level
squeeze_levels funding_8h stress deep mild veto half_lo = ground arith
