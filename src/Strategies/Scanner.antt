-- ===== src/Strategies/Scanner.antt =====
-- strategies/sleeve_a_scanner.py: the filters of sleeve A. A number of days or bars is a natural number.
use crypto_dual_sleeve_tradi.Base.{
  ◌==◌, ◌==◌, get_elem?, drop, ℕ, ◌-◌, ◌≤◌, String, ◌≡◌, ◌≢◌, ◌↔◌, ◌⊎◌, Bool, true, false, not,
  ◌&&◌, ◌||◌, Option, none, some, List, arith, ltb, if◌then◌else◌, length,
}
use crypto_dual_sleeve_tradi.Base.Result.{index_error, Result, ok, err}
use crypto_dual_sleeve_tradi.Base.Key.{string_key, pair_key}
use crypto_dual_sleeve_tradi.Decimal
use crypto_dual_sleeve_tradi.Decimal.{Decimal, nought}
use crypto_dual_sleeve_tradi.Core.Enums.{
  trading_mode_enum, sleeve_id_enum, order_side_enum, position_side_enum, order_type_enum,
  order_action_enum, order_status_enum, safe_mode_state_enum, circuit_action_enum,
}
use crypto_dual_sleeve_tradi.Strategies.Signals.{last_item, max_item}
use crypto_dual_sleeve_tradi.Risk.Capacity.{capacity_check, CapacitySnapshot}
use crypto_dual_sleeve_tradi.Base.Result.{◌>>=◌}

pub record SleeveAScanResult : Type 0 where
  pub symbol : String
  pub passed : Bool
  pub reason : String

abbrev fails : String → Option SleeveAScanResult
fails reason = some (record { symbol = ""; passed = false; reason = reason })

-- `xs[-n:]`, where `-0` is no bound
abbrev pub last_items : ℕ → List Decimal → List Decimal
last_items n xs = if n == 0 then xs else drop (length xs - n) xs

unfoldable pub oi_from_peak_usd : List Decimal → ℕ → Result (Option Decimal)
oi_from_peak_usd oi_usd_4h lookback_bars =
    if ltb (length oi_usd_4h) (if ltb lookback_bars 72 then lookback_bars else 72)
    then ok none
    else (do
      peak ← max_item (last_items lookback_bars oi_usd_4h)
      if Decimal.le peak nought then ok none else (do
        last ← last_item oi_usd_4h
        share ← Decimal.div last peak
        ok (some (Decimal.sub share Decimal.one))))

-- `xs[-n]` for a positive n
unfoldable pub item_back : ℕ → List Decimal → Result Decimal
item_back n xs =
    if ltb (length xs) n
    then err (index_error "list index out of range")
    else elim (get_elem? xs (length xs - n)) [
      | none ↦ err (index_error "list index out of range")
      | some x ↦ ok x
    ]

-- the two tests of a fall, with what they compare
unfoldable pub price_falling : List Decimal → List Decimal → Result Bool
unfolding item_back
price_falling close_4h low_4h =
    if ltb (length close_4h) 7 || ltb (length low_4h) 3 then ok false else (do
      c1 ← item_back 1 close_4h
      c2 ← item_back 2 close_4h
      ratio_4h ← Decimal.div c1 c2
      c7 ← item_back 7 close_4h
      ratio_24h ← Decimal.div c1 c7
      l1 ← item_back 1 low_4h
      l2 ← item_back 2 low_4h
      l3 ← item_back 3 low_4h
      c3 ← item_back 3 close_4h
      let ret_4h = Decimal.sub ratio_4h Decimal.one
      let ret_24h = Decimal.sub ratio_24h Decimal.one
      let lower_lows = Decimal.lt l1 l2 && Decimal.lt l2 l3
      let lower_closes = Decimal.lt c1 c2 && Decimal.lt c2 c3
      ok (
          Decimal.le ret_24h (Decimal.minus 8 2)
          || (Decimal.le ret_4h (Decimal.minus 3 2) && lower_lows && lower_closes)))

unfoldable pub apply_listing_age_gate : ℕ → Bool → Bool → Option SleeveAScanResult
apply_listing_age_gate listing_age_days has_minimum_4h_bars borrow_confidence_low =
    if ltb listing_age_days 7
    then fails "NEW_LISTING_LT_7D_NO_TRADE"
    else if ltb listing_age_days 30 && not has_minimum_4h_bars
    then fails "NEW_LISTING_INSUFFICIENT_4H_BARS"
    else if ltb listing_age_days 30 && borrow_confidence_low
    then fails "NEW_LISTING_LOW_BORROW_CONFIDENCE"
    else none

-- A listing passes the gate exactly at an age of 30 days, or at 7 days with enough bars and a
-- confidence that is not low; and a listing that passes, passes at every later age too.
pub listing_age_gate :
    (age later : ℕ) (bars low : Bool)
    → age ≤ later
    → ((apply_listing_age_gate age bars low ≡ none)
        ↔ ((30 ≤ age) ⊎ ((7 ≤ age) × (bars ≡ true) × (low ≡ false))))
      × ((apply_listing_age_gate age bars low ≢ none)
          ⊎ (apply_listing_age_gate later bars low ≡ none))
unfolding apply_listing_age_gate
listing_age_gate age later bars low h = ground arith

unfoldable pub scan_capacity : String → Decimal → CapacitySnapshot → SleeveAScanResult
scan_capacity symbol notional snapshot =
    if not (
      capacity_check notional snapshot (Decimal.literal 5 3) (Decimal.literal 2 3)
        (Decimal.literal 5 1))
    then record { symbol = symbol; passed = false; reason = "CAPACITY_CHECK_FAILED" }
    else record { symbol = symbol; passed = true; reason = "CAPACITY_OK" }
