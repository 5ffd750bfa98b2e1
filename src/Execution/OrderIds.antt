-- ===== src/Execution/OrderIds.antt =====
-- execution/order_ids.py: the client order id, with the time written as `strftime("%Y%m%d%H%M%S")`
-- writes it. A time is a number of microseconds since 1970 in UTC.
pub mod Calendar
pub mod Distinct
use crypto_dual_sleeve_tradi.Base.{
  ℕ, zero, suc, ◌+◌, ◌-◌, ◌*◌, String, ◌≡◌, refl, ltb, leb, ◌==◌, if◌then◌else◌,
}
use crypto_dual_sleeve_tradi.Base.Text.{◌^+◌}
use crypto_dual_sleeve_tradi.Base.Enum.{value}
use crypto_dual_sleeve_tradi.Base.Key.{string_key, pair_key}
use crypto_dual_sleeve_tradi.Core.Enums.{
  entry, OrderAction, sleeve_b, SleeveId, trading_mode_enum, sleeve_id_enum, order_side_enum,
  position_side_enum, order_type_enum, order_action_enum, order_status_enum, safe_mode_state_enum,
  circuit_action_enum,
}
use Prim.Native.Nat.{◌/◌, ◌%◌}

pub digit_text : ℕ → String
digit_text d =
    if d == 0
    then "0"
    else if d == 1
    then "1"
    else if d == 2
    then "2"
    else if d == 3
    then "3"
    else if d == 4
    then "4"
    else if d == 5
    then "5"
    else if d == 6
    then "6"
    else if d == 7
    then "7"
    else if d == 8
    then "8"
    else "9"

pub two_digits : ℕ → String
unfolding digit_text
two_digits n = digit_text (n / 10 % 10) ^+ digit_text (n % 10)

-- the civil date of a number of days since 1970-01-01: year, month and day
abbrev pub civil_date : ℕ → ℕ × ℕ × ℕ
civil_date days =
    let z = days + 719468 in
    let era = z / 146097 in
    let doe = z % 146097 in
    let yoe = (doe - doe / 1460 + doe / 36524 - doe / 146096) / 365 in
    let doy = doe - (365 * yoe + yoe / 4 - yoe / 100) in
    let mp = (5 * doy + 2) / 153 in
    let month = if ltb mp 10 then mp + 3 else mp - 9 in
    (
      (if leb month 2 then yoe + era * 400 + 1 else yoe + era * 400),
      month,
      doy - (153 * mp + 2) / 5 + 1,
    )

-- the time of a number of seconds since 1970
unfoldable pub clock_text : ℕ → String
unfolding two_digits
clock_text seconds =
    let (year, month, day) = civil_date (seconds / 86400) in
    two_digits (year / 100)
    ^+ two_digits (year % 100)
    ^+ two_digits month
    ^+ two_digits day
    ^+ two_digits (seconds / 3600 % 24)
    ^+ two_digits (seconds / 60 % 60)
    ^+ two_digits (seconds % 60)

-- `now.strftime("%Y%m%d%H%M%S")`
unfoldable pub timestamp_text : ℕ → String
timestamp_text now = clock_text (now / 1_000_000)

-- `text[:n]`
unfoldable pub first_chars : ℕ → String → String
first_chars zero s = ""
first_chars (suc n) String.[] = ""
first_chars (suc n) (String.◌∷◌ c s) = String.◌∷◌ c (first_chars n s)

unfoldable pub make_client_order_id : SleeveId → String → OrderAction → ℕ → String
make_client_order_id sleeve_id setup_id action now =
    value sleeve_id
    ^+ "_"
    ^+ first_chars 8 setup_id
    ^+ "_"
    ^+ value action
    ^+ "_"
    ^+ timestamp_text now

id_text :
    make_client_order_id sleeve_b "auto-btcusdt" entry 1_700_000_000_000_000
    ≡ "B_auto-btc_EN_20231114221320"
unfolding make_client_order_id timestamp_text clock_text first_chars
id_text = refl
