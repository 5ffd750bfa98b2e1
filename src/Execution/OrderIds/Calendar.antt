-- ===== src/Execution/OrderIds/Calendar.antt =====
-- The civil dates of execution/order_ids.py: no two days have the same one.
use crypto_dual_sleeve_tradi.Base.{
  ℕ, ◌+◌, ◌-◌, ◌*◌, ◌/◌, ◌%◌, ◌≤◌, ◌<◌, ◌≡◌, arith, ltb, leb, ltb→lt, Bool-cases, inl, inr, ◌⊎◌,
  if◌then◌else◌, ap,
}
use crypto_dual_sleeve_tradi.Execution.OrderIds.{civil_date}

-- the parts of a day since 0000-03-01: the era of 400 years, the day in it, the year in it from March
-- on, the day in that year, and its month
abbrev era_of : ℕ → ℕ
era_of days = (days + 719468) / 146097

abbrev doe_of : ℕ → ℕ
doe_of days = (days + 719468) % 146097

abbrev yoe_of : ℕ → ℕ
yoe_of doe = (doe - doe / 1460 + doe / 36524 - doe / 146096) / 365

abbrev start_of : ℕ → ℕ
start_of yoe = 365 * yoe + yoe / 4 - yoe / 100

abbrev mp_of : ℕ → ℕ
mp_of doy = (5 * doy + 2) / 153

abbrev month_of : ℕ → ℕ
month_of mp = if ltb mp 10 then mp + 3 else mp - 9

yoe-lt : (doe : ℕ) → doe < 146097 → yoe_of doe < 400
yoe-lt doe h = omega arith

start-le : (doe : ℕ) → doe < 146097 → start_of (yoe_of doe) ≤ doe
start-le doe h = omega arith

doy-lt : (doe : ℕ) → doe < 146097 → doe - start_of (yoe_of doe) < 367
doy-lt doe h = omega arith

same_month : (mp mp' : ℕ) → mp < 12 → mp' < 12 → month_of mp ≡ month_of mp' → mp ≡ mp'
same_month mp mp' h h' same = ground arith

-- The month and the day of two days of a year from March on tell them apart.
same_doy :
    (doy doy' : ℕ)
    → doy < 367
    → doy' < 367
    → month_of (mp_of doy) ≡ month_of (mp_of doy')
    → doy - (153 * mp_of doy + 2) / 5 + 1 ≡ doy' - (153 * mp_of doy' + 2) / 5 + 1
    → doy ≡ doy'
same_doy doy doy' h h' months days =
    let mps = same_month (mp_of doy) (mp_of doy') (omega arith) (omega arith) months in omega arith

same_year :
    (month month' year year' : ℕ)
    → month ≡ month'
    → (if leb month 2 then year + 1 else year) ≡ (if leb month' 2 then year' + 1 else year')
    → year ≡ year'
same_year month month' year year' same h = ground arith

-- The year from March on and the day in it tell two days apart.
same_days :
    (days days' : ℕ)
    → yoe_of (doe_of days) + era_of days * 400 ≡ yoe_of (doe_of days') + era_of days' * 400
    → doe_of days - start_of (yoe_of (doe_of days))
      ≡ doe_of days' - start_of (yoe_of (doe_of days'))
    → days ≡ days'
same_days days days' years doys =
    let h : doe_of days < 146097 = omega arith in
    let h' : doe_of days' < 146097 = omega arith in
    let yoes : yoe_of (doe_of days) ≡ yoe_of (doe_of days') =
      omega (arith, yoe-lt (doe_of days) h, yoe-lt (doe_of days') h') in
    let does : doe_of days ≡ doe_of days' =
      omega (arith, start-le (doe_of days) h, start-le (doe_of days') h') in
    omega arith

-- Two days with one date are the same day.
pub civil_date-inj : (days days' : ℕ) → civil_date days ≡ civil_date days' → days ≡ days'
civil_date-inj days days' h =
    let doe = doe_of days in
    let doe' = doe_of days' in
    let doy = doe - start_of (yoe_of doe) in
    let doy' = doe' - start_of (yoe_of doe') in
    let months : month_of (mp_of doy) ≡ month_of (mp_of doy') = ap (λ d. d.1) h in
    let doys : doy ≡ doy' =
      same_doy doy doy' (doy-lt doe (omega arith)) (doy-lt doe' (omega arith)) months
        (ap (λ d. d.2) h) in
    let years : yoe_of doe + era_of days * 400 ≡ yoe_of doe' + era_of days' * 400 =
      same_year (month_of (mp_of doy)) (month_of (mp_of doy')) (yoe_of doe + era_of days * 400)
        (yoe_of doe' + era_of days' * 400) months (ap (λ d. d.0) h) in
    same_days days days' years doys

-- The last days of the era that 9999-12-31 stands in are not reached: its last year ends in December.
last_year :
    (days : ℕ)
    → days < 2932897
    → 9998 < yoe_of (doe_of days) + era_of days * 400
    → (yoe_of (doe_of days) + era_of days * 400 ≡ 9999)
      × (doe_of days - start_of (yoe_of (doe_of days)) < 306)
last_year days h late =
    let yoe-small = yoe-lt (doe_of days) (omega arith) in (omega arith, omega arith)

lt_or_le : (a b : ℕ) → (a < b) ⊎ (b ≤ a)
lt_or_le a b = elim (Bool-cases (ltb a b)) [
  | inl e ↦ inl (ltb→lt a b e)
  | inr e ↦ inr (ground arith)
]

year_next : (month year : ℕ) → year < 9999 → (if leb month 2 then year + 1 else year) < 10000
year_next month year h = ground arith

december :
    (mp year : ℕ)
    → mp < 10
    → year < 10000
    → (if leb (month_of mp) 2 then year + 1 else year) < 10000
december mp year h k = ground arith

month_small : (mp : ℕ) → mp < 12 → month_of mp < 100
month_small mp h = ground arith

-- the parts of a date up to 9999-12-31 have at most four, two and two digits
pub civil_date-bounds :
    (days : ℕ)
    → days < 2932897
    → ((civil_date days).0 < 10000) × ((civil_date days).1 < 100) × ((civil_date days).2 < 100)
civil_date-bounds days h =
    let doe = doe_of days in
    let doy = doe - start_of (yoe_of doe) in
    let small = doy-lt doe (omega arith) in
    let year = yoe_of doe + era_of days * 400 in
    let in_time : (if leb (month_of (mp_of doy)) 2 then year + 1 else year) < 10000 =
      elim (lt_or_le year 9999) [
        | inl e ↦ year_next (month_of (mp_of doy)) year e
        | inr e ↦
            let (is, early) = last_year days h (omega arith) in
            december (mp_of doy) year (omega arith) (omega arith)
      ] in
    (in_time, month_small (mp_of doy) (omega arith), omega arith)
