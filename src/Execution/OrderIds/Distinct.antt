-- ===== src/Execution/OrderIds/Distinct.antt =====
-- What a client order id of execution/order_ids.py tells apart.
use text.Mathlib.TextLemmas.{append_inj, append_cancel_left, length-append}
use Prim.Native.String.{count}
use Prim.Native.Char.{code}
use crypto_dual_sleeve_tradi.Base.{
  ℕ, zero, suc, ◌+◌, ◌/◌, ◌%◌, ◌<◌, String, ◌≡◌, ◌↔◌, refl, arith, ap, ◌∙◌, sym,
}
use crypto_dual_sleeve_tradi.Base.Text.{◌^+◌}
use crypto_dual_sleeve_tradi.Base.Enum.{value}
use crypto_dual_sleeve_tradi.Core.Enums.{OrderAction, SleeveId, sleeve_id_enum, order_action_enum}
use crypto_dual_sleeve_tradi.Execution.OrderIds.{
  digit_text, two_digits, clock_text, timestamp_text, first_chars, make_client_order_id, civil_date,
}
use crypto_dual_sleeve_tradi.Execution.OrderIds.Calendar.{civil_date-inj, civil_date-bounds}

first_code : String → ℕ
first_code String.[] = 0
first_code (String.◌∷◌ c s) = code c

digit_lem : (d : ℕ) → d < 10 → (first_code (digit_text d) ≡ 48 + d) × (count (digit_text d) ≡ 1)
unfolding first_code digit_text
digit_lem zero h = (refl, refl)
digit_lem (suc zero) h = (refl, refl)
digit_lem (suc (suc zero)) h = (refl, refl)
digit_lem (suc (suc (suc zero))) h = (refl, refl)
digit_lem (suc (suc (suc (suc zero)))) h = (refl, refl)
digit_lem (suc (suc (suc (suc (suc zero))))) h = (refl, refl)
digit_lem (suc (suc (suc (suc (suc (suc zero)))))) h = (refl, refl)
digit_lem (suc (suc (suc (suc (suc (suc (suc zero))))))) h = (refl, refl)
digit_lem (suc (suc (suc (suc (suc (suc (suc (suc zero)))))))) h = (refl, refl)
digit_lem (suc (suc (suc (suc (suc (suc (suc (suc (suc zero))))))))) h = (refl, refl)
digit_lem (suc (suc (suc (suc (suc (suc (suc (suc (suc (suc d)))))))))) h = absurd (omega arith)

count-digit : (n : ℕ) → count (digit_text (n % 10)) ≡ 1
count-digit n = (digit_lem (n % 10) (omega arith)).1

digit-inj : (d e : ℕ) → d < 10 → e < 10 → digit_text d ≡ digit_text e → d ≡ e
digit-inj d e h k same =
    let codes : 48 + d ≡ 48 + e = sym (digit_lem d h).0 ∙ ap first_code same ∙ (digit_lem e k).0 in
    omega arith

count-two : (n : ℕ) → count (two_digits n) ≡ 2
unfolding two_digits
count-two n = omega (
  arith,
  length-append (digit_text (n / 10 % 10)) (digit_text (n % 10)),
  count-digit (n / 10),
  count-digit n,
)

two-inj : (n m : ℕ) → two_digits n ≡ two_digits m → n % 100 ≡ m % 100
unfolding two_digits
two-inj n m same =
    let (tens, ones) = append_inj same (count-digit (n / 10) ∙ sym (count-digit (m / 10))) in
    let t = digit-inj (n / 10 % 10) (m / 10 % 10) (omega arith) (omega arith) tens in
    let o = digit-inj (n % 10) (m % 10) (omega arith) (omega arith) ones in omega arith

-- the first number of a text of numbers of two digits, and the rest
peel :
    (n m : ℕ) (s t : String) → two_digits n ^+ s ≡ two_digits m ^+ t → (n % 100 ≡ m % 100) × (s ≡ t)
peel n m s t same =
    let (numbers, rest) = append_inj same (count-two n ∙ sym (count-two m)) in
    (two-inj n m numbers, rest)

count-seven :
    (a b c d e f g : ℕ)
    → count (
        two_digits a
        ^+ two_digits b
        ^+ two_digits c
        ^+ two_digits d
        ^+ two_digits e
        ^+ two_digits f
        ^+ two_digits g)
      ≡ 14
count-seven a b c d e f g =
    let s5 = two_digits f ^+ two_digits g in
    let s4 = two_digits e ^+ s5 in
    let s3 = two_digits d ^+ s4 in
    let s2 = two_digits c ^+ s3 in
    let s1 = two_digits b ^+ s2 in
    omega (
      arith,
      length-append (two_digits a) s1,
      length-append (two_digits b) s2,
      length-append (two_digits c) s3,
      length-append (two_digits d) s4,
      length-append (two_digits e) s5,
      length-append (two_digits f) (two_digits g),
      count-two a,
      count-two b,
      count-two c,
      count-two d,
      count-two e,
      count-two f,
      count-two g,
    )

count-clock : (seconds : ℕ) → count (clock_text seconds) ≡ 14
unfolding clock_text
count-clock seconds =
    let (year, month, day) = civil_date (seconds / 86400) in
    count-seven (year / 100) (year % 100) month day (seconds / 3600 % 24) (seconds / 60 % 60)
      (seconds % 60)

same_date :
    (year year' month month' day day' : ℕ)
    → year ≡ year'
    → month ≡ month'
    → day ≡ day'
    → ◌≡◌ {A = ℕ × ℕ × ℕ} (year, month, day) (year', month', day')
same_date year year' month month' day day' y m d = cc

-- The time of a number of seconds is written like no other up to the year 9999.
clock-inj :
    (seconds seconds' : ℕ)
    → seconds < 253402300800
    → seconds' < 253402300800
    → clock_text seconds ≡ clock_text seconds'
    → seconds ≡ seconds'
unfolding clock_text
clock-inj seconds seconds' h h' same =
    let (year, month, day) = civil_date (seconds / 86400) in
    let (year', month', day') = civil_date (seconds' / 86400) in
    let (centuries, s1) = peel (year / 100) (year' / 100) _ _ same in
    let (years, s2) = peel (year % 100) (year' % 100) _ _ s1 in
    let (months, s3) = peel month month' _ _ s2 in
    let (days, s4) = peel day day' _ _ s3 in
    let (hours, s5) = peel (seconds / 3600 % 24) (seconds' / 3600 % 24) _ _ s4 in
    let (minutes, s6) = peel (seconds / 60 % 60) (seconds' / 60 % 60) _ _ s5 in
    let last = two-inj (seconds % 60) (seconds' % 60) s6 in
    let (y, m, d) = civil_date-bounds (seconds / 86400) (omega arith) in
    let (y', m', d') = civil_date-bounds (seconds' / 86400) (omega arith) in
    let same_days : seconds / 86400 ≡ seconds' / 86400 =
      civil_date-inj (seconds / 86400) (seconds' / 86400)
        (same_date year year' month month' day day' (omega arith) (omega arith) (omega arith)) in
    omega arith

count_behind : (s t t' : String) → count t ≡ count t' → count (s ^+ t) ≡ count (s ^+ t')
count_behind s t t' h = omega (arith, length-append s t, length-append s t', h)

-- Texts with ends of one length are the same in front of the ends, and the ends are.
same_ends : (s s' t t' : String) → count t ≡ count t' → s ^+ t ≡ s' ^+ t' → (s ≡ s') × (t ≡ t')
same_ends s s' t t' ends same =
    append_inj same (omega (arith, length-append s t, length-append s' t', ap count same))

-- Two orders of one sleeve and one action, made up to the year 9999, have the same id exactly when their
-- setups agree in the first eight characters and they are made within the same second.
pub same_client_order_id :
    (sleeve_id : SleeveId) (setup other : String) (action : OrderAction) (now later : ℕ)
    → now / 1_000_000 < 253402300800
    → later / 1_000_000 < 253402300800
    → (make_client_order_id sleeve_id setup action now
        ≡ make_client_order_id sleeve_id other action later)
      ↔ ((first_chars 8 setup ≡ first_chars 8 other) × (now / 1_000_000 ≡ later / 1_000_000))
unfolding make_client_order_id timestamp_text
same_client_order_id sleeve_id setup other action now later h k = (
  λ same.
      let tail = clock_text (now / 1_000_000) in
      let tail' = clock_text (later / 1_000_000) in
      let mid = value action ^+ "_" ^+ tail in
      let mid' = value action ^+ "_" ^+ tail' in
      let behind : (first_chars 8 setup ^+ "_" ^+ mid) ≡ (first_chars 8 other ^+ "_" ^+ mid') =
        append_cancel_left "_" _ _ (append_cancel_left (value sleeve_id) _ _ same) in
      let times = count-clock (now / 1_000_000) ∙ sym (count-clock (later / 1_000_000)) in
      let counts = count_behind "_" mid mid' (
        count_behind (value action) ("_" ^+ tail) ("_" ^+ tail')
          (count_behind "_" tail tail' times)) in
      let (setups, ends) =
        same_ends (first_chars 8 setup) (first_chars 8 other) ("_" ^+ mid) ("_" ^+ mid') counts
          behind in
      let tails = append_cancel_left "_" tail tail' (
        append_cancel_left (value action) ("_" ^+ tail) ("_" ^+ tail')
          (append_cancel_left "_" mid mid' ends)) in
      (setups, clock-inj (now / 1_000_000) (later / 1_000_000) h k tails),
  λ both. cc,
)
