-- ===== src/Decimal.antt =====
-- Python's `decimal.Decimal` under the default context: finite values, 28 significant digits,
-- ROUND_HALF_EVEN. A value is a sign, a magnitude and a number of decimal places; two spellings of
-- one number (`1.0`, `1.00`) are told apart by nothing that the program computes with. NaN,
-- infinities and exponents near the limits of the context are not modelled.
pub mod Order
pub mod Sign
mod Tests
use crypto_dual_sleeve_tradi.Base.{
  ℕ, zero, suc, ◌+◌, ◌-◌, ◌*◌, ◌/◌, ◌%◌, ◌^◌, Bool, true, false, not, ◌&&◌, ◌||◌, List, [], ◌∷◌,
  ltb, leb, ◌==◌, if◌then◌else◌,
}
use crypto_dual_sleeve_tradi.Base.Result.{
  Result, ok, err, Exception, division_by_zero, invalid_operation,
}

pub record Decimal : Type 0 where
  pub negative : Bool
  pub magnitude : ℕ
  pub places : ℕ

-- `Decimal("…")` of a literal without a sign: `magnitude` over ten to the `places`
abbrev pub literal : ℕ → ℕ → Decimal
literal m s = record { negative = false; magnitude = m; places = s }

-- the literal with a minus sign
abbrev pub minus : ℕ → ℕ → Decimal
minus m s = record { negative = true; magnitude = m; places = s }

abbrev pub nought : Decimal
nought = literal 0 0

abbrev pub one : Decimal
one = literal 1 0

abbrev pub precision : ℕ
precision = 28

-- the digits that `n` has beyond the precision
excess : ℕ → ℕ → ℕ
excess zero n = 0
excess (suc fuel) n =
    let rest = suc (excess fuel (n / 10)) in if ltb n (10 ^ precision) then 0 else rest

-- the quotient by `p`, rounded to the nearest whole number, a tie to the even one
round_half_even : ℕ → ℕ → ℕ
round_half_even n p =
    let q = n / p in
    let r = n % p in if ltb p (2 * r) || (2 * r == p && q % 2 == 1) then q + 1 else q

-- a magnitude over ten to the `s`, which loses `k` digits
shorten : Bool → ℕ → ℕ → ℕ → Decimal
shorten neg n s zero = record { negative = neg; magnitude = n; places = s }
shorten neg n s k =
    let q = round_half_even n (10 ^ k) in
    if leb k s
    then record { negative = neg; magnitude = q; places = s - k }
    else record { negative = neg; magnitude = q * 10 ^ (k - s); places = 0 }

-- the context's rounding of an exact result
unfoldable pub fix : Bool → ℕ → ℕ → Decimal
unfolding excess round_half_even shorten
fix neg n s = shorten neg n s (excess n n)

-- the positive and the negative part of the coefficient
abbrev pub pos_part : Decimal → ℕ
pos_part a = if a.negative then 0 else a.magnitude

abbrev pub neg_part : Decimal → ℕ
neg_part a = if a.negative then a.magnitude else 0

-- `p - n` over ten to the `s`, rounded
unfoldable pub of_parts : ℕ → ℕ → ℕ → Decimal
unfolding fix
of_parts p n s = if leb n p then fix false (p - n) s else fix true (n - p) s

abbrev differ : Bool → Bool → Bool
differ true b = not b
differ false b = b

-- `a + b`
unfoldable pub add : Decimal → Decimal → Decimal
unfolding of_parts
add a b =
    of_parts (pos_part a * 10 ^ b.places + pos_part b * 10 ^ a.places)
      (neg_part a * 10 ^ b.places + neg_part b * 10 ^ a.places) (a.places + b.places)

-- `a - b`
unfoldable pub sub : Decimal → Decimal → Decimal
unfolding of_parts
sub a b =
    of_parts (pos_part a * 10 ^ b.places + neg_part b * 10 ^ a.places)
      (neg_part a * 10 ^ b.places + pos_part b * 10 ^ a.places) (a.places + b.places)

-- `a * b`
unfoldable pub mul : Decimal → Decimal → Decimal
unfolding fix
mul a b = fix (differ a.negative b.negative) (a.magnitude * b.magnitude) (a.places + b.places)

digits : ℕ → ℕ → ℕ
digits zero n = 0
digits (suc fuel) n = let rest = suc (digits fuel (n / 10)) in if n == 0 then 0 else rest

-- The quotient of two magnitudes to one digit more than the precision at least; a remainder is
-- noted in the last digit, so that it breaks a tie.
div_magnitudes : Bool → ℕ → ℕ → Decimal
unfolding fix digits
div_magnitudes neg n d =
    let shift = precision + 1 + digits d d - digits n n in
    let q = n * 10 ^ shift / d in
    let r = n * 10 ^ shift % d in fix neg (if not (r == 0) && q % 5 == 0 then q + 1 else q) shift

-- `a / b`
unfoldable pub div : Decimal → Decimal → Result Decimal
unfolding div_magnitudes
div a b =
    if b.magnitude == 0
    then err (if a.magnitude == 0 then invalid_operation "0 / 0" else division_by_zero "x / 0")
    else ok (
        div_magnitudes (differ a.negative b.negative) (a.magnitude * 10 ^ b.places)
          (b.magnitude * 10 ^ a.places))

-- `abs(a)`
unfoldable pub abs : Decimal → Decimal
unfolding fix
abs a = fix false a.magnitude a.places

-- `a <= b`, `a < b` and `a == b` compare the exact values
unfoldable pub le : Decimal → Decimal → Bool
le a b =
    leb (pos_part a * 10 ^ b.places + neg_part b * 10 ^ a.places)
      (pos_part b * 10 ^ a.places + neg_part a * 10 ^ b.places)

unfoldable pub lt : Decimal → Decimal → Bool
lt a b = not (le b a)

unfoldable pub eq : Decimal → Decimal → Bool
eq a b = le a b && le b a

-- Python's `min(a, b)` and `max(a, b)`
unfoldable pub min : Decimal → Decimal → Decimal
min a b = if lt b a then b else a

unfoldable pub max : Decimal → Decimal → Decimal
max a b = if lt a b then b else a

unfoldable pub sum_from : Decimal → List Decimal → Decimal
sum_from acc [] = acc
sum_from acc (x ∷ xs) = sum_from (add acc x) xs

-- `sum(xs, Decimal("0"))`
unfoldable pub sum : List Decimal → Decimal
unfolding sum_from add
sum xs = sum_from nought xs

-- `a.to_integral_value(rounding=ROUND_DOWN)`
unfoldable pub to_integral_down : Decimal → Decimal
to_integral_down a = record {
  negative = a.negative;
  magnitude = a.magnitude / 10 ^ a.places;
  places = 0;
}

-- `a.quantize(Decimal("0.01"), rounding=ROUND_DOWN)`: more than 28 digits are an error
unfoldable pub quantize_cents : Decimal → Result Decimal
quantize_cents a =
    let cents = a.magnitude * 100 / 10 ^ a.places in
    if ltb cents (10 ^ precision)
    then ok (record { negative = a.negative; magnitude = cents; places = 2 })
    else err (invalid_operation "quantize result has too many digits for current context")
