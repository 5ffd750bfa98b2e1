-- ===== src/Decimal/Sign.antt =====
-- Rounding keeps the sign of a result, and never makes a nonzero one zero: so the sign of a sum, a
-- difference, a product and a quotient is that of the exact value.
use native.Mathlib.Nat.{div-div-eq-div-mul, mul-pos, one-le-pow, pow-succ'}
use crypto_dual_sleeve_tradi.Base.{
  ℕ, zero, suc, ◌+◌, ◌-◌, ◌*◌, ◌/◌, ◌^◌, ◌≤◌, ◌<◌, ◌≡◌, refl, Bool, true, false, inl, inr, arith,
  le→leb, ltb, leb, Bool-cases,
}
use crypto_dual_sleeve_tradi.Base.Result.{ok}
use crypto_dual_sleeve_tradi.Decimal.{
  div_magnitudes, div, Decimal, nought, excess, round_half_even, shorten, fix, of_parts, pos_part,
  neg_part, le, lt, add, sub, mul, abs, differ,
}

div-pow_suc : (n k : ℕ) → n / 10 ^ suc k ≡ n / 10 / 10 ^ k
div-pow_suc n k = rw (pow-succ' 10 k, div-div-eq-div-mul n 10 (10 ^ k))

-- What is left of a shortened magnitude still has 28 digits.
excess-ge : (fuel n k : ℕ) → excess fuel n ≡ suc k → 10 ^ 27 ≤ n / 10 ^ suc k
unfolding excess
excess-ge zero n k h = absurd (omega arith)
excess-ge (suc fuel) n zero h = ground arith
excess-ge (suc fuel) n (suc k) h = rw div-pow_suc (ground (arith, excess-ge fuel (n / 10) k))

round-pos : (n p : ℕ) → 0 < n / p → 0 < round_half_even n p
unfolding round_half_even
round-pos n p h = ground arith

pub pow_pos : (k : ℕ) → 0 < 10 ^ k
pow_pos k = one-le-pow k 10 (omega arith)

shorten-pos :
    (neg : Bool) (n s k : ℕ)
    → 0 < n
    → ((j : ℕ) → k ≡ suc j → 10 ^ 27 ≤ n / 10 ^ suc j)
    → 0 < (shorten neg n s k).magnitude
unfolding shorten
shorten-pos neg n s zero h big = h
shorten-pos neg n s (suc k) h big =
    let q = round-pos n (10 ^ suc k) (omega (arith, big k refl)) in
    elim (Bool-cases (leb (suc k) s)) [
      | inl e ↦ rw e q
      | inr e ↦ rw e (mul-pos q (pow_pos (suc k - s)))
    ]

pub fix-negative : (neg : Bool) (n s : ℕ) → (fix neg n s).negative ≡ neg
unfolding fix
fix-negative neg n s = ground arith

-- A nonzero magnitude is never rounded to zero.
pub fix-pos : (neg : Bool) (n s : ℕ) → 0 < n → 0 < (fix neg n s).magnitude
unfolding fix
fix-pos neg n s h = shorten-pos neg n s (excess n n) h (λ j e. excess-ge n n j e)

pub fix-zero : (neg : Bool) (s : ℕ) → (fix neg 0 s).magnitude ≡ 0
unfolding fix
fix-zero neg s = refl

-- The two tests of a sign, on the parts.
pub nonneg-eq : (a : Decimal) → le nought a ≡ leb (neg_part a) 0
unfolding le
nonneg-eq a = ground arith

pub pos-eq : (a : Decimal) → lt nought a ≡ ltb 0 (pos_part a)
unfolding lt le
pos-eq a = ground arith

pub nonneg-of_parts : (p n s : ℕ) → le nought (of_parts p n s) ≡ leb n p
unfolding of_parts
nonneg-of_parts p n s = rw nonneg-eq (
    ground
      (arith, fix-negative false (p - n) s, fix-negative true (n - p) s, fix-pos true (n - p) s))

pub pos-of_parts : (p n s : ℕ) → lt nought (of_parts p n s) ≡ ltb n p
unfolding of_parts
pos-of_parts p n s = rw pos-eq (
    ground (
      arith,
      fix-negative false (p - n) s,
      fix-negative true (n - p) s,
      fix-pos false (p - n) s,
      fix-zero false s,
    ))

-- A difference is positive exactly when the second value is the smaller one.
pub nonneg-sub : (a b : Decimal) → le nought (sub a b) ≡ le b a
unfolding sub le
nonneg-sub a b = rw nonneg-of_parts (ground arith)

pub pos-sub : (a b : Decimal) → lt nought (sub a b) ≡ lt b a
unfolding sub lt le
pos-sub a b = rw pos-of_parts (ground arith)

pub abs_nonneg : (a : Decimal) → le nought (abs a) ≡ true
unfolding abs
abs_nonneg a = rw nonneg-eq (ground (arith, fix-negative false a.magnitude a.places))

neg_part-zero : (a : Decimal) → le nought a ≡ true → neg_part a ≡ 0
neg_part-zero a h = ground (arith, nonneg-eq a)

pub add_nonneg :
    (a b : Decimal) → le nought a ≡ true → le nought b ≡ true → le nought (add a b) ≡ true
unfolding add
add_nonneg a b h k =
    rw (nonneg-of_parts, neg_part-zero a h, neg_part-zero b k) (le→leb _ _ (omega arith))

fix_nought : (neg : Bool) (n s : ℕ) → n ≡ 0 → (fix neg n s).magnitude ≡ 0
fix_nought neg n s e = rw e (fix-zero neg s)

nought-mul : (x y : ℕ) → x ≡ 0 → x * y ≡ 0
nought-mul x y e = rw e (omega arith)

mul-nought : (x y : ℕ) → y ≡ 0 → x * y ≡ 0
mul-nought x y e = rw e (omega arith)

pub mul_nonneg :
    (a b : Decimal) → le nought a ≡ true → le nought b ≡ true → le nought (mul a b) ≡ true
unfolding mul
mul_nonneg a b h k =
    let neg = differ a.negative b.negative in
    let n = a.magnitude * b.magnitude in
    let s = a.places + b.places in
    rw nonneg-eq (
      ground (
        arith,
        neg_part-zero a h,
        neg_part-zero b k,
        fix-negative neg n s,
        fix_nought neg n s,
        nought-mul a.magnitude b.magnitude,
        mul-nought a.magnitude b.magnitude,
      ))

pub mul_pos : (a b : Decimal) → lt nought a ≡ true → lt nought b ≡ true → lt nought (mul a b) ≡ true
unfolding mul
mul_pos a b h k =
    let neg = differ a.negative b.negative in
    let n = a.magnitude * b.magnitude in
    let s = a.places + b.places in
    rw pos-eq (
      ground (
        arith,
        pos-eq a,
        pos-eq b,
        fix-negative neg n s,
        fix-pos neg n s,
        mul-pos {m = a.magnitude} {n = b.magnitude},
      ))

-- A quotient by a positive value is always defined.
pub div_defined : (a b : Decimal) → lt nought b ≡ true → (q : Decimal) × (div a b ≡ ok q)
unfolding div
div_defined a b h = (
  div_magnitudes (differ a.negative b.negative) (a.magnitude * 10 ^ b.places)
      (b.magnitude * 10 ^ a.places),
  ground (arith, pos-eq b),
)

-- A product with a value that is not positive is not positive, if the other is not negative.
pub nonpos-eq : (a : Decimal) → le a nought ≡ leb (pos_part a) 0
unfolding le
nonpos-eq a = ground arith

sub_self : (a : Decimal) → (sub a a).magnitude ≡ 0
unfolding sub of_parts
sub_self a =
    let p = pos_part a * 10 ^ a.places + neg_part a * 10 ^ a.places in
    let n = neg_part a * 10 ^ a.places + pos_part a * 10 ^ a.places in
    let e : leb n p ≡ true = le→leb n p (omega arith) in
    let d : p - n ≡ 0 = omega arith in rw (e, d) (fix-zero false (a.places + a.places))

abs_zero : (a : Decimal) → a.magnitude ≡ 0 → (abs a).magnitude ≡ 0
unfolding abs
abs_zero a e = rw e (fix-zero false a.places)

zero-le : (a t : Decimal) → a.magnitude ≡ 0 → le nought t ≡ true → le a t ≡ true
unfolding le
zero-le a t e h = rw (neg_part-zero t h) (ground arith)

-- The distance of a value from itself is at most any value that is not negative.
pub self_distance-le : (a t : Decimal) → le nought t ≡ true → le (abs (sub a a)) t ≡ true
self_distance-le a t h = zero-le (abs (sub a a)) t (abs_zero (sub a a) (sub_self a)) h
