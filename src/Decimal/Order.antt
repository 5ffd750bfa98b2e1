-- ===== src/Decimal/Order.antt =====
-- The comparisons of decimals are a total order on the exact values, and `min` and `max` are its
-- bounds.
use native.Mathlib.Nat.{le_of_mul-le-mul_left, mul-le-mul_right, one-le-pow}
use crypto_dual_sleeve_tradi.Base.{
  ℕ, ◌+◌, ◌*◌, ◌^◌, ◌≤◌, ◌<◌, ◌≡◌, refl, true, false, not, inl, inr, arith, leb→le, le→leb,
  Bool-cases,
}
use crypto_dual_sleeve_tradi.Decimal.{Decimal, pos_part, neg_part, le, lt, eq, min, max}

pow_pos : (k : ℕ) → 0 < 10 ^ k
pow_pos k = one-le-pow k 10 (omega arith)

trans_parts :
    (pa na pb nb pc nc A B C : ℕ)
    → 0 < B
    → pa * B + nb * A ≤ pb * A + na * B
    → pb * C + nc * B ≤ pc * B + nb * C
    → pa * C + nc * A ≤ pc * A + na * C
trans_parts pa na pb nb pc nc A B C hB h k =
    le_of_mul-le-mul_left {k = B} (omega (arith, mul-le-mul_right C h, mul-le-mul_right A k)) hB

pub le_refl : (a : Decimal) → le a a ≡ true
unfolding le
le_refl a = le→leb _ _ (omega arith)

pub le_trans : (a b c : Decimal) → le a b ≡ true → le b c ≡ true → le a c ≡ true
unfolding le
le_trans a b c h k = le→leb _ _ (
    trans_parts (pos_part a) (neg_part a) (pos_part b) (neg_part b) (pos_part c) (neg_part c)
      (10 ^ a.places) (10 ^ b.places) (10 ^ c.places) (pow_pos b.places) (leb→le _ _ h)
      (leb→le _ _ k))

pub le_total : (a b : Decimal) → le a b ≡ false → le b a ≡ true
unfolding le
le_total a b h = ground arith

pub lt-eq-not-le : (a b : Decimal) → lt a b ≡ not (le b a)
unfolding lt
lt-eq-not-le a b = refl

pub le_of_lt : (a b : Decimal) → lt a b ≡ true → le a b ≡ true
unfolding lt
le_of_lt a b h = ground (arith, le_total b a)

pub lt_irrefl : (a : Decimal) → lt a a ≡ false
unfolding lt
lt_irrefl a = rw (le_refl a)

pub lt_of_le_of_lt : (a b c : Decimal) → le a b ≡ true → lt b c ≡ true → lt a c ≡ true
unfolding lt
lt_of_le_of_lt a b c h k = elim (Bool-cases (le c a)) [
  | inl e ↦ ground (arith, le_trans c a b)
  | inr e ↦ rw e
]

pub lt_of_lt_of_le : (a b c : Decimal) → lt a b ≡ true → le b c ≡ true → lt a c ≡ true
unfolding lt
lt_of_lt_of_le a b c h k = elim (Bool-cases (le c a)) [
  | inl e ↦ ground (arith, le_trans b c a)
  | inr e ↦ rw e
]

pub eq_refl : (a : Decimal) → eq a a ≡ true
unfolding eq
eq_refl a = rw (le_refl a)

pub eq_symm : (a b : Decimal) → eq a b ≡ eq b a
unfolding eq
eq_symm a b = ground arith

pub eq_trans : (a b c : Decimal) → eq a b ≡ true → eq b c ≡ true → eq a c ≡ true
unfolding eq
eq_trans a b c h k = ground (arith, le_trans a b c, le_trans c b a)

pub le_of_eq : (a b : Decimal) → eq a b ≡ true → le a b ≡ true
unfolding eq
le_of_eq a b h = ground arith

pub min-le_left : (a b : Decimal) → le (min a b) a ≡ true
unfolding min lt
min-le_left a b = ground (arith, le_refl a, le_total a b)

pub min-le_right : (a b : Decimal) → le (min a b) b ≡ true
unfolding min lt
min-le_right a b = ground (arith, le_refl b, le_total a b, le_total b a)

pub le-max_left : (a b : Decimal) → le a (max a b) ≡ true
unfolding max lt
le-max_left a b = ground (arith, le_refl a, le_total b a)

pub le-max_right : (a b : Decimal) → le b (max a b) ≡ true
unfolding max lt
le-max_right a b = ground (arith, le_refl b)

pub le-min : (a b c : Decimal) → le c a ≡ true → le c b ≡ true → le c (min a b) ≡ true
unfolding min
le-min a b c h k = ground arith

pub max-le : (a b c : Decimal) → le a c ≡ true → le b c ≡ true → le (max a b) c ≡ true
unfolding max
max-le a b c h k = ground arith
