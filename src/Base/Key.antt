-- ===== src/Base/Key.antt =====
-- What Python asks of a dictionary key that is also sorted: equality and an order. The keys of the
-- program are texts and pairs of texts.
use Prim.Native.Nat.{Ordering}
use Prim.Native.String.{String, compare}
use Prim.Native.String.compare
use mathlib.Core.Path.{◌≡◌, refl}
use mathlib.Core.Logic.{◌↔◌}
use mathlib.Core.Bool.{Bool, true, false, ◌&&◌, ◌||◌}
use native.Mathlib.Omega.{arith}
use crypto_dual_sleeve_tradi.Base.Text.{str_eq, str_lt, eq_iff}

pub record Key {ℓ} (K : Type ℓ) : Type ℓ where
  pub eq : K → K → Bool
  pub lt : K → K → Bool
  pub same : (a b : K) → (eq a b ≡ true) ↔ (a ≡ b)
  pub asymm : (a b : K) → lt a b ≡ true → lt b a ≡ false

compare_asymm : (s t : String) → compare s t ≡ Ordering.lt → str_lt t s ≡ false
compare_asymm String.[] String.[] h = refl
compare_asymm String.[] (String.◌∷◌ d t) h = ground (arith, compare.cons-nil d t)
compare_asymm (String.◌∷◌ c s) String.[] h = ground (arith, compare.cons-nil c s)
compare_asymm (String.◌∷◌ c s) (String.◌∷◌ d t) h =
    ground (arith, compare.cons-cons c d s t, compare.cons-cons d c t s, compare_asymm s t)

pub str_lt_asymm : (s t : String) → str_lt s t ≡ true → str_lt t s ≡ false
str_lt_asymm s t h = ground (arith, compare_asymm s t)

instance abbrev pub string_key : Key String
string_key = record { eq = str_eq; lt = str_lt; same = eq_iff; asymm = str_lt_asymm }

-- Pairs are compared by the first part that differs.
abbrev pub pair_eq : String × String → String × String → Bool
pair_eq (a, b) (c, d) = str_eq a c && str_eq b d

abbrev pub pair_lt : String × String → String × String → Bool
pair_lt (a, b) (c, d) = str_lt a c || (str_eq a c && str_lt b d)

pub pair_eq_iff : (p q : String × String) → (pair_eq p q ≡ true) ↔ (p ≡ q)
pair_eq_iff (a, b) (c, d) = ground (arith, eq_iff a c, eq_iff b d)

pub pair_lt_asymm : (p q : String × String) → pair_lt p q ≡ true → pair_lt q p ≡ false
pair_lt_asymm (a, b) (c, d) h =
    ground (arith, eq_iff a c, eq_iff c a, str_lt_asymm a c, str_lt_asymm b d, str_lt_asymm a a)

instance abbrev pub pair_key : Key (String × String)
pair_key = record { eq = pair_eq; lt = pair_lt; same = pair_eq_iff; asymm = pair_lt_asymm }
