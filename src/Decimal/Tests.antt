-- ===== src/Decimal/Tests.antt =====
-- Runs of the decimal operations.
use crypto_dual_sleeve_tradi.Base.{false, ◌≡◌, refl}
use crypto_dual_sleeve_tradi.Base.Result.{ok}
use crypto_dual_sleeve_tradi.Decimal.{literal, minus, one, fix, add, div}

add_tenths : add (literal 1 1) (literal 2 1) ≡ literal 30 2
unfolding add
add_tenths = refl

div_third : div one (literal 3 0) ≡ ok (literal 3333333333333333333333333333 28)
unfolding div
div_third = refl

div_two_thirds : div (minus 2 0) (literal 3 0) ≡ ok (minus 6666666666666666666666666667 28)
unfolding div
div_two_thirds = refl

ties_to_even : fix false 100000000000000000000000000005 0 ≡ literal 100000000000000000000000000000 0
unfolding fix
ties_to_even = refl
