-- ===== src/Exchange/Filters/Cut.antt =====
-- What exchange/filters.py rounds the quantity and the price of an order to.
use native.Mathlib.Nat.{mul-div-le, lt-mul-div-succ}
use crypto_dual_sleeve_tradi.Decimal
use crypto_dual_sleeve_tradi.Decimal.{nought, Decimal}
use crypto_dual_sleeve_tradi.Exchange.Filters.{
  round_price, normalize_order_intent, round_price_to_tick, floor_to_step,
}
use crypto_dual_sleeve_tradi.Base.Result.{Result-cases, ok}
use crypto_dual_sleeve_tradi.Core.Models.{SymbolFilters, OrderIntent}
use crypto_dual_sleeve_tradi.Decimal.Sign.{pow_pos}
use crypto_dual_sleeve_tradi.Base.{
  ◌/◌, ◌≡◌, ◌≤◌, ◌<◌, ◌*◌, ◌+◌, ◌^◌, ℕ, true, Option, none, some, arith, inl, inr,
}

-- `d` is `amount` cut towards zero to a whole number `count` of steps: `count` is the number of whole
-- steps in the quotient that the context gives.
pub record IsCut (amount step d : Decimal) : Type 0 where
  pub quotient : Decimal
  pub count : ℕ
  pub step_pos : Decimal.lt nought step ≡ true
  pub divides : Decimal.div amount step ≡ ok quotient
  pub count_le : 10 ^ quotient.places * count ≤ quotient.magnitude
  pub count_gt : quotient.magnitude < 10 ^ quotient.places * (count + 1)
  pub is_cut :
      d ≡ Decimal.mul (record { negative = quotient.negative; magnitude = count; places = 0 }) step

floor-IsCut :
    (amount step : Decimal) {d : Decimal} → floor_to_step amount step ≡ ok d → IsCut amount step d
unfolding floor_to_step Decimal.to_integral_down Decimal.lt
floor-IsCut amount step {d} e = elim (Result-cases (Decimal.div amount step)) [
  | inr (exc, fails) ↦ absurd (ground arith)
  | inl (quotient, divides) ↦ record {
    quotient = quotient;
    count = quotient.magnitude / 10 ^ quotient.places;
    step_pos = ground arith;
    divides = divides;
    count_le = mul-div-le quotient.magnitude (10 ^ quotient.places);
    count_gt = lt-mul-div-succ quotient.magnitude (pow_pos quotient.places);
    is_cut = ground arith;
  }
]

-- What a price of an intent is sent as.
abbrev pub IsCutPrice : Option Decimal → Decimal → Option Decimal → Type 0
IsCutPrice none tick none = Unit
IsCutPrice (some price) tick (some sent) = IsCut price tick sent
IsCutPrice _ tick _ = ⊥

round-IsCutPrice :
    (price : Option Decimal) (tick : Decimal) (sent : Option Decimal)
    → round_price price tick ≡ ok sent
    → IsCutPrice price tick sent
unfolding round_price_to_tick
round-IsCutPrice none tick none e = tt
round-IsCutPrice none tick (some sent) e = ground arith
round-IsCutPrice (some price) tick none e = ground arith
round-IsCutPrice (some price) tick (some sent) e = floor-IsCut price tick (ground arith)

-- The quantity and the price of a normalised intent are those of the intent that was given, cut to
-- whole steps and ticks.
pub normalize-IsCut :
    (intent : OrderIntent) (filters : SymbolFilters) {normal : OrderIntent}
    → normalize_order_intent intent filters ≡ ok normal
    → IsCut intent.quantity filters.step_size normal.quantity
      × IsCutPrice intent.price filters.tick_size normal.price
unfolding normalize_order_intent
normalize-IsCut intent filters {normal} e =
    elim (Result-cases (floor_to_step intent.quantity filters.step_size)) [
      | inr (exc, fails) ↦ absurd (ground arith)
      | inl (quantity, cuts) ↦ elim (Result-cases (round_price intent.price filters.tick_size)) [
        | inr (exc, fails) ↦ absurd (ground arith)
        | inl (price, rounds) ↦
            let same_quantity : quantity ≡ normal.quantity = ground arith in
            let same_price : price ≡ normal.price = ground arith in
            rw (← same_quantity, ← same_price)
              (
                floor-IsCut intent.quantity filters.step_size cuts,
                round-IsCutPrice intent.price filters.tick_size price rounds,
              )
      ]
    ]
