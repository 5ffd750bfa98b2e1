-- ===== src/Strategies/Signals/Breakout.antt =====
-- When strategies/sleeve_b.py gives a signal.
use mathlib.Core.Path.{subst}
use crypto_dual_sleeve_tradi.Base.{
  ◌+◌, ◌<◌, take, ℕ, String, ◌≡◌, refl, inl, inr, true, some, List, [], ◌∷◌, arith, Bool-cases,
  length, All,
}
use crypto_dual_sleeve_tradi.Base.Text.{str_eq, eq_iff}
use crypto_dual_sleeve_tradi.Base.Result.{Result-cases, ok}
use crypto_dual_sleeve_tradi.Base.Key.{string_key, pair_key}
use crypto_dual_sleeve_tradi.Decimal
use crypto_dual_sleeve_tradi.Decimal.{Decimal, nought}
use crypto_dual_sleeve_tradi.Strategies.Signals.{
  averages, ema, window, last_item, SleeveBSignal, ema_from, donchian_signal, short_signal,
  long_signal, min_item, max_item, min_from, max_from,
}
use crypto_dual_sleeve_tradi.Decimal.Order.{
  min-le_right, le-max_right, min-le_left, le-max_left, le_trans, le_refl, lt_of_lt_of_le,
  lt_of_le_of_lt,
}
use crypto_dual_sleeve_tradi.Decimal.Sign.{pos-eq, div_defined}
use crypto_dual_sleeve_tradi.Core.Enums.{
  short, long, PositionSide, trading_mode_enum, sleeve_id_enum, order_side_enum, position_side_enum,
  order_type_enum, order_action_enum, order_status_enum, safe_mode_state_enum, circuit_action_enum,
}

max_from-le :
    (m : Decimal) (xs : List Decimal)
    → (Decimal.le m (max_from m xs) ≡ true) × All (λ x. Decimal.le x (max_from m xs) ≡ true) xs
unfolding max_from
max_from-le m [] = (le_refl m, tt)
max_from-le m (x ∷ xs) =
    let (top, rest) = max_from-le (Decimal.max m x) xs in
    (
      le_trans m (Decimal.max m x) _ (le-max_left m x) top,
      (le_trans x (Decimal.max m x) _ (le-max_right m x) top, rest),
    )

min_from-le :
    (m : Decimal) (xs : List Decimal)
    → (Decimal.le (min_from m xs) m ≡ true) × All (λ x. Decimal.le (min_from m xs) x ≡ true) xs
unfolding min_from
min_from-le m [] = (le_refl m, tt)
min_from-le m (x ∷ xs) =
    let (bottom, rest) = min_from-le (Decimal.min m x) xs in
    (
      le_trans _ (Decimal.min m x) m bottom (min-le_left m x),
      (le_trans _ (Decimal.min m x) x bottom (min-le_right m x), rest),
    )

below :
    (top last : Decimal) (xs : List Decimal)
    → Decimal.lt top last ≡ true
    → All (λ x. Decimal.le x top ≡ true) xs
    → All (λ x. Decimal.lt x last ≡ true) xs
below top last [] h a = tt
below top last (x ∷ xs) h (p, ps) = (lt_of_le_of_lt x top last p h, below top last xs h ps)

above :
    (bottom last : Decimal) (xs : List Decimal)
    → Decimal.lt last bottom ≡ true
    → All (λ x. Decimal.le bottom x ≡ true) xs
    → All (λ x. Decimal.lt last x ≡ true) xs
above bottom last [] h a = tt
above bottom last (x ∷ xs) h (p, ps) = (lt_of_lt_of_le last bottom x h p, above bottom last xs h ps)

max_item-le :
    (xs : List Decimal) (m : Decimal) → max_item xs ≡ ok m → All (λ x. Decimal.le x m ≡ true) xs
unfolding max_item
max_item-le [] m h = cc
max_item-le (x ∷ xs) m h =
    let (p, ps) = max_from-le x xs in
    let same : max_from x xs ≡ m = ground arith in
    subst (λ top. All (λ y. Decimal.le y top ≡ true) (x ∷ xs)) same (p, ps)

min_item-le :
    (xs : List Decimal) (m : Decimal) → min_item xs ≡ ok m → All (λ x. Decimal.le m x ≡ true) xs
unfolding min_item
min_item-le [] m h = cc
min_item-le (x ∷ xs) m h =
    let (p, ps) = min_from-le x xs in
    let same : min_from x xs ≡ m = ground arith in
    subst (λ bottom. All (λ y. Decimal.le bottom y ≡ true) (x ∷ xs)) same (p, ps)

-- What stands behind a signal with a side: for LONG the regime is BULL and the last close is above
-- every high of the bars before the last, for SHORT it is BEAR and below every low.
abbrev pub IsBreakout : PositionSide → String → Decimal → List Decimal → List Decimal → Type 0
IsBreakout long regime last highs lows =
    (regime ≡ "BULL") × All (λ h. Decimal.lt h last ≡ true) highs
IsBreakout short regime last highs lows =
    (regime ≡ "BEAR") × All (λ l. Decimal.lt last l ≡ true) lows

long-IsBreakout :
    (symbol : String) (closes highs lows : List Decimal) (n : ℕ) (s : SleeveBSignal)
    (side : PositionSide)
    → long_signal symbol closes highs n ≡ ok s
    → s.side ≡ some side
    → (last : Decimal) × (last_item closes ≡ ok last)
      × IsBreakout side "BULL" last (window n highs) (window n lows)
unfolding long_signal
long-IsBreakout symbol closes highs lows n s side h sides = elim (Result-cases (last_item closes)) [
  | inr (e, fails) ↦ absurd (ground arith)
  | inl (last, lasts) ↦ elim (Result-cases (max_item (window n highs))) [
    | inr (e, fails) ↦ absurd (ground arith)
    | inl (top, tops) ↦
        let higher : Decimal.lt top last ≡ true = ground arith in
        let is_long : side ≡ long = ground arith in
        (
          last,
          lasts,
          rw is_long (
            refl,
            below top last (window n highs) higher (max_item-le (window n highs) top tops),
          ),
        )
  ]
]

short-IsBreakout :
    (symbol : String) (closes highs lows : List Decimal) (n : ℕ) (s : SleeveBSignal)
    (side : PositionSide)
    → short_signal symbol closes lows n ≡ ok s
    → s.side ≡ some side
    → (last : Decimal) × (last_item closes ≡ ok last)
      × IsBreakout side "BEAR" last (window n highs) (window n lows)
unfolding short_signal
short-IsBreakout symbol closes highs lows n s side h sides =
    elim (Result-cases (last_item closes)) [
      | inr (e, fails) ↦ absurd (ground arith)
      | inl (last, lasts) ↦ elim (Result-cases (min_item (window n lows))) [
        | inr (e, fails) ↦ absurd (ground arith)
        | inl (bottom, bottoms) ↦
            let lower : Decimal.lt last bottom ≡ true = ground arith in
            let is_short : side ≡ short = ground arith in
            (
              last,
              lasts,
              rw is_short (
                refl,
                above bottom last (window n lows) lower
                    (min_item-le (window n lows) bottom bottoms),
              ),
            )
      ]
    ]

-- A signal with a side is a breakout. LONG is given only in the regime BULL, with a last close above
-- every high of the `lookback_bars` bars before the last; SHORT only in BEAR, with one below every low
-- of these bars.
pub donchian-IsBreakout :
    (symbol regime : String) (closes highs lows : List Decimal) (n : ℕ) (s : SleeveBSignal)
    (side : PositionSide)
    → donchian_signal symbol regime closes highs lows n ≡ ok s
    → s.side ≡ some side
    → (last : Decimal) × (last_item closes ≡ ok last)
      × IsBreakout side regime last (window n highs) (window n lows)
unfolding donchian_signal
donchian-IsBreakout symbol regime closes highs lows n s side h sides =
    elim (Bool-cases (str_eq regime "BULL")) [
      | inl bull ↦
          let (to, _) = eq_iff regime "BULL" in
          let same = to bull in
          let goes : long_signal symbol closes highs n ≡ ok s = ground arith in
          rw same (long-IsBreakout symbol closes highs lows n s side goes sides)
      | inr other ↦ elim (Bool-cases (str_eq regime "BEAR")) [
        | inl bear ↦
            let (to, _) = eq_iff regime "BEAR" in
            let same = to bear in
            let goes : short_signal symbol closes lows n ≡ ok s = ground arith in
            rw same (short-IsBreakout symbol closes highs lows n s side goes sides)
        | inr none_of_both ↦ absurd (ground arith)
      ]
    ]

length-ema_from :
    (alpha last : Decimal) (xs : List Decimal) → length (ema_from alpha last xs) ≡ length xs
unfolding ema_from
length-ema_from alpha last [] = refl
length-ema_from alpha last (x ∷ xs) = ground (
  arith,
  length-ema_from alpha
      (Decimal.add (Decimal.mul alpha x) (Decimal.mul (Decimal.sub Decimal.one alpha) last)) xs,
)

averages-lem :
    (alpha : Decimal) (values : List Decimal)
    → (length (averages alpha values) ≡ length values)
      × (take 1 (averages alpha values) ≡ take 1 values)
averages-lem alpha [] = (refl, refl)
averages-lem alpha (x ∷ xs) = (ground (arith, length-ema_from alpha x xs), refl)

-- For a positive period the moving average never raises, has one item for each value, and starts at
-- the first value.
pub ema_lem :
    (values : List Decimal) (period : ℕ)
    → 0 < period
    → (averages_of : List Decimal) × (ema values period ≡ ok averages_of)
      × (length averages_of ≡ length values)
      × (take 1 averages_of ≡ take 1 values)
unfolding ema
ema_lem values period pos =
    let positive : Decimal.lt nought (Decimal.literal (period + 1) 0) ≡ true =
      rw (pos-eq (Decimal.literal (period + 1) 0)) (ground arith) in
    let (alpha, divides) =
      div_defined (Decimal.literal 2 0) (Decimal.literal (period + 1) 0) positive in
    let (len, head) = averages-lem alpha values in (averages alpha values, ground arith, len, head)
