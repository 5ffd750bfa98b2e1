-- ===== src/Strategies/Signals.antt =====
-- strategies/sleeve_b.py: the moving average, the regime of a market, and the breakout of a channel. A
-- period and a number of bars are natural numbers.
pub mod Breakout
use crypto_dual_sleeve_tradi.Base.{
  drop, take, ℕ, zero, suc, ◌+◌, ◌-◌, ◌*◌, ◌≤◌, ◌<◌, String, ◌≡◌, refl, sym, ap, ◌∙◌, ◌≢◌, ◌↔◌, ◌⊎◌,
  inl, inr, Bool, true, false, not, ◌&&◌, ◌||◌, Option, none, some, List, [], ◌∷◌, ◌++◌, map, arith,
  ltb, leb, ◌==◌, if◌then◌else◌, Bool-cases, Option-cases, length, keep, All,
}
use crypto_dual_sleeve_tradi.Base.Text.{◌^+◌, str_eq, eq_iff}
use crypto_dual_sleeve_tradi.Base.Enum.{is, one_of, value}
use crypto_dual_sleeve_tradi.Base.Result.{index_error, value_error, Result, ok, err}
use crypto_dual_sleeve_tradi.Base.Key.{Key, string_key, pair_key}
use crypto_dual_sleeve_tradi.Decimal
use crypto_dual_sleeve_tradi.Base.Dict
use crypto_dual_sleeve_tradi.Base.Dict.{Dict}
use crypto_dual_sleeve_tradi.Decimal.{Decimal, nought}
use crypto_dual_sleeve_tradi.Core.Enums.{
  short, long, PositionSide, trading_mode_enum, sleeve_id_enum, order_side_enum, position_side_enum,
  order_type_enum, order_action_enum, order_status_enum, safe_mode_state_enum, circuit_action_enum,
}
use crypto_dual_sleeve_tradi.Base.Result.{◌>>=◌, ◌>>◌, raise_if}

pub record SleeveBSignal : Type 0 where
  pub symbol : String
  pub side : Option PositionSide
  pub trigger : Option String
  pub reason : String

unfoldable pub ema_from : Decimal → Decimal → List Decimal → List Decimal
ema_from alpha last [] = []
ema_from alpha last (value ∷ rest) =
    let next =
      Decimal.add (Decimal.mul alpha value) (Decimal.mul (Decimal.sub Decimal.one alpha) last) in
    next ∷ ema_from alpha next rest

-- the list behind the test of the period
abbrev pub averages : Decimal → List Decimal → List Decimal
averages alpha [] = []
averages alpha (value ∷ rest) = value ∷ ema_from alpha value rest

unfoldable pub ema : List Decimal → ℕ → Result (List Decimal)
unfolding ema_from
ema values period =
    if period == 0
    then err (value_error "period must be positive")
    else elim (Decimal.div (Decimal.literal 2 0) (Decimal.literal (period + 1) 0)) [
      | err e ↦ err e
      | ok alpha ↦ ok (averages alpha values)
    ]

unfoldable pub last_from : Decimal → List Decimal → Decimal
last_from last [] = last
last_from last (x ∷ xs) = last_from x xs

-- `xs[-1]`
unfoldable pub last_item : List Decimal → Result Decimal
unfolding last_from
last_item [] = err (index_error "list index out of range")
last_item (x ∷ xs) = ok (last_from x xs)

unfoldable pub regime_from_daily_close : List Decimal → Result String
unfolding ema last_item
regime_from_daily_close closes = if ltb (length closes) 200 then ok "INSUFFICIENT_DATA" else (do
  averages_50 ← ema closes 50
  e50 ← last_item averages_50
  averages_200 ← ema closes 200
  e200 ← last_item averages_200
  last ← last_item closes
  if Decimal.lt e50 last && Decimal.lt e200 e50
      then ok "BULL"
      else if Decimal.lt last e50 && Decimal.lt e50 e200
      then ok "BEAR"
      else ok "CHOP")

unfoldable pub max_from : Decimal → List Decimal → Decimal
max_from m [] = m
max_from m (x ∷ xs) = max_from (Decimal.max m x) xs

unfoldable pub min_from : Decimal → List Decimal → Decimal
min_from m [] = m
min_from m (x ∷ xs) = min_from (Decimal.min m x) xs

-- `max(xs)` and `min(xs)`
unfoldable pub max_item : List Decimal → Result Decimal
unfolding max_from
max_item [] = err (value_error "max() arg is an empty sequence")
max_item (x ∷ xs) = ok (max_from x xs)

unfoldable pub min_item : List Decimal → Result Decimal
unfolding min_from
min_item [] = err (value_error "min() arg is an empty sequence")
min_item (x ∷ xs) = ok (min_from x xs)

-- `xs[-n - 1 : -1]`
unfoldable pub window : ℕ → List Decimal → List Decimal
window n xs = take (length xs - 1 - (length xs - (n + 1))) (drop (length xs - (n + 1)) xs)

abbrev pub no_entry : String → String → SleeveBSignal
no_entry symbol reason = record { symbol = symbol; side = none; trigger = none; reason = reason }

abbrev pub breaks : String → PositionSide → String → SleeveBSignal
breaks symbol side reason = record {
  symbol = symbol;
  side = some side;
  trigger = some "DONCHIAN";
  reason = reason;
}

-- `donchian_signal` for a regime that is BULL
unfoldable pub long_signal : String → List Decimal → List Decimal → ℕ → Result SleeveBSignal
unfolding last_item max_item window
long_signal symbol close_4h high_4h lookback_bars = do
  last ← last_item close_4h
  top ← max_item (window lookback_bars high_4h)
  if Decimal.lt top last
      then ok (breaks symbol long "20D_4H_BREAKOUT_LONG")
      else ok (no_entry symbol "NO_ENTRY")

-- and for one that is BEAR
unfoldable pub short_signal : String → List Decimal → List Decimal → ℕ → Result SleeveBSignal
unfolding last_item min_item window
short_signal symbol close_4h low_4h lookback_bars = do
  last ← last_item close_4h
  bottom ← min_item (window lookback_bars low_4h)
  if Decimal.lt last bottom
      then ok (breaks symbol short "20D_4H_BREAKDOWN_SHORT")
      else ok (no_entry symbol "NO_ENTRY")

unfoldable pub donchian_signal :
    String → String → List Decimal → List Decimal → List Decimal → ℕ → Result SleeveBSignal
unfolding long_signal short_signal
donchian_signal symbol regime close_4h high_4h low_4h lookback_bars =
    if not (str_eq regime "BULL") && not (str_eq regime "BEAR")
    then ok (no_entry symbol ("REGIME_" ^+ regime ^+ "_NO_ENTRY"))
    else if ltb (length close_4h) (lookback_bars + 1)
    then ok (no_entry symbol "INSUFFICIENT_4H_DATA")
    else if str_eq regime "BULL"
    then long_signal symbol close_4h high_4h lookback_bars
    else short_signal symbol close_4h low_4h lookback_bars
