-- ===== src/Strategies/Held.antt =====
-- strategies/sleeve_b_replay.py: the loop over the bars behind the entry of a trade: stop, targets and
-- time stop. An offset is a natural number.
pub mod Invariants
pub mod Exits
use crypto_dual_sleeve_tradi.Base.{
  any, ℕ, ◌+◌, String, Bool, true, false, List, [], ◌∷◌, ◌++◌, leb, if◌then◌else◌,
}
use crypto_dual_sleeve_tradi.Base.Text.{str_eq}
use crypto_dual_sleeve_tradi.Base.Key.{string_key, pair_key}
use crypto_dual_sleeve_tradi.Decimal
use crypto_dual_sleeve_tradi.Decimal.{Decimal, nought}
use crypto_dual_sleeve_tradi.Strategies.Bars.{OhlcBar}
use crypto_dual_sleeve_tradi.Core.Enums.{
  short, long, PositionSide, trading_mode_enum, sleeve_id_enum, order_side_enum, position_side_enum,
  order_type_enum, order_action_enum, order_status_enum, safe_mode_state_enum, circuit_action_enum,
}

abbrev pub target_hit : PositionSide → OhlcBar → Decimal → Bool
target_hit long bar price = Decimal.le price bar.high
target_hit short bar price = Decimal.le bar.low price

abbrev pub stop_hit : PositionSide → OhlcBar → Decimal → Bool
stop_hit long bar price = Decimal.le bar.low price
stop_hit short bar price = Decimal.le price bar.high

abbrev pub pnl : PositionSide → Decimal → Decimal → Decimal → Decimal
pnl long entry exit_price quantity = Decimal.mul (Decimal.sub exit_price entry) quantity
pnl short entry exit_price quantity = Decimal.mul (Decimal.sub entry exit_price) quantity

-- a triple of `tps`
pub record Target : Type 0 where
  pub label : String
  pub price : Decimal
  pub fraction : Decimal

-- what the loop over the bars changes
pub record Open : Type 0 where
  pub remaining_fraction : Decimal
  pub realized : Decimal
  pub stop : Decimal
  pub tp_hits : List String
  pub exit_price : Decimal
  pub exit_reason : String
  pub exit_time : String
  pub bars_held : ℕ

-- what it reads
pub record Entered : Type 0 where
  pub side : PositionSide
  pub entry : Decimal
  pub initial_stop : Decimal
  pub tps : List Target
  pub quantity : Decimal
  pub time_stop_bars : ℕ

-- one round of `for label, price, fraction in tps`
unfoldable pub take_target : Entered → OhlcBar → Target → Open → Open
take_target t bar target s =
    if any (str_eq target.label) s.tp_hits
    then s
    else if target_hit t.side bar target.price
    then (let close_fraction = Decimal.min target.fraction s.remaining_fraction in
        record s {
          realized =
              Decimal.add s.realized
                (pnl t.side t.entry target.price (Decimal.mul t.quantity close_fraction));
          remaining_fraction = Decimal.sub s.remaining_fraction close_fraction;
          tp_hits = s.tp_hits ++ target.label ∷ [];
          stop = if str_eq target.label "TP1" then t.entry else s.stop;
          exit_price = target.price;
          exit_reason = target.label;
        })
    else s

unfoldable pub take_targets : Entered → OhlcBar → List Target → Open → Open
unfolding take_target
take_targets t bar [] s = s
take_targets t bar (target ∷ targets) s = take_targets t bar targets (take_target t bar target s)

-- the rest of the position closed at a price
abbrev pub close_rest : Entered → Decimal → String → Open → Open
close_rest t price reason s = record s {
  realized =
      Decimal.add s.realized
        (pnl t.side t.entry price (Decimal.mul t.quantity s.remaining_fraction));
  exit_price = price;
  exit_reason = reason;
  remaining_fraction = nought;
}

abbrev pub stop_reason : Entered → Open → String
stop_reason t s = if Decimal.eq s.stop t.initial_stop then "STOP_LOSS" else "BREAKEVEN_STOP"

-- a bar's number and time noted
abbrev pub at_bar : ℕ → OhlcBar → Open → Open
at_bar offset bar s = record s { bars_held = offset; exit_time = bar.timestamp }

-- the loop over the bars behind the entry
unfoldable pub hold : Entered → ℕ → List OhlcBar → Open → Open
unfolding take_targets
hold t offset [] s = s
hold t offset (bar ∷ bars) s =
    let here = at_bar offset bar s in
    let after = take_targets t bar t.tps here in
    elim (stop_hit t.side bar here.stop) [
      | true ↦ close_rest t here.stop (stop_reason t here) here
      | false ↦ elim (Decimal.le after.remaining_fraction nought) [
        | true ↦ after
        | false ↦ elim (leb t.time_stop_bars offset) [
          | true ↦ close_rest t bar.close "TIME_STOP" after
          | false ↦ hold t (offset + 1) bars after
        ]
      ]
    ]
