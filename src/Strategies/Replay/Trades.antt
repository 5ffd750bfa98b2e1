-- ===== src/Strategies/Replay/Trades.antt =====
-- The trades of strategies/sleeve_b_replay.py: how they end, and how long they are held.
use crypto_dual_sleeve_tradi.Base.{
  suc, ◌∷◌, length-drop, ◌<◌, any, ◌<◌, take, drop, get_elem?, ℕ, ◌+◌, ◌-◌, ◌≤◌, String, ◌≡◌, refl,
  ◌⊎◌, inl, inr, true, false, some, List, [], arith, Bool-cases, Option-cases, length,
}
use crypto_dual_sleeve_tradi.Base.Result.{Result-cases, ok}
use crypto_dual_sleeve_tradi.Base.Key.{string_key, pair_key}
use crypto_dual_sleeve_tradi.Decimal
use crypto_dual_sleeve_tradi.Decimal.{Decimal, nought}
use crypto_dual_sleeve_tradi.Strategies.Held.{hold, Open, Entered}
use crypto_dual_sleeve_tradi.Strategies.Replay.{
  entered, trade_of, SleeveBTrade, SleeveBReplayConfig, simulate_trade, settle_end, at_entry, play,
}
use crypto_dual_sleeve_tradi.Strategies.Bars.{atr, last_bar, OhlcBar}
use crypto_dual_sleeve_tradi.Strategies.Held.Exits.{hold-Left, Live, Left, no_repeat, Explained}
use crypto_dual_sleeve_tradi.Strategies.Held.Invariants.{hold-Counted, Counted, at_most}
use crypto_dual_sleeve_tradi.Base.Text.{str_eq}
use Prim.Native.Nat.{zero}
use crypto_dual_sleeve_tradi.Core.Enums.{
  PositionSide, trading_mode_enum, sleeve_id_enum, order_side_enum, position_side_enum,
  order_type_enum, order_action_enum, order_status_enum, safe_mode_state_enum, circuit_action_enum,
}

-- how a trade ends: closed in the loop, or at the last bar
abbrev pub Ends : Entered → OhlcBar → ℕ → Open → Type 0
Ends t last held o =
    Explained t o
    ⊎ ((o.exit_reason ≡ "END_OF_DATA") × (o.exit_price ≡ last.close) × (o.bars_held ≡ held))

abbrev pub Played : Entered → OhlcBar → ℕ → Open → Type 0
Played t last held o =
    Ends t last held o
    × (no_repeat o.tp_hits ≡ true)
    × (o.bars_held ≤ held)
    × (o.bars_held ≤ at_most t.time_stop_bars 1)

settle_end-Played :
    (t : Entered) (last : OhlcBar) (held : ℕ) (o : Open)
    → Left t o
    → Counted t held o
    → Played t last held (settle_end t last held o)
settle_end-Played t last held o l c = ground arith

start-Live : (t : Entered) (entry_bar : OhlcBar) → Live t 1 [] (at_entry entry_bar t.initial_stop)
unfolding Decimal.lt Decimal.le
start-Live t entry_bar = ((inl (refl, refl), refl, refl), refl)

play-Played :
    (t : Entered) (entry_bar : OhlcBar) (bars : List OhlcBar) (entry_index count : ℕ)
    → length bars ≡ count - entry_index - 1
    → Played t (last_bar entry_bar bars) (length bars) (play t entry_bar bars entry_index count)
unfolding play
play-Played t entry_bar bars entry_index count e =
    let start = at_entry entry_bar t.initial_stop in
    rw (← e) (
      settle_end-Played t (last_bar entry_bar bars) (length bars) (hold t 1 bars start)
        (hold-Left t 1 bars start (start-Live t entry_bar)) (hold-Counted t bars start refl))

-- what stands behind a trade
abbrev pub Made :
    String → PositionSide → List OhlcBar → ℕ → SleeveBReplayConfig → SleeveBTrade → Type 0
Made symbol side bars entry_index cfg trade =
    (entry_bar : OhlcBar) × (distance quantity gross_r : Decimal) × (get_elem? bars entry_index
      ≡ some entry_bar)
    × (Decimal.le distance nought ≡ false)
    × (trade
        ≡ trade_of symbol (entered side entry_bar distance quantity cfg) entry_bar
            (play (entered side entry_bar distance quantity cfg) entry_bar
              (drop (entry_index + 1) bars) entry_index (length bars))
            gross_r)

pub simulate-Made :
    (symbol : String) (side : PositionSide) (bars : List OhlcBar) (entry_index : ℕ)
    (cfg : SleeveBReplayConfig) (trade : SleeveBTrade)
    → simulate_trade symbol side bars entry_index cfg ≡ ok trade
    → Made symbol side bars entry_index cfg trade
unfolding simulate_trade
simulate-Made symbol side bars entry_index cfg trade h =
    elim (Option-cases (get_elem? bars entry_index)) [
      | inl out ↦ absurd (ground arith)
      | inr (entry_bar, at) ↦
          elim (Result-cases (atr (take (entry_index + 1) bars) cfg.atr_period)) [
            | inr (e, fails) ↦ absurd (ground arith)
            | inl (atr_value, ranges) ↦
                let distance = Decimal.mul atr_value cfg.stop_atr_multiple in
                elim (Bool-cases (Decimal.le distance nought)) [
                  | inl narrow ↦ absurd (ground arith)
                  | inr wide ↦ elim (Result-cases (Decimal.div cfg.unit_r distance)) [
                    | inr (e, fails) ↦ absurd (ground arith)
                    | inl (by_risk, risks) ↦
                        elim (Result-cases (
                          Decimal.div (Decimal.mul cfg.sleeve_equity cfg.max_leverage)
                            entry_bar.close)) [
                              | inr (e, fails) ↦ absurd (ground arith)
                              | inl (by_notional, notionals) ↦
                                  let quantity = Decimal.min by_risk by_notional in
                                  let t = entered side entry_bar distance quantity cfg in
                                  let s =
                                    play t entry_bar (drop (entry_index + 1) bars) entry_index
                                      (length bars) in
                                  elim (Result-cases (Decimal.div s.realized cfg.unit_r)) [
                                    | inr (e, fails) ↦ absurd (ground arith)
                                    | inl (gross_r, grosses) ↦ (
                                      entry_bar,
                                      distance,
                                      quantity,
                                      gross_r,
                                      at,
                                      wide,
                                      ground arith,
                                    )
                                  ]
                            ]
                  ]
                ]
          ]
    ]

pub get_elem-lt :
    (bars : List OhlcBar) (i : ℕ) (bar : OhlcBar) → get_elem? bars i ≡ some bar → i < length bars
get_elem-lt [] i bar h = cc
get_elem-lt (b ∷ bars) zero bar h = omega arith
get_elem-lt (b ∷ bars) (suc i) bar h = omega (arith, get_elem-lt bars i bar h)

-- how a trade says it ended
abbrev pub EndsAs : SleeveBReplayConfig → List OhlcBar → ℕ → SleeveBTrade → Type 0
EndsAs cfg bars entry_index trade =
    ((trade.exit_reason ≡ "STOP_LOSS") × (Decimal.eq trade.exit_price trade.initial_stop ≡ true))
    ⊎ ((trade.exit_reason ≡ "BREAKEVEN_STOP")
        × (trade.exit_price ≡ trade.entry_price)
        × (any (str_eq "TP1") trade.tp_hits ≡ true))
    ⊎ (any (str_eq trade.exit_reason) trade.tp_hits ≡ true)
    ⊎ ((trade.exit_reason ≡ "TIME_STOP") × (cfg.time_stop_bars ≤ trade.bars_held))
    ⊎ ((trade.exit_reason ≡ "END_OF_DATA") × (entry_index + trade.bars_held + 1 ≡ length bars))

-- A trade that is simulated ends inside the bars, and its exit is explained: at a price equal to the
-- initial stop; at the entry price when the first target was taken; at a target that was taken; at the
-- time stop, after as many bars as it says at least; or at the last bar. No target is taken twice, and
-- the trade is held for one bar at most or for no more than the time stop says.
pub simulate-EndsAs :
    (symbol : String) (side : PositionSide) (bars : List OhlcBar) (entry_index : ℕ)
    (cfg : SleeveBReplayConfig) (trade : SleeveBTrade)
    → simulate_trade symbol side bars entry_index cfg ≡ ok trade
    → EndsAs cfg bars entry_index trade
      × (no_repeat trade.tp_hits ≡ true)
      × (entry_index + trade.bars_held < length bars)
      × (trade.bars_held ≤ at_most cfg.time_stop_bars 1)
simulate-EndsAs symbol side bars entry_index cfg trade h =
    let (entry_bar, distance, quantity, gross_r, at, wide, is) =
      simulate-Made symbol side bars entry_index cfg trade h in
    let t = entered side entry_bar distance quantity cfg in
    let behind = drop (entry_index + 1) bars in
    let inside = get_elem-lt bars entry_index entry_bar at in
    let measured = length-drop (entry_index + 1) bars in
    let played = play-Played t entry_bar behind entry_index (length bars) (ground arith) in
    rw is (ground arith)
