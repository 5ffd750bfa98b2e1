-- ===== src/Strategies/Replay.antt =====
-- strategies/sleeve_b_replay.py: the simulation of one trade of sleeve B. A period, an index and a
-- number of bars are natural numbers.
pub mod Trades
use crypto_dual_sleeve_tradi.Base.{
  drop, take, get_elem?, ℕ, ◌+◌, ◌-◌, String, none, some, List, [], ◌∷◌, if◌then◌else◌, length,
}
use crypto_dual_sleeve_tradi.Base.Result.{value_error, index_error, Result, ok, err}
use crypto_dual_sleeve_tradi.Base.Key.{string_key, pair_key}
use crypto_dual_sleeve_tradi.Decimal
use crypto_dual_sleeve_tradi.Decimal.{Decimal, nought}
use crypto_dual_sleeve_tradi.Core.Enums.{
  short, long, PositionSide, trading_mode_enum, sleeve_id_enum, order_side_enum, position_side_enum,
  order_type_enum, order_action_enum, order_status_enum, safe_mode_state_enum, circuit_action_enum,
}
use crypto_dual_sleeve_tradi.Strategies.Bars.{last_bar, atr, OhlcBar}
use crypto_dual_sleeve_tradi.Strategies.Held.{pnl, Open, Target, hold, Entered}
use crypto_dual_sleeve_tradi.Base.Result.{◌>>=◌, ◌>>◌, raise_if}

pub record SleeveBReplayConfig : Type 0 where
  pub unit_r : Decimal
  pub sleeve_equity : Decimal
  pub max_leverage : Decimal
  pub donchian_lookback_bars : ℕ
  pub atr_period : ℕ
  pub stop_atr_multiple : Decimal
  pub tp1_r : Decimal
  pub tp2_r : Decimal
  pub tp3_r : Decimal
  pub tp1_fraction : Decimal
  pub tp2_fraction : Decimal
  pub time_stop_bars : ℕ

-- the defaults of the fields
abbrev pub default_config : SleeveBReplayConfig
default_config = record {
  unit_r = Decimal.literal 800 0;
  sleeve_equity = Decimal.literal 80000 0;
  max_leverage = Decimal.literal 5 0;
  donchian_lookback_bars = 120;
  atr_period = 14;
  stop_atr_multiple = Decimal.literal 25 1;
  tp1_r = Decimal.literal 15 1;
  tp2_r = Decimal.literal 25 1;
  tp3_r = Decimal.literal 4 0;
  tp1_fraction = Decimal.literal 3 1;
  tp2_fraction = Decimal.literal 3 1;
  time_stop_bars = 12;
}

abbrev pub tp3_fraction : SleeveBReplayConfig → Decimal
tp3_fraction cfg = Decimal.sub (Decimal.sub Decimal.one cfg.tp1_fraction) cfg.tp2_fraction

pub record SleeveBTrade : Type 0 where
  pub symbol : String
  pub side : PositionSide
  pub entry_time : String
  pub entry_price : Decimal
  pub initial_stop : Decimal
  pub quantity : Decimal
  pub notional : Decimal
  pub exit_time : String
  pub exit_price : Decimal
  pub exit_reason : String
  pub realized_pnl : Decimal
  pub gross_r : Decimal
  pub bars_held : ℕ
  pub tp_hits : List String

abbrev pub away : PositionSide → Decimal → Decimal → Decimal
away long entry distance = Decimal.sub entry distance
away short entry distance = Decimal.add entry distance

abbrev pub toward : PositionSide → Decimal → Decimal → Decimal
toward long entry distance = Decimal.add entry distance
toward short entry distance = Decimal.sub entry distance

abbrev pub targets : PositionSide → Decimal → Decimal → SleeveBReplayConfig → List Target
targets side entry stop_distance cfg =
    record {
      label = "TP1";
      price = toward side entry (Decimal.mul cfg.tp1_r stop_distance);
      fraction = cfg.tp1_fraction;
    }
    ∷ record {
      label = "TP2";
      price = toward side entry (Decimal.mul cfg.tp2_r stop_distance);
      fraction = cfg.tp2_fraction;
    }
    ∷ record {
      label = "TP3";
      price = toward side entry (Decimal.mul cfg.tp3_r stop_distance);
      fraction = tp3_fraction cfg;
    }
    ∷ []

abbrev pub entered : PositionSide → OhlcBar → Decimal → Decimal → SleeveBReplayConfig → Entered
entered side entry_bar stop_distance quantity cfg = record {
  side = side;
  entry = entry_bar.close;
  initial_stop = away side entry_bar.close stop_distance;
  tps = targets side entry_bar.close stop_distance cfg;
  quantity = quantity;
  time_stop_bars = cfg.time_stop_bars;
}

-- the position at its entry
abbrev pub at_entry : OhlcBar → Decimal → Open
at_entry entry_bar initial_stop = record {
  remaining_fraction = Decimal.one;
  realized = nought;
  stop = initial_stop;
  tp_hits = [];
  exit_price = entry_bar.close;
  exit_reason = "TIME_STOP";
  exit_time = entry_bar.timestamp;
  bars_held = 0;
}

-- `if remaining_fraction > 0` behind the loop
abbrev pub settle_end : Entered → OhlcBar → ℕ → Open → Open
settle_end t last held s =
    if Decimal.lt nought s.remaining_fraction
    then record s {
      bars_held = held;
      exit_time = last.timestamp;
      exit_price = last.close;
      exit_reason = "END_OF_DATA";
      realized =
          Decimal.add s.realized
            (pnl t.side t.entry last.close (Decimal.mul t.quantity s.remaining_fraction));
    }
    else s

-- the loop, and the end of the data behind it
unfoldable pub play : Entered → OhlcBar → List OhlcBar → ℕ → ℕ → Open
unfolding hold last_bar
play t entry_bar bars entry_index count =
    settle_end t (last_bar entry_bar bars) (count - entry_index - 1)
      (hold t 1 bars (at_entry entry_bar t.initial_stop))

abbrev pub trade_of : String → Entered → OhlcBar → Open → Decimal → SleeveBTrade
trade_of symbol t entry_bar s gross_r = record {
  symbol = symbol;
  side = t.side;
  entry_time = entry_bar.timestamp;
  entry_price = t.entry;
  initial_stop = t.initial_stop;
  quantity = t.quantity;
  notional = Decimal.mul t.quantity t.entry;
  exit_time = s.exit_time;
  exit_price = s.exit_price;
  exit_reason = s.exit_reason;
  realized_pnl = s.realized;
  gross_r = gross_r;
  bars_held = s.bars_held;
  tp_hits = s.tp_hits;
}

unfoldable pub simulate_trade :
    String → PositionSide → List OhlcBar → ℕ → SleeveBReplayConfig → Result SleeveBTrade
unfolding play atr
simulate_trade symbol side bars entry_index cfg = elim (get_elem? bars entry_index) [
  | none ↦ err (index_error "list index out of range")
  | some entry_bar ↦ do
    atr_value ← atr (take (entry_index + 1) bars) cfg.atr_period
    let stop_distance = Decimal.mul atr_value cfg.stop_atr_multiple
    raise_if (Decimal.le stop_distance nought) (value_error "stop distance must be positive")
    by_risk ← Decimal.div cfg.unit_r stop_distance
    by_notional ← Decimal.div (Decimal.mul cfg.sleeve_equity cfg.max_leverage) entry_bar.close
    let quantity = Decimal.min by_risk by_notional
    let t = entered side entry_bar stop_distance quantity cfg
    let s = play t entry_bar (drop (entry_index + 1) bars) entry_index (length bars)
    gross_r ← Decimal.div s.realized cfg.unit_r
    ok (trade_of symbol t entry_bar s gross_r)
]
