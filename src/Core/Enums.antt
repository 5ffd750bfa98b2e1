-- ===== src/Core/Enums.antt =====
-- core/enums.py: the enumerations, and their texts.
pub mod Values
use crypto_dual_sleeve_tradi.Base.{true, ℕ, ◌≡◌, refl, ◌↔◌, String, List, [], ◌∷◌, ◌==◌, arith}
use crypto_dual_sleeve_tradi.Base.Enum.{Enum, value, of_value}
use crypto_dual_sleeve_tradi.Base.Result.{ok}

pub data TradingMode : Type 0 where
  signal_only paper_local exchange_testnet : TradingMode

abbrev trading_mode_rank : TradingMode → ℕ
trading_mode_rank signal_only = 0
trading_mode_rank paper_local = 1
trading_mode_rank exchange_testnet = 2

abbrev trading_mode_value : TradingMode → String
trading_mode_value signal_only = "SIGNAL_ONLY"
trading_mode_value paper_local = "PAPER_LOCAL"
trading_mode_value exchange_testnet = "EXCHANGE_TESTNET"

pub trading_mode_same :
    (x y : TradingMode) → ((trading_mode_rank x == trading_mode_rank y) ≡ true) ↔ (x ≡ y)
trading_mode_same x y = ground arith

instance abbrev pub trading_mode_enum : Enum TradingMode
trading_mode_enum = record {
  rank = trading_mode_rank;
  value = trading_mode_value;
  members = signal_only ∷ paper_local ∷ exchange_testnet ∷ [];
  same = trading_mode_same;
}

pub data SleeveId : Type 0 where
  sleeve_a sleeve_b : SleeveId

abbrev sleeve_id_rank : SleeveId → ℕ
sleeve_id_rank sleeve_a = 0
sleeve_id_rank sleeve_b = 1

abbrev sleeve_id_value : SleeveId → String
sleeve_id_value sleeve_a = "A"
sleeve_id_value sleeve_b = "B"

pub sleeve_id_same : (x y : SleeveId) → ((sleeve_id_rank x == sleeve_id_rank y) ≡ true) ↔ (x ≡ y)
sleeve_id_same x y = ground arith

instance abbrev pub sleeve_id_enum : Enum SleeveId
sleeve_id_enum = record {
  rank = sleeve_id_rank;
  value = sleeve_id_value;
  members = sleeve_a ∷ sleeve_b ∷ [];
  same = sleeve_id_same;
}

pub data OrderSide : Type 0 where
  buy sell : OrderSide

abbrev order_side_rank : OrderSide → ℕ
order_side_rank buy = 0
order_side_rank sell = 1

abbrev order_side_value : OrderSide → String
order_side_value buy = "BUY"
order_side_value sell = "SELL"

pub order_side_same :
    (x y : OrderSide) → ((order_side_rank x == order_side_rank y) ≡ true) ↔ (x ≡ y)
order_side_same x y = ground arith

instance abbrev pub order_side_enum : Enum OrderSide
order_side_enum = record {
  rank = order_side_rank;
  value = order_side_value;
  members = buy ∷ sell ∷ [];
  same = order_side_same;
}

pub data PositionSide : Type 0 where
  long short : PositionSide

abbrev position_side_rank : PositionSide → ℕ
position_side_rank long = 0
position_side_rank short = 1

abbrev position_side_value : PositionSide → String
position_side_value long = "LONG"
position_side_value short = "SHORT"

pub position_side_same :
    (x y : PositionSide) → ((position_side_rank x == position_side_rank y) ≡ true) ↔ (x ≡ y)
position_side_same x y = ground arith

instance abbrev pub position_side_enum : Enum PositionSide
position_side_enum = record {
  rank = position_side_rank;
  value = position_side_value;
  members = long ∷ short ∷ [];
  same = position_side_same;
}

pub data OrderType : Type 0 where
  market limit stop_market stop_limit : OrderType

abbrev order_type_rank : OrderType → ℕ
order_type_rank market = 0
order_type_rank limit = 1
order_type_rank stop_market = 2
order_type_rank stop_limit = 3

abbrev order_type_value : OrderType → String
order_type_value market = "MARKET"
order_type_value limit = "LIMIT"
order_type_value stop_market = "STOP_MARKET"
order_type_value stop_limit = "STOP_LIMIT"

pub order_type_same :
    (x y : OrderType) → ((order_type_rank x == order_type_rank y) ≡ true) ↔ (x ≡ y)
order_type_same x y = ground arith

instance abbrev pub order_type_enum : Enum OrderType
order_type_enum = record {
  rank = order_type_rank;
  value = order_type_value;
  members = market ∷ limit ∷ stop_market ∷ stop_limit ∷ [];
  same = order_type_same;
}

pub data OrderAction : Type 0 where
  entry stop_loss take_profit_1 take_profit_2 take_profit_3 time_stop circuit_break : OrderAction

abbrev order_action_rank : OrderAction → ℕ
order_action_rank entry = 0
order_action_rank stop_loss = 1
order_action_rank take_profit_1 = 2
order_action_rank take_profit_2 = 3
order_action_rank take_profit_3 = 4
order_action_rank time_stop = 5
order_action_rank circuit_break = 6

abbrev order_action_value : OrderAction → String
order_action_value entry = "EN"
order_action_value stop_loss = "SL"
order_action_value take_profit_1 = "TP1"
order_action_value take_profit_2 = "TP2"
order_action_value take_profit_3 = "TP3"
order_action_value time_stop = "TS"
order_action_value circuit_break = "CB"

pub order_action_same :
    (x y : OrderAction) → ((order_action_rank x == order_action_rank y) ≡ true) ↔ (x ≡ y)
order_action_same x y = ground arith

instance abbrev pub order_action_enum : Enum OrderAction
order_action_enum = record {
  rank = order_action_rank;
  value = order_action_value;
  members =
      entry ∷ stop_loss ∷ take_profit_1 ∷ take_profit_2 ∷ take_profit_3 ∷ time_stop ∷ circuit_break
      ∷ [];
  same = order_action_same;
}

pub data OrderStatus : Type 0 where
  created submitted partially_filled filled canceled rejected expired unknown : OrderStatus

abbrev order_status_rank : OrderStatus → ℕ
order_status_rank created = 0
order_status_rank submitted = 1
order_status_rank partially_filled = 2
order_status_rank filled = 3
order_status_rank canceled = 4
order_status_rank rejected = 5
order_status_rank expired = 6
order_status_rank unknown = 7

abbrev order_status_value : OrderStatus → String
order_status_value created = "CREATED"
order_status_value submitted = "SUBMITTED"
order_status_value partially_filled = "PARTIALLY_FILLED"
order_status_value filled = "FILLED"
order_status_value canceled = "CANCELED"
order_status_value rejected = "REJECTED"
order_status_value expired = "EXPIRED"
order_status_value unknown = "UNKNOWN"

pub order_status_same :
    (x y : OrderStatus) → ((order_status_rank x == order_status_rank y) ≡ true) ↔ (x ≡ y)
order_status_same x y = ground arith

instance abbrev pub order_status_enum : Enum OrderStatus
order_status_enum = record {
  rank = order_status_rank;
  value = order_status_value;
  members =
      created ∷ submitted ∷ partially_filled ∷ filled ∷ canceled ∷ rejected ∷ expired ∷ unknown
      ∷ [];
  same = order_status_same;
}

pub data SafeModeState : Type 0 where
  normal safe_mode : SafeModeState

abbrev safe_mode_state_rank : SafeModeState → ℕ
safe_mode_state_rank normal = 0
safe_mode_state_rank safe_mode = 1

abbrev safe_mode_state_value : SafeModeState → String
safe_mode_state_value normal = "NORMAL"
safe_mode_state_value safe_mode = "SAFE_MODE"

pub safe_mode_state_same :
    (x y : SafeModeState) → ((safe_mode_state_rank x == safe_mode_state_rank y) ≡ true) ↔ (x ≡ y)
safe_mode_state_same x y = ground arith

instance abbrev pub safe_mode_state_enum : Enum SafeModeState
safe_mode_state_enum = record {
  rank = safe_mode_state_rank;
  value = safe_mode_state_value;
  members = normal ∷ safe_mode ∷ [];
  same = safe_mode_state_same;
}

pub data CircuitAction : Type 0 where
  no_action block_new_entries exit_only cancel_entries flatten_a_reduce_only manual_review :
      CircuitAction

abbrev circuit_action_rank : CircuitAction → ℕ
circuit_action_rank no_action = 0
circuit_action_rank block_new_entries = 1
circuit_action_rank exit_only = 2
circuit_action_rank cancel_entries = 3
circuit_action_rank flatten_a_reduce_only = 4
circuit_action_rank manual_review = 5

abbrev circuit_action_value : CircuitAction → String
circuit_action_value no_action = "NONE"
circuit_action_value block_new_entries = "BLOCK_NEW_ENTRIES"
circuit_action_value exit_only = "EXIT_ONLY"
circuit_action_value cancel_entries = "CANCEL_ENTRIES"
circuit_action_value flatten_a_reduce_only = "FLATTEN_A_REDUCE_ONLY"
circuit_action_value manual_review = "MANUAL_REVIEW"

pub circuit_action_same :
    (x y : CircuitAction) → ((circuit_action_rank x == circuit_action_rank y) ≡ true) ↔ (x ≡ y)
circuit_action_same x y = ground arith

instance abbrev pub circuit_action_enum : Enum CircuitAction
circuit_action_enum = record {
  rank = circuit_action_rank;
  value = circuit_action_value;
  members =
      no_action ∷ block_new_entries ∷ exit_only ∷ cancel_entries ∷ flatten_a_reduce_only
      ∷ manual_review ∷ [];
  same = circuit_action_same;
}
