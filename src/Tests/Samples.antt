-- ===== src/Tests/Samples.antt =====
-- Concrete orders, filters and exchanges.
use crypto_dual_sleeve_tradi.Base.{ℕ, false, none, some, [], ◌∷◌}
use crypto_dual_sleeve_tradi.Base.Key.{string_key, pair_key}
use crypto_dual_sleeve_tradi.Decimal
use crypto_dual_sleeve_tradi.Decimal.{Decimal, nought}
use crypto_dual_sleeve_tradi.Execution.SafeMode.{new_controller, SafeModeController}
use crypto_dual_sleeve_tradi.Core.Models.{
  ExchangePositionSnapshot, OrderRecord, SymbolFilters, OrderIntent,
}
use crypto_dual_sleeve_tradi.Exchange.Inert.{InertExchange}
use crypto_dual_sleeve_tradi.Core.Enums.{
  time_stop, entry, limit, buy, filled, submitted, sleeve_b, safe_mode, trading_mode_enum,
  sleeve_id_enum, order_side_enum, position_side_enum, order_type_enum, order_action_enum,
  order_status_enum, safe_mode_state_enum, circuit_action_enum,
}

abbrev pub noon : ℕ
noon = 1_700_000_000_000_000

abbrev pub quiet : SafeModeController
quiet = new_controller noon

abbrev pub alarmed : SafeModeController
alarmed = record { state = safe_mode; reasons = "drill" ∷ []; updated_at = noon }

abbrev pub entry_intent : OrderIntent
entry_intent = record {
  sleeve_id = sleeve_b;
  symbol = "BTCUSDT";
  side = buy;
  order_type = limit;
  action = entry;
  quantity = Decimal.literal 12345 4;
  price = some (Decimal.literal 100004 3);
  reduce_only = false;
  setup_id = some "setup-0001";
  metadata = [];
}

abbrev pub loose_exit : OrderIntent
loose_exit = record entry_intent { action = time_stop }

abbrev pub btc_filters : SymbolFilters
btc_filters = record {
  symbol = "BTCUSDT";
  tick_size = Decimal.literal 1 2;
  step_size = Decimal.literal 1 3;
  min_notional = Decimal.literal 5 0;
}

abbrev pub empty_exchange : InertExchange
empty_exchange = record { filters = []; orders = []; positions = []; klines = [] }

abbrev pub entry_order : OrderRecord
entry_order = record {
  client_order_id = "B_setup-00_EN_20231114221320";
  intent = record entry_intent { quantity = Decimal.literal 2 0 };
  status = submitted;
  exchange_order_id = none;
  filled_quantity = nought;
  average_fill_price = none;
  created_at = noon;
  updated_at = noon;
}

abbrev pub filled_order : OrderRecord
filled_order = record entry_order { status = filled; filled_quantity = Decimal.literal 2 0 }

abbrev pub btc_position : ExchangePositionSnapshot
btc_position = record {
  symbol = "BTCUSDT";
  position_side = "BOTH";
  position_amt = Decimal.literal 5 1;
  entry_price = none;
  mark_price = some (Decimal.literal 100 0);
  unrealized_profit = nought;
  notional = nought;
  isolated_margin = nought;
  update_time_ms = none;
}

abbrev pub eth_position : ExchangePositionSnapshot
eth_position = record btc_position { symbol = "ETHUSDT" }
