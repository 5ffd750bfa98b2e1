-- ===== src/Exchange/Interfaces.antt =====
-- exchange/interfaces.py: what the execution package asks of an exchange. An adapter keeps a state of
-- its own, which a call may change also when it raises.
use crypto_dual_sleeve_tradi.Base.{String, Option, List}
use crypto_dual_sleeve_tradi.Base.Key.{string_key, pair_key}
use crypto_dual_sleeve_tradi.Core.Enums.{
  trading_mode_enum, sleeve_id_enum, order_side_enum, position_side_enum, order_type_enum,
  order_action_enum, order_status_enum, safe_mode_state_enum, circuit_action_enum,
}
use crypto_dual_sleeve_tradi.Core.Models.{OrderRecord, SymbolFilters}
use crypto_dual_sleeve_tradi.Base.Exec.{Exec}

pub record ExchangeAdapter (X : Type 0) : Type 0 where
  pub get_symbol_filters : String → Exec X SymbolFilters
  pub submit_order : OrderRecord → Exec X OrderRecord
  pub cancel_order : String → String → Exec X (Option OrderRecord)
  pub fetch_open_orders : Exec X (List OrderRecord)
