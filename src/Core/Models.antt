-- ===== src/Core/Models.antt =====
-- core/models.py, core/account.py, core/exchange_order.py: the records that the parts exchange.
-- A `datetime` is the number of microseconds since 1970; the clock is an argument where it is read.
use crypto_dual_sleeve_tradi.Base.{
  ℕ, ◌+◌, ◌*◌, String, Bool, false, Option, none, some, List, leb, if◌then◌else◌,
}
use crypto_dual_sleeve_tradi.Base.Dict.{Dict}
use crypto_dual_sleeve_tradi.Decimal
use crypto_dual_sleeve_tradi.Decimal.{Decimal, nought}
use crypto_dual_sleeve_tradi.Core.Enums.{
  PositionSide, OrderAction, OrderSide, OrderStatus, OrderType, SleeveId, created,
}

pub record SymbolFilters : Type 0 where
  pub symbol : String
  pub tick_size : Decimal
  pub step_size : Decimal
  pub min_notional : Decimal

pub record OrderIntent : Type 0 where
  pub sleeve_id : SleeveId
  pub symbol : String
  pub side : OrderSide
  pub order_type : OrderType
  pub action : OrderAction
  pub quantity : Decimal
  pub price : Option Decimal
  pub reduce_only : Bool
  pub setup_id : Option String
  pub metadata : Dict String String

pub record OrderRecord : Type 0 where
  pub client_order_id : String
  pub intent : OrderIntent
  pub status : OrderStatus
  pub exchange_order_id : Option String
  pub filled_quantity : Decimal
  pub average_fill_price : Option Decimal
  pub created_at : ℕ
  pub updated_at : ℕ

-- `OrderRecord(client_order_id=…, intent=…)` at the time `now`
unfoldable pub new_order : ℕ → String → OrderIntent → OrderRecord
new_order now client_id intent = record {
  client_order_id = client_id;
  intent = intent;
  status = created;
  exchange_order_id = none;
  filled_quantity = nought;
  average_fill_price = none;
  created_at = now;
  updated_at = now;
}

unfoldable pub remaining_quantity : OrderRecord → Decimal
remaining_quantity order =
    let remaining = Decimal.sub order.intent.quantity order.filled_quantity in
    if Decimal.lt nought remaining then remaining else nought

pub record Position : Type 0 where
  pub position_id : String
  pub sleeve_id : SleeveId
  pub symbol : String
  pub side : PositionSide
  pub quantity : Decimal
  pub average_entry_price : Decimal
  pub stop_price : Option Decimal
  pub setup_id : Option String
  pub opened_at : ℕ

pub record SleeveLedgerSnapshot : Type 0 where
  pub sleeve_id : SleeveId
  pub starting_equity : Decimal
  pub realized_pnl : Decimal
  pub unrealized_pnl : Decimal
  pub fees : Decimal
  pub funding : Decimal
  pub daily_pnl : Decimal
  pub weekly_pnl : Decimal
  pub monthly_pnl : Decimal

pub record AccountSnapshot : Type 0 where
  pub starting_equity : Decimal
  pub daily_pnl : Decimal
  pub sleeves : Dict SleeveId SleeveLedgerSnapshot

pub record DataPointFreshness : Type 0 where
  pub name : String
  pub updated_at : Option ℕ
  pub max_age_seconds : ℕ

fresh_at : Option ℕ → ℕ → ℕ → Bool
fresh_at none max_age now = false
fresh_at (some updated) max_age now = leb now (updated + max_age * 1_000_000)

unfoldable pub is_fresh : DataPointFreshness → ℕ → Bool
unfolding fresh_at
is_fresh point now = fresh_at point.updated_at point.max_age_seconds now

pub record AccountAssetSnapshot : Type 0 where
  pub asset : String
  pub wallet_balance : Decimal
  pub unrealized_profit : Decimal
  pub margin_balance : Decimal
  pub available_balance : Option Decimal
  pub update_time_ms : Option ℕ

pub record AccountSnapshotV3 : Type 0 where
  pub total_wallet_balance : Decimal
  pub total_unrealized_profit : Decimal
  pub total_margin_balance : Decimal
  pub available_balance : Decimal
  pub assets : List AccountAssetSnapshot

pub record ExchangePositionSnapshot : Type 0 where
  pub symbol : String
  pub position_side : String
  pub position_amt : Decimal
  pub entry_price : Option Decimal
  pub mark_price : Option Decimal
  pub unrealized_profit : Decimal
  pub notional : Decimal
  pub isolated_margin : Decimal
  pub update_time_ms : Option ℕ

unfoldable pub is_flat : ExchangePositionSnapshot → Bool
is_flat position = Decimal.eq position.position_amt nought

abbrev pub position_key : ExchangePositionSnapshot → String × String
position_key position = (position.symbol, position.position_side)

pub record ExchangeOrderSnapshot : Type 0 where
  pub client_order_id : String
  pub symbol : String
  pub status : OrderStatus
  pub exchange_order_id : Option String
  pub executed_quantity : Decimal
  pub average_price : Option Decimal
