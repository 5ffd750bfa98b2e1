-- ===== src/Ops/ReadWriteSmoke.antt =====
-- ops/testnet_read_write_smoke.py: one order on the testnet, asked for and canceled. `now` is the clock
-- up to the order, `later` behind it; `decimal_text` stands for `str` of a decimal.
pub mod Run
pub mod Cancels
pub mod Guard
pub mod Passes
pub mod Submission
use crypto_dual_sleeve_tradi.Base.{
  ℕ, String, Bool, false, not, ◌&&◌, Option, none, some, List, [], ◌∷◌, if◌then◌else◌,
}
use crypto_dual_sleeve_tradi.Base.Text.{◌^+◌, str_eq}
use crypto_dual_sleeve_tradi.Base.Enum.{is, one_of}
use crypto_dual_sleeve_tradi.Base.Result.{smoke_safety_error, Result, ok, err}
use crypto_dual_sleeve_tradi.Base.Key.{string_key, pair_key}
use crypto_dual_sleeve_tradi.Decimal
use crypto_dual_sleeve_tradi.Decimal.{Decimal, nought}
use crypto_dual_sleeve_tradi.Core.Enums.{
  entry, canceled, limit, sell, filled, sleeve_b, buy, exchange_testnet, partially_filled,
  submitted, OrderStatus, OrderSide, trading_mode_enum, sleeve_id_enum, order_side_enum,
  position_side_enum, order_type_enum, order_action_enum, order_status_enum, safe_mode_state_enum,
  circuit_action_enum,
}
use crypto_dual_sleeve_tradi.Exchange.Interfaces.{ExchangeAdapter}
use crypto_dual_sleeve_tradi.Config.{
  exchange_name_enum, has_credentials, binance_usdm_testnet, RuntimeConfig,
}
use crypto_dual_sleeve_tradi.Core.Models.{
  AccountSnapshotV3, ExchangeOrderSnapshot, OrderRecord, OrderIntent, ExchangePositionSnapshot,
}
use crypto_dual_sleeve_tradi.Execution.PositionReconciliation.{PositionExchange}
use crypto_dual_sleeve_tradi.Execution.Router.{route}
use crypto_dual_sleeve_tradi.Execution.SafeMode.{new_controller}
use crypto_dual_sleeve_tradi.Base.Exec.{Exec, ◌>>=◌, ◌>>◌, pure, raise}

-- what the run asks of an exchange
pub record ReadWriteSmokeExchange (X : Type 0) : Type 0 where
  pub adapter : ExchangeAdapter X
  pub positions : PositionExchange X
  pub fetch_account_snapshot : Exec X AccountSnapshotV3
  pub fetch_mark_price : String → Exec X Decimal
  pub query_order : String → String → Exec X (Option ExchangeOrderSnapshot)

pub record TestnetSmokeOrderConfig : Type 0 where
  pub symbol : String
  pub side : OrderSide
  pub quantity : Decimal
  pub limit_price : Decimal
  pub setup_id : String
  pub non_marketable_margin : Decimal
  pub require_non_marketable : Bool

pub record TestnetReadWriteSmokeResult : Type 0 where
  pub symbol : String
  pub client_order_id : String
  pub exchange_order_id : Option String
  pub submitted_status : OrderStatus
  pub queried_status_before_cancel : OrderStatus
  pub queried_status_after_cancel : OrderStatus
  pub order_reconciliation_consistent : Bool
  pub position_reconciliation_consistent : Bool
  pub safe_mode_active : Bool
  pub account_total_wallet_balance : Decimal
  pub position_count : ℕ

-- the property `ok`
unfoldable pub is_ok : TestnetReadWriteSmokeResult → Bool
is_ok result =
    one_of (submitted ∷ partially_filled ∷ filled ∷ []) result.submitted_status
    && is result.queried_status_after_cancel canceled
    && result.order_reconciliation_consistent
    && result.position_reconciliation_consistent
    && not result.safe_mode_active

unfoldable pub validate_runtime : RuntimeConfig → Result (Unit {0})
validate_runtime runtime =
    if not (is runtime.trading_mode exchange_testnet)
    then err (smoke_safety_error "TRADING_MODE must be EXCHANGE_TESTNET")
    else if not (is runtime.exchange binance_usdm_testnet)
    then err (smoke_safety_error "EXCHANGE must be BINANCE_USDM_TESTNET")
    else if not (has_credentials runtime)
    then err (smoke_safety_error "testnet credentials are required")
    else ok tt

-- `_find_position_mark_price`
unfoldable pub find_position_mark_price : String → List ExchangePositionSnapshot → Option Decimal
find_position_mark_price symbol [] = none
find_position_mark_price symbol (position ∷ positions) = elim position.mark_price [
  | none ↦ find_position_mark_price symbol positions
  | some mark ↦
      if str_eq position.symbol symbol then some mark else find_position_mark_price symbol positions
]

module _ (decimal_text : Decimal → String) where
  unfoldable pub validate_non_marketable : TestnetSmokeOrderConfig → Decimal → Result (Unit {0})
  validate_non_marketable config mark_price =
      let margin = config.non_marketable_margin in
      let max_buy_price = Decimal.mul mark_price (Decimal.sub Decimal.one margin) in
      let min_sell_price = Decimal.mul mark_price (Decimal.add Decimal.one margin) in
      if not config.require_non_marketable
      then ok tt
      else if Decimal.le mark_price nought
      then err (smoke_safety_error "positive mark price is required for non-marketable guard")
      else if not (Decimal.lt nought margin && Decimal.lt margin Decimal.one)
      then err (smoke_safety_error "non_marketable_margin must be between 0 and 1")
      else if is config.side buy && Decimal.le max_buy_price config.limit_price
      then err (
          smoke_safety_error (
            "BUY smoke limit price must be below "
            ^+ decimal_text max_buy_price
            ^+ " to avoid marketable order"))
      else if is config.side sell && Decimal.le config.limit_price min_sell_price
      then err (
          smoke_safety_error (
            "SELL smoke limit price must be above "
            ^+ decimal_text min_sell_price
            ^+ " to avoid marketable order"))
      else ok tt

-- the entry that the run places
abbrev pub intent_of : TestnetSmokeOrderConfig → OrderIntent
intent_of config = record {
  sleeve_id = sleeve_b;
  symbol = config.symbol;
  side = config.side;
  order_type = limit;
  action = entry;
  quantity = config.quantity;
  price = some config.limit_price;
  reduce_only = false;
  setup_id = some config.setup_id;
  metadata = ("smoke_test", "PR-010") ∷ [];
}

-- `try: body finally: cleanup`, with what both come to
abbrev pub finally : {X A B : Type 0} → Exec X A → Exec X B → Exec X (A × B)
finally body cleanup x =
    let (tried, x1) = body x in
    let (cleaned, x2) = cleanup x1 in
    elim cleaned [
      | err e ↦ (err e, x2)
      | ok b ↦ elim tried [ err e ↦ (err e, x2) | ok a ↦ (ok (a, b), x2) ]
    ]

module _ {X : Type 0} (exchange : ReadWriteSmokeExchange X) where
  unfoldable pub resolve_mark_price : String → List ExchangePositionSnapshot → Exec X Decimal
  unfolding find_position_mark_price
  resolve_mark_price symbol positions = elim (find_position_mark_price symbol positions) [
    | none ↦ exchange.fetch_mark_price symbol
    | some mark ↦ if Decimal.lt nought mark then pure mark else exchange.fetch_mark_price symbol
  ]

  -- the route of the entry, up to its test
  unfoldable pub place : ℕ → TestnetSmokeOrderConfig → Exec X OrderRecord
  place now config = do
    result ← route exchange.adapter exchange_testnet (new_controller now) now (intent_of config)
    elim result.order [
      | none ↦ raise (smoke_safety_error ("testnet smoke order rejected: " ^+ result.reason))
      | some order ↦
          if result.accepted
          then pure order
          else raise (smoke_safety_error ("testnet smoke order rejected: " ^+ result.reason))
    ]

  -- the `finally` of an order that was placed
  unfoldable pub clean_up : String → OrderRecord → Exec X (Option ExchangeOrderSnapshot)
  clean_up symbol order = do
    exchange.adapter.cancel_order order.client_order_id symbol
    exchange.query_order symbol order.client_order_id

  -- from the order on to the queries before and after its cancellation
  unfoldable pub live :
      String → OrderRecord → Exec X (Option ExchangeOrderSnapshot × Option ExchangeOrderSnapshot)
  unfolding clean_up
  live symbol order =
      finally (exchange.query_order symbol order.client_order_id) (clean_up symbol order)
