-- ===== src/Ops/Startup.antt =====
-- How the programs of ops/ are put together: build_daemon_runner of ops/daemon.py, ops/smoke.py, and the
-- scan of scripts/run_sleeve_b_auto_scan.py. `connect` makes the state of the adapter that is chosen,
-- and `open_db` stands for the tables that a database file holds.
pub mod Scan
use crypto_dual_sleeve_tradi.Base.{
  ℕ, String, Bool, true, false, not, ◌&&◌, Option, none, some, List, [], ◌∷◌, ◌++◌, length,
}
use crypto_dual_sleeve_tradi.Base.Enum.{is, value}
use crypto_dual_sleeve_tradi.Base.Result.{Result, ok, err}
use crypto_dual_sleeve_tradi.Base.Key.{string_key, pair_key}
use crypto_dual_sleeve_tradi.Base.Dict.{Dict}
use crypto_dual_sleeve_tradi.Decimal.{Decimal}
use crypto_dual_sleeve_tradi.Core.Enums.{
  trading_mode_enum, sleeve_id_enum, order_side_enum, position_side_enum, order_type_enum,
  order_action_enum, order_status_enum, safe_mode_state_enum, circuit_action_enum,
}
use crypto_dual_sleeve_tradi.Strategies.Candidates.{
  SleeveBCandidateBuildResult, build_sleeve_b_candidates, SleeveBMarketData, default_config,
}
use crypto_dual_sleeve_tradi.Ops.Daemon.{Daemon, consistent, DaemonIterationResult, DaemonConfig}
use crypto_dual_sleeve_tradi.Exchange.Factory.{AdapterChoice, build_exchange_adapter}
use crypto_dual_sleeve_tradi.Core.Models.{
  ExchangePositionSnapshot, AccountSnapshotV3, SymbolFilters,
}
use crypto_dual_sleeve_tradi.Strategies.Bars.{OhlcBar}
use crypto_dual_sleeve_tradi.Storage.Orders.{OrderTable}
use crypto_dual_sleeve_tradi.Config.{
  exchange_name_enum, binance_usdm_testnet, has_credentials, RuntimeConfig,
}
use crypto_dual_sleeve_tradi.Storage.Positions.{PositionTable}
use crypto_dual_sleeve_tradi.Execution.SafeMode.{new_controller}
use crypto_dual_sleeve_tradi.Base.Exec.{Exec, ◌>>=◌, lift, pure}

-- `DaemonConfig()`
abbrev pub default_daemon_config : DaemonConfig
default_daemon_config = record {
  loop = record { interval_seconds = 30; max_iterations = none; stop_on_mismatch = true };
  refresh_positions_before_reconcile = false;
}

-- `build_daemon_runner`, without the directory that it makes
unfoldable pub build_daemon_runner :
    {X A : Type 0}
    → (AdapterChoice → X)
    → (String → OrderTable × PositionTable)
    → ℕ
    → RuntimeConfig
    → A
    → Bool
    → Result (Daemon OrderTable PositionTable X A)
unfolding build_exchange_adapter
build_daemon_runner connect open_db now runtime alerts allow_inert_fallback =
    elim (build_exchange_adapter runtime allow_inert_fallback) [
      | err e ↦ err e
      | ok choice ↦
          let (orders, positions) = open_db runtime.state_db_path in
          ok (record {
            orders = orders;
            positions = positions;
            safe = new_controller now;
            exchange = connect choice;
            alerts = alerts;
          })
    ]

-- a value of `daemon_result_to_dict`
pub data Entry : Type 0 where
  flag : Bool → Entry
  message_or_none : Option String → Entry
  ids : List String → Entry
  keys : List (String × String) → Entry

unfoldable pub daemon_result_to_dict : DaemonIterationResult → Dict String Entry
daemon_result_to_dict result =
    ("consistent", flag (consistent result))
    ∷ ("safe_mode_active", flag result.safe_mode_active)
    ∷ ("order_consistent", flag result.order_report.consistent)
    ∷ ("position_consistent", flag result.position_report.consistent)
    ∷ ("order_error", message_or_none result.order_report.error)
    ∷ ("position_error", message_or_none result.position_report.error)
    ∷ ("order_missing_on_exchange", ids result.order_report.missing_on_exchange)
    ∷ ("order_unknown_on_local", ids result.order_report.unknown_on_local)
    ∷ ("position_missing_on_exchange", keys result.position_report.missing_on_exchange)
    ∷ ("position_unknown_on_local", keys result.position_report.unknown_on_local)
    ∷ ("position_amount_mismatches", keys result.position_report.amount_mismatches)
    ∷ []

pub record SmokeResult : Type 0 where
  pub ok_flag : Bool
  pub mode : String
  pub exchange : String
  pub used_real_testnet : Bool
  pub checks : Dict String String

-- the adapter of a smoke run; the two calls that not every adapter has
pub record SmokeAdapter (X : Type 0) : Type 0 where
  pub get_symbol_filters : String → Exec X SymbolFilters
  pub fetch_account : Option (Exec X AccountSnapshotV3)
  pub fetch_positions : Option (Option String → Exec X (List ExchangePositionSnapshot))

module _ {X : Type 0} (decimal_text : Decimal → String) (number_text : ℕ → String) where
  -- `checks["account_total_wallet_balance"]`, if the adapter has the call
  abbrev pub account_check : Option (Exec X AccountSnapshotV3) → Exec X (Dict String String)
  account_check none = pure []
  account_check (some fetch) = do
    account ← fetch
    pure (("account_total_wallet_balance", decimal_text account.total_wallet_balance) ∷ [])

  abbrev pub positions_check :
      String
      → Option (Option String → Exec X (List ExchangePositionSnapshot))
      → Exec X (Dict String String)
  positions_check symbol none = pure []
  positions_check symbol (some fetch) = do
    positions ← fetch (some symbol)
    pure (("positions_count", number_text (length positions)) ∷ [])

  -- `run_testnet_smoke`
  unfoldable pub run_testnet_smoke :
      (AdapterChoice → SmokeAdapter X) → RuntimeConfig → Bool → Exec X SmokeResult
  unfolding build_exchange_adapter
  run_testnet_smoke adapter_of config require_real_testnet = do
    choice ← lift (build_exchange_adapter config (not require_real_testnet))
    let adapter = adapter_of choice
    filters ← adapter.get_symbol_filters config.smoke_symbol
    account ← account_check adapter.fetch_account
    positions ← positions_check config.smoke_symbol adapter.fetch_positions
    pure (record {
      ok_flag = true;
      mode = value config.trading_mode;
      exchange = value config.exchange;
      used_real_testnet = has_credentials config && is config.exchange binance_usdm_testnet;
      checks =
          (("symbol", filters.symbol)
            ∷ ("tick_size", decimal_text filters.tick_size)
            ∷ ("step_size", decimal_text filters.step_size)
            ∷ ("min_notional", decimal_text filters.min_notional)
            ∷ [])
          ++ account
          ++ positions;
    })

-- the limits of the scan
pub record ScanLimits : Type 0 where
  pub daily : ℕ
  pub four_hour : ℕ
  pub one_hour : ℕ

module _ {X : Type 0} (fetch_klines : String → String → ℕ → Exec X (List OhlcBar))
    (lower : String → String) where
  -- `for symbol in symbols: market_data.append(…)`
  unfoldable pub fetch_markets : ScanLimits → List String → Exec X (List SleeveBMarketData)
  fetch_markets limits [] = pure []
  fetch_markets limits (symbol ∷ symbols) = do
    daily_bars ← fetch_klines symbol "1d" limits.daily
    four_hour_bars ← fetch_klines symbol "4h" limits.four_hour
    one_hour_bars ← fetch_klines symbol "1h" limits.one_hour
    markets ← fetch_markets limits symbols
    pure (
        record {
          symbol = symbol;
          daily_bars = daily_bars;
          four_hour_bars = four_hour_bars;
          one_hour_bars = one_hour_bars;
        }
        ∷ markets)

  -- `main`, between the symbols and the print
  unfoldable pub scan : ScanLimits → List String → Exec X (List SleeveBCandidateBuildResult)
  unfolding fetch_markets build_sleeve_b_candidates
  scan limits symbols = do
    markets ← fetch_markets limits symbols
    lift (build_sleeve_b_candidates lower markets default_config)
