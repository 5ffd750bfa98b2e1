-- ===== src/Config.antt =====
-- config/runtime.py: the configuration of a run. `env` is the environment behind `load_dotenv`.
use crypto_dual_sleeve_tradi.Base.{
  ℕ, String, ◌≡◌, ◌↔◌, Bool, true, false, not, ◌&&◌, Option, none, some, [], ◌∷◌, arith, ◌==◌,
  if◌then◌else◌,
}
use crypto_dual_sleeve_tradi.Base.Text.{str_eq}
use crypto_dual_sleeve_tradi.Base.Enum.{of_value, Enum}
use crypto_dual_sleeve_tradi.Base.Result.{Result, ok}
use crypto_dual_sleeve_tradi.Base.Key.{string_key, pair_key}
use crypto_dual_sleeve_tradi.Core.Enums.{
  TradingMode, trading_mode_enum, sleeve_id_enum, order_side_enum, position_side_enum,
  order_type_enum, order_action_enum, order_status_enum, safe_mode_state_enum, circuit_action_enum,
}
use crypto_dual_sleeve_tradi.Base.Result.{◌>>=◌}

pub data ExchangeName : Type 0 where
  binance_usdm_testnet inert_testnet : ExchangeName

abbrev exchange_name_rank : ExchangeName → ℕ
exchange_name_rank binance_usdm_testnet = 0
exchange_name_rank inert_testnet = 1

abbrev exchange_name_value : ExchangeName → String
exchange_name_value binance_usdm_testnet = "BINANCE_USDM_TESTNET"
exchange_name_value inert_testnet = "INERT_TESTNET"

pub exchange_name_same :
    (x y : ExchangeName) → ((exchange_name_rank x == exchange_name_rank y) ≡ true) ↔ (x ≡ y)
exchange_name_same x y = ground arith

instance abbrev pub exchange_name_enum : Enum ExchangeName
exchange_name_enum = record {
  rank = exchange_name_rank;
  value = exchange_name_value;
  members = binance_usdm_testnet ∷ inert_testnet ∷ [];
  same = exchange_name_same;
}

pub record RuntimeConfig : Type 0 where
  pub trading_mode : TradingMode
  pub exchange : ExchangeName
  pub api_key : Option String
  pub api_secret : Option String
  pub smoke_symbol : String
  pub state_db_path : String

-- `bool(s)` of a text or `None`
abbrev pub given : Option String → Bool
given none = false
given (some s) = not (str_eq s "")

unfoldable pub has_credentials : RuntimeConfig → Bool
has_credentials config = given config.api_key && given config.api_secret

-- `os.getenv(name, default)`
abbrev pub getenv : (String → Option String) → String → String → String
getenv env name default = elim (env name) [ none ↦ default | some s ↦ s ]

-- `os.getenv(name) or None`
abbrev pub getenv_or_none : (String → Option String) → String → Option String
getenv_or_none env name = elim (env name) [
  | none ↦ none
  | some s ↦ if str_eq s "" then none else some s
]

unfoldable pub load_runtime_config : (String → Option String) → Result RuntimeConfig
load_runtime_config env = do
  trading_mode ← of_value (getenv env "TRADING_MODE" "SIGNAL_ONLY")
  exchange ← of_value (getenv env "EXCHANGE" "INERT_TESTNET")
  ok (record {
    trading_mode = trading_mode;
    exchange = exchange;
    api_key = getenv_or_none env "BINANCE_API_KEY";
    api_secret = getenv_or_none env "BINANCE_API_SECRET";
    smoke_symbol = getenv env "SMOKE_SYMBOL" "BTCUSDT";
    state_db_path = getenv env "STATE_DB_PATH" "local_state.sqlite3";
  })
