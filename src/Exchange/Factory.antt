-- ===== src/Exchange/Factory.antt =====
-- exchange/factory.py: which adapter a configuration asks for.
use crypto_dual_sleeve_tradi.Base.{
  String, ◌≡◌, ◌⊎◌, Bool, true, false, ◌||◌, Option, none, some, arith, if◌then◌else◌,
}
use crypto_dual_sleeve_tradi.Base.Text.{◌^+◌, str_eq}
use crypto_dual_sleeve_tradi.Base.Enum.{is, value}
use crypto_dual_sleeve_tradi.Base.Result.{missing_testnet_credentials, value_error, Result, ok, err}
use crypto_dual_sleeve_tradi.Base.Key.{string_key, pair_key}
use crypto_dual_sleeve_tradi.Config.{
  exchange_name_enum, binance_usdm_testnet, inert_testnet, has_credentials, RuntimeConfig,
}
use crypto_dual_sleeve_tradi.Core.Enums.{
  trading_mode_enum, sleeve_id_enum, order_side_enum, position_side_enum, order_type_enum,
  order_action_enum, order_status_enum, safe_mode_state_enum, circuit_action_enum,
}

pub record BinanceCredentials : Type 0 where
  pub api_key : String
  pub api_secret : String

-- the adapter that is built
pub data AdapterChoice : Type 0 where
  inert : AdapterChoice
  rest : BinanceCredentials → AdapterChoice

-- `s or ""`
abbrev pub or_empty : Option String → String
or_empty none = ""
or_empty (some s) = s

-- the test of `BinanceFuturesTestnetRestAdapter.__init__`
unfoldable pub new_rest_adapter : BinanceCredentials → Result AdapterChoice
new_rest_adapter credentials =
    if str_eq credentials.api_key "" || str_eq credentials.api_secret ""
    then err (value_error "testnet credentials are required")
    else ok (rest credentials)

unfoldable pub build_exchange_adapter : RuntimeConfig → Bool → Result AdapterChoice
unfolding new_rest_adapter
build_exchange_adapter config allow_inert_fallback =
    if is config.exchange inert_testnet
    then ok inert
    else if is config.exchange binance_usdm_testnet
    then (if has_credentials config
        then new_rest_adapter
            (record { api_key = or_empty config.api_key; api_secret = or_empty config.api_secret })
        else if allow_inert_fallback
        then ok inert
        else err (missing_testnet_credentials "testnet credentials are required"))
    else err (value_error ("Unsupported exchange: " ^+ value config.exchange))

-- what the factory makes of a configuration, with or without the fallback
abbrev pub Built : RuntimeConfig → Bool → Type 0
Built config fallback =
    ((build_exchange_adapter config fallback ≡ ok inert)
      × ((config.exchange ≡ inert_testnet)
          ⊎ ((fallback ≡ true) × (has_credentials config ≡ false))))
    ⊎ ((build_exchange_adapter config fallback
          ≡ ok (
              rest (record {
                api_key = or_empty config.api_key;
                api_secret = or_empty config.api_secret;
              })))
        × (config.exchange ≡ binance_usdm_testnet)
        × (config.api_key ≡ some (or_empty config.api_key))
        × (config.api_secret ≡ some (or_empty config.api_secret)))
    ⊎ ((build_exchange_adapter config fallback
          ≡ err (missing_testnet_credentials "testnet credentials are required"))
        × (config.exchange ≡ binance_usdm_testnet)
        × (fallback ≡ false)
        × (has_credentials config ≡ false))

-- The factory builds the inert stand-in for a configuration that names it, or, with the fallback, for a
-- testnet without both credentials. It builds the adapter of the testnet, with both credentials, only
-- for a configuration that names the testnet and has them. Else it raises: the testnet is named, a
-- credential is missing and there is no fallback.
pub build_exchange_adapter_lem : (config : RuntimeConfig) (fallback : Bool) → Built config fallback
unfolding build_exchange_adapter has_credentials
build_exchange_adapter_lem config fallback = ground arith
