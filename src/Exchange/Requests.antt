-- ===== src/Exchange/Requests.antt =====
-- The requests of exchange/binance_rest.py. The network, the clock, the texts of numbers, the encoding
-- of a query and the keyed digest are not under src/ and are a parameter.
pub mod Signing
use crypto_dual_sleeve_tradi.Base.{
  ℕ, String, Bool, not, none, some, [], ◌∷◌, leb, if◌then◌else◌, keep,
}
use crypto_dual_sleeve_tradi.Base.Text.{◌^+◌, str_eq}
use crypto_dual_sleeve_tradi.Base.Result.{binance_api_error, Result, ok, err}
use crypto_dual_sleeve_tradi.Base.Key.{string_key, pair_key}
use crypto_dual_sleeve_tradi.Base.Dict
use crypto_dual_sleeve_tradi.Base.Dict.{Dict}
use crypto_dual_sleeve_tradi.Decimal.{Decimal}
use crypto_dual_sleeve_tradi.Exchange.Payloads.{Json, Reader}
use crypto_dual_sleeve_tradi.Exchange.Factory.{BinanceCredentials}
use crypto_dual_sleeve_tradi.Base.Exec.{Exec}
use crypto_dual_sleeve_tradi.Core.Models.{SymbolFilters}
use crypto_dual_sleeve_tradi.Core.Enums.{
  trading_mode_enum, sleeve_id_enum, order_side_enum, position_side_enum, order_type_enum,
  order_action_enum, order_status_enum, safe_mode_state_enum, circuit_action_enum,
}

-- what the adapter uses of other packages
pub record Platform (W : Type 0) : Type 0 where
  pub reader : Reader
  -- `format(d, "f")`, and `str` of a whole number
  pub decimal_text : Decimal → String
  pub number_text : ℕ → String
  -- `urlencode` of the parameters, and the HMAC of a text under a key
  pub urlencode : Dict String String → String
  pub digest : String → String → String
  -- `client.request`: method, address, parameters and headers, to a status code, a text and the value
  -- of `response.json()`
  pub send :
      String
      → String
      → Dict String String
      → Dict String String
      → Exec W (ℕ × (String × Result Json))
  -- `int(time.time() * 1000)`
  pub clock : W → ℕ

pub record Adapter (W : Type 0) : Type 0 where
  pub credentials : BinanceCredentials
  pub base_url : String
  pub recv_window : ℕ
  pub filters_cache : Dict String SymbolFilters
  pub world : W

-- `params.setdefault(key, value)`
abbrev pub setdefault : String → String → Dict String String → Dict String String
setdefault key v params = elim (Dict.lookup key params) [
  | some _ ↦ params
  | none ↦ Dict.insert key v params
]

-- `{key: value for … if key != "signature"}`
abbrev pub unsigned : Dict String String → Dict String String
unsigned params = keep (λ p. not (str_eq p.0 "signature")) params

module _ {W : Type 0} (platform : Platform W) where
  unfoldable pub sign_params : Dict String String → String → String
  sign_params params api_secret = platform.digest api_secret (platform.urlencode (unsigned params))

  -- the parameters of a signed request
  unfoldable pub signed_params : Adapter W → Dict String String → Dict String String
  unfolding sign_params
  signed_params adapter params =
      let stamped =
        setdefault "timestamp" (platform.number_text (platform.clock adapter.world))
          (setdefault "recvWindow" (platform.number_text adapter.recv_window) params) in
      Dict.insert "signature" (sign_params stamped adapter.credentials.api_secret) stamped

  -- the test of the status code
  abbrev pub answer_of : ℕ × (String × Result Json) → Result Json
  answer_of (status_code, (body, payload)) =
      if leb 400 status_code
      then err (
          binance_api_error
            ("Binance API error " ^+ platform.number_text status_code ^+ ": " ^+ body))
      else payload

  -- `_request`
  unfoldable pub request : String → String → Dict String String → Bool → Exec (Adapter W) Json
  unfolding signed_params
  request method path params signed adapter =
      let request_params = if signed then signed_params adapter params else params in
      let headers = if signed then (("X-MBX-APIKEY", adapter.credentials.api_key) ∷ []) else [] in
      let (response, world) =
        platform.send method (adapter.base_url ^+ path) request_params headers adapter.world in
      elim response [
        | err e ↦ (err e, record adapter { world = world })
        | ok answer ↦ (answer_of answer, record adapter { world = world })
      ]
