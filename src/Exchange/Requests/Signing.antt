-- ===== src/Exchange/Requests/Signing.antt =====
-- The signature of the requests in exchange/binance_rest.py.
use crypto_dual_sleeve_tradi.Base.{
  false, true, if◌then◌else◌, Bool, Option, String, ◌≡◌, refl, ap, some, [], ◌∷◌, arith,
}
use crypto_dual_sleeve_tradi.Base.Text.{str_eq, eq_iff}
use crypto_dual_sleeve_tradi.Base.Key.{string_key, pair_key}
use crypto_dual_sleeve_tradi.Base.Dict
use crypto_dual_sleeve_tradi.Base.Dict.{Dict}
use crypto_dual_sleeve_tradi.Exchange.Requests.{
  Adapter, sign_params, signed_params, Platform, setdefault, unsigned,
}
use mathlib.Core.Option.{none}
use crypto_dual_sleeve_tradi.Core.Enums.{
  trading_mode_enum, sleeve_id_enum, order_side_enum, position_side_enum, order_type_enum,
  order_action_enum, order_status_enum, safe_mode_state_enum, circuit_action_enum,
}

unsigned-signed :
    (v : String) (params : Dict String String)
    → unsigned (Dict.insert "signature" v params) ≡ unsigned params
unfolding Dict.insert
unsigned-signed v [] = refl
unsigned-signed v ((key, w) ∷ params) =
    ground (arith, unsigned-signed v params, eq_iff "signature" key, eq_iff key "signature")

-- what a parameter is once it has a default
abbrev defaulted : Option String → Bool → String → Option String
defaulted (some w) is_key v = some w
defaulted none is_key v = if is_key then some v else none

lookup-setdefault :
    (key other v : String) (params : Dict String String)
    → Dict.lookup key (setdefault other v params)
      ≡ defaulted (Dict.lookup key params) (str_eq key other) v
lookup-setdefault key other v params =
    ground (arith, Dict.lookup-insert key other v params, eq_iff key other)

-- a key is not both of the names that have a default
not_both : (key : String) → str_eq key "timestamp" ≡ true → str_eq key "recvWindow" ≡ false
not_both key h = let is : key ≡ "timestamp" = (eq_iff _ _).0 h in rw is refl

module _ {W : Type 0} (platform : Platform W) where
  -- What a signed request carries under a key.
  abbrev pub carried : Adapter W → Dict String String → String → Option String
  carried adapter params key =
      let sent = signed_params platform adapter params in
      let time = platform.number_text (platform.clock adapter.world) in
      let window = platform.number_text adapter.recv_window in
      if str_eq key "signature"
      then some (sign_params platform sent adapter.credentials.api_secret)
      else elim (Dict.lookup key params) [
        | some given ↦ some given
        | none ↦
            if str_eq key "timestamp"
            then some time
            else if str_eq key "recvWindow"
            then some window
            else none
      ]

  -- A signed request, with or without parameters of its own, carries exactly this: as signature the
  -- one that its own parameters ask for, the digest of all others under the secret, whatever the call
  -- gave as signature; every other parameter that the call gave, as it was; and, where the call gave none,
  -- the time and the window of the adapter.
  pub signed_params_lem :
      (adapter : Adapter W) (params : Dict String String) (key : String)
      → Dict.lookup key (signed_params platform adapter params) ≡ carried adapter params key
  unfolding signed_params sign_params
  signed_params_lem adapter params key =
      let window = platform.number_text adapter.recv_window in
      let time = platform.number_text (platform.clock adapter.world) in
      let windowed = setdefault "recvWindow" window params in
      let stamped = setdefault "timestamp" time windowed in
      let signature = sign_params platform stamped adapter.credentials.api_secret in
      let same : sign_params platform (Dict.insert "signature" signature stamped)
            adapter.credentials.api_secret
          ≡ signature =
        ap (λ u. platform.digest adapter.credentials.api_secret (platform.urlencode u))
          (unsigned-signed signature stamped) in
      ground (
        arith,
        same,
        not_both key,
        eq_iff key "timestamp",
        eq_iff key "recvWindow",
        Dict.lookup-insert key "signature" signature stamped,
        lookup-setdefault key "timestamp" time windowed,
        lookup-setdefault key "recvWindow" window params,
      )
