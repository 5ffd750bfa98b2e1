-- ===== src/Base/Result.antt =====
-- Python's exceptions as values. A call that may raise returns a `Result`; a constructor is an
-- exception class that the program raises or meets, with its message.
use Prim.Native.String.{String}
use mathlib.Core.Path.{◌≡◌, refl}
use mathlib.Core.Logic.{◌⊎◌, inl, inr}
use crypto_dual_sleeve_tradi.Base.Tests.{if◌then◌else◌}
use mathlib.Core.Bool.{Bool}

pub data Exception : Type 0 where
  value_error : String → Exception
  key_error : String → Exception
  index_error : String → Exception
  division_by_zero : String → Exception
  invalid_operation : String → Exception
  exchange_filter_error : String → Exception
  invalid_order_transition : String → Exception
  live_trading_disabled : String → Exception
  binance_api_error : String → Exception
  smoke_safety_error : String → Exception
  missing_testnet_credentials : String → Exception
  type_error : String → Exception
  attribute_error : String → Exception

-- `str(exc)`
pub message : Exception → String
message (value_error s) = s
message (key_error s) = s
message (index_error s) = s
message (division_by_zero s) = s
message (invalid_operation s) = s
message (exchange_filter_error s) = s
message (invalid_order_transition s) = s
message (live_trading_disabled s) = s
message (binance_api_error s) = s
message (smoke_safety_error s) = s
message (missing_testnet_credentials s) = s
message (type_error s) = s
message (attribute_error s) = s

-- what a call that may raise comes back with
pub data Result {ℓ} (Value : Type ℓ) : Type ℓ where
  ok : Value → Result Value
  err : Exception → Result Value

pub Result-cases {ℓ} :
    {A : Type ℓ} (r : Result A) → ((a : A) × (r ≡ ok a)) ⊎ ((e : Exception) × (r ≡ err e))
Result-cases (ok a) = inl (a, refl)
Result-cases (err e) = inr (e, refl)

-- `if c: raise exc`
abbrev pub raise_if : Bool → Exception → Result (Unit {0})
raise_if c exc = if c then err exc else ok tt

-- a call, and the code behind it
infixl 5 ◌>>=◌ ◌>>◌
abbrev pub ◌>>=◌ {ℓ κ} : {V : Type ℓ} {W : Type κ} → Result V → (V → Result W) → Result W
called >>= behind = elim called [ ok v ↦ behind v | err exc ↦ err exc ]

abbrev pub ◌>>◌ {ℓ κ} : {V : Type ℓ} {W : Type κ} → Result V → Result W → Result W
called >> behind = called >>= λ _. behind
