-- ===== src/Exchange/Payloads.antt =====
-- The payloads of exchange/binance_rest.py, as `response.json()` gives them, and what the parsers read
-- off them with `dict.get`, `str` and the truth of a value.
use crypto_dual_sleeve_tradi.Base.{
  ℕ, String, Bool, true, false, not, ◌||◌, Option, none, some, List, [], ◌∷◌, if◌then◌else◌,
}
use crypto_dual_sleeve_tradi.Base.Text.{str_eq}
use crypto_dual_sleeve_tradi.Base.Enum.{value}
use crypto_dual_sleeve_tradi.Base.Result.{Result, ok, err}
use crypto_dual_sleeve_tradi.Base.Key.{string_key, pair_key}
use crypto_dual_sleeve_tradi.Decimal.{Decimal}
use crypto_dual_sleeve_tradi.Core.Enums.{
  trading_mode_enum, sleeve_id_enum, order_side_enum, position_side_enum, order_type_enum,
  order_action_enum, order_status_enum, safe_mode_state_enum, circuit_action_enum,
}

-- A number is its text: what `str` makes of the `int` or `float`.
mutual
  pub data Json : Type 0 where
    null : Json
    boolean : Bool → Json
    number : String → Json
    text : String → Json
    array : Items → Json
    object : Fields → Json

  pub data Items : Type 0 where
    nil : Items
    cons : Json → Items → Items

  pub data Fields : Type 0 where
    end : Fields
    field : String → Json → Fields → Fields

-- the standard library: `str` of a list or a dictionary, `Decimal` of a text, `int` of a value
pub record Reader : Type 0 where
  pub repr : Json → String
  pub decimal : String → Result Decimal
  pub integer : Json → Result ℕ

-- the items that `for item in payload` goes through
abbrev pub listed : Items → List Json
listed nil = []
listed (cons item items) = item ∷ listed items

-- `payload.get(key, default)`
unfoldable pub get_default : Fields → String → Json → Json
get_default end key default = default
get_default (field k v fields) key default =
    let rest = get_default fields key default in if str_eq key k then v else rest

-- `payload.get(key)`: `None` also where the key is missing
abbrev pub get : Fields → String → Json
get fields key = get_default fields key null

abbrev pub is_none : Json → Bool
is_none null = true
is_none _ = false

-- `bool(value)`
abbrev pub truthy : Json → Bool
truthy null = false
truthy (boolean b) = b
truthy (number t) = not (str_eq t "0" || str_eq t "0.0" || str_eq t "-0.0")
truthy (text t) = not (str_eq t "")
truthy (array nil) = false
truthy (array (cons _ _)) = true
truthy (object end) = false
truthy (object (field _ _ _)) = true

-- `value in (None, "0", "0.0", "0.00000")`
abbrev pub no_price : Json → Bool
no_price null = true
no_price (text t) = str_eq t "0" || str_eq t "0.0" || str_eq t "0.00000"
no_price _ = false

-- the items that are dictionaries
abbrev pub objects : List Json → List Fields
objects [] = []
objects (object fields ∷ items) = fields ∷ objects items
objects (_ ∷ items) = objects items

module _ (reader : Reader) where
  -- `str(value)`
  abbrev pub str : Json → String
  str null = "None"
  str (boolean true) = "True"
  str (boolean false) = "False"
  str (number t) = t
  str (text t) = t
  str value = reader.repr value

  -- `Decimal(str(value))`
  abbrev pub to_decimal : Json → Result Decimal
  to_decimal value = reader.decimal (str value)

  -- `Decimal(str(payload.get(key, default)))`
  abbrev pub decimal_field : Fields → String → String → Result Decimal
  decimal_field fields key default = to_decimal (get_default fields key (text default))

  -- `f(payload[key]) if payload.get(key) is not None else None`
  abbrev pub optional : {A : Type 0} → (Json → Result A) → Json → Result (Option A)
  optional f value =
      if is_none value then ok none else elim (f value) [ err e ↦ err e | ok a ↦ ok (some a) ]
