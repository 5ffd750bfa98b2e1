-- ===== src/Ops/Alerts.antt =====
-- ops/alerts.py: where alerts go, and the texts of `bool` and of an optional text in an f-string.
use crypto_dual_sleeve_tradi.Base.{
  String, Bool, true, false, Option, none, some, List, [], ◌∷◌, ◌++◌,
}
use crypto_dual_sleeve_tradi.Base.Text.{◌^+◌}
use crypto_dual_sleeve_tradi.Base.Key.{string_key, pair_key}
use crypto_dual_sleeve_tradi.Core.Enums.{
  trading_mode_enum, sleeve_id_enum, order_side_enum, position_side_enum, order_type_enum,
  order_action_enum, order_status_enum, safe_mode_state_enum, circuit_action_enum,
}

-- `send` of a sink that keeps a state, such as what was printed
pub record AlertSink (A : Type 0) : Type 0 where
  pub send : String → A → A

-- `ConsoleAlertSink`, with the lines that it has printed
abbrev pub console : String → AlertSink (List String)
console prefix = record { send = λ text lines. lines ++ (prefix ^+ " " ^+ text) ∷ [] }

abbrev pub bool_text : Bool → String
bool_text true = "True"
bool_text false = "False"

abbrev pub optional_text : Option String → String
optional_text none = "None"
optional_text (some s) = s
