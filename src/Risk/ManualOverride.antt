-- ===== src/Risk/ManualOverride.antt =====
-- risk/manual_override.py: pauses by hand. A set of texts is a list without repetition.
use crypto_dual_sleeve_tradi.Base.{
  any, ℕ, String, ◌≡◌, Bool, true, ◌||◌, Option, some, List, [], ◌∷◌, arith, if◌then◌else◌,
}
use crypto_dual_sleeve_tradi.Base.Text.{str_eq, eq_iff}
use crypto_dual_sleeve_tradi.Base.Key.{string_key, pair_key}
use crypto_dual_sleeve_tradi.Base.Dict
use crypto_dual_sleeve_tradi.Base.Dict.{Dict}
use crypto_dual_sleeve_tradi.Core.Enums.{
  trading_mode_enum, sleeve_id_enum, order_side_enum, position_side_enum, order_type_enum,
  order_action_enum, order_status_enum, safe_mode_state_enum, circuit_action_enum,
}

pub record ManualOverrideState : Type 0 where
  pub pause_all : Bool
  pub paused_sleeves : List String
  pub paused_symbols : List String
  pub safe_mode_forced : Bool
  pub updated_at : ℕ
  pub reason : Option String

unfoldable pub should_block_symbol : String → String → ManualOverrideState → Bool
should_block_symbol symbol sleeve_id s =
    s.pause_all || Dict.member sleeve_id s.paused_sleeves || Dict.member symbol s.paused_symbols

-- `texts.add(text)`
abbrev pub add_text : String → List String → List String
add_text text texts = if Dict.member text texts then texts else text ∷ texts

pub data Pause : Type 0 where
  everything : Pause
  sleeve symbol : String → Pause

-- `pause_everything`, `pause_sleeve` and `pause_symbol`
unfoldable pub pause : ℕ → String → Pause → ManualOverrideState → ManualOverrideState
pause now reason everything s = record s {
  pause_all = true;
  reason = some reason;
  updated_at = now;
}
pause now reason (sleeve id) s = record s {
  paused_sleeves = add_text id s.paused_sleeves;
  reason = some reason;
  updated_at = now;
}
pause now reason (symbol name) s = record s {
  paused_symbols = add_text name s.paused_symbols;
  reason = some reason;
  updated_at = now;
}

unfoldable pub pauses : List (ℕ × String × Pause) → ManualOverrideState → ManualOverrideState
unfolding pause
pauses [] s = s
pauses ((now, reason, p) ∷ ps) s = pauses ps (pause now reason p s)

-- whether a pause is about a symbol of a sleeve
abbrev pub covers : String → String → Pause → Bool
covers name sleeve_id everything = true
covers name sleeve_id (sleeve id) = str_eq sleeve_id id
covers name sleeve_id (symbol other) = str_eq name other

pause_blocks :
    (now : ℕ) (reason : String) (p : Pause) (name sleeve_id : String) (s : ManualOverrideState)
    → should_block_symbol name sleeve_id (pause now reason p s)
      ≡ (should_block_symbol name sleeve_id s || covers name sleeve_id p)
unfolding should_block_symbol pause Dict.member
pause_blocks now reason everything name sleeve_id s = ground arith
pause_blocks now reason (sleeve id) name sleeve_id s = ground (arith, eq_iff sleeve_id id)
pause_blocks now reason (symbol other) name sleeve_id s = ground (arith, eq_iff name other)

-- After any sequence of pauses a symbol of a sleeve is blocked exactly if it was before or one of the
-- pauses covers it: no pause ever lifts another.
pub pauses_block :
    (ps : List (ℕ × String × Pause)) (name sleeve_id : String) (s : ManualOverrideState)
    → should_block_symbol name sleeve_id (pauses ps s)
      ≡ (should_block_symbol name sleeve_id s || any (λ step. covers name sleeve_id step.2) ps)
unfolding pauses
pauses_block [] name sleeve_id s = ground arith
pauses_block ((now, reason, p) ∷ ps) name sleeve_id s = ground (
  arith,
  pauses_block ps name sleeve_id (pause now reason p s),
  pause_blocks now reason p name sleeve_id s,
)
