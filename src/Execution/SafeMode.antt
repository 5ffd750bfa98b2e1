-- ===== src/Execution/SafeMode.antt =====
-- execution/safe_mode.py: the switch that blocks new entries.
use mathlib.Core.List.{append-nil, append_assoc}
use crypto_dual_sleeve_tradi.Base.{
  ℕ, suc, String, ◌≡◌, refl, sym, ap, ◌∙◌, Bool, true, false, List, [], ◌∷◌, ◌++◌, length,
}
use crypto_dual_sleeve_tradi.Base.Text.{◌^+◌}
use crypto_dual_sleeve_tradi.Base.Enum.{is}
use crypto_dual_sleeve_tradi.Base.Key.{string_key, pair_key}
use crypto_dual_sleeve_tradi.Core.Enums.{
  safe_mode, normal, SafeModeState, trading_mode_enum, sleeve_id_enum, order_side_enum,
  position_side_enum, order_type_enum, order_action_enum, order_status_enum, safe_mode_state_enum,
  circuit_action_enum,
}

pub record SafeModeController : Type 0 where
  pub state : SafeModeState
  pub reasons : List String
  pub updated_at : ℕ

-- `SafeModeController()` at the time `now`
abbrev pub new_controller : ℕ → SafeModeController
new_controller now = record { state = normal; reasons = []; updated_at = now }

unfoldable pub enter : ℕ → String → SafeModeController → SafeModeController
enter now reason c = record c {
  state = safe_mode;
  reasons = c.reasons ++ reason ∷ [];
  updated_at = now;
}

unfoldable pub exit : ℕ → String → SafeModeController → SafeModeController
exit now reason c = record c {
  state = normal;
  reasons = c.reasons ++ ("EXIT: " ^+ reason) ∷ [];
  updated_at = now;
}

unfoldable pub allows_new_entries : SafeModeController → Bool
allows_new_entries c = is c.state normal

-- A call on the controller.
pub data Call : Type 0 where
  enters : ℕ → String → Call
  exits : ℕ → String → Call

unfoldable pub call : Call → SafeModeController → SafeModeController
unfolding enter exit
call (enters now reason) c = enter now reason c
call (exits now reason) c = exit now reason c

unfoldable pub calls : List Call → SafeModeController → SafeModeController
unfolding call
calls [] c = c
calls (x ∷ xs) c = calls xs (call x c)

-- whether the last call, if there is one, is an `exit`
abbrev pub last_exits : Bool → List Call → Bool
last_exits allowed [] = allowed
last_exits allowed (enters now reason ∷ xs) = last_exits false xs
last_exits allowed (exits now reason ∷ xs) = last_exits true xs

-- Entries are allowed exactly when the last call was an `exit`, or when there was none and they
-- were allowed before; and the reasons are never forgotten: each call adds one behind the old ones.
pub calls_lem :
    (xs : List Call) (c : SafeModeController)
    → (allows_new_entries (calls xs c) ≡ last_exits (allows_new_entries c) xs)
      × ((later : List String) × ((calls xs c).reasons ≡ c.reasons ++ later)
          × (length later ≡ length xs))
unfolding calls allows_new_entries
calls_lem [] c = (refl, ([], sym (append-nil c.reasons), refl))
calls_lem (enters now reason ∷ xs) c =
    let (allowed, (later, eqn, len)) = calls_lem xs (enter now reason c) in
    (allowed, (reason ∷ later, eqn ∙ append_assoc c.reasons (reason ∷ []) later, ap suc len))
calls_lem (exits now reason ∷ xs) c =
    let (allowed, (later, eqn, len)) = calls_lem xs (exit now reason c) in
    (
      allowed,
      (
        ("EXIT: " ^+ reason) ∷ later,
        eqn ∙ append_assoc c.reasons (("EXIT: " ^+ reason) ∷ []) later,
        ap suc len,
      ),
    )
