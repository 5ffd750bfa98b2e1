-- ===== src/Ops/Loop.antt =====
-- The loop that execution/periodic_reconciliation.py and ops/daemon.py both write out. `pause` is
-- what happens outside while the loop sleeps. A loop without a maximum may run on for ever, so it is
-- run on fuel, one iteration each.
pub mod Bounds
use crypto_dual_sleeve_tradi.Base.{
  ℕ, zero, suc, ◌+◌, ◌-◌, ◌*◌, ◌≤◌, ◌<◌, String, ◌≡◌, refl, sym, ap, ◌∙◌, ◌≢◌, ◌↔◌, ◌⊎◌, inl, inr,
  Bool, true, false, not, ◌&&◌, ◌||◌, Option, none, some, List, [], ◌∷◌, ◌++◌, map, arith, ltb, leb,
  ◌==◌, if◌then◌else◌, Bool-cases, Option-cases, length, keep, All,
}
use crypto_dual_sleeve_tradi.Base.Text.{◌^+◌, str_eq, eq_iff}
use crypto_dual_sleeve_tradi.Base.Enum.{is, one_of, value}
use crypto_dual_sleeve_tradi.Base.Result.{Exception, Result, ok, err}
use crypto_dual_sleeve_tradi.Base.Key.{Key, string_key, pair_key}
use crypto_dual_sleeve_tradi.Decimal
use crypto_dual_sleeve_tradi.Base.Dict
use crypto_dual_sleeve_tradi.Base.Dict.{Dict}
use crypto_dual_sleeve_tradi.Decimal.{Decimal, nought}
use crypto_dual_sleeve_tradi.Core.Enums.{
  trading_mode_enum, sleeve_id_enum, order_side_enum, position_side_enum, order_type_enum,
  order_action_enum, order_status_enum, safe_mode_state_enum, circuit_action_enum,
}
use crypto_dual_sleeve_tradi.Base.Exec.{
  Exec, ◌>>=◌, ◌>>◌, raise_when, modify, gets, lift, pure, raise,
}

pub record LoopConfig : Type 0 where
  pub interval_seconds : ℕ
  pub max_iterations : Option ℕ
  pub stop_on_mismatch : Bool

pub data Outcome (R : Type 0) : Type 0 where
  finished : List R → Outcome R
  raised : Exception → Outcome R
  running : Outcome R

-- `max_iterations is not None and iterations >= max_iterations`
abbrev pub reached : Option ℕ → ℕ → Bool
reached none iterations = false
reached (some most) iterations = leb most iterations

abbrev pub results_append : {R : Type 0} → R → Outcome R → Outcome R
results_append r (finished rs) = finished (r ∷ rs)
results_append r (raised e) = raised e
results_append r running = running

module _ {W R : Type 0} (config : LoopConfig) (run_once : ℕ → Exec W R) (consistent : R → Bool)
    (pause : ℕ → W → W) where
  -- the tests behind an iteration, the count being one up already
  abbrev pub stops : ℕ → R → Bool
  stops iterations result =
      (config.stop_on_mismatch && not (consistent result))
      || reached config.max_iterations iterations

  -- the `while` from an iteration on
  unfoldable pub iterate : ℕ → ℕ → W → Outcome R × W
  iterate zero iterations w = (running, w)
  iterate (suc fuel) iterations w = elim (reached config.max_iterations iterations) [
    | true ↦ (finished [], w)
    | false ↦ elim (run_once iterations w).0 [
      | err e ↦ (raised e, (run_once iterations w).1)
      | ok result ↦ elim (stops (suc iterations) result) [
        | true ↦ (finished (result ∷ []), (run_once iterations w).1)
        | false ↦
            let (rest, w') =
              iterate fuel (suc iterations)
                (pause config.interval_seconds (run_once iterations w).1) in
            (results_append result rest, w')
      ]
    ]
  ]

  -- `run`
  unfoldable pub run : ℕ → W → Outcome R × W
  unfolding iterate
  run fuel w = iterate fuel 0 w
