-- ===== src/Risk/CircuitBreakers.antt =====
-- risk/circuit_breakers.py: what losses stop.
use crypto_dual_sleeve_tradi.Risk.Sleeves.{sleeve_key}
use crypto_dual_sleeve_tradi.Base.{
  String, ◌≡◌, refl, Bool, true, false, not, ◌&&◌, ◌||◌, Option, none, some, List, [], ◌∷◌, ◌++◌,
  arith,
}
use crypto_dual_sleeve_tradi.Base.Enum.{is}
use crypto_dual_sleeve_tradi.Base.Key.{string_key, pair_key}
use crypto_dual_sleeve_tradi.Decimal
use crypto_dual_sleeve_tradi.Base.Dict
use crypto_dual_sleeve_tradi.Base.Dict.{Dict}
use crypto_dual_sleeve_tradi.Decimal.{Decimal, nought}
use crypto_dual_sleeve_tradi.Execution.Diff.{is_empty}
use crypto_dual_sleeve_tradi.Core.Models.{AccountSnapshot, SleeveLedgerSnapshot}
use crypto_dual_sleeve_tradi.Core.Enums.{
  sleeve_b, exit_only, sleeve_a, flatten_a_reduce_only, block_new_entries, cancel_entries, SleeveId,
  CircuitAction, trading_mode_enum, sleeve_id_enum, order_side_enum, position_side_enum,
  order_type_enum, order_action_enum, order_status_enum, safe_mode_state_enum, circuit_action_enum,
}

pub record CircuitBreakerConfig : Type 0 where
  pub global_daily_loss_stop : Decimal
  pub sleeve_a_daily_loss_stop : Decimal
  pub sleeve_a_monthly_loss_stop : Decimal
  pub sleeve_b_weekly_loss_stop : Decimal

pub record CircuitDecision : Type 0 where
  pub global_actions : List CircuitAction
  pub sleeve_actions : Dict SleeveId (List CircuitAction)
  pub reasons : List String

-- `global_stop`
abbrev pub global_stop : CircuitDecision → Bool
global_stop decision = not (is_empty decision.global_actions)

abbrev pub stopped : SleeveId → CircuitDecision → Bool
stopped sleeve_id decision = Dict.is_some (Dict.lookup sleeve_id decision.sleeve_actions)

abbrev or_empty : Option (List CircuitAction) → List CircuitAction
or_empty none = []
or_empty (some actions) = actions

-- `if c: sleeve_actions.setdefault(sleeve_id, []).extend([…])` and `reasons.append(reason)`
unfoldable pub stop_sleeve : Bool → SleeveId → String → CircuitDecision → CircuitDecision
stop_sleeve false sleeve_id reason decision = decision
stop_sleeve true sleeve_id reason decision = record decision {
  sleeve_actions =
      Dict.insert sleeve_id
        (or_empty (Dict.lookup sleeve_id decision.sleeve_actions)
          ++ block_new_entries ∷ exit_only ∷ [])
        decision.sleeve_actions;
  reasons = decision.reasons ++ reason ∷ [];
}

unfoldable pub stop_all : Bool → CircuitDecision
stop_all false = record { global_actions = []; sleeve_actions = []; reasons = [] }
stop_all true = record {
  global_actions = cancel_entries ∷ flatten_a_reduce_only ∷ block_new_entries ∷ [];
  sleeve_actions = [];
  reasons = "GLOBAL_DAILY_LOSS_STOP" ∷ [];
}

abbrev pub daily_loss : Decimal → Option SleeveLedgerSnapshot → Bool
daily_loss limit none = false
daily_loss limit (some sleeve) = Decimal.le sleeve.daily_pnl limit

abbrev pub monthly_loss : Decimal → Option SleeveLedgerSnapshot → Bool
monthly_loss limit none = false
monthly_loss limit (some sleeve) = Decimal.le sleeve.monthly_pnl limit

abbrev pub weekly_loss : Decimal → Option SleeveLedgerSnapshot → Bool
weekly_loss limit none = false
weekly_loss limit (some sleeve) = Decimal.le sleeve.weekly_pnl limit

unfoldable pub evaluate : CircuitBreakerConfig → AccountSnapshot → CircuitDecision
unfolding stop_sleeve stop_all
evaluate config account =
    let a = Dict.lookup sleeve_a account.sleeves in
    let b = Dict.lookup sleeve_b account.sleeves in
    stop_sleeve (weekly_loss config.sleeve_b_weekly_loss_stop b) sleeve_b
      "SLEEVE_B_WEEKLY_LOSS_STOP"
      (stop_sleeve (monthly_loss config.sleeve_a_monthly_loss_stop a) sleeve_a
        "SLEEVE_A_MONTHLY_LOSS_STOP"
        (stop_sleeve (daily_loss config.sleeve_a_daily_loss_stop a) sleeve_a
          "SLEEVE_A_DAILY_LOSS_STOP"
          (stop_all (Decimal.le account.daily_pnl config.global_daily_loss_stop))))

stopped-stop_sleeve :
    (c : Bool) (stopping sleeve_id : SleeveId) (reason : String) (d : CircuitDecision)
    → stopped sleeve_id (stop_sleeve c stopping reason d)
      ≡ (stopped sleeve_id d || (c && is sleeve_id stopping))
unfolding stop_sleeve
stopped-stop_sleeve false stopping sleeve_id reason d = ground arith
stopped-stop_sleeve true stopping sleeve_id reason d = ground (
  arith,
  Dict.lookup-insert sleeve_id stopping
      (or_empty (Dict.lookup stopping d.sleeve_actions) ++ block_new_entries ∷ exit_only ∷ [])
      d.sleeve_actions,
)

global-stop_sleeve :
    (c : Bool) (stopping : SleeveId) (reason : String) (d : CircuitDecision)
    → global_stop (stop_sleeve c stopping reason d) ≡ global_stop d
unfolding stop_sleeve
global-stop_sleeve false stopping reason d = refl
global-stop_sleeve true stopping reason d = refl

stop_all-lem :
    (c : Bool) (sleeve_id : SleeveId)
    → (global_stop (stop_all c) ≡ c) × (stopped sleeve_id (stop_all c) ≡ false)
unfolding stop_all Dict.lookup
stop_all-lem true sleeve_id = (refl, refl)
stop_all-lem false sleeve_id = (refl, refl)

-- Everything is stopped exactly at the daily loss of the account; sleeve A exactly at its daily or
-- monthly loss, and sleeve B exactly at its weekly loss; a sleeve that the account does not have is
-- never stopped.
pub evaluate_stops :
    (config : CircuitBreakerConfig) (account : AccountSnapshot)
    → let decision = evaluate config account in
      let a = Dict.lookup sleeve_a account.sleeves in
      let b = Dict.lookup sleeve_b account.sleeves in
      (global_stop decision ≡ Decimal.le account.daily_pnl config.global_daily_loss_stop)
      × (stopped sleeve_a decision ≡ (
          daily_loss config.sleeve_a_daily_loss_stop a
          || monthly_loss config.sleeve_a_monthly_loss_stop a))
      × (stopped sleeve_b decision ≡ weekly_loss config.sleeve_b_weekly_loss_stop b)
unfolding evaluate
evaluate_stops config account =
    let c = Decimal.le account.daily_pnl config.global_daily_loss_stop in
    let (g, a0) = stop_all-lem c sleeve_a in
    let (_, b0) = stop_all-lem c sleeve_b in
    rw
      (
        global-stop_sleeve, global-stop_sleeve, global-stop_sleeve, stopped-stop_sleeve,
        stopped-stop_sleeve, stopped-stop_sleeve, stopped-stop_sleeve, stopped-stop_sleeve,
        stopped-stop_sleeve, g, a0, b0,
      )
      (refl, ground arith, ground arith)
