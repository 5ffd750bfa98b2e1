-- ===== src/Risk/Ledger.antt =====
-- portfolio/ledger.py: the ledger of the sleeves.
use crypto_dual_sleeve_tradi.Risk.Sleeves.{sleeve_key}
use crypto_dual_sleeve_tradi.Base.{◌≡◌, refl, ◌∙◌, ◌||◌, some, List, map, if◌then◌else◌}
use crypto_dual_sleeve_tradi.Base.Enum.{is}
use crypto_dual_sleeve_tradi.Base.Key.{string_key, pair_key}
use crypto_dual_sleeve_tradi.Decimal
use crypto_dual_sleeve_tradi.Base.Dict
use crypto_dual_sleeve_tradi.Base.Dict.{Dict}
use crypto_dual_sleeve_tradi.Decimal.{Decimal, nought}
use crypto_dual_sleeve_tradi.Core.Models.{AccountSnapshot, SleeveLedgerSnapshot}
use crypto_dual_sleeve_tradi.Risk.CircuitBreakers.{
  evaluate_stops, monthly_loss, daily_loss, evaluate, stopped, CircuitBreakerConfig,
}
use crypto_dual_sleeve_tradi.Core.Enums.{
  sleeve_a, SleeveId, trading_mode_enum, sleeve_id_enum, order_side_enum, position_side_enum,
  order_type_enum, order_action_enum, order_status_enum, safe_mode_state_enum, circuit_action_enum,
}

pub record VirtualSleeveLedger : Type 0 where
  pub account_starting_equity : Decimal
  pub sleeves : Dict SleeveId SleeveLedgerSnapshot

abbrev pub daily_pnls : List SleeveLedgerSnapshot → List Decimal
daily_pnls sleeves = map (λ s. s.daily_pnl) sleeves

unfoldable pub snapshot : VirtualSleeveLedger → AccountSnapshot
snapshot ledger = record {
  starting_equity = ledger.account_starting_equity;
  daily_pnl = Decimal.sum (daily_pnls (Dict.values ledger.sleeves));
  sleeves = ledger.sleeves;
}

unfoldable pub update_sleeve : SleeveLedgerSnapshot → VirtualSleeveLedger → VirtualSleeveLedger
update_sleeve sleeve ledger = record ledger {
  sleeves = Dict.insert sleeve.sleeve_id sleeve ledger.sleeves;
}

-- Sleeve A is stopped after an update exactly by the losses of the sleeve that was written last for it:
-- an update of sleeve B does not matter to it.
pub update_stops :
    (config : CircuitBreakerConfig) (sleeve : SleeveLedgerSnapshot) (ledger : VirtualSleeveLedger)
    → let current =
        if is sleeve_a sleeve.sleeve_id then some sleeve else Dict.lookup sleeve_a ledger.sleeves in
      stopped sleeve_a (evaluate config (snapshot (update_sleeve sleeve ledger))) ≡ (
        daily_loss config.sleeve_a_daily_loss_stop current
        || monthly_loss config.sleeve_a_monthly_loss_stop current)
unfolding snapshot update_sleeve
update_stops config sleeve ledger =
    let (_, stops, _) = evaluate_stops config (snapshot (update_sleeve sleeve ledger)) in
    stops ∙ rw (Dict.lookup-insert sleeve_a sleeve.sleeve_id sleeve ledger.sleeves) refl
