-- ===== src/Tests/Risk.antt =====
-- The theorems on the risk checks and the ledger at concrete inputs.
use crypto_dual_sleeve_tradi.Base.{
  ℕ, String, ◌≡◌, refl, true, false, ◌||◌, none, some, List, [], ◌∷◌,
}
use crypto_dual_sleeve_tradi.Base.Result.{ok}
use crypto_dual_sleeve_tradi.Base.Key.{string_key, pair_key}
use crypto_dual_sleeve_tradi.Decimal
use crypto_dual_sleeve_tradi.Base.Dict
use crypto_dual_sleeve_tradi.Base.Dict.{Dict}
use crypto_dual_sleeve_tradi.Decimal.{Decimal, nought}
use crypto_dual_sleeve_tradi.Core.Enums.{
  sleeve_b, sleeve_a, trading_mode_enum, sleeve_id_enum, order_side_enum, position_side_enum,
  order_type_enum, order_action_enum, order_status_enum, safe_mode_state_enum, circuit_action_enum,
}
use crypto_dual_sleeve_tradi.Risk.Sleeves.{sleeve_key}
use crypto_dual_sleeve_tradi.Core.Models.{AccountSnapshot, SleeveLedgerSnapshot}
use crypto_dual_sleeve_tradi.Risk.Capacity.{capacity_check, CapacitySnapshot}
use crypto_dual_sleeve_tradi.Tests.Samples.{noon}
use crypto_dual_sleeve_tradi.Risk.ManualOverride.{sleeve, symbol, Pause, ManualOverrideState}
use crypto_dual_sleeve_tradi.Risk.BorrowStress.{low, high, BorrowStressResult, BorrowStatus}
use crypto_dual_sleeve_tradi.Risk.Sizing.{stop_distance_ok}
use crypto_dual_sleeve_tradi.Risk.CircuitBreakers.{
  evaluate_stops, weekly_loss, monthly_loss, daily_loss, global_stop, stopped, CircuitBreakerConfig,
  evaluate,
}

abbrev breakers : CircuitBreakerConfig
breakers = record {
  global_daily_loss_stop = Decimal.minus 3000 0;
  sleeve_a_daily_loss_stop = Decimal.minus 1000 0;
  sleeve_a_monthly_loss_stop = Decimal.minus 8000 0;
  sleeve_b_weekly_loss_stop = Decimal.minus 3200 0;
}

abbrev losing : SleeveLedgerSnapshot
losing = record {
  sleeve_id = sleeve_a;
  starting_equity = Decimal.literal 40000 0;
  realized_pnl = nought;
  unrealized_pnl = nought;
  fees = nought;
  funding = nought;
  daily_pnl = Decimal.minus 1500 0;
  weekly_pnl = nought;
  monthly_pnl = nought;
}

abbrev losing_account : AccountSnapshot
losing_account = record {
  starting_equity = Decimal.literal 120000 0;
  daily_pnl = Decimal.minus 1500 0;
  sleeves = (sleeve_a, losing) ∷ [];
}

evaluate_stops_example :
    let decision = evaluate breakers losing_account in
    let a = Dict.lookup sleeve_a losing_account.sleeves in
    let b = Dict.lookup sleeve_b losing_account.sleeves in
    (global_stop decision ≡ Decimal.le losing_account.daily_pnl breakers.global_daily_loss_stop)
    × (stopped sleeve_a decision ≡ (
        daily_loss breakers.sleeve_a_daily_loss_stop a
        || monthly_loss breakers.sleeve_a_monthly_loss_stop a))
    × (stopped sleeve_b decision ≡ weekly_loss breakers.sleeve_b_weekly_loss_stop b)
evaluate_stops_example = evaluate_stops breakers losing_account

abbrev market : CapacitySnapshot
market = record {
  open_interest_usd = Decimal.literal 1000000 0;
  volume_24h_usd = Decimal.literal 10000000 0;
  entry_bid_depth_usd = Decimal.literal 20000 0;
  exit_ask_depth_usd = Decimal.literal 20000 0;
}

abbrev share : Decimal
share = Decimal.literal 5 3

passes : capacity_check (Decimal.literal 100 0) market share share share ≡ true
unfolding capacity_check Decimal.lt Decimal.le Decimal.mul
passes = refl

abbrev free : ManualOverrideState
free = record {
  pause_all = false;
  paused_sleeves = [];
  paused_symbols = [];
  safe_mode_forced = false;
  updated_at = noon;
  reason = none;
}

abbrev two_pauses : List (ℕ × String × Pause)
two_pauses = (noon, "news", symbol "BTCUSDT") ∷ (noon, "review", sleeve "A") ∷ []

abbrev hard_to_borrow : BorrowStatus
hard_to_borrow = record {
  is_borrow_supported = some false;
  max_borrowable_base = some nought;
  max_borrowable_usd = some (Decimal.literal 100 0);
  borrow_rate_annualized = some (Decimal.literal 120 0);
  data_scope = "account_level_proxy";
  confidence = high;
  zero_reason = none;
}

abbrev stress : BorrowStressResult
stress = record { score = 6; confidence = low }

abbrev deep : Decimal
deep = Decimal.minus 1 3

abbrev mild : Decimal
mild = Decimal.minus 5 4

abbrev entry_at : Decimal
entry_at = Decimal.literal 100 0

abbrev stop_at : Decimal
stop_at = Decimal.literal 110 0

abbrev least : Decimal
least = Decimal.literal 4 2

abbrev most : Decimal
most = Decimal.literal 18 2

positive : (Decimal.lt nought entry_at ≡ true) × (Decimal.lt nought least ≡ true)
unfolding Decimal.lt Decimal.le
positive = (refl, refl)

stop_passes : stop_distance_ok entry_at stop_at least most ≡ ok true
unfolding stop_distance_ok Decimal.div Decimal.le Decimal.abs Decimal.sub
stop_passes = refl
