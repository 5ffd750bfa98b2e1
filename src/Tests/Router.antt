-- ===== src/Tests/Router.antt =====
-- The theorems on the router, the filters and the order ids at concrete inputs.
use crypto_dual_sleeve_tradi.Base.{
  arith, ◌/◌, ◌+◌, ◌≡◌, refl, ◌↔◌, ◌⊎◌, true, false, none, some, if◌then◌else◌,
}
use crypto_dual_sleeve_tradi.Base.Result.{ok}
use crypto_dual_sleeve_tradi.Base.Key.{string_key, pair_key}
use crypto_dual_sleeve_tradi.Decimal
use crypto_dual_sleeve_tradi.Decimal.{Decimal, nought}
use crypto_dual_sleeve_tradi.Core.Models.{OrderRecord, OrderIntent}
use crypto_dual_sleeve_tradi.Execution.Router.{route, RouteResult}
use crypto_dual_sleeve_tradi.Exchange.Filters.{
  normalize-MeetsFilters, MeetsFilters, normalize_order_intent,
}
use crypto_dual_sleeve_tradi.Execution.Router.Outcome.{route_submits, IsSubmission}
use crypto_dual_sleeve_tradi.Execution.SafeMode.{allows_new_entries}
use crypto_dual_sleeve_tradi.Tests.Samples.{
  empty_exchange, quiet, noon, btc_filters, alarmed, entry_intent,
}
use crypto_dual_sleeve_tradi.Exchange.Inert.{
  query_order, query-submit, query-cancel, snapshot_of, cancel_order, submit_order, query_order,
  inert_adapter,
}
use crypto_dual_sleeve_tradi.Execution.OrderIds.{first_chars, make_client_order_id}
use crypto_dual_sleeve_tradi.Execution.OrderIds.Distinct.{same_client_order_id}
use crypto_dual_sleeve_tradi.Core.Enums.{
  entry, sleeve_b, exchange_testnet, submitted, trading_mode_enum, sleeve_id_enum, order_side_enum,
  position_side_enum, order_type_enum, order_action_enum, order_status_enum, safe_mode_state_enum,
  circuit_action_enum,
}

-- the intent after the filters: the quantity is cut to 1.234, the price to 100.00
normal_intent : OrderIntent
normal_intent = record entry_intent {
  quantity = Decimal.literal 1234 3;
  price = some (Decimal.literal 10000 2);
}

abbrev sent_order : OrderRecord
sent_order = record {
  client_order_id = "B_setup-00_EN_20231114221320";
  intent = normal_intent;
  status = submitted;
  exchange_order_id = none;
  filled_quantity = nought;
  average_fill_price = none;
  created_at = noon;
  updated_at = noon;
}

abbrev submitted_result : RouteResult
submitted_result = record {
  accepted = true;
  order = some sent_order;
  reason = "SUBMITTED_TO_SIM_OR_TESTNET";
}

normalizes : normalize_order_intent entry_intent btc_filters ≡ ok normal_intent
unfolding normalize_order_intent crypto_dual_sleeve_tradi.Exchange.Filters.floor_to_step Decimal.le
    Decimal.div crypto_dual_sleeve_tradi.Exchange.Filters.round_price_to_tick Decimal.lt Decimal.mul
    Decimal.to_integral_down normal_intent
normalizes = refl

routes :
    (route inert_adapter exchange_testnet quiet noon entry_intent empty_exchange).0
    ≡ ok submitted_result
unfolding route allows_new_entries inert_adapter normalize_order_intent
    crypto_dual_sleeve_tradi.Exchange.Filters.floor_to_step Decimal.le
    crypto_dual_sleeve_tradi.Base.Dict.lookup Decimal.div
    crypto_dual_sleeve_tradi.Exchange.Filters.round_price_to_tick Decimal.lt Decimal.mul
    Decimal.to_integral_down crypto_dual_sleeve_tradi.Execution.OrderState.transition
    crypto_dual_sleeve_tradi.Core.Models.new_order make_client_order_id normal_intent first_chars
    crypto_dual_sleeve_tradi.Execution.OrderIds.timestamp_text
    crypto_dual_sleeve_tradi.Execution.OrderIds.clock_text crypto_dual_sleeve_tradi.Base.Dict.erase
    crypto_dual_sleeve_tradi.Base.Dict.insert crypto_dual_sleeve_tradi.Base.Dict.values Decimal.fix
    cancel_order crypto_dual_sleeve_tradi.Exchange.Inert.fetch_open_orders
    crypto_dual_sleeve_tradi.Exchange.Inert.get_symbol_filters submit_order
    crypto_dual_sleeve_tradi.Execution.OrderState.allowed_transitions
    crypto_dual_sleeve_tradi.Execution.Router.dispatch
routes = refl

route_submits_example :
    IsSubmission inert_adapter quiet entry_intent empty_exchange submitted_result
      (route inert_adapter exchange_testnet quiet noon entry_intent empty_exchange).1
route_submits_example =
    route_submits inert_adapter exchange_testnet quiet noon entry_intent empty_exchange
      submitted_result routes refl

blocked : allows_new_entries alarmed ≡ false
unfolding allows_new_entries
blocked = refl

normalize-MeetsFilters_example :
    MeetsFilters normal_intent btc_filters
    × (normal_intent
        ≡ record entry_intent { quantity = normal_intent.quantity; price = normal_intent.price })
    × ((normal_intent.price ≡ none) ↔ (entry_intent.price ≡ none))
normalize-MeetsFilters_example = normalize-MeetsFilters entry_intent btc_filters normalizes

same_client_order_id_example :
    (make_client_order_id sleeve_b "setup-0001" entry noon
      ≡ make_client_order_id sleeve_b "setup-0002" entry (noon + 500_000))
    ↔ ((first_chars 8 "setup-0001" ≡ first_chars 8 "setup-0002")
        × (noon / 1_000_000 ≡ (noon + 500_000) / 1_000_000))
same_client_order_id_example =
    same_client_order_id sleeve_b "setup-0001" "setup-0002" entry noon (noon + 500_000)
      (omega arith) (omega arith)
