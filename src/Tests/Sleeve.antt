-- ===== src/Tests/Sleeve.antt =====
-- The theorems on the allocator and the loop of sleeve B at concrete inputs.
use crypto_dual_sleeve_tradi.Base.{
  ◌*◌, ◌*◌, ℕ, ◌+◌, ◌+◌, ◌≤◌, String, ◌≡◌, refl, true, false, none, some, [], ◌∷◌, length, All,
}
use crypto_dual_sleeve_tradi.Base.Result.{err, Result, ok}
use crypto_dual_sleeve_tradi.Base.Key.{string_key, pair_key}
use crypto_dual_sleeve_tradi.Decimal
use crypto_dual_sleeve_tradi.Decimal.{Decimal, nought}
use crypto_dual_sleeve_tradi.Core.Enums.{
  submitted, entry, limit, buy, sleeve_b, long, trading_mode_enum, sleeve_id_enum, order_side_enum,
  position_side_enum, order_type_enum, order_action_enum, order_status_enum, safe_mode_state_enum,
  circuit_action_enum,
}
use crypto_dual_sleeve_tradi.Execution.AutoLoop.{
  no_order, SleeveBAutoLoopRunResult, SleeveBAutoLoopConfig, SleeveBLoopExchange, run_once,
}
use crypto_dual_sleeve_tradi.Exchange.Inert.{inert_adapter, InertExchange, fetch_position_snapshots}
use crypto_dual_sleeve_tradi.Execution.Allocator.{
  default_config, reject, allocate, SleeveBAllocationDecision, SleeveBSignalCandidate,
}
use crypto_dual_sleeve_tradi.Core.Models.{OrderRecord, AccountSnapshotV3}
use crypto_dual_sleeve_tradi.Execution.Allocator.Limits.{allocate-IsAllowed, IsAllowed}
use crypto_dual_sleeve_tradi.Execution.Router.{OrderStoreWriter}
use crypto_dual_sleeve_tradi.Execution.AutoLoop.Bounds.{run-bound, accepted_count}
use crypto_dual_sleeve_tradi.Execution.AutoLoop.Submissions.{run-IsBacked, IsBacked}
use crypto_dual_sleeve_tradi.Tests.Samples.{
  empty_exchange, noon, quiet, btc_position, btc_filters, eth_position,
}
use crypto_dual_sleeve_tradi.Storage.Orders.{OrderTable, upsert_order}

abbrev candidate : SleeveBSignalCandidate
candidate = record {
  symbol = "BTCUSDT";
  side = long;
  entry_price = Decimal.literal 100 0;
  stop_price = Decimal.literal 95 0;
  setup_id = "setup-0001";
}

abbrev account : AccountSnapshotV3
account = record {
  total_wallet_balance = Decimal.literal 10000 0;
  total_unrealized_profit = nought;
  total_margin_balance = Decimal.literal 10000 0;
  available_balance = Decimal.literal 10000 0;
  assets = [];
}

abbrev accepted_size : SleeveBAllocationDecision
accepted_size = record {
  accepted = true;
  symbol = "BTCUSDT";
  side = long;
  quantity = Decimal.literal 10000 3;
  entry_price = Decimal.literal 10000 2;
  notional = Decimal.literal 100000 2;
  initial_margin = Decimal.literal 33333 2;
  leverage = Decimal.literal 3 0;
  risk_amount = Decimal.literal 5000 2;
  reason = "ACCEPTED";
}

allocates :
    allocate default_config candidate account (eth_position ∷ []) btc_filters ≡ ok accepted_size
unfolding allocate crypto_dual_sleeve_tradi.Base.Dict.member Decimal.lt Decimal.le Decimal.abs
    Decimal.sub crypto_dual_sleeve_tradi.Core.Models.is_flat Decimal.eq Decimal.div Decimal.mul
    Decimal.add crypto_dual_sleeve_tradi.Exchange.Filters.floor_to_step
    crypto_dual_sleeve_tradi.Exchange.Filters.round_price_to_tick Decimal.to_integral_down
    Decimal.min Decimal.quantize_cents
allocates = refl

allocate-IsAllowed_example :
    IsAllowed default_config candidate account btc_filters (eth_position ∷ []) accepted_size
allocate-IsAllowed_example =
    allocate-IsAllowed default_config candidate account btc_filters (eth_position ∷ [])
      accepted_size allocates refl

abbrev refused_size : SleeveBAllocationDecision
refused_size = reject default_config candidate "SYMBOL_ALREADY_HAS_POSITION"

refuses :
    allocate default_config candidate account (btc_position ∷ []) btc_filters ≡ ok refused_size
unfolding allocate crypto_dual_sleeve_tradi.Base.Dict.member Decimal.lt Decimal.le Decimal.abs
    Decimal.sub crypto_dual_sleeve_tradi.Core.Models.is_flat Decimal.eq
refuses = refl

rejected : refused_size.accepted ≡ false
unfolding reject
rejected = refl

abbrev loop_exchange : SleeveBLoopExchange InertExchange
loop_exchange = record {
  adapter = inert_adapter;
  fetch_account_snapshot = λ x. (ok account, x);
  fetch_position_snapshots = fetch_position_snapshots;
}

abbrev loop_config : SleeveBAutoLoopConfig
loop_config = record {
  max_new_orders_per_run = 1;
  require_ack = true;
  limit_price_offset_bps = Decimal.literal 5 0;
}

abbrev order_writer : OrderStoreWriter OrderTable
order_writer = record { upsert_order = upsert_order }

abbrev some_text : Decimal → String
some_text d = "a number"

abbrev routed_order : OrderRecord
routed_order = record {
  client_order_id = "B_setup-00_EN_20231114221320";
  intent = record {
    sleeve_id = sleeve_b;
    symbol = "BTCUSDT";
    side = buy;
    order_type = limit;
    action = entry;
    quantity = Decimal.literal 10000 3;
    price = some (Decimal.literal 9995 2);
    reduce_only = false;
    setup_id = some "setup-0001";
    metadata =
        ("source", "sleeve_b_auto_testnet_loop")
        ∷ ("allocator_reason", "ACCEPTED")
        ∷ ("initial_margin", "a number")
        ∷ ("risk_amount", "a number")
        ∷ ("leverage", "a number")
        ∷ [];
  };
  status = submitted;
  exchange_order_id = none;
  filled_quantity = nought;
  average_fill_price = none;
  created_at = noon;
  updated_at = noon;
}

abbrev loop_result : SleeveBAutoLoopRunResult
loop_result = record {
  decisions =
      record {
        symbol = "BTCUSDT";
        accepted = true;
        allocation = accepted_size;
        route_result = some (record {
          accepted = true;
          order = some routed_order;
          reason = "SUBMITTED_TO_SIM_OR_TESTNET";
        });
        reason = "SUBMITTED_TO_SIM_OR_TESTNET";
      }
      ∷ no_order candidate (reject default_config candidate "MAX_NEW_ORDERS_PER_RUN_REACHED")
      ∷ [];
  submitted_orders = 1;
  safe_mode_active = false;
}

-- of two candidates the first becomes an order, and the second is past the limit of the run
runs_once :
    (run_once some_text loop_exchange order_writer default_config loop_config quiet
      (λ _. noon)
      (candidate ∷ candidate ∷ [])
      (empty_exchange, [])).0
    ≡ ok loop_result
unfolding run_once fetch_position_snapshots
    crypto_dual_sleeve_tradi.Execution.SafeMode.allows_new_entries inert_adapter allocate
    crypto_dual_sleeve_tradi.Base.Dict.member Decimal.lt Decimal.le Decimal.abs Decimal.sub
    Decimal.mul Decimal.div crypto_dual_sleeve_tradi.Exchange.Filters.floor_to_step
    crypto_dual_sleeve_tradi.Base.Dict.lookup
    crypto_dual_sleeve_tradi.Exchange.Filters.round_price_to_tick Decimal.to_integral_down
    Decimal.min Decimal.quantize_cents crypto_dual_sleeve_tradi.Base.Dict.erase
    crypto_dual_sleeve_tradi.Base.Dict.insert crypto_dual_sleeve_tradi.Base.Dict.values
    crypto_dual_sleeve_tradi.Core.Models.is_flat crypto_dual_sleeve_tradi.Core.Models.new_order
    Decimal.add Decimal.eq Decimal.fix Decimal.of_parts
    crypto_dual_sleeve_tradi.Exchange.Filters.normalize_order_intent
    crypto_dual_sleeve_tradi.Exchange.Inert.cancel_order
    crypto_dual_sleeve_tradi.Exchange.Inert.fetch_open_orders
    crypto_dual_sleeve_tradi.Exchange.Inert.get_symbol_filters
    crypto_dual_sleeve_tradi.Exchange.Inert.submit_order
    crypto_dual_sleeve_tradi.Execution.Allocator.admit
    crypto_dual_sleeve_tradi.Execution.Allocator.has_open_position
    crypto_dual_sleeve_tradi.Execution.Allocator.margin_notional
    crypto_dual_sleeve_tradi.Execution.Allocator.raw_quantity reject
    crypto_dual_sleeve_tradi.Execution.Allocator.size
    crypto_dual_sleeve_tradi.Execution.Allocator.stop_distance
    crypto_dual_sleeve_tradi.Execution.Allocator.sum_initial_margin
    crypto_dual_sleeve_tradi.Execution.AutoLoop.allocation_to_intent
    crypto_dual_sleeve_tradi.Execution.AutoLoop.consider
    crypto_dual_sleeve_tradi.Execution.AutoLoop.consider_all
    crypto_dual_sleeve_tradi.Execution.AutoLoop.entry_limit_price no_order
    crypto_dual_sleeve_tradi.Execution.AutoLoop.submit
    crypto_dual_sleeve_tradi.Execution.OrderIds.clock_text
    crypto_dual_sleeve_tradi.Execution.OrderIds.first_chars
    crypto_dual_sleeve_tradi.Execution.OrderIds.make_client_order_id
    crypto_dual_sleeve_tradi.Execution.OrderIds.timestamp_text
    crypto_dual_sleeve_tradi.Execution.OrderState.allowed_transitions
    crypto_dual_sleeve_tradi.Execution.OrderState.transition
    crypto_dual_sleeve_tradi.Execution.Router.dispatch
    crypto_dual_sleeve_tradi.Execution.Router.route
    crypto_dual_sleeve_tradi.Execution.Router.route_persistent
runs_once = refl

run-bound_example :
    (1 ≤ loop_config.max_new_orders_per_run)
    × (1 ≡ accepted_count loop_result.decisions)
    × (length loop_result.decisions ≡ length (candidate ∷ candidate ∷ []))
run-bound_example =
    run-bound some_text loop_exchange order_writer default_config loop_config quiet (λ _. noon)
      (candidate ∷ candidate ∷ []) (empty_exchange, []) loop_result runs_once

run-IsBacked_example :
    All
      (λ d.
        d.accepted ≡ true
        → IsBacked some_text loop_exchange order_writer default_config loop_config quiet
            (λ _. noon)
            empty_exchange
            d)
      loop_result.decisions
run-IsBacked_example =
    run-IsBacked some_text loop_exchange order_writer default_config loop_config quiet (λ _. noon)
      (candidate ∷ candidate ∷ []) empty_exchange [] loop_result runs_once

abbrev submitted_count : Result SleeveBAutoLoopRunResult → ℕ
submitted_count (ok r) = r.submitted_orders
submitted_count (err e) = 0

-- with room for two orders, one run enters the same symbol twice
enters_twice :
    submitted_count
      (run_once some_text loop_exchange order_writer default_config
        (record loop_config { max_new_orders_per_run = 2 })
        quiet
        (λ n. noon + n * 1_000_000)
        (candidate ∷ candidate ∷ [])
        (empty_exchange, [])).0
    ≡ 2
unfolding run_once fetch_position_snapshots
    crypto_dual_sleeve_tradi.Execution.SafeMode.allows_new_entries inert_adapter allocate
    crypto_dual_sleeve_tradi.Base.Dict.member Decimal.lt Decimal.le Decimal.abs Decimal.sub
    Decimal.mul Decimal.div crypto_dual_sleeve_tradi.Exchange.Filters.floor_to_step
    crypto_dual_sleeve_tradi.Base.Dict.lookup
    crypto_dual_sleeve_tradi.Exchange.Filters.round_price_to_tick Decimal.to_integral_down
    Decimal.min Decimal.quantize_cents crypto_dual_sleeve_tradi.Base.Dict.erase
    crypto_dual_sleeve_tradi.Base.Dict.insert crypto_dual_sleeve_tradi.Base.Dict.values
    crypto_dual_sleeve_tradi.Core.Models.is_flat crypto_dual_sleeve_tradi.Core.Models.new_order
    Decimal.add Decimal.eq Decimal.fix Decimal.of_parts
    crypto_dual_sleeve_tradi.Exchange.Filters.normalize_order_intent
    crypto_dual_sleeve_tradi.Exchange.Inert.cancel_order
    crypto_dual_sleeve_tradi.Exchange.Inert.fetch_open_orders
    crypto_dual_sleeve_tradi.Exchange.Inert.get_symbol_filters
    crypto_dual_sleeve_tradi.Exchange.Inert.submit_order
    crypto_dual_sleeve_tradi.Execution.Allocator.admit
    crypto_dual_sleeve_tradi.Execution.Allocator.has_open_position
    crypto_dual_sleeve_tradi.Execution.Allocator.margin_notional
    crypto_dual_sleeve_tradi.Execution.Allocator.raw_quantity reject
    crypto_dual_sleeve_tradi.Execution.Allocator.size
    crypto_dual_sleeve_tradi.Execution.Allocator.stop_distance
    crypto_dual_sleeve_tradi.Execution.Allocator.sum_initial_margin
    crypto_dual_sleeve_tradi.Execution.AutoLoop.allocation_to_intent
    crypto_dual_sleeve_tradi.Execution.AutoLoop.consider
    crypto_dual_sleeve_tradi.Execution.AutoLoop.consider_all
    crypto_dual_sleeve_tradi.Execution.AutoLoop.entry_limit_price no_order
    crypto_dual_sleeve_tradi.Execution.AutoLoop.submit
    crypto_dual_sleeve_tradi.Execution.OrderIds.clock_text
    crypto_dual_sleeve_tradi.Execution.OrderIds.first_chars
    crypto_dual_sleeve_tradi.Execution.OrderIds.make_client_order_id
    crypto_dual_sleeve_tradi.Execution.OrderIds.timestamp_text
    crypto_dual_sleeve_tradi.Execution.OrderState.allowed_transitions
    crypto_dual_sleeve_tradi.Execution.OrderState.transition
    crypto_dual_sleeve_tradi.Execution.Router.dispatch
    crypto_dual_sleeve_tradi.Execution.Router.route
    crypto_dual_sleeve_tradi.Execution.Router.route_persistent
enters_twice = refl
