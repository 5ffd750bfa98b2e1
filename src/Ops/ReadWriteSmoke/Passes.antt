-- ===== src/Ops/ReadWriteSmoke/Passes.antt =====
-- What a run of ops/testnet_read_write_smoke.py that passes has shown.
use crypto_dual_sleeve_tradi.Base.{
  Bool, Option, ap, ◌∙◌, ◌∙◌, ℕ, String, ◌≡◌, refl, inl, inr, true, none, some, [], arith,
}
use crypto_dual_sleeve_tradi.Base.Result.{Result-cases, ok}
use crypto_dual_sleeve_tradi.Base.Key.{string_key, pair_key}
use crypto_dual_sleeve_tradi.Decimal.{Decimal}
use crypto_dual_sleeve_tradi.Core.Models.{ExchangeOrderSnapshot, OrderRecord}
use crypto_dual_sleeve_tradi.Ops.ReadWriteSmoke.{
  clean_up, live, is_ok, TestnetReadWriteSmokeResult, intent_of, TestnetSmokeOrderConfig, place,
  ReadWriteSmokeExchange,
}
use crypto_dual_sleeve_tradi.Execution.Reconciliation.{
  conclude, fetch_both, reconcile_open_orders, compare_orders,
}
use crypto_dual_sleeve_tradi.Execution.Router.{RouteResult}
use crypto_dual_sleeve_tradi.Execution.SafeMode.{SafeModeController, new_controller}
use crypto_dual_sleeve_tradi.Execution.Router.Outcome.{IsSubmission}
use crypto_dual_sleeve_tradi.Ops.ReadWriteSmoke.Run.{
  prepare, run_with_exchange, Read, report, sqlite_orders, Reports, run_reconciliation,
}
use crypto_dual_sleeve_tradi.Execution.PositionReconciliation.{refresh}
use crypto_dual_sleeve_tradi.Execution.PositionReconciliation.Refresh.{sqlite_positions}
use crypto_dual_sleeve_tradi.Execution.Reconciliation.EmptyStore.{empty_store, none_stored}
use crypto_dual_sleeve_tradi.Core.Enums.{
  canceled, trading_mode_enum, sleeve_id_enum, order_side_enum, position_side_enum, order_type_enum,
  order_action_enum, order_status_enum, safe_mode_state_enum, circuit_action_enum,
}
use crypto_dual_sleeve_tradi.Ops.ReadWriteSmoke.Submission.{place-IsSubmission}

module _ {X : Type 0} (decimal_text : Decimal → String) (exchange : ReadWriteSmokeExchange X) where
  empty_report :
      (later : ℕ) (safe : SafeModeController) (y : X)
      → (reconcile_open_orders sqlite_orders exchange.adapter later [] (safe, y)).0.consistent
        ≡ true
      → (exchange.adapter.fetch_open_orders y).0 ≡ ok []
  unfolding reconcile_open_orders fetch_both conclude
  empty_report later safe y h = elim (Result-cases (exchange.adapter.fetch_open_orders y).0) [
    | inr (e, fails) ↦ absurd (ground arith)
    | inl (orders, fetches) ↦
        let matches : (compare_orders [] orders).consistent ≡ true =
          ground (arith, none_stored later) in
        fetches ∙ ap ok (empty_store orders matches)
  ]

  -- the exchange as the position reconciliation leaves it
  abbrev pub positions_read : X → X
  positions_read x = (refresh sqlite_positions exchange.positions ([], x)).1.1

  reconciled-None :
      (later : ℕ) (safe : SafeModeController) (x : X) (reports : Reports)
      (safe' : SafeModeController)
      → (run_reconciliation decimal_text exchange later safe x).0 ≡ ok (reports, safe')
      → reports.0.consistent ≡ true
      → (exchange.adapter.fetch_open_orders (positions_read x)).0 ≡ ok []
  unfolding run_reconciliation
  reconciled-None later safe x reports safe' h consistent =
      let refreshed = refresh sqlite_positions exchange.positions ([], x) in
      elim (Result-cases refreshed.0) [
        | inr (e, fails) ↦ absurd (ground arith)
        | inl (positions, fetches) ↦ empty_report later safe (positions_read x) (ground arith)
      ]

  -- the exchange as the cancellation of the placed order leaves it
  abbrev pub canceled_at : ℕ → TestnetSmokeOrderConfig → OrderRecord → X → X
  canceled_at now config order before =
      let id = order.client_order_id in
      let asked = exchange.query_order config.symbol id (place exchange now config before).1 in
      (exchange.adapter.cancel_order id config.symbol asked.1).1

  -- What a passing run has shown of the exchange. `order` is what the router got back for the entry.
  pub record Passed (now : ℕ) (config : TestnetSmokeOrderConfig) (acknowledged : Bool) (x : X)
      (result : TestnetReadWriteSmokeResult) : Type 0 where
    pub before : X
    pub before_is : before ≡ (prepare decimal_text exchange config acknowledged x).1
    pub order : OrderRecord
    pub routed : RouteResult
    pub submission :
        IsSubmission exchange.adapter
          (new_controller now)
          (intent_of config)
          before
          routed
          (place exchange now config before).1
    pub same_order : routed.order ≡ some order
    pub same_id : result.client_order_id ≡ order.client_order_id
    pub behind : X
    pub behind_is : behind ≡ canceled_at now config order before
    pub snapshot : ExchangeOrderSnapshot
    pub answered :
        (exchange.query_order config.symbol order.client_order_id behind).0 ≡ ok (some snapshot)
    pub is_canceled : snapshot.status ≡ canceled
    pub none_open :
        (exchange.adapter.fetch_open_orders
          (positions_read (exchange.query_order config.symbol order.client_order_id behind).1)).0
        ≡ ok []

  behind_live :
      (now later : ℕ) (config : TestnetSmokeOrderConfig) (read : Read) (order : OrderRecord)
      (result : TestnetReadWriteSmokeResult) (x2 : X)
      (queried : Option ExchangeOrderSnapshot × Option ExchangeOrderSnapshot)
      → (report decimal_text exchange now later config read order queried x2).0 ≡ ok result
      → is_ok result ≡ true
      → (result.client_order_id ≡ order.client_order_id)
        × ((asked : ExchangeOrderSnapshot) × (snapshot : ExchangeOrderSnapshot) × (queried
              ≡ (some asked, some snapshot))
            × (snapshot.status ≡ canceled))
        × ((exchange.adapter.fetch_open_orders (positions_read x2)).0 ≡ ok [])
  unfolding report is_ok
  behind_live now later config read order result x2 (none, after) h passes = ground arith
  behind_live now later config read order result x2 (some asked, none) h passes = ground arith
  behind_live now later config read order result x2 (some asked, some snapshot) h passes =
      let reconciled = run_reconciliation decimal_text exchange later (new_controller now) x2 in
      elim (Result-cases reconciled.0) [
        | inr (e, fails) ↦ absurd (ground arith)
        | inl ((reports, safe), reconciles) ↦ (
          ground arith,
          (asked, snapshot, refl, ground arith),
          reconciled-None later (new_controller now) x2 reports safe reconciles (ground arith),
        )
      ]

  passed :
      (now later : ℕ) (config : TestnetSmokeOrderConfig) (read : Read) (order : OrderRecord)
      (acknowledged : Bool) (x before behind : X) (result : TestnetReadWriteSmokeResult)
      (first second : Option ExchangeOrderSnapshot)
      → before ≡ (prepare decimal_text exchange config acknowledged x).1
      → behind ≡ canceled_at now config order before
      → (place exchange now config before).0 ≡ ok order
      → (exchange.query_order config.symbol order.client_order_id behind).0 ≡ ok second
      → (report decimal_text exchange now later config read order
          (first, second)
          (exchange.query_order config.symbol order.client_order_id behind).1).0
        ≡ ok result
      → is_ok result ≡ true
      → Passed now config acknowledged x result
  passed now later config read order acknowledged x before behind result first second before_is
        behind_is places seconds h passes =
      let (routed, same_order, submission) =
        place-IsSubmission exchange now config before order places in
      let (same_id, queried, none_open) =
        behind_live now later config read order result
          (exchange.query_order config.symbol order.client_order_id behind).1 (first, second) h
          passes in
      let (asked, snapshot, both, is_canceled) = queried in
      record {
        before = before;
        before_is = before_is;
        order = order;
        routed = routed;
        submission = submission;
        same_order = same_order;
        same_id = same_id;
        behind = behind;
        behind_is = behind_is;
        snapshot = snapshot;
        answered = ground arith;
        is_canceled = is_canceled;
        none_open = none_open;
      }

  -- A run that gives a result which is ok has submitted the entry through the router, under the filters
  -- of the exchange, once its preparation was done. Queried right behind the cancellation of that order,
  -- the exchange has answered for the order's id that it is CANCELED; and asked after that, behind the
  -- positions, it has reported that no order is open.
  pub smoke_passes :
      (now later : ℕ) (config : TestnetSmokeOrderConfig) (acknowledged : Bool) (x : X)
      (result : TestnetReadWriteSmokeResult)
      → (run_with_exchange decimal_text exchange now later config acknowledged x).0 ≡ ok result
      → is_ok result ≡ true
      → Passed now config acknowledged x result
  unfolding run_with_exchange live clean_up
  smoke_passes now later config acknowledged x result h passes =
      let prepared = prepare decimal_text exchange config acknowledged x in
      elim (Result-cases prepared.0) [
        | inr (e, fails) ↦ absurd (ground arith)
        | inl (read, reads) ↦
            let placed = place exchange now config prepared.1 in
            elim (Result-cases placed.0) [
              | inr (e, fails) ↦ absurd (ground arith)
              | inl (order, places) ↦
                  let id = order.client_order_id in
                  let asked = exchange.query_order config.symbol id placed.1 in
                  let cancel = exchange.adapter.cancel_order id config.symbol asked.1 in
                  let after = exchange.query_order config.symbol id cancel.1 in
                  elim (Result-cases asked.0) [
                    | inr (e, fails) ↦ absurd (ground arith)
                    | inl (first, firsts) ↦ elim (Result-cases cancel.0) [
                      | inr (e, fails) ↦ absurd (ground arith)
                      | inl (answer, answers) ↦ elim (Result-cases after.0) [
                        | inr (e, fails) ↦ absurd (ground arith)
                        | inl (second, seconds) ↦
                            passed now later config read order acknowledged x prepared.1 cancel.1
                              result first second refl refl places seconds (ground arith) passes
                      ]
                    ]
                  ]
            ]
      ]
