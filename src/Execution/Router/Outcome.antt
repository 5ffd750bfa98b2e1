-- ===== src/Execution/Router/Outcome.antt =====
-- What a call of `OrderRouter.route` can do: execution/order_router.py.
use mathlib.Core.Bool.{false≢true}
use crypto_dual_sleeve_tradi.Base.{
  ℕ, String, ◌≡◌, ◌≢◌, ◌⊎◌, inl, inr, true, false, none, some, arith,
}
use crypto_dual_sleeve_tradi.Base.Text.{eq_iff}
use crypto_dual_sleeve_tradi.Base.Result.{Result-cases, ok}
use crypto_dual_sleeve_tradi.Base.Key.{string_key, pair_key}
use crypto_dual_sleeve_tradi.Core.Enums.{
  submitted, signal_only, entry, TradingMode, trading_mode_enum, sleeve_id_enum, order_side_enum,
  position_side_enum, order_type_enum, order_action_enum, order_status_enum, safe_mode_state_enum,
  circuit_action_enum,
}
use crypto_dual_sleeve_tradi.Exchange.Filters.{
  normalize_order_intent, MeetsFilters, normalize-MeetsFilters,
}
use crypto_dual_sleeve_tradi.Execution.OrderState.{transition}
use crypto_dual_sleeve_tradi.Exchange.Interfaces.{ExchangeAdapter}
use crypto_dual_sleeve_tradi.Execution.SafeMode.{allows_new_entries, SafeModeController}
use crypto_dual_sleeve_tradi.Core.Models.{new_order, OrderRecord, SymbolFilters, OrderIntent}
use crypto_dual_sleeve_tradi.Exchange.Filters.Cut.{IsCutPrice, normalize-IsCut, IsCut}
use crypto_dual_sleeve_tradi.Execution.Router.{route, dispatch, RouteResult, order_of}

-- the reasons of `RouteResult` are different texts
reasons_differ :
    (◌≢◌ {A = String} "SAFE_MODE_BLOCKS_NEW_ENTRIES" "SUBMITTED_TO_SIM_OR_TESTNET")
    × (◌≢◌ {A = String} "CLOSE_ORDER_MUST_BE_REDUCE_ONLY" "SUBMITTED_TO_SIM_OR_TESTNET")
    × (◌≢◌ {A = String} "SIGNAL_ONLY_NO_SUBMIT" "SUBMITTED_TO_SIM_OR_TESTNET")
reasons_differ = (
  λ e. false≢true ((eq_iff _ _).1 e),
  λ e. false≢true ((eq_iff _ _).1 e),
  λ e. false≢true ((eq_iff _ _).1 e),
)

module _ {X : Type 0} (adapter : ExchangeAdapter X) where
  -- With the safe mode on, an entry is refused, and the exchange is not asked anything.
  pub route_safe_mode :
      (mode : TradingMode) (safe : SafeModeController) (now : ℕ) (intent : OrderIntent) (x : X)
      → allows_new_entries safe ≡ false
      → intent.action ≡ entry
      → route adapter mode safe now intent x ≡ (
        ok (record { accepted = false; order = none; reason = "SAFE_MODE_BLOCKS_NEW_ENTRIES" }),
        x,
      )
  unfolding route
  route_safe_mode mode safe now intent x blocked e = ground arith

  -- An order that is no entry and is not reduce-only is refused, in every mode, and the exchange is
  -- not asked anything.
  pub route_close :
      (mode : TradingMode) (safe : SafeModeController) (now : ℕ) (intent : OrderIntent) (x : X)
      → intent.action ≢ entry
      → intent.reduce_only ≡ false
      → route adapter mode safe now intent x ≡ (
        ok (record { accepted = false; order = none; reason = "CLOSE_ORDER_MUST_BE_REDUCE_ONLY" }),
        x,
      )
  unfolding route
  route_close mode safe now intent x other loose = ground arith

  -- In SIGNAL_ONLY mode the exchange is asked for the filters of the symbol at most.
  pub route_signal_only :
      (safe : SafeModeController) (now : ℕ) (intent : OrderIntent) (x : X)
      → ((route adapter signal_only safe now intent x).1 ≡ x)
        ⊎ ((route adapter signal_only safe now intent x).1
            ≡ (adapter.get_symbol_filters intent.symbol x).1)
  unfolding route dispatch
  route_signal_only safe now intent x = ground arith

  -- What is known of an order that the router hands to the exchange.
  pub record IsSubmittable (safe : SafeModeController) (filters : SymbolFilters)
      (intent : OrderIntent) (order : OrderRecord) : Type 0 where
    pub status_submitted : order.status ≡ submitted
    pub meets : MeetsFilters order.intent filters
    pub quantity_cut : IsCut intent.quantity filters.step_size order.intent.quantity
    pub price_cut : IsCutPrice intent.price filters.tick_size order.intent.price
    pub same_symbol : order.intent.symbol ≡ intent.symbol
    pub same_action : order.intent.action ≡ intent.action
    pub entry_allowed : intent.action ≡ entry → allows_new_entries safe ≡ true
    pub close_reduces : intent.action ≢ entry → order.intent.reduce_only ≡ true

  -- What a submission of `intent` has done: `after` is the exchange behind it.
  pub record IsSubmission (safe : SafeModeController) (intent : OrderIntent) (x : X)
      (r : RouteResult) (after : X) : Type 0 where
    pub filters : SymbolFilters
    pub sent : OrderRecord
    pub answer : OrderRecord
    pub filters_answered : (adapter.get_symbol_filters intent.symbol x).0 ≡ ok filters
    pub submittable : IsSubmittable safe filters intent sent
    pub after_submission :
        after ≡ (adapter.submit_order sent (adapter.get_symbol_filters intent.symbol x).1).1
    pub answered :
        (adapter.submit_order sent (adapter.get_symbol_filters intent.symbol x).1).0 ≡ ok answer
    pub reported : r.order ≡ some answer

  -- Whenever `route` reports a submission, the exchange was given exactly one order, the one that
  -- `IsSubmittable` describes, under the filters that the exchange itself answered: it is SUBMITTED; its
  -- quantity and its price are those of the intent, cut to whole steps and ticks; its quantity is
  -- positive and its notional reaches the minimum; it is an entry only while the safe mode is off, and
  -- else reduces a position. And the order that the exchange answered is reported.
  pub route_submits :
      (mode : TradingMode) (safe : SafeModeController) (now : ℕ) (intent : OrderIntent) (x : X)
      (r : RouteResult)
      → (route adapter mode safe now intent x).0 ≡ ok r
      → r.reason ≡ "SUBMITTED_TO_SIM_OR_TESTNET"
      → IsSubmission safe intent x r (route adapter mode safe now intent x).1
  unfolding route dispatch new_order transition
  route_submits mode safe now intent x r e reason =
      elim (Result-cases (adapter.get_symbol_filters intent.symbol x).0) [
        | inr (exc, asked) ↦ absurd (ground (arith, reasons_differ))
        | inl (filters, asked) ↦ elim (Result-cases (normalize_order_intent intent filters)) [
          | inr (exc, fails) ↦ absurd (ground (arith, reasons_differ))
          | inl (normal, normalizes) ↦
              let order = (transition now submitted (order_of now normal)).1 in
              let rest = (adapter.get_symbol_filters intent.symbol x).1 in
              elim (Result-cases (adapter.submit_order order rest).0) [
                | inr (exc, fails) ↦ absurd (ground (arith, reasons_differ))
                | inl (answer, sent) ↦
                    let normal_facts = normalize-MeetsFilters intent filters normalizes in
                    let (quantity_cut, price_cut) = normalize-IsCut intent filters normalizes in
                    record {
                      filters = filters;
                      sent = order;
                      answer = answer;
                      filters_answered = asked;
                      submittable = record {
                        status_submitted = ground arith;
                        meets = ground (arith, normal_facts);
                        quantity_cut = quantity_cut;
                        price_cut = price_cut;
                        same_symbol = ground (arith, normal_facts);
                        same_action = ground (arith, normal_facts);
                        entry_allowed = ground (arith, reasons_differ);
                        close_reduces = ground (arith, reasons_differ, normal_facts);
                      };
                      after_submission = ground (arith, reasons_differ);
                      answered = sent;
                      reported = ground (arith, reasons_differ);
                    }
              ]
        ]
      ]
