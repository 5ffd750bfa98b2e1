-- ===== src/Ops/ReadWriteSmoke/Submission.antt =====
-- What placing the order of ops/testnet_read_write_smoke.py comes to.
use crypto_dual_sleeve_tradi.Base.{ℕ, ◌≡◌, inl, inr, some, arith}
use crypto_dual_sleeve_tradi.Base.Result.{Result-cases, ok}
use crypto_dual_sleeve_tradi.Base.Key.{string_key, pair_key}
use crypto_dual_sleeve_tradi.Core.Models.{OrderRecord}
use crypto_dual_sleeve_tradi.Ops.ReadWriteSmoke.{
  intent_of, TestnetSmokeOrderConfig, place, ReadWriteSmokeExchange,
}
use crypto_dual_sleeve_tradi.Execution.Router.{RouteResult, dispatch, route}
use crypto_dual_sleeve_tradi.Execution.SafeMode.{new_controller, allows_new_entries}
use crypto_dual_sleeve_tradi.Execution.Router.Outcome.{route_submits, IsSubmission}
use crypto_dual_sleeve_tradi.Core.Enums.{
  exchange_testnet, trading_mode_enum, sleeve_id_enum, order_side_enum, position_side_enum,
  order_type_enum, order_action_enum, order_status_enum, safe_mode_state_enum, circuit_action_enum,
}

module _ {X : Type 0} (exchange : ReadWriteSmokeExchange X) where
  route_testnet-reason :
      (now : ℕ) (config : TestnetSmokeOrderConfig) (x : X) (r : RouteResult) (order : OrderRecord)
      → (route exchange.adapter exchange_testnet (new_controller now) now (intent_of config) x).0
        ≡ ok r
      → r.order ≡ some order
      → r.reason ≡ "SUBMITTED_TO_SIM_OR_TESTNET"
  unfolding route dispatch allows_new_entries
  route_testnet-reason now config x r order h has = ground arith

  -- An order that is placed was submitted to the exchange by the router.
  pub place-IsSubmission :
      (now : ℕ) (config : TestnetSmokeOrderConfig) (x : X) (order : OrderRecord)
      → (place exchange now config x).0 ≡ ok order
      → (r : RouteResult) × (r.order ≡ some order)
        × IsSubmission exchange.adapter
            (new_controller now)
            (intent_of config)
            x
            r
            (place exchange now config x).1
  unfolding place
  place-IsSubmission now config x order h =
      let routed =
        route exchange.adapter exchange_testnet (new_controller now) now (intent_of config) x in
      elim (Result-cases routed.0) [
        | inr (e, fails) ↦ absurd (ground arith)
        | inl (r, routes) ↦
            let has : r.order ≡ some order = ground arith in
            let behind : (place exchange now config x).1 ≡ routed.1 = ground arith in
            let reason = route_testnet-reason now config x r order routes has in
            (
              r,
              has,
              rw behind (
                  route_submits exchange.adapter exchange_testnet (new_controller now) now
                    (intent_of config) x r routes reason),
            )
      ]
