-- ===== src/Ops/ReadWriteSmoke/Cancels.antt =====
-- What a run of ops/testnet_read_write_smoke.py does to the exchange.
use crypto_dual_sleeve_tradi.Base.{ℕ, String, ◌≡◌, ◌⊎◌, inl, inr, Bool, Option, arith}
use crypto_dual_sleeve_tradi.Base.Result.{Result-cases, Exception, Result, ok, err}
use crypto_dual_sleeve_tradi.Base.Key.{string_key, pair_key}
use crypto_dual_sleeve_tradi.Decimal.{Decimal}
use crypto_dual_sleeve_tradi.Ops.ReadWriteSmoke.{
  place, clean_up, TestnetReadWriteSmokeResult, live, ReadWriteSmokeExchange,
  TestnetSmokeOrderConfig,
}
use crypto_dual_sleeve_tradi.Ops.ReadWriteSmoke.Run.{prepare, report, run_with_exchange, Read}
use crypto_dual_sleeve_tradi.Core.Models.{ExchangeOrderSnapshot, OrderRecord}
use crypto_dual_sleeve_tradi.Core.Enums.{
  trading_mode_enum, sleeve_id_enum, order_side_enum, position_side_enum, order_type_enum,
  order_action_enum, order_status_enum, safe_mode_state_enum, circuit_action_enum,
}

module _ {X : Type 0} (decimal_text : Decimal → String) (exchange : ReadWriteSmokeExchange X) where
  -- the run behind a cancellation: the query before it is looked at only now
  abbrev pub behind_cancel :
      ℕ
      → ℕ
      → TestnetSmokeOrderConfig
      → Read
      → OrderRecord
      → Result (Option ExchangeOrderSnapshot)
      → X
      → Result TestnetReadWriteSmokeResult × X
  behind_cancel now later config read order before x =
      let (after, x') = exchange.query_order config.symbol order.client_order_id x in
      elim after [
        | err e ↦ (err e, x')
        | ok queried ↦ elim before [
          | err e ↦ (err e, x')
          | ok asked ↦ report decimal_text exchange now later config read order (asked, queried) x'
        ]
      ]

  abbrev pub Cancels :
      ℕ
      → ℕ
      → TestnetSmokeOrderConfig
      → Read
      → OrderRecord
      → X
      → Result TestnetReadWriteSmokeResult × X
      → Type 0
  Cancels now later config read order placed ran =
      let (before, x1) = exchange.query_order config.symbol order.client_order_id placed in
      let (canceled_order, x2) =
        exchange.adapter.cancel_order order.client_order_id config.symbol x1 in
      ((e : Exception) × (canceled_order ≡ err e) × (ran ≡ (err e, x2)))
      ⊎ ((answer : Option OrderRecord) × (canceled_order ≡ ok answer)
          × (ran ≡ behind_cancel now later config read order before x2))

  -- Once the order is placed the exchange is always asked to cancel it, under its own id, whatever the
  -- query before came to, an exception included. Where the cancellation raises so does the run; else
  -- the run goes on behind it.
  pub smoke-Cancels :
      (now later : ℕ) (config : TestnetSmokeOrderConfig) (acknowledged : Bool) (x : X) (read : Read)
      (order : OrderRecord)
      → (prepare decimal_text exchange config acknowledged x).0 ≡ ok read
      → (place exchange now config (prepare decimal_text exchange config acknowledged x).1).0
        ≡ ok order
      → Cancels now later config read order
          (place exchange now config (prepare decimal_text exchange config acknowledged x).1).1
          (run_with_exchange decimal_text exchange now later config acknowledged x)
  unfolding run_with_exchange live clean_up
  smoke-Cancels now later config acknowledged x read order prepared placed =
      let placed_at =
        (place exchange now config (prepare decimal_text exchange config acknowledged x).1).1 in
      let asked = exchange.query_order config.symbol order.client_order_id placed_at in
      let cancel = exchange.adapter.cancel_order order.client_order_id config.symbol asked.1 in
      elim (Result-cases cancel.0) [
        | inr (e, fails) ↦ inl (e, fails, ground arith)
        | inl (answer, answers) ↦ inr (answer, answers, ground arith)
      ]
