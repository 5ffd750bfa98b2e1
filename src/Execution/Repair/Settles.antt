-- ===== src/Execution/Repair/Settles.antt =====
-- A second repair of execution/repair.py over the table of storage/sqlite_store.py.
use crypto_dual_sleeve_tradi.Execution.Repair.Dict
use crypto_dual_sleeve_tradi.Execution.Repair.Decimal
use crypto_dual_sleeve_tradi.Base.{
  sym, ap, ◌∙◌, if◌then◌else◌, ℕ, String, ◌≡◌, refl, inl, inr, Bool, true, false, Option, none,
  some, Bool-cases,
}
use crypto_dual_sleeve_tradi.Base.Text.{eq_iff, str_eq}
use crypto_dual_sleeve_tradi.Base.Result.{ok}
use crypto_dual_sleeve_tradi.Base.Key.{string_key, pair_key}
use crypto_dual_sleeve_tradi.Execution.Repair.{
  local_updated, consistent, apply_remote_snapshot, option_differs, found, answered,
  snapshot_differs, repair_by_client_order_id, settle, Engine, OrderQueryAdapter,
  RepairRecommendation, RepairOrderStore,
}
use crypto_dual_sleeve_tradi.Execution.SafeMode.{SafeModeController}
use crypto_dual_sleeve_tradi.Core.Models.{ExchangeOrderSnapshot, OrderRecord}
use crypto_dual_sleeve_tradi.Storage.Orders.Refinement.{
  as_read?, get-encode, upsert-encode, encode, Orders, merge, as_read,
}
use crypto_dual_sleeve_tradi.Decimal.{Decimal}
use crypto_dual_sleeve_tradi.Storage.Orders.{upsert_order, get_order, OrderTable}
use crypto_dual_sleeve_tradi.Base.Enum.{is}
use crypto_dual_sleeve_tradi.Decimal.Order.{eq_refl}
use crypto_dual_sleeve_tradi.Core.Enums.{
  OrderStatus, trading_mode_enum, sleeve_id_enum, order_side_enum, position_side_enum,
  order_type_enum, order_action_enum, order_status_enum, safe_mode_state_enum, circuit_action_enum,
}

differs_refl :
    {A : Type 0} (eq : A → A → Bool) (o : Option A)
    → ((a : A) → eq a a ≡ true)
    → option_differs eq o o ≡ false
differs_refl eq none h = refl
differs_refl eq (some a) h = rw (h a)

status_taken : (a b : OrderStatus) → is (if is a b then a else b) b ≡ true
status_taken a b = elim (Bool-cases (is a b)) [
  | inl e ↦ rw e e
  | inr e ↦ rw e (let (_, from) = order_status_enum.same b b in from refl)
]

decimal_taken : (a b : Decimal) → Decimal.eq (if Decimal.eq a b then a else b) b ≡ true
decimal_taken a b = elim (Bool-cases (Decimal.eq a b)) [
  | inl e ↦ rw e e
  | inr e ↦ rw e (Decimal.Order.eq_refl b)
]

option_taken :
    {A : Type 0} (eq : A → A → Bool) (a b : Option A)
    → ((x : A) → eq x x ≡ true)
    → option_differs eq (if option_differs eq a b then b else a) b ≡ false
option_taken eq a b h = elim (Bool-cases (option_differs eq a b)) [
  | inl e ↦ rw e (differs_refl eq b h)
  | inr e ↦ rw e e
]

-- the order after an update, read back, agrees with the snapshot
reread_agrees :
    (now later : ℕ) (local : OrderRecord) (remote : ExchangeOrderSnapshot)
    → snapshot_differs
        (as_read later (merge (some local) (apply_remote_snapshot (as_read now local) remote)))
        remote
      ≡ false
unfolding snapshot_differs apply_remote_snapshot
reread_agrees now later local remote =
    rw
      (
        status_taken local.status remote.status,
        decimal_taken local.filled_quantity remote.executed_quantity,
        option_taken Decimal.eq local.average_fill_price remote.average_price eq_refl,
        option_taken str_eq local.exchange_order_id remote.exchange_order_id
            (λ x. let (_, from) = eq_iff x x in from refl),
      )
      refl

text_same : {s t : String} → s ≡ t → str_eq s t ≡ true
text_same {s} {t} e = let (_, from) = eq_iff s t in from e

-- the engine after an order that both sides know, with the same symbol
module _ {S X : Type 0} (store : RepairOrderStore S) (exchange : OrderQueryAdapter X) where
  abbrev compared : OrderRecord → ExchangeOrderSnapshot → Engine S X → Engine S X
  compared local remote e =
      if snapshot_differs local remote
      then record e { store = store.upsert_order (apply_remote_snapshot local remote) e.store }
      else e

  repair_known :
      (now : ℕ) (id : String) (local : OrderRecord) (remote : ExchangeOrderSnapshot)
      (e : Engine S X)
      → store.get_order now id e.store ≡ ok (some local)
      → (exchange.query_order local.intent.symbol id e.exchange).0 ≡ ok (some remote)
      → remote.symbol ≡ local.intent.symbol
      → let rest = (exchange.query_order local.intent.symbol id e.exchange).1 in
        let (result, after) = repair_by_client_order_id store exchange now id e in
        (r : RepairRecommendation) × (result ≡ ok r)
        × (r.reason ≡ (if snapshot_differs local remote then local_updated else consistent))
        × (after ≡ compared local remote (record e { exchange = rest }))
  unfolding repair_by_client_order_id found answered settle
  repair_known now id local remote e stored asked symbols =
      elim (Bool-cases (snapshot_differs local remote)) [
        | inl differs ↦ rw (stored, asked, text_same symbols, differs) (_, refl, refl, refl)
        | inr agrees ↦ rw (stored, asked, text_same symbols, agrees) (_, refl, refl, refl)
      ]

-- the SQLite store in the part that the engine asks for
abbrev pub sqlite_store : RepairOrderStore OrderTable
sqlite_store = record { get_order = get_order; upsert_order = upsert_order }

upsert_read :
    (now later : ℕ) (d : Orders) (local : OrderRecord) (remote : ExchangeOrderSnapshot)
    → Dict.lookup local.client_order_id d ≡ some local
    → let new = apply_remote_snapshot (as_read now local) remote in
      get_order later local.client_order_id (upsert_order new (encode d))
      ≡ ok (some (as_read later (merge (some local) new)))
unfolding apply_remote_snapshot
upsert_read now later d local remote stored =
    let new = apply_remote_snapshot (as_read now local) remote in
    rw
      (
        upsert-encode new d,
        get-encode later local.client_order_id,
        stored,
        Dict.lookup-insert local.client_order_id local.client_order_id,
        text_same {s = local.client_order_id} refl,
      )
      refl

differs_later :
    (now later : ℕ) (local : OrderRecord) (remote : ExchangeOrderSnapshot)
    → snapshot_differs (as_read later local) remote ≡ snapshot_differs (as_read now local) remote
unfolding snapshot_differs
differs_later now later local remote = refl

-- what the store reads back after one repair agrees with the snapshot
stored_agrees :
    (now later : ℕ) (d : Orders) (local : OrderRecord) (remote : ExchangeOrderSnapshot)
    → Dict.lookup local.client_order_id d ≡ some local
    → let before = as_read now local in
      let table =
        if snapshot_differs before remote
        then upsert_order (apply_remote_snapshot before remote) (encode d)
        else encode d in
      (again : OrderRecord) × (get_order later local.client_order_id table ≡ ok (some again))
      × (again.intent.symbol ≡ local.intent.symbol)
      × (snapshot_differs again remote ≡ false)
stored_agrees now later d local remote stored =
    elim (Bool-cases (snapshot_differs (as_read now local) remote)) [
      | inl differs ↦
          rw (differs, upsert_read now later d local remote stored)
            (_, refl, refl, reread_agrees now later local remote)
      | inr agrees ↦
          rw (agrees, get-encode later local.client_order_id d, stored)
            (as_read later local, refl, refl, differs_later now later local remote ∙ agrees)
    ]

module _ {X : Type 0} (exchange : OrderQueryAdapter X) where
  -- A repair of an order that agrees with the exchange changes nothing.
  settled :
      (now : ℕ) (id : String) (local : OrderRecord) (remote : ExchangeOrderSnapshot)
      (e : Engine OrderTable X)
      → get_order now id e.store ≡ ok (some local)
      → (exchange.query_order local.intent.symbol id e.exchange).0 ≡ ok (some remote)
      → remote.symbol ≡ local.intent.symbol
      → snapshot_differs local remote ≡ false
      → let (result, second) = repair_by_client_order_id sqlite_store exchange now id e in
        (r : RepairRecommendation) × (result ≡ ok r)
        × (r.reason ≡ consistent)
        × (second.store ≡ e.store)
        × (second.safe ≡ e.safe)
  settled now id local remote e stored asked symbols agrees =
      let (r, returns, reason, after) =
        repair_known sqlite_store exchange now id local remote e stored asked symbols in
      (r, returns, rw agrees at reason, rw (after, agrees) refl, rw (after, agrees) refl)

  -- Repairing an order twice that the SQLite store holds under its own id, while the exchange answers
  -- the same snapshot of the same symbol both times: the second repair finds the order consistent and
  -- changes neither the store nor the safe mode.
  pub repair_settles :
      (now later : ℕ) (d : Orders) (safe : SafeModeController) (x : X) (local : OrderRecord)
      (remote : ExchangeOrderSnapshot)
      → Dict.lookup local.client_order_id d ≡ some local
      → (exchange.query_order local.intent.symbol local.client_order_id x).0 ≡ ok (some remote)
      → (exchange.query_order local.intent.symbol local.client_order_id
          (exchange.query_order local.intent.symbol local.client_order_id x).1).0
        ≡ ok (some remote)
      → remote.symbol ≡ local.intent.symbol
      → let first =
          (repair_by_client_order_id sqlite_store exchange now local.client_order_id
            (record { safe = safe; store = encode d; exchange = x })).1 in
        let (result, second) =
          repair_by_client_order_id sqlite_store exchange later local.client_order_id first in
        (r : RepairRecommendation) × (result ≡ ok r)
        × (r.reason ≡ consistent)
        × (second.store ≡ first.store)
        × (second.safe ≡ first.safe)
  repair_settles now later d safe x local remote stored first_answer second_answer symbols =
      let (again, reads, same_symbol, agrees) = stored_agrees now later d local remote stored in
      let (r, _, _, after) =
        repair_known sqlite_store exchange now local.client_order_id (as_read now local) remote
          (record { safe = safe; store = encode d; exchange = x })
          (get-encode now local.client_order_id d ∙ ap (λ o. ok (as_read? now o)) stored)
          first_answer symbols in
      rw after (elim (Bool-cases (snapshot_differs (as_read now local) remote)) [
        | inl differs ↦ rw differs (
            settled later local.client_order_id again remote _ (rw differs at reads)
              (rw same_symbol second_answer) (symbols ∙ sym same_symbol) agrees)
        | inr agreed ↦ rw agreed (
            settled later local.client_order_id again remote _ (rw agreed at reads)
              (rw same_symbol second_answer) (symbols ∙ sym same_symbol) agrees)
      ])
