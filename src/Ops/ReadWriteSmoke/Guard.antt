-- ===== src/Ops/ReadWriteSmoke/Guard.antt =====
-- What a run of ops/testnet_read_write_smoke.py checks before it places its order.
use crypto_dual_sleeve_tradi.Base.{
  [], ◌∷◌, ap, none, ◌∙◌, ◌++◌, ◌≢◌, ◌∙◌, Option-cases, All, ◌++◌, ◌≢◌, List, ℕ, String, ◌≡◌, refl,
  ◌⊎◌, inl, inr, Bool, true, false, Option, some, arith, Bool-cases,
}
use crypto_dual_sleeve_tradi.Base.Result.{Result-cases, Exception, ok, err}
use crypto_dual_sleeve_tradi.Base.Key.{string_key, pair_key}
use crypto_dual_sleeve_tradi.Decimal
use crypto_dual_sleeve_tradi.Decimal.{Decimal, nought}
use crypto_dual_sleeve_tradi.Ops.ReadWriteSmoke.{
  find_position_mark_price, resolve_mark_price, ReadWriteSmokeExchange, validate_non_marketable,
  TestnetSmokeOrderConfig,
}
use crypto_dual_sleeve_tradi.Ops.ReadWriteSmoke.Run.{prepare, run_with_exchange, Read}
use crypto_dual_sleeve_tradi.Core.Models.{SymbolFilters, ExchangePositionSnapshot}
use crypto_dual_sleeve_tradi.Base.Text.{eq_iff, str_eq}
use crypto_dual_sleeve_tradi.Core.Enums.{
  sell, buy, OrderSide, trading_mode_enum, sleeve_id_enum, order_side_enum, position_side_enum,
  order_type_enum, order_action_enum, order_status_enum, safe_mode_state_enum, circuit_action_enum,
}

-- the guard on the price of the order
abbrev pub PriceGuard : TestnetSmokeOrderConfig → Decimal → OrderSide → Type 0
PriceGuard config mark buy =
    Decimal.lt config.limit_price
      (Decimal.mul mark (Decimal.sub Decimal.one config.non_marketable_margin))
    ≡ true
PriceGuard config mark sell =
    Decimal.lt (Decimal.mul mark (Decimal.add Decimal.one config.non_marketable_margin))
      config.limit_price
    ≡ true

abbrev pub Guarded : TestnetSmokeOrderConfig → Decimal → Type 0
Guarded config mark =
    (config.require_non_marketable ≡ false)
    ⊎ ((Decimal.lt nought mark ≡ true)
        × (Decimal.lt nought config.non_marketable_margin ≡ true)
        × (Decimal.lt config.non_marketable_margin Decimal.one ≡ true)
        × PriceGuard config mark config.side)

validate-PriceGuard :
    (decimal_text : Decimal → String) (config : TestnetSmokeOrderConfig) (mark : Decimal)
    (side : OrderSide)
    → config.side ≡ side
    → config.require_non_marketable ≡ true
    → validate_non_marketable decimal_text config mark ≡ ok tt
    → PriceGuard config mark side
unfolding validate_non_marketable Decimal.lt
validate-PriceGuard decimal_text config mark buy is_side asked h = ground arith
validate-PriceGuard decimal_text config mark sell is_side asked h = ground arith

validate-Guarded :
    (decimal_text : Decimal → String) (config : TestnetSmokeOrderConfig) (mark : Decimal)
    → validate_non_marketable decimal_text config mark ≡ ok tt
    → Guarded config mark
unfolding validate_non_marketable Decimal.lt
validate-Guarded decimal_text config mark h = elim (Bool-cases config.require_non_marketable) [
  | inr free ↦ inl free
  | inl asked ↦ inr (
    ground arith,
    ground arith,
    ground arith,
    validate-PriceGuard decimal_text config mark config.side refl asked h,
  )
]

-- a position without a mark price for `symbol`
abbrev IsUnquoted : String → ExchangePositionSnapshot → Type 0
IsUnquoted symbol position = (position.symbol ≢ symbol) ⊎ (position.mark_price ≡ none)

-- `price` is the mark price of the first position that has one for `symbol`.
abbrev pub Quotes : String → List ExchangePositionSnapshot → Decimal → Type 0
Quotes symbol positions price =
    (front : List ExchangePositionSnapshot) × (position : ExchangePositionSnapshot) × (back : List
      ExchangePositionSnapshot)
    × (positions ≡ front ++ position ∷ back)
    × All (IsUnquoted symbol) front
    × (position.symbol ≡ symbol)
    × (position.mark_price ≡ some price)

abbrev pub Finds : String → List ExchangePositionSnapshot → Option Decimal → Type 0
Finds symbol positions none = All (IsUnquoted symbol) positions
Finds symbol positions (some price) = Quotes symbol positions price

Finds-skip :
    (symbol : String) (position : ExchangePositionSnapshot)
    (positions : List ExchangePositionSnapshot) (found : Option Decimal)
    → IsUnquoted symbol position
    → Finds symbol positions found
    → Finds symbol (position ∷ positions) found
Finds-skip symbol position positions none skips rest = (skips, rest)
Finds-skip symbol position positions (some price) skips rest =
    let (front, quoted, back, splits, others, is, has) = rest in
    (position ∷ front, quoted, back, ap (λ l. position ∷ l) splits, (skips, others), is, has)

find-Finds :
    (symbol : String) (positions : List ExchangePositionSnapshot) (found : Option Decimal)
    → find_position_mark_price symbol positions ≡ found
    → Finds symbol positions found
unfolding find_position_mark_price
find-Finds symbol [] none h = tt
find-Finds symbol [] (some price) h = ground arith
find-Finds symbol (position ∷ positions) found h = elim (Option-cases position.mark_price) [
  | inl without ↦
      Finds-skip symbol position positions found (inr without)
        (find-Finds symbol positions found (ground arith))
  | inr (mark, has) ↦ elim (Bool-cases (str_eq position.symbol symbol)) [
    | inl e ↦
        let is : some mark ≡ found = ground arith in
        rw (← is) ([], position, positions, refl, tt, (eq_iff _ _).0 e, has)
    | inr e ↦
        let other : position.symbol ≢ symbol = ground (arith, eq_iff position.symbol symbol) in
        Finds-skip symbol position positions found (inl other)
          (find-Finds symbol positions found (ground arith))
  ]
]

module _ {X : Type 0} (decimal_text : Decimal → String) (exchange : ReadWriteSmokeExchange X) where
  -- The mark price is that of the first position that has one for the symbol, where it is positive, and
  -- else what the exchange answers for the symbol.
  abbrev pub IsMarkPrice : String → List ExchangePositionSnapshot → X → Decimal → Type 0
  IsMarkPrice symbol positions x mark =
      (Quotes symbol positions mark × (Decimal.lt nought mark ≡ true))
      ⊎ ((All (IsUnquoted symbol) positions
            ⊎ ((price : Decimal) × Quotes symbol positions price
                × (Decimal.le price nought ≡ true)))
          × ((exchange.fetch_mark_price symbol x).0 ≡ ok mark))

  resolve-IsMarkPrice :
      (symbol : String) (positions : List ExchangePositionSnapshot) (x : X) (mark : Decimal)
      → (resolve_mark_price exchange symbol positions x).0 ≡ ok mark
      → IsMarkPrice symbol positions x mark
  unfolding resolve_mark_price Decimal.lt
  resolve-IsMarkPrice symbol positions x mark h =
      elim (Option-cases (find_position_mark_price symbol positions)) [
        | inl without ↦ inr (inl (find-Finds symbol positions none without), ground arith)
        | inr (price, has) ↦
            let quotes : Quotes symbol positions price =
              find-Finds symbol positions (some price) has in
            elim (Bool-cases (Decimal.le price nought)) [
              | inl e ↦ inr (inr (price, quotes, e), ground arith)
              | inr e ↦
                  let is : price ≡ mark = ground arith in
                  inl (rw is at quotes, rw (← is) (ground arith))
            ]
      ]

  -- what is read before an order, from the exchange at `x` on: the filters of the symbol, the account,
  -- the positions of the symbol and its mark price, which passes the guard
  abbrev pub Prepared : TestnetSmokeOrderConfig → Bool → X → Read → Type 0
  Prepared config acknowledged x read =
      let filters = exchange.adapter.get_symbol_filters config.symbol x in
      let account = exchange.fetch_account_snapshot filters.1 in
      let fetched = exchange.positions.fetch_position_snapshots (some config.symbol) account.1 in
      (mark : Decimal) × (known : SymbolFilters) × (acknowledged ≡ true)
      × (filters.0 ≡ ok known)
      × (account.0 ≡ ok read.0)
      × (fetched.0 ≡ ok read.1)
      × IsMarkPrice config.symbol read.1 fetched.1 mark
      × Guarded config mark

  prepare-Prepared :
      (config : TestnetSmokeOrderConfig) (acknowledged : Bool) (x : X) (read : Read)
      → (prepare decimal_text exchange config acknowledged x).0 ≡ ok read
      → Prepared config acknowledged x read
  unfolding prepare
  prepare-Prepared config acknowledged x read h =
      let filters = exchange.adapter.get_symbol_filters config.symbol x in
      let account = exchange.fetch_account_snapshot filters.1 in
      let fetched = exchange.positions.fetch_position_snapshots (some config.symbol) account.1 in
      elim (Result-cases filters.0) [
        | inr (e, fails) ↦ absurd (ground arith)
        | inl (known, knows) ↦ elim (Result-cases fetched.0) [
          | inr (e, fails) ↦ absurd (ground arith)
          | inl (positions, fetches) ↦
              let resolved = resolve_mark_price exchange config.symbol positions fetched.1 in
              elim (Result-cases resolved.0) [
                | inr (e, fails) ↦ absurd (ground arith)
                | inl (mark, marks) ↦
                    let same : positions ≡ read.1 = ground arith in
                    let is_mark =
                      resolve-IsMarkPrice config.symbol positions fetched.1 mark marks in
                    (
                      mark,
                      known,
                      ground arith,
                      knows,
                      ground arith,
                      fetches ∙ ap ok same,
                      rw same at is_mark,
                      validate-Guarded decimal_text config mark (ground arith),
                    )
              ]
        ]
      ]

  -- A run whose preparation raises ends there, with its error and with the exchange as the reading left
  -- it: no order is placed. Else the run was acknowledged, and the exchange has answered the filters, the
  -- account, the positions of the symbol and a mark price: that of the first position that has one for
  -- the symbol, where it is positive, and else what the exchange answered for the symbol. And unless the
  -- configuration waives it, the mark price is positive, the margin is between 0 and 1, and the limit
  -- price is beyond the margin from the mark price.
  pub smoke_guard :
      (now later : ℕ) (config : TestnetSmokeOrderConfig) (acknowledged : Bool) (x : X)
      → ((e : Exception) × ((prepare decimal_text exchange config acknowledged x).0 ≡ err e)
          × (run_with_exchange decimal_text exchange now later config acknowledged x
              ≡ (err e, (prepare decimal_text exchange config acknowledged x).1)))
        ⊎ ((read : Read) × ((prepare decimal_text exchange config acknowledged x).0 ≡ ok read)
            × Prepared config acknowledged x read)
  unfolding run_with_exchange
  smoke_guard now later config acknowledged x =
      elim (Result-cases (prepare decimal_text exchange config acknowledged x).0) [
        | inr (e, fails) ↦ inl (e, fails, ground arith)
        | inl (read, reads) ↦ inr (read, reads, prepare-Prepared config acknowledged x read reads)
      ]
