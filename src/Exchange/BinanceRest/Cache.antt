-- ===== src/Exchange/BinanceRest/Cache.antt =====
-- The cache of filters in exchange/binance_rest.py.
use crypto_dual_sleeve_tradi.Base.{
  String, ◌≡◌, refl, inl, inr, Bool, false, some, List, [], ◌∷◌, arith, Option-cases, All,
}
use crypto_dual_sleeve_tradi.Base.Text.{eq_iff}
use crypto_dual_sleeve_tradi.Base.Enum.{value}
use crypto_dual_sleeve_tradi.Base.Result.{Result-cases, ok}
use crypto_dual_sleeve_tradi.Base.Key.{string_key, pair_key}
use crypto_dual_sleeve_tradi.Base.Dict
use crypto_dual_sleeve_tradi.Base.Dict.{Dict}
use crypto_dual_sleeve_tradi.Core.Models.{SymbolFilters}
use crypto_dual_sleeve_tradi.Exchange.Requests.{Adapter, request, Platform}
use crypto_dual_sleeve_tradi.Exchange.BinanceRest.{
  symbol_items, array, text, parse_symbol_filters, object, get_symbol_filters, load_exchange_info,
  collect_filters,
}
use crypto_dual_sleeve_tradi.Exchange.Payloads.{null, number, boolean, Json}
use crypto_dual_sleeve_tradi.Core.Enums.{
  trading_mode_enum, sleeve_id_enum, order_side_enum, position_side_enum, order_type_enum,
  order_action_enum, order_status_enum, safe_mode_state_enum, circuit_action_enum,
}

-- each entry stands under its own symbol
abbrev pub IsKeyed : Dict String SymbolFilters → Type 0
IsKeyed filters = All (λ entry. entry.1.symbol ≡ entry.0) filters

insert-IsKeyed :
    (f : SymbolFilters) (filters : Dict String SymbolFilters)
    → IsKeyed filters
    → IsKeyed (Dict.insert f.symbol f filters)
unfolding Dict.insert
insert-IsKeyed f [] keyed = (refl, tt)
insert-IsKeyed f ((symbol, g) ∷ filters) (here, keyed) =
    ground (arith, eq_iff f.symbol symbol, insert-IsKeyed f filters keyed)

lookup-symbol :
    (symbol : String) (f : SymbolFilters) (filters : Dict String SymbolFilters)
    → IsKeyed filters
    → Dict.lookup symbol filters ≡ some f
    → f.symbol ≡ symbol
unfolding Dict.lookup
lookup-symbol symbol f [] keyed h = cc
lookup-symbol symbol f ((other, g) ∷ filters) (here, keyed) h =
    ground (arith, eq_iff symbol other, lookup-symbol symbol f filters keyed)

module _ {W : Type 0} (platform : Platform W) where
  collect-IsKeyed :
      (items : List Json) (filters collected : Dict String SymbolFilters)
      → IsKeyed filters
      → collect_filters platform items filters ≡ ok collected
      → IsKeyed collected
  unfolding collect_filters
  collect-IsKeyed [] filters collected keyed h =
      let same : filters ≡ collected = ground arith in rw (← same) keyed
  collect-IsKeyed (object info ∷ rest) filters collected keyed h =
      elim (Result-cases (parse_symbol_filters platform info)) [
        | inr (e, fails) ↦ absurd (ground arith)
        | inl (parsed, parses) ↦ elim (Option-cases parsed) [
          | inl skips ↦
              let goes : collect_filters platform rest filters ≡ ok collected = ground arith in
              collect-IsKeyed rest filters collected keyed goes
          | inr (f, keeps) ↦
              let goes : collect_filters platform rest (Dict.insert f.symbol f filters)
                  ≡ ok collected =
                ground arith in
              collect-IsKeyed rest (Dict.insert f.symbol f filters) collected
                (insert-IsKeyed f filters keyed) goes
        ]
      ]
  collect-IsKeyed (null ∷ rest) filters collected keyed h = absurd (ground arith)
  collect-IsKeyed (boolean b ∷ rest) filters collected keyed h = absurd (ground arith)
  collect-IsKeyed (number t ∷ rest) filters collected keyed h = absurd (ground arith)
  collect-IsKeyed (text t ∷ rest) filters collected keyed h = absurd (ground arith)
  collect-IsKeyed (array items ∷ rest) filters collected keyed h = absurd (ground arith)

  request-cache :
      (method path : String) (params : Dict String String) (signed : Bool) (adapter : Adapter W)
      → (request platform method path params signed adapter).1.filters_cache ≡ adapter.filters_cache
  unfolding request
  request-cache method path params signed adapter = ground arith

  -- What loading leaves in the cache.
  load-IsKeyed :
      (adapter : Adapter W)
      → IsKeyed adapter.filters_cache
      → IsKeyed (load_exchange_info platform adapter).1.filters_cache
  unfolding load_exchange_info
  load-IsKeyed adapter keyed =
      let asked = request platform "GET" "/fapi/v1/exchangeInfo" [] false adapter in
      let same = request-cache "GET" "/fapi/v1/exchangeInfo" [] false adapter in
      let behind = (load_exchange_info platform adapter).1.filters_cache in
      elim (Result-cases asked.0) [
        | inr (e, fails) ↦ let kept : behind ≡ adapter.filters_cache = ground arith in rw kept keyed
        | inl (value, answers) ↦ elim (Result-cases (symbol_items platform value)) [
          | inr (e, fails) ↦
              let kept : behind ≡ adapter.filters_cache = ground arith in rw kept keyed
          | inl (items, lists) ↦ elim (Result-cases (collect_filters platform items [])) [
            | inr (e, fails) ↦
                let kept : behind ≡ adapter.filters_cache = ground arith in rw kept keyed
            | inl (collected, collects) ↦
                let loaded : behind ≡ collected = ground arith in
                rw loaded (collect-IsKeyed items [] collected tt collects)
          ]
        ]
      ]

  -- A call for filters keeps the cache keyed by the symbols, also when it raises.
  pub get_symbol_filters-IsKeyed :
      (symbol : String) (adapter : Adapter W)
      → IsKeyed adapter.filters_cache
      → IsKeyed (get_symbol_filters platform symbol adapter).1.filters_cache
  unfolding get_symbol_filters
  get_symbol_filters-IsKeyed symbol adapter keyed =
      let here = (get_symbol_filters platform symbol adapter).1.filters_cache in
      elim (Option-cases (Dict.lookup symbol adapter.filters_cache)) [
        | inr (f, holds) ↦ let kept : here ≡ adapter.filters_cache = ground arith in rw kept keyed
        | inl missing ↦
            let kept : here ≡ (load_exchange_info platform adapter).1.filters_cache =
              ground arith in
            rw kept (load-IsKeyed adapter keyed)
      ]

  answered-cached :
      (symbol : String) (adapter : Adapter W) (f : SymbolFilters)
      → (get_symbol_filters platform symbol adapter).0 ≡ ok f
      → Dict.lookup symbol (get_symbol_filters platform symbol adapter).1.filters_cache ≡ some f
  unfolding get_symbol_filters
  answered-cached symbol adapter f h =
      elim (Option-cases (Dict.lookup symbol adapter.filters_cache)) [
        | inr (g, holds) ↦ ground arith
        | inl missing ↦
            let loaded = load_exchange_info platform adapter in
            elim (Option-cases (Dict.lookup symbol loaded.1.filters_cache)) [
              | inl nowhere ↦ absurd (ground arith)
              | inr (g, holds) ↦ ground arith
            ]
      ]

  held-answer :
      (symbol : String) (adapter : Adapter W) (f : SymbolFilters)
      → Dict.lookup symbol adapter.filters_cache ≡ some f
      → get_symbol_filters platform symbol adapter ≡ (ok f, adapter)
  unfolding get_symbol_filters
  held-answer symbol adapter f h = ground arith

  -- What a call for filters answers, on a cache that is keyed by the symbols, are the filters of that
  -- symbol, and it leaves the cache keyed. A second call is answered the same without a request, and
  -- leaves everything as it is.
  pub filters_cached :
      (symbol : String) (adapter : Adapter W) (f : SymbolFilters)
      → IsKeyed adapter.filters_cache
      → (get_symbol_filters platform symbol adapter).0 ≡ ok f
      → let after = (get_symbol_filters platform symbol adapter).1 in
        (f.symbol ≡ symbol)
        × IsKeyed after.filters_cache
        × (get_symbol_filters platform symbol after ≡ (ok f, after))
  filters_cached symbol adapter f keyed h =
      let after = (get_symbol_filters platform symbol adapter).1 in
      let holds = answered-cached symbol adapter f h in
      let kept = get_symbol_filters-IsKeyed symbol adapter keyed in
      (
        lookup-symbol symbol f after.filters_cache kept holds,
        kept,
        held-answer symbol after f holds,
      )
