-- ===== src/Ops/Startup/Scan.antt =====
-- What the scan of scripts/run_sleeve_b_auto_scan.py returns.
use crypto_dual_sleeve_tradi.Base.{
  ℕ, String, ◌≡◌, sym, ◌⊎◌, inl, inr, none, some, List, [], ◌∷◌, map, arith, Option-cases,
}
use crypto_dual_sleeve_tradi.Base.Result.{Result-cases, ok}
use crypto_dual_sleeve_tradi.Base.Key.{string_key, pair_key}
use crypto_dual_sleeve_tradi.Core.Enums.{
  trading_mode_enum, sleeve_id_enum, order_side_enum, position_side_enum, order_type_enum,
  order_action_enum, order_status_enum, safe_mode_state_enum, circuit_action_enum,
}
use crypto_dual_sleeve_tradi.Base.Exec.{Exec}
use crypto_dual_sleeve_tradi.Strategies.Bars.{OhlcBar}
use crypto_dual_sleeve_tradi.Ops.Startup.{ScanLimits, scan, fetch_markets}
use crypto_dual_sleeve_tradi.Execution.Allocator.{SleeveBSignalCandidate}
use crypto_dual_sleeve_tradi.Strategies.Candidates.Built.{build-IsBuilt, build-symbol, IsBuilt}
use crypto_dual_sleeve_tradi.Strategies.Candidates.{
  build_sleeve_b_candidate, build_sleeve_b_candidates, SleeveBMarketData,
  SleeveBCandidateBuildResult, default_config,
}

module _ {X : Type 0} (fetch_klines : String → String → ℕ → Exec X (List OhlcBar))
    (lower : String → String) where
  fetch_markets-symbols :
      (limits : ScanLimits) (symbols : List String) (x : X) (markets : List SleeveBMarketData)
      → (fetch_markets fetch_klines lower limits symbols x).0 ≡ ok markets
      → map (λ item. item.symbol) markets ≡ symbols
  unfolding fetch_markets
  fetch_markets-symbols limits [] x markets h = ground arith
  fetch_markets-symbols limits (symbol ∷ symbols) x markets h =
      let daily = fetch_klines symbol "1d" limits.daily x in
      let four_hour = fetch_klines symbol "4h" limits.four_hour daily.1 in
      let one_hour = fetch_klines symbol "1h" limits.one_hour four_hour.1 in
      let rest = fetch_markets fetch_klines lower limits symbols one_hour.1 in
      elim (Result-cases rest.0) [
        | inr (e, fails) ↦ absurd (ground arith)
        | inl (others, fetches) ↦
            let same = fetch_markets-symbols limits symbols one_hour.1 others fetches in
            ground arith
      ]

  -- A result is of the market's symbol, and its candidate, if any, is built from the market.
  abbrev pub Justified : SleeveBMarketData → SleeveBCandidateBuildResult → Type 0
  Justified market result =
      (market.symbol ≡ result.symbol)
      × ((result.candidate ≡ none)
          ⊎ ((c : SleeveBSignalCandidate) × (result.candidate ≡ some c)
              × IsBuilt lower market default_config c))

  -- The results are one for each market, in order, each justified by its market.
  abbrev pub IsJustified : List SleeveBMarketData → List SleeveBCandidateBuildResult → Type 0
  IsJustified [] [] = Unit
  IsJustified [] (result ∷ results) = ⊥
  IsJustified (market ∷ markets) [] = ⊥
  IsJustified (market ∷ markets) (result ∷ results) =
      Justified market result × IsJustified markets results

  build-Justified :
      (market : SleeveBMarketData) (result : SleeveBCandidateBuildResult)
      → build_sleeve_b_candidate lower market default_config ≡ ok result
      → Justified market result
  build-Justified market result h = (
    sym (build-symbol lower market default_config result h),
    elim (Option-cases result.candidate) [
      | inl without ↦ inl without
      | inr (c, has) ↦ inr (c, has, build-IsBuilt lower market default_config result c h has)
    ],
  )

  built-IsJustified :
      (markets : List SleeveBMarketData) (results : List SleeveBCandidateBuildResult)
      → build_sleeve_b_candidates lower markets default_config ≡ ok results
      → IsJustified markets results
  unfolding build_sleeve_b_candidates
  built-IsJustified [] results h =
      let none_left : [] ≡ results = ground arith in rw (← none_left) tt
  built-IsJustified (market ∷ markets) results h =
      elim (Result-cases (build_sleeve_b_candidate lower market default_config)) [
        | inr (e, fails) ↦ absurd (ground arith)
        | inl (built, builds) ↦
            elim (Result-cases (build_sleeve_b_candidates lower markets default_config)) [
              | inr (e, fails) ↦ absurd (ground arith)
              | inl (rest, rests) ↦
                  let is : built ∷ rest ≡ results = ground arith in
                  rw (← is)
                    (build-Justified market built builds, built-IsJustified markets rest rests)
            ]
      ]

  -- A scan that gives results has fetched the markets of the symbols, in their order, and gives one
  -- result for each of them: of the market's symbol, and with a candidate only where the market's bars
  -- are as the candidate builder asks for under its defaults.
  pub scan-IsJustified :
      (limits : ScanLimits) (symbols : List String) (x : X)
      (results : List SleeveBCandidateBuildResult)
      → (scan fetch_klines lower limits symbols x).0 ≡ ok results
      → (markets : List SleeveBMarketData) × ((fetch_markets fetch_klines lower limits symbols x).0
          ≡ ok markets)
        × (map (λ market. market.symbol) markets ≡ symbols)
        × IsJustified markets results
  unfolding scan
  scan-IsJustified limits symbols x results h =
      let fetched = fetch_markets fetch_klines lower limits symbols x in
      elim (Result-cases fetched.0) [
        | inr (e, fails) ↦ absurd (ground arith)
        | inl (markets, fetches) ↦
            let builds : build_sleeve_b_candidates lower markets default_config ≡ ok results =
              ground arith in
            (
              markets,
              fetches,
              fetch_markets-symbols limits symbols x markets fetches,
              built-IsJustified markets results builds,
            )
      ]
