-- ===== src/Ops/Loop/Bounds.antt =====
-- How long the loop of execution/periodic_reconciliation.py and ops/daemon.py runs.
use mathlib.Core.Path.{subst}
use crypto_dual_sleeve_tradi.Base.{
  any, ◌⊎◌, ℕ, zero, suc, ◌-◌, ◌≤◌, ◌<◌, ◌≡◌, refl, inl, inr, Bool, true, false, not, ◌&&◌, ◌||◌,
  some, List, [], ◌∷◌, arith, leb, Bool-cases, length, All,
}
use crypto_dual_sleeve_tradi.Base.Result.{err, ok, Result, Result-cases}
use crypto_dual_sleeve_tradi.Base.Key.{string_key, pair_key}
use crypto_dual_sleeve_tradi.Ops.Loop.{
  reached, run, running, raised, iterate, results_append, finished, LoopConfig, Outcome,
}
use crypto_dual_sleeve_tradi.Base.Exec.{Exec}
use crypto_dual_sleeve_tradi.Core.Enums.{
  trading_mode_enum, sleeve_id_enum, order_side_enum, position_side_enum, order_type_enum,
  order_action_enum, order_status_enum, safe_mode_state_enum, circuit_action_enum,
}

-- the results but the last
abbrev pub all_but_last : {R : Type 0} → List R → List R
all_but_last [] = []
all_but_last (r ∷ []) = []
all_but_last (r ∷ s ∷ rs) = r ∷ all_but_last (s ∷ rs)

-- What the results of a loop with a maximum are.
abbrev pub Kept : {R : Type 0} → (R → Bool) → Bool → ℕ → Outcome R → Type 0
Kept consistent stop left (finished rs) =
    (length rs ≤ left)
    × All (λ r. (stop && not (consistent r)) ≡ false) (all_but_last rs)
    × ((length rs ≡ left) ⊎ (any (λ r. stop && not (consistent r)) rs ≡ true))
Kept consistent stop left (raised e) = Unit
Kept consistent stop left running = ⊥

module _ {W R : Type 0} (config : LoopConfig) (run_once : ℕ → Exec W R) (consistent : R → Bool)
    (pause : ℕ → W → W) (most : ℕ) where
  append-Kept :
      (left : ℕ) (result : R) (rest : Outcome R)
      → (config.stop_on_mismatch && not (consistent result)) ≡ false
      → Kept consistent config.stop_on_mismatch left rest
      → Kept consistent config.stop_on_mismatch (suc left) (results_append result rest)
  append-Kept left result (finished []) h k = ground arith
  append-Kept left result (finished (r ∷ rs)) h k = ground arith
  append-Kept left result (raised e) h k = tt
  append-Kept left result running h k = k

  -- one more result, the last one
  last-Kept :
      (left : ℕ) (result : R)
      → 0 < left
      → ((config.stop_on_mismatch && not (consistent result)) || leb left 1) ≡ true
      → Kept consistent config.stop_on_mismatch left (finished (result ∷ []))
  last-Kept left result pos h = ground arith

  iterate-Kept :
      (fuel iterations : ℕ) (w : W)
      → config.max_iterations ≡ some most
      → iterations ≤ most
      → most - iterations < fuel
      → Kept consistent config.stop_on_mismatch
          (most - iterations)
          (iterate config run_once consistent pause fuel iterations w).0
  unfolding iterate
  iterate-Kept zero iterations w m bound enough = absurd (omega arith)
  iterate-Kept (suc fuel) iterations w m bound enough =
      let here = (iterate config run_once consistent pause (suc fuel) iterations w).0 in
      elim (Bool-cases (reached config.max_iterations iterations)) [
        | inl e ↦
            let done : most - iterations ≡ 0 = ground arith in
            let shape : here ≡ finished [] = ground arith in
            rw (shape, done) (omega arith, tt, inl refl)
        | inr e ↦ elim (Result-cases (run_once iterations w).0) [
          | inr (exc, raises) ↦ let shape : here ≡ raised exc = ground arith in rw shape tt
          | inl (result, makes) ↦
              let stop = config.stop_on_mismatch && not (consistent result) in
              elim (Bool-cases (stop || reached config.max_iterations (suc iterations))) [
                | inl stops_now ↦
                    let shape : here ≡ finished (result ∷ []) = ground arith in
                    rw shape (last-Kept (most - iterations) result (ground arith) (ground arith))
                | inr goes_on ↦
                    let left : most - iterations ≡ suc (most - suc iterations) = ground arith in
                    let rest =
                      (iterate config run_once consistent pause fuel (suc iterations)
                        (pause config.interval_seconds (run_once iterations w).1)).0 in
                    let shape : here ≡ results_append result rest = ground arith in
                    rw (shape, left)
                      (append-Kept (most - suc iterations) result rest (ground arith) (
                        iterate-Kept fuel (suc iterations)
                          (pause config.interval_seconds (run_once iterations w).1) m (ground arith)
                          (ground arith)))
              ]
        ]
      ]

  -- With a maximum of iterations, and fuel for one more, the loop ends. If no iteration raises there
  -- are at most as many results as the maximum says, none but the last is a mismatch that stops the
  -- loop, and there are exactly as many as the maximum says or one of them is such a mismatch.
  pub run-Kept :
      (fuel : ℕ) (w : W)
      → config.max_iterations ≡ some most
      → most < fuel
      → Kept consistent config.stop_on_mismatch most (run config run_once consistent pause fuel w).0
  unfolding run
  run-Kept fuel w m enough =
      let e : most - 0 ≡ most = omega arith in
      subst
        (λ left.
          Kept consistent config.stop_on_mismatch left
            (iterate config run_once consistent pause fuel 0 w).0)
        e (iterate-Kept fuel 0 w m (omega arith) (omega arith))

abbrev pub all_consistent : {R : Type 0} → (R → Bool) → List R → Bool
all_consistent consistent [] = true
all_consistent consistent (r ∷ rs) = consistent r && all_consistent consistent rs

-- A flag that each iteration keeps or clears, as its result is consistent or not.
abbrev pub Latched : {R : Type 0} → (R → Bool) → Bool → Bool → Outcome R → Type 0
Latched consistent before after (finished rs) = after ≡ (before && all_consistent consistent rs)
Latched consistent before after (raised e) = (after && before) ≡ after
Latched consistent before after running = (after && before) ≡ after

-- what one iteration does to the flag
abbrev pub StepsFlag : {R : Type 0} → (R → Bool) → Bool → Bool → Result R → Type 0
StepsFlag consistent before after (ok r) = after ≡ (before && consistent r)
StepsFlag consistent before after (err e) = (after && before) ≡ after

module _ {W R : Type 0} (config : LoopConfig) (run_once : ℕ → Exec W R) (consistent : R → Bool)
    (pause : ℕ → W → W) (flag : W → Bool)
    (step : (n : ℕ) (w : W)
      → StepsFlag consistent (flag w) (flag (run_once n w).1) (run_once n w).0)
    (rest : (n : ℕ) (w : W) → flag (pause n w) ≡ flag w) where
  append-Latched :
      (before middle after : Bool) (r : R) (o : Outcome R)
      → middle ≡ (before && consistent r)
      → Latched consistent middle after o
      → Latched consistent before after (results_append r o)
  append-Latched before middle after r (finished rs) h k = ground arith
  append-Latched before middle after r (raised e) h k = ground arith
  append-Latched before middle after r running h k = ground arith

  -- The flag is set after the loop exactly if it was before and all results are consistent; also
  -- when an iteration raises it is not set anew.
  pub iterate-Latched :
      (fuel iterations : ℕ) (w : W)
      → let (o, w') = iterate config run_once consistent pause fuel iterations w in
        Latched consistent (flag w) (flag w') o
  unfolding iterate
  iterate-Latched zero iterations w = ground arith
  iterate-Latched (suc fuel) iterations w =
      let here = iterate config run_once consistent pause (suc fuel) iterations w in
      let first = run_once iterations w in
      elim (Bool-cases (reached config.max_iterations iterations)) [
        | inl e ↦ let shape : here ≡ (finished [], w) = ground arith in rw shape (ground arith)
        | inr e ↦ elim (Result-cases first.0) [
          | inr (exc, raises) ↦
              let shape : here ≡ (raised exc, first.1) = ground arith in
              rw shape (ground (arith, step iterations w))
          | inl (result, makes) ↦
              let stop = config.stop_on_mismatch && not (consistent result) in
              elim (Bool-cases (stop || reached config.max_iterations (suc iterations))) [
                | inl stops_now ↦
                    let shape : here ≡ (finished (result ∷ []), first.1) = ground arith in
                    rw shape (ground (arith, step iterations w))
                | inr goes_on ↦
                    let paused = pause config.interval_seconds first.1 in
                    let later =
                      iterate config run_once consistent pause fuel (suc iterations) paused in
                    let shape : here ≡ (results_append result later.0, later.1) = ground arith in
                    rw shape (
                      append-Latched (flag w) (flag paused) (flag later.1) result later.0
                        (ground (arith, step iterations w, rest config.interval_seconds first.1))
                        (iterate-Latched fuel (suc iterations) paused))
              ]
        ]
      ]
