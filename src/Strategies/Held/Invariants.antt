-- ===== src/Strategies/Held/Invariants.antt =====
-- The loop over the bars behind an entry in strategies/sleeve_b_replay.py: how long it holds, and what
-- its exit says.
use mathlib.Core.Path.{subst}
use crypto_dual_sleeve_tradi.Base.{
  ◌⊎◌, ◌⊎◌, sym, ℕ, ◌+◌, ◌≤◌, ◌≡◌, refl, ◌∙◌, inl, inr, true, false, List, [], ◌∷◌, arith, leb,
  if◌then◌else◌, Bool-cases, length,
}
use crypto_dual_sleeve_tradi.Base.Key.{string_key, pair_key}
use crypto_dual_sleeve_tradi.Decimal
use crypto_dual_sleeve_tradi.Decimal.{Decimal, nought}
use crypto_dual_sleeve_tradi.Strategies.Held.{
  stop_hit, stop_reason, at_bar, close_rest, Open, Target, Entered, hold, take_targets, take_target,
}
use crypto_dual_sleeve_tradi.Strategies.Bars.{OhlcBar}
use crypto_dual_sleeve_tradi.Decimal.Order.{lt-eq-not-le, lt_irrefl}
use crypto_dual_sleeve_tradi.Core.Enums.{
  trading_mode_enum, sleeve_id_enum, order_side_enum, position_side_enum, order_type_enum,
  order_action_enum, order_status_enum, safe_mode_state_enum, circuit_action_enum,
}

-- the later of two counts
abbrev pub at_most : ℕ → ℕ → ℕ
at_most a b = if leb a b then b else a

take_target-bars_held :
    (t : Entered) (bar : OhlcBar) (target : Target) (s : Open)
    → (take_target t bar target s).bars_held ≡ s.bars_held
unfolding take_target
take_target-bars_held t bar target s = ground arith

pub take_targets-bars_held :
    (t : Entered) (bar : OhlcBar) (targets : List Target) (s : Open)
    → (take_targets t bar targets s).bars_held ≡ s.bars_held
unfolding take_targets
take_targets-bars_held t bar [] s = refl
take_targets-bars_held t bar (target ∷ targets) s =
    take_targets-bars_held t bar targets (take_target t bar target s)
    ∙ take_target-bars_held t bar target s

-- The invariant rule of the loop: `P` holds before each round, `Q` behind each way out.
module _ (t : Entered) (P : ℕ → List OhlcBar → Open → Type 0) (Q : Open → Type 0)
    (stopped : (offset : ℕ) (bar : OhlcBar) (bars : List OhlcBar) (s : Open)
      → P offset (bar ∷ bars) s
      → Q (close_rest t s.stop (stop_reason t s) (at_bar offset bar s)))
    (closed : (offset : ℕ) (bar : OhlcBar) (bars : List OhlcBar) (s : Open)
      → P offset (bar ∷ bars) s
      → Decimal.le (take_targets t bar t.tps (at_bar offset bar s)).remaining_fraction nought ≡ true
      → Q (take_targets t bar t.tps (at_bar offset bar s)))
    (timed : (offset : ℕ) (bar : OhlcBar) (bars : List OhlcBar) (s : Open)
      → P offset (bar ∷ bars) s
      → leb t.time_stop_bars offset ≡ true
      → Q (close_rest t bar.close "TIME_STOP" (take_targets t bar t.tps (at_bar offset bar s))))
    (again : (offset : ℕ) (bar : OhlcBar) (bars : List OhlcBar) (s : Open)
      → P offset (bar ∷ bars) s
      → Decimal.le (take_targets t bar t.tps (at_bar offset bar s)).remaining_fraction nought
        ≡ false
      → leb t.time_stop_bars offset ≡ false
      → P (offset + 1) bars (take_targets t bar t.tps (at_bar offset bar s)))
    (through : (offset : ℕ) (s : Open) → P offset [] s → Q s) where
  pub hold_inv :
      (offset : ℕ) (bars : List OhlcBar) (s : Open) → P offset bars s → Q (hold t offset bars s)
  unfolding hold
  hold_inv offset [] s p = through offset s p
  hold_inv offset (bar ∷ bars) s p =
      let after = take_targets t bar t.tps (at_bar offset bar s) in
      let here = hold t offset (bar ∷ bars) s in
      elim (Bool-cases (stop_hit t.side bar s.stop)) [
        | inl stop ↦
            let shape : here ≡ close_rest t s.stop (stop_reason t s) (at_bar offset bar s) =
              ground arith in
            subst Q (sym shape) (stopped offset bar bars s p)
        | inr goes ↦ elim (Bool-cases (Decimal.le after.remaining_fraction nought)) [
          | inl all ↦
              let shape : here ≡ after = ground arith in
              subst Q (sym shape) (closed offset bar bars s p all)
          | inr left ↦ elim (Bool-cases (leb t.time_stop_bars offset)) [
            | inl late ↦
                let shape : here ≡ close_rest t bar.close "TIME_STOP" after = ground arith in
                subst Q (sym shape) (timed offset bar bars s p late)
            | inr early ↦
                let shape : here ≡ hold t (offset + 1) bars after = ground arith in
                subst Q (sym shape)
                  (hold_inv (offset + 1) bars after (again offset bar bars s p left early))
          ]
        ]
      ]

-- before a round: the number of bars held is one less than the offset, and `total` bars are there
abbrev pub Counts : Entered → ℕ → ℕ → List OhlcBar → Open → Type 0
Counts t total offset bars s =
    (s.bars_held + 1 ≡ offset)
    × (s.bars_held + length bars ≡ total)
    × (offset ≤ at_most t.time_stop_bars 1)

-- what the count is behind the loop
abbrev pub Counted : Entered → ℕ → Open → Type 0
Counted t total r =
    (r.bars_held ≤ total)
    × (r.bars_held ≤ at_most t.time_stop_bars 1)
    × ((Decimal.lt nought r.remaining_fraction ≡ false) ⊎ (r.bars_held ≡ total))

-- The loop holds at most all bars, and at most as many as the time stop says, but one at least. It
-- leaves a part open only when it has seen all bars.
pub hold-Counted :
    (t : Entered) (bars : List OhlcBar) (s : Open)
    → s.bars_held ≡ 0
    → Counted t (length bars) (hold t 1 bars s)
hold-Counted t bars s e =
    hold_inv t (Counts t (length bars)) (Counted t (length bars))
      (λ offset bar rest r p. ground (arith, lt_irrefl nought))
      (λ offset bar rest r p all.
        let here = at_bar offset bar r in
        ground (
          arith,
          take_targets-bars_held t bar t.tps here,
          lt-eq-not-le nought (take_targets t bar t.tps here).remaining_fraction,
        ))
      (λ offset bar rest r p late.
        ground (arith, take_targets-bars_held t bar t.tps (at_bar offset bar r), lt_irrefl nought))
      (λ offset bar rest r p left early.
        ground (arith, take_targets-bars_held t bar t.tps (at_bar offset bar r)))
      (λ offset r p. ground arith) 1 bars s (ground arith)
