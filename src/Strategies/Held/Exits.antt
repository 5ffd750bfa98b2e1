-- ===== src/Strategies/Held/Exits.antt =====
-- What the exit of a trade in strategies/sleeve_b_replay.py says of it.
use crypto_dual_sleeve_tradi.Base.{
  inr, ◌≤◌, ℕ, ◌≤◌, any, String, ◌≡◌, refl, ◌⊎◌, inl, Bool, true, false, not, ◌&&◌, ◌||◌, List, [],
  ◌∷◌, ◌++◌, arith,
}
use crypto_dual_sleeve_tradi.Base.Text.{str_eq, eq_iff}
use crypto_dual_sleeve_tradi.Base.Key.{string_key, pair_key}
use crypto_dual_sleeve_tradi.Decimal
use crypto_dual_sleeve_tradi.Decimal.{Decimal, nought}
use crypto_dual_sleeve_tradi.Strategies.Held.{
  at_bar, stop_reason, hold, close_rest, Target, take_targets, take_target, Entered, Open,
}
use crypto_dual_sleeve_tradi.Strategies.Bars.{OhlcBar}
use crypto_dual_sleeve_tradi.Decimal.Sign.{nonneg-sub}
use crypto_dual_sleeve_tradi.Decimal.Order.{lt-eq-not-le, lt_irrefl, le_refl, eq_refl, min-le_right}
use crypto_dual_sleeve_tradi.Strategies.Held.Invariants.{take_targets-bars_held, hold_inv}
use crypto_dual_sleeve_tradi.Core.Enums.{
  trading_mode_enum, sleeve_id_enum, order_side_enum, position_side_enum, order_type_enum,
  order_action_enum, order_status_enum, safe_mode_state_enum, circuit_action_enum,
}

abbrev pub hit : String → Open → Bool
hit label s = any (str_eq label) s.tp_hits

-- no text stands twice
abbrev pub no_repeat : List String → Bool
no_repeat [] = true
no_repeat (x ∷ xs) = not (any (str_eq x) xs) && no_repeat xs

any-append : (p : String → Bool) (xs ys : List String) → any p (xs ++ ys) ≡ (any p xs || any p ys)
any-append p [] ys = refl
any-append p (x ∷ xs) ys = ground (arith, any-append p xs ys)

no_repeat-append :
    (xs : List String) (x : String)
    → any (str_eq x) xs ≡ false
    → no_repeat xs ≡ true
    → no_repeat (xs ++ x ∷ []) ≡ true
no_repeat-append [] x h k = refl
no_repeat-append (y ∷ ys) x h k =
    ground (arith, no_repeat-append ys x, any-append (str_eq y) ys (x ∷ []), eq_iff x y, eq_iff y x)

-- The stop stands where it did at the entry until the first target is taken, then at the entry price.
abbrev pub StopOk : Entered → Open → Type 0
StopOk t s =
    ((hit "TP1" s ≡ false) × (s.stop ≡ t.initial_stop))
    ⊎ ((hit "TP1" s ≡ true) × (s.stop ≡ t.entry))

-- what each round keeps
abbrev pub Sound : Entered → Open → Type 0
Sound t s =
    StopOk t s × (no_repeat s.tp_hits ≡ true) × (Decimal.le nought s.remaining_fraction ≡ true)

take_target-Sound :
    (t : Entered) (bar : OhlcBar) (target : Target) (s : Open)
    → Sound t s
    → Sound t (take_target t bar target s)
unfolding take_target
take_target-Sound t bar target s k = ground (
  arith,
  any-append (str_eq "TP1") s.tp_hits (target.label ∷ []),
  no_repeat-append s.tp_hits target.label,
  eq_iff target.label "TP1",
  eq_iff "TP1" target.label,
  nonneg-sub s.remaining_fraction (Decimal.min target.fraction s.remaining_fraction),
  min-le_right target.fraction s.remaining_fraction,
)

pub take_targets-Sound :
    (t : Entered) (bar : OhlcBar) (targets : List Target) (s : Open)
    → Sound t s
    → Sound t (take_targets t bar targets s)
unfolding take_targets
take_targets-Sound t bar [] s k = k
take_targets-Sound t bar (target ∷ targets) s k =
    take_targets-Sound t bar targets (take_target t bar target s)
      (take_target-Sound t bar target s k)

take_target-Hits :
    (t : Entered) (bar : OhlcBar) (target : Target) (s : Open)
    → (take_target t bar target s ≡ s)
      ⊎ (hit (take_target t bar target s).exit_reason (take_target t bar target s) ≡ true)
unfolding take_target
take_target-Hits t bar target s = ground (
  arith,
  any-append (str_eq target.label) s.tp_hits (target.label ∷ []),
  eq_iff target.label target.label,
)

-- Targets change nothing, or the exit is at one of them.
pub take_targets-Hits :
    (t : Entered) (bar : OhlcBar) (targets : List Target) (s : Open)
    → (take_targets t bar targets s ≡ s)
      ⊎ (hit (take_targets t bar targets s).exit_reason (take_targets t bar targets s) ≡ true)
unfolding take_targets
take_targets-Hits t bar [] s = inl refl
take_targets-Hits t bar (target ∷ targets) s = ground (
  arith,
  take_target-Hits t bar target s,
  take_targets-Hits t bar targets (take_target t bar target s),
)

-- how a closed position was closed
abbrev pub Explained : Entered → Open → Type 0
Explained t o =
    ((o.exit_reason ≡ "STOP_LOSS") × (Decimal.eq o.exit_price t.initial_stop ≡ true))
    ⊎ ((o.exit_reason ≡ "BREAKEVEN_STOP") × (o.exit_price ≡ t.entry) × (hit "TP1" o ≡ true))
    ⊎ (hit o.exit_reason o ≡ true)
    ⊎ ((o.exit_reason ≡ "TIME_STOP") × (t.time_stop_bars ≤ o.bars_held))

-- behind the loop a part is open, or the exit is explained
abbrev pub Left : Entered → Open → Type 0
Left t o =
    Sound t o
    × ((Decimal.lt nought o.remaining_fraction ≡ true)
        ⊎ ((Decimal.lt nought o.remaining_fraction ≡ false) × Explained t o))

-- before a round
abbrev pub Live : Entered → ℕ → List OhlcBar → Open → Type 0
Live t offset bars s = Sound t s × (Decimal.lt nought s.remaining_fraction ≡ true)

-- Targets that close the whole position are the exit.
closed-Hits :
    (t : Entered) (bar : OhlcBar) (s : Open)
    → Decimal.lt nought s.remaining_fraction ≡ true
    → Decimal.le (take_targets t bar t.tps s).remaining_fraction nought ≡ true
    → Explained t (take_targets t bar t.tps s)
unfolding Decimal.lt
closed-Hits t bar s h k = elim (take_targets-Hits t bar t.tps s) [
  | inl same ↦ absurd (ground arith)
  | inr hits ↦ inr (inr (inl hits))
]

stopped-Left :
    (t : Entered) (offset : ℕ) (bar : OhlcBar) (s : Open)
    → Sound t s
    → Left t (close_rest t s.stop (stop_reason t s) (at_bar offset bar s))
stopped-Left t offset bar s k =
    ground (arith, eq_refl t.initial_stop, le_refl nought, lt_irrefl nought)

pub hold-Left :
    (t : Entered) (offset : ℕ) (bars : List OhlcBar) (s : Open)
    → Live t offset bars s
    → Left t (hold t offset bars s)
hold-Left t =
    hold_inv t (Live t) (Left t) (λ offset bar rest r (k, open_part). stopped-Left t offset bar r k)
      (λ offset bar rest r (k, open_part) all.
        let here = at_bar offset bar r in
        let after = take_targets t bar t.tps here in
        let sound : Sound t after = take_targets-Sound t bar t.tps here k in
        (
          sound,
          inr (
            ground (arith, lt-eq-not-le nought after.remaining_fraction),
            closed-Hits t bar here open_part all,
          ),
        ))
      (λ offset bar rest r (k, open_part) late. ground (
        arith,
        take_targets-Sound t bar t.tps (at_bar offset bar r),
        take_targets-bars_held t bar t.tps (at_bar offset bar r),
        le_refl nought,
        lt_irrefl nought,
      ))
      (λ offset bar rest r (k, open_part) left early.
        let here = at_bar offset bar r in
        (
          take_targets-Sound t bar t.tps here k,
          ground (arith, lt-eq-not-le nought (take_targets t bar t.tps here).remaining_fraction),
        ))
      (λ offset r (k, open_part). (k, inl open_part))
