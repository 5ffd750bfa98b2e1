-- ===== src/Execution/OrderState/Transitions.antt =====
-- The transition table of execution/order_state_machine.py, seen along sequences of transitions.
use crypto_dual_sleeve_tradi.Base.{
  ℕ, ◌≤◌, ◌<◌, ◌≡◌, refl, ◌≢◌, ◌⊎◌, inl, inr, Bool, true, false, List, [], ◌∷◌, arith, Bool-cases,
  All,
}
use crypto_dual_sleeve_tradi.Base.Enum.{one_of}
use crypto_dual_sleeve_tradi.Base.Result.{ok}
use crypto_dual_sleeve_tradi.Base.Key.{string_key, pair_key}
use crypto_dual_sleeve_tradi.Core.Enums.{
  expired, partially_filled, rejected, submitted, canceled, created, unknown, filled, OrderStatus,
  trading_mode_enum, sleeve_id_enum, order_side_enum, position_side_enum, order_type_enum,
  order_action_enum, order_status_enum, safe_mode_state_enum, circuit_action_enum,
}
use crypto_dual_sleeve_tradi.Base.Exec.{Exec, ◌>>◌}
use crypto_dual_sleeve_tradi.Core.Models.{OrderRecord}
use crypto_dual_sleeve_tradi.Execution.OrderState.{allowed_transitions, transition}

-- Transitions asked for in turn, until one raises.
unfoldable pub run : List (ℕ × OrderStatus) → Exec OrderRecord Unit
run [] order = (ok tt, order)
run ((now, status) ∷ rest) order = (transition now status >> run rest) order

abbrev pub is_terminal : OrderStatus → Bool
is_terminal s = one_of (filled ∷ canceled ∷ rejected ∷ expired ∷ []) s

-- How far an order has come. UNKNOWN is outside: an order can come back from there.
abbrev pub stage : OrderStatus → ℕ
stage created = 0
stage submitted = 1
stage partially_filled = 2
stage unknown = 0
stage _ = 3

abbrev pub AvoidsUnknown : List (ℕ × OrderStatus) → Type 0
AvoidsUnknown = All (λ step. step.1 ≢ unknown)

-- `transition` succeeds exactly on the statuses of the table, and otherwise changes nothing.
pub transition-cases :
    (now : ℕ) (new : OrderStatus) (order : OrderRecord)
    → ((one_of (allowed_transitions order.status) new ≡ true)
        × (transition now new order ≡ (ok tt, record order { status = new; updated_at = now })))
      ⊎ ((one_of (allowed_transitions order.status) new ≡ false)
          × ((transition now new order).1 ≡ order)
          × ((transition now new order).0 ≢ ok tt))
unfolding transition
transition-cases now new order = elim (Bool-cases (one_of (allowed_transitions order.status) new)) [
  | inl e ↦ inl (e, rw e)
  | inr e ↦ inr (e, rw e, rw e (λ h. cc))
]

-- A filled, canceled, rejected or expired order is never changed again: whatever transitions are
-- asked for, the order stays as it is, and the calls succeed only if none is asked for.
pub run_terminal :
    (steps : List (ℕ × OrderStatus)) (order : OrderRecord)
    → is_terminal order.status ≡ true
    → ((run steps order).1 ≡ order) × (((run steps order).0 ≢ ok tt) ⊎ (steps ≡ []))
unfolding run transition
run_terminal [] order h = (refl, inr refl)
run_terminal ((now, status) ∷ rest) order h = ground arith

step-stage :
    (s t : OrderStatus)
    → one_of (allowed_transitions s) t ≡ true
    → s ≢ unknown
    → t ≢ unknown
    → (stage s ≤ stage t) × (0 < stage t)
unfolding allowed_transitions
step-stage s t h u v = ground arith

run-cons :
    (now : ℕ) (status : OrderStatus) (rest : List (ℕ × OrderStatus)) (order next : OrderRecord)
    → transition now status order ≡ (ok tt, next)
    → run ((now, status) ∷ rest) order ≡ run rest next
unfolding run
run-cons now status rest order next e = ground arith

run-cons_fails :
    (now : ℕ) (status : OrderStatus) (rest : List (ℕ × OrderStatus)) (order : OrderRecord)
    → (transition now status order).0 ≢ ok tt
    → (run ((now, status) ∷ rest) order).0 ≢ ok tt
unfolding run
run-cons_fails now status rest order fails e = ground arith

run-nil : (order : OrderRecord) → run [] order ≡ (ok tt, order)
unfolding run
run-nil order = refl

-- While no order is sent to UNKNOWN, an order only moves forward, from CREATED through SUBMITTED and
-- PARTIALLY_FILLED to a terminal status; and after one transition at least it has left CREATED.
pub run-stage :
    (steps : List (ℕ × OrderStatus)) (order : OrderRecord)
    → order.status ≢ unknown
    → AvoidsUnknown steps
    → (run steps order).0 ≡ ok tt
    → (stage order.status ≤ stage (run steps order).1.status)
      × ((steps ≡ []) ⊎ (0 < stage (run steps order).1.status))
run-stage [] order u a h = rw run-nil (omega arith, inl refl)
run-stage ((now, status) ∷ rest) order u a h = elim (transition-cases now status order) [
  | inl (allowed, e) ↦
      let next = record order { status = status; updated_at = now } in
      let same = run-cons now status rest order next e in
      let step = step-stage order.status status allowed u a.0 in
      let later = run-stage rest next a.0 a.1 (rw same at h) in
      rw same (omega (arith, step, later), inr (omega (arith, step, later)))
  | inr (bad, same, fails) ↦ absurd (run-cons_fails now status rest order fails h)
]
