-- ===== src/Storage/Positions.antt =====
-- storage/position_store.py: the table of positions, keyed by symbol and side. A row holds the
-- columns of a snapshot; a decimal stands for its text, which reads back as the same number.
use crypto_dual_sleeve_tradi.Base.{
  keep-All, String, ◌≡◌, refl, inl, inr, Bool, true, false, not, Option, none, some, List, [], ◌∷◌,
  arith, if◌then◌else◌, Option-cases, keep, All,
}
use crypto_dual_sleeve_tradi.Base.Key.{pair_eq_iff, pair_eq, string_key, pair_key}
use crypto_dual_sleeve_tradi.Base.Dict
use crypto_dual_sleeve_tradi.Base.Dict.{Dict}
use crypto_dual_sleeve_tradi.Core.Models.{is_flat, position_key, ExchangePositionSnapshot}
use crypto_dual_sleeve_tradi.Core.Enums.{
  trading_mode_enum, sleeve_id_enum, order_side_enum, position_side_enum, order_type_enum,
  order_action_enum, order_status_enum, safe_mode_state_enum, circuit_action_enum,
}

abbrev pub PositionTable : Type 0
PositionTable = Dict (String × String) ExchangePositionSnapshot

-- the row after `ON CONFLICT(symbol, position_side) DO UPDATE SET …`
abbrev on_conflict :
    Option ExchangePositionSnapshot → ExchangePositionSnapshot → ExchangePositionSnapshot
on_conflict none new = new
on_conflict (some old) new = record old {
  position_amt = new.position_amt;
  entry_price = new.entry_price;
  mark_price = new.mark_price;
  unrealized_profit = new.unrealized_profit;
  notional = new.notional;
  isolated_margin = new.isolated_margin;
  update_time_ms = new.update_time_ms;
}

unfoldable pub upsert_position : ExchangePositionSnapshot → PositionTable → PositionTable
upsert_position position table =
    Dict.insert (position_key position)
      (on_conflict (Dict.lookup (position_key position) table) position) table

unfoldable pub get_position : String → String → PositionTable → Option ExchangePositionSnapshot
get_position symbol position_side table = Dict.lookup (symbol, position_side) table

unfoldable pub list_positions : Bool → PositionTable → List ExchangePositionSnapshot
list_positions include_flat table =
    let positions = Dict.values table in
    if include_flat then positions else keep (λ p. not (is_flat p)) positions

-- Every row stands under its own key.
abbrev pub IsKeyed : PositionTable → Type 0
IsKeyed [] = Unit
IsKeyed ((key, position) ∷ table) = (position_key position ≡ key) × IsKeyed table

insert-IsKeyed :
    (key : String × String) (p : ExchangePositionSnapshot) (table : PositionTable)
    → position_key p ≡ key
    → IsKeyed table
    → IsKeyed (Dict.insert key p table)
unfolding Dict.insert
insert-IsKeyed key p [] e h = (e, tt)
insert-IsKeyed key p ((j, old) ∷ table) e h =
    ground (arith, pair_eq_iff key j, insert-IsKeyed key p table e)

lookup-IsKeyed :
    (key : String × String) (table : PositionTable) (p : ExchangePositionSnapshot)
    → IsKeyed table
    → Dict.lookup key table ≡ some p
    → position_key p ≡ key
unfolding Dict.lookup
lookup-IsKeyed key [] p h e = cc
lookup-IsKeyed key ((j, old) ∷ table) p h e =
    ground (arith, pair_eq_iff key j, lookup-IsKeyed key table p h.1)

on_conflict-eq :
    (p : ExchangePositionSnapshot) (table : PositionTable)
    → IsKeyed table
    → on_conflict (Dict.lookup (position_key p) table) p ≡ p
on_conflict-eq p table h = elim (Option-cases (Dict.lookup (position_key p) table)) [
  | inl e ↦ rw e
  | inr (old, e) ↦ rw e (ground (arith, lookup-IsKeyed (position_key p) table old h e))
]

-- An upsert keeps the table keyed, replaces the row of its symbol and side as a whole, and leaves the
-- other rows alone.
pub get-upsert :
    (position : ExchangePositionSnapshot) (symbol side : String) (table : PositionTable)
    → IsKeyed table
    → IsKeyed (upsert_position position table)
      × (get_position symbol side (upsert_position position table) ≡ (
          if pair_eq (symbol, side) (position_key position)
          then some position
          else get_position symbol side table))
unfolding upsert_position get_position
get-upsert position symbol side table h = rw (on_conflict-eq position table h) (
  insert-IsKeyed (position_key position) position table refl h,
  Dict.lookup-insert (symbol, side) (position_key position) position table,
)

-- Without the flat ones, the list holds no position of amount zero.
pub list_positions-open :
    (table : PositionTable) → All (λ p. not (is_flat p) ≡ true) (list_positions false table)
unfolding list_positions
list_positions-open table = keep-All (λ p. not (is_flat p)) (Dict.values table)
