-- ===== src/Base/Enum.antt =====
-- Python's `StrEnum`: members with text values, compared, written and looked up by value.
use crypto_dual_sleeve_tradi.Base.{
  ℕ, ◌≡◌, ◌↔◌, Bool, true, false, String, List, [], ◌∷◌, ◌==◌, if◌then◌else◌,
}
use crypto_dual_sleeve_tradi.Base.Text.{str_eq, ◌^+◌}
use crypto_dual_sleeve_tradi.Base.Result.{Result, ok, err, value_error}

-- `rank` tells the members apart, as their values do.
pub record Enum (A : Type 0) : Type 0 where
  pub rank : A → ℕ
  pub value : A → String
  pub members : List A
  pub same : (a b : A) → ((rank a == rank b) ≡ true) ↔ (a ≡ b)

module _ {A : Type 0} ⦃e : Enum A⦄ where
  -- `a == b`, and `a in {…}`
  abbrev pub is : A → A → Bool
  is a b = e.rank a == e.rank b

  abbrev pub one_of : List A → A → Bool
  one_of [] a = false
  one_of (b ∷ bs) a = if is a b then true else one_of bs a

  -- `a.value`
  abbrev pub value : A → String
  value = e.value

  find_value : List A → String → Result A
  find_value [] v = err (value_error ("'" ^+ v ^+ "' is not a valid member"))
  find_value (a ∷ rest) v = if str_eq (e.value a) v then ok a else find_value rest v

  -- `A(v)`
  unfoldable pub of_value : String → Result A
  unfolding find_value
  of_value v = find_value e.members v
