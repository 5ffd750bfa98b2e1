-- ===== src/Base/Text.antt =====
-- Python's `str`: equality, order and concatenation of texts, and the text of a tuple.
use Prim.Native.String.{String, compare, slice}
use Prim.Native.String
use mathlib.Core.Path.{◌≡◌, refl}
use mathlib.Core.Bool.{Bool}
use mathlib.Core.List.{List, [], ◌∷◌}
use text.Mathlib.Text.{◌==◌, is_lt}
pub use text.Mathlib.TextEquality.{eq_iff}
pub use text.Mathlib.TextPositions.{eq_refl}

-- `a == b`
abbrev pub str_eq : String → String → Bool
str_eq a b = a == b

-- `a < b`: texts are ordered by code points, as their UTF-8 bytes are.
abbrev pub str_lt : String → String → Bool
str_lt a b = is_lt (compare a b)

-- `a + b`, and the parts of an f-string
infixr 66 ◌^+◌
abbrev pub ◌^+◌ : String → String → String
a ^+ b = String.◌++◌ a b

items_text : List String → String
items_text [] = ")"
items_text (x ∷ xs) = ", '" ^+ x ^+ "'" ^+ items_text xs

-- `str` of a tuple of texts that hold no quote, backslash or control character
pub tuple_text : List String → String
unfolding items_text
tuple_text [] = "()"
tuple_text (x ∷ []) = "('" ^+ x ^+ "',)"
tuple_text (x ∷ y ∷ ys) = "('" ^+ x ^+ "'" ^+ items_text (y ∷ ys)

tuple_text_two : tuple_text ("a" ∷ "b" ∷ []) ≡ "('a', 'b')"
unfolding tuple_text
tuple_text_two = refl
