-- ===== src/Parser/Examples.antt =====
-- The laws of the operators at concrete symbols.
use zust.Prelude.{◌≡◌, refl, true, some, none, [], ◌∷◌, ◌++◌}
use zust.Parser.Reading.{just, keyword, ends_here, contains}
use zust.Parser.Operators.{symbol, binary_op, first_of, or_else, word, shl_assign, and}
use zust.Parser.Operators.Laws.{is_infix, binary_op-symbol}

shl_assign-infix : is_infix shl_assign ≡ true
unfolding is_infix
shl_assign-infix = refl

-- "<<= x"
binary_op-symbol_example :
    binary_op (symbol shl_assign ++ 32 ∷ 120 ∷ []) ≡ some (shl_assign, 32 ∷ 120 ∷ [])
binary_op-symbol_example = binary_op-symbol shl_assign (120 ∷ []) shl_assign-infix

-- "and x" is the operator, "android" none.
and_word : binary_op (97 ∷ 110 ∷ 100 ∷ 32 ∷ 120 ∷ []) ≡ some (and, 32 ∷ 120 ∷ [])
unfolding binary_op symbol first_of or_else word just keyword ends_here contains
and_word = refl

android : binary_op (97 ∷ 110 ∷ 100 ∷ 114 ∷ 111 ∷ 105 ∷ 100 ∷ []) ≡ none
unfolding binary_op symbol first_of or_else word just keyword ends_here contains
android = refl
