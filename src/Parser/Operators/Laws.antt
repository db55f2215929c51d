-- ===== src/Parser/Operators/Laws.antt =====
-- parser/src/expr.rs: symbols and weights of the operators, and their reading.
use zust.Prelude.{ℕ, ◌≡◌, refl, Bool, true, false, ◌||◌, ◌&&◌, some, List, ◌∷◌, ◌++◌, ◌==◌}
use zust.Parser.Reading.{just, keyword, ends_here, contains}
use zust.Parser.Operators.{
  BinaryOp, symbol, is_logic, is_add, is_arith, is_assign, weight, binary_op, first_of, or_else,
  word, add, sub, mul, div, mod_op, shr, shl, bit_and, bit_or, bit_xor, add_assign, sub_assign,
  mul_assign, div_assign, mod_assign, shr_assign, shl_assign, bit_and_assign, bit_or_assign,
  bit_xor_assign, assign, eq, ne, lt, gt, le, ge, and, or, idx, range_open, range_close, unknow,
}

-- Operators that stand between two operands.
unfoldable pub is_infix : BinaryOp → Bool
is_infix idx = false
is_infix unknow = false
is_infix _ = true

-- The symbol of an infix operator, with a space behind it, is read as that operator, and the space
-- and what follows are left.
pub binary_op-symbol :
    (op : BinaryOp) (rest : List ℕ)
    → is_infix op ≡ true
    → binary_op (symbol op ++ 32 ∷ rest) ≡ some (op, 32 ∷ rest)
unfolding binary_op symbol first_of or_else word just keyword ends_here contains is_infix
binary_op-symbol add rest h = refl
binary_op-symbol sub rest h = refl
binary_op-symbol mul rest h = refl
binary_op-symbol div rest h = refl
binary_op-symbol mod_op rest h = refl
binary_op-symbol shr rest h = refl
binary_op-symbol shl rest h = refl
binary_op-symbol bit_and rest h = refl
binary_op-symbol bit_or rest h = refl
binary_op-symbol bit_xor rest h = refl
binary_op-symbol add_assign rest h = refl
binary_op-symbol sub_assign rest h = refl
binary_op-symbol mul_assign rest h = refl
binary_op-symbol div_assign rest h = refl
binary_op-symbol mod_assign rest h = refl
binary_op-symbol shr_assign rest h = refl
binary_op-symbol shl_assign rest h = refl
binary_op-symbol bit_and_assign rest h = refl
binary_op-symbol bit_or_assign rest h = refl
binary_op-symbol bit_xor_assign rest h = refl
binary_op-symbol assign rest h = refl
binary_op-symbol eq rest h = refl
binary_op-symbol ne rest h = refl
binary_op-symbol lt rest h = refl
binary_op-symbol gt rest h = refl
binary_op-symbol le rest h = refl
binary_op-symbol ge rest h = refl
binary_op-symbol and rest h = refl
binary_op-symbol or rest h = refl
binary_op-symbol idx rest h = cc
binary_op-symbol range_open rest h = refl
binary_op-symbol range_close rest h = refl
binary_op-symbol unknow rest h = cc

-- An infix operator assigns exactly if it has the lowest weight, and no operator is of two of the
-- classes logic, addition and other arithmetic.
pub weight-is_assign :
    (op : BinaryOp)
    → (is_assign op ≡ (is_infix op && weight op == 0))
      × ((is_logic op && (is_add op || is_arith op)) ≡ false)
      × ((is_add op && is_arith op) ≡ false)
unfolding weight is_assign is_infix is_logic is_add is_arith
weight-is_assign add = (refl, refl, refl)
weight-is_assign sub = (refl, refl, refl)
weight-is_assign mul = (refl, refl, refl)
weight-is_assign div = (refl, refl, refl)
weight-is_assign mod_op = (refl, refl, refl)
weight-is_assign shr = (refl, refl, refl)
weight-is_assign shl = (refl, refl, refl)
weight-is_assign bit_and = (refl, refl, refl)
weight-is_assign bit_or = (refl, refl, refl)
weight-is_assign bit_xor = (refl, refl, refl)
weight-is_assign add_assign = (refl, refl, refl)
weight-is_assign sub_assign = (refl, refl, refl)
weight-is_assign mul_assign = (refl, refl, refl)
weight-is_assign div_assign = (refl, refl, refl)
weight-is_assign mod_assign = (refl, refl, refl)
weight-is_assign shr_assign = (refl, refl, refl)
weight-is_assign shl_assign = (refl, refl, refl)
weight-is_assign bit_and_assign = (refl, refl, refl)
weight-is_assign bit_or_assign = (refl, refl, refl)
weight-is_assign bit_xor_assign = (refl, refl, refl)
weight-is_assign assign = (refl, refl, refl)
weight-is_assign eq = (refl, refl, refl)
weight-is_assign ne = (refl, refl, refl)
weight-is_assign lt = (refl, refl, refl)
weight-is_assign gt = (refl, refl, refl)
weight-is_assign le = (refl, refl, refl)
weight-is_assign ge = (refl, refl, refl)
weight-is_assign and = (refl, refl, refl)
weight-is_assign or = (refl, refl, refl)
weight-is_assign idx = (refl, refl, refl)
weight-is_assign range_open = (refl, refl, refl)
weight-is_assign range_close = (refl, refl, refl)
weight-is_assign unknow = (refl, refl, refl)
