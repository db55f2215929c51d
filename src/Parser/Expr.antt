-- ===== src/Parser/Expr.antt =====
-- parser/src/expr.rs: expressions, and what is read around a finished left operand. Spans are left out.
use zust.Prelude.{ℕ, Bool, true, false, Option, none, some, ltb}
use zust.Prelude.Outcome.{Outcome}
use zust.Dynamic.Value.{Bytes, Dynamic}
use zust.Dynamic.Types.{Ty, Tys}
use zust.Parser.Space.{ParseErr}
use zust.Parser.Operators.{BinaryOp, weight}

pub data UnaryOp : Type 0 where
  neg not_op unknow_op : UnaryOp

-- `if_else` is the statement that a conditional expression becomes; closures and the other statements are
-- numbered. `object_id` is an id with its object.
mutual
  pub data Expr : Type 0 where
    null : Expr
    value : Dynamic → Expr
    const_index var capture id : ℕ → Expr
    object_id : ℕ → Expr → Expr
    assoc_id : ℕ → Tys → Expr
    closure_expr : ℕ → Expr
    with_type : Expr → Ty → Expr
    unary : UnaryOp → Expr → Expr
    binary : Expr → BinaryOp → Expr → Expr
    name : Bytes → Expr
    generic : Expr → Tys → Expr
    assoc : Ty → Bytes → Expr
    typed_method : Expr → Ty → Bytes → Expr
    tuple items : Exprs → Expr
    repeated : Expr → Ty → Expr
    dict : Pairs → Expr
    range : Expr → Expr → Bool → Expr
    call : Expr → Exprs → Expr
    if_else : Expr → Expr → Expr → Expr
    stmt : ℕ → Expr

  pub data Exprs : Type 0 where
    nil : Exprs
    cons : Expr → Exprs → Exprs

  pub data Pairs : Type 0 where
    end : Pairs
    pair : Bytes → Expr → Pairs → Pairs

abbrev pub Reads : Type 0 → Type 0
Reads A = Outcome ParseErr (A × Bytes)

-- An expression, and whether brackets close it.
abbrev pub Closed : Type 0
Closed = Expr × Bool

-- `expr_with_min_weight`: the left operand, its operator, the least weight, and whether a literal of a
-- struct may come.
abbrev pub Reader : Type 0
Reader = Option Closed → Option BinaryOp → ℕ → Bool → Bytes → Reads Closed

-- The left operand is a binary expression whose operator weighs less than the next one.
unfoldable pub is_lighter : Expr → ℕ → Bool
is_lighter (binary left op right) w = ltb (weight op) w
is_lighter _ w = false

unfoldable pub binary_of : Expr → Option (Expr × BinaryOp × Expr)
binary_of (binary left op right) = some (left, op, right)
binary_of e = none

unfoldable pub combine : BinaryOp → Expr → Expr → Expr
combine BinaryOp.range_open left right = range left right false
combine BinaryOp.range_close left right = range left right true
combine op left right = binary left op right

-- What the readers of operands do, given the depth that is left: `base` with the position where it
-- stops, also where it fails; `braces` none where what it tries fails.
pub record Operands : Type 0 where
  pub postfix : ℕ → Expr → Bytes → Reads Expr
  pub list_expr : ℕ → Bytes → Reads Expr
  pub braces : ℕ → Bytes → Option (Reads Expr)
  pub if_block : ℕ → Bytes → Reads Expr
  pub match_block : ℕ → Bytes → Reads Expr
  pub closure : ℕ → Bytes → Reads Expr
  pub base : ℕ → Bool → Bytes → Outcome ParseErr Expr × Bytes
